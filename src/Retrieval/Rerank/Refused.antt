-- ===== src/Retrieval/Rerank/Refused.antt =====
-- internal/rag/service.go: the answers of a reranker that rerankHits refuses.
use dong_rag.Base.{
  ℕ, suc, ◌≡◌, refl, sym, inl, inr, Bool, true, false, none, some, List, [], ◌∷◌, map, arith,
  Option-cases, any, ℤ, pos, ltb_ℤ, GoError, plain_error, Result, ok, err, ok_inj, Text, codes,
}
use dong_rag.Retrieval.Hit.{Hit}
use dong_rag.Retrieval.Diverse.{select_diverse}
use dong_rag.Retrieval.Rerank.{
  RerankResult, Reranker, Reordered, invalid_index, candidate, note_result, reorder,
  select_numbered, reorder_all, rerank_hits,
}

module _ {Float : Type 0} where
  abbrev names_none : List (Hit Float) → RerankResult Float → Bool
  names_none cs r = elim (candidate cs r.index) [ none ↦ true | some c ↦ false ]

  -- The answers that cannot be used.
  abbrev pub is_refused : List (Hit Float) → Result (List (RerankResult Float)) → Bool
  is_refused cs (err e) = true
  is_refused cs (ok []) = true
  is_refused cs (ok (r ∷ rs)) = any (names_none cs) (r ∷ rs)

  reorder_refuses :
      (cs : List (Hit Float)) (rank : ℕ) (s : Reordered Float) (rs : List (RerankResult Float))
      → any (names_none cs) rs ≡ true
      → (e : GoError) × (reorder cs rank s rs ≡ err e)
  unfolding reorder
  reorder_refuses cs rank s [] h = absurd (cc)
  reorder_refuses cs rank s (r ∷ rs) h = elim (Option-cases (candidate cs r.index)) [
    | inl n ↦ (invalid_index r.index, rw (n, reorder) refl)
    | inr (c, e) ↦
        let (x, q) =
          reorder_refuses cs (suc rank) (note_result rank s r c) rs (ground (arith, h, e)) in
        (x, rw (e, reorder) q)
  ]

  -- The reranker's own error, an empty answer, and a result that names no candidate are errors.
  pub rerank_hits_rejects :
      (reranker : Reranker Float) (query : Text) (cs : List (Hit Float)) (k m : ℤ)
      {answer : Result (List (RerankResult Float))}
      → reranker query (map (λ h. h.content) cs) ≡ answer
      → is_refused cs answer ≡ true
      → (e : GoError) × (rerank_hits reranker query cs k m ≡ err e)
  unfolding rerank_hits
  rerank_hits_rejects reranker query cs k m {answer = err x} p r = (x, rw p refl)
  rerank_hits_rejects reranker query cs k m {answer = ok []} p r =
      (plain_error (codes "reranker returned no results"), rw p refl)
  rerank_hits_rejects reranker query cs k m {answer = ok (r ∷ rs)} p h =
      let (x, q) = reorder_refuses cs 0 (record { ordered = []; seen = [] }) (r ∷ rs) h in
      (x, rw (p, q) refl)

  numbered_none :
      (k m : ℤ) (r : Result (List (Hit Float))) {hits : List (Hit Float)}
      → ltb_ℤ k (pos 1) ≡ true
      → select_numbered k m r ≡ ok hits
      → hits ≡ []
  unfolding select_diverse
  numbered_none k m (err e) h p = absurd (cc)
  numbered_none k m (ok xs) h p = sym (ok_inj (rw h at p))

  -- A reranking for no hits gives none.
  pub rerank_hits_none :
      (reranker : Reranker Float) (query : Text) (cs : List (Hit Float)) (k m : ℤ)
      {hits : List (Hit Float)}
      → ltb_ℤ k (pos 1) ≡ true
      → rerank_hits reranker query cs k m ≡ ok hits
      → hits ≡ []
  unfolding rerank_hits
  rerank_hits_none reranker query cs k m h p =
      numbered_none k m (reorder_all cs (reranker query (map (λ x. x.content) cs))) h p
