-- ===== src/Provider/Ranks.antt =====
-- internal/provider/reranker.go with internal/rag/service.go: what the client hands to rerankHits.
use dong_rag.Retrieval.Diverse.{select_diverse}
use dong_rag.Provider.{HttpResponse, Exchange, wrap_error, response_of, is_success}
use dong_rag.Base.{
  ℕ, zero, suc, ◌*◌, ◌<◌, ◌≡◌, refl, sym, ap, subst, ◌∙◌, ◌≢◌, inl, inr, Bool, false, ◌||◌, none,
  List, [], ◌∷◌, map, arith, ◌==◌, ==_iff, Bool-cases, Option-cases, length, get_elem?, take, All,
  find_where, length-map, All-map, ℤ, pos, negsuc, ltb_ℤ, leb_ℤ, Result, ok, err, and_then,
  and_then_ok, ok_inj, Text, Bytes, codes,
}
use dong_rag.Retrieval.Hit.{Floats, Hit}
use dong_rag.Retrieval.Rerank.Ranked.{IsValidIndex, IsReranking, rerank_hits-IsReranking}
use dong_rag.Retrieval.Rerank.{RerankResult, candidate, number, rerank_hits}
use dong_rag.Provider.Rerank.{
  is_outside, place_result, sort_results, checked_results, results_in, rerank, copied, copy_ok,
  func_reranker,
}

module _ (F : Floats) where
  -- No result stands behind one with a lower score.
  abbrev pub Falling : List (RerankResult F.Float) → Type 0
  Falling [] = Unit {0}
  Falling (r ∷ rs) = All (λ q. F.lt r.result_score q.result_score ≡ false) rs × Falling rs

  place_result-All :
      (P : RerankResult F.Float → Type 0) (r : RerankResult F.Float)
      (rs : List (RerankResult F.Float))
      → P r
      → All P rs
      → All P (place_result F r rs)
  unfolding place_result
  place_result-All P r [] h hs = (h, tt)
  place_result-All P r (q ∷ qs) h (k, ks) = elim (Bool-cases (F.lt r.result_score q.result_score)) [
    | inl y ↦ rw y (k, place_result-All P r qs h ks)
    | inr n ↦ rw n (h, (k, ks))
  ]

  sort_results-All :
      (P : RerankResult F.Float → Type 0) (rs : List (RerankResult F.Float))
      → All P rs
      → All P (sort_results F rs)
  unfolding sort_results
  sort_results-All P [] h = tt
  sort_results-All P (r ∷ rs) (h, hs) =
      place_result-All P r (sort_results F rs) h (sort_results-All P rs hs)

  length-place_result :
      (r : RerankResult F.Float) (rs : List (RerankResult F.Float))
      → length (place_result F r rs) ≡ suc (length rs)
  unfolding place_result
  length-place_result r [] = refl
  length-place_result r (q ∷ qs) = ground (arith, length-place_result r qs)

  length-sort_results : (rs : List (RerankResult F.Float)) → length (sort_results F rs) ≡ length rs
  unfolding sort_results
  length-sort_results [] = refl
  length-sort_results (r ∷ rs) =
      length-place_result r (sort_results F rs) ∙ ap suc (length-sort_results rs)

  lowered :
      (r q : RerankResult F.Float) (qs : List (RerankResult F.Float))
      → F.lt r.result_score q.result_score ≡ false
      → All (λ p. F.lt q.result_score p.result_score ≡ false) qs
      → All (λ p. F.lt r.result_score p.result_score ≡ false) qs
  lowered r q qs n h =
      All-map (λ p. F.lt q.result_score p.result_score ≡ false)
        (λ p. F.lt r.result_score p.result_score ≡ false) qs
        (λ p k. F.not-lt_trans r.result_score q.result_score p.result_score n k) h

  place_result-Falling :
      (r : RerankResult F.Float) (rs : List (RerankResult F.Float))
      → Falling rs
      → Falling (place_result F r rs)
  unfolding place_result
  place_result-Falling r [] h = (tt, tt)
  place_result-Falling r (q ∷ qs) (h, hs) = elim (Bool-cases (F.lt r.result_score q.result_score)) [
    | inl y ↦ rw y (
      place_result-All (λ p. F.lt q.result_score p.result_score ≡ false) r qs
          (F.lt_asym r.result_score q.result_score y) h,
      place_result-Falling r qs hs,
    )
    | inr n ↦ rw n ((n, lowered r q qs n h), (h, hs))
  ]

  sort_results-Falling : (rs : List (RerankResult F.Float)) → Falling (sort_results F rs)
  unfolding sort_results
  sort_results-Falling [] = tt
  sort_results-Falling (r ∷ rs) =
      place_result-Falling r (sort_results F rs) (sort_results-Falling rs)

  find_where-none :
      (p : RerankResult F.Float → Bool) (rs : List (RerankResult F.Float))
      → find_where p rs ≡ none
      → All (λ r. p r ≡ false) rs
  unfolding find_where
  find_where-none p [] h = tt
  find_where-none p (r ∷ rs) h = elim (Bool-cases (p r)) [
    | inl y ↦ absurd (let h' = rw y at h in cc)
    | inr n ↦ (n, find_where-none p rs (rw n at h))
  ]

  copied-id : (rs : List (RerankResult F.Float)) → copied F rs ≡ rs
  copied-id [] = refl
  copied-id (r ∷ rs) = ap (λ qs. r ∷ qs) (copied-id rs)

  pub record IsRanking (n : ℕ) (rs : List (RerankResult F.Float)) : Type 0 where
    pub counted : length rs ≡ n
    pub inside : All (λ r. is_outside F n r ≡ false) rs
    pub falling : Falling rs

  checked_results-IsRanking :
      (n : ℕ) (items : List (RerankResult F.Float)) {rs : List (RerankResult F.Float)}
      → checked_results F n items ≡ ok rs
      → IsRanking n rs
  unfolding checked_results
  checked_results-IsRanking n items {rs} h = elim (Bool-cases (length items == n)) [
    | inr other ↦ absurd (let h' = rw other at h in cc)
    | inl same ↦ elim (Option-cases (find_where (is_outside F n) items)) [
      | inr (r, found) ↦ absurd (let h' = rw (same, found) at h in cc)
      | inl clean ↦ subst (IsRanking n) (ok_inj (rw (same, clean) at h)) record {
        counted = length-sort_results items ∙ (==_iff (length items) n).0 same;
        inside =
            sort_results-All (λ r. is_outside F n r ≡ false) items
              (find_where-none (is_outside F n) items clean);
        falling = sort_results-Falling items;
      }
    ]
  ]

  module _ (decode : Bytes → Result (List (RerankResult F.Float)))
      (exchange : Text → List Text → Exchange) where
    answered-IsRanking :
        (n : ℕ) (response : Result HttpResponse) {rs : List (RerankResult F.Float)}
        → and_then response (results_in F decode n) ≡ ok rs
        → IsRanking n rs
    answered-IsRanking n (err e) h = absurd (cc)
    answered-IsRanking n (ok r) h = elim (Bool-cases (is_success r)) [
      | inr f ↦ absurd (let h' = rw f at h in cc)
      | inl s ↦
          let (items, d, c) =
            and_then_ok
              (wrap_error (codes "decode reranker response: ") (decode (take (4 * 1048576) r.body)))
              (checked_results F n) (rw s at h) in
          checked_results-IsRanking n items c
    ]

    rerank-IsRanking :
        (query t : Text) (ts : List Text) {rs : List (RerankResult F.Float)}
        → rerank F decode exchange query (t ∷ ts) ≡ ok rs
        → IsRanking (length (t ∷ ts)) rs
    unfolding rerank
    rerank-IsRanking query t ts h =
        answered-IsRanking (length (t ∷ ts))
          (response_of (codes "reranker request: ") (exchange query (t ∷ ts))) h

    copy_ok-id : (r : Result (List (RerankResult F.Float))) → copy_ok F r ≡ r
    copy_ok-id (err e) = refl
    copy_ok-id (ok rs) = ap ok (copied-id rs)

    func_reranker-rerank :
        (query : Text) (texts : List Text)
        → func_reranker F decode exchange query texts ≡ rerank F decode exchange query texts
    unfolding func_reranker
    func_reranker-rerank query texts = copy_ok-id (rerank F decode exchange query texts)

    get_elem?-ne-none : {A : Type 0} (xs : List A) (i : ℕ) → i < length xs → get_elem? xs i ≢ none
    get_elem?-ne-none [] i h e = absurd (omega arith)
    get_elem?-ne-none (x ∷ xs) zero h e = cc
    get_elem?-ne-none (x ∷ xs) (suc i) h e = get_elem?-ne-none xs i (omega arith) e

    inside_valid :
        (cs : List (Hit F.Float)) (i : ℤ)
        → (ltb_ℤ i (pos 0) || leb_ℤ (pos (length cs)) i) ≡ false
        → candidate cs i ≢ none
    inside_valid cs (pos i) h = get_elem?-ne-none cs i (ground (arith, h))
    inside_valid cs (negsuc i) h = absurd (ground (arith, h))

    -- What the client of the reranker hands on for one hit or more is a ranking of them, with as many
    -- results as hits, an index of a hit in every result and falling scores, and rerankHits takes
    -- every such answer: its outcome is the selection by documents from the reranking of the hits by
    -- these results.
    pub func_reranker-IsRanking :
        (query : Text) (c : Hit F.Float) (cs : List (Hit F.Float)) (k m : ℤ)
        {rs : List (RerankResult F.Float)}
        → func_reranker F decode exchange query (map (λ h. h.content) (c ∷ cs)) ≡ ok rs
        → IsRanking (length (c ∷ cs)) rs
          × (hits : List (Hit F.Float)) × IsReranking (c ∷ cs) rs hits
          × (rerank_hits (func_reranker F decode exchange) query (c ∷ cs) k m
              ≡ ok (number 0 (select_diverse hits k m)))
    func_reranker-IsRanking query c cs k m {rs} h =
        let texts = map (λ x. x.content) (c ∷ cs) in
        let counted : length texts ≡ length (c ∷ cs) = length-map (c ∷ cs) (λ x. x.content) in
        let ranking =
          subst (λ n. IsRanking n rs) counted
            (rerank-IsRanking query c.content (map (λ x. x.content) cs)
              (sym (func_reranker-rerank query texts) ∙ h)) in
        let (hits, reranking, e) =
          rerank_hits-IsReranking (func_reranker F decode exchange) query (c ∷ cs) k m rs h
            (λ e. absurd (omega (arith, ranking.counted, ap length e)))
            (All-map (λ r. is_outside F (length (c ∷ cs)) r ≡ false) (IsValidIndex (c ∷ cs)) rs
              (λ r. inside_valid (c ∷ cs) r.index) ranking.inside) in
        (ranking, hits, reranking, e)
