-- ===== src/Retrieval/Query/Fallback.antt =====
-- internal/rag/service.go: a query whose reranker fails, and a query for no hits.
use dong_rag.Retrieval.Context.{prepare_generation_context}
use dong_rag.Retrieval.Query.Grounded.{prepared}
use dong_rag.Retrieval.Diverse.{select_diverse}
use dong_rag.Retrieval.Rerank.Refused.{is_refused, rerank_hits_rejects, rerank_hits_none}
use dong_rag.Retrieval.Rerank.{Reranker, rerank_hits}
use dong_rag.Base.{
  ℕ, ◌≡◌, refl, sym, ap, ◌∙◌, inl, inr, true, Option, none, some, List, [], ◌∷◌, map, Bool-cases, ℤ,
  pos, ltb_ℤ, Result, ok, err, and_then, and_then_ok, ok_inj, Text, is_empty, trim_space,
}
use dong_rag.Store.Library.{Library}
use dong_rag.Retrieval.Hit.{Floats, Hit}
use dong_rag.Retrieval.Query.{
  QueryService, Meets, QueryPreparation, QueryResult, Selected, only_embedding, at_least_k,
  fused_hits, selected_or_fallback, select_hits, with_context, prepare_query, result, query,
}

and_then_assoc :
    {A B C : Type 0}
    → (r : Result A) (f : A → Result B) (g : B → Result C)
    → and_then (and_then r f) g ≡ and_then r (λ a. and_then (f a) g)
and_then_assoc (err e) f g = refl
and_then_assoc (ok a) f g = refl

and_then_ext :
    {A B : Type 0}
    → (r : Result A) (f g : A → Result B) → ((a : A) → f a ≡ g a)
    → and_then r f ≡ and_then r g
and_then_ext (err e) f g h = refl
and_then_ext (ok a) f g h = h a

-- Three steps and a value, marked at the end.
chain_marked :
    {A B C D : Type 0}
    → (r : Result A) (f : A → Result B) (g : B → Result C) (h h' : C → D) (mark : D → D)
    → ((c : C) → h c ≡ mark (h' c))
    → and_then r (λ a. and_then (f a) (λ b. and_then (g b) (λ c. ok (h c))))
      ≡ and_then
          (and_then r (λ a. and_then (f a) (λ b. and_then (g b) (λ c. ok (h' c)))))
          (λ d. ok (mark d))
chain_marked r f g h h' mark e = sym (
    and_then_assoc r _ _
    ∙ and_then_ext r _ _ (λ a.
      and_then_assoc (f a) _ _
      ∙ and_then_ext (f a) _ _
          (λ b. and_then_assoc (g b) _ _ ∙ and_then_ext (g b) _ _ (λ c. ap ok (sym (e c))))))

module _ (F : Floats) where
  -- The reranker has an error, no results or an index out of range for whatever it is asked.
  abbrev pub Fails : Reranker F.Float → Type 0
  Fails reranker =
      (t : Text) (hits : List (Hit F.Float))
      → is_refused hits (reranker t (map (λ h. h.content) hits)) ≡ true

  abbrev pub fallen_back : QueryResult F.Float → QueryResult F.Float
  fallen_back r = record r { rerank_fallback = true }

  abbrev flag : QueryPreparation F.Float → QueryPreparation F.Float
  flag p = record p { rerank_fallback = true }

  falls_back :
      (to_lower : Text → Text) (m : ℤ) (v : Meets F) (reranker : Reranker F.Float) (q : Text)
      (n : ℕ) (k : ℤ) (hits : List (Hit F.Float))
      → Fails reranker
      → with_context F to_lower v q n (select_hits F m (some reranker) q k hits)
        ≡ flag (with_context F to_lower v q n (select_hits F m none q k hits))
  unfolding with_context select_hits
  falls_back to_lower m v reranker q n k hits f =
      let (e, h) = rerank_hits_rejects reranker q hits k m refl (f q hits) in rw h refl

  prepare_falls_back :
      (s : QueryService F) (v : Meets F) (l : Library F.Float) (question : Text) (k : ℤ)
      (reranker : Reranker F.Float)
      → Fails reranker
      → prepare_query F (record s { reranker = some reranker }) v l question k
        ≡ and_then
            (prepare_query F (record s { reranker = none }) v l question k)
            (λ p. ok (flag p))
  unfolding prepare_query
  prepare_falls_back s v l question k reranker f =
      elim (Bool-cases (is_empty (trim_space question))) [
        | inl y ↦ rw y refl
        | inr n ↦
            let q = trim_space question in
            rw n (
              chain_marked (s.embed (q ∷ [])) (only_embedding F s.embedding_dim)
                (fused_hits F s.ranking v l q (at_least_k F s k)) _ _ flag
                (λ hits.
                  falls_back s.to_lower s.rerank_max_per_doc v reranker q (at_least_k F s k) k hits
                    f))
      ]

  abbrev completed : QueryService F → ℕ → QueryPreparation F.Float → Result (QueryResult F.Float)
  completed s n p = and_then (s.complete p.system_prompt p.user_prompt) (λ a. ok (result F p a n))

  results_marked :
      (s : QueryService F) (v : Meets F) (r : Result (QueryPreparation F.Float))
      → and_then (and_then r (λ p. ok (flag p))) (completed s v.total_time)
        ≡ and_then (and_then r (completed s v.total_time)) (λ x. ok (fallen_back x))
  results_marked s v (err e) = refl
  results_marked s v (ok p) = sym (and_then_assoc (s.complete p.system_prompt p.user_prompt) _ _)

  -- A query whose reranker fails gives what the query without a reranker gives, marked as a
  -- fallback.
  pub query_falls_back :
      (s : QueryService F) (v : Meets F) (l : Library F.Float) (question : Text) (k : ℤ)
      (reranker : Reranker F.Float)
      → Fails reranker
      → query F (record s { reranker = some reranker }) v l question k
        ≡ and_then (query F (record s { reranker = none }) v l question k) (λ r. ok (fallen_back r))
  unfolding query
  query_falls_back s v l question k reranker f =
      rw (prepare_falls_back s v l question k reranker f)
        (results_marked s v (prepare_query F (record s { reranker = none }) v l question k))

  select_none :
      (m : ℤ) (r : Option (Reranker F.Float)) (q : Text) (k : ℤ) (hits : List (Hit F.Float))
      → ltb_ℤ k (pos 1) ≡ true
      → (select_hits F m r q k hits).chosen ≡ []
  unfolding select_hits select_diverse rerank_hits
  select_none m none q k hits h = rw h refl
  select_none m (some reranker) q k hits h = fallback_none (rerank_hits reranker q hits k m) refl
    where
      fallback_none :
          (r : Result (List (Hit F.Float)))
          → rerank_hits reranker q hits k m ≡ r
          → (selected_or_fallback F m hits k r).chosen ≡ []
      fallback_none (err e) p = rw h refl
      fallback_none (ok hs) p = rerank_hits_none reranker q hits k m h p

  nothing_prepared :
      (to_lower : Text → Text) (v : Meets F) (q : Text) (n : ℕ) (c : Selected F.Float)
      → c.chosen ≡ []
      → (with_context F to_lower v q n c).hits ≡ []
  unfolding with_context prepare_generation_context
  nothing_prepared to_lower v q n c h = rw h refl

  -- A query that asks for fewer than one hit and gets an answer gets it without a citation.
  pub query_for_none :
      (s : QueryService F) (v : Meets F) (l : Library F.Float) (question : Text) (k : ℤ)
      {r : QueryResult F.Float}
      → ltb_ℤ k (pos 1) ≡ true
      → query F s v l question k ≡ ok r
      → r.citations ≡ []
  unfolding query
  query_for_none s v l question k {r} h e =
      let (p, f, h1) = and_then_ok (prepare_query F s v l question k) _ e in
      let (answer, c, h2) = and_then_ok (s.complete p.system_prompt p.user_prompt) _ h1 in
      let (hits, w) = prepared F s v l question k f in
      let none_chosen =
        select_none s.rerank_max_per_doc s.reranker (trim_space question) k hits h in
      ap (λ x. x.citations) (sym (ok_inj h2))
      ∙ ap (λ x. x.hits) (sym w)
      ∙ nothing_prepared s.to_lower v (trim_space question) (at_least_k F s k)
          (select_hits F s.rerank_max_per_doc s.reranker (trim_space question) k hits) none_chosen
