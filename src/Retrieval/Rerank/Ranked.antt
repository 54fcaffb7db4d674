-- ===== src/Retrieval/Rerank/Ranked.antt =====
-- internal/rag/service.go: rerankHits puts the candidates in the order of the reranker's results.
use dong_rag.Base.{
  ℕ, suc, ◌+◌, ◌≤◌, ◌<◌, ◌≡◌, refl, sym, ap, subst, ◌∙◌, ◌≢◌, inl, inr, true, false, ◌||◌, none,
  some, List, [], ◌∷◌, ◌++◌, map, append_assoc, append-nil, arith, Bool-cases, Option-cases, length,
  length-append, All, All-append, any, All-map, any-snoc, ℤ, eq_ℤ, eq_of_eq_ℤ, ok, Text,
}
use dong_rag.Retrieval.Hit.{Hit}
use dong_rag.Retrieval.Diverse.{select_diverse}
use dong_rag.Retrieval.Rerank.{
  RerankResult, Reranker, Reordered, candidate, ranked, note_result, reorder, number, rerank_hits,
}

any-eq_ℤ : (i j : ℤ) → eq_ℤ i j ≡ true → (xs : List ℤ) → any (eq_ℤ i) xs ≡ any (eq_ℤ j) xs
any-eq_ℤ i j h [] = refl
any-eq_ℤ i j h (x ∷ xs) = ground (arith, any-eq_ℤ i j h xs)

add_one : (n : ℕ) → n + 1 ≡ suc n
add_one n = omega arith

module _ {Float : Type 0} where
  abbrev pub IsValidIndex : List (Hit Float) → RerankResult Float → Type 0
  IsValidIndex candidates r = candidate candidates r.index ≢ none

  -- The hit is the candidate that one of the results names, the first of them to name it, with that
  -- result's rank and score.
  pub record IsSourced (candidates : List (Hit Float)) (results : List (RerankResult Float))
      (h : Hit Float) : Type 0 where
    pub before : List (RerankResult Float)
    pub result : RerankResult Float
    pub after : List (RerankResult Float)
    pub original : Hit Float
    pub splits : results ≡ before ++ (result ∷ after)
    pub named : candidate candidates result.index ≡ some original
    pub first : any (λ r. eq_ℤ result.index r.index) before ≡ false
    pub is_ranked : h ≡ ranked original (length before) result.result_score

  -- The candidate that the result names is among the hits, with a rank and a score.
  pub record IsNamed (candidates hits : List (Hit Float)) (r : RerankResult Float) : Type 0 where
    pub chosen : Hit Float
    pub rank : ℕ
    pub score : Float
    pub front : List (Hit Float)
    pub back : List (Hit Float)
    pub is_candidate : candidate candidates r.index ≡ some chosen
    pub stands : hits ≡ front ++ (ranked chosen rank score ∷ back)

  IsNamed-append :
      (cs hits more : List (Hit Float)) (r : RerankResult Float)
      → IsNamed cs hits r
      → IsNamed cs (hits ++ more) r
  IsNamed-append cs hits more r h = record {
    chosen = h.chosen;
    rank = h.rank;
    score = h.score;
    front = h.front;
    back = h.back ++ more;
    is_candidate = h.is_candidate;
    stands =
        ap (λ xs. xs ++ more) h.stands
        ∙ append_assoc h.front (ranked h.chosen h.rank h.score ∷ h.back) more;
  }

  -- A result that names what an earlier one names.
  IsNamed-again :
      (cs hits : List (Hit Float)) (i : ℤ) (s : Float) (used : List (RerankResult Float))
      → any (λ r. eq_ℤ i r.index) used ≡ true
      → All (IsNamed cs hits) used
      → IsNamed cs hits (record { index = i; result_score = s })
  IsNamed-again cs hits i s [] y a = absurd (cc)
  IsNamed-again cs hits i s (r ∷ rs) y (h, a) = elim (Bool-cases (eq_ℤ i r.index)) [
    | inl same ↦ record {
      chosen = h.chosen;
      rank = h.rank;
      score = h.score;
      front = h.front;
      back = h.back;
      is_candidate =
          subst (λ j. candidate cs j ≡ some h.chosen) (sym (eq_of_eq_ℤ i r.index same))
            h.is_candidate;
      stands = h.stands;
    }
    | inr other ↦ IsNamed-again cs hits i s rs (ground (arith, other, y)) a
  ]

  abbrev pub Rising : List (Hit Float) → Type 0
  Rising [] = Unit
  Rising (h ∷ hs) = All (λ k. h.rerank_rank < k.rerank_rank) hs × Rising hs

  Rising-snoc :
      (xs : List (Hit Float)) (h : Hit Float)
      → Rising xs
      → All (λ k. k.rerank_rank < h.rerank_rank) xs
      → Rising (xs ++ (h ∷ []))
  Rising-snoc [] h a b = (tt, tt)
  Rising-snoc (x ∷ xs) h (r, a) (l, b) =
      (All-append (λ k. x.rerank_rank < k.rerank_rank) xs (h ∷ []) r (l, tt), Rising-snoc xs h a b)

  -- Where the loop stands after the results `used`.
  record IsReordering (candidates : List (Hit Float)) (results used : List (RerankResult Float))
      (s : Reordered Float) : Type 0 where
    sourced : All (IsSourced candidates results) s.ordered
    rising : Rising s.ordered
    ranks : All (λ k. k.rerank_rank ≤ length used) s.ordered
    named_all : All (IsNamed candidates s.ordered) used
    seen_used : (i : ℤ) → any (eq_ℤ i) s.seen ≡ any (λ r. eq_ℤ i r.index) used

  note_result-IsReordering :
      {cs : List (Hit Float)} {results before : List (RerankResult Float)} (r : RerankResult Float)
      (after : List (RerankResult Float)) {s : Reordered Float} {c : Hit Float}
      → candidate cs r.index ≡ some c
      → results ≡ before ++ (r ∷ after)
      → IsReordering cs results before s
      → IsReordering cs results (before ++ (r ∷ [])) (note_result (length before) s r c)
  unfolding note_result
  note_result-IsReordering {cs} {results} {before} r after {s} {c} e p i =
      elim (Bool-cases (any (eq_ℤ r.index) s.seen)) [
        | inl y ↦ rw y (record {
          sourced = i.sourced;
          rising = i.rising;
          ranks = higher;
          named_all = All-append (IsNamed cs s.ordered) before (r ∷ []) i.named_all (
            IsNamed-again cs s.ordered r.index r.result_score before (sym (i.seen_used r.index) ∙ y)
                i.named_all,
            tt,
          );
          seen_used = λ j.
              subst (λ b. any (eq_ℤ j) s.seen ≡ b) (sym (more j))
                (elim (Bool-cases (eq_ℤ j r.index)) [
                  | inl q ↦ any-eq_ℤ j r.index q s.seen ∙ ground (arith, y, q)
                  | inr q ↦ ground (arith, q, i.seen_used j)
                ]);
        })
        | inr n ↦ rw n (record {
          sourced = All-append (IsSourced cs results) s.ordered (h ∷ []) i.sourced (
            record {
              before = before;
              result = r;
              after = after;
              original = c;
              splits = p;
              named = e;
              first = sym (i.seen_used r.index) ∙ n;
              is_ranked = refl;
            },
            tt,
          );
          rising = Rising-snoc s.ordered h i.rising (
              All-map (λ k. k.rerank_rank ≤ length before)
                (λ k. k.rerank_rank < suc (length before)) s.ordered (λ k l. omega (arith, l))
                i.ranks);
          ranks =
              All-append (λ k. k.rerank_rank ≤ length (before ++ (r ∷ []))) s.ordered (h ∷ [])
                higher (omega (arith, length-append before (r ∷ [])), tt);
          named_all =
              All-append (IsNamed cs (s.ordered ++ (h ∷ []))) before (r ∷ [])
                (All-map (IsNamed cs s.ordered) (IsNamed cs (s.ordered ++ (h ∷ []))) before
                  (λ q k. IsNamed-append cs s.ordered (h ∷ []) q k) i.named_all)
                (
                  record {
                    chosen = c;
                    rank = length before;
                    score = r.result_score;
                    front = s.ordered;
                    back = [];
                    is_candidate = e;
                    stands = refl;
                  },
                  tt,
                );
          seen_used = λ j. sym (more j ∙ ground (arith, i.seen_used j));
        })
      ]
    where
      h : Hit Float
      h = ranked c (length before) r.result_score

      more :
          (j : ℤ)
          → any (λ q. eq_ℤ j q.index) (before ++ (r ∷ []))
            ≡ (any (λ q. eq_ℤ j q.index) before || eq_ℤ j r.index)
      more j = any-snoc (λ q. eq_ℤ j q.index) before r

      higher : All (λ k. k.rerank_rank ≤ length (before ++ (r ∷ []))) s.ordered
      higher =
          All-map (λ k. k.rerank_rank ≤ length before)
            (λ k. k.rerank_rank ≤ length (before ++ (r ∷ []))) s.ordered
            (λ k l. omega (arith, l, length-append before (r ∷ []))) i.ranks

  reorder-IsReordering :
      (cs : List (Hit Float)) (results before after : List (RerankResult Float))
      (s : Reordered Float)
      → results ≡ before ++ after
      → All (IsValidIndex cs) after
      → IsReordering cs results before s
      → (e : Reordered Float) × (reorder cs (length before) s after ≡ ok e.ordered)
        × IsReordering cs results results e
  unfolding reorder
  reorder-IsReordering cs results before [] s p v i =
      (s, refl, subst (λ b. IsReordering cs results b s) (sym (p ∙ append-nil before)) i)
  reorder-IsReordering cs results before (r ∷ rs) s p (v, vs) i =
      elim (Option-cases (candidate cs r.index)) [
        | inl n ↦ absurd (v n)
        | inr (c, e) ↦
            let rest =
              reorder-IsReordering cs results (before ++ (r ∷ [])) rs
                (note_result (length before) s r c) (p ∙ sym (append_assoc before (r ∷ []) rs)) vs
                (note_result-IsReordering r rs e p i) in
            rw (e, reorder) (rw (length-append before (r ∷ []), add_one (length before)) at rest)
      ]

  -- A reranking of the candidates by the results: every hit is the candidate that one result names
  -- and no earlier one, with that result's rank and score, the ranks rise, and every candidate that
  -- a result names is among the hits.
  abbrev pub IsReranking : List (Hit Float) → List (RerankResult Float) → List (Hit Float) → Type 0
  IsReranking cs results hits =
      All (IsSourced cs results) hits × Rising hits × All (IsNamed cs hits) results

  -- Where the reranker answers with at least one result and all name a candidate, the outcome is the
  -- selection by documents from a reranking of the candidates, numbered in its order: the candidates
  -- that the results name, each once, in the order in which they are first named, with the rank and
  -- the score of the result that names them first.
  pub rerank_hits-IsReranking :
      (reranker : Reranker Float) (query : Text) (cs : List (Hit Float)) (k m : ℤ)
      (results : List (RerankResult Float))
      → reranker query (map (λ h. h.content) cs) ≡ ok results
      → results ≢ []
      → All (IsValidIndex cs) results
      → (hits : List (Hit Float)) × IsReranking cs results hits
        × (rerank_hits reranker query cs k m ≡ ok (number 0 (select_diverse hits k m)))
  unfolding rerank_hits
  rerank_hits-IsReranking reranker query cs k m [] e n v = absurd (n refl)
  rerank_hits-IsReranking reranker query cs k m (r ∷ rs) e n v =
      let (o, p, i) =
        reorder-IsReordering cs (r ∷ rs) [] (r ∷ rs) (record { ordered = []; seen = [] }) refl v
          (record {
            sourced = tt;
            rising = tt;
            ranks = tt;
            named_all = tt;
            seen_used = λ j. refl;
          }) in
      (o.ordered, (i.sourced, i.rising, i.named_all), rw (e, p) refl)
