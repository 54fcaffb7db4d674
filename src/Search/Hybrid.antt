-- ===== src/Search/Hybrid.antt =====
-- internal/store/store.go and internal/rag/service.go: searchHybrid computes in one statement what
-- Query computes with two statements and fuseRRF.
use dong_rag.Store.Library.Sound.{IsSound}
use dong_rag.Retrieval.Fuse.Order.{fuse_rrf_deterministic}
use dong_rag.Base.{
  ℕ, zero, suc, ◌≤◌, ◌≡◌, refl, sym, ap, ◌∙◌, inl, inr, Bool, not, List, [], ◌∷◌, map, arith, Permᴰ,
  if◌then◌else◌, Bool-cases, length, take, length-take, All, All-append, any, keep, length-map,
  Apart, perm_refl, Text, text_eq,
}
use dong_rag.Store.Tables.{Document, Chunk}
use dong_rag.Store.Library.{Library}
use dong_rag.Retrieval.Hit.{Floats, Hit}
use dong_rag.Retrieval.Fuse.{values, combine, with_score, precedes, place_fused, in_order, fuse_rrf}
use dong_rag.Retrieval.Fuse.Insert.{same_id}
use dong_rag.Retrieval.Fuse.Content.{combine_lem}
use dong_rag.Search.{
  Ranking, place_row, order_by, Ranked, Joined, is_row_of, full_join, number_rows, is_closer,
  vector_score_of, semantic, lexical_score_of, is_more_relevant, is_relevant, lexical, scan_hit,
  vector_hit, lexical_hit, join_rows, search_vector, search_lexical, hybrid_hit, join_both,
  is_ahead, search_hybrid,
}
use dong_rag.Search.Rows.{
  same_chunk, Existing, Rows, order_by-Rows, take-Rows, keep-Rows, chunks-Rows, document_of,
}
use dong_rag.Search.Numbered.{
  hits_of, join_rows_lem, join_both_lem, number_rows-Existing, length-number_rows, row_at,
}
use dong_rag.Search.Sides.{HasNought, semantic_row, lexical_row, joins_agree}

module _ (F : Floats) (R : Ranking F) (l : Library F.Float) where
  abbrev AllExisting : List (Joined F.Float) → Type 0
  AllExisting js = All {A = Joined F.Float} (λ j. Existing l j.chunk) js

  lexical_rows-Existing :
      (p : Ranked F.Float → Bool) (rs : List (Ranked F.Float))
      → All (λ r. Existing l r.row) rs
      → AllExisting (map (lexical_row F R l) (keep p rs))
  unfolding keep
  lexical_rows-Existing p [] e = tt
  lexical_rows-Existing p (r ∷ rs) (e, es) =
      let rest = lexical_rows-Existing p rs es in
      elim (Bool-cases (p r)) [ inl y ↦ rw y (e, rest) | inr n ↦ rw n rest ]

  semantic_rows-Existing :
      (ls rs : List (Ranked F.Float))
      → All (λ r. Existing l r.row) rs
      → AllExisting (map ((semantic_row F R l) ls) rs)
  semantic_rows-Existing ls [] e = tt
  semantic_rows-Existing ls (r ∷ rs) (e, es) = (e, semantic_rows-Existing ls rs es)

  full_join-Existing :
      (ss ls : List (Ranked F.Float))
      → All (λ r. Existing l r.row) ss
      → All (λ r. Existing l r.row) ls
      → AllExisting (full_join ss ls)
  unfolding full_join
  full_join-Existing ss ls a b =
      All-append {A = Joined F.Float} (λ j. Existing l j.chunk) (map ((semantic_row F R l) ls) ss)
        (map (lexical_row F R l) (keep (λ r. not (any (is_row_of r.row.id) ss)) ls))
        (semantic_rows-Existing ls ss a)
        (lexical_rows-Existing (λ r. not (any (is_row_of r.row.id) ss)) ls b)

  hits-Apart :
      (f : Ranked F.Float → Document → Hit F.Float) (score : Chunk F.Float → F.Float) (i : ℕ)
      (cs : List (Chunk F.Float))
      → ((r : Ranked F.Float) (d : Document) → (f r d).id ≡ r.row.id)
      → Apart same_chunk cs
      → Apart same_id (hits_of F R l f (number_rows F R score i cs))
  unfolding number_rows
  hits-Apart f score i [] e a = tt
  hits-Apart f score i (c ∷ cs) e (n, a) = (
    rw (e (row_at F R l score i c) (document_of l c)) (ids_of c.id (suc i) cs ∙ n),
    hits-Apart f score (suc i) cs e a,
  )
    where
      ids_of :
          (id : Text) (j : ℕ) (ds : List (Chunk F.Float))
          → any (λ h. text_eq id h.id) (hits_of F R l f (number_rows F R score j ds))
            ≡ any (λ d. text_eq id d.id) ds
      ids_of id j [] = refl
      ids_of id j (d ∷ ds) =
          rw (e (row_at F R l score j d) (document_of l d), ids_of id (suc j) ds) refl

  place-order :
      (h : Hit F.Float) (hs : List (Hit F.Float))
      → place_fused F h hs ≡ place_row (is_ahead F R (λ x. x.rrf_score)) h hs
  unfolding place_fused place_row precedes is_ahead
  place-order h [] = refl
  place-order h (k ∷ ks) = ap (λ t. if precedes F k h then k ∷ t else h ∷ k ∷ ks) (place-order h ks)

  in_order-order :
      (hs : List (Hit F.Float)) → in_order F hs ≡ order_by (is_ahead F R (λ x. x.rrf_score)) hs
  unfolding in_order order_by
  in_order-order [] = refl
  in_order-order (h ∷ hs) =
      rw (in_order-order hs) (place-order h (order_by (is_ahead F R (λ x. x.rrf_score)) hs))

  take_all : {A : Type 0} → (n : ℕ) (xs : List A) → length xs ≤ n → take n xs ≡ xs
  take_all zero [] h = refl
  take_all zero (x ∷ xs) h = absurd (omega (arith, h))
  take_all (suc n) [] h = refl
  take_all (suc n) (x ∷ xs) h = ap (◌∷◌ x) (take_all n xs (omega (arith, h)))

  -- The hits of a search that is not cut further.
  searched :
      (f : Ranked F.Float → Document → Hit F.Float) (score : Chunk F.Float → F.Float) (n : ℕ)
      (cs : List (Chunk F.Float))
      → Rows l cs
      → take n (join_rows F R f l (number_rows F R score 0 (take n cs)))
        ≡ (hits_of F R l) f (number_rows F R score 0 (take n cs))
  searched f score n cs r =
      let rows = number_rows F R score 0 (take n cs) in
      let size : length (hits_of F R l f rows) ≤ n = omega (
        arith,
        length-map rows (λ x. f x (document_of l x.row)),
        (length-number_rows F R l) score 0 (take n cs),
        length-take n cs,
      ) in
      rw
        (join_rows_lem F R l f rows
          (number_rows-Existing F R l score 0 (take n cs) ((take-Rows l n cs r).1)))
        (take_all n (hits_of F R l f rows) size)

  -- The fusion of the rows' hits is the rows' full outer join.
  row_fusion :
      (z : HasNought F) (f g : Chunk F.Float → F.Float) (cs ds : List (Chunk F.Float))
      → Rows l cs
      → Rows l ds
      → map (with_score F) (
          values (
            combine F
              (hits_of F R l (vector_hit F R) (number_rows F R f 0 cs))
              (hits_of F R l (lexical_hit F R) (number_rows F R g 0 ds))))
        ≡ join_both F R
            (hybrid_hit F R)
            l
            (full_join (number_rows F R f 0 cs) (number_rows F R g 0 ds))
  unfolding full_join scan_hit
  row_fusion z f g cs ds (a, x) (b, y) =
      let ss = number_rows F R f 0 cs in
      let ls = number_rows F R g 0 ds in
      let content =
        combine_lem F (hits_of F R l (vector_hit F R) ss) (hits_of F R l (lexical_hit F R) ls)
          (hits-Apart (vector_hit F R) f 0 cs (λ r d. refl) a)
          (hits-Apart (lexical_hit F R) g 0 ds (λ r d. refl) b) in
      let joined = (join_both_lem F R l) (hybrid_hit F R) (full_join ss ls) (
        full_join-Existing ss ls (number_rows-Existing F R l f 0 cs x)
          (number_rows-Existing F R l g 0 ds y)) in
      ap (map (with_score F)) content ∙ (joins_agree F R l) z f g cs ds ∙ sym joined

  -- The hybrid statement, asked for as many hits as candidates, gives what Query makes of the
  -- vector and the lexical statement: the same hits in the same order with the same ranks and
  -- scores, in whatever order Go visits the map of the fusion, provided that the tables are
  -- consistent and that adding 0 to a share does not change it.
  pub search_hybrid-fuse_rrf :
      (visit : List (Hit F.Float) → List (Hit F.Float)) (query : Text) (embedding : List F.Float)
      (n : ℕ)
      → ((hs : List (Hit F.Float)) → Permᴰ hs (visit hs))
      → HasNought F
      → IsSound l
      → search_hybrid F R query embedding n n l
        ≡ fuse_rrf F visit (search_vector F R embedding n n l) (search_lexical F R query n n l) n
  unfolding search_hybrid search_vector search_lexical semantic lexical fuse_rrf
  search_hybrid-fuse_rrf visit query embedding n p z i =
      let cs = order_by (is_closer F R embedding) l.chunks in
      let ds = order_by (is_more_relevant F R query) (keep (is_relevant F R query) l.chunks) in
      let all = chunks-Rows l i in
      let r = order_by-Rows l (is_closer F R embedding) l.chunks all in
      let q =
        order_by-Rows l (is_more_relevant F R query) (keep (is_relevant F R query) l.chunks)
          (keep-Rows l (is_relevant F R query) l.chunks all) in
      let v = searched (vector_hit F R) (vector_score_of F R embedding) n cs r in
      let w = searched (lexical_hit F R) (lexical_score_of F R query) n ds q in
      let vs =
        (hits_of F R l) (vector_hit F R)
          (number_rows F R (vector_score_of F R embedding) 0 (take n cs)) in
      let ws =
        (hits_of F R l) (lexical_hit F R)
          (number_rows F R (lexical_score_of F R query) 0 (take n ds)) in
      let fused =
        row_fusion z (vector_score_of F R embedding) (lexical_score_of F R query) (take n cs)
          (take n ds) (take-Rows l n cs r) (take-Rows l n ds q) in
      let same =
        ap (λ hs. take n (in_order F hs)) fused
        ∙ ap (take n) (
            in_order-order (
              join_both F R (hybrid_hit F R) l
                (full_join (semantic F R embedding n l) (lexical F R query n l)))) in
      sym (
        rw (v, w) (fuse_rrf_deterministic F visit (λ hs. hs) vs ws n p (λ hs. perm_refl hs) ∙ same))
