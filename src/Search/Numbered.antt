-- ===== src/Search/Numbered.antt =====
-- internal/store/store.go and internal/rag/service.go: the hits of numbered rows, and what fuseRRF
-- makes of their places.
use dong_rag.Base.{
  ℕ, suc, ◌+◌, ◌≡◌, refl, sym, ap, subst, inl, inr, Option, none, some, List, [], ◌∷◌, map, arith,
  Bool-cases, length, All, find_where, text_eq,
}
use dong_rag.Store.Tables.{Document, Chunk}
use dong_rag.Store.Library.{Library, is_document_of}
use dong_rag.Retrieval.Hit.{Floats, Hit}
use dong_rag.Retrieval.Fuse.{share}
use dong_rag.Retrieval.Fuse.Insert.{place_of, ranked_vector, ranked_lexical, merge_lexical}
use dong_rag.Search.{
  Ranking, Ranked, Joined, is_row_of, number_rows, with_document, scan_hit, vector_hit, lexical_hit,
  join_rows, join_both,
}
use dong_rag.Search.Rows.{Existing, document_or_blank, find-any, document_of}

module _ (F : Floats) (R : Ranking F) (l : Library F.Float) where
  pub with_document_lem :
      (c : Chunk F.Float) (f : Document → Hit F.Float)
      → Existing l c
      → with_document F R l c.document_id f ≡ f (document_of l c) ∷ []
  with_document_lem c f e =
      let (d, found) = find-any (is_document_of c.document_id) l.documents e in
      subst
        (λ r.
          elim r as (λ x. List (Hit F.Float)) [ none ↦ [] | some x ↦ f x ∷ [] ]
          ≡ f (document_or_blank r) ∷ [])
        (sym found) refl

  -- The hits that a search makes of rows whose documents exist.
  abbrev pub hits_of :
      (Ranked F.Float → Document → Hit F.Float) → List (Ranked F.Float) → List (Hit F.Float)
  hits_of f rs = map (λ r. f r (document_of l r.row)) rs

  pub join_rows_lem :
      (f : Ranked F.Float → Document → Hit F.Float) (rs : List (Ranked F.Float))
      → All (λ r. Existing l r.row) rs
      → join_rows F R f l rs ≡ hits_of f rs
  unfolding join_rows
  join_rows_lem f [] e = refl
  join_rows_lem f (r ∷ rs) (e, es) =
      rw (with_document_lem r.row (f r) e, join_rows_lem f rs es) refl

  pub join_both_lem :
      (f : Joined F.Float → Document → Hit F.Float) (js : List (Joined F.Float))
      → All (λ j. Existing l j.chunk) js
      → join_both F R f l js ≡ map (λ j. f j (document_of l j.chunk)) js
  unfolding join_both
  join_both_lem f [] e = refl
  join_both_lem f (j ∷ js) (e, es) =
      rw (with_document_lem j.chunk (f j) e, join_both_lem f js es) refl

  pub number_rows-Existing :
      (score : Chunk F.Float → F.Float) (i : ℕ) (cs : List (Chunk F.Float))
      → All (Existing l) cs
      → All (λ r. Existing l r.row) (number_rows F R score i cs)
  unfolding number_rows
  number_rows-Existing score i [] e = tt
  number_rows-Existing score i (c ∷ cs) (e, es) = (e, number_rows-Existing score (suc i) cs es)

  pub length-number_rows :
      (score : Chunk F.Float → F.Float) (i : ℕ) (cs : List (Chunk F.Float))
      → length (number_rows F R score i cs) ≡ length cs
  unfolding number_rows
  length-number_rows score i [] = refl
  length-number_rows score i (c ∷ cs) = ap suc (length-number_rows score (suc i) cs)

  -- What the fusion makes of the vector search's hits, in terms of the rows.
  abbrev pub shared : F.Float → Hit F.Float → Hit F.Float
  shared s h = record h { rrf_score = s }

  abbrev pub vector_shared : Ranked F.Float → Document → Hit F.Float
  vector_shared r d = shared (F.reciprocal (60 + r.rank)) (vector_hit F R r d)

  abbrev pub lexical_shared : Ranked F.Float → Document → Hit F.Float
  lexical_shared r d = shared (F.reciprocal (60 + r.rank)) (lexical_hit F R r d)

  abbrev pub row_at : (Chunk F.Float → F.Float) → ℕ → Chunk F.Float → Ranked F.Float
  row_at score i c = record { rank = i + 1; value = score c; row = c }

  pub same_share : (i : ℕ) → share F i ≡ F.reciprocal (60 + (i + 1))
  same_share i = ap F.reciprocal (omega arith)

  pub ranked_vector-number :
      (score : Chunk F.Float → F.Float) (i : ℕ) (cs : List (Chunk F.Float))
      → ranked_vector F i (hits_of (vector_hit F R) (number_rows F R score i cs))
        ≡ hits_of vector_shared (number_rows F R score i cs)
  unfolding number_rows
  ranked_vector-number score i [] = refl
  ranked_vector-number score i (c ∷ cs) =
      let rest = ranked_vector-number score (suc i) cs in
      rw rest (
        ap
          (λ s.
            shared s (vector_hit F R (row_at score i c) (document_of l c))
            ∷ hits_of vector_shared (number_rows F R score (suc i) cs))
          (same_share i))

  pub ranked_lexical-number :
      (score : Chunk F.Float → F.Float) (i : ℕ) (cs : List (Chunk F.Float))
      → ranked_lexical F i (hits_of (lexical_hit F R) (number_rows F R score i cs))
        ≡ hits_of lexical_shared (number_rows F R score i cs)
  unfolding number_rows
  ranked_lexical-number score i [] = refl
  ranked_lexical-number score i (c ∷ cs) =
      let rest = ranked_lexical-number score (suc i) cs in
      rw rest (
        ap
          (λ s.
            shared s (lexical_hit F R (row_at score i c) (document_of l c))
            ∷ hits_of lexical_shared (number_rows F R score (suc i) cs))
          (same_share i))

  abbrev pub and_row : Hit F.Float → Option (Ranked F.Float) → Hit F.Float
  and_row x none = x
  and_row x (some r) = record x {
    lexical_rank = r.rank;
    lexical_score = r.value;
    rrf_score = F.plus x.rrf_score (F.reciprocal (60 + r.rank));
  }

  pub merge_lexical-number :
      (score : Chunk F.Float → F.Float) (i : ℕ) (cs : List (Chunk F.Float)) (x : Hit F.Float)
      → merge_lexical F (hits_of (lexical_hit F R) (number_rows F R score i cs)) i x
        ≡ and_row x (find_where (is_row_of x.id) (number_rows F R score i cs))
  unfolding number_rows place_of find_where scan_hit
  merge_lexical-number score i [] x = refl
  merge_lexical-number score i (c ∷ cs) x =
      let rest = merge_lexical-number score (suc i) cs x in
      elim (Bool-cases (text_eq c.id x.id)) [
        | inl y ↦ rw y (
            ap
              (λ s. record x {
                lexical_rank = i + 1;
                lexical_score = score c;
                rrf_score = F.plus x.rrf_score s;
              })
              (same_share i))
        | inr n ↦ rw n rest
      ]
