-- ===== src/Search/Sides.antt =====
-- internal/store/store.go: the rows of searchHybrid's full outer join beside the hits that Query's
-- fusion joins, side by side.
use mathlib.Core.List.{map-append}
use dong_rag.Base.{
  ◌+◌, ◌≡◌, refl, sym, ap, ◌∙◌, inl, inr, not, Option, none, some, List, [], ◌∷◌, ◌++◌, map,
  Bool-cases, any, keep, find_where, Text, text_eq,
}
use dong_rag.Store.Tables.{Chunk}
use dong_rag.Store.Library.{Library}
use dong_rag.Retrieval.Hit.{Floats, Hit}
use dong_rag.Retrieval.Fuse.{with_score}
use dong_rag.Retrieval.Fuse.Insert.{merge_lexical}
use dong_rag.Retrieval.Fuse.Content.{outer_join}
use dong_rag.Search.{
  Ranking, Ranked, Joined, is_row_of, full_join, number_rows, scan_hit, vector_hit, lexical_hit,
  hybrid_hit,
}
use dong_rag.Search.Rows.{document_of}
use dong_rag.Search.Numbered.{
  hits_of, vector_shared, lexical_shared, ranked_vector-number, ranked_lexical-number, and_row,
  merge_lexical-number,
}

cons_eq : {A : Type 0} {x y : A} {xs ys : List A} → x ≡ y → xs ≡ ys → x ∷ xs ≡ y ∷ ys
cons_eq p q = rw (p, q) refl

append_eq : {A : Type 0} {xs xs' ys ys' : List A} → xs ≡ xs' → ys ≡ ys' → xs ++ ys ≡ xs' ++ ys'
append_eq p q = rw (p, q) refl

module _ (F : Floats) where
  -- Adding nothing to a share changes nothing.
  abbrev pub HasNought : Type 0
  HasNought = (a : F.Float) → (F.plus a F.nought ≡ a) × (F.plus F.nought a ≡ a)

module _ (F : Floats) (R : Ranking F) (l : Library F.Float) where
  abbrev pub hybrid_of : Joined F.Float → Hit F.Float
  hybrid_of j = hybrid_hit F R j (document_of l j.chunk)

  semantic_side :
      (z : HasNought F) (s : Ranked F.Float) (r : Option (Ranked F.Float))
      → with_score F (and_row F R l (vector_shared F R l s (document_of l s.row)) r)
        ≡ hybrid_of (record { chunk = s.row; in_semantic = some s; in_lexical = r })
  unfolding scan_hit
  semantic_side z s none = rw ((z (F.reciprocal (60 + s.rank))).0) refl
  semantic_side z s (some r) = refl

  lexical_side :
      (z : HasNought F) (r : Ranked F.Float)
      → with_score F (lexical_shared F R l r (document_of l r.row))
        ≡ hybrid_of (record { chunk = r.row; in_semantic = none; in_lexical = some r })
  unfolding scan_hit
  lexical_side z r = rw ((z (F.reciprocal (60 + r.rank))).1) refl

  semantic_sides :
      (z : HasNought F) (score : Chunk F.Float → F.Float) (cs : List (Chunk F.Float))
      (ss : List (Ranked F.Float))
      → map (with_score F) (
          map
            (merge_lexical F (hits_of F R l (lexical_hit F R) (number_rows F R score 0 cs)) 0)
            (hits_of F R l (vector_shared F R l) ss))
        ≡ map hybrid_of (
            map
              (λ s. record {
                chunk = s.row;
                in_semantic = some s;
                in_lexical = find_where (is_row_of s.row.id) (number_rows F R score 0 cs);
              })
              ss)
  unfolding scan_hit
  semantic_sides z score cs [] = refl
  semantic_sides z score cs (s ∷ ss) =
      let rest = semantic_sides z score cs ss in
      let head =
        ap (with_score F)
          (merge_lexical-number F R l score 0 cs (vector_shared F R l s (document_of l s.row)))
        ∙ semantic_side z s (find_where (is_row_of s.row.id) (number_rows F R score 0 cs)) in
      cons_eq head rest

  semantic_ids :
      (id : Text) (ss : List (Ranked F.Float))
      → any (λ x. text_eq x.id id) (hits_of F R l (vector_hit F R) ss) ≡ any (is_row_of id) ss
  unfolding scan_hit
  semantic_ids id [] = refl
  semantic_ids id (s ∷ ss) = rw (semantic_ids id ss) refl

  abbrev pub semantic_row : List (Ranked F.Float) → Ranked F.Float → Joined F.Float
  semantic_row ls s = record {
    chunk = s.row;
    in_semantic = some s;
    in_lexical = find_where (is_row_of s.row.id) ls;
  }

  lexical_sides :
      (z : HasNought F) (ss ls : List (Ranked F.Float))
      → map (with_score F) (
          keep
            (λ h. not (any (λ x. text_eq x.id h.id) (hits_of F R l (vector_hit F R) ss)))
            (hits_of F R l (lexical_shared F R l) ls))
        ≡ map hybrid_of (
            map
              (λ r. record { chunk = r.row; in_semantic = none; in_lexical = some r })
              (keep (λ r. not (any (is_row_of r.row.id) ss)) ls))
  unfolding scan_hit keep
  lexical_sides z ss [] = refl
  lexical_sides z ss (r ∷ ls) =
      let rest = lexical_sides z ss ls in
      let same = semantic_ids r.row.id ss in
      elim (Bool-cases (any (is_row_of r.row.id) ss)) [
        | inl y ↦ let there = same ∙ y in rw (y, there) rest
        | inr n ↦ let missing = same ∙ n in rw (n, missing) (cons_eq (lexical_side z r) rest)
      ]

  abbrev pub lexical_row : Ranked F.Float → Joined F.Float
  lexical_row r = record { chunk = r.row; in_semantic = none; in_lexical = some r }

  pub joins_agree :
      (z : HasNought F) (f g : Chunk F.Float → F.Float) (cs ds : List (Chunk F.Float))
      → map (with_score F) (
          outer_join F
            (hits_of F R l (vector_hit F R) (number_rows F R f 0 cs))
            (hits_of F R l (lexical_hit F R) (number_rows F R g 0 ds)))
        ≡ map hybrid_of (full_join (number_rows F R f 0 cs) (number_rows F R g 0 ds))
  unfolding full_join
  joins_agree z f g cs ds =
      let ss = number_rows F R f 0 cs in
      let ls = number_rows F R g 0 ds in
      let merged =
        map (merge_lexical F (hits_of F R l (lexical_hit F R) ls) 0)
          (hits_of F R l (vector_shared F R l) ss) in
      let others =
        keep (λ h. not (any (λ x. text_eq x.id h.id) (hits_of F R l (vector_hit F R) ss)))
          (hits_of F R l (lexical_shared F R l) ls) in
      rw (ranked_vector-number F R l f 0 cs, (ranked_lexical-number F R l) g 0 ds)
        (map-append (with_score F) merged others
          ∙ append_eq (semantic_sides z g ds ss) (lexical_sides z ss ls)
          ∙ sym (
              map-append hybrid_of (map (semantic_row ls) ss)
                (map lexical_row (keep (λ r. not (any (is_row_of r.row.id) ss)) ls))))
