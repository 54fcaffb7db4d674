-- ===== src/Retrieval/Fuse/Insert.antt =====
-- internal/rag/service.go: what one insertion changes in the map that fuseRRF fills.
use dong_rag.Base.{
  ℕ, suc, ◌≡◌, refl, sym, ap, subst, ◌∙◌, inl, inr, Bool, true, false, Option, none, some, List, [],
  ◌∷◌, ◌++◌, map, append_assoc, append-nil, arith, if◌then◌else◌, Bool-cases, All, any, lookup,
  insert, any-insert, Apart, Text, text_eq, eq_of_text_eq, text_eq_sym,
}
use dong_rag.Retrieval.Fuse.Order.{IsKeyed}
use dong_rag.Retrieval.Hit.{Floats, Hit}
use dong_rag.Retrieval.Fuse.{
  Combined, values, as_vector_hit, as_lexical_hit, as_both, add_vector_hits, or_both,
}

abbrev pub same_id : {Float : Type 0} → Hit Float → Hit Float → Bool
same_id a b = text_eq a.id b.id

-- The key is in the map.
abbrev pub has_key : {Float : Type 0} → Text → Combined Float → Bool
has_key k m = any (λ e. text_eq e.0 k) m

-- The place of the first hit of the id, from `i` on, and the hit.
unfoldable pub place_of : {Float : Type 0} → Text → ℕ → List (Hit Float) → Option (ℕ × Hit Float)
unfolding text_eq
place_of id i [] = none
place_of id i (h ∷ hs) = if text_eq h.id id then some (i, h) else place_of id (suc i) hs

module _ (F : Floats) where
  abbrev pub ranked_vector : ℕ → List (Hit F.Float) → List (Hit F.Float)
  ranked_vector i [] = []
  ranked_vector i (h ∷ hs) = as_vector_hit F i h ∷ ranked_vector (suc i) hs

  abbrev pub ranked_lexical : ℕ → List (Hit F.Float) → List (Hit F.Float)
  ranked_lexical i [] = []
  ranked_lexical i (h ∷ hs) = as_lexical_hit F i h ∷ ranked_lexical (suc i) hs

  abbrev pub and_both : Hit F.Float → Option (ℕ × Hit F.Float) → Hit F.Float
  and_both x none = x
  and_both x (some (j, g)) = as_both F j g x

  -- A hit with what the lexical search says of it, too.
  abbrev pub merge_lexical : List (Hit F.Float) → ℕ → Hit F.Float → Hit F.Float
  merge_lexical l i x = and_both x (place_of x.id i l)

  pub insert_new :
      (k : Text) (h : Hit F.Float) (m : Combined F.Float)
      → has_key k m ≡ false
      → values (insert k h m) ≡ values m ++ (h ∷ [])
  unfolding insert
  insert_new k h [] n = refl
  insert_new k h ((j, x) ∷ m) n =
      let later = insert_new k h m (ground (arith, n)) in
      let other : text_eq j k ≡ false = ground (arith, n) in rw (other, insert) (ap (◌∷◌ x) later)

  pub add_vector_hits_lem :
      (i : ℕ) (hs : List (Hit F.Float)) (m : Combined F.Float)
      → Apart same_id hs
      → All (λ h. has_key h.id m ≡ false) hs
      → values (add_vector_hits F i hs m) ≡ values m ++ ranked_vector i hs
  unfolding add_vector_hits
  add_vector_hits_lem i [] m a n = sym (append-nil (values m))
  add_vector_hits_lem i (h ∷ hs) m (x, a) (n, ns) =
      add_vector_hits_lem (suc i) hs (insert h.id (as_vector_hit F i h) m) a (still_new hs x ns)
      ∙ rw (insert_new h.id (as_vector_hit F i h) m n) (append_assoc (values m) _ _)
    where
      still_new :
          (xs : List (Hit F.Float))
          → any (same_id h) xs ≡ false
          → All (λ y. has_key y.id m ≡ false) xs
          → All (λ y. has_key y.id (insert h.id (as_vector_hit F i h) m) ≡ false) xs
      still_new [] d k = tt
      still_new (y ∷ ys) d (k, ks) = (
        any-insert (λ t. text_eq t y.id) h.id (as_vector_hit F i h) m ∙ ground (arith, d, k),
        still_new ys (ground (arith, d)) ks,
      )

  abbrev pub merge_one : ℕ → Hit F.Float → Hit F.Float → Hit F.Float
  merge_one i h x = if text_eq x.id h.id then as_both F i h x else x

  pub has_key_flip : (k : Text) (m : Combined F.Float) → has_key k m ≡ any (λ e. text_eq k e.0) m
  has_key_flip k [] = refl
  has_key_flip k ((j, x) ∷ m) = rw (text_eq_sym j k, has_key_flip k m) refl

  pub merge_one_absent :
      (i : ℕ) (h : Hit F.Float) (m : Combined F.Float)
      → IsKeyed F m
      → has_key h.id m ≡ false
      → map (merge_one i h) (values m) ≡ values m
  merge_one_absent i h [] k n = refl
  merge_one_absent i h ((j, x) ∷ m) ((c, a), (e, s)) n =
      let other : text_eq x.id h.id ≡ false = rw e (ground (arith, n)) in
      let rest = merge_one_absent i h m (a, s) (ground (arith, n)) in rw (other, rest) refl

  pub insert_both :
      (i : ℕ) (h : Hit F.Float) (m : Combined F.Float)
      → IsKeyed F m
      → values (insert h.id (or_both F i h (lookup h.id m)) m)
        ≡ map (merge_one i h) (values m)
          ++ (if has_key h.id m then [] else as_lexical_hit F i h ∷ [])
  unfolding insert lookup
  insert_both i h [] k = refl
  insert_both i h ((j, x) ∷ m) ((c, a), (e, s)) = elim (Bool-cases (text_eq j h.id)) [
    | inl y ↦
        let same : text_eq x.id h.id ≡ true = rw e y in
        let absent = has_key_flip j m ∙ c in
        rw (y, same)
          (ap (◌∷◌ (as_both F i h x)) (
            sym (
              append-nil _
              ∙ merge_one_absent i h m (a, s) (rw (eq_of_text_eq j h.id y) at absent))))
    | inr n ↦
        let other : text_eq x.id h.id ≡ false = rw e n in
        let rest = insert_both i h m (a, s) in
        let passes : lookup h.id ((j, x) ∷ m) ≡ lookup h.id m = rw (n, lookup) refl in
        subst
          (λ r.
            values (insert h.id (or_both F i h r) ((j, x) ∷ m))
            ≡ map (merge_one i h) (x ∷ values m)
              ++ (if has_key h.id ((j, x) ∷ m) then [] else as_lexical_hit F i h ∷ []))
          (sym passes) (rw (n, other) (ap (◌∷◌ x) rest))
  ]
