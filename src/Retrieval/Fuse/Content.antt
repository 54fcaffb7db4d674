-- ===== src/Retrieval/Fuse/Content.antt =====
-- internal/rag/service.go: the map that fuseRRF fills is the full outer join of the two searches.
use dong_rag.Base.{
  ℕ, suc, ◌≡◌, refl, sym, ap, ◌∙◌, inl, inr, Bool, false, ◌||◌, not, none, List, [], ◌∷◌, ◌++◌, map,
  append_assoc, append-nil, arith, if◌then◌else◌, Bool-cases, All, any, keep, map-snoc, lookup,
  insert, any-insert, Apart, Text, text_eq, eq_of_text_eq, text_eq_sym,
}
use dong_rag.Retrieval.Fuse.Order.{IsKeyed, add_vector_hits-IsKeyed, insert-or_both-IsKeyed}
use dong_rag.Retrieval.Hit.{Floats, Hit}
use dong_rag.Retrieval.Fuse.{
  Combined, values, as_vector_hit, as_lexical_hit, add_vector_hits, or_both, add_lexical_hits,
  combine,
}
use dong_rag.Retrieval.Fuse.Insert.{
  same_id, has_key, place_of, ranked_vector, ranked_lexical, merge_lexical, add_vector_hits_lem,
  merge_one, insert_both,
}

module _ (F : Floats) where
  -- Where no later hit of the search has the id, a hit is left as it is.
  place_absent :
      (id : Text) (i : ℕ) (hs : List (Hit F.Float))
      → any (λ h. text_eq id h.id) hs ≡ false
      → place_of id i hs ≡ none
  unfolding place_of
  place_absent id i [] n = refl
  place_absent id i (h ∷ hs) n =
      let other : text_eq h.id id ≡ false = text_eq_sym h.id id ∙ ground (arith, n) in
      let rest = place_absent id (suc i) hs (ground (arith, n)) in rw (other, place_of) rest

  merge_again :
      (i : ℕ) (h : Hit F.Float) (hs ys : List (Hit F.Float))
      → any (same_id h) hs ≡ false
      → map (merge_lexical F hs (suc i)) (map (merge_one F i h) ys)
        ≡ map (merge_lexical F (h ∷ hs) i) ys
  unfolding place_of
  merge_again i h hs [] n = refl
  merge_again i h hs (y ∷ ys) n =
      let rest = merge_again i h hs ys n in
      elim (Bool-cases (text_eq y.id h.id)) [
        | inl e ↦
            let gone : place_of y.id (suc i) hs ≡ none =
              rw (eq_of_text_eq y.id h.id e) (place_absent h.id (suc i) hs n) in
            let same = text_eq_sym h.id y.id ∙ e in rw (e, same, gone, rest) refl
        | inr d ↦ let other = text_eq_sym h.id y.id ∙ d in rw (d, other, rest) refl
      ]

  -- The hits of the later search that no key of the map names.
  abbrev fresh : Combined F.Float → List (Hit F.Float) → List (Hit F.Float)
  fresh m hs = keep (λ h. not (has_key h.id m)) hs

  fresh_after :
      (i : ℕ) (h x : Hit F.Float) (hs : List (Hit F.Float)) (m : Combined F.Float)
      → any (same_id h) hs ≡ false
      → fresh (insert h.id x m) (ranked_lexical F i hs) ≡ fresh m (ranked_lexical F i hs)
  unfolding keep
  fresh_after i h x [] m n = refl
  fresh_after i h x (y ∷ hs) m n =
      let rest = fresh_after (suc i) h x hs m (ground (arith, n)) in
      let same : has_key y.id (insert h.id x m) ≡ has_key y.id m =
        any-insert (λ t. text_eq t y.id) h.id x m ∙ ground (arith, n) in
      rw (same, rest) refl

  merge_next :
      (i : ℕ) (h : Hit F.Float) (hs : List (Hit F.Float)) (m : Combined F.Float)
      → any (same_id h) hs ≡ false
      → map (merge_lexical F hs (suc i)) (
            map (merge_one F i h) (values m)
            ++ (if has_key h.id m then [] else as_lexical_hit F i h ∷ []))
          ++ fresh m (ranked_lexical F (suc i) hs)
        ≡ map (merge_lexical F (h ∷ hs) i) (values m) ++ fresh m (ranked_lexical F i (h ∷ hs))
  unfolding keep
  merge_next i h hs m n =
      let more = fresh m (ranked_lexical F (suc i) hs) in
      let again = merge_again i h hs (values m) n in
      let gone = place_absent h.id (suc i) hs n in
      elim (Bool-cases (has_key h.id m)) [
        | inl y ↦
            rw y
              (ap (λ t. t ++ more) (ap (map (merge_lexical F hs (suc i))) (append-nil _) ∙ again))
        | inr d ↦ rw d (
            ap (λ t. t ++ more)
              (map-snoc (merge_lexical F hs (suc i)) (map (merge_one F i h) (values m))
                  (as_lexical_hit F i h)
                ∙ rw (gone, again) refl)
            ∙ append_assoc (map (merge_lexical F (h ∷ hs) i) (values m)) (as_lexical_hit F i h ∷ [])
                more)
      ]

  add_lexical_hits_lem :
      (i : ℕ) (hs : List (Hit F.Float)) (m : Combined F.Float)
      → IsKeyed F m
      → Apart same_id hs
      → values (add_lexical_hits F i hs m)
        ≡ map (merge_lexical F hs i) (values m) ++ fresh m (ranked_lexical F i hs)
  unfolding add_lexical_hits keep place_of
  add_lexical_hits_lem i [] m k a = sym (append-nil _ ∙ merge_nothing (values m))
    where
      merge_nothing : (ys : List (Hit F.Float)) → map (merge_lexical F [] i) ys ≡ ys
      merge_nothing [] = refl
      merge_nothing (y ∷ ys) = rw (merge_nothing ys) refl
  add_lexical_hits_lem i (h ∷ hs) m k (n, a) =
      add_lexical_hits_lem (suc i) hs (insert h.id (or_both F i h (lookup h.id m)) m)
        (insert-or_both-IsKeyed F i h m k) a
      ∙ rw (fresh_after (suc i) h (or_both F i h (lookup h.id m)) hs m n, (insert_both F) i h m k)
          (merge_next i h hs m n)

  -- The hits that the two searches give, each once: those of the vector search with what the
  -- lexical search says of them, and then those that only the lexical search gives.
  abbrev pub outer_join : List (Hit F.Float) → List (Hit F.Float) → List (Hit F.Float)
  outer_join v l =
      map (merge_lexical F l 0) (ranked_vector F 0 v)
      ++ keep (λ h. not (any (λ x. text_eq x.id h.id) v)) (ranked_lexical F 0 l)

  keys_of :
      (id : Text) (i : ℕ) (hs : List (Hit F.Float)) (m : Combined F.Float)
      → has_key id (add_vector_hits F i hs m) ≡ (any (λ x. text_eq x.id id) hs || has_key id m)
  unfolding add_vector_hits
  keys_of id i [] m = refl
  keys_of id i (h ∷ hs) m =
      let added = any-insert (λ t. text_eq t id) h.id (as_vector_hit F i h) m in
      keys_of id (suc i) hs (insert h.id (as_vector_hit F i h) m) ∙ ground (arith, added)

  new_keys : (hs : List (Hit F.Float)) → All (λ h. has_key {Float = F.Float} h.id [] ≡ false) hs
  new_keys [] = tt
  new_keys (h ∷ hs) = (refl, new_keys hs)

  keep-ext :
      (p q : Hit F.Float → Bool)
      → ((h : Hit F.Float) → p h ≡ q h)
      → (hs : List (Hit F.Float)) → keep p hs ≡ keep q hs
  unfolding keep
  keep-ext p q e [] = refl
  keep-ext p q e (h ∷ hs) = rw (e h, keep-ext p q e hs) refl

  -- Where no search gives a hit twice, the map holds their outer join, in this order of insertion.
  pub combine_lem :
      (v l : List (Hit F.Float))
      → Apart same_id v
      → Apart same_id l
      → values (combine F v l) ≡ outer_join v l
  unfolding combine
  combine_lem v l a b =
      add_lexical_hits_lem 0 l (add_vector_hits F 0 v [])
        (add_vector_hits-IsKeyed F 0 v [] (tt, tt)) b
      ∙ rw (add_vector_hits_lem F 0 v [] a (new_keys v)) (
          ap (λ t. map (merge_lexical F l 0) (ranked_vector F 0 v) ++ t)
            (keep-ext _ _ (λ h. ground (arith, keys_of h.id 0 v [])) (ranked_lexical F 0 l)))
