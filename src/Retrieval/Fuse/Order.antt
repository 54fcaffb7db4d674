-- ===== src/Retrieval/Fuse/Order.antt =====
-- internal/rag/service.go: the result of fuseRRF does not depend on the order in which the map of
-- the combined hits is visited.
use dong_rag.Retrieval.Hit.{Floats, Hit}
use dong_rag.Retrieval.Fuse.{
  Combined, values, as_vector_hit, add_vector_hits, or_both, add_lexical_hits, combine, with_score,
  best_score, precedes, place_fused, in_order, fuse_rrf,
}
use dong_rag.Base.{
  ℕ, suc, ◌≡◌, refl, sym, ap, ◌∙◌, inl, inr, Bool, true, false, ◌||◌, Option, none, some, List, [],
  ◌∷◌, map, arith, Permᴰ, if◌then◌else◌, Bool-cases, take, All, any, lookup, insert, insert-Apart,
  insert-All, Apart, Apart-perm, map-perm, Text, text_eq, eq_of_text_eq, text_eq_iff, text_eq_sym,
  text_lt,
}

-- A strict order whose incomparable elements are equivalent.
abbrev pub IsWeakOrder : {A : Type 0} → (A → A → Bool) → Type 0
IsWeakOrder {A} p =
    ((x y : A) → p x y ≡ true → p y x ≡ false)
    × ((x y z : A) → p x y ≡ false → p y z ≡ false → p x z ≡ false)

-- By `p`, and by `q` where `p` does not tell.
abbrev pub lex : {A : Type 0} → (A → A → Bool) → (A → A → Bool) → A → A → Bool
lex p q a b = if p b a || p a b then p a b else q a b

pub lex-IsWeakOrder :
    {A : Type 0} → (p q : A → A → Bool) → IsWeakOrder p → IsWeakOrder q → IsWeakOrder (lex p q)
lex-IsWeakOrder p q (ap, tp) (aq, tq) = (
  λ x y h. ground (arith, h, ap x y, ap y x, aq x y),
  λ x y z h k.
      ground (arith, h, k, tp x y z, tp y z x, tp z x y, tp z y x, tp y x z, tp x z y, tq x y z),
)

text_lt_asym : (x y : Text) → text_lt x y ≡ true → text_lt y x ≡ false
unfolding text_lt
text_lt_asym [] [] h = refl
text_lt_asym [] (y ∷ ys) h = refl
text_lt_asym (x ∷ xs) [] h = absurd (cc)
text_lt_asym (x ∷ xs) (y ∷ ys) h = ground (arith, h, text_lt_asym xs ys)

not-text_lt_trans : (x y z : Text) → text_lt x y ≡ false → text_lt y z ≡ false → text_lt x z ≡ false
unfolding text_lt
not-text_lt_trans [] y [] h k = refl
not-text_lt_trans (x ∷ xs) y [] h k = refl
not-text_lt_trans [] [] (z ∷ zs) h k = absurd (cc)
not-text_lt_trans [] (y ∷ ys) (z ∷ zs) h k = absurd (cc)
not-text_lt_trans (x ∷ xs) [] (z ∷ zs) h k = absurd (cc)
not-text_lt_trans (x ∷ xs) (y ∷ ys) (z ∷ zs) h k = ground (arith, h, k, not-text_lt_trans xs ys zs)

same_of_text_lt : (x y : Text) → text_lt x y ≡ false → text_lt y x ≡ false → x ≡ y
unfolding text_lt
same_of_text_lt [] [] h k = refl
same_of_text_lt [] (y ∷ ys) h k = absurd (cc)
same_of_text_lt (x ∷ xs) [] h k = absurd (cc)
same_of_text_lt (x ∷ xs) (y ∷ ys) h k = ground (arith, h, k, same_of_text_lt xs ys)

module _ (F : Floats) where
  abbrev by_rrf : Hit F.Float → Hit F.Float → Bool
  by_rrf a b = F.lt b.rrf_score a.rrf_score

  abbrev by_best : Hit F.Float → Hit F.Float → Bool
  by_best a b = F.lt (best_score F b) (best_score F a)

  abbrev by_id : Hit F.Float → Hit F.Float → Bool
  by_id a b = text_lt a.id b.id

  by_rrf-IsWeakOrder : IsWeakOrder by_rrf
  by_rrf-IsWeakOrder = (
    λ a b h. F.lt_asym b.rrf_score a.rrf_score h,
    λ a b c h k. F.not-lt_trans c.rrf_score b.rrf_score a.rrf_score k h,
  )

  by_best-IsWeakOrder : IsWeakOrder by_best
  by_best-IsWeakOrder = (
    λ a b h. F.lt_asym (best_score F b) (best_score F a) h,
    λ a b c h k. F.not-lt_trans (best_score F c) (best_score F b) (best_score F a) k h,
  )

  by_id-IsWeakOrder : IsWeakOrder by_id
  by_id-IsWeakOrder = (λ a b. text_lt_asym a.id b.id, λ a b c. not-text_lt_trans a.id b.id c.id)

  pub precedes-IsWeakOrder : IsWeakOrder (precedes F)
  unfolding precedes
  precedes-IsWeakOrder =
      lex-IsWeakOrder by_rrf (lex by_best by_id) by_rrf-IsWeakOrder
        (lex-IsWeakOrder by_best by_id by_best-IsWeakOrder by_id-IsWeakOrder)

  precedes_total :
      (a b : Hit F.Float)
      → text_eq a.id b.id ≡ false
      → precedes F a b ≡ false
      → precedes F b a ≡ true
  unfolding precedes
  precedes_total a b n h = ground (
    arith,
    n,
    h,
    same_of_text_lt a.id b.id,
    text_eq_iff a.id b.id,
    F.lt_asym a.rrf_score b.rrf_score,
    F.lt_asym (best_score F a) (best_score F b),
  )

  place_comm :
      (a b : Hit F.Float) (hs : List (Hit F.Float))
      → text_eq a.id b.id ≡ false
      → place_fused F a (place_fused F b hs) ≡ place_fused F b (place_fused F a hs)
  unfolding place_fused
  place_comm a b [] n = ground (arith, precedes_total a b n, precedes-IsWeakOrder.0 a b)
  place_comm a b (k ∷ ks) n = ground (
    arith,
    place_comm a b ks n,
    precedes_total a b n,
    precedes-IsWeakOrder.0 a b,
    precedes-IsWeakOrder.1 k a b,
    precedes-IsWeakOrder.1 k b a,
  )

  in_order-perm :
      {xs ys : List (Hit F.Float)}
      → Permᴰ xs ys
      → Apart (λ a b. text_eq a.id b.id) xs
      → in_order F xs ≡ in_order F ys
  unfolding in_order
  in_order-perm Permᴰ.nil a = refl
  in_order-perm (Permᴰ.cons e q) (h, a) = rw (e, in_order-perm q a) refl
  in_order-perm (Permᴰ.swap {a = x} {b = y} {l = hs} e e') (h, (k, a)) =
      rw (sym e, sym e') (place_comm x y (in_order F hs) (ground (arith, h)))
  in_order-perm (Permᴰ.trans q r) a =
      in_order-perm q a
      ∙ in_order-perm r (Apart-perm (λ x y. text_eq x.id y.id) (λ x y. text_eq_sym x.id y.id) q a)

  -- A map whose keys are the ids of its hits.
  abbrev pub IsKeyed : Combined F.Float → Type 0
  IsKeyed m = Apart (λ p q. text_eq p.0 q.0) m × All (λ p. p.1.id ≡ p.0) m

  insert-IsKeyed :
      (k : Text) (h : Hit F.Float) (m : Combined F.Float)
      → h.id ≡ k
      → IsKeyed m
      → IsKeyed (insert k h m)
  insert-IsKeyed k h m e (a, s) = (insert-Apart k h m a, insert-All (λ p. p.1.id ≡ p.0) k h m e s)

  pub lookup-keyed :
      (k : Text) (m : Combined F.Float) {h : Hit F.Float}
      → All (λ p. p.1.id ≡ p.0) m
      → lookup k m ≡ some h
      → h.id ≡ k
  unfolding lookup
  lookup-keyed k [] s e = absurd (cc)
  lookup-keyed k ((j, x) ∷ m) {h} (y, s) e = elim (Bool-cases (text_eq j k)) [
    | inl q ↦ let found : x ≡ h = cc in ap (λ z. z.id) (sym found) ∙ y ∙ eq_of_text_eq j k q
    | inr n ↦ lookup-keyed k m s (rw n at e)
  ]

  or_both-id :
      (i : ℕ) (h : Hit F.Float) (r : Option (Hit F.Float))
      → ((x : Hit F.Float) → r ≡ some x → x.id ≡ h.id)
      → (or_both F i h r).id ≡ h.id
  or_both-id i h none f = refl
  or_both-id i h (some x) f = f x refl

  pub add_vector_hits-IsKeyed :
      (i : ℕ) (hs : List (Hit F.Float)) (m : Combined F.Float)
      → IsKeyed m
      → IsKeyed (add_vector_hits F i hs m)
  unfolding add_vector_hits
  add_vector_hits-IsKeyed i [] m k = k
  add_vector_hits-IsKeyed i (h ∷ hs) m k =
      add_vector_hits-IsKeyed (suc i) hs _ (insert-IsKeyed h.id (as_vector_hit F i h) m refl k)

  pub insert-or_both-IsKeyed :
      (i : ℕ) (h : Hit F.Float) (m : Combined F.Float)
      → IsKeyed m
      → IsKeyed (insert h.id (or_both F i h (lookup h.id m)) m)
  insert-or_both-IsKeyed i h m k =
      insert-IsKeyed h.id (or_both F i h (lookup h.id m)) m
        (or_both-id i h (lookup h.id m) (λ x e. lookup-keyed h.id m k.1 e)) k

  add_lexical_hits-IsKeyed :
      (i : ℕ) (hs : List (Hit F.Float)) (m : Combined F.Float)
      → IsKeyed m
      → IsKeyed (add_lexical_hits F i hs m)
  unfolding add_lexical_hits
  add_lexical_hits-IsKeyed i [] m k = k
  add_lexical_hits-IsKeyed i (h ∷ hs) m k =
      add_lexical_hits-IsKeyed (suc i) hs _ (insert-or_both-IsKeyed i h m k)

  pub combine-IsKeyed : (v l : List (Hit F.Float)) → IsKeyed (combine F v l)
  unfolding combine
  combine-IsKeyed v l = add_lexical_hits-IsKeyed 0 l _ (add_vector_hits-IsKeyed 0 v [] (tt, tt))

  any-values :
      (p : Text → Bool) (m : Combined F.Float)
      → All (λ e. e.1.id ≡ e.0) m
      → any (λ h. p h.id) (values m) ≡ any (λ e. p e.0) m
  any-values p [] s = refl
  any-values p ((j, h) ∷ m) (e, s) = rw (e, any-values p m s) refl

  values-Apart : (m : Combined F.Float) → IsKeyed m → Apart (λ a b. text_eq a.id b.id) (values m)
  values-Apart [] k = tt
  values-Apart ((j, h) ∷ m) ((n, a), (e, s)) =
      (rw e (any-values (text_eq j) m s ∙ n), values-Apart m (a, s))

  map-Apart :
      (hs : List (Hit F.Float))
      → Apart (λ a b. text_eq a.id b.id) hs
      → Apart (λ a b. text_eq a.id b.id) (map (with_score F) hs)
  map-Apart [] a = tt
  map-Apart (h ∷ hs) (n, a) = (any-scored h.id hs ∙ n, map-Apart hs a)
    where
      any-scored :
          (t : Text) (xs : List (Hit F.Float))
          → any (λ b. text_eq t b.id) (map (with_score F) xs) ≡ any (λ b. text_eq t b.id) xs
      any-scored t [] = refl
      any-scored t (x ∷ xs) = rw (any-scored t xs) refl

  -- The fusion of two searches does not depend on the order in which the map of the combined hits
  -- is visited, whatever hits the searches give: Go's random order has no influence on an answer.
  pub fuse_rrf_deterministic :
      (visit visit' : List (Hit F.Float) → List (Hit F.Float)) (v l : List (Hit F.Float)) (k : ℕ)
      → ((hs : List (Hit F.Float)) → Permᴰ hs (visit hs))
      → ((hs : List (Hit F.Float)) → Permᴰ hs (visit' hs))
      → fuse_rrf F visit v l k ≡ fuse_rrf F visit' v l k
  unfolding fuse_rrf
  fuse_rrf_deterministic visit visit' v l k p q =
      let all = values (combine F v l) in
      let apart = map-Apart all (values-Apart (combine F v l) (combine-IsKeyed v l)) in
      ap (take k) (
        sym (in_order-perm (map-perm (with_score F) (p all)) apart)
        ∙ in_order-perm (map-perm (with_score F) (q all)) apart)
