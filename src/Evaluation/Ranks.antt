-- ===== src/Evaluation/Ranks.antt =====
-- internal/evaluation/evaluation.go: percentile95 and firstRelevantRank. `strings.ToLower` and
-- `filepath.Base` are the parameter `normalize_name`.
use dong_rag.Base.{
  ℕ, zero, suc, ◌+◌, ◌-◌, ◌*◌, ◌/◌, ◌≤◌, ◌<◌, ◌≡◌, refl, ap, subst, ◌∙◌, ◌≢◌, inl, inr, true, false,
  Option, some, List, [], ◌∷◌, map, arith, ltb, if◌then◌else◌, Bool-cases, length, get_elem?, All,
  any, count_where, All-map, ℤ, pos, leb_ℤ, Text, text_eq,
}
use dong_rag.Retrieval.Hit.{Hit}

abbrev place : ℤ → List ℤ → List ℤ
place x [] = x ∷ []
place x (y ∷ ys) = let rest = place x ys in if leb_ℤ x y then x ∷ y ∷ ys else y ∷ rest

unfoldable pub ascending : List ℤ → List ℤ
ascending [] = []
ascending (x ∷ xs) = place x (ascending xs)

abbrev at_most_one : ℕ → ℕ
at_most_one n = if ltb n 1 then 1 else n

-- The place of the value in the sorted list, from 1 on.
abbrev pub percentile_rank : ℕ → ℕ
percentile_rank n = at_most_one ((n * 95 + 99) / 100)

-- `none` is an index out of range, where Go panics.
unfoldable pub percentile95 : List ℤ → Option ℤ
unfolding ascending
percentile95 [] = some (pos 0)
percentile95 (x ∷ xs) = get_elem? (ascending (x ∷ xs)) (percentile_rank (length (x ∷ xs)) - 1)

-- The names that count as relevant, as a list where Go has a map.
unfoldable pub relevant_document_set : (Text → Text) → List Text → List Text
relevant_document_set normalize_name names = map normalize_name names

module _ {Float : Type 0} (normalize_name : Text → Text) where
  abbrev rank_from : ℕ → List Text → List (Hit Float) → ℕ
  rank_from i wanted [] = 0
  rank_from i wanted (h ∷ hs) =
      let rest = rank_from (suc i) wanted hs in
      if any (text_eq (normalize_name h.document_name)) wanted then i + 1 else rest

  unfoldable pub first_relevant_rank : List (Hit Float) → List Text → ℕ
  unfolding relevant_document_set text_eq
  first_relevant_rank hits relevant =
      rank_from 0 (relevant_document_set normalize_name relevant) hits

-- The values that are at most `x`.
abbrev pub up_to : ℤ → List ℤ → ℕ
up_to x = count_where (λ v. leb_ℤ v x)

-- Every value is at most those behind it.
abbrev Ascends : List ℤ → Type 0
Ascends [] = Unit {0}
Ascends (x ∷ xs) = All (λ y. leb_ℤ x y ≡ true) xs × Ascends xs

up_to-place : (v x : ℤ) (ys : List ℤ) → up_to v (place x ys) ≡ up_to v (x ∷ ys)
unfolding count_where
up_to-place v x [] = refl
up_to-place v x (y ∷ ys) = ground (arith, up_to-place v x ys)

length-place : (x : ℤ) (ys : List ℤ) → length (place x ys) ≡ suc (length ys)
length-place x [] = refl
length-place x (y ∷ ys) = ground (arith, length-place x ys)

place-All : (P : ℤ → Type 0) (x : ℤ) (ys : List ℤ) → P x → All P ys → All P (place x ys)
place-All P x [] p a = (p, tt)
place-All P x (y ∷ ys) p (q, a) = elim (Bool-cases (leb_ℤ x y)) [
  | inl h ↦ rw h (p, (q, a))
  | inr n ↦ rw n (q, place-All P x ys p a)
]

leb_ℤ_trans : (a b c : ℤ) → leb_ℤ a b ≡ true → leb_ℤ b c ≡ true → leb_ℤ a c ≡ true
leb_ℤ_trans a b c h k = ground arith

leb_ℤ_total : (a b : ℤ) → leb_ℤ a b ≡ false → leb_ℤ b a ≡ true
leb_ℤ_total a b h = ground arith

leb_ℤ_refl : (a : ℤ) → leb_ℤ a a ≡ true
leb_ℤ_refl a = ground arith

place-Ascends : (x : ℤ) (ys : List ℤ) → Ascends ys → Ascends (place x ys)
place-Ascends x [] a = (tt, tt)
place-Ascends x (y ∷ ys) (h, a) = elim (Bool-cases (leb_ℤ x y)) [
  | inl k ↦ rw k ((k, All-map _ _ ys (λ z l. leb_ℤ_trans x y z k l) h), (h, a))
  | inr n ↦
      rw n (place-All (λ z. leb_ℤ y z ≡ true) x ys (leb_ℤ_total x y n) h, place-Ascends x ys a)
]

some_inj : {a b : ℤ} → some a ≡ some b → a ≡ b
some_inj e = cc

All-get : (P : ℤ → Type 0) (xs : List ℤ) (i : ℕ) {v : ℤ} → All P xs → get_elem? xs i ≡ some v → P v
All-get P [] i a e = absurd (cc)
All-get P (x ∷ xs) zero (p, a) e = subst P (some_inj e) p
All-get P (x ∷ xs) (suc i) (p, a) e = All-get P xs i a e

-- In an ascending list, the value at a place is at least all those before it.
up_to-Ascends :
    (xs : List ℤ) (i : ℕ)
    → Ascends xs
    → i < length xs
    → (v : ℤ) × (get_elem? xs i ≡ some v) × suc i ≤ up_to v xs
unfolding count_where
up_to-Ascends [] i a l = absurd (omega (arith, l))
up_to-Ascends (x ∷ xs) zero (h, a) l = (x, refl, ground (arith, leb_ℤ_refl x))
up_to-Ascends (x ∷ xs) (suc i) (h, a) l =
    let (v, e, c) = up_to-Ascends xs i a (omega (arith, l)) in
    let low : leb_ℤ x v ≡ true = All-get (λ y. leb_ℤ x y ≡ true) xs i h e in
    (v, e, ground (arith, low, c))

up_to-ascending : (v : ℤ) (xs : List ℤ) → up_to v (ascending xs) ≡ up_to v xs
unfolding ascending count_where
up_to-ascending v [] = refl
up_to-ascending v (x ∷ xs) = up_to-place v x (ascending xs) ∙ ground (arith, up_to-ascending v xs)

length-ascending : (xs : List ℤ) → length (ascending xs) ≡ length xs
unfolding ascending
length-ascending [] = refl
length-ascending (x ∷ xs) = length-place x (ascending xs) ∙ ap suc (length-ascending xs)

ascending-Ascends : (xs : List ℤ) → Ascends (ascending xs)
unfolding ascending
ascending-Ascends [] = tt
ascending-Ascends (x ∷ xs) = place-Ascends x (ascending xs) (ascending-Ascends xs)

percentile_rank_lem :
    (n : ℕ) → 0 < n → (percentile_rank n - 1 < n) × (95 * n ≤ 100 * suc (percentile_rank n - 1))
percentile_rank_lem n h = (ground arith, ground arith)

-- The 95th percentile of some values is always found, and at least 95 of 100 of the values are at
-- most that.
pub percentile95_lem :
    (xs : List ℤ)
    → xs ≢ []
    → (v : ℤ) × (percentile95 xs ≡ some v) × 95 * length xs ≤ 100 * up_to v xs
unfolding percentile95
percentile95_lem [] n = absurd (n refl)
percentile95_lem (x ∷ xs) n =
    let (low, high) = percentile_rank_lem (length (x ∷ xs)) (omega arith) in
    let (v, e, c) =
      up_to-Ascends (ascending (x ∷ xs)) (percentile_rank (length (x ∷ xs)) - 1)
        (ascending-Ascends (x ∷ xs)) (omega (arith, low, length-ascending (x ∷ xs))) in
    (v, e, omega (arith, high, c, up_to-ascending v (x ∷ xs)))
