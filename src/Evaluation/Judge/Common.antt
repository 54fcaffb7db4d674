-- ===== src/Evaluation/Judge/Common.antt =====
-- internal/evaluation/evaluation.go: the tokens that tokenF1 counts as common are no more than
-- there are in either text.
use dong_rag.Base.{
  ℕ, ◌+◌, ◌≤◌, ◌≡◌, refl, subst, inl, inr, Bool, false, List, [], ◌∷◌, arith, if◌then◌else◌,
  Bool-cases, length, any, count_where, Apart, Text, text_eq, eq_of_text_eq, text_eq_sym,
}
use dong_rag.Evaluation.Run.{distinct}
use dong_rag.Evaluation.Judge.{occurrences, add_common, common_tokens}

pub count_where-le {ℓ} : {A : Type ℓ} (p : A → Bool) (xs : List A) → count_where p xs ≤ length xs
unfolding count_where
count_where-le p [] = omega arith
count_where-le p (x ∷ xs) = ground (arith, count_where-le p xs)

any-distinct :
    (t : Text) (ts : List Text) → any (text_eq t) ts ≡ false → any (text_eq t) (distinct ts) ≡ false
unfolding distinct
any-distinct t [] h = refl
any-distinct t (u ∷ ts) h = ground (arith, h, any-distinct t ts)

distinct-Apart : (ts : List Text) → Apart text_eq (distinct ts)
unfolding distinct
distinct-Apart [] = tt
distinct-Apart (t ∷ ts) = elim (Bool-cases (any (text_eq t) (distinct ts))) [
  | inl old ↦ rw old (distinct-Apart ts)
  | inr new ↦ rw new (new, distinct-Apart ts)
]

-- How many of the texts are `t`.
abbrev places : List Text → Text → ℕ
places [] t = 0
places (v ∷ vs) t = (if text_eq v t then 1 else 0) + places vs t

abbrev total_of : List Text → List Text → ℕ
total_of [] ts = 0
total_of (v ∷ vs) ts = occurrences v ts + total_of vs ts

places-none : (vs : List Text) (t : Text) → any (text_eq t) vs ≡ false → places vs t ≡ 0
places-none [] t h = refl
places-none (v ∷ vs) t h = ground (arith, h, text_eq_sym v t, places-none vs t)

places-Apart : (vs : List Text) (t : Text) → Apart text_eq vs → places vs t ≤ 1
places-Apart [] t a = omega arith
places-Apart (v ∷ vs) t (h, a) = elim (Bool-cases (text_eq v t)) [
  | inl same ↦ rw same (
      omega (
        arith,
        places-none vs t (subst (λ u. any (text_eq u) vs ≡ false) (eq_of_text_eq v t same) h),
      ))
  | inr other ↦ rw other (omega (arith, places-Apart vs t a))
]

total_of-cons :
    (vs : List Text) (t : Text) (ts : List Text)
    → total_of vs (t ∷ ts) ≡ places vs t + total_of vs ts
unfolding count_where
total_of-cons [] t ts = refl
total_of-cons (v ∷ vs) t ts = omega (arith, total_of-cons vs t ts)

total_of-nil : (vs : List Text) → total_of vs [] ≡ 0
unfolding count_where
total_of-nil [] = refl
total_of-nil (v ∷ vs) = omega (arith, total_of-nil vs)

-- Texts that are all different occur at most as often as there are texts.
total_of-le : (vs ts : List Text) → Apart text_eq vs → total_of vs ts ≤ length ts
total_of-le vs [] a = omega (arith, total_of-nil vs)
total_of-le vs (t ∷ ts) a =
    omega (arith, total_of-cons vs t ts, places-Apart vs t a, total_of-le vs ts a)

add_common-le :
    (a e vs : List Text) → (add_common a e vs ≤ total_of vs a) × (add_common a e vs ≤ total_of vs e)
add_common-le a e [] = omega arith
add_common-le a e (v ∷ vs) = ground (arith, add_common-le a e vs)

pub common_tokens-le :
    (a e : List Text) → (common_tokens a e ≤ length a) × (common_tokens a e ≤ length e)
unfolding common_tokens
common_tokens-le a e = omega (
  arith,
  add_common-le a e (distinct a),
  total_of-le (distinct a) a (distinct-Apart a),
  total_of-le (distinct a) e (distinct-Apart a),
)
