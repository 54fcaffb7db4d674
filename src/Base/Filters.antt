-- ===== src/Base/Filters.antt =====
-- What a filter keeps of a list.
use mathlib.Core.Path.{◌≡◌, refl}
use mathlib.Core.Bool.{Bool, true, false, not}
use mathlib.Core.List.{List, [], ◌∷◌, ◌++◌}
use native.Mathlib.Omega.{arith}
use dong_rag.Base.Lists.{All, keep}

pub keep-append {ℓ} :
    {A : Type ℓ} → (p : A → Bool) (xs ys : List A) → keep p (xs ++ ys) ≡ keep p xs ++ keep p ys
unfolding keep
keep-append p [] ys = refl
keep-append p (x ∷ xs) ys = ground (arith, keep-append p xs ys)

pub keep-none {ℓ} :
    {A : Type ℓ} → (p : A → Bool) (xs : List A) → All (λ x. p x ≡ false) xs → keep p xs ≡ []
unfolding keep
keep-none p [] a = refl
keep-none p (x ∷ xs) (h, a) = ground (arith, h, keep-none p xs a)

pub keep-All {ℓ} :
    {A : Type ℓ} → (p : A → Bool) (xs : List A) → All (λ x. p x ≡ true) xs → keep p xs ≡ xs
unfolding keep
keep-All p [] a = refl
keep-All p (x ∷ xs) (h, a) = ground (arith, h, keep-All p xs a)

-- Rows that a second test passes are not touched by the removal of rows that it does not.
pub keep-keep {ℓ} :
    {A : Type ℓ}
    → (p q : A → Bool) (xs : List A) → ((x : A) → p x ≡ true → q x ≡ true)
    → keep p (keep q xs) ≡ keep p xs
unfolding keep
keep-keep p q [] h = refl
keep-keep p q (x ∷ xs) h = ground (arith, h x, keep-keep p q xs h)

pub keep-keep-not {ℓ} :
    {A : Type ℓ} → (p : A → Bool) (xs : List A) → keep p (keep (λ x. not (p x)) xs) ≡ []
unfolding keep
keep-keep-not p [] = refl
keep-keep-not p (x ∷ xs) = ground (arith, keep-keep-not p xs)
