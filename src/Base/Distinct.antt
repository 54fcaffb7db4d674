-- ===== src/Base/Distinct.antt =====
-- Lists no two elements of which clash, and what filters and permutations keep of lists.
use mathlib.Core.Path.{◌≡◌, refl, ◌∙◌, sym, ap, subst}
use mathlib.Core.Bool.{Bool, true, false}
use mathlib.Core.Logic.{inl, inr}
use mathlib.Core.List.{List, [], ◌∷◌, ◌++◌, map, Permᴰ}
use native.Mathlib.Omega.{arith}
use dong_rag.Base.Tests.{Bool-cases}
use Prim.Native.Nat.{ℕ, zero, suc}
use dong_rag.Base.Lists.{take, All, any, keep, any-snoc}

abbrev pub Apart {ℓ} : {A : Type ℓ} → (A → A → Bool) → List A → Type 0
Apart c [] = Unit {0}
Apart c (x ∷ xs) = (any (c x) xs ≡ false) × Apart c xs

pub Apart-snoc {ℓ} :
    {A : Type ℓ}
    → (c : A → A → Bool) → ((a b : A) → c a b ≡ c b a)
    → (xs : List A) (y : A) → Apart c xs
    → any (c y) xs ≡ false
    → Apart c (xs ++ (y ∷ []))
Apart-snoc c s [] y a n = (refl, tt)
Apart-snoc c s (x ∷ xs) y (h, a) n =
    (any-snoc (c x) xs y ∙ ground (arith, h, n, s x y), Apart-snoc c s xs y a (ground (arith, n)))

pub any-keep {ℓ} :
    {A : Type ℓ} → (p q : A → Bool) (xs : List A) → any p xs ≡ false → any p (keep q xs) ≡ false
unfolding keep
any-keep p q [] h = refl
any-keep p q (x ∷ xs) h = ground (arith, h, any-keep p q xs)

pub Apart-keep {ℓ} :
    {A : Type ℓ}
    → (c : A → A → Bool) (q : A → Bool) (xs : List A) → Apart c xs
    → Apart c (keep q xs)
unfolding keep
Apart-keep c q [] a = tt
Apart-keep c q (x ∷ xs) (h, a) = elim (Bool-cases (q x)) [
  | inl y ↦ rw y (any-keep (c x) q xs h, Apart-keep c q xs a)
  | inr n ↦ rw n (Apart-keep c q xs a)
]

pub All-keep {ℓ κ} :
    {A : Type ℓ}
    → (P Q : A → Type κ) (q : A → Bool) (xs : List A) → ((x : A) → q x ≡ true → P x → Q x)
    → All P xs
    → All Q (keep q xs)
unfolding keep
All-keep P Q q [] f a = tt
All-keep P Q q (x ∷ xs) f (h, a) = elim (Bool-cases (q x)) [
  | inl y ↦ rw y (f x y h, All-keep P Q q xs f a)
  | inr n ↦ rw n (All-keep P Q q xs f a)
]

pub any-perm {ℓ} :
    {A : Type ℓ} {xs ys : List A} → (p : A → Bool) → Permᴰ xs ys → any p xs ≡ any p ys
any-perm p Permᴰ.nil = refl
any-perm p (Permᴰ.cons e q) = ground (arith, e, any-perm p q)
any-perm p (Permᴰ.swap e e') = ground (arith, e, e')
any-perm p (Permᴰ.trans q r) = any-perm p q ∙ any-perm p r

pub Apart-perm {ℓ} :
    {A : Type ℓ} {xs ys : List A}
    → (c : A → A → Bool) → ((a b : A) → c a b ≡ c b a)
    → Permᴰ xs ys
    → Apart c xs
    → Apart c ys
Apart-perm c s Permᴰ.nil a = tt
Apart-perm c s (Permᴰ.cons {a = x} {b = y} {l₁ = xs} {l₂ = ys} e q) (h, a) =
    (sym (any-perm (c y) q) ∙ ap (λ z. any (c z) xs) (sym e) ∙ h, Apart-perm c s q a)
Apart-perm c s (Permᴰ.swap {a = x} {b = y} {a' = y'} {b' = x'} {l = l} e e') (h, (k, a)) =
    subst (λ z. Apart c (z ∷ x' ∷ l)) e'
      (subst (λ z. Apart c (y ∷ z ∷ l)) e (ground (arith, h, k, s x y), (ground (arith, h), a)))
Apart-perm c s (Permᴰ.trans q r) a = Apart-perm c s r (Apart-perm c s q a)

pub map-perm {ℓ κ} :
    {A : Type ℓ} {B : Type κ} {xs ys : List A}
    → (f : A → B) → Permᴰ xs ys
    → Permᴰ (map f xs) (map f ys)
map-perm f Permᴰ.nil = Permᴰ.nil
map-perm f (Permᴰ.cons e q) = Permᴰ.cons (ap f e) (map-perm f q)
map-perm f (Permᴰ.swap e e') = Permᴰ.swap (ap f e) (ap f e')
map-perm f (Permᴰ.trans q r) = Permᴰ.trans (map-perm f q) (map-perm f r)

pub perm_refl {ℓ} : {A : Type ℓ} (xs : List A) → Permᴰ xs xs
perm_refl [] = Permᴰ.nil
perm_refl (x ∷ xs) = Permᴰ.cons refl (perm_refl xs)

pub All-perm {ℓ κ} :
    {A : Type ℓ} {xs ys : List A} → (P : A → Type κ) → Permᴰ xs ys → All P xs → All P ys
All-perm P Permᴰ.nil h = tt
All-perm P (Permᴰ.cons e q) (h, hs) = (subst P e h, All-perm P q hs)
All-perm P (Permᴰ.swap e e') (h, (k, hs)) = (subst P e' k, (subst P e h, hs))
All-perm P (Permᴰ.trans q r) h = All-perm P r (All-perm P q h)

pub All-take {ℓ κ} :
    {A : Type ℓ} → (P : A → Type κ) (n : ℕ) (xs : List A) → All P xs → All P (take n xs)
All-take P zero xs h = tt
All-take P (suc n) [] h = tt
All-take P (suc n) (x ∷ xs) (h, hs) = (h, All-take P n xs hs)

any-take {ℓ} :
    {A : Type ℓ}
    → (p : A → Bool) (n : ℕ) (xs : List A) → any p xs ≡ false
    → any p (take n xs) ≡ false
any-take p zero xs h = refl
any-take p (suc n) [] h = refl
any-take p (suc n) (x ∷ xs) h = ground (arith, h, any-take p n xs)

pub Apart-take {ℓ} :
    {A : Type ℓ} → (c : A → A → Bool) (n : ℕ) (xs : List A) → Apart c xs → Apart c (take n xs)
Apart-take c zero xs h = tt
Apart-take c (suc n) [] h = tt
Apart-take c (suc n) (x ∷ xs) (h, hs) = (any-take (c x) n xs h, Apart-take c n xs hs)

any-weaken {ℓ} :
    {A : Type ℓ}
    → (p q : A → Bool) → ((x : A) → p x ≡ false → q x ≡ false)
    → (xs : List A) → any p xs ≡ false
    → any q xs ≡ false
any-weaken p q f [] h = refl
any-weaken p q f (x ∷ xs) h = ground (arith, h, f x, any-weaken p q f xs)

pub Apart-weaken {ℓ} :
    {A : Type ℓ}
    → (c d : A → A → Bool) → ((x y : A) → c x y ≡ false → d x y ≡ false)
    → (xs : List A) → Apart c xs
    → Apart d xs
Apart-weaken c d f [] a = tt
Apart-weaken c d f (x ∷ xs) (h, a) = (any-weaken (c x) (d x) (f x) xs h, Apart-weaken c d f xs a)
