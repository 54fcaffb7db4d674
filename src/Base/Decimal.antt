-- ===== src/Base/Decimal.antt =====
-- The characters of a decimal number.
use Prim.Native.Nat.{ℕ, zero, suc, ◌+◌, ◌/◌, ◌%◌, ◌<◌}
use mathlib.Core.Path.{◌≡◌, refl}
use mathlib.Core.Bool.{false}
use mathlib.Core.Logic.{inl, inr}
use mathlib.Core.List.{[], ◌∷◌, ◌++◌}
use native.Mathlib.Omega.{arith}
use dong_rag.Base.Tests.{ltb, Bool-cases}
use dong_rag.Base.Lists.{All, All-append}
use dong_rag.Base.Strings.{Text, is_empty, decimal_loop, decimal}

decimal_loop-All {κ} :
    (P : ℕ → Type κ) (fuel n : ℕ) → ((d : ℕ) → d < 10 → P (48 + d)) → All P (decimal_loop fuel n)
decimal_loop-All P zero n h = tt
decimal_loop-All P (suc fuel) n h = elim (Bool-cases (ltb n 10)) [
  | inl small ↦ rw small (h n (ground (arith, small)), tt)
  | inr large ↦ rw large (
      All-append P (decimal_loop fuel (n / 10)) _ (decimal_loop-All P fuel (n / 10) h)
        (h (n % 10) (omega arith), tt))
]

-- What holds of the ten digits holds of all characters of a number.
pub decimal-All {κ} : (P : ℕ → Type κ) (n : ℕ) → ((d : ℕ) → d < 10 → P (48 + d)) → All P (decimal n)
decimal-All P n h = decimal_loop-All P (suc n) n h

snoc-is_empty : (s : Text) (c : ℕ) → is_empty (s ++ (c ∷ [])) ≡ false
snoc-is_empty [] c = refl
snoc-is_empty (x ∷ s) c = refl

pub decimal-is_empty : (n : ℕ) → is_empty (decimal n) ≡ false
decimal-is_empty n = elim (Bool-cases (ltb n 10)) [
  | inl small ↦ rw small refl
  | inr large ↦ rw large (snoc-is_empty (decimal_loop n (n / 10)) (48 + n % 10))
]
