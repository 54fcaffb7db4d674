-- ===== src/Base/Assoc.antt =====
-- Go's maps with string keys, as association lists in the order of insertion.
use mathlib.Core.Path.{◌≡◌, refl, ap, ◌∙◌}
use mathlib.Core.Bool.{Bool, ◌||◌}
use mathlib.Core.Logic.{inl, inr}
use dong_rag.Base.Lists.{All, any}
use dong_rag.Base.Distinct.{Apart}
use mathlib.Core.List.{List, [], ◌∷◌}
use mathlib.Core.Option.{Option, none, some}
use native.Mathlib.Omega.{arith}
use dong_rag.Base.Tests.{if◌then◌else◌, Bool-cases}
use dong_rag.Base.Strings.{Text, text_eq, eq_of_text_eq, text_eq_iff}

module _ {ℓ} {V : Type ℓ} where
  unfoldable pub lookup : Text → List (Text × V) → Option V
  lookup k [] = none
  lookup k ((j, v) ∷ m) = if text_eq j k then some v else lookup k m

  unfoldable pub insert : Text → V → List (Text × V) → List (Text × V)
  insert k v [] = (k, v) ∷ []
  insert k v ((j, w) ∷ m) = if text_eq j k then (k, v) ∷ m else (j, w) ∷ insert k v m

  pub lookup-insert :
      (k j : Text) (v : V) (m : List (Text × V))
      → lookup j (insert k v m) ≡ (if text_eq k j then some v else lookup j m)
  unfolding lookup insert
  lookup-insert k j v [] = refl
  lookup-insert k j v ((i, w) ∷ m) =
      ground (arith, text_eq_iff k j, text_eq_iff i k, text_eq_iff i j, lookup-insert k j v m)

  pub any-insert :
      (p : Text → Bool) (k : Text) (v : V) (m : List (Text × V))
      → any (λ e. p e.0) (insert k v m) ≡ (p k || any (λ e. p e.0) m)
  unfolding insert
  any-insert p k v [] = refl
  any-insert p k v ((j, w) ∷ m) = ground (arith, any-insert p k v m, text_eq_iff j k, ap p)

  -- No key stands twice, also after an insertion.
  pub insert-Apart :
      (k : Text) (v : V) (m : List (Text × V))
      → Apart (λ e f. text_eq e.0 f.0) m
      → Apart (λ e f. text_eq e.0 f.0) (insert k v m)
  unfolding insert
  insert-Apart k v [] a = (refl, tt)
  insert-Apart k v ((j, w) ∷ m) (n, a) = elim (Bool-cases (text_eq j k)) [
    | inl y ↦ rw y (rw (eq_of_text_eq j k y) at n, a)
    | inr d ↦ rw d (any-insert (text_eq j) k v m ∙ ground (arith, n, d), insert-Apart k v m a)
  ]

  pub insert-All {κ} :
      (P : Text × V → Type κ) (k : Text) (v : V) (m : List (Text × V))
      → P (k, v)
      → All P m
      → All P (insert k v m)
  unfolding insert
  insert-All P k v [] h a = (h, tt)
  insert-All P k v ((j, w) ∷ m) h (y, a) = elim (Bool-cases (text_eq j k)) [
    | inl e ↦ rw e (h, a)
    | inr d ↦ rw d (y, insert-All P k v m h a)
  ]
