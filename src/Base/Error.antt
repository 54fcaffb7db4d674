-- ===== src/Base/Error.antt =====
-- Go's `error` values, by what `errors.Is` and `errors.As` find in their chains, and the result of
-- a call that may fail.
use mathlib.Core.Bool.{Bool, false}
use mathlib.Core.Path.{◌≡◌, refl}
use mathlib.Core.Logic.{◌⊎◌, inl, inr}
use mathlib.Core.Option.{Option, none}
use dong_rag.Base.Strings.{Bytes}

pub record GoError : Type 0 where
  pub message : Bytes
  pub is_canceled : Bool
  pub is_deadline : Bool
  -- What the first `Retryable` method in the chain answers.
  pub marked : Option Bool
  pub is_network : Bool
  pub safe_to_retry : Bool
  pub timed_out : Bool
  -- The SQLSTATE of the first `*pgconn.PgError` in the chain.
  pub pg_code : Option Bytes

-- `fmt.Errorf` and `errors.New`: a message, and nothing in the chain.
abbrev pub plain_error : Bytes → GoError
plain_error m = record {
  message = m;
  is_canceled = false;
  is_deadline = false;
  marked = none;
  is_network = false;
  safe_to_retry = false;
  timed_out = false;
  pg_code = none;
}

pub data Result {ℓ} (A : Type ℓ) : Type ℓ where
  ok : A → Result A
  err : GoError → Result A

-- `if err != nil { return err }`
abbrev pub and_then {ℓ κ} : {A : Type ℓ} {B : Type κ} → Result A → (A → Result B) → Result B
and_then (err e) f = err e
and_then (ok a) f = f a

-- A chain that succeeds has a first step that succeeds, and a second one that does on its result.
pub and_then_ok {ℓ κ} :
    {A : Type ℓ} {B : Type κ}
    → (r : Result A) (f : A → Result B) {b : B} → and_then r f ≡ ok b
    → (a : A) × (r ≡ ok a) × (f a ≡ ok b)
and_then_ok (err e) f h = absurd (cc)
and_then_ok (ok a) f h = (a, refl, h)

pub ok_inj {ℓ} : {A : Type ℓ} {a b : A} → ok a ≡ ok b → a ≡ b
ok_inj h = cc

pub Result-cases {ℓ} :
    {A : Type ℓ} → (r : Result A) → ((a : A) × (r ≡ ok a)) ⊎ ((e : GoError) × (r ≡ err e))
Result-cases (ok a) = inl (a, refl)
Result-cases (err e) = inr (e, refl)
