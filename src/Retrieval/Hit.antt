-- ===== src/Retrieval/Hit.antt =====
-- internal/store/store.go's `Hit`, and what internal/rag/service.go does with floats and counters.
use dong_rag.Base.{
  ℕ, suc, ◌≡◌, ap, ◌∙◌, Bool, true, false, Option, none, some, List, arith, if◌then◌else◌, lookup,
  insert, lookup-insert, Text, text_eq,
}
use dong_rag.Store.Tables.{Metadata}

-- Go's float64, without NaN: a type with the order and the operations that the code uses.
pub record Floats : Type 1 where
  pub Float : Type 0
  pub lt : Float → Float → Bool
  pub nought : Float
  -- `1.0 / float64(n)`
  pub reciprocal : ℕ → Float
  pub plus : Float → Float → Float
  pub lt_asym : (a b : Float) → lt a b ≡ true → lt b a ≡ false
  pub not-lt_trans : (a b c : Float) → lt a b ≡ false → lt b c ≡ false → lt a c ≡ false

pub record Hit (Float : Type 0) : Type 0 where
  pub id : Text
  pub document_id : Text
  pub document_name : Text
  pub content : Text
  pub metadata : Metadata
  pub score : Float
  pub vector_rank : ℕ
  pub vector_score : Float
  pub lexical_rank : ℕ
  pub lexical_score : Float
  pub rrf_score : Float
  pub rerank_rank : ℕ
  pub rerank_score : Float
  pub final_rank : ℕ

abbrev pub of_document : {Float : Type 0} → Text → Hit Float → Bool
of_document d h = text_eq h.document_id d

-- A `map[string]int` of counters, where a key that is missing counts 0.
abbrev pub Tally : Type 0
Tally = List (Text × ℕ)

abbrev value_or_zero : Option ℕ → ℕ
value_or_zero none = 0
value_or_zero (some n) = n

unfoldable pub tally : Text → Tally → ℕ
unfolding lookup
tally d c = value_or_zero (lookup d c)

-- `counts[d]++`
unfoldable pub bump : Text → Tally → Tally
unfolding insert tally
bump d c = insert d (suc (tally d c)) c

pub tally-bump :
    (d e : Text) (c : Tally)
    → tally e (bump d c) ≡ (if text_eq d e then suc (tally d c) else tally e c)
unfolding tally bump
tally-bump d e c =
    ap value_or_zero (lookup-insert d e (suc (value_or_zero (lookup d c))) c) ∙ ground arith
