-- ===== src/Evaluation/Judge/Citations.antt =====
-- internal/evaluation/evaluation.go: citedDocuments, which reads the citations `[n]` of an answer,
-- with what it uses of fmt.Sscanf and strings.IndexByte.
pub mod Written
use dong_rag.Base.{
  ℕ, zero, suc, ◌+◌, ◌-◌, ◌*◌, Bool, false, ◌&&◌, Option, none, some, List, [], ◌∷◌, ◌++◌, leb,
  ◌==◌, if◌then◌else◌, get_elem?, take, any, ℤ, pos, negsuc, Text, text_eq, is_space,
}
use dong_rag.Retrieval.Hit.{Hit}

abbrev one_later : Option ℕ → Option ℕ
one_later none = none
one_later (some i) = some (suc i)

-- `strings.IndexByte`
unfoldable pub index_of : ℕ → Text → Option ℕ
index_of c [] = none
index_of c (d ∷ t) = if c == d then some 0 else one_later (index_of c t)

abbrev pub is_digit : ℕ → Bool
is_digit c = leb b'0' c && leb c b'9'

-- The white space before a number; a line break there is an error.
unfoldable pub skip_space : Text → Option Text
skip_space [] = some []
skip_space (c ∷ t) = if c == 10 then none else if is_space c then skip_space t else some (c ∷ t)

-- The value of the digits at the front, and what follows them.
unfoldable pub scan_digits : ℕ → Text → ℕ × Text
scan_digits n [] = (n, [])
scan_digits n (c ∷ t) = if is_digit c then scan_digits (10 * n + (c - b'0')) t else (n, c ∷ t)

abbrev pub starts_digit : Text → Bool
starts_digit [] = false
starts_digit (c ∷ t) = is_digit c

abbrev pub closes : Text → Bool
closes [] = false
closes (c ∷ t) = c == b']'

abbrev pub unsigned_number : (ℕ → ℤ) → Text → Option ℤ
unsigned_number sign t =
    let (n, rest) = scan_digits 0 t in if starts_digit t && closes rest then some (sign n) else none

abbrev pub below_zero : ℕ → ℤ
below_zero zero = pos 0
below_zero (suc n) = negsuc n

abbrev pub signed_number : Text → Option ℤ
signed_number [] = none
signed_number (c ∷ t) =
    if c == b'-'
    then unsigned_number below_zero t
    else if c == b'+'
    then unsigned_number pos t
    else unsigned_number pos (c ∷ t)

abbrev pub or_number : Option Text → Option ℤ
or_number none = none
or_number (some t) = signed_number t

-- `fmt.Sscanf(text, "[%d]", &n)`. A number above the range of int64, for which Sscanf fails, is
-- above the number of hits in any case.
unfoldable pub scan_citation : Text → Option ℤ
unfolding skip_space scan_digits is_space
scan_citation [] = none
scan_citation (c ∷ t) = if c == b'[' then or_number (skip_space t) else none

-- `result[name] = struct{}{}`
abbrev pub add_name : Text → List Text → List Text
add_name name names = if any (text_eq name) names then names else names ++ (name ∷ [])

abbrev pub bracket_end : Option ℕ → ℕ
bracket_end none = 0
bracket_end (some n) = n

module _ {Float : Type 0} (normalize_name : Text → Text) where
  abbrev pub cite_hit : Option (Hit Float) → List Text → List Text
  cite_hit none cited = cited
  cite_hit (some h) cited = add_name (normalize_name h.document_name) cited

  -- `hits[n-1]`, for `n` from 1 to `len(hits)`.
  abbrev pub cite : List (Hit Float) → Option ℤ → List Text → List Text
  cite hits (some (pos (suc n))) cited = cite_hit (get_elem? hits n) cited
  cite hits _ cited = cited

  -- The loop over the answer. `skip` is what is left of `i += end`.
  unfoldable pub cited_from : List (Hit Float) → ℕ → Text → List Text → List Text
  unfolding index_of scan_citation text_eq
  cited_from hits skip [] cited = cited
  cited_from hits (suc skip) (c ∷ answer) cited = cited_from hits skip answer cited
  cited_from hits zero (c ∷ answer) cited =
      let end = bracket_end (index_of b']' (c ∷ answer)) in
      let is_bracketed = c == b'[' && leb 2 end in
      cited_from hits (if is_bracketed then end else 0) answer (
        if is_bracketed
        then cite hits (scan_citation (take (end + 1) (c ∷ answer))) cited
        else cited)

  unfoldable pub cited_documents : Text → List (Hit Float) → List Text
  unfolding cited_from
  cited_documents answer hits = cited_from hits 0 answer []
