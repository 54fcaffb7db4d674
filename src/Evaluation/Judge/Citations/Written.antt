-- ===== src/Evaluation/Judge/Citations/Written.antt =====
-- internal/evaluation/evaluation.go: what citedDocuments reads in an answer that cites by number,
-- as the context numbers its blocks.
use dong_rag.Retrieval.Hit.{Hit}
use dong_rag.Base.{
  ℕ, zero, suc, ◌+◌, ◌/◌, ◌%◌, ◌<◌, ◌≡◌, refl, ap, ◌∙◌, inl, inr, true, false, some, List, [], ◌∷◌,
  ◌++◌, append_assoc, arith, ltb, leb, ◌==◌, Bool-cases, decimal-All, length, get_elem?, take, All,
  any, pos, Text, decimal_loop, decimal, is_space,
}
use dong_rag.Evaluation.Judge.Citations.{
  index_of, is_digit, skip_space, scan_digits, starts_digit, unsigned_number, or_number,
  scan_citation, cite_hit, cite, cited_from, cited_documents,
}

-- The digits of a number are read back, whatever follows them.
scan_digits-decimal :
    (fuel n : ℕ) (t : Text) → n < fuel → scan_digits 0 (decimal_loop fuel n ++ t) ≡ scan_digits n t
unfolding scan_digits
scan_digits-decimal zero n t h = absurd (omega arith)
scan_digits-decimal (suc fuel) n t h = elim (Bool-cases (ltb n 10)) [
  | inl small ↦ rw small (ground arith)
  | inr large ↦
      rw
        (
          large,
          append_assoc (decimal_loop fuel (n / 10)) ((48 + n % 10) ∷ []) t,
          scan_digits-decimal fuel (n / 10) ((48 + n % 10) ∷ t) (ground arith),
        )
        (ground arith)
]

starts-decimal : (fuel n : ℕ) (t : Text) → n < fuel → starts_digit (decimal_loop fuel n ++ t) ≡ true
starts-decimal zero n t h = absurd (omega arith)
starts-decimal (suc fuel) n t h = elim (Bool-cases (ltb n 10)) [
  | inl small ↦ rw small (ground arith)
  | inr large ↦
      rw
        (
          large,
          append_assoc (decimal_loop fuel (n / 10)) ((48 + n % 10) ∷ []) t,
          starts-decimal fuel (n / 10) ((48 + n % 10) ∷ t) (ground arith),
        )
        refl
]

or_number-digit :
    (t : Text) → starts_digit t ≡ true → or_number (skip_space t) ≡ unsigned_number pos t
unfolding skip_space is_space
or_number-digit [] h = cc
or_number-digit (c ∷ t) h = ground arith

-- A text that is read as the number `n`, with digits only.
record IsNumeral (n : ℕ) (ds : Text) : Type 0 where
  is_read : (t : Text) → scan_digits 0 (ds ++ t) ≡ scan_digits n t
  starts : (t : Text) → starts_digit (ds ++ t) ≡ true
  digits : All (λ c. is_digit c ≡ true) ds

decimal-IsNumeral : (n : ℕ) → IsNumeral n (decimal n)
decimal-IsNumeral n = record {
  is_read = λ t. scan_digits-decimal (suc n) n t (omega arith);
  starts = λ t. starts-decimal (suc n) n t (omega arith);
  digits = decimal-All (λ c. is_digit c ≡ true) n (λ d k. ground (arith, k));
}

scan_numeral :
    (n : ℕ) (ds : Text) → IsNumeral n ds → scan_citation (b'[' ∷ (ds ++ (b']' ∷ []))) ≡ some (pos n)
unfolding scan_citation
scan_numeral n ds h =
    or_number-digit (ds ++ (b']' ∷ [])) (h.starts (b']' ∷ []))
    ∙ ground (arith, h.starts (b']' ∷ []), h.is_read (b']' ∷ []), stops n)
  where
    stops : (m : ℕ) → scan_digits m (b']' ∷ []) ≡ (m, b']' ∷ [])
    stops m = refl

index_of-digits :
    (ds t : Text)
    → All (λ c. is_digit c ≡ true) ds
    → index_of b']' (ds ++ (b']' ∷ t)) ≡ some (length ds)
unfolding index_of
index_of-digits [] t h = refl
index_of-digits (c ∷ ds) t (h, hs) = ground (arith, h, index_of-digits ds t hs)

index_of-bracket :
    (ds t : Text)
    → All (λ c. is_digit c ≡ true) ds
    → index_of b']' (b'[' ∷ (ds ++ (b']' ∷ t))) ≡ some (suc (length ds))
unfolding index_of
index_of-bracket ds t h = rw (index_of-digits ds t h)

take_past : (xs : Text) (y : ℕ) (t : Text) → take (suc (length xs)) (xs ++ (y ∷ t)) ≡ xs ++ (y ∷ [])
take_past [] y t = refl
take_past (x ∷ xs) y t = ap (λ r. x ∷ r) (take_past xs y t)

take_bracketed :
    (ds t : Text)
    → take (suc (length ds) + 1) (b'[' ∷ (ds ++ (b']' ∷ t))) ≡ b'[' ∷ (ds ++ (b']' ∷ []))
take_bracketed ds t =
    let e : suc (length ds) + 1 ≡ suc (suc (length ds)) = omega arith in rw (e, take_past ds b']' t)

-- An answer in pieces: a text without a bracket, then a citation.
abbrev pub written : List (Text × ℕ) → Text → Text
written [] end = end
written ((p, n) ∷ rest) end = p ++ (b'[' ∷ (decimal n ++ (b']' ∷ written rest end)))

abbrev pub IsPlain : Text → Type 0
IsPlain p = any (λ c. c == b'[') p ≡ false

module _ {Float : Type 0} (normalize_name : Text → Text) (hits : List (Hit Float)) where
  cited_from-past :
      (xs : Text) (y : ℕ) (t : Text) (cited : List Text)
      → cited_from normalize_name hits (suc (length xs)) (xs ++ (y ∷ t)) cited
        ≡ cited_from normalize_name hits 0 t cited
  unfolding cited_from
  cited_from-past [] y t cited = refl
  cited_from-past (x ∷ xs) y t cited = cited_from-past xs y t cited

  step_plain :
      (c : ℕ) (t : Text) (cited : List Text)
      → (c == b'[') ≡ false
      → cited_from normalize_name hits 0 (c ∷ t) cited ≡ cited_from normalize_name hits 0 t cited
  unfolding cited_from
  step_plain c t cited h = rw h

  step_bracket :
      (t : Text) (end : ℕ) (cited : List Text)
      → index_of b']' (b'[' ∷ t) ≡ some end
      → leb 2 end ≡ true
      → cited_from normalize_name hits 0 (b'[' ∷ t) cited
        ≡ cited_from normalize_name hits end t
            (cite normalize_name hits (scan_citation (take (end + 1) (b'[' ∷ t))) cited)
  unfolding cited_from
  step_bracket t end cited e h = rw (e, h)

  -- Text without a bracket cites nothing.
  cited_from-plain :
      (p t : Text) (cited : List Text)
      → any (λ c. c == b'[') p ≡ false
      → cited_from normalize_name hits 0 (p ++ t) cited ≡ cited_from normalize_name hits 0 t cited
  cited_from-plain [] t cited h = refl
  cited_from-plain (c ∷ p) t cited h =
      step_plain c (p ++ t) cited (ground (arith, h))
      ∙ cited_from-plain p t cited (ground (arith, h))

  cited_from-number :
      (n : ℕ) (ds t : Text) (cited : List Text)
      → IsNumeral n ds
      → cited_from normalize_name hits 0 (b'[' ∷ (ds ++ (b']' ∷ t))) cited
        ≡ cited_from normalize_name hits 0 t (cite normalize_name hits (some (pos n)) cited)
  cited_from-number n [] t cited h = cc (h.starts [])
  cited_from-number n (d ∷ ds) t cited h =
      step_bracket ((d ∷ ds) ++ (b']' ∷ t)) (suc (length (d ∷ ds))) cited
        (index_of-bracket (d ∷ ds) t h.digits) (ground arith)
      ∙ cited_from-past (d ∷ ds) b']' t _
      ∙ ap (λ r. cited_from normalize_name hits 0 t (cite normalize_name hits r cited))
          (ap scan_citation (take_bracketed (d ∷ ds) t) ∙ scan_numeral n (d ∷ ds) h)

  -- The documents of the hits with these numbers, which count from 1.
  abbrev pub names_of : List (Text × ℕ) → List Text → List Text
  names_of [] names = names
  names_of ((p, zero) ∷ rest) names = names_of rest names
  names_of ((p, suc n) ∷ rest) names =
      names_of rest (cite_hit normalize_name (get_elem? hits n) names)

  cited_from-none :
      (end : Text) (cited : List Text)
      → IsPlain end
      → cited_from normalize_name hits 0 end cited ≡ cited
  unfolding cited_from
  cited_from-none [] cited e = refl
  cited_from-none (c ∷ end) cited e =
      step_plain c end cited (ground (arith, e)) ∙ cited_from-none end cited (ground (arith, e))

  cited_from-written :
      (pieces : List (Text × ℕ)) (end : Text) (cited : List Text)
      → All (λ p. IsPlain p.0) pieces
      → IsPlain end
      → cited_from normalize_name hits 0 (written pieces end) cited ≡ names_of pieces cited
  cited_from-written [] end cited h e = cited_from-none end cited e
  cited_from-written ((p, zero) ∷ rest) end cited (h, hs) e =
      cited_from-plain p (b'[' ∷ (decimal zero ++ (b']' ∷ written rest end))) cited h
      ∙ cited_from-number zero (decimal zero) (written rest end) cited (decimal-IsNumeral zero)
      ∙ cited_from-written rest end cited hs e
  cited_from-written ((p, suc n) ∷ rest) end cited (h, hs) e =
      cited_from-plain p (b'[' ∷ (decimal (suc n) ++ (b']' ∷ written rest end))) cited h
      ∙ cited_from-number (suc n) (decimal (suc n)) (written rest end) cited
          (decimal-IsNumeral (suc n))
      ∙ cited_from-written rest end _ hs e

  -- In an answer that puts numbers in brackets as the context does, and has no other bracket that
  -- opens, the cited documents are those of the hits with these numbers, each once; a number
  -- without a hit cites nothing.
  pub cited_documents-written :
      (pieces : List (Text × ℕ)) (end : Text)
      → All (λ p. IsPlain p.0) pieces
      → IsPlain end
      → cited_documents normalize_name (written pieces end) hits ≡ names_of pieces []
  unfolding cited_documents
  cited_documents-written pieces end h e = cited_from-written pieces end [] h e
