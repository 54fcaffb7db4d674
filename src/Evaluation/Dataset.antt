-- ===== src/Evaluation/Dataset.antt =====
-- internal/evaluation/evaluation.go: the checks of LoadDataset on a dataset that is decoded, and
-- ValidateRAGDataset.
use dong_rag.Base.{
  ℕ, suc, ◌<◌, ◌≡◌, refl, ◌↔◌, Bool, true, false, ◌&&◌, not, Option, none, some, List, [], ◌∷◌,
  ◌++◌, arith, if◌then◌else◌, length, All, any, Apart, GoError, plain_error, Result, ok, err, Text,
  codes, text_eq, text_eq_sym, is_empty, decimal, trim_space,
}
use dong_rag.Evaluation.Run.{Case}

abbrev pub has_none : List Text → Bool
has_none [] = true
has_none (t ∷ ts) = false

-- The error of one case, at its place and after the ids before it.
unfoldable pub case_error : ℕ → List Text → Case → Option GoError
unfolding trim_space text_eq
case_error i seen c =
    if is_empty (trim_space c.id)
    then some (plain_error (codes "case " ++ decimal i ++ codes " has no id"))
    else if any (text_eq c.id) seen
    then some (plain_error (codes "duplicate case id " ++ c.id))
    else if is_empty (trim_space c.question)
    then some (plain_error (codes "case " ++ c.id ++ codes " has no question"))
    else if has_none c.relevant_documents && not c.should_refuse
    then some (plain_error (codes "case " ++ c.id ++ codes " has no relevant_documents"))
    else none

-- The first error.
abbrev pub or_rest : Option GoError → Option GoError → Option GoError
or_rest none rest = rest
or_rest (some e) rest = some e

unfoldable pub dataset_error : ℕ → List Text → List Case → Option GoError
unfolding case_error
dataset_error i seen [] = none
dataset_error i seen (c ∷ cs) =
    let rest = dataset_error (suc i) (c.id ∷ seen) cs in or_rest (case_error i seen c) rest

abbrev pub unless_error : Option GoError → List Case → Result (List Case)
unless_error none cs = ok cs
unless_error (some e) cs = err e

unfoldable pub load_dataset : List Case → Result (List Case)
unfolding dataset_error
load_dataset [] = err (plain_error (codes "evaluation dataset has no cases"))
load_dataset (c ∷ cs) = unless_error (dataset_error 0 [] (c ∷ cs)) (c ∷ cs)

unfoldable pub rag_case_error : Case → Option GoError
unfolding trim_space
rag_case_error c =
    if is_empty (trim_space c.reference_answer) && not c.should_refuse
    then some (plain_error (codes "case " ++ c.id ++ codes " has no reference_answer"))
    else if has_none c.required_citations && not c.should_refuse
    then some (plain_error (codes "case " ++ c.id ++ codes " has no required_citations"))
    else none

unfoldable pub validate_rag_dataset : List Case → Option GoError
unfolding rag_case_error
validate_rag_dataset [] = none
validate_rag_dataset (c ∷ cs) =
    let rest = validate_rag_dataset cs in or_rest (rag_case_error c) rest

-- What a case needs by itself.
abbrev pub IsComplete : Case → Type 0
IsComplete c =
    (is_empty (trim_space c.id) ≡ false)
    × (is_empty (trim_space c.question) ≡ false)
    × ((has_none c.relevant_documents && not c.should_refuse) ≡ false)

abbrev pub same_case_id : Case → Case → Bool
same_case_id a b = text_eq a.id b.id

-- A dataset that can be run: there is a case, each is complete, and no two have the same id.
abbrev pub IsDataset : List Case → Type 0
IsDataset cs = (0 < length cs) × All IsComplete cs × Apart same_case_id cs

-- Four checks, one after the other.
abbrev checks : Bool → Bool → Bool → Bool → GoError → GoError → GoError → GoError → Option GoError
checks a b c d x y z w =
    if a then some x else if b then some y else if c then some z else if d then some w else none

checks_pass :
    (a b c d : Bool) (x y z w : GoError)
    → checks a b c d x y z w ≡ none
    → (a ≡ false) × (b ≡ false) × (c ≡ false) × (d ≡ false)
checks_pass true b c d x y z w h = absurd (cc)
checks_pass false true c d x y z w h = absurd (cc)
checks_pass false false true d x y z w h = absurd (cc)
checks_pass false false false true x y z w h = absurd (cc)
checks_pass false false false false x y z w h = (refl, refl, refl, refl)

passed_checks :
    (a b c d : Bool) (x y z w : GoError)
    → (a ≡ false) × (b ≡ false) × (c ≡ false) × (d ≡ false)
    → checks a b c d x y z w ≡ none
passed_checks a b c d x y z w (p, q, r, s) = rw (p, q, r, s) refl

case_sound :
    (i : ℕ) (seen : List Text) (c : Case)
    → (case_error i seen c ≡ none) ↔ (IsComplete c × (any (text_eq c.id) seen ≡ false))
unfolding case_error
case_sound i seen c = (
  λ h. let (a, b, q, d) = checks_pass _ _ _ _ _ _ _ _ h in ((a, q, d), b),
  λ ((a, q, d), b). passed_checks _ _ _ _ _ _ _ _ (a, b, q, d),
)

-- The cases are complete, and their ids differ from each other and from those that were seen.
abbrev Fresh : List Text → List Case → Type 0
Fresh seen cs =
    All IsComplete cs × Apart same_case_id cs × All (λ c. any (text_eq c.id) seen ≡ false) cs

unseen_rest :
    (c : Case) (seen : List Text) (cs : List Case)
    → All (λ d. any (text_eq d.id) (c.id ∷ seen) ≡ false) cs
      ↔ ((any (same_case_id c) cs ≡ false) × All (λ d. any (text_eq d.id) seen ≡ false) cs)
unseen_rest c seen [] = (λ h. (refl, tt), λ h. tt)
unseen_rest c seen (d ∷ cs) =
    let rest = unseen_rest c seen cs in
    let flip = text_eq_sym d.id c.id in
    (
      λ (h, hs). let (n, a) = rest.0 hs in (ground (arith, h, flip, n), (ground (arith, h), a)),
      λ (n, (h, hs)). (ground (arith, n, h, flip), rest.1 (ground (arith, n), hs)),
    )

or_rest-none : (a b : Option GoError) → (or_rest a b ≡ none) ↔ ((a ≡ none) × (b ≡ none))
or_rest-none none b = (λ h. (refl, h), λ (e, h). h)
or_rest-none (some e) b = (λ h. absurd (cc), λ (p, h). absurd (cc))

dataset_error-Fresh :
    (i : ℕ) (seen : List Text) (cs : List Case) → (dataset_error i seen cs ≡ none) ↔ Fresh seen cs
unfolding dataset_error
dataset_error-Fresh i seen [] = (λ h. (tt, tt, tt), λ h. refl)
dataset_error-Fresh i seen (c ∷ cs) =
    let rest = dataset_error-Fresh (suc i) (c.id ∷ seen) cs in
    let one = case_sound i seen c in
    let later = unseen_rest c seen cs in
    (
      λ h.
          let (a, b) =
            (or_rest-none (case_error i seen c) (dataset_error (suc i) (c.id ∷ seen) cs)).0 h in
          let (x, n) = one.0 a in
          let (xs, d, un) = rest.0 b in let (m, u) = later.0 un in ((x, xs), (m, d), (n, u)),
      λ ((x, xs), (m, d), (n, u)).
          (or_rest-none (case_error i seen c) (dataset_error (suc i) (c.id ∷ seen) cs)).1
            (one.1 (x, n), rest.1 (xs, d, later.1 (m, u))),
    )

unless_error_ok : (e : Option GoError) (cs : List Case) → (unless_error e cs ≡ ok cs) ↔ (e ≡ none)
unless_error_ok none cs = (λ h. refl, λ h. refl)
unless_error_ok (some e) cs = (λ h. absurd (cc), λ h. absurd (cc))

nothing_seen : (cs : List Case) → All (λ c. any (text_eq c.id) [] ≡ false) cs
nothing_seen [] = tt
nothing_seen (c ∷ cs) = (refl, nothing_seen cs)

-- LoadDataset accepts a decoded dataset, unchanged, exactly where it has a case, each case has an
-- id, a question and relevant documents (which a case that is to be refused need not have), and no
-- two cases have the same id.
pub load_dataset-IsDataset : (cs : List Case) → (load_dataset cs ≡ ok cs) ↔ IsDataset cs
unfolding load_dataset
load_dataset-IsDataset [] = (λ h. absurd (cc), λ h. absurd (omega (arith, h.0)))
load_dataset-IsDataset (c ∷ cs) =
    let all = dataset_error-Fresh 0 [] (c ∷ cs) in
    let accepted = unless_error_ok (dataset_error 0 [] (c ∷ cs)) (c ∷ cs) in
    (
      λ h. let (x, a, _) = all.0 (accepted.0 h) in (omega arith, x, a),
      λ (_, x, a). accepted.1 (all.1 (x, a, nothing_seen (c ∷ cs))),
    )
