-- ===== src/Chunker/Markdown/Headings.antt =====
-- internal/rag/chunker.go: the heading path.
use dong_rag.Base.{
  ℕ, zero, suc, ◌+◌, ◌-◌, ◌≤◌, ◌<◌, ◌≡◌, refl, sym, ◌∙◌, some, List, [], ◌∷◌, ◌++◌, arith, ltb, leb,
  if◌then◌else◌, length, get_elem?, take, length-append, length-take, Text,
}
use dong_rag.Chunker.Markdown.{pad, push_heading}

length-pad : (n : ℕ) (path : List Text) → length (pad n path) ≡ length path + n
unfolding pad
length-pad zero path = omega arith
length-pad (suc n) path =
    omega (arith, length-pad n (path ++ [] ∷ []), length-append {0} path ([] ∷ []))

get_elem?-append_left {ℓ} :
    {A : Type ℓ} (xs ys : List A) (i : ℕ) → i < length xs → get_elem? (xs ++ ys) i ≡ get_elem? xs i
get_elem?-append_left [] ys i h = elim h [ ]
get_elem?-append_left (x ∷ xs) ys zero h = refl
get_elem?-append_left (x ∷ xs) ys (suc i) h = get_elem?-append_left xs ys i (omega arith)

get_elem?-append_length {ℓ} :
    {A : Type ℓ} (xs : List A) (y : A) (i : ℕ) → i ≡ length xs → get_elem? (xs ++ y ∷ []) i ≡ some y
get_elem?-append_length [] y i h = rw h
get_elem?-append_length (x ∷ xs) y zero h = absurd (omega arith)
get_elem?-append_length (x ∷ xs) y (suc i) h = get_elem?-append_length xs y i (omega arith)

get_elem?-pad :
    (n : ℕ) (path : List Text) (i : ℕ)
    → i < length path + n
    → get_elem? (pad n path) i ≡ (if ltb i (length path) then get_elem? path i else some [])
unfolding pad
get_elem?-pad zero path i h = ground arith
get_elem?-pad (suc n) path i h = ground (
  arith,
  get_elem?-pad n (path ++ [] ∷ []) i,
  length-append path ([] ∷ []),
  get_elem?-append_left path ([] ∷ []) i,
  get_elem?-append_length path [] i,
)

get_elem?-take {ℓ} :
    {A : Type ℓ} (n : ℕ) (xs : List A) (i : ℕ) → i < n → get_elem? (take n xs) i ≡ get_elem? xs i
get_elem?-take zero xs i h = elim h [ ]
get_elem?-take (suc n) [] i h = refl
get_elem?-take (suc n) (x ∷ xs) zero h = refl
get_elem?-take (suc n) (x ∷ xs) (suc i) h = get_elem?-take n xs i (omega arith)

-- The part of the path that `push_heading` keeps, for `level - 1` as `k`.
cut_path : List Text → ℕ → List Text
cut_path path level = if leb level (length path) then take (level - 1) path else path

length-cut_path : (path : List Text) (level : ℕ) → length (cut_path path level) ≤ level - 1
unfolding cut_path
length-cut_path path level = ground (arith, length-take (level - 1) path)

get_elem?-cut_path :
    (path : List Text) (level i : ℕ)
    → i < level - 1
    → (if ltb i (length (cut_path path level)) then get_elem? (cut_path path level) i else some [])
      ≡ (if ltb i (length path) then get_elem? path i else some [])
unfolding cut_path
get_elem?-cut_path path level i h =
    ground (arith, length-take (level - 1) path, get_elem?-take (level - 1) path i h)

-- A heading of a level has that many entries in its path: the headings above it as far as there
-- are any, empty texts for the levels between that were left out, and the heading itself.
pub push_heading_lem :
    (path : List Text) (level : ℕ) (heading : Text)
    → 0 < level
    → (length (push_heading path level heading) ≡ level)
      × (get_elem? (push_heading path level heading) (level - 1) ≡ some heading)
      × ((i : ℕ)
          → i < level - 1
          → get_elem? (push_heading path level heading) i
            ≡ (if ltb i (length path) then get_elem? path i else some []))
unfolding push_heading cut_path
push_heading_lem path level heading p =
    let cut = cut_path path level in
    let above = pad (level - 1 - length cut) cut in
    let short = length-cut_path path level in
    let size : length above ≡ level - 1 =
      omega (arith, short, length-pad (level - 1 - length cut) cut) in
    (
      omega (arith, size, length-append {0} above (heading ∷ [])),
      get_elem?-append_length above heading (level - 1) (sym size),
      λ i h.
          get_elem?-append_left above (heading ∷ []) i (omega (arith, size))
          ∙ get_elem?-pad (level - 1 - length cut) cut i (omega (arith, short))
          ∙ get_elem?-cut_path path level i h,
    )
