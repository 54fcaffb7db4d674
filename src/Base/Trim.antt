-- ===== src/Base/Trim.antt =====
-- What the code uses of Go's package `strings` on whole texts: white space, lines, joins, prefixes.
use native.Mathlib.Omega.{arith}
use Prim.Native.Nat.{ℕ}
use mathlib.Core.Path.{sym, ◌≡◌, refl, ◌∙◌, ap}
use mathlib.Core.Bool.{Bool, true, false, ◌&&◌, ◌||◌, not}
use mathlib.Core.List.{List, [], ◌∷◌, ◌++◌, append_assoc, append-nil}
use dong_rag.Base.Tests.{leb, ◌==◌, if◌then◌else◌}
use dong_rag.Base.Lists.{keep}
use dong_rag.Base.Strings.{Text, is_empty}

-- `unicode.IsSpace`
unfoldable pub is_space : ℕ → Bool
is_space c =
    (leb 9 c && leb c 13)
    || c == 32
    || c == 0x85
    || c == 0xA0
    || c == 0x1680
    || (leb 0x2000 c && leb c 0x200A)
    || c == 0x2028
    || c == 0x2029
    || c == 0x202F
    || c == 0x205F
    || c == 0x3000

unfoldable pub trim_left : Text → Text
trim_left [] = []
trim_left (c ∷ cs) = if is_space c then trim_left cs else c ∷ cs

unfoldable pub trim_right : Text → Text
trim_right [] = []
trim_right (c ∷ cs) =
    let rest = trim_right cs in if is_empty rest && is_space c then [] else c ∷ rest

-- `strings.TrimSpace`
unfoldable pub trim_space : Text → Text
unfolding trim_left trim_right is_space
trim_space t = trim_right (trim_left t)

-- `strings.ReplaceAll(text, "\r\n", "\n")`
unfoldable pub replace_crlf : Text → Text
replace_crlf [] = []
replace_crlf (c ∷ []) = c ∷ []
replace_crlf (c ∷ d ∷ cs) =
    let rest = replace_crlf (d ∷ cs) in if c == 13 && d == 10 then rest else c ∷ rest

abbrev pub prepend : ℕ → List Text → List Text
prepend c [] = (c ∷ []) ∷ []
prepend c (l ∷ ls) = (c ∷ l) ∷ ls

-- `strings.Split(text, "\n")`
unfoldable pub split_lines : Text → List Text
split_lines [] = [] ∷ []
split_lines (c ∷ cs) = let rest = split_lines cs in if c == 10 then [] ∷ rest else prepend c rest

-- `strings.Join(parts, separator)`
unfoldable pub join : Text → List Text → Text
join separator [] = []
join separator (t ∷ []) = t
join separator (t ∷ u ∷ ts) = t ++ (separator ++ join separator (u ∷ ts))

-- `strings.HasPrefix(t, p)`
unfoldable pub has_prefix : Text → Text → Bool
has_prefix t [] = true
has_prefix [] (p ∷ ps) = false
has_prefix (c ∷ cs) (p ∷ ps) = c == p && has_prefix cs ps

-- The runes of a text that are not white space.
abbrev pub visible : ℕ → Bool
visible c = not (is_space c)

abbrev pub ink : Text → Text
ink t = keep visible t

abbrev pub inks : List Text → Text
inks [] = []
inks (t ∷ ts) = ink t ++ inks ts

space_cr : is_space 13 ≡ true
unfolding is_space
space_cr = refl

space_lf : is_space 10 ≡ true
unfolding is_space
space_lf = refl

pub ink-append : (s t : Text) → ink (s ++ t) ≡ ink s ++ ink t
unfolding keep
ink-append [] t = refl
ink-append (c ∷ s) t = ground (arith, ink-append s t)

ink-trim_left : (t : Text) → ink (trim_left t) ≡ ink t
unfolding trim_left keep
ink-trim_left [] = refl
ink-trim_left (c ∷ t) = ground (arith, ink-trim_left t)

ink-trim_right : (t : Text) → ink (trim_right t) ≡ ink t
unfolding trim_right keep
ink-trim_right [] = refl
ink-trim_right (c ∷ t) = ground (arith, ink-trim_right t)

-- Trimming drops white space alone.
pub ink-trim_space : (t : Text) → ink (trim_space t) ≡ ink t
unfolding trim_space
ink-trim_space t = ink-trim_right (trim_left t) ∙ ink-trim_left t

pub ink-replace_crlf : (t : Text) → ink (replace_crlf t) ≡ ink t
unfolding replace_crlf keep
ink-replace_crlf [] = refl
ink-replace_crlf (c ∷ []) = refl
ink-replace_crlf (c ∷ d ∷ t) = ground (arith, space_cr, ink-replace_crlf (d ∷ t))

pub ink-split_lines : (t : Text) → inks (split_lines t) ≡ ink t
unfolding split_lines keep
ink-split_lines [] = refl
ink-split_lines (c ∷ t) = ground (arith, space_lf, ink-split_lines t)

pub ink-join : (ts : List Text) → ink (join (10 ∷ []) ts) ≡ inks ts
unfolding join keep
ink-join [] = refl
ink-join (t ∷ []) = sym (append-nil (ink t))
ink-join (t ∷ u ∷ ts) =
    ink-append t (10 ∷ join (10 ∷ []) (u ∷ ts))
    ∙ ap (◌++◌ (ink t)) (rw space_lf (ink-join (u ∷ ts)))

pub inks-append : (ss ts : List Text) → inks (ss ++ ts) ≡ inks ss ++ inks ts
inks-append [] ts = refl
inks-append (s ∷ ss) ts = rw (inks-append ss ts) (sym (append_assoc (ink s) (inks ss) (inks ts)))

pub ink-blank : (t : Text) → is_empty (trim_space t) ≡ true → ink t ≡ []
ink-blank t e = sym (ink-trim_space t) ∙ blank (trim_space t) e
  where
    blank : (u : Text) → is_empty u ≡ true → ink u ≡ []
    blank [] e = unfold keep in refl
    blank (c ∷ u) e = cc
