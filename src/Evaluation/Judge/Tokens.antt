-- ===== src/Evaluation/Judge/Tokens.antt =====
-- internal/evaluation/evaluation.go: textTokens, which cuts a text into words of ASCII letters and
-- digits and into pairs of Han characters that stand side by side.
use dong_rag.Base.{
  ℕ, ◌≡◌, refl, ap, ◌∙◌, Bool, true, ◌&&◌, ◌||◌, not, List, [], ◌∷◌, ◌++◌, append_assoc, append-nil,
  arith, leb, if◌then◌else◌, Text, is_empty,
}

-- The tokens up to here, and the runs that are not ended.
pub record Scan : Type 0 where
  pub tokens : List Text
  pub word : Text
  pub han : Text

abbrev pub empty_scan : Scan
empty_scan = record { tokens = []; word = []; han = [] }

-- The characters from `一` to `鿿`.
abbrev pub is_han : ℕ → Bool
is_han r = leb 0x4E00 r && leb r 0x9FFF

abbrev pub is_word : ℕ → Bool
is_word r = (leb b'a' r && leb r b'z') || (leb b'0' r && leb r b'9')

unfoldable pub flush : Scan → Scan
flush s = if is_empty s.word then s else record s { tokens = s.tokens ++ (s.word ∷ []); word = [] }

abbrev pub bigrams : Text → List Text
bigrams [] = []
bigrams (a ∷ []) = []
bigrams (a ∷ b ∷ rest) = (a ∷ b ∷ []) ∷ bigrams (b ∷ rest)

abbrev pub han_tokens : Text → List Text
han_tokens [] = []
han_tokens (a ∷ []) = (a ∷ []) ∷ []
han_tokens (a ∷ b ∷ rest) = bigrams (a ∷ b ∷ rest)

unfoldable pub flush_han : Scan → Scan
flush_han s = record s { tokens = s.tokens ++ han_tokens s.han; han = [] }

abbrev pub add_word : ℕ → Scan → Scan
add_word r s = if is_word r then record s { word = s.word ++ (r ∷ []) } else flush s

abbrev pub add_han : ℕ → Scan → Scan
add_han r s = record s { han = s.han ++ (r ∷ []) }

unfoldable pub scan_rune : ℕ → Scan → Scan
scan_rune r s = if is_han r then add_han r (flush s) else add_word r (flush_han s)

unfoldable pub scan_runes : Text → Scan → Scan
scan_runes [] s = s
scan_runes (r ∷ t) s = scan_runes t (scan_rune r s)

-- `textTokens` on a text in lower case.
unfoldable pub tokens_in : Text → List Text
unfolding scan_runes scan_rune flush flush_han
tokens_in t = (flush_han (flush (scan_runes t empty_scan))).tokens

unfoldable pub text_tokens : (Text → Text) → Text → List Text
unfolding tokens_in
text_tokens to_lower value = tokens_in (to_lower value)

-- A text is cut where a rune stands that is neither Han nor part of a word.
abbrev pub is_separator : ℕ → Bool
is_separator r = not (is_han r) && not (is_word r)

-- The same scan behind other tokens.
abbrev behind : List Text → Scan → Scan
behind ts s = record s { tokens = ts ++ s.tokens }

flush-behind : (ts : List Text) (s : Scan) → flush (behind ts s) ≡ behind ts (flush s)
unfolding flush
flush-behind ts s = ground (arith, append_assoc ts s.tokens (s.word ∷ []))

flush_han-behind : (ts : List Text) (s : Scan) → flush_han (behind ts s) ≡ behind ts (flush_han s)
unfolding flush_han
flush_han-behind ts s = ground (arith, append_assoc ts s.tokens (han_tokens s.han))

scan_rune-behind :
    (ts : List Text) (r : ℕ) (s : Scan) → scan_rune r (behind ts s) ≡ behind ts (scan_rune r s)
unfolding scan_rune
scan_rune-behind ts r s =
    ground (arith, flush-behind ts s, flush-behind ts (flush_han s), flush_han-behind ts s)

scan_runes-behind :
    (ts : List Text) (t : Text) (s : Scan) → scan_runes t (behind ts s) ≡ behind ts (scan_runes t s)
unfolding scan_runes
scan_runes-behind ts [] s = refl
scan_runes-behind ts (r ∷ t) s =
    rw (scan_rune-behind ts r s) (scan_runes-behind ts t (scan_rune r s))

scan_runes-append : (s t : Text) (c : Scan) → scan_runes (s ++ t) c ≡ scan_runes t (scan_runes s c)
unfolding scan_runes
scan_runes-append [] t c = refl
scan_runes-append (r ∷ s) t c = scan_runes-append s t (scan_rune r c)

scan_runes-cons :
    (r : ℕ) (t : Text) (c : Scan) → scan_runes (r ∷ t) c ≡ scan_runes t (scan_rune r c)
unfolding scan_runes
scan_runes-cons r t c = refl

-- At most one of the two runs has begun.
abbrev IsOneRun : Scan → Type 0
IsOneRun s = (is_empty s.word || is_empty s.han) ≡ true

scan_rune-IsOneRun : (r : ℕ) (s : Scan) → IsOneRun (scan_rune r s)
unfolding scan_rune flush flush_han
scan_rune-IsOneRun r s = ground arith

scan_runes-IsOneRun : (t : Text) (s : Scan) → IsOneRun s → IsOneRun (scan_runes t s)
unfolding scan_runes
scan_runes-IsOneRun [] s h = h
scan_runes-IsOneRun (r ∷ t) s h = scan_runes-IsOneRun t (scan_rune r s) (scan_rune-IsOneRun r s)

-- What the end of a text makes of the scan.
abbrev end_scan : Scan → List Text
end_scan s = (flush_han (flush s)).tokens

end_scan-behind : (ts : List Text) (s : Scan) → end_scan (behind ts s) ≡ ts ++ end_scan s
end_scan-behind ts s =
    ap (λ u. (flush_han u).tokens) (flush-behind ts s)
    ∙ ap (λ u. u.tokens) (flush_han-behind ts (flush s))

-- A separator ends both runs, as the end of the text does.
ended_runs :
    (ts : List Text) (w h : Text) (s : Scan)
    → s ≡ record { tokens = ts; word = w; han = h }
    → IsOneRun s
    → flush (flush_han s) ≡ behind (end_scan s) empty_scan
unfolding flush flush_han
ended_runs ts [] h s e o = ground (arith, e, append-nil (ts ++ han_tokens h))
ended_runs ts (c ∷ w) [] s e o = ground (arith, e, append-nil ts, append-nil (ts ++ ((c ∷ w) ∷ [])))
ended_runs ts (c ∷ w) (d ∷ h) s e o = ground (arith, e)

scan_separator :
    (r : ℕ) (s : Scan)
    → is_separator r ≡ true
    → IsOneRun s
    → scan_rune r s ≡ behind (end_scan s) empty_scan
unfolding scan_rune
scan_separator r s h o = ground (arith, ended_runs s.tokens s.word s.han s refl o)

tokens_in-end : (t : Text) → tokens_in t ≡ end_scan (scan_runes t empty_scan)
unfolding tokens_in
tokens_in-end t = refl

-- The tokens of a text that is cut by a rune which is neither Han nor part of a word are the tokens
-- of the two parts, in order.
pub tokens_in-cut :
    (s t : Text) (r : ℕ)
    → is_separator r ≡ true
    → tokens_in (s ++ (r ∷ t)) ≡ tokens_in s ++ tokens_in t
tokens_in-cut s t r h =
    let c = scan_runes s empty_scan in
    tokens_in-end (s ++ (r ∷ t))
    ∙ ap end_scan (
        scan_runes-append s (r ∷ t) empty_scan
        ∙ scan_runes-cons r t c
        ∙ ap (scan_runes t) (scan_separator r c h (scan_runes-IsOneRun s empty_scan refl))
        ∙ scan_runes-behind (end_scan c) t empty_scan)
    ∙ end_scan-behind (end_scan c) (scan_runes t empty_scan)
    ∙ ground (arith, tokens_in-end s, tokens_in-end t)
