-- ===== src/Chunker/Windows.antt =====
-- internal/rag/chunker.go: the windows that `chunkText` cuts, and that it always ends.
use dong_rag.Base.{
  ℕ, zero, suc, ◌+◌, ◌≤◌, ◌<◌, ◌≡◌, refl, ◌⊎◌, inl, inr, Bool, true, false, ◌&&◌, ◌||◌, Option,
  some, List, [], ◌∷◌, arith, ltb, leb, ◌==◌, lt→ltb, ==_iff, Bool-cases, Option-cases, length, ℤ,
  pos, pos_part, leb_ℤ, ◌≤ℤ◌, leb_ℤ→≤ℤ, Text, trim_space, replace_crlf,
}
use dong_rag.Chunker.Split.{
  scan_boundary, find_boundary, window_end, next_start, slice, emit, chunk_loop, fit_overlap,
  chunk_runes, chunk_text,
}

-- Windows from `start` to the end `n` of the text: each is not empty, is at most `size` long and
-- starts behind the one before, at most `overlap` runes before its end and never past it.
pub data Windows (n size overlap : ℕ) : ℕ → List (ℕ × ℕ) → Type 0 where
  last : {start : ℕ} → start < n → n ≤ start + size → Windows n size overlap start ((start, n) ∷ [])
  more :
      {start end next : ℕ} {ws : List (ℕ × ℕ)}
      → start < end
      → end ≤ start + size
      → end < n
      → start < next
      → next ≤ end
      → end ≤ next + overlap
      → Windows n size overlap next ws
      → Windows n size overlap start ((start, end) ∷ ws)

-- The chunks of a list of windows.
unfoldable pub cut : Text → List (ℕ × ℕ) → List Text
cut runes [] = []
cut runes ((start, end) ∷ ws) = emit (trim_space (slice runes start end)) (cut runes ws)

scan_boundary-range :
    (runes : Text) (start i b : ℕ) → scan_boundary runes start i ≡ some b → (start < b) × (b ≤ i)
unfolding scan_boundary
scan_boundary-range runes start zero b e = cc
scan_boundary-range runes start (suc i) b e = ground (arith, scan_boundary-range runes start i b)

find_boundary-le : (runes : Text) (start end : ℕ) → find_boundary runes start end ≤ end
unfolding find_boundary
find_boundary-le runes start end = elim (Option-cases (scan_boundary runes start end)) [
  | inl e ↦ rw (e, find_boundary) (omega arith)
  | inr (b, e) ↦ rw (e, find_boundary) (scan_boundary-range runes start end b e).1
]

-- A window is not empty, within `size`, and ends by the end of the text.
pub window_end-range :
    (runes : Text) (size start : ℕ)
    → 0 < size
    → start < length runes
    → (start < window_end runes size start)
      × (window_end runes size start ≤ start + size)
      × (window_end runes size start ≤ length runes)
unfolding window_end
window_end-range runes size start p h = ground (arith, find_boundary-le runes start (start + size))

pub next_start-range :
    (overlap start end : ℕ)
    → start < end
    → (start < next_start overlap start end)
      × (next_start overlap start end ≤ end)
      × (end ≤ next_start overlap start end + overlap)
unfolding next_start
next_start-range overlap start end h = ground arith

chunk_loop-cut :
    (fuel : ℕ) (runes : Text) (size overlap start : ℕ)
    → 0 < size
    → start < length runes
    → length runes ≤ start + fuel
    → (ws : List (ℕ × ℕ)) × Windows (length runes) size overlap start ws
      × (chunk_loop fuel runes size overlap start ≡ some (cut runes ws))
unfolding chunk_loop cut
chunk_loop-cut zero runes size overlap start p h f = absurd (omega arith)
chunk_loop-cut (suc fuel) runes size overlap start p h f =
    let end = window_end runes size start in
    let (a, b, c) = window_end-range runes size start p h in
    elim (Bool-cases (end == length runes)) [
      | inl y ↦
          let whole : end ≡ length runes = (==_iff end (length runes)).0 y in
          (
            (start, length runes) ∷ [],
            last h (omega arith),
            rw (lt→ltb start (length runes) h, y) (rw whole),
          )
      | inr n ↦
          let (d, e, g) = next_start-range overlap start end a in
          let inside : end < length runes = ground (arith, n) in
          let (ws, chain, rest) =
            chunk_loop-cut fuel runes size overlap (next_start overlap start end) p (omega arith)
              (omega arith) in
          (
            (start, end) ∷ ws,
            more a b inside d e g chain,
            rw (lt→ltb start (length runes) h, n) (rw rest),
          )
    ]

-- Every position from `start` on lies in some window.
pub covers : ℕ → List (ℕ × ℕ) → Bool
covers i [] = false
covers i ((start, end) ∷ ws) = (leb start i && ltb i end) || covers i ws

Windows-covers :
    (n size overlap start i : ℕ) (ws : List (ℕ × ℕ))
    → Windows n size overlap start ws
    → start ≤ i
    → i < n
    → covers i ws ≡ true
unfolding covers
Windows-covers n size overlap start i _ (last a b) h k = ground arith
Windows-covers n size overlap start i _ (more {end = end} {next = next} {ws = ws} a b c d e g w) h
      k =
    elim (Bool-cases (ltb i end)) [
      | inl y ↦ ground (arith, y)
      | inr m ↦ ground (arith, Windows-covers n size overlap next i ws w)
    ]

-- Why there is no chunk, or the windows behind the chunks.
abbrev pub Cuts : Text → ℤ → ℤ → Option (List Text) → Type 0
Cuts runes size overlap chunks =
    (((runes ≡ []) ⊎ (size ≤ℤ pos 0)) × (chunks ≡ some []))
    ⊎ ((ws : List (ℕ × ℕ)) × Windows (length runes) (pos_part size)
          (fit_overlap (pos_part size) overlap) 0 ws
        × (chunks ≡ some (cut runes ws))
        × ((i : ℕ) → i < length runes → covers i ws ≡ true))

chunk_runes-Cuts :
    (runes : Text) (size overlap : ℤ) → Cuts runes size overlap (chunk_runes runes size overlap)
unfolding chunk_runes
chunk_runes-Cuts [] size overlap = inl (inl refl, refl)
chunk_runes-Cuts (c ∷ cs) size overlap = elim (Bool-cases (leb_ℤ size (pos 0))) [
  | inl y ↦ inl (inr (leb_ℤ→≤ℤ size (pos 0) y), rw y)
  | inr n ↦
      let runes = c ∷ cs in
      let (ws, chain, cuts) =
        chunk_loop-cut (suc (length runes)) runes (pos_part size)
          (fit_overlap (pos_part size) overlap) 0 (ground (arith, n)) (omega arith) (omega arith) in
      inr (
        ws,
        chain,
        rw n cuts,
        λ i h.
            Windows-covers (length runes) (pos_part size) (fit_overlap (pos_part size) overlap) 0 i
              ws chain (omega arith) h,
      )
]

-- `ChunkText` always returns. Of a text with visible runes and a positive size it returns the
-- trimmed contents, where not empty, of a chain of windows over the trimmed text: each window has
-- at most `size` runes, it starts inside or right behind the one before and at most the effective
-- overlap before its end, and every rune of the text lies in one; of any other text or size it
-- returns no chunk.
pub chunk_text-Cuts :
    (text : Text) (size overlap : ℤ)
    → Cuts (trim_space (replace_crlf text)) size overlap (chunk_text text size overlap)
unfolding chunk_text
chunk_text-Cuts text size overlap = chunk_runes-Cuts (trim_space (replace_crlf text)) size overlap
