-- ===== src/Chunker/Split.antt =====
-- internal/rag/chunker.go: `chunkText` and `findBoundary`.
use dong_rag.Base.{
  ℕ, zero, suc, ◌+◌, ◌-◌, ◌/◌, Bool, ◌&&◌, ◌||◌, Option, none, some, List, [], ◌∷◌, ltb, leb, ◌==◌,
  if◌then◌else◌, length, get_elem?, take, drop, ℤ, pos, pos_part, ltb_ℤ, leb_ℤ, Text, is_empty,
  trim_space, replace_crlf,
}

-- The runes after which a window may end: '\n', '。', '！', '？', '.', '!' and '?'.
unfoldable pub is_boundary : ℕ → Bool
is_boundary r =
    r == 10 || r == 0x3002 || r == 0xFF01 || r == 0xFF1F || r == b'.' || r == b'!' || r == b'?'

-- The loop of `findBoundary` from `i` down.
unfoldable pub scan_boundary : Text → ℕ → ℕ → Option ℕ
scan_boundary runes start zero = none
scan_boundary runes start (suc i) =
    let rest = scan_boundary runes start i in
    if ltb (start + length runes / 100) (suc i) && ltb start (suc i)
    then elim (get_elem? runes i) [
      | none ↦ rest
      | some r ↦ if is_boundary r then some (suc i) else rest
    ]
    else none

unfoldable pub find_boundary : Text → ℕ → ℕ → ℕ
unfolding scan_boundary is_boundary
find_boundary runes start end = elim (scan_boundary runes start end) [ none ↦ end | some i ↦ i ]

-- Where the window from `start` ends.
unfoldable pub window_end : Text → ℕ → ℕ → ℕ
unfolding find_boundary
window_end runes size start =
    let end = if ltb (length runes) (start + size) then length runes else start + size in
    let boundary = find_boundary runes start end in
    if ltb end (length runes) && ltb (start + size / 2) boundary then boundary else end

-- Where the next window starts. In Go `end - overlap` may be negative; it then stands below
-- `start`, as 0 does not unless `start` is 0, where both give `end`.
unfoldable pub next_start : ℕ → ℕ → ℕ → ℕ
next_start overlap start end = if leb (end - overlap) start then end else end - overlap

-- `runes[start:end]`
abbrev pub slice : Text → ℕ → ℕ → Text
slice runes start end = take (end - start) (drop start runes)

abbrev pub emit : Text → List Text → List Text
emit chunk chunks = if is_empty chunk then chunks else chunk ∷ chunks

-- The loop of `chunkText` from `start`; `none` if the fuel runs out.
unfoldable pub chunk_loop : ℕ → Text → ℕ → ℕ → ℕ → Option (List Text)
unfolding window_end next_start trim_space
chunk_loop zero runes size overlap start = none
chunk_loop (suc fuel) runes size overlap start =
    let end = window_end runes size start in
    let chunk = trim_space (slice runes start end) in
    let rest = chunk_loop fuel runes size overlap (next_start overlap start end) in
    if ltb start (length runes)
    then (if end == length runes
        then some (emit chunk [])
        else elim rest [ none ↦ none | some chunks ↦ some (emit chunk chunks) ])
    else some []

-- The overlap that the loop uses.
unfoldable pub fit_overlap : ℕ → ℤ → ℕ
fit_overlap size overlap =
    let o = if ltb_ℤ overlap (pos 0) then 0 else pos_part overlap in
    if leb size o then size / 5 else o

-- `chunkText` behind the trimming of its text.
unfoldable pub chunk_runes : Text → ℤ → ℤ → Option (List Text)
unfolding chunk_loop fit_overlap
chunk_runes runes size overlap =
    if is_empty runes || leb_ℤ size (pos 0)
    then some []
    else chunk_loop (suc (length runes)) runes (pos_part size) (fit_overlap (pos_part size) overlap)
        0

unfoldable pub chunk_text : Text → ℤ → ℤ → Option (List Text)
unfolding chunk_runes replace_crlf trim_space
chunk_text text size overlap = chunk_runes (trim_space (replace_crlf text)) size overlap
