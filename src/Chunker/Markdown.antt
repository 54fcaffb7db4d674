-- ===== src/Chunker/Markdown.antt =====
-- internal/rag/chunker.go: `ParseMarkdownBlocks`, `markdownHeading` and `markdownFence`.
pub mod Headings
pub mod Body
use dong_rag.Base.{
  ℕ, zero, suc, ◌-◌, Bool, true, false, ◌||◌, not, Option, none, some, List, [], ◌∷◌, ◌++◌, ltb,
  leb, ◌==◌, if◌then◌else◌, length, get_elem?, take, drop, Text, codes, is_empty, trim_space,
  replace_crlf, split_lines, join, has_prefix,
}
use dong_rag.Store.Tables.{string_value, strings_value, Metadata}
use dong_rag.Chunker.Plain.{SourceBlock, line_feed}

-- `level`, the number of '#' that a line begins with.
unfoldable pub hashes : Text → ℕ
hashes [] = 0
hashes (c ∷ cs) = let rest = hashes cs in if c == b'#' then suc rest else 0

abbrev is_rune : ℕ → Option ℕ → Bool
is_rune c none = false
is_rune c (some d) = d == c

unfoldable pub markdown_heading : Text → Option (ℕ × Text)
unfolding hashes trim_space
markdown_heading line =
    let level = hashes line in
    let heading = trim_space (drop level line) in
    if level == 0
      || ltb 6 level
      || leb (length line) level
      || not (is_rune 32 (get_elem? line level))
    then none
    else if is_empty heading
    then none
    else some (level, heading)

abbrev backticks : Text
backticks = codes "```"

abbrev tildes : Text
tildes = codes "~~~"

unfoldable pub markdown_fence : Text → Option (Text × Text)
unfolding has_prefix trim_space
markdown_fence line =
    if has_prefix line backticks
    then some (backticks, trim_space (drop 3 line))
    else if has_prefix line tildes
    then some (tildes, trim_space (drop 3 line))
    else none

-- `for len(headingPath) < level-1 { headingPath = append(headingPath, "") }`, by the rounds left.
unfoldable pub pad : ℕ → List Text → List Text
pad zero path = path
pad (suc n) path = pad n (path ++ [] ∷ [])

unfoldable pub push_heading : List Text → ℕ → Text → List Text
unfolding pad
push_heading path level heading =
    let cut = if leb level (length path) then take (level - 1) path else path in
    pad (level - 1 - length cut) cut ++ heading ∷ []

-- The variables of the loop.
pub record Markdown : Type 0 where
  pub heading_path : List Text
  pub current : List Text
  pub in_fence : Bool
  pub fence_marker : Text
  pub fence_language : Text
  pub blocks : List SourceBlock

abbrev no_headings : List Text → Bool
no_headings [] = true
no_headings (h ∷ hs) = false

unfoldable pub block_metadata : Text → Text → List Text → Metadata
block_metadata block_type language heading_path =
    (codes "block_type", string_value block_type)
    ∷ ((if no_headings heading_path
          then []
          else (codes "heading_path", strings_value heading_path) ∷ [])
        ++ (if is_empty language then [] else (codes "language", string_value language) ∷ []))

unfoldable pub markdown_flush : Text → Text → Markdown → Markdown
unfolding block_metadata
markdown_flush block_type language m =
    let content = trim_space (join line_feed m.current) in
    record m {
      current = [];
      blocks =
          if is_empty content
          then m.blocks
          else m.blocks
            ++ record {
              text = content;
              metadata = block_metadata block_type language m.heading_path;
            }
              ∷ [];
    }

abbrev pub flush_text : Markdown → Markdown
flush_text m = markdown_flush (codes "text") [] m

-- A line inside a fence.
unfoldable pub fenced_line : Markdown → Text → Markdown
unfolding markdown_flush
fenced_line m line =
    let m' = record m { current = m.current ++ line ∷ [] } in
    if has_prefix (trim_space line) m.fence_marker
    then record (markdown_flush (codes "code") m.fence_language m') {
      in_fence = false;
      fence_marker = [];
      fence_language = [];
    }
    else m'

-- A line outside any fence.
unfoldable pub open_line : Markdown → Text → Markdown
unfolding markdown_flush markdown_fence markdown_heading push_heading
open_line m line = elim (markdown_fence (trim_space line)) [
  | some (marker, language) ↦ record (flush_text m) {
    in_fence = true;
    fence_marker = marker;
    fence_language = language;
    current = line ∷ [];
  }
  | none ↦ elim (markdown_heading (trim_space line)) [
    | some (level, heading) ↦ record (flush_text m) {
      heading_path = push_heading m.heading_path level heading;
    }
    | none ↦
        if is_empty (trim_space line)
        then flush_text m
        else record m { current = m.current ++ line ∷ [] }
  ]
]

unfoldable pub markdown_line : Markdown → Text → Markdown
unfolding fenced_line open_line
markdown_line m line = if m.in_fence then fenced_line m line else open_line m line

unfoldable pub markdown_lines : Markdown → List Text → Markdown
unfolding markdown_line
markdown_lines m [] = m
markdown_lines m (line ∷ lines) = markdown_lines (markdown_line m line) lines

abbrev pub new_markdown : Markdown
new_markdown = record {
  heading_path = [];
  current = [];
  in_fence = false;
  fence_marker = [];
  fence_language = [];
  blocks = [];
}

unfoldable pub last_flush : Markdown → Markdown
last_flush m = if m.in_fence then markdown_flush (codes "code") m.fence_language m else flush_text m

unfoldable pub parse_markdown_blocks : Text → List SourceBlock
unfolding markdown_lines last_flush replace_crlf split_lines trim_space join
parse_markdown_blocks t =
    (last_flush (markdown_lines new_markdown (split_lines (replace_crlf t)))).blocks
