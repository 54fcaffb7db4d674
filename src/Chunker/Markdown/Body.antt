-- ===== src/Chunker/Markdown/Body.antt =====
-- internal/rag/chunker.go: what of a Markdown text stands in the blocks of `ParseMarkdownBlocks`.
use dong_rag.Base.{
  ◌≡◌, refl, sym, ap, subst, ◌∙◌, inl, inr, true, false, Option, none, some, List, [], ◌∷◌, ◌++◌,
  append_assoc, append-nil, if◌then◌else◌, Bool-cases, Option-cases, Text, codes, is_empty,
  trim_space, replace_crlf, split_lines, has_prefix, ink, inks, inks-append, ink-blank,
}
use dong_rag.Chunker.Plain.{block_inks, block_inks-content}
use dong_rag.Chunker.Markdown.{
  markdown_heading, markdown_fence, Markdown, block_metadata, markdown_flush, flush_text,
  fenced_line, open_line, markdown_line, markdown_lines, new_markdown, last_flush,
  parse_markdown_blocks,
}

-- The lines that are content: all but the headings outside fences. A fence is left by a line that
-- begins with the marker that it was entered by.
pub body : Option Text → List Text → List Text
body marker [] = []
body (some marker) (line ∷ lines) =
    let next = if has_prefix (trim_space line) marker then none else some marker in
    line ∷ body next lines
body none (line ∷ lines) = elim (markdown_fence (trim_space line)) [
  | some (marker, language) ↦ line ∷ body (some marker) lines
  | none ↦ elim (markdown_heading (trim_space line)) [
    | some heading ↦ body none lines
    | none ↦ line ∷ body none lines
  ]
]

abbrev held : Markdown → Text
held m = block_inks m.blocks ++ inks m.current

abbrev marker : Markdown → Option Text
marker m = if m.in_fence then some m.fence_marker else none

held-flush :
    (block_type language : Text) (m : Markdown)
    → block_inks (markdown_flush block_type language m).blocks ≡ held m
unfolding markdown_flush
held-flush block_type language m =
    block_inks-content m.blocks m.current (block_metadata block_type language m.heading_path)

more_ink :
    (m : Markdown) (line : Text)
    → block_inks m.blocks ++ inks (m.current ++ line ∷ []) ≡ held m ++ ink line
more_ink m line =
    rw (inks-append m.current (line ∷ []), append-nil (ink line))
      (sym (append_assoc (block_inks m.blocks) (inks m.current) (ink line)))

-- What a line leads to: the fence that is open then and what the line adds, as `body` has it.
abbrev Step : Markdown → Text → List Text → Markdown → Type 0
Step m line lines m' =
    (kept : Text) × (held m' ≡ held m ++ kept)
    × (inks (body (marker m) (line ∷ lines)) ≡ kept ++ inks (body (marker m') lines))

fenced_line-Step :
    (m : Markdown) (line : Text) (lines : List Text)
    → m.in_fence ≡ true
    → Step m line lines (fenced_line m line)
unfolding fenced_line body
fenced_line-Step m line lines f =
    let m' = record m { current = m.current ++ line ∷ [] } in
    elim (Bool-cases (has_prefix (trim_space line) m.fence_marker)) [
      | inl y ↦ (
        ink line,
        rw y (append-nil _ ∙ held-flush (codes "code") m.fence_language m' ∙ more_ink m line),
        rw f (rw y refl),
      )
      | inr n ↦ (ink line, rw n (more_ink m line), rw f (rw n refl))
    ]

open_line-Step :
    (m : Markdown) (line : Text) (lines : List Text)
    → m.in_fence ≡ false
    → Step m line lines (open_line m line)
unfolding open_line body
open_line-Step m line lines f = elim (Option-cases (markdown_fence (trim_space line))) [
  | inr ((mk, language), e) ↦ (
    ink line,
    rw (e, open_line)
        (rw (append-nil (ink line)) (ap (λ t. t ++ ink line) (held-flush (codes "text") [] m))),
    rw f (rw (e, body, open_line)),
  )
  | inl e ↦ elim (Option-cases (markdown_heading (trim_space line))) [
    | inr ((level, heading), e') ↦ (
      [],
      rw (e, open_line) (rw (e', open_line) (ap (λ t. t ++ []) (held-flush (codes "text") [] m))),
      rw f (rw (e, body, open_line) (rw (e', body, open_line) refl)),
    )
    | inl e' ↦ elim (Bool-cases (is_empty (trim_space line))) [
      | inl y ↦ (
        [],
        rw (e, open_line)
            (rw (e', open_line) (rw y (ap (λ t. t ++ []) (held-flush (codes "text") [] m)))),
        rw f (
            rw (e, body, open_line)
              (rw (e', body, open_line)
                (rw y (ap (λ t. t ++ inks (body none lines)) (ink-blank line y))))),
      )
      | inr n ↦ (
        ink line,
        rw (e, open_line) (rw (e', open_line) (rw n (more_ink m line))),
        rw f (rw (e, body, open_line) (rw (e', body, open_line) (rw n refl))),
      )
    ]
  ]
]

markdown_line-Step :
    (m : Markdown) (line : Text) (lines : List Text) → Step m line lines (markdown_line m line)
unfolding markdown_line
markdown_line-Step m line lines = elim (Bool-cases m.in_fence) [
  | inl y ↦
      subst (λ b. Step m line lines (if b then fenced_line m line else open_line m line)) (sym y)
        (fenced_line-Step m line lines y)
  | inr n ↦
      subst (λ b. Step m line lines (if b then fenced_line m line else open_line m line)) (sym n)
        (open_line-Step m line lines n)
]

held-lines :
    (m : Markdown) (lines : List Text)
    → held (markdown_lines m lines) ≡ held m ++ inks (body (marker m) lines)
unfolding markdown_lines body
held-lines m [] = sym (append-nil (held m))
held-lines m (line ∷ lines) =
    let (kept, h, b) = markdown_line-Step m line lines in
    held-lines (markdown_line m line) lines
    ∙ ap (λ t. t ++ inks (body (marker (markdown_line m line)) lines)) h
    ∙ append_assoc (held m) kept (inks (body (marker (markdown_line m line)) lines))
    ∙ ap (◌++◌ (held m)) (sym b)

held-last_flush : (m : Markdown) → block_inks (last_flush m).blocks ≡ held m
unfolding last_flush
held-last_flush m = elim (Bool-cases m.in_fence) [
  | inl y ↦
      subst
        (λ b.
          block_inks
            (if b then markdown_flush (codes "code") m.fence_language m else flush_text m).blocks
          ≡ held m)
        (sym y) (held-flush (codes "code") m.fence_language m)
  | inr n ↦
      subst
        (λ b.
          block_inks
            (if b then markdown_flush (codes "code") m.fence_language m else flush_text m).blocks
          ≡ held m)
        (sym n) (held-flush (codes "text") [] m)
]

-- The blocks of a Markdown text hold the visible runes of its lines, all of them and in order, but
-- for the lines that are headings outside fences.
pub parse_markdown_blocks-ink :
    (t : Text)
    → block_inks (parse_markdown_blocks t) ≡ inks (body none (split_lines (replace_crlf t)))
unfolding parse_markdown_blocks
parse_markdown_blocks-ink t =
    held-last_flush (markdown_lines new_markdown (split_lines (replace_crlf t)))
    ∙ held-lines new_markdown (split_lines (replace_crlf t))
