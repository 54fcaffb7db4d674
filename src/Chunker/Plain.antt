-- ===== src/Chunker/Plain.antt =====
-- internal/rag/chunker.go: `ParsePlainBlocks`.
use dong_rag.Base.{
  ◌≡◌, refl, sym, ap, ◌∙◌, inl, inr, List, [], ◌∷◌, ◌++◌, append_assoc, append-nil, if◌then◌else◌,
  Bool-cases, Text, codes, is_empty, trim_space, replace_crlf, split_lines, join, ink, inks,
  ink-trim_space, ink-replace_crlf, ink-split_lines, ink-join, inks-append, ink-blank,
}
use dong_rag.Store.Tables.{string_value, Metadata}

-- `ChunkPart` has the same two fields.
pub record SourceBlock : Type 0 where
  pub text : Text
  pub metadata : Metadata

abbrev pub line_feed : Text
line_feed = 10 ∷ []

-- The variables `current` and `blocks` of the loop.
pub record Plain : Type 0 where
  pub current : List Text
  pub blocks : List SourceBlock

unfoldable pub plain_flush : Plain → Plain
unfolding join trim_space
plain_flush p =
    let content = trim_space (join line_feed p.current) in
    record {
      current = [];
      blocks =
          if is_empty content
          then p.blocks
          else p.blocks
            ++ record {
              text = content;
              metadata = (codes "block_type", string_value (codes "text")) ∷ [];
            }
              ∷ [];
    }

unfoldable pub plain_line : Plain → Text → Plain
unfolding plain_flush
plain_line p line =
    if is_empty (trim_space line)
    then plain_flush p
    else record p { current = p.current ++ line ∷ [] }

unfoldable pub plain_lines : Plain → List Text → Plain
unfolding plain_line
plain_lines p [] = p
plain_lines p (line ∷ lines) = plain_lines (plain_line p line) lines

unfoldable pub parse_plain_blocks : Text → List SourceBlock
unfolding plain_lines replace_crlf split_lines
parse_plain_blocks t =
    (plain_flush
      (plain_lines (record { current = []; blocks = [] }) (split_lines (replace_crlf t)))).blocks

-- The visible runes of blocks.
abbrev pub block_inks : List SourceBlock → Text
block_inks [] = []
block_inks (b ∷ bs) = ink b.text ++ block_inks bs

pub block_inks-append :
    (xs bs : List SourceBlock) → block_inks (xs ++ bs) ≡ block_inks xs ++ block_inks bs
block_inks-append [] bs = refl
block_inks-append (a ∷ xs) bs =
    rw (block_inks-append xs bs) (sym (append_assoc (ink a.text) (block_inks xs) (block_inks bs)))

-- What the loop holds: the blocks so far and the lines of the next.
abbrev held : Plain → Text
held p = block_inks p.blocks ++ inks p.current

pub content_ink : (ts : List Text) → ink (trim_space (join line_feed ts)) ≡ inks ts
content_ink ts = ink-trim_space (join line_feed ts) ∙ ink-join ts

-- A block for the content of some lines, if it is not blank, holds what the lines hold.
pub block_inks-content :
    (bs : List SourceBlock) (ts : List Text) (m : Metadata)
    → let content = trim_space (join line_feed ts) in
      block_inks
        (if is_empty content then bs else bs ++ record { text = content; metadata = m } ∷ [])
      ≡ block_inks bs ++ inks ts
block_inks-content bs ts m = elim (Bool-cases (is_empty (trim_space (join line_feed ts)))) [
  | inl y ↦
      let nothing : inks ts ≡ [] = sym (ink-join ts) ∙ ink-blank (join line_feed ts) y in
      rw (y, nothing) (sym (append-nil (block_inks bs)))
  | inr n ↦ rw (n, block_inks-append bs) (rw (content_ink ts) (rw (append-nil (inks ts))))
]

held-flush : (p : Plain) → block_inks (plain_flush p).blocks ≡ held p
unfolding plain_flush
held-flush p =
    block_inks-content p.blocks p.current ((codes "block_type", string_value (codes "text")) ∷ [])

held-line : (p : Plain) (line : Text) → held (plain_line p line) ≡ held p ++ ink line
unfolding plain_line
held-line p line = elim (Bool-cases (is_empty (trim_space line))) [
  | inl y ↦ rw y (
      append-nil (block_inks (plain_flush p).blocks)
      ∙ held-flush p
      ∙ sym (ap (◌++◌ (held p)) (ink-blank line y) ∙ append-nil (held p)))
  | inr n ↦
      rw (n, inks-append p.current (line ∷ []), append-nil (ink line))
        (sym (append_assoc (block_inks p.blocks) (inks p.current) (ink line)))
]

held-lines : (p : Plain) (lines : List Text) → held (plain_lines p lines) ≡ held p ++ inks lines
unfolding plain_lines
held-lines p [] = sym (append-nil (held p))
held-lines p (line ∷ lines) =
    held-lines (plain_line p line) lines
    ∙ ap (λ t. t ++ inks lines) (held-line p line)
    ∙ append_assoc (held p) (ink line) (inks lines)

-- The blocks of a plain text hold its visible runes, all of them and in order.
pub parse_plain_blocks-ink : (t : Text) → block_inks (parse_plain_blocks t) ≡ ink t
unfolding parse_plain_blocks
parse_plain_blocks-ink t =
    held-flush (plain_lines (record { current = []; blocks = [] }) (split_lines (replace_crlf t)))
    ∙ held-lines (record { current = []; blocks = [] }) (split_lines (replace_crlf t))
    ∙ ink-split_lines (replace_crlf t)
    ∙ ink-replace_crlf t
