-- ===== src/Chunker/Tests.antt =====
-- The theorems on the chunker at short texts.
use dong_rag.Base.{◌≡◌, none, [], pos, codes, trim_space, replace_crlf, split_lines, inks}
use dong_rag.Chunker.Split.{chunk_text}
use dong_rag.Chunker.Windows.{Cuts, chunk_text-Cuts}
use dong_rag.Chunker.Plain.{SourceBlock, block_inks}
use dong_rag.Chunker.Markdown.{parse_markdown_blocks}
use dong_rag.Chunker.Markdown.Body.{body, parse_markdown_blocks-ink}

chunk_text-Cuts_example :
    Cuts
      (trim_space (replace_crlf (codes "one two. three")))
      (pos 8)
      (pos 2)
      (chunk_text (codes "one two. three") (pos 8) (pos 2))
chunk_text-Cuts_example = chunk_text-Cuts (codes "one two. three") (pos 8) (pos 2)

parse_markdown_blocks-ink_example :
    block_inks (parse_markdown_blocks (codes "# h\n\na b\n"))
    ≡ inks (body none (split_lines (replace_crlf (codes "# h\n\na b\n"))))
parse_markdown_blocks-ink_example = parse_markdown_blocks-ink (codes "# h\n\na b\n")

abbrev paragraph : SourceBlock
paragraph = record { text = codes "one two. three"; metadata = [] }
