-- ===== src/Indexing/Chunks.antt =====
-- internal/rag/service.go: buildChunks and what it is made of (embedTexts, extractBlocks), with
-- approximateTokens of internal/rag/chunker.go. SHA-256, the paths of files, pdftotext and the
-- embedding model are parameters (`Outside`), and what a call draws and meets is its `Visit`: new
-- ids, the clocks and the errors of the driver.
use dong_rag.Base.{
  ℕ, suc, ◌+◌, ◌/◌, Bool, ◌||◌, not, Option, none, some, List, [], ◌∷◌, ◌++◌, map, ◌==◌,
  if◌then◌else◌, length, find_where, ℤ, pos, decimal_ℤ, eq_ℤ, insert, GoError, plain_error, Result,
  ok, err, and_then, Text, Bytes, codes, text_eq, decimal,
}
use dong_rag.Store.Tables.{string_value, int_value, Chunk}
use dong_rag.Store.Library.{Faults}
use dong_rag.Chunker.Plain.{SourceBlock, parse_plain_blocks}
use dong_rag.Chunker.Markdown.{parse_markdown_blocks}
use dong_rag.Chunker.Blocks.{chunk_blocks}

pub record Outside (Float : Type 0) : Type 0 where
  -- `hex.EncodeToString(sha256.Sum256(data))`
  pub checksum : Bytes → Text
  -- `filepath.Base(name)`, and `strings.ToLower(filepath.Ext(name))`
  pub base_name : Text → Text
  pub extension : Text → Text
  -- `string(data)`
  pub text_of : Bytes → Text
  -- The temporary file and the run of pdftotext on it.
  pub pdf_text : Bytes → Result Text
  pub embed : List Text → Result (List (List Float))

pub record Settings : Type 0 where
  pub chunk_size : ℤ
  pub chunk_overlap : ℤ
  pub embedding_dim : ℤ

pub record Visit : Type 0 where
  pub new_document_id : Text
  pub new_chunk_id : ℕ → Text
  pub clock : ℕ
  pub database_clock : ℕ
  -- The error of the first statement, and of the transaction's calls.
  pub read_fault : Option GoError
  pub write_faults : Faults

abbrev pub approximate_tokens : Text → ℕ
approximate_tokens t = (length t + 3) / 4

-- `strings.Split(output, "\f")`: the pages, the first of them by itself.
abbrev add_rune : ℕ → Text × List Text → Text × List Text
add_rune c (page, pages) = if c == 12 then ([], page ∷ pages) else (c ∷ page, pages)

abbrev split_first : Text → Text × List Text
split_first [] = ([], [])
split_first (c ∷ t) = add_rune c (split_first t)

abbrev split_pages : Text → List Text
split_pages t = let (page, pages) = split_first t in page ∷ pages

abbrev with_page : ℕ → SourceBlock → SourceBlock
with_page n b = record b { metadata = insert (codes "page") (int_value n) b.metadata }

unfoldable pub page_blocks : ℕ → List Text → List SourceBlock
unfolding parse_plain_blocks insert
page_blocks i [] = []
page_blocks i (page ∷ pages) =
    map (with_page (i + 1)) (parse_plain_blocks page) ++ page_blocks (suc i) pages

module _ {Float : Type 0} where
  unfoldable pub extract_blocks : Outside Float → Text → Bytes → Result (List SourceBlock)
  unfolding page_blocks parse_markdown_blocks parse_plain_blocks text_eq
  extract_blocks o name payload =
      let ext = o.extension name in
      if text_eq ext (codes ".pdf")
      then and_then (o.pdf_text payload) (λ output. ok (page_blocks 0 (split_pages output)))
      else if text_eq ext (codes ".md") || text_eq ext (codes ".markdown")
      then ok (parse_markdown_blocks (o.text_of payload))
      else ok (parse_plain_blocks (o.text_of payload))

  abbrev pub has_wrong_dim : Settings → List Float → Bool
  has_wrong_dim s embedding = not (eq_ℤ (pos (length embedding)) s.embedding_dim)

  abbrev dimension_error : Settings → List Float → GoError
  dimension_error s embedding = plain_error (
      codes "embedding dimension is "
      ++ decimal (length embedding)
      ++ codes ", expected "
      ++ decimal_ℤ s.embedding_dim
      ++ codes "; update EMBEDDING_DIM and database schema if the model differs")

  unfoldable pub checked_embeddings :
      Settings → List Text → List (List Float) → Result (List (List Float))
  unfolding find_where
  checked_embeddings s texts embeddings =
      if not (length embeddings == length texts)
      then err (
          plain_error (
            codes "embedding count mismatch: got "
            ++ decimal (length embeddings)
            ++ codes ", want "
            ++ decimal (length texts)))
      else elim (find_where (has_wrong_dim s) embeddings) [
        | none ↦ ok embeddings
        | some bad ↦ err (dimension_error s bad)
      ]

  unfoldable pub embed_texts : Outside Float → Settings → List Text → Result (List (List Float))
  unfolding checked_embeddings
  embed_texts o s texts = and_then (o.embed texts) (checked_embeddings s texts)

  unfoldable pub new_chunk :
      Outside Float → Visit → Text → Text → ℕ → SourceBlock → List Float → Chunk Float
  unfolding insert
  new_chunk o v document_id name i part embedding = record {
    id = v.new_chunk_id i;
    document_id = document_id;
    ordinal = i;
    content = part.text;
    metadata =
        insert (codes "approx_tokens") (int_value (approximate_tokens part.text))
          (insert (codes "source") (string_value (o.base_name name)) part.metadata);
    embedding = embedding;
  }

  -- `embeddings[i]` of each part, which the check before the loop has counted.
  unfoldable pub new_chunks :
      Outside Float
      → Visit
      → Text
      → Text
      → ℕ
      → List SourceBlock
      → List (List Float)
      → List (Chunk Float)
  unfolding new_chunk
  new_chunks o v document_id name i [] es = []
  new_chunks o v document_id name i (p ∷ ps) [] = []
  new_chunks o v document_id name i (p ∷ ps) (e ∷ es) =
      new_chunk o v document_id name i p e ∷ new_chunks o v document_id name (suc i) ps es

  -- `none` is a chunker that runs out of fuel.
  abbrev pub embed_parts :
      Outside Float
      → Settings
      → Visit
      → Text
      → Text
      → Option (List SourceBlock)
      → Result (List (Chunk Float))
  embed_parts o s v document_id name none = err (plain_error [])
  embed_parts o s v document_id name (some []) =
      err (plain_error (codes "document contains no readable text"))
  embed_parts o s v document_id name (some (p ∷ ps)) =
      and_then (embed_texts o s (map (λ q. q.text) (p ∷ ps)))
        (λ es. ok (new_chunks o v document_id name 0 (p ∷ ps) es))

  unfoldable pub build_chunks :
      Outside Float → Settings → Visit → Text → Text → Bytes → Result (List (Chunk Float))
  unfolding extract_blocks chunk_blocks embed_texts new_chunks
  build_chunks o s v document_id name payload = and_then (extract_blocks o name payload) (λ blocks.
      embed_parts o s v document_id name (chunk_blocks blocks s.chunk_size s.chunk_overlap))
