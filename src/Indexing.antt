-- ===== src/Indexing.antt =====
-- internal/rag/service.go: IndexDocument, ReindexDocument, ReindexStoredChunks and
-- rebuildStoredChunks over the tables of documents and chunks. `Chunks` builds the chunks of a
-- document.
pub mod Chunks
pub mod Build
pub mod Writes
pub mod Again
pub mod Ordinals
pub mod Stored
mod Tests
use dong_rag.Base.{
  ℕ, suc, Option, none, some, List, [], ◌∷◌, map, if◌then◌else◌, length, insert, GoError,
  plain_error, Result, ok, err, and_then, Text, Bytes, codes, is_empty, trim_space,
}
use dong_rag.Store.Tables.{Document, string_value, int_value, Chunk}
use dong_rag.Store.Library.{
  Library, create_document, replace_document_chunks, find_document_by_checksum,
}
use dong_rag.Store.Library.Listing.{list_document_chunks}
use dong_rag.Indexing.Chunks.{
  Outside, Settings, Visit, approximate_tokens, embed_texts, build_chunks,
}

module _ {Float : Type 0} where
  abbrev pub new_document : Outside Float → Visit → Text → Text → Bytes → Document
  new_document o v name content_type payload = record {
    id = v.new_document_id;
    name = o.base_name name;
    content_type = content_type;
    size_bytes = length payload;
    checksum = o.checksum payload;
    created_at = v.clock;
  }

  abbrev pub created : Document → Option GoError × Library Float → Result Document × Library Float
  created d (some e, l) = (err e, l)
  created d (none, l) = (ok d, l)

  abbrev pub save_new :
      Visit
      → Document
      → Result (List (Chunk Float))
      → Library Float
      → Result Document × Library Float
  save_new v d (err e) l = (err e, l)
  save_new v d (ok chunks) l =
      created d (create_document v.write_faults v.database_clock d chunks l)

  abbrev pub save_again :
      Visit → Text → Result (List (Chunk Float)) → Library Float → Option GoError × Library Float
  save_again v document_id (err e) l = (some e, l)
  save_again v document_id (ok chunks) l =
      replace_document_chunks v.write_faults document_id chunks l

  unfoldable pub index_new :
      Outside Float
      → Settings
      → Visit
      → Text
      → Text
      → Bytes
      → Library Float
      → Result Document × Library Float
  unfolding build_chunks create_document
  index_new o s v name content_type payload l =
      let d = new_document o v name content_type payload in
      save_new v d (build_chunks o s v d.id d.name payload) l

  abbrev pub index_unless_there :
      Outside Float
      → Settings
      → Visit
      → Text
      → Text
      → Bytes
      → Result (Option Document)
      → Library Float
      → Result Document × Library Float
  index_unless_there o s v name content_type payload (err e) l = (err e, l)
  index_unless_there o s v name content_type payload (ok (some existing)) l = (ok existing, l)
  index_unless_there o s v name content_type payload (ok none) l =
      index_new o s v name content_type payload l

  unfoldable pub index_document :
      Outside Float
      → Settings
      → Visit
      → Text
      → Text
      → Bytes
      → Library Float
      → Result Document × Library Float
  unfolding find_document_by_checksum index_new
  index_document o s v name content_type payload l =
      index_unless_there o s v name content_type payload
        (find_document_by_checksum v.read_fault (o.checksum payload) l) l

  unfoldable pub reindex_document :
      Outside Float
      → Settings
      → Visit
      → Text
      → Text
      → Bytes
      → Library Float
      → Option GoError × Library Float
  unfolding build_chunks replace_document_chunks trim_space
  reindex_document o s v document_id name payload l =
      if is_empty (trim_space document_id)
      then (some (plain_error (codes "document id is required for reindex")), l)
      else save_again v document_id (build_chunks o s v document_id (o.base_name name) payload) l

  unfoldable pub rebuilt_chunk : Visit → Text → ℕ → Chunk Float → List Float → Chunk Float
  unfolding insert
  rebuilt_chunk v document_id i k embedding = record {
    id = v.new_chunk_id i;
    document_id = document_id;
    ordinal = k.ordinal;
    content = k.content;
    metadata =
        insert (codes "approx_tokens") (int_value (approximate_tokens k.content))
          (insert (codes "reindex_source") (string_value (codes "stored_chunks")) k.metadata);
    embedding = embedding;
  }

  unfoldable pub rebuilt_chunks :
      Visit → Text → ℕ → List (Chunk Float) → List (List Float) → List (Chunk Float)
  unfolding rebuilt_chunk
  rebuilt_chunks v document_id i [] es = []
  rebuilt_chunks v document_id i (k ∷ ks) [] = []
  rebuilt_chunks v document_id i (k ∷ ks) (e ∷ es) =
      rebuilt_chunk v document_id i k e ∷ rebuilt_chunks v document_id (suc i) ks es

  unfoldable pub rebuild_stored_chunks :
      Outside Float → Settings → Visit → Text → List (Chunk Float) → Result (List (Chunk Float))
  unfolding embed_texts rebuilt_chunks
  rebuild_stored_chunks o s v document_id [] =
      err (plain_error (codes "document contains no stored chunks"))
  rebuild_stored_chunks o s v document_id (k ∷ ks) =
      and_then (embed_texts o s (map (λ c. c.content) (k ∷ ks)))
        (λ es. ok (rebuilt_chunks v document_id 0 (k ∷ ks) es))

  unfoldable pub reindex_stored_chunks :
      Outside Float → Settings → Visit → Text → Library Float → Option GoError × Library Float
  unfolding list_document_chunks rebuild_stored_chunks replace_document_chunks
  reindex_stored_chunks o s v document_id l =
      save_again v document_id
        (and_then (list_document_chunks v.read_fault document_id l)
          (rebuild_stored_chunks o s v document_id))
        l
