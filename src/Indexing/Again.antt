-- ===== src/Indexing/Again.antt =====
-- internal/rag/service.go: IndexDocument takes a file in once, by its checksum.
use dong_rag.Base.{◌≡◌, Bool, some, find_where, Text, text_eq}
use dong_rag.Store.Tables.{Document}
use dong_rag.Store.Library.{Library}
use dong_rag.Indexing.Chunks.{Visit}

abbrev has_checksum : Text → Document → Bool
has_checksum c d = text_eq d.checksum c

-- The row of a document: the database sets its time.
abbrev row_of : Visit → Document → Document
row_of v d = record d { created_at = v.database_clock }

module _ {Float : Type 0} where
  abbrev Leaves : Text → Document → Library Float → Type 0
  Leaves c d l =
      (row : Document) × (find_where (has_checksum c) l.documents ≡ some row) × (row.id ≡ d.id)
