-- ===== src/Store/Library/Tests.antt =====
-- The theorems on documents and chunks at a document of one chunk.
use dong_rag.Base.{ℕ, none, some, [], ◌∷◌, ◌==◌, if◌then◌else◌, keep}
use dong_rag.Store.Tables.{Document, Chunk}
use dong_rag.Store.Library.{Faults, create_document, replace_document_chunks, no_rows}
use dong_rag.Store.Library.Atomic.{IsAtomic, transactions-IsAtomic}
use dong_rag.Store.Jobs.{unique_violation}

abbrev faultless : Faults
faultless n = none

abbrev manual : Document
manual = record {
  id = 1 ∷ [];
  name = 2 ∷ [];
  content_type = [];
  size_bytes = 3;
  checksum = 4 ∷ [];
  created_at = 0;
}

abbrev first_chunk : Chunk ℕ
first_chunk = record {
  id = 5 ∷ [];
  document_id = 1 ∷ [];
  ordinal = 0;
  content = 6 ∷ [];
  metadata = [];
  embedding = [];
}

-- The driver fails at the commit.
abbrev failing : Faults
failing n = if n == 3 then some unique_violation else none

transactions-IsAtomic_example :
    IsAtomic no_rows
      (record { documents = record manual { created_at = 8 } ∷ []; chunks = first_chunk ∷ [] })
      (create_document failing 8 manual (first_chunk ∷ []) no_rows)
    × IsAtomic no_rows
        (record { documents = []; chunks = first_chunk ∷ [] })
        (replace_document_chunks failing (1 ∷ []) (first_chunk ∷ []) no_rows)
unfolding keep
transactions-IsAtomic_example =
    transactions-IsAtomic failing 8 manual (1 ∷ []) (first_chunk ∷ []) no_rows
