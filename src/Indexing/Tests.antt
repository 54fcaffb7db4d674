-- ===== src/Indexing/Tests.antt =====
-- The theorems on indexing at a text file of one line, with its own bytes for its checksum and the
-- length of a text for its embedding.
use dong_rag.Chunker.Split.{chunk_text}
use dong_rag.Base.{
  ℕ, ◌<◌, ◌≡◌, refl, none, some, List, [], ◌∷◌, map, length, pos, lookup, plain_error, ok, err,
  Bytes, codes,
}
use dong_rag.Store.Tables.{Document, string_value, int_value, Chunk}
use dong_rag.Store.Library.{Library, no_rows}
use dong_rag.Store.Library.Sound.{IsSound}
use dong_rag.Chunker.Plain.{SourceBlock}
use dong_rag.Chunker.Blocks.{chunk_blocks}
use dong_rag.Indexing.Chunks.{Outside, Settings, Visit, extract_blocks, new_chunks, build_chunks}
use dong_rag.Indexing.{new_document, index_document, reindex_document, reindex_stored_chunks}
use dong_rag.Indexing.Build.{AreChunksOf, build_chunks-AreChunksOf}
use dong_rag.Indexing.Writes.{Indexes, Reindexes, service_writes}
use dong_rag.Indexing.Stored.{Keeps, reindex_stored_chunks-Keeps}

abbrev outside : Outside ℕ
outside = record {
  checksum = λ b. b;
  base_name = λ t. t;
  extension = λ t. codes ".txt";
  text_of = λ b. b;
  pdf_text = λ b. err (plain_error []);
  embed = λ ts. ok (map (λ t. length t ∷ []) ts);
}

abbrev small : Settings
small = record { chunk_size = pos 4; chunk_overlap = pos 1; embedding_dim = pos 1 }

abbrev visit : Visit
visit = record {
  new_document_id = 1 ∷ [];
  new_chunk_id = λ i. 2 ∷ i ∷ [];
  clock = 5;
  database_clock = 6;
  read_fault = none;
  write_faults = λ n. none;
}

abbrev file : Bytes
file = codes "abcd ef"

abbrev built : List (Chunk ℕ)
built =
    new_chunks outside visit (1 ∷ []) [] 0
      (record {
        text = codes "abcd";
        metadata =
            (codes "block_type", string_value (codes "text"))
            ∷ (codes "block_index", int_value 0)
            ∷ (codes "chunk_index", int_value 0)
            ∷ [];
      }
        ∷ [])
      ((4 ∷ []) ∷ [])

abbrev stored : Document
stored = record {
  id = 1 ∷ [];
  name = [];
  content_type = [];
  size_bytes = 4;
  checksum = codes "abcd";
  created_at = 6;
}

abbrev filled : Library ℕ
filled = record { documents = stored ∷ []; chunks = built }

no_rows-IsSound : IsSound {Float = ℕ} no_rows
no_rows-IsSound = record { documents_apart = tt; chunks_apart = tt; documents_exist = tt }

builds : build_chunks outside small visit (1 ∷ []) [] (codes "abcd") ≡ ok built
unfolding build_chunks chunk_text lookup
builds = refl

build_chunks-AreChunksOf_example :
    (blocks parts : List SourceBlock) × (extract_blocks outside [] (codes "abcd") ≡ ok blocks)
    × (chunk_blocks blocks small.chunk_size small.chunk_overlap ≡ some parts)
    × (0 < length parts)
    × AreChunksOf small (1 ∷ []) 0 parts built
build_chunks-AreChunksOf_example =
    build_chunks-AreChunksOf outside small visit (1 ∷ []) [] (codes "abcd") {ks = built} builds

service_writes_example :
    Indexes outside small visit
      (new_document outside visit [] [] (codes "abcd"))
      (codes "abcd")
      no_rows
      (index_document outside small visit [] [] (codes "abcd") no_rows)
    × Reindexes outside small
        (1 ∷ [])
        []
        (codes "abcd")
        no_rows
        (reindex_document outside small visit (1 ∷ []) [] (codes "abcd") no_rows)
service_writes_example = service_writes outside small visit (1 ∷ []) [] [] (codes "abcd") no_rows

reindex_stored_chunks-Keeps_example :
    Keeps (1 ∷ []) filled (reindex_stored_chunks outside small visit (1 ∷ []) filled).1
unfolding reindex_stored_chunks new_chunks
reindex_stored_chunks-Keeps_example =
    reindex_stored_chunks-Keeps outside small visit (1 ∷ []) filled refl
