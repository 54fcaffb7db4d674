-- ===== src/Store/Library/Listing.antt =====
-- internal/store/store.go: ListDocumentChunks, ListDocuments and GetDocumentSource. Metadata comes
-- back from JSON, where a list of texts has become a list of any values.
use dong_rag.Base.{
  Bool, ◌&&◌, ◌||◌, Option, none, some, List, [], ◌∷◌, map, ltb, leb, ◌==◌, if◌then◌else◌, keep,
  find_where, GoError, Result, ok, err, Text, Bytes, text_eq,
}
use dong_rag.Store.Tables.{
  Document, Value, strings_value, anys_value, Metadata, Chunk, IngestionJob,
}
use dong_rag.Store.Jobs.{is_completed, is_document, Table}
use dong_rag.Store.Library.{Library, is_document_of, is_chunk_of}

abbrev pub from_json : Value → Value
from_json (strings_value ts) = anys_value (map some ts)
from_json v = v

abbrev pub decode_metadata : Metadata → Metadata
decode_metadata [] = []
decode_metadata ((k, v) ∷ m) = (k, from_json v) ∷ decode_metadata m

-- ORDER BY created_at DESC
unfoldable pub place_document : Document → List Document → List Document
place_document d [] = d ∷ []
place_document d (x ∷ xs) =
    let rest = place_document d xs in if leb x.created_at d.created_at then d ∷ x ∷ xs else x ∷ rest

unfoldable pub newest_first : List Document → List Document
unfolding place_document
newest_first [] = []
newest_first (d ∷ ds) = place_document d (newest_first ds)

pub record DocumentSource : Type 0 where
  pub document : Document
  pub payload : Bytes

-- ORDER BY updated_at DESC, created_at DESC
abbrev later : IngestionJob → IngestionJob → Bool
later a b =
    ltb b.updated_at a.updated_at || (b.updated_at == a.updated_at && ltb b.created_at a.created_at)

-- LIMIT 1: the first of the latest.
unfoldable pub latest : List IngestionJob → Option IngestionJob
latest [] = none
latest (j ∷ js) = elim (latest js) [ none ↦ some j | some k ↦ if later k j then some k else some j ]

abbrev pub is_completed_for : Text → IngestionJob → Bool
is_completed_for id j = is_document id j.document_id && is_completed j.status

-- COALESCE(j.payload, '')
abbrev pub payload_or_empty : Option IngestionJob → Bytes
payload_or_empty none = []
payload_or_empty (some j) = j.payload

abbrev pub source_of : Bytes → Option Document → Option DocumentSource
source_of payload none = none
source_of payload (some d) = some (record { document = d; payload = payload })

module _ {Float : Type 0} where
  unfoldable pub list_documents : Option GoError → Library Float → Result (List Document)
  unfolding newest_first
  list_documents (some e) l = err e
  list_documents none l = ok (newest_first l.documents)

  unfoldable pub get_document_source :
      Option GoError → Text → Library Float → Table → Result (Option DocumentSource)
  unfolding latest keep find_where text_eq
  get_document_source (some e) id l t = err e
  get_document_source none id l t = ok (
      source_of (payload_or_empty (latest (keep (is_completed_for id) t)))
        (find_where (is_document_of id) l.documents))

  -- ORDER BY ordinal
  unfoldable pub place_chunk : Chunk Float → List (Chunk Float) → List (Chunk Float)
  place_chunk k [] = k ∷ []
  place_chunk k (x ∷ xs) =
      let rest = place_chunk k xs in if leb k.ordinal x.ordinal then k ∷ x ∷ xs else x ∷ rest

  unfoldable pub by_ordinal : List (Chunk Float) → List (Chunk Float)
  unfolding place_chunk
  by_ordinal [] = []
  by_ordinal (k ∷ ks) = place_chunk k (by_ordinal ks)

  -- The statement does not select the embedding.
  abbrev pub selected : Chunk Float → Chunk Float
  selected k = record k { metadata = decode_metadata k.metadata; embedding = [] }

  unfoldable pub list_document_chunks :
      Option GoError → Text → Library Float → Result (List (Chunk Float))
  unfolding by_ordinal keep
  list_document_chunks (some e) id l = err e
  list_document_chunks none id l = ok (map selected (by_ordinal (keep (is_chunk_of id) l.chunks)))
