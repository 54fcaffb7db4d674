-- ===== src/Indexing/Writes.antt =====
-- internal/rag/service.go with internal/store/store.go: what IndexDocument and ReindexDocument leave
-- in the tables of documents and chunks.
use dong_rag.Base.{
  ◌<◌, ◌≡◌, refl, ◌∙◌, ◌⊎◌, inl, inr, not, Option, none, some, List, [], ◌∷◌, ◌++◌, Bool-cases,
  length, keep, GoError, plain_error, Result, ok, err, Result-cases, Text, Bytes, codes, is_empty,
  trim_space,
}
use dong_rag.Store.Tables.{Document, Chunk}
use dong_rag.Store.Library.{Library, is_chunk_of, create_document, find_document_by_checksum}
use dong_rag.Store.Library.Atomic.{transactions-IsAtomic}
use dong_rag.Chunker.Plain.{SourceBlock}
use dong_rag.Chunker.Blocks.{chunk_blocks}
use dong_rag.Indexing.Chunks.{Outside, Settings, Visit, extract_blocks, build_chunks}
use dong_rag.Indexing.{
  new_document, created, save_new, index_new, index_unless_there, index_document, reindex_document,
}
use dong_rag.Indexing.Build.{AreChunksOf, build_chunks-AreChunksOf}

module _ {Float : Type 0} where
  -- The chunks of the parts that the chunker makes of a payload, of which there is at least one: in
  -- their order, with the ordinals from 0 on, the texts of the parts, the id of the document and
  -- embeddings of the configured dimension.
  abbrev pub AreBuilt : Outside Float → Settings → Text → Text → Bytes → List (Chunk Float) → Type 0
  AreBuilt o s id name payload ks =
      (blocks parts : List SourceBlock) × (extract_blocks o name payload ≡ ok blocks)
      × (chunk_blocks blocks s.chunk_size s.chunk_overlap ≡ some parts)
      × (0 < length parts)
      × AreChunksOf s id 0 parts ks

  -- An error and the tables as they were; or the document that has the payload's checksum already,
  -- and the tables as they were; or a new document, added with its chunks.
  abbrev pub Indexes :
      Outside Float
      → Settings
      → Visit
      → Document
      → Bytes
      → Library Float
      → Result Document × Library Float
      → Type 0
  Indexes o s v d payload l (r, l') =
      ((e : GoError) × (r ≡ err e) × (l' ≡ l))
      ⊎ ((old : Document) × (find_document_by_checksum v.read_fault (o.checksum payload) l
            ≡ ok (some old))
          × (r ≡ ok old)
          × (l' ≡ l))
      ⊎ ((ks : List (Chunk Float)) × (find_document_by_checksum v.read_fault (o.checksum payload) l
            ≡ ok none)
          × (r ≡ ok d)
          × AreBuilt o s d.id d.name payload ks
          × (l' ≡ record {
            documents = l.documents ++ (record d { created_at = v.database_clock } ∷ []);
            chunks = l.chunks ++ ks;
          }))

  -- An error and the tables as they were, or the chunks in place of all that the document had.
  abbrev pub Reindexes :
      Outside Float
      → Settings
      → Text
      → Text
      → Bytes
      → Library Float
      → Option GoError × Library Float
      → Type 0
  Reindexes o s id name payload l (r, l') =
      ((e : GoError) × (r ≡ some e) × (l' ≡ l))
      ⊎ ((ks : List (Chunk Float)) × (r ≡ none)
          × AreBuilt o s id (o.base_name name) payload ks
          × (l' ≡ record l { chunks = keep (λ k. not (is_chunk_of id k)) l.chunks ++ ks }))

  created_fails :
      (d : Document) (r : Option GoError × Library Float) {e : GoError}
      → r.0 ≡ some e
      → ((created d r).0 ≡ err e) × ((created d r).1 ≡ r.1)
  created_fails d (some x, l) h = (cc, refl)
  created_fails d (none, l) h = absurd (cc)

  created_works :
      (d : Document) (r : Option GoError × Library Float)
      → r.0 ≡ none
      → ((created d r).0 ≡ ok d) × ((created d r).1 ≡ r.1)
  created_works d (some x, l) h = absurd (cc)
  created_works d (none, l) h = (refl, refl)

  save_new-Indexes :
      (o : Outside Float) (s : Settings) (v : Visit) (d : Document) (payload : Bytes)
      (l : Library Float)
      → find_document_by_checksum v.read_fault (o.checksum payload) l ≡ ok none
      → Indexes o s v d payload l (save_new v d (build_chunks o s v d.id d.name payload) l)
  save_new-Indexes o s v d payload l missing =
      elim (Result-cases (build_chunks o s v d.id d.name payload)) [
        | inr (x, e) ↦ rw e (inl (x, refl, refl))
        | inl (ks, e) ↦
            let written = create_document v.write_faults v.database_clock d ks l in
            rw e (elim (transactions-IsAtomic v.write_faults v.database_clock d d.id ks l).0 [
              | inl (x, report, unchanged) ↦
                  let (r, same) = created_fails d written report in inl (x, r, same ∙ unchanged)
              | inr (report, whole) ↦
                  let (r, same) = created_works d written report in
                  inr (
                    inr (
                      ks,
                      missing,
                      r,
                      build_chunks-AreChunksOf o s v d.id d.name payload e,
                      same ∙ whole,
                    ))
            ])
      ]

  index_unless_there-Indexes :
      (o : Outside Float) (s : Settings) (v : Visit) (name content_type : Text) (payload : Bytes)
      (l : Library Float) (found : Result (Option Document))
      → find_document_by_checksum v.read_fault (o.checksum payload) l ≡ found
      → Indexes o s v
          (new_document o v name content_type payload)
          payload
          l
          (index_unless_there o s v name content_type payload found l)
  unfolding index_new
  index_unless_there-Indexes o s v name content_type payload l (err e) h = inl (e, refl, refl)
  index_unless_there-Indexes o s v name content_type payload l (ok (some d)) h =
      inr (inl (d, h, refl, refl))
  index_unless_there-Indexes o s v name content_type payload l (ok none) h =
      save_new-Indexes o s v (new_document o v name content_type payload) payload l h

  reindex_document-Reindexes :
      (o : Outside Float) (s : Settings) (v : Visit) (id name : Text) (payload : Bytes)
      (l : Library Float)
      → Reindexes o s id name payload l (reindex_document o s v id name payload l)
  unfolding reindex_document
  reindex_document-Reindexes o s v id name payload l =
      elim (Bool-cases (is_empty (trim_space id))) [
        | inl y ↦ rw y (inl (plain_error (codes "document id is required for reindex"), refl, refl))
        | inr n ↦ elim (Result-cases (build_chunks o s v id (o.base_name name) payload)) [
          | inr (x, e) ↦ rw (n, e) (inl (x, refl, refl))
          | inl (ks, e) ↦
              let d = new_document o v name [] payload in
              rw (n, e)
                (elim (transactions-IsAtomic v.write_faults 0 d id ks l).1 [
                  | inl refused ↦ inl refused
                  | inr (report, whole) ↦ inr (
                    ks,
                    report,
                    build_chunks-AreChunksOf o s v id (o.base_name name) payload e,
                    whole,
                  )
                ])
        ]
      ]

  -- Indexing and reindexing from a file write all or nothing. Indexing leaves the tables as they were
  -- and reports an error or the document that has the payload's checksum already, or it adds a
  -- document with the payload's checksum and its chunks; reindexing leaves the tables as they were
  -- and reports an error, or it puts the chunks in place of all that the document had, and of no
  -- other. The chunks are those of the parts that the chunker makes of the payload, at least one, in
  -- their order, with the ordinals from 0 on, the document's id and embeddings of the configured
  -- dimension.
  pub service_writes :
      (o : Outside Float) (s : Settings) (v : Visit) (id name content_type : Text) (payload : Bytes)
      (l : Library Float)
      → Indexes o s v
          (new_document o v name content_type payload)
          payload
          l
          (index_document o s v name content_type payload l)
        × Reindexes o s id name payload l (reindex_document o s v id name payload l)
  unfolding index_document
  service_writes o s v id name content_type payload l = (
    index_unless_there-Indexes o s v name content_type payload l
        (find_document_by_checksum v.read_fault (o.checksum payload) l) refl,
    reindex_document-Reindexes o s v id name payload l,
  )
