-- ===== src/Store/Library/Sound.antt =====
-- internal/store/store.go: the operations on documents and chunks keep the two tables consistent.
use dong_rag.Base.{
  ℕ, suc, ◌≡◌, ◌∙◌, inl, inr, true, false, not, Option, none, some, List, [], ◌∷◌, arith,
  Bool-cases, All, All-append, any, keep, All-map, any-snoc, Apart, Apart-snoc, Apart-keep,
  All-keep, GoError, Result, ok, err, and_then, Text, text_eq, text_eq_iff,
}
use dong_rag.Store.Tables.{Document, Chunk}
use dong_rag.Store.Library.{
  Library, Faults, documents_clash, is_document_of, chunks_clash, is_chunk_of, exec,
  insert_document, insert_chunk, insert_chunks, settle, create_document, replace_document_chunks,
  delete_document, Change, creates, replaces, deletes, no_rows, change, changes,
}

-- A document is still there when another one is deleted.
any-keep-other :
    (id other : Text) (ds : List Document)
    → text_eq id other ≡ false
    → any (is_document_of id) ds ≡ true
    → any (is_document_of id) (keep (λ d. not (is_document_of other d)) ds) ≡ true
unfolding keep
any-keep-other id other [] n h = h
any-keep-other id other (d ∷ ds) n h = ground (
  arith,
  n,
  h,
  any-keep-other id other ds n,
  text_eq_iff d.id id,
  text_eq_iff d.id other,
  text_eq_iff id other,
)

documents_clash_sym : (a b : Document) → documents_clash a b ≡ documents_clash b a
unfolding documents_clash
documents_clash_sym a b = ground (
  arith,
  text_eq_iff a.id b.id,
  text_eq_iff b.id a.id,
  text_eq_iff a.checksum b.checksum,
  text_eq_iff b.checksum a.checksum,
)

module _ {Float : Type 0} where
  -- The constraints of the tables: no two documents share an id or a checksum, no two chunks an id
  -- or a place in one document, and every chunk's document exists.
  pub record IsSound (l : Library Float) : Type 0 where
    pub documents_apart : Apart documents_clash l.documents
    pub chunks_apart : Apart chunks_clash l.chunks
    pub documents_exist : All (λ k. any (is_document_of k.document_id) l.documents ≡ true) l.chunks

  chunks_clash_sym : (a b : Chunk Float) → chunks_clash a b ≡ chunks_clash b a
  unfolding chunks_clash
  chunks_clash_sym a b = ground (
    arith,
    text_eq_iff a.id b.id,
    text_eq_iff b.id a.id,
    text_eq_iff a.document_id b.document_id,
    text_eq_iff b.document_id a.document_id,
  )

  -- A result keeps the tables sound, or is an error.
  abbrev Keeps : Result (Library Float) → Type 0
  Keeps (ok l) = IsSound l
  Keeps (err e) = Unit {0}

  exec-Keeps :
      (fault violation : Option GoError) (l : Library Float)
      → IsSound l
      → Keeps (exec fault violation l)
  exec-Keeps (some e) v l i = tt
  exec-Keeps none (some e) l i = tt
  exec-Keeps none none l i = i

  and_then-Keeps :
      (r : Result (Library Float)) (f : Library Float → Result (Library Float))
      → Keeps r
      → ((l : Library Float) → IsSound l → Keeps (f l))
      → Keeps (and_then r f)
  and_then-Keeps (err e) f k h = tt
  and_then-Keeps (ok l) f k h = h l k

  insert_document-Keeps :
      (fault : Option GoError) (now : ℕ) (d : Document) (l : Library Float)
      → IsSound l
      → Keeps (insert_document fault now d l)
  unfolding insert_document
  insert_document-Keeps (some e) now d l i = tt
  insert_document-Keeps none now d l i = elim (Bool-cases (any (documents_clash d) l.documents)) [
    | inl y ↦ rw y tt
    | inr n ↦ rw n (record {
      documents_apart =
          Apart-snoc documents_clash documents_clash_sym l.documents (record d { created_at = now })
            i.documents_apart (unfold documents_clash in n);
      chunks_apart = i.chunks_apart;
      documents_exist =
          All-map _ _ l.chunks
            (λ k h.
              any-snoc (is_document_of k.document_id) l.documents (record d { created_at = now })
              ∙ ground (arith, h))
            i.documents_exist;
    })
  ]

  insert_chunk-Keeps :
      (fault : Option GoError) (k : Chunk Float) (l : Library Float)
      → IsSound l
      → Keeps (insert_chunk fault k l)
  unfolding insert_chunk
  insert_chunk-Keeps (some e) k l i = tt
  insert_chunk-Keeps none k l i = elim (Bool-cases (any (chunks_clash k) l.chunks)) [
    | inl y ↦ rw y tt
    | inr n ↦ rw n (elim (Bool-cases (any (is_document_of k.document_id) l.documents)) [
      | inl y ↦ rw y (record {
        documents_apart = i.documents_apart;
        chunks_apart = Apart-snoc chunks_clash chunks_clash_sym l.chunks k i.chunks_apart n;
        documents_exist = All-append _ l.chunks (k ∷ []) i.documents_exist (y, tt);
      })
      | inr z ↦ rw z tt
    ])
  ]

  insert_chunks-Keeps :
      (faults : Faults) (n : ℕ) (ks : List (Chunk Float)) (l : Library Float)
      → IsSound l
      → Keeps (insert_chunks faults n ks l)
  unfolding insert_chunks
  insert_chunks-Keeps faults n [] l i = exec-Keeps (faults n) none l i
  insert_chunks-Keeps faults n (k ∷ ks) l i =
      and_then-Keeps (insert_chunk (faults n) k l) (λ l'. insert_chunks faults (suc n) ks l')
        (insert_chunk-Keeps (faults n) k l i) (λ l' i'. insert_chunks-Keeps faults (suc n) ks l' i')

  settle-IsSound :
      (l : Library Float) (r : Result (Library Float))
      → IsSound l
      → Keeps r
      → IsSound (settle l r).1
  settle-IsSound l (err e) i k = i
  settle-IsSound l (ok l') i k = k

  remove_chunks-IsSound :
      (id : Text) (l : Library Float)
      → IsSound l
      → IsSound (record l { chunks = keep (λ k. not (is_chunk_of id k)) l.chunks })
  remove_chunks-IsSound id l i = record {
    documents_apart = i.documents_apart;
    chunks_apart = Apart-keep chunks_clash (λ k. not (is_chunk_of id k)) l.chunks i.chunks_apart;
    documents_exist =
        All-keep (λ k. any (is_document_of k.document_id) l.documents ≡ true) _
          (λ k. not (is_chunk_of id k)) l.chunks (λ k y h. h) i.documents_exist;
  }

  pub create_document-IsSound :
      (faults : Faults) (now : ℕ) (d : Document) (ks : List (Chunk Float)) (l : Library Float)
      → IsSound l
      → IsSound (create_document faults now d ks l).1
  unfolding create_document
  create_document-IsSound faults now d ks l i = settle-IsSound l _ i (
      and_then-Keeps (exec (faults 0) none l) _ (exec-Keeps (faults 0) none l i) (λ l0 i0.
        and_then-Keeps (insert_document (faults 1) now d l0) _
          (insert_document-Keeps (faults 1) now d l0 i0)
          (λ l1 i1. insert_chunks-Keeps faults 2 ks l1 i1)))

  pub replace_document_chunks-IsSound :
      (faults : Faults) (id : Text) (ks : List (Chunk Float)) (l : Library Float)
      → IsSound l
      → IsSound (replace_document_chunks faults id ks l).1
  unfolding replace_document_chunks
  replace_document_chunks-IsSound faults id ks l i = settle-IsSound l _ i (
      and_then-Keeps (exec (faults 0) none l) _ (exec-Keeps (faults 0) none l i) (λ l0 i0.
        and_then-Keeps
          (exec (faults 1) none
            (record l0 { chunks = keep (λ k. not (is_chunk_of id k)) l0.chunks }))
          _ (exec-Keeps (faults 1) none _ (remove_chunks-IsSound id l0 i0))
          (λ l1 i1. insert_chunks-Keeps faults 2 ks l1 i1)))

  delete_document-IsSound :
      (faults : Faults) (id : Text) (l : Library Float)
      → IsSound l
      → IsSound (delete_document faults id l).1
  unfolding delete_document
  delete_document-IsSound faults id l i = settle-IsSound l _ i (
      exec-Keeps (faults 0) none _ (record {
        documents_apart =
            Apart-keep documents_clash (λ d. not (is_document_of id d)) l.documents
              i.documents_apart;
        chunks_apart =
            Apart-keep chunks_clash (λ k. not (is_chunk_of id k)) l.chunks i.chunks_apart;
        documents_exist =
            All-keep (λ k. any (is_document_of k.document_id) l.documents ≡ true) _
              (λ k. not (is_chunk_of id k)) l.chunks
              (λ k y h. any-keep-other k.document_id id l.documents (ground (arith, y)) h)
              i.documents_exist;
      }))

  change-IsSound :
      (l : Library Float) (e : Faults × Change Float) → IsSound l → IsSound (change l e)
  unfolding change
  change-IsSound l (f, creates now d ks) i = create_document-IsSound f now d ks l i
  change-IsSound l (f, replaces id ks) i = replace_document_chunks-IsSound f id ks l i
  change-IsSound l (f, deletes id) i = delete_document-IsSound f id l i

  changes-IsSound-from :
      (l : Library Float) (es : List (Faults × Change Float)) → IsSound l → IsSound (changes l es)
  unfolding changes
  changes-IsSound-from l [] i = i
  changes-IsSound-from l (e ∷ es) i = changes-IsSound-from (change l e) es (change-IsSound l e i)

  -- After any sequence of creations, replacements and deletions on the empty tables, each with
  -- errors of the driver at any of its calls, no two documents share an id or a checksum, no two
  -- chunks an id or a place in a document, and every chunk's document exists.
  pub changes-IsSound : (es : List (Faults × Change Float)) → IsSound (changes no_rows es)
  changes-IsSound es =
      changes-IsSound-from no_rows es
        (record { documents_apart = tt; chunks_apart = tt; documents_exist = tt })
