-- ===== src/Store/Library.antt =====
-- internal/store/store.go: the statements on `documents` and `chunks`, with the constraints of
-- their tables. `faults n` is the error that the driver reports at the n-th call of an operation in
-- place of running it; a transaction that meets an error is rolled back.
pub mod Sound
pub mod Atomic
pub mod Listing
mod Tests
use dong_rag.Base.{
  ℕ, suc, Bool, ◌&&◌, ◌||◌, not, Option, none, some, List, [], ◌∷◌, ◌++◌, ◌==◌, if◌then◌else◌, any,
  keep, find_where, GoError, Result, ok, err, and_then, Text, text_eq,
}
use dong_rag.Store.Tables.{Document, Chunk}
use dong_rag.Store.Jobs.{unique_violation, foreign_key_violation}

pub record Library (Float : Type 0) : Type 0 where
  pub documents : List Document
  pub chunks : List (Chunk Float)

abbrev pub Faults : Type 0
Faults = ℕ → Option GoError

-- Two rows that the primary key or UNIQUE keeps apart.
unfoldable pub documents_clash : Document → Document → Bool
documents_clash a b = text_eq a.id b.id || text_eq a.checksum b.checksum

abbrev pub is_document_of : Text → Document → Bool
is_document_of id d = text_eq d.id id

module _ {Float : Type 0} where
  unfoldable pub chunks_clash : Chunk Float → Chunk Float → Bool
  chunks_clash a b =
      text_eq a.id b.id || (text_eq a.document_id b.document_id && a.ordinal == b.ordinal)

  abbrev pub is_chunk_of : Text → Chunk Float → Bool
  is_chunk_of id k = text_eq k.document_id id

  -- A call that may meet a fault, and may violate a constraint.
  abbrev pub exec : Option GoError → Option GoError → Library Float → Result (Library Float)
  exec (some e) violation l = err e
  exec none (some e) l = err e
  exec none none l = ok l

  unfoldable pub insert_document :
      Option GoError → ℕ → Document → Library Float → Result (Library Float)
  unfolding documents_clash
  insert_document fault now d l =
      exec fault (if any (documents_clash d) l.documents then some unique_violation else none)
        (record l { documents = l.documents ++ (record d { created_at = now } ∷ []) })

  unfoldable pub insert_chunk :
      Option GoError → Chunk Float → Library Float → Result (Library Float)
  unfolding chunks_clash text_eq
  insert_chunk fault k l =
      exec fault
        (if any (chunks_clash k) l.chunks
          then some unique_violation
          else if any (is_document_of k.document_id) l.documents
          then none
          else some foreign_key_violation)
        (record l { chunks = l.chunks ++ (k ∷ []) })

  -- The loop, from the n-th call on, with the number of the call that follows.
  unfoldable pub insert_chunks :
      Faults → ℕ → List (Chunk Float) → Library Float → Result (Library Float)
  unfolding insert_chunk
  insert_chunks faults n [] l = exec (faults n) none l
  insert_chunks faults n (k ∷ ks) l =
      and_then (insert_chunk (faults n) k l) (λ l'. insert_chunks faults (suc n) ks l')

  -- `tx.Commit` or `tx.Rollback`
  abbrev pub settle : Library Float → Result (Library Float) → Option GoError × Library Float
  settle l (err e) = (some e, l)
  settle l (ok l') = (none, l')

  -- Begin is the call 0, and Commit the last one.
  unfoldable pub create_document :
      Faults → ℕ → Document → List (Chunk Float) → Library Float → Option GoError × Library Float
  unfolding insert_document insert_chunks
  create_document faults now d ks l = settle l (
      and_then (exec (faults 0) none l)
        (λ l0. and_then (insert_document (faults 1) now d l0) (λ l1. insert_chunks faults 2 ks l1)))

  unfoldable pub replace_document_chunks :
      Faults → Text → List (Chunk Float) → Library Float → Option GoError × Library Float
  unfolding insert_chunks keep text_eq
  replace_document_chunks faults id ks l = settle l (
      and_then (exec (faults 0) none l) (λ l0.
        and_then
          (exec (faults 1) none
            (record l0 { chunks = keep (λ k. not (is_chunk_of id k)) l0.chunks }))
          (λ l1. insert_chunks faults 2 ks l1)))

  -- The chunks go with their document: ON DELETE CASCADE.
  unfoldable pub delete_document : Faults → Text → Library Float → Option GoError × Library Float
  unfolding keep text_eq
  delete_document faults id l = settle l (
      exec (faults 0) none (record l {
        documents = keep (λ d. not (is_document_of id d)) l.documents;
        chunks = keep (λ k. not (is_chunk_of id k)) l.chunks;
      }))

  unfoldable pub find_document_by_checksum :
      Option GoError → Text → Library Float → Result (Option Document)
  unfolding find_where text_eq
  find_document_by_checksum none checksum l =
      ok (find_where (λ d. text_eq d.checksum checksum) l.documents)
  find_document_by_checksum (some e) checksum l = err e

-- What the service asks of the two tables.
pub data Change (Float : Type 0) : Type 0 where
  creates : ℕ → Document → List (Chunk Float) → Change Float
  replaces : Text → List (Chunk Float) → Change Float
  deletes : Text → Change Float

abbrev pub no_rows : {Float : Type 0} → Library Float
no_rows = record { documents = []; chunks = [] }

unfoldable pub change : {Float : Type 0} → Library Float → Faults × Change Float → Library Float
unfolding create_document replace_document_chunks delete_document
change l (f, creates now d ks) = (create_document f now d ks l).1
change l (f, replaces id ks) = (replace_document_chunks f id ks l).1
change l (f, deletes id) = (delete_document f id l).1

unfoldable pub changes :
    {Float : Type 0} → Library Float → List (Faults × Change Float) → Library Float
unfolding change
changes l [] = l
changes l (e ∷ es) = changes (change l e) es
