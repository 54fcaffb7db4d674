-- ===== src/Store/Library/Atomic.antt =====
-- internal/store/store.go: a transaction takes effect as a whole or not at all.
use dong_rag.Base.{
  ℕ, suc, ◌≡◌, refl, ◌⊎◌, inl, inr, not, Option, none, some, List, [], ◌∷◌, ◌++◌, append_assoc,
  append-nil, keep, GoError, Result, ok, err, and_then, Text,
}
use dong_rag.Store.Tables.{Document, Chunk, after}
use dong_rag.Store.Library.{
  Library, Faults, is_chunk_of, exec, insert_document, insert_chunk, insert_chunks, settle,
  create_document, replace_document_chunks,
}

module _ {Float : Type 0} where
  -- An error, or the result.
  abbrev Either : Result (Library Float) → Library Float → Type 0
  Either r l = ((e : GoError) × (r ≡ err e)) ⊎ (r ≡ ok l)

  exec-Either :
      (fault violation : Option GoError) (l : Library Float) → Either (exec fault violation l) l
  exec-Either (some e) v l = inl (e, refl)
  exec-Either none (some e) l = inl (e, refl)
  exec-Either none none l = inr refl

  and_then-Either :
      (r : Result (Library Float)) (l m : Library Float)
      (f : Library Float → Result (Library Float))
      → Either r l
      → Either (f l) m
      → Either (and_then r f) m
  and_then-Either r l m f (inl (e, p)) h = inl (e, rw p refl)
  and_then-Either r l m f (inr p) h = rw p h

  insert_chunks-Either :
      (faults : Faults) (n : ℕ) (ks : List (Chunk Float)) (l : Library Float)
      → Either (insert_chunks faults n ks l) (record l { chunks = l.chunks ++ ks })
  unfolding insert_chunks insert_chunk
  insert_chunks-Either faults n [] l = rw (append-nil l.chunks) (exec-Either (faults n) none l)
  insert_chunks-Either faults n (k ∷ ks) l =
      let rest =
        insert_chunks-Either faults (suc n) ks (record l { chunks = l.chunks ++ (k ∷ []) }) in
      and_then-Either (insert_chunk (faults n) k l) (record l { chunks = l.chunks ++ (k ∷ []) })
        (record l { chunks = l.chunks ++ (k ∷ ks) }) (λ l'. insert_chunks faults (suc n) ks l')
        (exec-Either (faults n) _ (record l { chunks = l.chunks ++ (k ∷ []) }))
        (rw (append_assoc l.chunks (k ∷ []) ks) at rest)

  -- An operation that reports an error has changed nothing, and one that reports none has done it
  -- all.
  abbrev pub IsAtomic : Library Float → Library Float → Option GoError × Library Float → Type 0
  IsAtomic before after (report, l) =
      ((e : GoError) × (report ≡ some e) × (l ≡ before)) ⊎ ((report ≡ none) × (l ≡ after))

  settle-IsAtomic :
      (l m : Library Float) (r : Result (Library Float)) → Either r m → IsAtomic l m (settle l r)
  settle-IsAtomic l m (err e) (inl h) = inl (e, refl, refl)
  settle-IsAtomic l m (err e) (inr h) = absurd (cc)
  settle-IsAtomic l m (ok x) (inl (e, h)) = absurd (cc)
  settle-IsAtomic l m (ok x) (inr h) = inr (refl, cc)

  -- A creation that reports an error leaves the tables as they were, and one that reports none has
  -- added the document, created at the time of the statement, and all the chunks in their order. A
  -- replacement either leaves the tables as they were or puts the chunks in place of all that the
  -- document had.
  pub transactions-IsAtomic :
      (faults : Faults) (now : ℕ) (d : Document) (id : Text) (ks : List (Chunk Float))
      (l : Library Float)
      → IsAtomic l
          (record {
            documents = l.documents ++ (record d { created_at = now } ∷ []);
            chunks = l.chunks ++ ks;
          })
          (create_document faults now d ks l)
        × IsAtomic l
            (record l { chunks = keep (λ k. not (is_chunk_of id k)) l.chunks ++ ks })
            (replace_document_chunks faults id ks l)
  unfolding create_document replace_document_chunks insert_document
  transactions-IsAtomic faults now d id ks l = (
    settle-IsAtomic l _ _ (
        and_then-Either (exec (faults 0) none l) l _ _ (exec-Either (faults 0) none l) (
          and_then-Either (insert_document (faults 1) now d l) _ _ _ (exec-Either (faults 1) _ _) (
            insert_chunks-Either faults 2 ks
              (record l { documents = l.documents ++ (record d { created_at = now } ∷ []) })))),
    settle-IsAtomic l _ _ (
        and_then-Either (exec (faults 0) none l) l _ _ (exec-Either (faults 0) none l) (
          and_then-Either (exec (faults 1) none _) _ _ _ (exec-Either (faults 1) none _) (
            insert_chunks-Either faults 2 ks
              (record l { chunks = keep (λ k. not (is_chunk_of id k)) l.chunks })))),
  )
