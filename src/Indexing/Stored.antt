-- ===== src/Indexing/Stored.antt =====
-- internal/rag/service.go: ReindexStoredChunks gives a document's chunks new embeddings and leaves
-- their texts and their order as they were.
use dong_rag.Indexing.Build.{embed_texts-Fit}
use dong_rag.Base.{
  ℕ, suc, ◌≡◌, refl, sym, ap, subst, ◌∙◌, inl, inr, false, not, Option, none, some, List, [], ◌∷◌,
  ◌++◌, map, append-nil, arith, keep-append, keep-none, keep-All, keep-keep, keep-keep-not, length,
  All, keep, length-map, All-map, GoError, Result, ok, err, and_then, and_then_ok, ok_inj, Text,
  text_eq, text_eq_refl, text_eq_iff,
}
use dong_rag.Store.Tables.{Document, Chunk}
use dong_rag.Store.Library.Atomic.{transactions-IsAtomic}
use dong_rag.Store.Library.{Library, is_chunk_of}
use dong_rag.Store.Library.Listing.{by_ordinal, selected, list_document_chunks}
use dong_rag.Indexing.Chunks.{Outside, Settings, Visit, embed_texts}
use dong_rag.Indexing.{
  save_again, rebuilt_chunk, rebuilt_chunks, rebuild_stored_chunks, reindex_stored_chunks,
}
use dong_rag.Indexing.Ordinals.{Ordered, ordinals, by_ordinal-Ordered, by_ordinal_id}

abbrev blank : Document
blank = record {
  id = [];
  name = [];
  content_type = [];
  size_bytes = 0;
  checksum = [];
  created_at = 0;
}

module _ {Float : Type 0} where
  abbrev pub entries : List (Chunk Float) → List (ℕ × Text)
  entries = map (λ k. (k.ordinal, k.content))

  -- What the chunks of a document say, in their order.
  abbrev pub outline : Text → Library Float → List (ℕ × Text)
  outline id l = entries (by_ordinal (keep (is_chunk_of id) l.chunks))

  entries-selected : (ks : List (Chunk Float)) → entries (map selected ks) ≡ entries ks
  entries-selected [] = refl
  entries-selected (k ∷ ks) = ap (◌∷◌ (k.ordinal, k.content)) (entries-selected ks)

  ordinals-entries : (ks : List (Chunk Float)) → map (λ p. p.0) (entries ks) ≡ ordinals ks
  ordinals-entries [] = refl
  ordinals-entries (k ∷ ks) = ap (◌∷◌ k.ordinal) (ordinals-entries ks)

  entries-rebuilt_chunks :
      (v : Visit) (id : Text) (i : ℕ) (ks : List (Chunk Float)) (es : List (List Float))
      → length es ≡ length ks
      → entries (rebuilt_chunks v id i ks es) ≡ entries ks
  unfolding rebuilt_chunks rebuilt_chunk
  entries-rebuilt_chunks v id i [] es h = refl
  entries-rebuilt_chunks v id i (k ∷ ks) [] h = absurd (omega (arith, h))
  entries-rebuilt_chunks v id i (k ∷ ks) (e ∷ es) h =
      ap (◌∷◌ (k.ordinal, k.content)) (entries-rebuilt_chunks v id (suc i) ks es (omega (arith, h)))

  rebuilt_chunks-All :
      (v : Visit) (id : Text) (i : ℕ) (ks : List (Chunk Float)) (es : List (List Float))
      → All (λ k. k.document_id ≡ id) (rebuilt_chunks v id i ks es)
  unfolding rebuilt_chunks rebuilt_chunk
  rebuilt_chunks-All v id i [] es = tt
  rebuilt_chunks-All v id i (k ∷ ks) [] = tt
  rebuilt_chunks-All v id i (k ∷ ks) (e ∷ es) = (refl, rebuilt_chunks-All v id (suc i) ks es)

  rebuild-entries :
      (o : Outside Float) (s : Settings) (v : Visit) (id : Text) (cs : List (Chunk Float))
      {ks : List (Chunk Float)}
      → rebuild_stored_chunks o s v id cs ≡ ok ks
      → (entries ks ≡ entries cs) × All (λ k. k.document_id ≡ id) ks
  unfolding rebuild_stored_chunks
  rebuild-entries o s v id [] h = absurd (cc)
  rebuild-entries o s v id (c ∷ cs) {ks} h =
      let texts = map (λ k. k.content) (c ∷ cs) in
      let (es, e, same) = and_then_ok (embed_texts o s texts) _ h in
      let fit = embed_texts-Fit o s texts e in
      let counted : length es ≡ length (c ∷ cs) = fit.0 ∙ length-map (c ∷ cs) (λ k. k.content) in
      let rebuilt : rebuilt_chunks v id 0 (c ∷ cs) es ≡ ks = ok_inj same in
      (
        subst (λ r. entries r ≡ entries (c ∷ cs)) rebuilt
            (entries-rebuilt_chunks v id 0 (c ∷ cs) es counted),
        subst (λ r. All (λ k. k.document_id ≡ id) r) rebuilt
            (rebuilt_chunks-All v id 0 (c ∷ cs) es),
      )

  -- The chunks behind a replacement of a document's chunks.
  chunks_of_replaced :
      (id : Text) (xs ks : List (Chunk Float))
      → All (λ k. k.document_id ≡ id) ks
      → keep (is_chunk_of id) (keep (λ k. not (is_chunk_of id k)) xs ++ ks) ≡ ks
  chunks_of_replaced id xs ks a =
      keep-append (is_chunk_of id) (keep (λ k. not (is_chunk_of id k)) xs) ks
      ∙ rw (keep-keep-not (is_chunk_of id) xs)
          (keep-All (is_chunk_of id) ks (All-map _ _ ks (λ k e. rw e (text_eq_refl id)) a))

  chunks_of_other :
      (id other : Text) (xs ks : List (Chunk Float))
      → text_eq id other ≡ false
      → All (λ k. k.document_id ≡ id) ks
      → keep (is_chunk_of other) (keep (λ k. not (is_chunk_of id k)) xs ++ ks)
        ≡ keep (is_chunk_of other) xs
  chunks_of_other id other xs ks n a =
      keep-append (is_chunk_of other) (keep (λ k. not (is_chunk_of id k)) xs) ks
      ∙ rw (keep-none (is_chunk_of other) ks (All-map _ _ ks (λ k e. rw e n) a)) (
          append-nil _
          ∙ keep-keep (is_chunk_of other) (λ k. not (is_chunk_of id k)) xs
              (λ k h. ground (
                arith,
                h,
                n,
                text_eq_iff k.document_id id,
                text_eq_iff k.document_id other,
                text_eq_iff id other,
              )))

  same_outline :
      (id : Text) (xs ks : List (Chunk Float))
      → entries ks ≡ entries (map selected (by_ordinal xs))
      → entries (by_ordinal ks) ≡ entries (by_ordinal xs)
  same_outline id xs ks h =
      let listed : entries ks ≡ entries (by_ordinal xs) = h ∙ entries-selected (by_ordinal xs) in
      let numbers : ordinals ks ≡ ordinals (by_ordinal xs) =
        sym (ordinals-entries ks) ∙ ap (map (λ p. p.0)) listed ∙ ordinals-entries (by_ordinal xs) in
      ap entries (by_ordinal_id ks (subst Ordered (sym numbers) (by_ordinal-Ordered xs))) ∙ listed

  -- The documents, the chunks of all documents but one, and the outline of that one, are the same.
  abbrev pub Keeps : Text → Library Float → Library Float → Type 0
  Keeps id l l' =
      (outline id l' ≡ outline id l)
      × ((other : Text)
          → text_eq id other ≡ false
          → keep (is_chunk_of other) l'.chunks ≡ keep (is_chunk_of other) l.chunks)
      × (l'.documents ≡ l.documents)

  listed :
      (f : Option GoError) (id : Text) (l : Library Float) {cs : List (Chunk Float)}
      → list_document_chunks f id l ≡ ok cs
      → cs ≡ map selected (by_ordinal (keep (is_chunk_of id) l.chunks))
  unfolding list_document_chunks
  listed none id l h = sym (ok_inj h)
  listed (some e) id l h = absurd (cc)

  replaced-Keeps :
      (id : Text) (l : Library Float) (ks : List (Chunk Float))
      → entries ks ≡ entries (map selected (by_ordinal (keep (is_chunk_of id) l.chunks)))
      → All (λ k. k.document_id ≡ id) ks
      → Keeps id l (record l { chunks = keep (λ k. not (is_chunk_of id k)) l.chunks ++ ks })
  replaced-Keeps id l ks h a = (
    rw (chunks_of_replaced id l.chunks ks a)
        (same_outline id (keep (is_chunk_of id) l.chunks) ks h),
    λ other n. chunks_of_other id other l.chunks ks n a,
    refl,
  )

  save_again-Keeps :
      (o : Outside Float) (s : Settings) (v : Visit) (id : Text) (l : Library Float)
      (r : Result (List (Chunk Float)))
      → r ≡ and_then (list_document_chunks v.read_fault id l) (rebuild_stored_chunks o s v id)
      → (save_again v id r l).0 ≡ none
      → Keeps id l (save_again v id r l).1
  save_again-Keeps o s v id l (err e) p h = absurd (cc)
  save_again-Keeps o s v id l (ok ks) p h =
      let (cs, e, q) =
        and_then_ok (list_document_chunks v.read_fault id l) (rebuild_stored_chunks o s v id)
          (sym p) in
      let (same, mine) = rebuild-entries o s v id cs q in
      elim (transactions-IsAtomic v.write_faults 0 blank id ks l).1 [
        | inl (x, report, unchanged) ↦ absurd (cc)
        | inr (report, whole) ↦
            subst (Keeps id l) (sym whole)
              (replaced-Keeps id l ks (same ∙ ap entries (listed v.read_fault id l e)) mine)
      ]

  -- Reindexing from the stored chunks, where it reports no error, leaves the documents, the chunks
  -- of every other document, and the ordinals and texts of the document's own chunks as they were.
  pub reindex_stored_chunks-Keeps :
      (o : Outside Float) (s : Settings) (v : Visit) (id : Text) (l : Library Float)
      → (reindex_stored_chunks o s v id l).0 ≡ none
      → Keeps id l (reindex_stored_chunks o s v id l).1
  unfolding reindex_stored_chunks
  reindex_stored_chunks-Keeps o s v id l h = save_again-Keeps o s v id l _ refl h
