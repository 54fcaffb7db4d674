-- ===== src/Indexing/Build.antt =====
-- internal/rag/service.go: what buildChunks makes of a document.
use dong_rag.Base.{
  ℕ, suc, ◌<◌, ◌≡◌, refl, subst, ◌∙◌, inl, inr, none, some, List, [], ◌∷◌, map, arith, ◌==◌,
  Bool-cases, Option-cases, length, All, find_where, length-map, pos, eq_ℤ, eq_of_eq_ℤ, ok,
  and_then_ok, ok_inj, Text, Bytes,
}
use dong_rag.Store.Tables.{Chunk}
use dong_rag.Chunker.Plain.{SourceBlock}
use dong_rag.Chunker.Blocks.{chunk_blocks, chunk_blocks-Indexed}
use dong_rag.Indexing.Chunks.{
  Outside, Settings, Visit, extract_blocks, has_wrong_dim, checked_embeddings, embed_texts,
  new_chunk, new_chunks, embed_parts, build_chunks,
}

module _ {Float : Type 0} where
  -- The chunks of a document from the ordinal `n` on: each has the text of its part and an
  -- embedding of the configured dimension.
  abbrev pub AreChunksOf : Settings → Text → ℕ → List SourceBlock → List (Chunk Float) → Type 0
  AreChunksOf s id n [] [] = Unit {0}
  AreChunksOf s id n [] (k ∷ ks) = ⊥
  AreChunksOf s id n (p ∷ ps) [] = ⊥
  AreChunksOf s id n (p ∷ ps) (k ∷ ks) =
      (k.document_id ≡ id)
      × (k.ordinal ≡ n)
      × (k.content ≡ p.text)
      × (pos (length k.embedding) ≡ s.embedding_dim)
      × AreChunksOf s id (suc n) ps ks

  -- As many embeddings as texts, all of the configured dimension.
  abbrev pub Fit : Settings → ℕ → List (List Float) → Type 0
  Fit s n es = (length es ≡ n) × All (λ e. pos (length e) ≡ s.embedding_dim) es

  dims_fit :
      (s : Settings) (es : List (List Float))
      → find_where (has_wrong_dim s) es ≡ none
      → All (λ e. pos (length e) ≡ s.embedding_dim) es
  unfolding find_where
  dims_fit s [] h = tt
  dims_fit s (e ∷ es) h = elim (Bool-cases (eq_ℤ (pos (length e)) s.embedding_dim)) [
    | inl y ↦ (eq_of_eq_ℤ _ _ y, dims_fit s es (ground (arith, h, y)))
    | inr n ↦ absurd (ground (arith, h, n))
  ]

  checked_embeddings-Fit :
      (s : Settings) (ts : List Text) (xs : List (List Float)) {es : List (List Float)}
      → checked_embeddings s ts xs ≡ ok es
      → Fit s (length ts) es
  unfolding checked_embeddings
  checked_embeddings-Fit s ts xs h = elim (Bool-cases (length xs == length ts)) [
    | inr n ↦ absurd (ground (arith, h, n))
    | inl y ↦ elim (Option-cases (find_where (has_wrong_dim s) xs)) [
      | inr (bad, e) ↦ absurd (ground (arith, h, y, e))
      | inl none_bad ↦
          subst (Fit s (length ts)) (ok_inj (ground (arith, h, y, none_bad)))
            (ground (arith, y), dims_fit s xs none_bad)
    ]
  ]

  pub embed_texts-Fit :
      (o : Outside Float) (s : Settings) (ts : List Text) {es : List (List Float)}
      → embed_texts o s ts ≡ ok es
      → Fit s (length ts) es
  unfolding embed_texts
  embed_texts-Fit o s ts h =
      let (xs, e, c) = and_then_ok (o.embed ts) (checked_embeddings s ts) h in
      checked_embeddings-Fit s ts xs c

  new_chunks-AreChunksOf :
      (o : Outside Float) (s : Settings) (v : Visit) (id name : Text) (n : ℕ)
      (ps : List SourceBlock) (es : List (List Float))
      → Fit s (length ps) es
      → AreChunksOf s id n ps (new_chunks o v id name n ps es)
  unfolding new_chunks new_chunk
  new_chunks-AreChunksOf o s v id name n [] [] f = tt
  new_chunks-AreChunksOf o s v id name n [] (e ∷ es) (l, a) = tt
  new_chunks-AreChunksOf o s v id name n (p ∷ ps) [] (l, a) = absurd (omega (arith, l))
  new_chunks-AreChunksOf o s v id name n (p ∷ ps) (e ∷ es) (l, (d, a)) = (
    refl,
    refl,
    refl,
    d,
    new_chunks-AreChunksOf o s v id name (suc n) ps es (omega (arith, l), a),
  )

  embed_parts-AreChunksOf :
      (o : Outside Float) (s : Settings) (v : Visit) (id name : Text) (parts : List SourceBlock)
      {ks : List (Chunk Float)}
      → embed_parts o s v id name (some parts) ≡ ok ks
      → (0 < length parts) × AreChunksOf s id 0 parts ks
  embed_parts-AreChunksOf o s v id name [] h = absurd (cc)
  embed_parts-AreChunksOf o s v id name (p ∷ ps) h =
      let (es, e, same) = and_then_ok (embed_texts o s (map (λ q. q.text) (p ∷ ps))) _ h in
      let fit = embed_texts-Fit o s (map (λ q. q.text) (p ∷ ps)) e in
      (
        omega arith,
        subst (AreChunksOf s id 0 (p ∷ ps)) (ok_inj same) (
            new_chunks-AreChunksOf o s v id name 0 (p ∷ ps) es
              (fit.0 ∙ length-map (p ∷ ps) (λ q. q.text), fit.1)),
      )

  -- The chunks that are built are those of the parts that the chunker makes of the extracted
  -- blocks, of which there is at least one: in their order, with the ordinals from 0 on, the texts
  -- of the parts, the id of the document and embeddings of the configured dimension.
  pub build_chunks-AreChunksOf :
      (o : Outside Float) (s : Settings) (v : Visit) (id name : Text) (payload : Bytes)
      {ks : List (Chunk Float)}
      → build_chunks o s v id name payload ≡ ok ks
      → (blocks parts : List SourceBlock) × (extract_blocks o name payload ≡ ok blocks)
        × (chunk_blocks blocks s.chunk_size s.chunk_overlap ≡ some parts)
        × (0 < length parts)
        × AreChunksOf s id 0 parts ks
  unfolding build_chunks
  build_chunks-AreChunksOf o s v id name payload {ks} h =
      let (blocks, e, c) = and_then_ok (extract_blocks o name payload) _ h in
      let (parts, p, i) = chunk_blocks-Indexed blocks s.chunk_size s.chunk_overlap in
      let (some_part, all) =
        embed_parts-AreChunksOf o s v id name parts
          (subst (λ x. embed_parts o s v id name x ≡ ok ks) p c) in
      (blocks, parts, e, p, some_part, all)
