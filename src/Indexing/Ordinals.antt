-- ===== src/Indexing/Ordinals.antt =====
-- internal/store/store.go: ORDER BY ordinal of ListDocumentChunks gives the chunks in the order of
-- their ordinals, and leaves a list that is in that order as it is.
use dong_rag.Base.{
  ℕ, ◌≤◌, ◌≡◌, refl, inl, inr, List, [], ◌∷◌, map, arith, leb, Bool-cases, All, All-map,
}
use dong_rag.Store.Tables.{Chunk}
use dong_rag.Store.Library.Listing.{place_chunk, by_ordinal}

-- Each number is at most those behind it.
abbrev pub Ordered : List ℕ → Type 0
Ordered [] = Unit {0}
Ordered (n ∷ ns) = All (λ m. n ≤ m) ns × Ordered ns

module _ {Float : Type 0} where
  abbrev pub ordinals : List (Chunk Float) → List ℕ
  ordinals = map (λ k. k.ordinal)

  place_chunk-All :
      (n : ℕ) (k : Chunk Float) (xs : List (Chunk Float))
      → n ≤ k.ordinal
      → All (λ m. n ≤ m) (ordinals xs)
      → All (λ m. n ≤ m) (ordinals (place_chunk k xs))
  unfolding place_chunk
  place_chunk-All n k [] h a = (h, tt)
  place_chunk-All n k (x ∷ xs) h (g, a) = elim (Bool-cases (leb k.ordinal x.ordinal)) [
    | inl y ↦ rw y (h, (g, a))
    | inr z ↦ rw z (g, place_chunk-All n k xs h a)
  ]

  place_chunk-Ordered :
      (k : Chunk Float) (xs : List (Chunk Float))
      → Ordered (ordinals xs)
      → Ordered (ordinals (place_chunk k xs))
  unfolding place_chunk
  place_chunk-Ordered k [] a = (tt, tt)
  place_chunk-Ordered k (x ∷ xs) (h, a) = elim (Bool-cases (leb k.ordinal x.ordinal)) [
    | inl y ↦
        rw y
          ((ground (arith, y), All-map _ _ (ordinals xs) (λ m l. ground (arith, y, l)) h), (h, a))
    | inr z ↦
        rw z (place_chunk-All x.ordinal k xs (ground (arith, z)) h, place_chunk-Ordered k xs a)
  ]

  pub by_ordinal-Ordered : (xs : List (Chunk Float)) → Ordered (ordinals (by_ordinal xs))
  unfolding by_ordinal
  by_ordinal-Ordered [] = tt
  by_ordinal-Ordered (k ∷ ks) = place_chunk-Ordered k (by_ordinal ks) (by_ordinal-Ordered ks)

  place_chunk_first :
      (k : Chunk Float) (xs : List (Chunk Float))
      → All (λ m. k.ordinal ≤ m) (ordinals xs)
      → place_chunk k xs ≡ k ∷ xs
  unfolding place_chunk
  place_chunk_first k [] a = refl
  place_chunk_first k (x ∷ xs) (h, a) = ground (arith, h)

  pub by_ordinal_id : (xs : List (Chunk Float)) → Ordered (ordinals xs) → by_ordinal xs ≡ xs
  unfolding by_ordinal
  by_ordinal_id [] a = refl
  by_ordinal_id (k ∷ ks) (h, a) = rw (by_ordinal_id ks a) (place_chunk_first k ks h)
