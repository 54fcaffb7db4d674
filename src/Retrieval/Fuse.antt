-- ===== src/Retrieval/Fuse.antt =====
-- internal/rag/service.go: fuseRRF. Go visits a map in an order that it does not fix: what comes of
-- the visit is the parameter `visit`.
use dong_rag.Base.{
  ℕ, suc, ◌+◌, Bool, ◌||◌, Option, none, some, List, [], ◌∷◌, map, if◌then◌else◌, take, lookup,
  insert, Text, text_lt,
}
use dong_rag.Retrieval.Hit.{Floats, Hit}
pub mod Order
pub mod Insert
pub mod Content

-- `combined`
abbrev pub Combined : Type 0 → Type 0
Combined Float = List (Text × Hit Float)

-- `for _, hit := range combined`
abbrev pub values : {Float : Type 0} → Combined Float → List (Hit Float)
values [] = []
values ((k, h) ∷ m) = h ∷ values m

module _ (F : Floats) where
  abbrev pub share : ℕ → F.Float
  share i = F.reciprocal (61 + i)

  abbrev pub as_vector_hit : ℕ → Hit F.Float → Hit F.Float
  as_vector_hit i h = record h { vector_rank = i + 1; rrf_score = share i }

  abbrev pub as_lexical_hit : ℕ → Hit F.Float → Hit F.Float
  as_lexical_hit i h = record h { lexical_rank = i + 1; rrf_score = share i }

  abbrev pub as_both : ℕ → Hit F.Float → Hit F.Float → Hit F.Float
  as_both i h existing = record existing {
    lexical_rank = i + 1;
    lexical_score = h.lexical_score;
    rrf_score = F.plus existing.rrf_score (share i);
  }

  unfoldable pub add_vector_hits : ℕ → List (Hit F.Float) → Combined F.Float → Combined F.Float
  unfolding insert
  add_vector_hits i [] m = m
  add_vector_hits i (h ∷ hs) m = add_vector_hits (suc i) hs (insert h.id (as_vector_hit i h) m)

  abbrev pub or_both : ℕ → Hit F.Float → Option (Hit F.Float) → Hit F.Float
  or_both i h none = as_lexical_hit i h
  or_both i h (some existing) = as_both i h existing

  unfoldable pub add_lexical_hits : ℕ → List (Hit F.Float) → Combined F.Float → Combined F.Float
  unfolding insert lookup
  add_lexical_hits i [] m = m
  add_lexical_hits i (h ∷ hs) m =
      add_lexical_hits (suc i) hs (insert h.id (or_both i h (lookup h.id m)) m)

  unfoldable pub combine : List (Hit F.Float) → List (Hit F.Float) → Combined F.Float
  unfolding add_vector_hits add_lexical_hits
  combine vector_hits lexical_hits =
      add_lexical_hits 0 lexical_hits (add_vector_hits 0 vector_hits [])

  abbrev pub with_score : Hit F.Float → Hit F.Float
  with_score h = record h { score = h.rrf_score }

  -- `math.Max`
  abbrev pub greater : F.Float → F.Float → F.Float
  greater x y = if F.lt x y then y else x

  abbrev pub best_score : Hit F.Float → F.Float
  best_score h = greater h.vector_score h.lexical_score

  abbrev pub differ : F.Float → F.Float → Bool
  differ x y = F.lt x y || F.lt y x

  -- The order of the result.
  unfoldable pub precedes : Hit F.Float → Hit F.Float → Bool
  unfolding text_lt
  precedes a b =
      if differ a.rrf_score b.rrf_score
      then F.lt b.rrf_score a.rrf_score
      else if differ (best_score a) (best_score b)
      then F.lt (best_score b) (best_score a)
      else text_lt a.id b.id

  -- `sort.SliceStable`: a hit goes before the ones after it, unless they precede it.
  unfoldable pub place_fused : Hit F.Float → List (Hit F.Float) → List (Hit F.Float)
  unfolding precedes
  place_fused h [] = h ∷ []
  place_fused h (k ∷ ks) =
      let rest = place_fused h ks in if precedes k h then k ∷ rest else h ∷ k ∷ ks

  unfoldable pub in_order : List (Hit F.Float) → List (Hit F.Float)
  unfolding place_fused
  in_order [] = []
  in_order (h ∷ hs) = place_fused h (in_order hs)

  -- The caller's `topK` is never below 0.
  unfoldable pub fuse_rrf :
      (List (Hit F.Float) → List (Hit F.Float))
      → List (Hit F.Float)
      → List (Hit F.Float)
      → ℕ
      → List (Hit F.Float)
  unfolding combine in_order
  fuse_rrf visit vector_hits lexical_hits top_k =
      take top_k (in_order (map with_score (visit (values (combine vector_hits lexical_hits)))))
