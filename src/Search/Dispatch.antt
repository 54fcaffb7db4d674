-- ===== src/Search/Dispatch.antt =====
-- internal/store/store.go: searchWeighted, and Search, which picks the statement. The parameter
-- `fault` is the error of the statement or of reading its rows.
use dong_rag.Base.{
  ℕ, Option, none, some, List, [], ◌∷◌, ◌++◌, map, if◌then◌else◌, take, ℤ, pos_part, GoError,
  plain_error, Result, ok, err, Text, codes,
}
use dong_rag.Store.Library.{Library}
use dong_rag.Store.Limits.{normalize_search_limits}
use dong_rag.Retrieval.Hit.{Floats, Hit}
use dong_rag.Store.Tables.{Document}
use dong_rag.Search.{
  Ranking, order_by, Joined, full_join, semantic, lexical, search_vector, search_lexical,
  value_or_nought, joined_hit, join_both, greatest, is_ahead, search_hybrid,
}

pub data SearchMode : Type 0 where
  vector_mode lexical_mode weighted_mode hybrid_mode rerank_mode : SearchMode
  other_mode : Text → SearchMode

abbrev pub mode_text : SearchMode → Text
mode_text vector_mode = codes "vector"
mode_text lexical_mode = codes "lexical"
mode_text weighted_mode = codes "weighted"
mode_text hybrid_mode = codes "hybrid"
mode_text rerank_mode = codes "rerank"
mode_text (other_mode t) = t

-- `%q` puts the mode between quotes.
abbrev pub unsupported_mode : SearchMode → GoError
unsupported_mode mode =
    plain_error (codes "unsupported search mode " ++ (34 ∷ mode_text mode) ++ (34 ∷ []))

module _ (F : Floats) (R : Ranking F) where
  -- MAX(…) OVER () and MIN(…) OVER () of the rows from `x` on.
  abbrev largest : F.Float → List F.Float → F.Float
  largest x [] = x
  largest x (y ∷ ys) = largest (greatest F R x y) ys

  abbrev least : F.Float → List F.Float → F.Float
  least x [] = x
  least x (y ∷ ys) = least (if F.lt y x then y else x) ys

  -- CASE WHEN MAX = MIN THEN 0 ELSE (x - MIN) / (MAX - MIN) END
  abbrev normalized : F.Float → List F.Float → F.Float
  normalized x xs =
      if F.lt (least x xs) (largest x xs)
      then R.over (R.minus x (least x xs)) (R.minus (largest x xs) (least x xs))
      else F.nought

  abbrev vector_value : Joined F.Float → F.Float
  vector_value j = value_or_nought F R j.in_semantic

  abbrev lexical_value : Joined F.Float → F.Float
  lexical_value j = value_or_nought F R j.in_lexical

  unfoldable pub weighted_hit : List (Joined F.Float) → Joined F.Float → Document → Hit F.Float
  weighted_hit js j d = record (joined_hit F R j d) {
    score = R.half (
        F.plus (normalized (vector_value j) (map vector_value js))
          (normalized (lexical_value j) (map lexical_value js)));
  }

  unfoldable pub search_weighted :
      Text → List F.Float → ℕ → ℕ → Library F.Float → List (Hit F.Float)
  unfolding semantic lexical full_join join_both is_ahead order_by weighted_hit
  search_weighted query embedding top_k candidate_k l =
      let js = full_join (semantic F R embedding candidate_k l) (lexical F R query candidate_k l) in
      take top_k (order_by (is_ahead F R (λ h. h.score)) (join_both F R (weighted_hit js) l js))

  unfoldable pub run_search :
      SearchMode → Text → List F.Float → ℕ → ℕ → Library F.Float → Option (List (Hit F.Float))
  unfolding search_vector search_lexical search_weighted search_hybrid
  run_search vector_mode q e k n l = some (search_vector F R e k n l)
  run_search lexical_mode q e k n l = some (search_lexical F R q k n l)
  run_search weighted_mode q e k n l = some (search_weighted q e k n l)
  run_search hybrid_mode q e k n l = some (search_hybrid F R q e k n l)
  run_search rerank_mode q e k n l = none
  run_search (other_mode t) q e k n l = none

  abbrev answered :
      SearchMode → Option GoError → Option (List (Hit F.Float)) → Result (List (Hit F.Float))
  answered mode fault none = err (unsupported_mode mode)
  answered mode (some e) (some hits) = err e
  answered mode none (some hits) = ok hits

  -- The limits are positive once they are normalized.
  unfoldable pub search :
      Option GoError
      → Text
      → List F.Float
      → SearchMode
      → ℤ
      → ℤ
      → Library F.Float
      → Result (List (Hit F.Float))
  unfolding normalize_search_limits run_search
  search fault query embedding mode top_k candidate_k l =
      let (k, n) = normalize_search_limits top_k candidate_k in
      answered mode fault (run_search mode query embedding (pos_part k) (pos_part n) l)
