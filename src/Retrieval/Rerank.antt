-- ===== src/Retrieval/Rerank.antt =====
-- internal/rag/service.go: RerankResult, rerankHits and RerankHits. The reranker is a service, and
-- stands here as a parameter that answers a query and texts.
pub mod Ranked
pub mod Refused
use dong_rag.Base.{
  ℕ, suc, Option, none, some, List, [], ◌∷◌, ◌++◌, map, if◌then◌else◌, get_elem?, any, ℤ, pos,
  negsuc, decimal_ℤ, eq_ℤ, GoError, plain_error, Result, ok, err, Text, codes,
}
use dong_rag.Retrieval.Hit.{Hit}
use dong_rag.Retrieval.Diverse.{select_diverse}

pub record RerankResult (Float : Type 0) : Type 0 where
  pub index : ℤ
  pub result_score : Float

abbrev pub Reranker : Type 0 → Type 0
Reranker Float = Text → List Text → Result (List (RerankResult Float))

-- The loop's state: the hits in their new order, and the indices that occurred.
pub record Reordered (Float : Type 0) : Type 0 where
  pub ordered : List (Hit Float)
  pub seen : List ℤ

abbrev pub invalid_index : ℤ → GoError
invalid_index i = plain_error (codes "invalid reranker index " ++ decimal_ℤ i)

module _ {Float : Type 0} where
  -- `candidates[i]`, and nothing for an index below 0 or from the length on.
  abbrev pub candidate : List (Hit Float) → ℤ → Option (Hit Float)
  candidate candidates (pos i) = get_elem? candidates i
  candidate candidates (negsuc i) = none

  abbrev pub ranked : Hit Float → ℕ → Float → Hit Float
  ranked h rank s = record h { rerank_rank = suc rank; rerank_score = s }

  -- The loop's body, for an index that is valid.
  unfoldable pub note_result :
      ℕ → Reordered Float → RerankResult Float → Hit Float → Reordered Float
  note_result rank s r h = if any (eq_ℤ r.index) s.seen then s else record {
    ordered = s.ordered ++ (ranked h rank r.result_score ∷ []);
    seen = r.index ∷ s.seen;
  }

  unfoldable pub reorder :
      List (Hit Float) → ℕ → Reordered Float → List (RerankResult Float) → Result (List (Hit Float))
  unfolding note_result
  reorder candidates rank s [] = ok s.ordered
  reorder candidates rank s (r ∷ rs) = elim (candidate candidates r.index) [
    | none ↦ err (invalid_index r.index)
    | some h ↦ reorder candidates (suc rank) (note_result rank s r h) rs
  ]

  -- The loop over the selection: `i` stands at the element's place.
  abbrev pub number : ℕ → List (Hit Float) → List (Hit Float)
  number i [] = []
  number i (h ∷ hs) = record h { final_rank = suc i } ∷ number (suc i) hs

  abbrev pub select_numbered : ℤ → ℤ → Result (List (Hit Float)) → Result (List (Hit Float))
  select_numbered top_k max_per_doc (ok hits) =
      ok (number 0 (select_diverse hits top_k max_per_doc))
  select_numbered top_k max_per_doc (err e) = err e

  abbrev pub reorder_all :
      List (Hit Float) → Result (List (RerankResult Float)) → Result (List (Hit Float))
  reorder_all candidates (err e) = err e
  reorder_all candidates (ok []) = err (plain_error (codes "reranker returned no results"))
  reorder_all candidates (ok (r ∷ rs)) =
      reorder candidates 0 (record { ordered = []; seen = [] }) (r ∷ rs)

  unfoldable pub rerank_hits :
      Reranker Float → Text → List (Hit Float) → ℤ → ℤ → Result (List (Hit Float))
  unfolding reorder select_diverse
  rerank_hits reranker query candidates top_k max_per_doc =
      select_numbered top_k max_per_doc
        (reorder_all candidates (reranker query (map (λ h. h.content) candidates)))
