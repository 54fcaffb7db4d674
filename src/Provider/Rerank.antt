-- ===== src/Provider/Rerank.antt =====
-- internal/provider/reranker.go: LlamaCppReranker's Rerank and Health, and funcReranker of
-- cmd/minirag/main.go.
use dong_rag.Base.{
  ℕ, ◌*◌, Bool, ◌||◌, Option, none, some, List, [], ◌∷◌, ◌++◌, ◌==◌, if◌then◌else◌, length, take,
  find_where, pos, ltb_ℤ, leb_ℤ, decimal_ℤ, GoError, plain_error, Result, ok, err, and_then, Text,
  Bytes, codes, decimal,
}
use dong_rag.Retrieval.Hit.{Floats}
use dong_rag.Retrieval.Rerank.{RerankResult}
use dong_rag.Provider.{
  HttpResponse, Exchange, wrap_error, response_of, is_success, status_error, status_fault,
}

module _ (F : Floats) where
  -- Whether an index is not one of `n` documents.
  abbrev pub is_outside : ℕ → RerankResult F.Float → Bool
  is_outside n r = ltb_ℤ r.index (pos 0) || leb_ℤ (pos n) r.index

  -- `sort.SliceStable` by falling scores: a result stands behind those of the same score before it.
  unfoldable pub place_result :
      RerankResult F.Float → List (RerankResult F.Float) → List (RerankResult F.Float)
  place_result r [] = r ∷ []
  place_result r (q ∷ qs) =
      let rest = place_result r qs in
      if F.lt r.result_score q.result_score then q ∷ rest else r ∷ q ∷ qs

  unfoldable pub sort_results : List (RerankResult F.Float) → List (RerankResult F.Float)
  unfolding place_result
  sort_results [] = []
  sort_results (r ∷ rs) = place_result r (sort_results rs)

  abbrev pub invalid_result : RerankResult F.Float → GoError
  invalid_result r = plain_error (codes "reranker returned invalid index " ++ decimal_ℤ r.index)

  abbrev pub unless_outside :
      Option (RerankResult F.Float)
      → List (RerankResult F.Float)
      → Result (List (RerankResult F.Float))
  unless_outside (some r) items = err (invalid_result r)
  unless_outside none items = ok (sort_results items)

  unfoldable pub checked_results :
      ℕ → List (RerankResult F.Float) → Result (List (RerankResult F.Float))
  unfolding sort_results find_where
  checked_results n items =
      if length items == n
      then unless_outside (find_where (is_outside n) items) items
      else err (
          plain_error (
            codes "reranker returned "
            ++ decimal (length items)
            ++ codes " results for "
            ++ decimal n
            ++ codes " documents"))

  abbrev pub results_in :
      (Bytes → Result (List (RerankResult F.Float)))
      → ℕ
      → HttpResponse
      → Result (List (RerankResult F.Float))
  results_in decode n r =
      if is_success r
      then and_then
          (wrap_error (codes "decode reranker response: ") (decode (take (4 * 1048576) r.body)))
          (checked_results n)
      else err (status_error (codes "reranker") (4 * 1048576) r)

  -- Rerank, on what the exchange for the query and the texts gives.
  unfoldable pub rerank :
      (Bytes → Result (List (RerankResult F.Float)))
      → (Text → List Text → Exchange)
      → Text
      → List Text
      → Result (List (RerankResult F.Float))
  unfolding response_of checked_results
  rerank decode exchange query [] = ok []
  rerank decode exchange query (t ∷ ts) =
      and_then (response_of (codes "reranker request: ") (exchange query (t ∷ ts)))
        (results_in decode (length (t ∷ ts)))

  -- funcReranker hands the results on, one by one.
  abbrev pub copied : List (RerankResult F.Float) → List (RerankResult F.Float)
  copied [] = []
  copied (r ∷ rs) = record { index = r.index; result_score = r.result_score } ∷ copied rs

  abbrev pub copy_ok : Result (List (RerankResult F.Float)) → Result (List (RerankResult F.Float))
  copy_ok (err e) = err e
  copy_ok (ok items) = ok (copied items)

  unfoldable pub func_reranker :
      (Bytes → Result (List (RerankResult F.Float)))
      → (Text → List Text → Exchange)
      → Text
      → List Text
      → Result (List (RerankResult F.Float))
  unfolding rerank
  func_reranker decode exchange query texts = copy_ok (rerank decode exchange query texts)

-- Health
unfoldable pub rerank_health : Exchange → Option GoError
unfolding response_of
rerank_health x =
    status_fault (codes "reranker health") 1048576
      (response_of (codes "reranker health request: ") x)
