-- ===== src/Evaluation/Run.antt =====
-- internal/evaluation/evaluation.go: Run and retrieve, with recallAtK, ndcgAtK and average. The
-- models, the search and the measured times are the parameter `Bench`.
use dong_rag.Base.{
  ℕ, zero, suc, ◌+◌, min, Bool, true, false, ◌&&◌, ◌||◌, not, Option, none, some, List, [], ◌∷◌,
  map, ◌==◌, if◌then◌else◌, length, take, any, ℤ, pos, pos_part, ltb_ℤ, ◌+ℤ◌, GoError, plain_error,
  Result, ok, err, and_then, Text, codes, text_eq,
}
use dong_rag.Retrieval.Hit.{Hit}
use dong_rag.Retrieval.Rerank.{Reranker, rerank_hits}
use dong_rag.Search.Dispatch.{SearchMode, lexical_mode, hybrid_mode, rerank_mode, other_mode}
use dong_rag.Evaluation.Reports.{Numbers}
pub mod Loop
pub mod Total

pub record Case : Type 0 where
  pub id : Text
  pub question : Text
  pub relevant_documents : List Text
  pub difficulty : Text
  pub query_type : Text
  pub reference_answer : Text
  pub required_citations : List Text
  pub should_refuse : Bool
  pub source_type : Text

pub record Bench (N : Numbers) : Type 0 where
  pub embed : List Text → Result (List (List N.Float))
  pub search_hits : Text → List N.Float → SearchMode → ℤ → ℤ → Result (List (Hit N.Float))
  pub reranker : Option (Reranker N.Float)
  -- `strings.ToLower(filepath.Base(strings.TrimSpace(name)))`
  pub normalize_name : Text → Text
  pub over : N.Float → N.Float → N.Float
  -- `1 / math.Log2(float64(n))`
  pub discount : ℕ → N.Float
  pub latency : Case → ℤ

-- The keys of a map that is filled with the names.
unfoldable pub distinct : List Text → List Text
unfolding text_eq
distinct [] = []
distinct (t ∷ ts) = let rest = distinct ts in if any (text_eq t) rest then rest else t ∷ rest

abbrev pub sum_of : List ℤ → ℤ
sum_of [] = pos 0
sum_of (x ∷ xs) = x +ℤ sum_of xs

abbrev pub searched_mode : SearchMode → SearchMode
searched_mode rerank_mode = hybrid_mode
searched_mode mode = mode

abbrev pub is_lexical : SearchMode → Bool
is_lexical lexical_mode = true
is_lexical _ = false

abbrev pub is_rerank : SearchMode → Bool
is_rerank rerank_mode = true
is_rerank _ = false

abbrev pub is_other : SearchMode → Bool
is_other (other_mode t) = true
is_other _ = false

module _ {N : Numbers} (B : Bench N) where
  abbrev pub ratio : ℕ → ℕ → N.Float
  ratio a b = B.over (N.from_int (pos a)) (N.from_int (pos b))

  abbrev pub name_of : Hit N.Float → Text
  name_of h = B.normalize_name h.document_name

  abbrev pub wanted_names : List Text → List Text
  wanted_names relevant = distinct (map B.normalize_name relevant)

  -- The names among the wanted ones that occur, each once.
  unfoldable pub see : List Text → List Text → List (Hit N.Float) → List Text
  unfolding text_eq
  see wanted seen [] = seen
  see wanted seen (h ∷ hs) =
      see wanted
        (if any (text_eq (name_of h)) wanted && not (any (text_eq (name_of h)) seen)
          then name_of h ∷ seen
          else seen)
        hs

  abbrev pub is_unmeasured : List Text → ℤ → Bool
  is_unmeasured wanted k = length wanted == 0 || ltb_ℤ k (pos 1)

  unfoldable pub recall_at_k : List (Hit N.Float) → List Text → ℤ → N.Float
  unfolding see distinct
  recall_at_k hits relevant k =
      let wanted = wanted_names relevant in
      if is_unmeasured wanted k
      then N.nought
      else ratio (length (see wanted [] (take (pos_part k) hits))) (length wanted)

  unfoldable pub gain : ℕ → List Text → List Text → N.Float → List (Hit N.Float) → N.Float
  unfolding text_eq
  gain i wanted seen dcg [] = dcg
  gain i wanted seen dcg (h ∷ hs) =
      let counts = any (text_eq (name_of h)) wanted && not (any (text_eq (name_of h)) seen) in
      gain (suc i) wanted (if counts then name_of h ∷ seen else seen)
        (if counts then N.plus dcg (B.discount (i + 2)) else dcg) hs

  unfoldable pub ideal_gain : ℕ → ℕ → N.Float → N.Float
  ideal_gain zero i dcg = dcg
  ideal_gain (suc n) i dcg = ideal_gain n (suc i) (N.plus dcg (B.discount (i + 2)))

  unfoldable pub ndcg_at_k : List (Hit N.Float) → List Text → ℤ → N.Float
  unfolding gain ideal_gain distinct
  ndcg_at_k hits relevant k =
      let wanted = wanted_names relevant in
      if is_unmeasured wanted k
      then N.nought
      else B.over (gain 0 wanted [] N.nought (take (pos_part k) hits))
          (ideal_gain (min (length wanted) (pos_part k)) 0 N.nought)

  unfoldable pub average : List ℤ → N.Float
  average [] = N.nought
  average (x ∷ xs) = B.over (N.from_int (sum_of (x ∷ xs))) (N.from_int (pos (length (x ∷ xs))))

  abbrev pub bad_embedding : GoError
  bad_embedding = plain_error (codes "invalid embedding response")

  abbrev pub first_embedding : List (List N.Float) → Result (List N.Float)
  first_embedding ((x ∷ e) ∷ []) = ok (x ∷ e)
  first_embedding _ = err bad_embedding

  -- A lexical search needs no embedding.
  unfoldable pub embedding_for : SearchMode → Text → Result (List N.Float)
  embedding_for mode question =
      if is_lexical (searched_mode mode)
      then ok []
      else and_then (B.embed (question ∷ [])) first_embedding

  abbrev pub search_top_k : SearchMode → ℤ → ℤ → ℤ
  search_top_k mode top_k candidate_k = if is_rerank mode then candidate_k else top_k

  abbrev pub no_reranker : GoError
  no_reranker = plain_error (codes "reranker is not configured")

  abbrev pub hits_or_error : Result (List (Hit N.Float)) → List (Hit N.Float) × Option GoError
  hits_or_error (ok hits) = (hits, none)
  hits_or_error (err e) = ([], some e)

  unfoldable pub rerank_found :
      Bool
      → Option (Reranker N.Float)
      → Text
      → ℤ
      → List (Hit N.Float)
      → List (Hit N.Float) × Option GoError
  unfolding rerank_hits
  rerank_found false r question top_k found = (found, none)
  rerank_found true none question top_k found = (found, some no_reranker)
  rerank_found true (some reranker) question top_k found =
      hits_or_error (rerank_hits reranker question found top_k (pos 2))

  unfoldable pub search_found :
      SearchMode → Text → ℤ → Result (List (Hit N.Float)) → List (Hit N.Float) × Option GoError
  unfolding rerank_found
  search_found mode question top_k (err e) = ([], some e)
  search_found mode question top_k (ok found) =
      rerank_found (is_rerank mode) B.reranker question top_k found

  unfoldable pub found_with :
      SearchMode → Text → ℤ → ℤ → Result (List N.Float) → List (Hit N.Float) × Option GoError
  unfolding search_found
  found_with mode question top_k candidate_k (err e) = ([], some e)
  found_with mode question top_k candidate_k (ok embedding) = search_found mode question top_k (
      B.search_hits question embedding (searched_mode mode) (search_top_k mode top_k candidate_k)
        candidate_k)

  -- `found` and `err` of one case of Run.
  unfoldable pub found_for : SearchMode → Text → ℤ → ℤ → List (Hit N.Float) × Option GoError
  unfolding embedding_for found_with
  found_for mode question top_k candidate_k =
      found_with mode question top_k candidate_k (embedding_for mode question)
