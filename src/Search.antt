-- ===== src/Search.antt =====
-- internal/store/store.go: Search with its four statements, searchVector, searchLexical,
-- searchWeighted and searchHybrid, and scanHits. What PostgreSQL computes of one chunk, its
-- distance from an embedding and its relevance to a query, is the parameter `Ranking`.
use dong_rag.Store.Library.Listing.{decode_metadata}
use dong_rag.Base.{
  ℕ, suc, ◌+◌, Bool, ◌||◌, not, Option, none, some, List, [], ◌∷◌, ◌++◌, map, if◌then◌else◌, take,
  any, keep, find_where, Text, text_eq, text_lt,
}
use dong_rag.Store.Tables.{Document, Chunk}
use dong_rag.Store.Library.{Library, is_document_of}
use dong_rag.Retrieval.Hit.{Floats, Hit}
pub mod Dispatch
pub mod Rows
pub mod Numbered
pub mod Sides
pub mod Hybrid
pub mod Tests

pub record Ranking (F : Floats) : Type 0 where
  -- `c.embedding <=> $1`
  pub distance : List F.Float → List F.Float → F.Float
  -- `1 - x`
  pub complement : F.Float → F.Float
  -- GREATEST(ts_rank_cd(c.search_vector, ts_query), word_similarity(lower($2), lower(c.content)))
  pub relevance : Text → Text → F.Float
  pub minus : F.Float → F.Float → F.Float
  pub over : F.Float → F.Float → F.Float
  -- `x / 2`
  pub half : F.Float → F.Float

-- ORDER BY
unfoldable pub place_row : {A : Type 0} → (A → A → Bool) → A → List A → List A
place_row p a [] = a ∷ []
place_row p a (x ∷ xs) = let rest = place_row p a xs in if p x a then x ∷ rest else a ∷ x ∷ xs

unfoldable pub order_by : {A : Type 0} → (A → A → Bool) → List A → List A
unfolding place_row
order_by p [] = []
order_by p (x ∷ xs) = place_row p x (order_by p xs)

-- A row of `semantic` or of `lexical`: a chunk with its ROW_NUMBER and its score.
pub record Ranked (Float : Type 0) : Type 0 where
  pub rank : ℕ
  pub value : Float
  pub row : Chunk Float

-- A row of the FULL OUTER JOIN.
pub record Joined (Float : Type 0) : Type 0 where
  pub chunk : Chunk Float
  pub in_semantic : Option (Ranked Float)
  pub in_lexical : Option (Ranked Float)

abbrev pub is_row_of : {Float : Type 0} → Text → Ranked Float → Bool
is_row_of id r = text_eq r.row.id id

-- FULL OUTER JOIN … ON s.id = l.id
unfoldable pub full_join :
    {Float : Type 0} → List (Ranked Float) → List (Ranked Float) → List (Joined Float)
unfolding find_where keep
full_join ss ls =
    map
      (λ s. record {
        chunk = s.row;
        in_semantic = some s;
        in_lexical = find_where (is_row_of s.row.id) ls;
      })
      ss
    ++ map (λ l. record { chunk = l.row; in_semantic = none; in_lexical = some l })
        (keep (λ l. not (any (is_row_of l.row.id) ss)) ls)

abbrev pub rank_or_zero : {Float : Type 0} → Option (Ranked Float) → ℕ
rank_or_zero none = 0
rank_or_zero (some r) = r.rank

module _ (F : Floats) (R : Ranking F) where
  -- ROW_NUMBER() OVER (…), in the order of the rows.
  unfoldable pub number_rows :
      (Chunk F.Float → F.Float) → ℕ → List (Chunk F.Float) → List (Ranked F.Float)
  number_rows score i [] = []
  number_rows score i (c ∷ cs) =
      record { rank = i + 1; value = score c; row = c } ∷ number_rows score (suc i) cs

  abbrev pub is_closer : List F.Float → Chunk F.Float → Chunk F.Float → Bool
  is_closer embedding a b =
      let x = R.distance a.embedding embedding in
      let y = R.distance b.embedding embedding in
      if F.lt x y || F.lt y x then F.lt x y else text_lt a.id b.id

  abbrev pub vector_score_of : List F.Float → Chunk F.Float → F.Float
  vector_score_of embedding c = R.complement (R.distance c.embedding embedding)

  unfoldable pub semantic : List F.Float → ℕ → Library F.Float → List (Ranked F.Float)
  unfolding number_rows order_by text_lt
  semantic embedding candidate_k l =
      number_rows (vector_score_of embedding) 0
        (take candidate_k (order_by (is_closer embedding) l.chunks))

  abbrev pub lexical_score_of : Text → Chunk F.Float → F.Float
  lexical_score_of query c = R.relevance query c.content

  abbrev pub is_more_relevant : Text → Chunk F.Float → Chunk F.Float → Bool
  is_more_relevant query a b =
      let x = lexical_score_of query a in
      let y = lexical_score_of query b in
      if F.lt x y || F.lt y x then F.lt y x else text_lt a.id b.id

  abbrev pub is_relevant : Text → Chunk F.Float → Bool
  is_relevant query c = F.lt F.nought (lexical_score_of query c)

  unfoldable pub lexical : Text → ℕ → Library F.Float → List (Ranked F.Float)
  unfolding number_rows order_by keep text_lt
  lexical query candidate_k l =
      number_rows (lexical_score_of query) 0
        (take candidate_k (order_by (is_more_relevant query) (keep (is_relevant query) l.chunks)))

  -- JOIN documents d ON d.id = …: no row for a chunk of no document.
  abbrev pub with_document : Library F.Float → Text → (Document → Hit F.Float) → List (Hit F.Float)
  with_document l id f = elim (find_where (is_document_of id) l.documents) [
    | none ↦ []
    | some d ↦ f d ∷ []
  ]

  -- `Scan` and `json.Unmarshal` of a row that has no ranks yet.
  unfoldable pub scan_hit : Chunk F.Float → Document → Hit F.Float
  scan_hit c d = record {
    id = c.id;
    document_id = c.document_id;
    document_name = d.name;
    content = c.content;
    metadata = decode_metadata c.metadata;
    score = F.nought;
    vector_rank = 0;
    vector_score = F.nought;
    lexical_rank = 0;
    lexical_score = F.nought;
    rrf_score = F.nought;
    rerank_rank = 0;
    rerank_score = F.nought;
    final_rank = 0;
  }

  abbrev pub vector_hit : Ranked F.Float → Document → Hit F.Float
  vector_hit r d = record (scan_hit r.row d) {
    score = r.value;
    vector_rank = r.rank;
    vector_score = r.value;
  }

  abbrev pub lexical_hit : Ranked F.Float → Document → Hit F.Float
  lexical_hit r d = record (scan_hit r.row d) {
    score = r.value;
    lexical_rank = r.rank;
    lexical_score = r.value;
  }

  unfoldable pub join_rows :
      (Ranked F.Float → Document → Hit F.Float)
      → Library F.Float
      → List (Ranked F.Float)
      → List (Hit F.Float)
  unfolding scan_hit find_where
  join_rows f l [] = []
  join_rows f l (r ∷ rs) = with_document l r.row.document_id (f r) ++ join_rows f l rs

  unfoldable pub search_vector : List F.Float → ℕ → ℕ → Library F.Float → List (Hit F.Float)
  unfolding semantic join_rows
  search_vector embedding top_k candidate_k l =
      take top_k (join_rows vector_hit l (semantic embedding candidate_k l))

  unfoldable pub search_lexical : Text → ℕ → ℕ → Library F.Float → List (Hit F.Float)
  unfolding lexical join_rows
  search_lexical query top_k candidate_k l =
      take top_k (join_rows lexical_hit l (lexical query candidate_k l))

  abbrev pub value_or_nought : Option (Ranked F.Float) → F.Float
  value_or_nought none = F.nought
  value_or_nought (some r) = r.value

  -- COALESCE(1.0 / (60 + rank), 0)
  abbrev pub share_or_nought : Option (Ranked F.Float) → F.Float
  share_or_nought none = F.nought
  share_or_nought (some r) = F.reciprocal (60 + r.rank)

  abbrev pub joined_hit : Joined F.Float → Document → Hit F.Float
  joined_hit j d = record (scan_hit j.chunk d) {
    vector_rank = rank_or_zero j.in_semantic;
    vector_score = value_or_nought j.in_semantic;
    lexical_rank = rank_or_zero j.in_lexical;
    lexical_score = value_or_nought j.in_lexical;
  }

  abbrev pub hybrid_hit : Joined F.Float → Document → Hit F.Float
  hybrid_hit j d =
      let rrf = F.plus (share_or_nought j.in_semantic) (share_or_nought j.in_lexical) in
      record (joined_hit j d) { score = rrf; rrf_score = rrf }

  unfoldable pub join_both :
      (Joined F.Float → Document → Hit F.Float)
      → Library F.Float
      → List (Joined F.Float)
      → List (Hit F.Float)
  unfolding scan_hit find_where
  join_both f l [] = []
  join_both f l (j ∷ js) = with_document l j.chunk.document_id (f j) ++ join_both f l js

  abbrev pub greatest : F.Float → F.Float → F.Float
  greatest x y = if F.lt x y then y else x

  -- ORDER BY c.rrf_score DESC, GREATEST(c.vector_score, c.lexical_score) DESC, c.id
  unfoldable pub is_ahead : (Hit F.Float → F.Float) → Hit F.Float → Hit F.Float → Bool
  unfolding text_lt
  is_ahead key a b =
      let x = greatest a.vector_score a.lexical_score in
      let y = greatest b.vector_score b.lexical_score in
      if F.lt (key a) (key b) || F.lt (key b) (key a)
      then F.lt (key b) (key a)
      else if F.lt x y || F.lt y x
      then F.lt y x
      else text_lt a.id b.id

  unfoldable pub search_hybrid : Text → List F.Float → ℕ → ℕ → Library F.Float → List (Hit F.Float)
  unfolding semantic lexical full_join join_both is_ahead order_by
  search_hybrid query embedding top_k candidate_k l = take top_k (
      order_by (is_ahead (λ h. h.rrf_score)) (
        join_both hybrid_hit l
          (full_join (semantic embedding candidate_k l) (lexical query candidate_k l))))
