-- ===== src/Search/Tests.antt =====
-- The searches and the queries on a library of two chunks of one document, with numbers for scores.
use dong_rag.Web.{post}
use dong_rag.Web.Chat.{
  Event, answered, events, query_handler, stream_handler, Reads, stream_handler-Reads,
}
use dong_rag.Base.{
  ℕ, ◌+◌, ◌-◌, ◌/◌, ◌≡◌, refl, inl, true, false, none, some, List, [], ◌∷◌, ◌++◌, arith, Permᴰ, ltb,
  length, pos, perm_refl, Result, ok, err, and_then, Text, codes, text_eq,
}
use dong_rag.Store.Library.{Library, chunks_clash}
use dong_rag.Store.Tables.{Document, Chunk}
use dong_rag.Store.Library.Sound.{IsSound}
use dong_rag.Search.{Ranking, search_vector, search_lexical, search_hybrid}
use dong_rag.Search.Hybrid.{search_hybrid-fuse_rrf}
use dong_rag.Retrieval.Hit.{Floats, Hit}
use dong_rag.Retrieval.Fuse.{fuse_rrf}
use dong_rag.Retrieval.Fuse.Order.{fuse_rrf_deterministic}
use dong_rag.Retrieval.Rerank.{Reranker}
use dong_rag.Retrieval.Query.{Streamed, QueryService, Meets, QueryResult, query, query_stream}
use dong_rag.Retrieval.Query.Grounded.{Grounds, query-Grounds}
use dong_rag.Retrieval.Query.Fallback.{fallen_back, query_falls_back}
use dong_rag.Retrieval.Query.Spoken.{SpokenFor, query_stream-SpokenFor}

pub ltb_asym : (a b : ℕ) → ltb a b ≡ true → ltb b a ≡ false
ltb_asym a b h = ground arith

pub not-ltb_trans : (a b c : ℕ) → ltb a b ≡ false → ltb b c ≡ false → ltb a c ≡ false
not-ltb_trans a b c h k = ground arith

-- Floating point by natural numbers, with 1000/n for 1/n.
abbrev pub thousandths : Floats
thousandths = record {
  Float = ℕ;
  lt = ltb;
  nought = 0;
  reciprocal = λ n. 1000 / n;
  plus = λ a b. a + b;
  lt_asym = λ a b h. ltb_asym a b h;
  not-lt_trans = λ a b c h k. not-ltb_trans a b c h k;
}

-- The distance of embeddings of one number, and the length of a content for its relevance.
abbrev gap : List ℕ → List ℕ → ℕ
gap (x ∷ xs) (y ∷ ys) = (x - y) + (y - x)
gap _ _ = 0

abbrev ranking : Ranking thousandths
ranking = record {
  distance = gap;
  complement = λ d. 9 - d;
  relevance = λ q t. length t;
  minus = λ a b. a - b;
  over = λ a b. a;
  half = λ a. a / 2;
}

abbrev manual : Document
manual = record {
  id = 1 ∷ [];
  name = codes "m";
  content_type = [];
  size_bytes = 3;
  checksum = [];
  created_at = 0;
}

abbrev piece : ℕ → List ℕ → ℕ → Chunk ℕ
piece i content e = record {
  id = i ∷ [];
  document_id = 1 ∷ [];
  ordinal = i;
  content = content;
  metadata = [];
  embedding = e ∷ [];
}

abbrev library : Library ℕ
library = record {
  documents = manual ∷ [];
  chunks = piece 1 (codes "ab") 4 ∷ piece 2 (codes "abc") 7 ∷ [];
}

library-IsSound : IsSound library
unfolding chunks_clash text_eq
library-IsSound = record {
  documents_apart = (refl, tt);
  chunks_apart = (refl, (refl, tt));
  documents_exist = (refl, (refl, tt));
}

-- The map is visited from its end on.
abbrev backwards : List (Hit ℕ) → List (Hit ℕ)
backwards [] = []
backwards (h ∷ hs) = backwards hs ++ (h ∷ [])

snoc-perm : (h : Hit ℕ) (hs : List (Hit ℕ)) → Permᴰ (h ∷ hs) (hs ++ (h ∷ []))
snoc-perm h [] = perm_refl (h ∷ [])
snoc-perm h (k ∷ hs) = Permᴰ.trans (Permᴰ.swap refl refl) (Permᴰ.cons refl (snoc-perm h hs))

backwards-perm : (hs : List (Hit ℕ)) → Permᴰ hs (backwards hs)
backwards-perm [] = perm_refl []
backwards-perm (h ∷ hs) =
    Permᴰ.trans (Permᴰ.cons refl (backwards-perm hs)) (snoc-perm h (backwards hs))

abbrev found : List (Hit ℕ)
found = search_vector thousandths ranking (5 ∷ []) 2 2 library

abbrev matched : List (Hit ℕ)
matched = search_lexical thousandths ranking (codes "q") 1 1 library

fuse_rrf_deterministic_example :
    fuse_rrf thousandths (λ hs. hs) found matched 2 ≡ fuse_rrf thousandths backwards found matched 2
fuse_rrf_deterministic_example =
    fuse_rrf_deterministic thousandths (λ hs. hs) backwards found matched 2 perm_refl backwards-perm

search_hybrid-fuse_rrf_example :
    search_hybrid thousandths ranking (codes "q") (5 ∷ []) 2 2 library
    ≡ fuse_rrf thousandths backwards found
        (search_lexical thousandths ranking (codes "q") 2 2 library)
        2
search_hybrid-fuse_rrf_example =
    search_hybrid-fuse_rrf thousandths ranking library backwards (codes "q") (5 ∷ []) 2
      backwards-perm (λ a. (omega arith, omega arith)) library-IsSound

abbrev says : Text → Text → Result Text
says a b = ok (codes "yes [1]")

abbrev says_in_tokens : Text → Text → Streamed
says_in_tokens a b = record { tokens = codes "yes" ∷ codes " [1]" ∷ []; stream_error = none }

abbrev service : QueryService thousandths
service = record {
  ranking = ranking;
  embed = λ ts. ok ((5 ∷ []) ∷ []);
  complete = says;
  stream = some says_in_tokens;
  reranker = none;
  embedding_dim = pos 1;
  candidate_k = 2;
  rerank_max_per_doc = pos 2;
  to_lower = λ t. t;
}

abbrev meets : Meets thousandths
meets = record {
  vector_fault = none;
  lexical_fault = none;
  visit = backwards;
  retrieval_time = 3;
  total_time = 8;
}

abbrev silent : Reranker ℕ
silent t texts = ok []

query_falls_back_example :
    query thousandths (record service { reranker = some silent }) meets library (codes "q") (pos 2)
    ≡ and_then
        (query thousandths (record service { reranker = none }) meets library (codes "q") (pos 2))
        (λ r. ok (fallen_back thousandths r))
query_falls_back_example =
    query_falls_back thousandths service meets library (codes "q") (pos 2) silent (λ t hits. refl)

abbrev unanswered : QueryResult ℕ
unanswered = record {
  answer = codes "yes [1]";
  citations = [];
  retrieval_ms = 3;
  total_ms = 8;
  retrieval_mode = codes "hybrid";
  candidates = 2;
  reranked = false;
  rerank_fallback = false;
}

queries_none : query thousandths service meets library (codes "q") (pos 0) ≡ ok unanswered
unfolding query
queries_none = refl

abbrev or_unanswered : Result (QueryResult ℕ) → QueryResult ℕ
or_unanswered (ok r) = r
or_unanswered (err e) = unanswered

abbrev two_hits_answer : QueryResult ℕ
two_hits_answer = or_unanswered (query thousandths service meets library (codes "q") (pos 2))

queries_two : query thousandths service meets library (codes "q") (pos 2) ≡ ok two_hits_answer
unfolding query
queries_two = refl

two_citations : length two_hits_answer.citations ≡ 2
unfolding query
two_citations = refl

query-Grounds_example :
    (context : Text) × Grounds thousandths service (codes "q") two_hits_answer context
query-Grounds_example =
    query-Grounds thousandths service meets library (codes "q") (pos 2) {r = two_hits_answer}
      queries_two

queries_two_posted :
    query_handler thousandths service meets library post (ok (codes "q", pos 2))
    ≡ answered two_hits_answer
unfolding query_handler
queries_two_posted = refl

stream_handler-Reads_example :
    (es : List (Event ℕ)) × (stream_handler thousandths service meets library false post
        (ok (codes "q", pos 2))
      ≡ events es)
    × Reads thousandths two_hits_answer es
stream_handler-Reads_example =
    stream_handler-Reads thousandths service meets library false (codes "q") (pos 2) says_in_tokens
      two_hits_answer refl (λ a b. inl (refl, refl)) queries_two_posted

streams_two :
    (query_stream thousandths service meets library (codes "q") (pos 2)).1 ≡ ok two_hits_answer
unfolding query_stream query
streams_two = refl

query_stream-SpokenFor_example :
    (context : Text) × SpokenFor thousandths service says_in_tokens
      (codes "q")
      two_hits_answer
      (query_stream thousandths service meets library (codes "q") (pos 2)).0
      context
query_stream-SpokenFor_example =
    query_stream-SpokenFor thousandths service meets library (codes "q") (pos 2) says_in_tokens refl
      streams_two
