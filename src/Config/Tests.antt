-- ===== src/Config/Tests.antt =====
-- Load at environments that set some of the variables.
use dong_rag.Base.{
  ◌*◌, ◌≡◌, refl, ◌↔◌, none, [], arith, if◌then◌else◌, pos, codes, text_eq, trim_space,
}
use dong_rag.Config.{Environment, env_int, load}
use dong_rag.Config.Reads.{AreUsable, load-reads}

abbrev small_chunks : Environment
small_chunks key = if text_eq key (codes "CHUNK_SIZE") then codes " 300 " else []

small_chunks_size : (load small_chunks).0.chunk_size ≡ pos 300
unfolding load env_int trim_space text_eq
small_chunks_size = refl

abbrev numbers : Environment
numbers key =
    if text_eq key (codes "EMBEDDING_DIM")
    then codes "768"
    else if text_eq key (codes "CHUNK_SIZE")
    then codes "300"
    else if text_eq key (codes "CHUNK_OVERLAP")
    then codes "20"
    else codes "7"

load-reads_example :
    ((load numbers).0.embedding_dim ≡ pos 768)
    × ((load numbers).0.chunk_size ≡ pos 300)
    × ((load numbers).0.chunk_overlap ≡ pos 20)
    × ((load numbers).0.retrieval_candidate_k ≡ pos 7)
    × ((load numbers).0.rerank_max_per_doc ≡ pos 7)
    × ((load numbers).0.rerank_timeout_ms ≡ pos 7)
    × ((load numbers).0.max_upload_bytes ≡ pos (7 * 1048576))
    × (((load numbers).1 ≡ none) ↔ AreUsable 768 300 20 7 7 7)
unfolding text_eq
load-reads_example =
    load-reads numbers 768 300 20 7 7 7 7 (refl, omega arith) (refl, omega arith)
      (refl, omega arith) (refl, omega arith) (refl, omega arith) (refl, omega arith)
      (refl, omega arith) (omega arith)
