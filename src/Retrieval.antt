-- ===== src/Retrieval.antt =====
-- internal/rag/service.go: what happens to the hits of a query. `Hit` has the hits, the counters
-- and the interface to floating point, `Diverse` the selection by documents, `Fuse` the fusion of
-- two searches, `Rerank` the use of the reranker, `Context` the context of a generation, `Prompts`
-- the prompts, `Query` the queries.
pub mod Hit
pub mod Diverse
pub mod Fuse
pub mod Rerank
pub mod Context
pub mod Prompts
pub mod Query
mod Tests
