-- ===== src/Lib.antt =====
-- MiniRAG: a service that takes documents in through a durable queue, cuts them into chunks, and
-- answers questions from the chunks that a search finds.
--
-- The parts and the files that model them:
-- * internal/store/store.go keeps the documents and the queue in PostgreSQL. Store.Tables has the
--   rows, Store.Jobs one function for each statement on `ingestion_jobs` (CreateIngestionJob,
--   RecoverExpiredIngestionJobs, ClaimNextIngestionJob, RenewIngestionJobLease,
--   CompleteIngestionJob, FailIngestionJob, ReleaseIngestionJob, FindActiveReindexJob,
--   GetIngestionJob, QueueState, and the part of DeleteDocument that sets `document_id` to NULL),
--   Store.Queue the machine that runs them one after the other, and its modules the theorems.
--   Store.Library has the statements on `documents` and `chunks` (CreateDocument,
--   ReplaceDocumentChunks, DeleteDocument, FindDocumentByChecksum) with the constraints of the
--   schema and the transactions, Store.Library.Listing ListDocuments, ListDocumentChunks and
--   GetDocumentSource, Store.Limits normalizeSearchLimits.
-- * internal/rag/worker.go claims jobs from the queue, indexes the document, renews the lease
--   meanwhile and reports the outcome. Worker.Retry has the settings and the classification of
--   errors, Worker.Process the functions process, index, heartbeat and release over the table,
--   Worker.Lease and Worker.Attempts the theorems on a worker among others. Worker.Loop has loop, a
--   turn at a time, Worker.Life Start, Wait and Ready.
-- * internal/rag/chunker.go is what indexing cuts the text with: Chunker.Split has chunkText,
--   Chunker.Plain and Chunker.Markdown the parsers, Chunker.Blocks ChunkBlocks.
-- * internal/rag/service.go indexes documents: Indexing has IndexDocument, ReindexDocument,
--   ReindexStoredChunks and rebuildStoredChunks over the tables of documents and chunks,
--   Indexing.Chunks buildChunks, embedTexts and extractBlocks, the other modules the theorems.
-- * internal/store/store.go's searches: Search has searchVector, searchLexical, searchHybrid and scanHits
--   over the tables, Search.Dispatch searchWeighted and Search.
-- * internal/rag/service.go answers questions: Retrieval.Fuse has fuseRRF, Retrieval.Query
--   prepareQuery, Query and QueryStream, which put together the search and what follows.
-- * internal/rag/service.go prepares the hits of a search: Retrieval.Diverse has selectDiverse,
--   Retrieval.Rerank rerankHits, Retrieval.Context PrepareGenerationContext with contextBlock,
--   metadataHeading and generationScore, Retrieval.Prompts GenerationPrompts.
-- * internal/evaluation/evaluation.go compares benchmark reports with a baseline and updates it:
--   Evaluation.Reports has the reports and metrics, Evaluation.Gate CompareBaseline,
--   MergeBaseline, CompactReports and ValidateBaseline, Evaluation.Merge and Evaluation.Ratchet the
--   theorems on them, Evaluation.Ranks percentile95 and firstRelevantRank. Evaluation.Run has Run with
--   recallAtK, ndcgAtK and retrieve, Evaluation.Rag RunRAG, Evaluation.Dataset the checks of
--   LoadDataset and ValidateRAGDataset. Evaluation.Judge has RuleJudge, with textTokens in
--   Judge.Tokens and citedDocuments in Judge.Citations.
-- * internal/web/server.go serves requests: Web has documents with documentReindexID, and job, over the
--   tables of the store, Web.Chat query and stream, Web.Ready ready.
-- * internal/provider are the clients of the models: Provider has HTTPError and what the clients share,
--   Provider.Ollama, Provider.Bailian and Provider.Rerank the clients, the last with funcReranker of
--   cmd/minirag/main.go, and the other modules the theorems on them with the worker and the service.
-- * cmd/minirag/eval.go runs an evaluation and compares it with a baseline: Command has
--   runEvaluation, Command.Parts its flags, its result, evaluationModes and LoadBaseline,
--   Command.Saves and Command.Gates the theorems.
-- * internal/config/config.go reads the settings: Config has Load, ValidateChat, env, envInt and
--   envBool over the environment as a function.
-- Base has what they share.
--
-- State and time: a table is the list of its rows, and a statement a function on it with the
-- database's clock, the ids of the documents that stand there, and possibly an error as its `Call`.
-- PostgreSQL runs each statement on `ingestion_jobs` atomically, so that an interleaving of workers
-- and servers is a sequence of statements; the rows that others have locked when a claim runs are a
-- parameter of the claim. The deletion of a document is one of the statements, since it sets the
-- `document_id` of its jobs to NULL. The embedding, the chat model, the reranker and, for the
-- worker, the indexing service are parameters; so is the order in which Go visits a map, where the
-- code ranges over one. Floating point is a parameter too, without NaN.
--
-- Bounds and fuel: the loop of chunkText runs on as much fuel as the text has runes, and the loop of
-- ChunkBlocks on as much as there are blocks; both answer `none` without fuel, and the theorems on
-- them show that they answer. Integers are unbounded, since the lengths and counters of the program
-- stay far below 2^63, but for the upload limit, which wraps around as in the source. Texts
-- are lists of code points.
--
-- Not modelled: what PostgreSQL computes of one chunk (its distance from an embedding, its
-- relevance to a query; the index over the embeddings is taken to be exact, and ids to be compared
-- by code points), the files and flags of the evaluation, what net/http, encoding/json and
-- bufio.Scanner do (an exchange with a server, a decoded body and the lines of a stream are
-- parameters), metrics, traces and logs, and main and httpServer, which wire the parts together.
pub mod Base
pub mod Store
pub mod Worker
pub mod Chunker
pub mod Indexing
pub mod Search
pub mod Retrieval
pub mod Evaluation
pub mod Web
pub mod Config
pub mod Provider
pub mod Command
