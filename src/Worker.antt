-- ===== src/Worker.antt =====
-- internal/rag/worker.go: the ingestion worker. `Retry` decides about failures, `Process` runs one
-- job with its heartbeat, `Loop` starts the worker and polls the queue.
pub mod Retry
pub mod Loop
pub mod Life
pub mod Process
pub mod Lease
pub mod Attempts
mod Tests
