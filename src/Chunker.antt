-- ===== src/Chunker.antt =====
-- internal/rag/chunker.go: texts to blocks, and blocks to chunks. `Split` cuts a text into
-- overlapping windows, `Plain` and `Markdown` find the blocks of a file, `Blocks` joins the two.
pub mod Split
pub mod Windows
pub mod Plain
pub mod Markdown
pub mod Blocks
mod Tests
