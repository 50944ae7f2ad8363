-- ===== src/Pipeline.antt =====
-- internal/pipeline: the streaming transfer and the extraction of an archive.
pub mod Chunk
pub mod Extract
pub mod Archive
