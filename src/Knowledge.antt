-- ===== src/Knowledge.antt =====
-- pkg/knowledge: documents, their ingestion into chunks, and retrieval.
pub mod Types
pub mod Chunker
pub mod Documents
pub mod Indexer
pub mod Pipeline
pub mod Parsers
pub mod Connector
mod Tests
pub mod Retrieval
