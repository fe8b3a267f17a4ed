-- ===== src/Relay/Embeddings.antt =====
-- The relaying of embeddings in internal/relay/advanced.go.
pub mod Defs
pub mod Billed
mod Tests
