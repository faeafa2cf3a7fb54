-- ===== src/Ingest.antt =====
-- internal/ingest: the endpoint cache and the capture handler.
pub mod Cache
pub mod Types
pub mod Replies
pub mod Handler
mod Tests
