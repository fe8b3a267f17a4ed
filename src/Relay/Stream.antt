-- ===== src/Relay/Stream.antt =====
-- The relaying of streamed answers in internal/relay/advanced.go.
pub mod Events
pub mod Ends
pub mod Loop
pub mod Read
pub mod Sourced
pub mod Source
pub mod Fine
pub mod Billed
mod Tests
