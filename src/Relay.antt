-- ===== src/Relay.antt =====
-- The relaying of chat requests in internal/relay: the choice of an upstream channel, the attempts,
-- and what is billed of the answer.
pub mod Channels
pub mod Choice
pub mod Found
pub mod Errors
pub mod Health
pub mod Reports
pub mod Parts
pub mod Biller
pub mod Answers
pub mod Attempts
pub mod Kept
pub mod Paid
pub mod Chat
pub mod Untracked
pub mod Admitted
pub mod Tries
pub mod Ends
pub mod Books
pub mod Stream
pub mod Embeddings
pub mod Scenario
mod Tests
