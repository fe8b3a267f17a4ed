-- ===== src/Ledger.antt =====
-- internal/billing/service.go: prepaid accounts, reservations and their settlement.
pub mod State
pub mod Quote
pub mod Reserve
pub mod Posting
pub mod Reported
pub mod Settle
pub mod Release
pub mod Rebind
pub mod Credit
pub mod Statuses
pub mod Admission
pub mod Reconcile
pub mod Settlement
pub mod Lifecycle
pub mod Touched
pub mod Commits
pub mod Rebound
pub mod Runs
pub mod Credited
pub mod Keys
pub mod Duplicates
pub mod Links
pub mod Known
pub mod Limits
pub mod Retries
pub mod Expiry
pub mod Expired
pub mod Effects
pub mod Moves
pub mod Factors
pub mod Scenario
pub mod Rebinding
mod Tests
