-- ===== src/Payments.antt =====
-- Top-ups of internal/payments/service.go: orders, their amounts and the callbacks of providers.
pub mod Amounts
pub mod Exact
pub mod Rates
pub mod Orders
pub mod Packages
pub mod Offers
pub mod Create
pub mod Rows
pub mod Callback
pub mod Settled
pub mod Guarded
pub mod Repeats
pub mod Again
pub mod Operations
pub mod Calls
mod Tests
pub mod Runs
pub mod Lives
pub mod Backed
