-- ===== src/Ledger/Reconcile.antt =====
-- Double-entry reconciliation: what a prepaid account holds, together with what its open
-- reservations set aside, is what its ledger lines say.
pub mod Books
pub mod Holds
pub mod Closes
pub mod Charges
pub mod Settlements
pub mod Credits
pub mod Rebinds
pub mod Runs
