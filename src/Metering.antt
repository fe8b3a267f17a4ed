-- ===== src/Metering.antt =====
-- internal/billing/metering.go: usage meters, price components and charges.
--
-- A decimal string is represented by what its trimmed text denotes (`Decimal`). Quantities and
-- prices are whole numbers of 10^-30, the finest unit that `validMeteredDecimal` lets through.
pub mod Defs
pub mod Usage
pub mod Disjoint
pub mod Repeated
pub mod Effective
pub mod Tiers
pub mod Graduated
pub mod Select
pub mod Charge
pub mod Billed
pub mod Modes
mod Tests
pub mod Ancestors
