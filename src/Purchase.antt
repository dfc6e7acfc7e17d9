-- ===== src/Purchase.antt =====
-- Purchase bills: pkg/handlers/purchase_bill.go.
pub mod Table
pub mod Request
pub mod Products
pub mod Bill
pub mod Handlers
mod Ledger
mod History
mod Runs
mod Created
mod Refusals
mod Saved
mod Tests
