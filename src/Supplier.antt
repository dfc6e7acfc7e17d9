-- ===== src/Supplier.antt =====
-- The supplier ledger: pkg/handlers/supplier_ledger.go.
pub mod Ledger
mod Balance
mod Tests
