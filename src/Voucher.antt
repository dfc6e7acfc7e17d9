-- ===== src/Voucher.antt =====
-- pkg/handlers/cash_vouchar.go: cash vouchers and their workflow.
pub mod Table
pub mod Handlers
mod Workflow
mod Approval
mod Numbers
mod Validation
mod Tests
