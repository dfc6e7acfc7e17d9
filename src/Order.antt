-- ===== src/Order.antt =====
-- Orders: pkg/handlers/order.go.
pub mod Table
pub mod Handlers
mod Totals
mod Rows
mod Runs
mod Tests
