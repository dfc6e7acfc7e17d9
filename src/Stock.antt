-- ===== src/Stock.antt =====
-- pkg/handlers/stock.go: stock levels, the movement ledger and the enforcement modes.
pub mod Table
pub mod Movements
pub mod Rules
pub mod Ledger
mod Levels
mod Refusals
pub mod Conservation
pub mod Adjust
pub mod History
mod Replies
mod Tests
