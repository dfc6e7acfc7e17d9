-- ===== src/Sale.antt =====
-- pkg/handlers/sale.go and bill_sale.go: sales, from the request to the commit.
pub mod Table
pub mod Request
pub mod Event
pub mod Step
pub mod Write
pub mod Complete
pub mod Handler
mod Rules
mod Identified
mod Answers
mod Opened
mod Replay
mod Finish
mod Paid
mod Record
mod Written
mod Retry
pub mod Delete
mod Deleted
mod Tests
