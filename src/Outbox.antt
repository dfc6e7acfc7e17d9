-- ===== src/Outbox.antt =====
-- pkg/outbox: the transactional outbox.
pub mod Table
pub mod Drain
mod Backoff
mod Selection
mod Outcome
mod Drained
mod Settled
mod Exclusion
mod Keys
mod Rules
mod Invariant
pub mod Append
pub mod Config
mod Tests
