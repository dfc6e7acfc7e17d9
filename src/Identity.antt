-- ===== src/Identity.antt =====
-- pkg/identity: tenant keys, document keys, request ids and UUIDs.
pub mod Decimal
pub mod Keys
pub mod Uuid
mod Injective
mod Generated
mod Tests
