-- ===== src/Vault.antt =====
-- crates/guardian-broker/src/vault.rs: the data vault, which replaces sensitive values by opaque tokens.
pub mod Spans
pub mod Luhn
pub mod Store
pub mod Json
