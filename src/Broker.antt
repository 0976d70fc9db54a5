-- ===== src/Broker.antt =====
-- crates/guardian-broker: credentials that the agent never holds.
pub mod Capability
pub mod Store
pub mod Credential
