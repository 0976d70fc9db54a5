-- ===== src/Policy.antt =====
-- crates/guardian-policy: the deterministic policy engine.
pub mod Schema
pub mod Cel
pub mod Caps
pub mod Engine
pub mod Spec
pub mod Verdict
pub mod Pack
