-- ===== src/Core.antt =====
-- crates/guardian-core: the action model and the decision types that every other crate shares.
mod Json
mod Actions
mod Decisions
pub mod Wire
pub mod Ordering
unfoldable pub use Json.*
unfoldable pub use Actions.*
unfoldable pub use Decisions.*
