-- ===== src/Policy/Cel.antt =====
-- The expression language of rule conditions (the crate `cel_interpreter`), as crates/guardian-policy
-- uses it: a program is compiled from text and executed over named variables.
use project_guardian.Common.{Bool, Text, Result}
use project_guardian.Core.{Members}

-- What an execution gives.
pub data Execution : Type 0 where
  boolean : Bool → Execution
  non_boolean : Execution
  failure : Execution

pub record Cel : Type 1 where
  pub Program : Type 0
  pub compile : Text → Result Program Text
  pub execute : Program → Members → Execution
