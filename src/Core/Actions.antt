-- ===== src/Core/Actions.antt =====
-- crates/guardian-core/src/lib.rs: actions, their kinds and their capabilities.
use project_guardian.Common.{Bool, true, false, Option, none, some, ℤ, Text}
use project_guardian.Core.Json.{Value, Members}

pub data ActionKind : Type 0 where
  file_read file_write exec http_request email payment delete other : ActionKind

pub data Capability : Type 0 where
  payment credential exfiltration irreversible_delete messaging filesystem network other :
      Capability

-- `Capability::is_critical`
unfoldable pub is_critical_capability : Capability → Bool
is_critical_capability Capability.payment = true
is_critical_capability credential = true
is_critical_capability exfiltration = true
is_critical_capability irreversible_delete = true
is_critical_capability _ = false

pub record ActionContext : Type 0 where
  pub timestamp_ms : ℤ
  pub source : Text
  pub session : Option Text
  pub host : Option Text
  pub principal : Option Text
  pub path : Option Text
  pub extra : Members

pub record Action : Type 0 where
  pub id : Text
  pub kind : ActionKind
  pub tool : Text
  pub args : Value
  pub capability : Option Capability
  pub context : ActionContext

critical_option : Option Capability → Bool
unfolding is_critical_capability
critical_option none = false
critical_option (some c) = is_critical_capability c

-- `Action::is_critical`
unfoldable pub is_critical : Action → Bool
unfolding critical_option
is_critical a = critical_option a.capability
