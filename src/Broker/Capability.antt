-- ===== src/Broker/Capability.antt =====
-- crates/guardian-broker/src/capability.rs: the caveats on the use of a credential.
pub mod Laws
use project_guardian.Common.{
  Bool, true, false, ◌&&◌, ◌||◌, not, Option, none, some, List, [], ◌∷◌, ℤ, leb_ℤ, Text, F64,
  f64_gt, eq_ignore_ascii_case, any, Result, ok, err, ◌>>=◌, ◌>>◌, if◌then◌else◌,
}

pub record CapabilityRequest : Type 0 where
  pub host : Text
  pub now_ms : ℤ
  pub amount : Option F64
  pub critical : Bool
  pub freshly_approved : Bool

pub record Caveats : Type 0 where
  pub not_after_ms : Option ℤ
  pub allowed_hosts : List Text
  pub max_amount : Option F64
  pub require_fresh_approval_for_critical : Bool

-- The derived default, which a field that a document leaves out takes.
unfoldable pub default_caveats : Caveats
default_caveats = record {
  not_after_ms = none;
  allowed_hosts = [];
  max_amount = none;
  require_fresh_approval_for_critical = false;
}

-- `Caveats::permissive`
unfoldable pub permissive : Caveats
unfolding default_caveats
permissive = record default_caveats { require_fresh_approval_for_critical = true }

pub data CaveatViolation : Type 0 where
  expired : CaveatViolation
  host_not_allowed : Text → CaveatViolation
  amount_exceeded : F64 → F64 → CaveatViolation
  stale_critical_approval : CaveatViolation

unfoldable pub expiry : Option ℤ → CapabilityRequest → Result (Unit {0}) CaveatViolation
expiry none req = ok tt
expiry (some deadline) req = if leb_ℤ deadline req.now_ms then err expired else ok tt

is_empty : List Text → Bool
is_empty [] = true
is_empty (_ ∷ _) = false

-- The host binding admits the host.
unfoldable pub admits : List Text → Text → Bool
unfolding is_empty eq_ignore_ascii_case
admits hosts host = is_empty hosts || any (λ h. eq_ignore_ascii_case h host) hosts

unfoldable pub host_binding : Caveats → CapabilityRequest → Result (Unit {0}) CaveatViolation
host_binding c req =
    if admits c.allowed_hosts req.host then ok tt else err (host_not_allowed req.host)

unfoldable pub amount_cap : Option F64 → Option F64 → Result (Unit {0}) CaveatViolation
unfolding f64_gt
amount_cap (some max) (some got) = if f64_gt got max then err (amount_exceeded max got) else ok tt
amount_cap _ _ = ok tt

unfoldable pub freshness : Caveats → CapabilityRequest → Result (Unit {0}) CaveatViolation
freshness c req =
    if c.require_fresh_approval_for_critical && req.critical && not req.freshly_approved
    then err stale_critical_approval
    else ok tt

-- `Caveats::check`
unfoldable pub check : Caveats → CapabilityRequest → Result (Unit {0}) CaveatViolation
check c req = do
  expiry c.not_after_ms req
  host_binding c req
  amount_cap c.max_amount req.amount
  freshness c req
