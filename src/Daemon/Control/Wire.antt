-- ===== src/Daemon/Control/Wire.antt =====
-- The requests of the control socket of crates/guardian-daemon/src/lib.rs as JSON, as serde derives it:
-- objects with the tag `cmd`.
use project_guardian.Common.{
  ℕ, Option, none, some, and_then, List, [], ◌∷◌, Text, bytes, text_eq, leb, lookup, if◌then◌else◌,
}
use project_guardian.Core.{
  Value, null, number, object, Number, Members, find, as_str, as_bool, ActionKind, Capability,
}
use project_guardian.Core.Wire.{kind_name, capability_name}
use mathlib.Core.Option
use project_guardian.Daemon.Control.{
  Request, call, respond, approve, verify_audit, protect, unprotect, vault_status,
}

-- `as_u64`
unfoldable pub as_u64 : Value → Option ℕ
as_u64 (number (Number.unsigned n)) = some n
as_u64 _ = none

-- Of the names the one that is read.
kind_among : Text → List ActionKind → Option ActionKind
unfolding text_eq kind_name
kind_among s [] = none
kind_among s (k ∷ ks) = if text_eq (kind_name k) s then some k else kind_among s ks

unfoldable pub read_kind : Text → Option ActionKind
unfolding kind_among
read_kind s = kind_among s (
    ActionKind.file_read ∷ ActionKind.file_write ∷ ActionKind.exec ∷ ActionKind.http_request
    ∷ ActionKind.email ∷ ActionKind.payment ∷ ActionKind.delete ∷ ActionKind.other ∷ [])

capability_among : Text → List Capability → Option Capability
unfolding text_eq capability_name
capability_among s [] = none
capability_among s (k ∷ ks) =
    if text_eq (capability_name k) s then some k else capability_among s ks

unfoldable pub read_capability : Text → Option Capability
unfolding capability_among
read_capability s = capability_among s (
    Capability.payment ∷ Capability.credential ∷ Capability.exfiltration
    ∷ Capability.irreversible_delete ∷ Capability.messaging ∷ Capability.filesystem
    ∷ Capability.network ∷ Capability.other ∷ [])

-- A field that must be there and of its type.
unfoldable pub required {ℓ} : {A : Type ℓ} → (Value → Option A) → Text → Members → Option A
unfolding find
required read k ms = and_then (find k ms) read

-- `#[serde(default)]`
defaulted_value {ℓ} : {A : Type ℓ} → A → (Value → Option A) → Option Value → Option A
defaulted_value d read none = some d
defaulted_value d read (some v) = read v

unfoldable pub defaulted {ℓ} : {A : Type ℓ} → A → (Value → Option A) → Text → Members → Option A
unfolding find defaulted_value
defaulted d read k ms = defaulted_value d read (find k ms)

-- An `Option`: `null` is `None`.
unfoldable pub nullable {ℓ} : {A : Type ℓ} → (Value → Option A) → Value → Option (Option A)
nullable read null = some none
nullable read v = Option.map some (read v)

unfoldable pub read_u8 : Value → Option ℕ
unfolding as_u64
read_u8 v = and_then (as_u64 v) (λ n. if leb n 255 then some n else none)

unfoldable pub default_history_limit : ℕ
default_history_limit = 50

-- The fields of `Call`; a member of another name, such as `session`, is passed over.
read_call : Members → Option Request
unfolding required defaulted nullable read_kind read_capability as_str bytes
read_call ms = and_then (required as_str (bytes "tool") ms) (λ tool.
    and_then (defaulted null some (bytes "args") ms) (λ args.
      and_then (defaulted none (nullable (λ v. and_then (as_str v) read_kind)) (bytes "kind") ms)
        (λ kind.
          and_then
            (defaulted none (nullable (λ v. and_then (as_str v) read_capability))
              (bytes "capability") ms)
            (λ capability. some (call tool args kind capability)))))

read_respond : Members → Option Request
unfolding required as_u64 as_bool bytes
read_respond ms = and_then (required as_u64 (bytes "id") ms) (λ id.
    and_then (required as_bool (bytes "approve") ms) (λ approves. some (respond id approves)))

read_approve : Members → Option Request
unfolding required defaulted read_u8 as_str bytes
read_approve ms = and_then (defaulted [] as_str (bytes "action_id") ms) (λ action_id.
    and_then (required as_str (bytes "tool") ms) (λ tool.
      and_then (defaulted [] as_str (bytes "plain_text") ms) (λ plain_text.
        and_then (defaulted 0 read_u8 (bytes "risk") ms)
          (λ risk. some (approve action_id tool plain_text risk)))))

read_kill_switch : Members → Option Request
unfolding required as_bool bytes
read_kill_switch ms =
    and_then (required as_bool (bytes "engage") ms) (λ engage. some (Request.kill_switch engage))

read_history : Members → Option Request
unfolding defaulted as_u64 default_history_limit bytes
read_history ms =
    and_then (defaulted default_history_limit as_u64 (bytes "limit") ms)
      (λ limit. some (Request.history limit))

read_protect : Members → Option Request
unfolding required as_str bytes
read_protect ms = and_then (required as_str (bytes "value") ms) (λ value. some (protect value))

-- The readers by the tag.
readers : List (Text × (Members → Option Request))
unfolding read_call read_respond read_approve read_kill_switch read_history read_protect bytes
readers =
    (bytes "call", read_call)
    ∷ (bytes "pending", λ ms. some Request.pending)
    ∷ (bytes "respond", read_respond)
    ∷ (bytes "approve", read_approve)
    ∷ (bytes "kill_switch", read_kill_switch)
    ∷ (bytes "verify_audit", λ ms. some verify_audit)
    ∷ (bytes "history", read_history)
    ∷ (bytes "protect", read_protect)
    ∷ (bytes "unprotect", λ ms. some unprotect)
    ∷ (bytes "vault_status", λ ms. some vault_status)
    ∷ []

-- The request that a JSON value is, if it is one.
unfoldable pub request_of_value : Value → Option Request
unfolding required readers lookup as_str bytes
request_of_value (object ms) =
    and_then (required as_str (bytes "cmd") ms)
      (λ cmd. and_then (lookup cmd readers) (λ read. read ms))
request_of_value _ = none
