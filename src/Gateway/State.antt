-- ===== src/Gateway/State.antt =====
-- crates/guardian-mcp-gateway/src/lib.rs: what a gateway keeps, the ports that it calls, and its
-- operations on protected values and session vaults.
use project_guardian.Common.{
  chars, from_chars, map, ℕ, zero, suc, ◌+◌, ◌-◌, Bool, ◌||◌, Option, none, some, is_some, ℤ, List,
  [], ◌∷◌, ◌++◌, Text, length, take, drop, leb, member, Map, lookup, put, Result, if◌then◌else◌,
  ltb,
}
use project_guardian.Core.{Value, Action}
use project_guardian.Crypto.{Ed25519}
use project_guardian.Policy.Cel.{Cel}
use project_guardian.Policy.Engine.{CompiledPolicy, EvalEnv}
use project_guardian.Audit.Log.{AuditEntry, Database}
use project_guardian.Vault.Store.{DataVault, learn, token_count, new as new_vault}
use project_guardian.Gateway.Call.{ToolCall}
use project_guardian.Gateway.Paths.{SelfProtection}

pub record Explanation : Type 0 where
  pub plain_text : Text
  pub risk : ℕ
  pub rationale : Text

pub data ApprovalResponse : Type 0 where
  approved denied : ApprovalResponse

pub data GatewayOutcome : Type 0 where
  allowed : Value → GatewayOutcome
  upstream_error : Text → GatewayOutcome
  blocked : Text → GatewayOutcome

-- What is outside: the checker, the approver, the upstream, the optional detector, the file system,
-- the clock, whether the log's database and lock can be used, JSON text, and randomness by session.
pub record Ports : Type 0 where
  pub explain : Action → Explanation
  pub request_approval : Action → Explanation → ApprovalResponse
  pub forward : ToolCall → Result Value Text
  pub pii_detector : Option (Text → List Text)
  pub exists : Text → Bool
  pub current_dir : Text
  pub now_ms : ℤ
  pub audit_available : Bool
  pub encode_entry : AuditEntry → Text
  pub render : Value → Text
  pub decimal : ℕ → Text
  pub entropy : Text → ℕ → Option Text
  pub address : Text → ℕ → Text

-- The calls of the ports and of the log, in order.
pub data Event : Type 0 where
  explained : Action → Event
  asked : Action → ApprovalResponse → Event
  recorded : AuditEntry → Bool → Event
  forwarded : ToolCall → Event

-- The fields that do not change.
pub record Config (ed : Ed25519) (cel : Cel) : Type 0 where
  pub source : Text
  pub policy : CompiledPolicy cel
  pub env : EvalEnv
  pub self_protection : SelfProtection
  pub signing_key : Option (Ed25519.SigningKey ed)

-- The fields that do, with the events so far.
pub record State : Type 0 where
  pub audit : Database
  pub counter : ℕ
  pub data_protection : List Text
  pub vaults : Map DataVault
  pub events : List Event

stars : ℕ → Text
stars zero = []
stars (suc n) = b'*' ∷ stars n

-- `mask`
unfoldable pub mask : Text → Text
unfolding stars chars from_chars
mask s =
    let cs = chars s in
    let n = length cs in
    if leb n 4
    then stars (if leb 1 n then n else 1)
    else from_chars (take 2 cs) ++ (stars (n - 4) ++ from_chars (drop (n - 2) cs))

-- `Gateway::protected_masked`
unfoldable pub protected_masked : State → List Text
protected_masked s = map mask s.data_protection

learn_all : Text → Map DataVault → Map DataVault
unfolding learn
learn_all value [] = []
learn_all value ((session, v) ∷ vaults) = (session, learn value v) ∷ learn_all value vaults

-- `Gateway::add_protected`
unfoldable pub add_protected : Text → State → State
unfolding member learn_all
add_protected value s = if member value s.data_protection then s else record s {
  data_protection = s.data_protection ++ value ∷ [];
  vaults = learn_all value s.vaults;
}

without_last : List Text → List Text
without_last [] = []
without_last (x ∷ []) = []
without_last (x ∷ y ∷ xs) = x ∷ without_last (y ∷ xs)

-- `Gateway::remove_last_protected`
unfoldable pub remove_last_protected : State → Bool × State
unfolding without_last
remove_last_protected s = (
  ltb 0 (length s.data_protection),
  record s { data_protection = without_last s.data_protection },
)

tokens_of : Map DataVault → ℕ
unfolding token_count
tokens_of [] = 0
tokens_of ((session, v) ∷ vaults) = token_count v + tokens_of vaults

-- `Gateway::vault_stats`
unfoldable pub vault_stats : State → ℕ × ℕ
unfolding tokens_of
vault_stats s = (length s.data_protection, tokens_of s.vaults)

unfoldable pub tokenization_on : Ports → State → Bool
tokenization_on p s = ltb 0 (length s.data_protection) || is_some p.pii_detector

pub seeded : List Text → DataVault → DataVault
unfolding learn
seeded [] v = v
seeded (value ∷ values) v = seeded values (learn value v)

-- The session's vault, made from the protected values on first use.
unfoldable pub session_vault : Text → State → DataVault
unfolding seeded lookup
session_vault session s = elim (lookup session s.vaults) [
  | some v ↦ v
  | none ↦ seeded s.data_protection new_vault
]

-- `with_vault`, for an operation that gives a new vault and a result
unfoldable pub with_vault {ℓ} :
    {T : Type ℓ} → Text → (DataVault → T × DataVault) → State → T × State
unfolding session_vault put
with_vault session f s =
    let (t, v) = f (session_vault session s) in (t, record s { vaults = put session v s.vaults })
