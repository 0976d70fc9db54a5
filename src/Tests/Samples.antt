-- ===== src/Tests/Samples.antt =====
-- Concrete instances of what the crates call, and sample data, for the tests.
use project_guardian.Common.{
  ℕ, zero, suc, ◌+◌, Bool, true, false, Option, none, some, ℤ, List, [], ◌∷◌, Text, bytes, text_eq,
  ◌==◌, F64, ok, refl, arith,
}
use project_guardian.Audit.Log.{empty}
use project_guardian.Gateway.Call.{ToolCall}
use project_guardian.Gateway.State.{Ports, Config, State, approved}
use project_guardian.Core.{ActionKind, Capability, Action, null, end}
use project_guardian.Crypto.{Ed25519, Ed25519Laws, Hex, HexLaws}
use project_guardian.Policy.Schema.{DecisionKind, Rule, Policy}
use project_guardian.Policy.Cel.{Cel, boolean}
use project_guardian.Broker.Store.{Broker}
use project_guardian.Policy.Engine.{EvalEnv, CompiledPolicy}

abbrev pub sum : Text → ℕ
sum [] = 0
sum (c ∷ s) = c + sum s

abbrev pub padding : ℕ → Text
padding zero = []
padding (suc n) = 0 ∷ padding n

abbrev pub first_byte : Text → Option ℕ
first_byte [] = none
first_byte (c ∷ s) = some c

abbrev pub starts : ℕ → Text → Bool
starts n [] = false
starts n (c ∷ s) = n == c

-- Keys are numbers, and a signature is a checksum that depends on the key.
abbrev pub sample_ed : Ed25519
sample_ed = record {
  SigningKey = ℕ;
  VerifyingKey = ℕ;
  verifying_key = λ k. k;
  to_bytes = λ k. (k ∷ padding 31);
  from_bytes = first_byte;
  sign = λ k m. ((k + sum m) ∷ padding 63);
  check = λ k m s. starts (k + sum m) s;
}

pub sample_ed_laws : Ed25519Laws sample_ed
sample_ed_laws = record {
  check-sign = λ k m. ground arith;
  length-sign = λ k m. refl;
  length-to_bytes = λ k. refl;
  from_bytes-to_bytes = λ k. refl;
}

abbrev pub sample_hex : Hex
sample_hex = record { encode = λ s. s; decode = λ s. some s }

pub sample_hex_laws : HexLaws sample_hex
sample_hex_laws = record { decode-encode = λ s. refl }

-- A hash of 32 bytes.
abbrev pub sample_hash : Text → Text
sample_hash s = sum s ∷ padding 31

-- Conditions are the text `true` or another one.
abbrev pub sample_cel : Cel
sample_cel = record {
  Program = Bool;
  compile = λ s. ok (text_eq s (bytes "true"));
  execute = λ b vars. boolean b;
}

abbrev pub no_number : Text → Option F64
no_number s = none

abbrev pub sample_action : ActionKind → Option Capability → Option Text → Action
sample_action kind capability path = record {
  id = bytes "act-0";
  kind = kind;
  tool = bytes "tool";
  args = null;
  capability = capability;
  context = record {
    timestamp_ms = ℤ.pos 7;
    source = bytes "mcp";
    session = none;
    host = none;
    principal = none;
    path = path;
    extra = end;
  };
}

abbrev pub payment_action : Action
payment_action = sample_action ActionKind.payment (some Capability.payment) none

abbrev pub read_action : Action
read_action =
    sample_action ActionKind.file_read (some Capability.filesystem) (some (bytes "/tmp/a"))

abbrev pub sample_env : EvalEnv
sample_env = record { user_home = bytes "/home/u"; trusted_hosts = [] }

abbrev pub sample_rule : Text → DecisionKind → Rule
sample_rule id decision = record {
  id = id;
  when = bytes "true";
  decision = decision;
  explain = none;
  critical = false;
  sandbox = true;
  cap = none;
  tags = [];
}

abbrev pub sample_policy : List Rule → Policy
sample_policy rules = record {
  version = 1;
  role = bytes "role";
  defaults = record { decision = DecisionKind.ask };
  tools = [];
  rules = rules;
}

abbrev pub compiled_sample : List Rule → List Bool → CompiledPolicy sample_cel
compiled_sample rules programs = record { policy = sample_policy rules; programs = programs }

abbrev pub allow_rule : Rule
allow_rule = sample_rule (bytes "a") DecisionKind.allow

abbrev pub deny_rule : Rule
deny_rule = sample_rule (bytes "d") DecisionKind.deny

abbrev pub ask_rule : Rule
ask_rule = sample_rule (bytes "k") DecisionKind.ask

abbrev pub sample_broker : Broker
sample_broker = record { secrets = (bytes "bank", bytes "s3cr3t-token") ∷ []; caveats = [] }

abbrev pub sample_ports : Ports
sample_ports = record {
  explain = λ a. record { plain_text = []; risk = 9; rationale = [] };
  request_approval = λ a e. approved;
  forward = λ call. ok call.args;
  pii_detector = none;
  exists = λ path. false;
  current_dir = bytes "/";
  now_ms = ℤ.pos 7;
  audit_available = true;
  encode_entry = λ e. e.decision;
  render = λ v. [];
  decimal = λ n. n ∷ [];
  entropy = λ session n. none;
  address = λ session n. [];
}

abbrev pub sample_config : Config sample_ed sample_cel
sample_config = record {
  source = bytes "mcp";
  policy = compiled_sample (allow_rule ∷ []) (true ∷ []);
  env = sample_env;
  self_protection = record { protected_prefixes = []; kill_switch = none };
  signing_key = none;
}

abbrev pub sample_state : State
sample_state = record { audit = empty; counter = 0; data_protection = []; vaults = []; events = [] }

abbrev pub payment_call : ToolCall
payment_call = record {
  tool = bytes "pay";
  args = null;
  kind = some ActionKind.payment;
  capability = none;
  session = none;
}
