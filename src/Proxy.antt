-- ===== src/Proxy.antt =====
-- crates/guardian-proxy/src/lib.rs: an outbound HTTP request as an action, the tag of exfiltration, and
-- the outcome that a decision comes to. The certificate authority is left out.
pub mod Egress
pub mod Inspection
pub mod Server
use project_guardian.Common.{
  Bool, true, false, not, ◌&&◌, Option, none, some, and_then, unwrap_or, is_some, List, [], ◌∷◌,
  ◌++◌, ℤ, Text, bytes, text_eq, to_ascii_lowercase, trim, starts_with, drop, length, any, F64,
  if◌then◌else◌,
}
use mathlib.Core.Option
use mathlib.Core.List.{reverse}
use project_guardian.Core.{
  string, object, end, member, find, as_bool, ActionKind, Capability, Action, Decision, allow, ask,
  deny,
}
use project_guardian.Policy.Cel.{Cel}
use project_guardian.Policy.Engine.{EvalEnv, EvalOutcome, CompiledPolicy, evaluate}
use project_guardian.Broker.Store.{Broker, token_for}

pub record HttpRequest : Type 0 where
  pub method : Text
  pub host : Text
  pub path : Text

pub data ProxyOutcome : Type 0 where
  forward : Option Text → ProxyOutcome
  block : Text → ProxyOutcome

-- `strip_suffix`
strip_suffix : Text → Text → Option Text
unfolding starts_with
strip_suffix h suffix =
    if starts_with (reverse h) (reverse suffix)
    then some (reverse (drop (length suffix) (reverse h)))
    else none

-- The loop over the default ports.
strip_ports : List Text → Text → Text
unfolding strip_suffix
strip_ports [] h = h
strip_ports (port ∷ ports) h = unwrap_or (strip_suffix h port) (strip_ports ports h)

unfoldable pub normalize_host : Text → Text
unfolding strip_ports to_ascii_lowercase trim bytes
normalize_host host = strip_ports (bytes ":80" ∷ bytes ":443" ∷ []) (to_ascii_lowercase (trim host))

-- The Unicode lower case of a text, `str::to_lowercase`, is a parameter.
unfoldable pub to_action : (Text → Text) → HttpRequest → Action
to_action to_lowercase req = record {
  id = bytes "proxy";
  kind = ActionKind.http_request;
  tool = bytes "http." ++ to_lowercase req.method;
  args =
      object
        (member (bytes "method") (string req.method) (member (bytes "path") (string req.path) end));
  capability = none;
  context = record {
    timestamp_ms = ℤ.pos 0;
    source = bytes "proxy";
    session = none;
    host = some (normalize_host req.host);
    principal = none;
    path = none;
    extra = end;
  };
}

unfoldable pub secret_flag : Text
secret_flag = bytes "body_contains_known_secret"

unfoldable pub carries_secret : Action → Bool
unfolding find as_bool
carries_secret action = unwrap_or (and_then (find secret_flag action.context.extra) as_bool) false

host_in : List Text → Option Text → Bool
unfolding text_eq
host_in trusted none = false
host_in trusted (some h) = any (λ t. text_eq t h) trusted

unfoldable pub to_trusted : Action → List Text → Bool
unfolding host_in
to_trusted action trusted = host_in trusted action.context.host

unfoldable pub tag_exfiltration : Action → List Text → Action
tag_exfiltration action trusted_hosts =
    if not (carries_secret action)
    then action
    else if not (to_trusted action trusted_hosts) && not (is_some action.capability)
    then record action { capability = some Capability.exfiltration }
    else action

-- The broker's credential for the host of an action.
unfoldable pub authorization_of : Action → Broker → Option Text
unfolding token_for
authorization_of action broker =
    Option.map (λ (t : Text). bytes "Bearer " ++ t)
      (and_then action.context.host (λ (h : Text). token_for broker h))

unfoldable pub needs_approval : Text → Text
needs_approval reason = bytes "needs approval: " ++ reason

unfoldable pub outcome_of : Decision → Option Text → ProxyOutcome
outcome_of allow authorization = forward authorization
outcome_of (deny reason) authorization = block reason
outcome_of (ask reason) authorization = block (needs_approval reason)

unfoldable pub classify : Action → EvalOutcome → Broker → ProxyOutcome
unfolding outcome_of
classify action outcome broker = outcome_of outcome.decision (authorization_of action broker)

module _ (cel : Cel) (parse_f64 : Text → Option F64) (to_lowercase : Text → Text) where
  unfoldable pub mediate : HttpRequest → CompiledPolicy cel → EvalEnv → Broker → ProxyOutcome
  mediate req policy env broker =
      let action = to_action to_lowercase req in
      classify action (evaluate cel parse_f64 policy action env) broker
