-- ===== src/Proxy/Inspection.antt =====
-- crates/guardian-proxy/src/server.rs: a request with its headers and body, the handler's fields, and the
-- inspection of a request. Headers are a map from lower-case names; of the crate `http`, the reading
-- and making of header values as text are parameters.
use project_guardian.Common.{
  ℕ, Bool, true, false, not, ◌&&◌, Option, none, some, and_then, unwrap_or, [], ◌∷◌, ℤ, Text, bytes,
  text_eq, eq_ignore_ascii_case, length, leb, Map, lookup, remove, is_utf8, parse_u64, F64,
  if◌then◌else◌,
}
use project_guardian.Core.{Action}
use project_guardian.Crypto.{Ed25519}
use project_guardian.Policy.Cel.{Cel}
use project_guardian.Policy.Engine.{EvalEnv, CompiledPolicy}
use project_guardian.Audit.Log.{AuditEntry}
use project_guardian.Broker.Capability.{CaveatViolation}
use project_guardian.Broker.Store.{Broker, body_leaks_secret}

-- A body that cannot be read has no content.
pub record WebRequest : Type 0 where
  pub method : Text
  pub uri_host : Option Text
  pub path_and_query : Option Text
  pub headers : Map Text
  pub body : Option Text

pub data Answer : Type 0 where
  request : WebRequest → Answer
  response : Text → Answer

pub record RequestSignals : Type 0 where
  pub inspected : Bool
  pub len : ℕ
  pub contains_known_secret : Bool
  pub is_websocket_upgrade : Bool

unfoldable pub body_inspect_cap : ℕ
body_inspect_cap = 1048576

unfoldable pub uninspected : RequestSignals
uninspected = record {
  inspected = false;
  len = 0;
  contains_known_secret = false;
  is_websocket_upgrade = false;
}

-- The fields of the handler that do not change, and what it calls: the header values as text, the
-- human, the clock, the log's database and lock, and the texts of entries and of violations.
pub record Handler (ed : Ed25519) (cel : Cel) : Type 0 where
  pub policy : CompiledPolicy cel
  pub env : EvalEnv
  pub broker : Broker
  pub signing_key : Option (Ed25519.SigningKey ed)
  pub approver : Option (Action → Bool)
  pub to_str : Text → Option Text
  pub from_str : Text → Option Text
  pub to_lowercase : Text → Text
  pub now_ms : ℤ
  pub audit_available : Bool
  pub encode_entry : AuditEntry → Text
  pub describe : CaveatViolation → Text

unfoldable pub audit_unavailable : Text
audit_unavailable = bytes "Guardian audit log unavailable; request blocked (fail-closed)"

-- `headers_mut().insert`: the value replaces all earlier ones
unfoldable pub insert_header : Text → Text → Map Text → Map Text
unfolding remove
insert_header name value headers = (name, value) ∷ remove name headers

unfoldable pub is_connect : WebRequest → Bool
unfolding text_eq bytes
is_connect req = text_eq req.method (bytes "CONNECT")

module _ (ed : Ed25519) (cel : Cel) (parse_f64 : Text → Option F64) (h : Handler ed cel) where
  unfoldable pub header_text : Text → WebRequest → Option Text
  unfolding lookup
  header_text name req = and_then (lookup name req.headers) h.to_str

  unfoldable pub is_upgrade : WebRequest → Bool
  unfolding header_text eq_ignore_ascii_case
  is_upgrade req = elim (header_text (bytes "upgrade") req) [
    | none ↦ false
    | some v ↦ eq_ignore_ascii_case v (bytes "websocket")
  ]

  unfoldable pub content_len : WebRequest → Option ℕ
  unfolding header_text parse_u64
  content_len req = and_then (header_text (bytes "content-length") req) parse_u64

  within_inspect_cap : Option ℕ → Bool
  unfolding body_inspect_cap
  within_inspect_cap none = false
  within_inspect_cap (some n) = leb n body_inspect_cap

  unfoldable pub bufferable : WebRequest → Bool
  unfolding within_inspect_cap
  bufferable req = not (is_connect req) && within_inspect_cap (content_len req)

  unfoldable pub inspect_body : WebRequest → Option Text → WebRequest × RequestSignals
  unfolding is_upgrade uninspected
  inspect_body req none =
      (record req { body = some [] }, record uninspected { is_websocket_upgrade = is_upgrade req })
  inspect_body req (some content) = (
    record req { body = some content },
    record {
      inspected = true;
      len = length content;
      contains_known_secret = is_utf8 content && body_leaks_secret h.broker content;
      is_websocket_upgrade = is_upgrade req;
    },
  )

  unfoldable pub inspect : WebRequest → WebRequest × RequestSignals
  unfolding inspect_body is_upgrade uninspected
  inspect req = if bufferable req then inspect_body req req.body else (
    req,
    record uninspected {
      len = unwrap_or (content_len req) 0;
      is_websocket_upgrade = is_upgrade req;
    },
  )
