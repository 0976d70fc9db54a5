-- ===== src/Tests/Serving.antt =====
-- Concrete requests through the handler of crates/guardian-proxy/src/server.rs.
use project_guardian.Common.{
  is_utf8, arith, Bool, ℤ, true, some, none, [], ◌∷◌, ◌≡◌, ◌↔◌, bytes, refl,
}
use project_guardian.Core.{Action}
use project_guardian.Audit.Log.{empty, append}
use project_guardian.Audit.Log.Chain.{empty-IsIntact, appended}
use project_guardian.Policy.Engine.{evaluate, rule_decision}
use project_guardian.Broker.Store.{token_for, body_leaks_secret}
use project_guardian.Proxy.Inspection.{
  inspect, content_len, is_connect, WebRequest, Handler, request, bufferable,
}
use project_guardian.Proxy.Server.{
  record_decision, prepare, handle_request, resolve_and_respond, respond, caveat_check,
  with_credential,
}
use project_guardian.Proxy.Server.Mediation.{
  handle_request-forwards, Sends, inspected, judged, entry_of,
}
use project_guardian.Proxy.Server.Leaving.{handle_request-leak, judged_action}
use project_guardian.Proxy.{
  normalize_host, to_trusted, tag_exfiltration, carries_secret, secret_flag, classify, outcome_of,
  authorization_of,
}
use project_guardian.Tests.Samples.{
  sample_ed, sample_cel, sample_hash, no_number, sample_env, sample_broker, compiled_sample,
  allow_rule,
}

abbrev sample_handler : Handler sample_ed sample_cel
sample_handler = record {
  policy = compiled_sample (allow_rule ∷ []) (true ∷ []);
  env = sample_env;
  broker = sample_broker;
  signing_key = none;
  approver = some (λ (a : Action). true);
  to_str = some;
  from_str = some;
  to_lowercase = λ s. s;
  now_ms = ℤ.pos 7;
  audit_available = true;
  encode_entry = λ e. e.decision;
  describe = λ v. [];
}

abbrev upload : WebRequest
upload = record {
  method = bytes "POST";
  uri_host = some (bytes "elsewhere");
  path_and_query = none;
  headers = (bytes "content-length", bytes "13") ∷ [];
  body = some (bytes "<s3cr3t-token");
}

handle_request-forwards_example :
    let x = inspected sample_ed sample_cel no_number sample_handler sample_hash upload empty in
    let j = judged sample_ed sample_cel no_number sample_handler sample_hash upload empty in
    (handle_request sample_ed sample_cel no_number sample_handler sample_hash upload empty
      ≡ (request upload, empty))
    ↔ ((true ≡ true)
        × Sends sample_ed sample_cel no_number sample_handler x.0 j.0 j.1 upload
        × (empty
            ≡ appended sample_ed sample_hash none
                (entry_of sample_ed sample_cel no_number sample_handler sample_hash upload empty j.0
                  j.1)
                empty))
handle_request-forwards_example =
    handle_request-forwards sample_ed sample_cel no_number sample_handler sample_hash upload empty
      upload empty (empty-IsIntact sample_hash)

handle_request-leak_example :
    (approve : Action → Bool) × (sample_handler.approver ≡ some approve)
    × (approve
          (judged_action sample_ed sample_cel no_number sample_handler sample_hash upload empty)
        ≡ true)
unfolding token_for bytes bufferable is_connect content_len is_utf8 to_trusted prepare
    tag_exfiltration carries_secret inspect secret_flag body_leaks_secret handle_request
    record_decision append empty resolve_and_respond respond classify outcome_of authorization_of
    caveat_check with_credential evaluate rule_decision normalize_host
handle_request-leak_example =
    handle_request-leak sample_ed sample_cel no_number sample_handler sample_hash upload empty
      upload
      (handle_request sample_ed sample_cel no_number sample_handler sample_hash upload empty).1
      (bytes "bank") (bytes "s3cr3t-token") (bytes "<") [] refl (ground arith) refl refl refl refl
      (empty-IsIntact sample_hash) refl
