-- ===== src/Tests/Wiring.antt =====
-- Concrete calls, hook inputs and commands through crates/guardian-cli/src/main.rs.
use mathlib.Core.Option
use project_guardian.Common.{
  trim, true, false, some, none, and_then, unwrap_or, [], ◌∷◌, ◌≡◌, ◌↔◌, refl, bytes, Text, Result,
  ok, text_eq, trim, member, if◌then◌else◌,
}
use project_guardian.Core
use project_guardian.Core.{Value, null, string, object, end, get, as_str, allow}
use project_guardian.Policy.Engine.{evaluate}
use project_guardian.Broker.Store.{default_field, token_for}
use project_guardian.Gateway.Call.{ToolCall}
use project_guardian.Vault.Store.{split_at_first}
use project_guardian.Gateway.Upstream.{sep}
use project_guardian.Sandbox.{SandboxOpts}
use project_guardian.Cli.Brokered.{brokered_args, forward_with, forward_with-get}
use project_guardian.Cli.Hook.{native_action, decide_hook, decide_hook-eq-allow_iff, host_from_url}
use project_guardian.Tests.Samples.{
  sample_cel, no_number, sample_env, sample_broker, compiled_sample, allow_rule,
}

abbrev forged_args : Value
forged_args = object (Core.member (bytes "auth_token") (string (bytes "forged")) end)

-- The call's own name has the target.
abbrev bank_call : ToolCall
bank_call = record {
  tool = bytes "bank__pay";
  args = forged_args;
  kind = none;
  capability = none;
  session = none;
}

abbrev echo_call : ToolCall → Result Value Text
echo_call call = ok call.args

forward_with-get_example :
    let target =
      unwrap_or
        (Option.map (λ (parts : Text × Text). parts.0) (split_at_first sep bank_call.tool))
        bank_call.tool in
    let args = brokered_args sample_broker (bytes "bank" ∷ []) target forged_args in
    (forward_with sample_broker (bytes "bank" ∷ []) echo_call bank_call
      ≡ echo_call (record bank_call { args = args }))
    × (get (bytes "auth_token") args ≡ (
        if text_eq default_field (bytes "auth_token")
        then (if member target (bytes "bank" ∷ [])
            then Option.map string (token_for sample_broker target)
            else none)
        else get (bytes "auth_token") forged_args))
forward_with-get_example =
    forward_with-get sample_broker (bytes "bank" ∷ []) echo_call bank_call (bytes "auth_token") tt

abbrev read_input : Value
read_input = object (Core.member (bytes "tool_name") (string (bytes "Read")) end)

abbrev sample_parse : Text → Result Value Text
sample_parse s = ok read_input

decide_hook-eq-allow_iff_example :
    let p = compiled_sample (allow_rule ∷ []) (true ∷ []) in
    ((decide_hook sample_cel no_number sample_parse p sample_env []).0 ≡ bytes "allow") ↔ (
      (value : Value) × (name : Text) × (sample_parse (trim []) ≡ ok value)
      × (and_then (get (bytes "tool_name") value) as_str ≡ some name)
      × ((evaluate sample_cel no_number p
            (native_action sample_cel no_number sample_parse p sample_env name
              (unwrap_or (get (bytes "tool_input") value) null))
            sample_env).decision
          ≡ allow))
decide_hook-eq-allow_iff_example =
    decide_hook-eq-allow_iff sample_cel no_number sample_parse
      (compiled_sample (allow_rule ∷ []) (true ∷ [])) sample_env []

abbrev no_opts : SandboxOpts
no_opts = record { allow_network = false; writable_paths = [] }

-- The host of a URL is not the one that a backslash or user information pretends.
host_from_url-backslash : host_from_url (bytes "https://evil.net\\@trusted/") ≡ bytes "evil.net"
unfolding host_from_url bytes
host_from_url-backslash = refl

-- With one slash only, what stands behind a later mark is taken for the host.
host_from_url-one_slash : host_from_url (bytes "https:/evil.net/://trusted/") ≡ bytes "trusted"
unfolding host_from_url bytes
host_from_url-one_slash = refl
