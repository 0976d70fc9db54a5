-- ===== src/Core/Wire.antt =====
-- The JSON form of an action, as serde derives it in crates/guardian-core/src/lib.rs: the names of
-- kinds and capabilities are the contract that policy expressions compare against.
use project_guardian.Common.{ℤ, pos, negsuc, Option, none, some, Text, bytes}
use project_guardian.Core.Json.{
  unsigned, signed, Value, string, number, object, Members, end, member,
}
use project_guardian.Core.Actions.{
  ActionKind, file_read, file_write, exec, http_request, email, delete, Capability, credential,
  exfiltration, irreversible_delete, messaging, filesystem, network, ActionContext, Action,
}

unfoldable pub kind_name : ActionKind → Text
unfolding bytes
kind_name file_read = bytes "FileRead"
kind_name file_write = bytes "FileWrite"
kind_name exec = bytes "Exec"
kind_name http_request = bytes "HttpRequest"
kind_name email = bytes "Email"
kind_name ActionKind.payment = bytes "Payment"
kind_name delete = bytes "Delete"
kind_name ActionKind.other = bytes "Other"

unfoldable pub capability_name : Capability → Text
unfolding bytes
capability_name Capability.payment = bytes "Payment"
capability_name credential = bytes "Credential"
capability_name exfiltration = bytes "Exfiltration"
capability_name irreversible_delete = bytes "IrreversibleDelete"
capability_name messaging = bytes "Messaging"
capability_name filesystem = bytes "Filesystem"
capability_name network = bytes "Network"
capability_name Capability.other = bytes "Other"

unfoldable pub integer : ℤ → Value
integer (pos n) = number (unsigned n)
integer (negsuc n) = number (signed (negsuc n))

-- `skip_serializing_if = "Option::is_none"`
optional : Text → Option Text → Members → Members
optional k none ms = ms
optional k (some s) ms = member k (string s) ms

optional_capability : Option Capability → Members → Members
optional_capability none ms = ms
optional_capability (some c) ms = member (bytes "capability") (string (capability_name c)) ms

context_to_value : ActionContext → Value
unfolding integer optional bytes
context_to_value c = object (
    member (bytes "timestamp_ms") (integer c.timestamp_ms) (
      member (bytes "source") (string c.source) (
        optional (bytes "session") c.session (
          optional (bytes "host") c.host (
            optional (bytes "principal") c.principal
              (optional (bytes "path") c.path (member (bytes "extra") (object c.extra) end)))))))

-- `serde_json::to_value(action)`
unfoldable pub action_to_value : Action → Value
unfolding context_to_value optional_capability kind_name capability_name bytes
action_to_value a = object (
    member (bytes "id") (string a.id) (
      member (bytes "kind") (string (kind_name a.kind)) (
        member (bytes "tool") (string a.tool) (
          member (bytes "args") a.args (
            optional_capability a.capability
              (member (bytes "context") (context_to_value a.context) end))))))
