-- ===== src/Gateway/Call.antt =====
-- crates/guardian-mcp-gateway/src/lib.rs: tool calls, and how one becomes an action.
pub mod Inference
use project_guardian.Common.{
  ◌||◌, Option, none, some, unwrap_or, or_else, and_then, ℤ, Text, bytes, contains,
  to_ascii_lowercase, if◌then◌else◌,
}
use project_guardian.Core.{
  Value, get, as_str, end, ActionKind, file_read, file_write, exec, http_request, email, delete,
  Capability, irreversible_delete, messaging, filesystem, network, Action,
}

pub record ToolCall : Type 0 where
  pub tool : Text
  pub args : Value
  pub kind : Option ActionKind
  pub capability : Option Capability
  pub session : Option Text

-- The ladder of `infer_kind` over the lower-case name.
unfoldable pub kind_of_name : Text → ActionKind
unfolding contains bytes
kind_of_name t =
    if contains t (bytes "payment") || contains t (bytes "transfer") || contains t (bytes "pay")
    then ActionKind.payment
    else if contains t (bytes "delete") || contains t (bytes "remove")
    then delete
    else if contains t (bytes "email") || contains t (bytes "mail")
    then email
    else if contains t (bytes "exec")
        || contains t (bytes "shell")
        || contains t (bytes "bash")
        || contains t (bytes "run")
    then exec
    else if contains t (bytes "http") || contains t (bytes "fetch") || contains t (bytes "request")
    then http_request
    else if contains t (bytes "write") || contains t (bytes "create") || contains t (bytes "edit")
    then file_write
    else if contains t (bytes "read") || contains t (bytes "open")
    then file_read
    else ActionKind.other

unfoldable pub infer_kind : Text → ActionKind
unfolding to_ascii_lowercase
infer_kind tool = kind_of_name (to_ascii_lowercase tool)

unfoldable pub infer_capability : ActionKind → Option Capability
infer_capability ActionKind.payment = some Capability.payment
infer_capability delete = some irreversible_delete
infer_capability email = some messaging
infer_capability http_request = some network
infer_capability file_read = some filesystem
infer_capability file_write = some filesystem
infer_capability exec = none
infer_capability ActionKind.other = none

unfoldable pub str_arg : Value → Text → Option Text
unfolding get as_str
str_arg args key = and_then (get key args) as_str

unfoldable pub build_action : ToolCall → Text → Text → ℤ → Action
unfolding infer_capability
build_action call source id timestamp_ms =
    let kind = unwrap_or call.kind (infer_kind call.tool) in
    record {
      id = id;
      kind = kind;
      tool = call.tool;
      args = call.args;
      capability = or_else call.capability (infer_capability kind);
      context = record {
        timestamp_ms = timestamp_ms;
        source = source;
        session = none;
        host = str_arg call.args (bytes "host");
        principal = none;
        path = str_arg call.args (bytes "path");
        extra = end;
      };
    }
