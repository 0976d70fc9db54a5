-- ===== src/Gateway/Upstream/Stdio.antt =====
-- crates/guardian-mcp-gateway/src/lib.rs: `McpStdioUpstream`, a conversation with a server process, and
-- `McpServer::serve_stdio`, which is such a process. A process that stops printing closes its output.
pub mod Conversation
use project_guardian.Common.{
  ℕ, ◌+◌, Bool, true, false, Option, none, some, ℤ, List, [], ◌∷◌, ◌++◌, map, Text, bytes, trim,
  Result, ok, err, if◌then◌else◌,
}
use project_guardian.Core.{Value, string, object, end, member, number, Number}
use project_guardian.Gateway.Call.{ToolCall}
use project_guardian.Gateway.Mcp.{ToolSpec, ToolRouter, McpServer, handle_line}
use project_guardian.Gateway.Upstream.{await_response, parse_tools}

-- What a process prints in return to a line of its input, until it reads the next one; nothing if the line
-- cannot be written.
pub record Process (S : Type 0) : Type 0 where
  pub step : Text → S → Option (List Text) × S

-- `McpStdioUpstream` without its tools: the process, and the lines that were not read yet, each as the
-- JSON that it is, if it is one.
pub record Connection (S : Type 0) : Type 0 where
  pub process : S
  pub unread : List (Option Value)
  pub id_counter : ℕ

unfoldable pub request_value : ℕ → Text → Value → Value
unfolding bytes
request_value id method params = object (
    member (bytes "jsonrpc") (string (bytes "2.0")) (
      member (bytes "id") (number (Number.unsigned id))
        (member (bytes "method") (string method) (member (bytes "params") params end))))

unfoldable pub notification_value : Text → Value
unfolding bytes
notification_value method =
    object (
      member (bytes "jsonrpc") (string (bytes "2.0")) (member (bytes "method") (string method) end))

-- The parameters of `initialize`.
unfoldable pub greeting : Text → Value
unfolding bytes
greeting version = object (
    member (bytes "protocolVersion") (string (bytes "2024-11-05")) (
      member (bytes "capabilities") (object end) (
        member (bytes "clientInfo")
          (object (
            member (bytes "name") (string (bytes "guardian"))
              (member (bytes "version") (string version) end)))
          end)))

unfoldable pub call_params : ToolCall → Value
unfolding bytes
call_params call =
    object (member (bytes "name") (string call.tool) (member (bytes "arguments") call.args end))

-- The reading and printing of JSON texts, the message of a broken pipe and the version are parameters.
module _ (S : Type 0) (process : Process S) (from_str : Text → Option Value)
    (to_string : Value → Text) (broken_pipe version : Text) where
  unfoldable pub written :
      Connection S → Option (List Text) × S → Result (Unit {0}) Text × Connection S
  written c (none, s) = (err broken_pipe, record c { process = s })
  written c (some lines, s) =
      (ok tt, record c { process = s; unread = c.unread ++ map from_str lines })

  -- `write_line`, and what the process makes of the line
  unfoldable pub write_line : Text → Connection S → Result (Unit {0}) Text × Connection S
  unfolding written
  write_line line c = written c (process.step line c.process)

  unfoldable pub read_answer :
      ℕ → Result (Unit {0}) Text × Connection S → Result Value Text × Connection S
  unfolding await_response
  read_answer id (err e, c) = (err e, c)
  read_answer id (ok _, c) =
      let (answer, unread) = await_response (ℤ.pos id) c.unread in
      (answer, record c { unread = unread })

  unfoldable pub request : Text → Value → Connection S → Result Value Text × Connection S
  unfolding write_line read_answer request_value
  request method params c = read_answer c.id_counter (
      write_line (to_string (request_value c.id_counter method params))
        (record c { id_counter = c.id_counter + 1 }))

  unfoldable pub notify : Text → Connection S → Result (Unit {0}) Text × Connection S
  unfolding write_line notification_value
  notify method c = write_line (to_string (notification_value method)) c

  unfoldable pub listed :
      Result Value Text × Connection S → Result (List ToolSpec × Connection S) Text
  unfolding parse_tools
  listed (err e, c) = err e
  listed (ok tools, c) = ok (parse_tools tools, c)

  unfoldable pub notified :
      Result (Unit {0}) Text × Connection S → Result (List ToolSpec × Connection S) Text
  unfolding listed request bytes
  notified (err e, c) = err e
  notified (ok _, c) = listed (request (bytes "tools/list") (object end) c)

  unfoldable pub greeted :
      Result Value Text × Connection S → Result (List ToolSpec × Connection S) Text
  unfolding notified notify bytes
  greeted (err e, c) = err e
  greeted (ok _, c) = notified (notify (bytes "notifications/initialized") c)

  -- `McpStdioUpstream::spawn`, of a process that started
  unfoldable pub spawn : S → Result (List ToolSpec × Connection S) Text
  unfolding greeted request greeting bytes
  spawn s = greeted (
      request (bytes "initialize") (greeting version)
        (record { process = s; unread = []; id_counter = 1 }))

  -- `McpStdioUpstream::forward`
  unfoldable pub forward_call : ToolCall → Connection S → Result Value Text × Connection S
  unfolding request call_params bytes
  forward_call call c = request (bytes "tools/call") (call_params call) c

unfoldable pub is_blank : Text → Bool
is_blank [] = true
is_blank (_ ∷ _) = false

module _ (W : Type 0) (router : ToolRouter W) (from_str : Text → Option Value)
    (to_string : Value → Text) (server : McpServer) where
  unfoldable pub answered : Option Text × W → Option (List Text) × W
  answered (none, w) = (some [], w)
  answered (some line, w) = (some (line ∷ []), w)

  -- One round of `serve_stdio`.
  unfoldable pub serve_stdio : Process W
  unfolding answered handle_line trim is_blank
  serve_stdio = record {
    step = λ line w.
        if is_blank (trim line)
        then (some [], w)
        else answered (handle_line W router from_str to_string server line w);
  }
