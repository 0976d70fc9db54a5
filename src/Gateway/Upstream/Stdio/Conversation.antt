-- ===== src/Gateway/Upstream/Stdio/Conversation.antt =====
-- The two ends of crates/guardian-mcp-gateway/src/lib.rs: `McpStdioUpstream` in front of `McpServer`.
use project_guardian.Common.{
  All, ◌++◌, suc, none, ℕ, ◌+◌, ◌<◌, ◌^◌, true, false, Option, some, ℤ, List, [], ◌∷◌, Text, bytes,
  trim, Result, ok, err, length, ◌≡◌, refl, ap, arith, text_eq,
}
use project_guardian.Core.{end, object, Value, number, Number, get, as_str, find}
use project_guardian.Gateway.Mcp.{
  result_of, call_for, routed, call_named, kind_for, result_of, tools_call, ToolSpec, ToolRouter,
  McpServer, handle_line, reply, reply_to, reply_with, dispatch, success_value, error_value,
  Failure, specs_value, spec_value, printed,
}
use project_guardian.Gateway.Upstream.{
  tools_in, parse_tools, ToolCall, await_response, tools_of, tool_of, is_response, response_of,
  as_i64, same_int,
}
use project_guardian.Gateway.Upstream.Stdio.{
  greeting, call_params, listed, notified, greeted, notification_value, spawn, notify, forward_call,
  Process, Connection, request_value, write_line, request, serve_stdio, is_blank, answered,
  read_answer, written,
}

-- A tool list that is advertised is read back.
tools_of-specs_value : (ts : List ToolSpec) → tools_of (specs_value ts) ≡ ts
unfolding tools_of tool_of specs_value spec_value get find text_eq as_str bytes
tools_of-specs_value [] = refl
tools_of-specs_value (t ∷ ts) = ap (λ us. t ∷ us) (tools_of-specs_value ts)

-- What the answer to a request is for the one who asked.
unfoldable pub understood : Result Value Failure → Result Value Text
understood (ok v) = ok v
understood (err (code, message)) = err message

is_response-success :
    (n : ℕ) (v : Value)
    → n < 2 ^ 63
    → is_response (ℤ.pos n) (success_value (number (Number.unsigned n)) v) ≡ true
unfolding is_response as_i64 same_int success_value get find text_eq bytes
is_response-success n v small = ground (arith, small)

is_response-error :
    (n : ℕ) (code : ℤ) (message : Text)
    → n < 2 ^ 63
    → is_response (ℤ.pos n) (error_value (number (Number.unsigned n)) code message) ≡ true
unfolding is_response as_i64 same_int error_value get find text_eq bytes
is_response-error n code message small = ground (arith, small)

answer-success :
    (n : ℕ) (v : Value)
    → n < 2 ^ 63
    → await_response (ℤ.pos n) (some (success_value (number (Number.unsigned n)) v) ∷ [])
      ≡ (ok v, [])
unfolding await_response response_of success_value get find text_eq bytes
answer-success n v small = rw (is_response-success n v small) refl

answer-error :
    (n : ℕ) (code : ℤ) (message : Text)
    → n < 2 ^ 63
    → await_response (ℤ.pos n) (some (error_value (number (Number.unsigned n)) code message) ∷ [])
      ≡ (err message, [])
unfolding await_response response_of error_value get find text_eq as_str bytes
answer-error n code message small = rw (is_response-error n code message small) refl

module _ (W : Type 0) (router : ToolRouter W) (from_str : Text → Option Value)
    (to_string : Value → Text) (server : McpServer) (broken_pipe version : Text) where
  -- The text of a message is read back, and is not blank.
  abbrev pub IsReadBack : Value → Type 0
  IsReadBack v = (from_str (to_string v) ≡ some v) × (is_blank (trim (to_string v)) ≡ false)

  abbrev pub answer_value : ℕ → Result Value Failure → Value
  answer_value n (ok v) = success_value (number (Number.unsigned n)) v
  answer_value n (err (code, message)) = error_value (number (Number.unsigned n)) code message

  -- A request and the answer to it.
  abbrev pub exchange : ℕ → Text → Value → W → List Value
  exchange n method params w =
      request_value n method params
      ∷ answer_value n (dispatch W router from_str to_string server method params w).0
      ∷ []

  -- The lines of a connection are all read.
  abbrev pub at : W → ℕ → Connection W
  at w n = record { process = w; unread = []; id_counter = n }

  abbrev process : Process W
  process = serve_stdio W router from_str to_string server

  delivered :
      (n m : ℕ) (w : W) (t : Result Value Failure × W)
      → n < 2 ^ 63
      → IsReadBack (answer_value n t.0)
      → read_answer W process from_str to_string broken_pipe version n (
          written W process from_str to_string broken_pipe version (at w m) (
            answered W router from_str to_string server (
              printed W router from_str to_string server
                (reply_with W router from_str to_string server (number (Number.unsigned n)) t))))
        ≡ (understood t.0, at t.1 m)
  unfolding read_answer written answered printed reply_with success_value error_value await_response
      is_response response_of as_i64 same_int understood get find text_eq as_str bytes
  delivered n m w (ok v, w') small (back, _) = rw (back, answer-success n v small) refl
  delivered n m w (err (code, message), w') small (back, _) =
      rw (back, answer-error n code message small) refl

  request-serve_stdio :
      (method : Text) (params : Value) (w : W) (n : ℕ)
      → n < 2 ^ 63
      → All IsReadBack (exchange n method params w)
      → request W process from_str to_string broken_pipe version method params (at w n) ≡ (
          let d = dispatch W router from_str to_string server method params w in
          (understood d.0, at d.1 (n + 1)))
  unfolding request write_line serve_stdio handle_line reply reply_to request_value get find text_eq
      as_str bytes
  request-serve_stdio method params w n small ((there, shown), (answered_back, _)) =
      rw (shown, there)
        (delivered n (n + 1) w (dispatch W router from_str to_string server method params w) small
          answered_back)

  notify-serve_stdio :
      (method : Text) (w : W) (n : ℕ)
      → IsReadBack (notification_value method)
      → notify W process from_str to_string broken_pipe version method (at w n) ≡ (ok tt, at w n)
  unfolding notify write_line written serve_stdio answered printed handle_line reply reply_to
      notification_value get find text_eq bytes
  notify-serve_stdio method w n (back, shown) = rw (shown, back) refl

  -- What is said before the first call.
  abbrev pub handshake : W → List Value
  handshake w =
      notification_value (bytes "notifications/initialized")
      ∷ (exchange 1 (bytes "initialize") (greeting version) w
          ++ exchange 2 (bytes "tools/list") (object end) w)

  -- The tools are read back, and two requests were made.
  spawn-serve_stdio :
      (w : W)
      → All IsReadBack (handshake w)
      → spawn W process from_str to_string broken_pipe version w ≡ ok (server.tools, at w 3)
  unfolding spawn greeted notified listed parse_tools tools_in dispatch understood get find text_eq
      bytes
  spawn-serve_stdio w (initialized, (first, (answered_first, (second, (answered_second, _))))) =
      rw
        (
          request-serve_stdio (bytes "initialize") (greeting version) w 1 (ground arith)
              (first, (answered_first, tt)),
          greeted,
          notify-serve_stdio (bytes "notifications/initialized") w 2 initialized,
          notified,
          request-serve_stdio (bytes "tools/list") (object end) w 2 (ground arith)
              (second, (answered_second, tt)),
          listed,
          tools_of-specs_value server.tools,
        )
        refl

  -- The call that the router gets.
  abbrev pub classified : ToolCall → ToolCall
  classified call = record {
    tool = call.tool;
    args = call.args;
    kind = some (kind_for server call.tool);
    capability = none;
    session = none;
  }

  forward_call-serve_stdio :
      (call : ToolCall) (w : W) (n : ℕ)
      → n < 2 ^ 63
      → All IsReadBack (exchange n (bytes "tools/call") (call_params call) w)
      → let (outcome, w') = router.route (classified call) w in
        forward_call W process from_str to_string broken_pipe version call (at w n)
        ≡ (understood (result_of W router from_str to_string server outcome), at w' (n + 1))
  unfolding forward_call dispatch tools_call call_named routed call_for call_params get find text_eq
      as_str bytes
  forward_call-serve_stdio call w n small back =
      rw (request-serve_stdio (bytes "tools/call") (call_params call) w n small back) refl

  -- Calls that are forwarded one after the other, with what comes back.
  unfoldable pub forward_calls :
      List ToolCall → Connection W → List (Result Value Text) × Connection W
  unfolding forward_call
  forward_calls [] c = ([], c)
  forward_calls (call ∷ calls) c =
      let (answer, c') = forward_call W process from_str to_string broken_pipe version call c in
      let (answers, c'') = forward_calls calls c' in (answer ∷ answers, c'')

  -- The outcomes that the router gives to the calls in turn, as results or error messages.
  unfoldable pub route_calls : List ToolCall → W → List (Result Value Text) × W
  unfolding understood
  route_calls [] w = ([], w)
  route_calls (call ∷ calls) w =
      let (outcome, w') = router.route (classified call) w in
      let (answers, w'') = route_calls calls w' in
      (understood (result_of W router from_str to_string server outcome) ∷ answers, w'')

  -- What is said for calls, the first of which has this number.
  abbrev pub said : List ToolCall → W → ℕ → List Value
  said [] w n = []
  said (call ∷ calls) w n =
      exchange n (bytes "tools/call") (call_params call) w
      ++ said calls (router.route (classified call) w).1 (n + 1)

  forward_calls-route_calls :
      (calls : List ToolCall) (w : W) (n : ℕ)
      → n + length calls < 2 ^ 63
      → All IsReadBack (said calls w n)
      → forward_calls calls (at w n)
        ≡ (let (answers, w') = route_calls calls w in (answers, at w' (n + length calls)))
  unfolding forward_calls route_calls
  forward_calls-route_calls [] w n small back =
      let e : n ≡ n + 0 = omega arith in ap (λ k. ([], at w k)) e
  forward_calls-route_calls (call ∷ calls) w n small (asked, (answered_back, back)) =
      let e : (n + 1) + length calls ≡ n + suc (length calls) = omega arith in
      rw
        (
          forward_call-serve_stdio call w n (omega (arith, small)) (asked, (answered_back, tt)),
          forward_calls-route_calls calls (router.route (classified call) w).1 (n + 1)
              (omega (arith, small)),
          e,
        )
        refl

  -- Where the JSON texts of the messages that are exchanged are read back and are not blank, and the ids stay
  -- below 2 ^ 63: the proxy that starts the MCP server of this repository as its upstream finds the tools
  -- that the server has, and the calls that it forwards in turn give what the server's router makes of
  -- them, each with the kind of the trusted map, as results, or as error messages where they were blocked;
  -- no line is left unread.
  pub spawn-forward_calls :
      (calls : List ToolCall) (w : W)
      → 3 + length calls < 2 ^ 63
      → All IsReadBack (handshake w)
      → All IsReadBack (said calls w 3)
      → (c : Connection W) × (spawn W process from_str to_string broken_pipe version w
          ≡ ok (server.tools, c))
        × (forward_calls calls c ≡ (
            let (answers, w') = route_calls calls w in
            (answers, record { process = w'; unread = []; id_counter = 3 + length calls })))
  spawn-forward_calls calls w small first back =
      (at w 3, spawn-serve_stdio w first, forward_calls-route_calls calls w 3 small back)
