-- ===== src/Gateway/Mcp/Replies.antt =====
-- What the server of crates/guardian-mcp-gateway/src/lib.rs, module `mcp`, answers, and which tool calls it
-- makes.
use project_guardian.Common.{
  lookup, ap, err, ◌∙◌, err, ok, [], unwrap_or, ◌≢◌, Option, none, some, and_then, Text, bytes,
  text_eq, text_eq_iff, Result, ◌≡◌, ◌⊎◌, inl, inr, refl, Bool-cases,
}
use project_guardian.Core.{
  ActionKind, number, boolean, string, array, object, number, boolean, find, null, Value, get,
  as_str,
}
use project_guardian.Gateway.Mcp.{
  ToolCall, kind_for, error_value, success_value, reply_with, reply, reply_to, ToolRouter,
  McpServer, Failure, call_for, routed, call_named, tools_call, dispatch,
}

module _ (W : Type 0) (router : ToolRouter W) (from_str : Text → Option Value)
    (to_string : Value → Text) (server : McpServer) where
  call_named_lem :
      (o : Option Text) (params : Value) (w : W)
      → ((call_named W router from_str to_string server o params w).1 ≡ w)
        ⊎ ((name : Text) × (o ≡ some name)
            × (call_named W router from_str to_string server o params w
                ≡ routed W router from_str to_string server
                    (router.route (call_for server name params) w)))
  unfolding call_named
  call_named_lem none params w = inl refl
  call_named_lem (some name) params w = inr (name, refl, refl)

  -- The router is called, once, for `tools/call` with a name alone.
  Routes : Text → Value → W → Result Value Failure × W → Type 0
  Routes method params w t =
      (t.1 ≡ w)
      ⊎ ((name : Text) × (method ≡ bytes "tools/call")
          × (and_then (get (bytes "name") params) as_str ≡ some name)
          × (t
              ≡ routed W router from_str to_string server
                  (router.route (call_for server name params) w)))

  dispatch_lem :
      (method : Text) (params : Value) (w : W)
      → Routes method params w (dispatch W router from_str to_string server method params w)
  unfolding dispatch tools_call Routes
  dispatch_lem method params w = elim (Bool-cases (text_eq method (bytes "initialize"))) [
    | inl e ↦ rw e (inl refl)
    | inr e ↦ rw e (elim (Bool-cases (text_eq method (bytes "tools/list"))) [
      | inl e ↦ rw e (inl refl)
      | inr e ↦ rw e (elim (Bool-cases (text_eq method (bytes "ping"))) [
        | inl e ↦ rw e (inl refl)
        | inr e ↦ rw e (elim (Bool-cases (text_eq method (bytes "tools/call"))) [
          | inr e ↦ rw e (inl refl)
          | inl e ↦
              rw e (elim (call_named_lem (and_then (get (bytes "name") params) as_str) params w) [
                | inl same ↦ inl same
                | inr (name, named, through) ↦
                    inr (name, (text_eq_iff method (bytes "tools/call")).0 e, named, through)
              ])
        ])
      ])
    ])
  ]

  pub Answers : Value → Option Value → Type 0
  Answers id none = ⊥
  Answers id (some v) = get (bytes "id") v ≡ some id

  reply_with-Answers :
      (id : Value) (t : Result Value Failure × W)
      → let r = reply_with W router from_str to_string server id t in Answers id r.0 × (r.1 ≡ t.1)
  unfolding reply_with success_value error_value Answers get find text_eq bytes
  reply_with-Answers id (ok v, w) = (refl, refl)
  reply_with-Answers id (err (code, message), w) = (refl, refl)

  reply_to_lem :
      (id request : Value) (w : W)
      → id ≢ null
      → reply_to W router from_str to_string server (some id) request w
        ≡ reply_with W router from_str to_string server id (
            dispatch W router from_str to_string server
              (unwrap_or (and_then (get (bytes "method") request) as_str) [])
              (unwrap_or (get (bytes "params") request) null)
              w)
  unfolding reply_to
  reply_to_lem null request w real = absurd (real refl)
  reply_to_lem (boolean b) request w real = refl
  reply_to_lem (number n) request w real = refl
  reply_to_lem (string s) request w real = refl
  reply_to_lem (array vs) request w real = refl
  reply_to_lem (object ms) request w real = refl

  -- The call of a name: its kind is that of the trusted map or `Other`, whatever the name is.
  abbrev pub named_call : Text → Value → ToolCall
  named_call name params = record {
    tool = name;
    args = unwrap_or (get (bytes "arguments") params) null;
    kind = some (unwrap_or (lookup name server.classifier) ActionKind.other);
    capability = none;
    session = none;
  }

  -- A message with an id gets one answer, which has the same id; it leaves the router as it was, or it
  -- is a `tools/call` with a name, and the router gets the one call of that name, whose kind is that of
  -- the trusted map, and the answer is made of its outcome.
  pub reply-Answers :
      (id request : Value) (w : W)
      → get (bytes "id") request ≡ some id
      → id ≢ null
      → let method = unwrap_or (and_then (get (bytes "method") request) as_str) [] in
        let params = unwrap_or (get (bytes "params") request) null in
        let t = reply W router from_str to_string server (some request) w in
        Answers id t.0
        × ((t.1 ≡ w)
            ⊎ ((name : Text) × (method ≡ bytes "tools/call")
                × (and_then (get (bytes "name") params) as_str ≡ some name)
                × (t
                    ≡ reply_with W router from_str to_string server id (
                        routed W router from_str to_string server
                          (router.route (named_call name params) w)))))
  unfolding reply call_for kind_for
  reply-Answers id request w e real =
      let method = unwrap_or (and_then (get (bytes "method") request) as_str) [] in
      let params = unwrap_or (get (bytes "params") request) null in
      let d = dispatch W router from_str to_string server method params w in
      let (answered, same) = reply_with-Answers id d in
      rw (e, reply_to_lem id request w real)
        (
          answered,
          unfold Routes in
              elim (dispatch_lem method params w) [
                | inl unchanged ↦ inl (same ∙ unchanged)
                | inr (name, m, n, through) ↦
                    inr (name, m, n, ap (reply_with W router from_str to_string server id) through)
              ],
        )

  -- A notification gets no answer and leaves the router as it was, whatever its method.
  pub reply-notification :
      (request : Value) (w : W)
      → (get (bytes "id") request ≡ none) ⊎ (get (bytes "id") request ≡ some null)
      → reply W router from_str to_string server (some request) w ≡ (none, w)
  unfolding reply reply_to
  reply-notification request w (inl e) = rw e refl
  reply-notification request w (inr e) = rw e refl
