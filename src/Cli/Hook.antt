-- ===== src/Cli/Hook.antt =====
-- crates/guardian-cli/src/main.rs: `decide_hook`, the decision on a native tool call of a coding agent. The
-- reading of JSON text is a parameter; standard input and output are left out.
use mathlib.Core.Option
use project_guardian.Common.{
  true, false, text_eq, refl, ap, sym, ◌∙◌, false, text_eq, ◌∙◌, sym, ap, inl, inr, ℕ, ℤ, Bool,
  ◌||◌, Option, none, some, and_then, or_else, unwrap_or, List, [], ◌∷◌, ◌++◌, Text, bytes, trim,
  member, map, F64, Result, ok, err, ◌==◌, if◌then◌else◌, ◌≡◌, refl, ap, sym, ◌∙◌, ◌↔◌, arith,
  Option-cases, Result-cases,
}
use project_guardian.Core.{
  Value, null, string, object, end, get, as_str, ActionKind, Action, Decision, allow, ask, deny,
  is_critical,
}
use project_guardian.Policy.Cel.{Cel}
use project_guardian.Policy.Engine.{EvalEnv, CompiledPolicy, evaluate}
use project_guardian.Vault.Store.{split_at_first}
use project_guardian.Gateway.Call.{ToolCall, build_action}

-- `replace('\\', "/")`
slashes : ℕ → ℕ
slashes c = if c == b'\\' then b'/' else c

-- `split(p).next()`
unfoldable pub until : (ℕ → Bool) → Text → Text
until p [] = []
until p (c ∷ s) = let rest = until p s in if p c then [] else c ∷ rest

-- `rsplit(c).next()`: what stands behind the last such byte, if there is one.
unfoldable pub behind_last : ℕ → Text → Option Text
behind_last c [] = none
behind_last c (x ∷ s) = or_else (behind_last c s) (if x == c then some s else none)

-- `split("://").nth(1)`
second_part : Text → Option Text
unfolding split_at_first bytes
second_part url =
    Option.map
      (λ (parts : Text × Text).
        unwrap_or
          (Option.map (λ (more : Text × Text). more.0) (split_at_first (bytes "://") parts.1))
          parts.1)
      (split_at_first (bytes "://") url)

ends_authority : ℕ → Bool
ends_authority c = c == b'/' || c == b'?' || c == b'#'

unfoldable pub host_from_url : Text → Text
unfolding slashes second_part until ends_authority behind_last
host_from_url url =
    let url = map slashes url in
    let authority = until ends_authority (unwrap_or (second_part url) url) in
    until (λ c. c == b':') (unwrap_or (behind_last b'@' authority) authority)

field : Text → Value → Option Text
unfolding get as_str
field k input = and_then (get k input) as_str

with_field : Text → Text → Value
with_field k v = object (project_guardian.Core.member k (string v) end)

-- The kind and the arguments of a known tool.
pub data Family : Type 0 where
  reads writes edits runs fetches searches unknown : Family

among : Text → List Text → Bool
unfolding member
among name names = member name names

unfoldable pub family_of : Text → Family
unfolding among bytes
family_of name =
    if among name
      (bytes "Read" ∷ bytes "Glob" ∷ bytes "Grep" ∷ bytes "LS" ∷ bytes "NotebookRead" ∷ [])
    then reads
    else if among name (bytes "Write" ∷ [])
    then writes
    else if among name (bytes "Edit" ∷ bytes "MultiEdit" ∷ bytes "NotebookEdit" ∷ [])
    then edits
    else if among name (bytes "Bash" ∷ [])
    then runs
    else if among name (bytes "WebFetch" ∷ [])
    then fetches
    else if among name (bytes "WebSearch" ∷ [])
    then searches
    else unknown

unfoldable pub kind_of : Family → ActionKind
kind_of reads = ActionKind.file_read
kind_of writes = ActionKind.file_write
kind_of edits = ActionKind.file_write
kind_of runs = ActionKind.exec
kind_of fetches = ActionKind.http_request
kind_of searches = ActionKind.http_request
kind_of unknown = ActionKind.other

-- The kinds of the agent's own tools, by their names.
abbrev pub native_kinds : List (List Text × ActionKind)
native_kinds =
    (
      bytes "Read" ∷ bytes "Glob" ∷ bytes "Grep" ∷ bytes "LS" ∷ bytes "NotebookRead" ∷ [],
      ActionKind.file_read,
    )
    ∷ (bytes "Write" ∷ [], ActionKind.file_write)
    ∷ (bytes "Edit" ∷ bytes "MultiEdit" ∷ bytes "NotebookEdit" ∷ [], ActionKind.file_write)
    ∷ (bytes "Bash" ∷ [], ActionKind.exec)
    ∷ (bytes "WebFetch" ∷ bytes "WebSearch" ∷ [], ActionKind.http_request)
    ∷ []

-- The kind that is listed for a name, or `Other`.
unfoldable pub listed_kind : Text → List (List Text × ActionKind) → ActionKind
unfolding member
listed_kind name [] = ActionKind.other
listed_kind name ((names, kind) ∷ kinds) =
    let rest = listed_kind name kinds in if member name names then kind else rest

chain_lem :
    (a b c d e f : Bool)
    → kind_of (
        if a
        then reads
        else if b
        then writes
        else if c
        then edits
        else if d
        then runs
        else if e || false
        then fetches
        else if f || false
        then searches
        else unknown)
      ≡ (if a
          then ActionKind.file_read
          else if b
          then ActionKind.file_write
          else if c
          then ActionKind.file_write
          else if d
          then ActionKind.exec
          else if e || (f || false)
          then ActionKind.http_request
          else ActionKind.other)
unfolding kind_of
chain_lem true b c d e f = refl
chain_lem false true c d e f = refl
chain_lem false false true d e f = refl
chain_lem false false false true e f = refl
chain_lem false false false false true f = refl
chain_lem false false false false false true = refl
chain_lem false false false false false false = refl

kind_of-native_kinds : (name : Text) → kind_of (family_of name) ≡ listed_kind name native_kinds
unfolding family_of among listed_kind
kind_of-native_kinds name =
    chain_lem
      (member name
        (bytes "Read" ∷ bytes "Glob" ∷ bytes "Grep" ∷ bytes "LS" ∷ bytes "NotebookRead" ∷ []))
      (member name (bytes "Write" ∷ []))
      (member name (bytes "Edit" ∷ bytes "MultiEdit" ∷ bytes "NotebookEdit" ∷ []))
      (member name (bytes "Bash" ∷ [])) (text_eq name (bytes "WebFetch"))
      (text_eq name (bytes "WebSearch"))

unfoldable pub args_of : Family → Value → Value
unfolding field with_field host_from_url bytes
args_of reads input =
    with_field (bytes "path")
      (unwrap_or (or_else (field (bytes "file_path") input) (field (bytes "path") input)) [])
args_of writes input = with_field (bytes "path") (unwrap_or (field (bytes "file_path") input) [])
args_of edits input =
    with_field (bytes "path") (
      unwrap_or (or_else (field (bytes "file_path") input) (field (bytes "notebook_path") input))
        [])
args_of runs input = with_field (bytes "cmd") (unwrap_or (field (bytes "command") input) [])
args_of fetches input = object (
    project_guardian.Core.member (bytes "method") (string (bytes "GET")) (
      project_guardian.Core.member (bytes "host")
        (string (host_from_url (unwrap_or (field (bytes "url") input) []))) end))
args_of searches input = with_field (bytes "method") (bytes "GET")
args_of unknown input = input

unfoldable pub claude_tool_to_call : Text → Value → ToolCall
unfolding family_of kind_of args_of
claude_tool_to_call tool_name input = record {
  tool = tool_name;
  args = args_of (family_of tool_name) input;
  kind = some (kind_of (family_of tool_name));
  capability = none;
  session = none;
}

unfoldable pub permission_of : Decision → Text × Text
unfolding bytes
permission_of allow = (bytes "allow", bytes "Allowed by Guardian policy.")
permission_of (ask reason) = (bytes "ask", reason)
permission_of (deny reason) = (bytes "deny", reason)

module _ (cel : Cel) (parse_f64 : Text → Option F64) (from_str : Text → Result Value Text)
    (policy : CompiledPolicy cel) (env : EvalEnv) where
  unfoldable pub action_for : Text → Value → Action
  unfolding claude_tool_to_call build_action bytes
  action_for tool_name tool_input =
      build_action (claude_tool_to_call tool_name tool_input) (bytes "claude-code-hook")
        (bytes "hook") (ℤ.pos 0)

  decide_named : Option Text → Value → Text × Text
  unfolding permission_of action_for bytes
  decide_named none tool_input =
      (bytes "ask", bytes "Guardian saw no tool_name; escalating to you.")
  decide_named (some tool_name) tool_input =
      permission_of (evaluate cel parse_f64 policy (action_for tool_name tool_input) env).decision

  decide_read : Result Value Text → Text × Text
  unfolding decide_named get as_str bytes
  decide_read (err e) = (
    bytes "ask",
    bytes "Guardian could not parse the hook input (" ++ (e ++ bytes "); escalating to you."),
  )
  decide_read (ok value) =
      decide_named (and_then (get (bytes "tool_name") value) as_str)
        (unwrap_or (get (bytes "tool_input") value) null)

  -- `decide_hook`: the permission and its reason
  unfoldable pub decide_hook : Text → Text × Text
  unfolding decide_read trim
  decide_hook input = decide_read (from_str (trim input))

  permission_of-eq-allow_iff : (d : Decision) → ((permission_of d).0 ≡ bytes "allow") ↔ (d ≡ allow)
  unfolding permission_of bytes
  permission_of-eq-allow_iff d = ground arith

  -- The action of a tool call: its kind is the one of the tool's name, whatever else the name holds.
  abbrev pub native_action : Text → Value → Action
  native_action name input =
      build_action
        (record {
          tool = name;
          args = args_of (family_of name) input;
          kind = some (listed_kind name native_kinds);
          capability = none;
          session = none;
        })
        (bytes "claude-code-hook") (bytes "hook") (ℤ.pos 0)

  action_for-native_action :
      (name : Text) (input : Value) → action_for name input ≡ native_action name input
  unfolding action_for claude_tool_to_call
  action_for-native_action name input = rw (kind_of-native_kinds name) refl

  -- The hook says `allow` exactly when the input is JSON, names a tool, and the policy allows the action of
  -- that name, whose kind is the one listed for the name, and `Other` for a name that is not listed.
  pub decide_hook-eq-allow_iff :
      (input : Text)
      → ((decide_hook input).0 ≡ bytes "allow") ↔ (
          (value : Value) × (name : Text) × (from_str (trim input) ≡ ok value)
          × (and_then (get (bytes "tool_name") value) as_str ≡ some name)
          × ((evaluate cel parse_f64 policy
                (native_action name (unwrap_or (get (bytes "tool_input") value) null))
                env).decision
              ≡ allow))
  unfolding decide_hook decide_read decide_named bytes
  decide_hook-eq-allow_iff input = (
    λ h. elim (Result-cases (from_str (trim input))) [
      | inr (e, r) ↦ ground (arith, rw r at h)
      | inl (value, r) ↦ elim (Option-cases (and_then (get (bytes "tool_name") value) as_str)) [
        | inl n ↦ ground (arith, rw (r, n) at h)
        | inr (name, n) ↦ (
          value,
          name,
          r,
          n,
          ap (λ (a : Action). (evaluate cel parse_f64 policy a env).decision)
                (sym (action_for-native_action name _))
              ∙ (permission_of-eq-allow_iff _).0 (rw (r, n) at h),
        )
      ]
    ],
    λ (value, name, r, n, a).
        rw (r, n)
          ((permission_of-eq-allow_iff _).1 (
            ap (λ (a : Action). (evaluate cel parse_f64 policy a env).decision)
              (action_for-native_action name _)
            ∙ a)),
  )
