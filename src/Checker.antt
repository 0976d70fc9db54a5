-- ===== src/Checker.antt =====
-- crates/guardian-checker/src/lib.rs: the advisory explanation and risk of an action, offline and over
-- HTTP. The HTTP client is a parameter: what it sends back is the chunks of a successful response, each
-- read or not, or nothing.
use project_guardian.Common.{
  refl, Bool-cases, inr, inl, Option-cases, length-append, true, is_some, ℕ, ◌+◌, ◌≤◌, max, min,
  false, Option, none, some, and_then, List, [], ◌∷◌, ◌++◌, Text, bytes, length, ltb, if◌then◌else◌,
  ◌≡◌, ◌⊎◌, arith,
}
use mathlib.Core.Option
use project_guardian.Core.{Action, ActionKind, is_critical}
use project_guardian.Gateway.State.{Explanation}

what_it_does : ActionKind → Text
unfolding bytes
what_it_does ActionKind.file_read = bytes "read files on your computer"
what_it_does ActionKind.file_write = bytes "create or modify files on your computer"
what_it_does ActionKind.exec = bytes "run a command on your computer"
what_it_does ActionKind.http_request = bytes "make a network request"
what_it_does ActionKind.email = bytes "send an email on your behalf"
what_it_does ActionKind.payment = bytes "move money"
what_it_does ActionKind.delete = bytes "delete data"
what_it_does ActionKind.other = bytes "perform an action"

unfoldable pub describe : Action → Text
unfolding what_it_does bytes
describe action =
    bytes "The agent wants to "
    ++ (what_it_does action.kind ++ (bytes " (via `" ++ (action.tool ++ bytes "`).")))

kind_risk : ActionKind → ℕ
kind_risk ActionKind.file_read = 10
kind_risk ActionKind.file_write = 30
kind_risk ActionKind.http_request = 40
kind_risk ActionKind.email = 45
kind_risk ActionKind.other = 50
kind_risk ActionKind.delete = 65
kind_risk ActionKind.exec = 70
kind_risk ActionKind.payment = 90

unfoldable pub base_risk : Action → ℕ
unfolding kind_risk is_critical
base_risk action =
    let risk = kind_risk action.kind in if is_critical action then max risk 90 else risk

-- `StubChecker::explain`
unfoldable pub stub_explain : Action → Explanation
unfolding describe base_risk bytes
stub_explain action = record {
  plain_text = describe action;
  risk = base_risk action;
  rationale = bytes "Heuristic offline checker (no model).";
}

unfoldable pub max_body : ℕ
max_body = 262144

-- The loop over the chunks: an error or a body that is too long ends it.
unfoldable pub read_body : Text → List (Option Text) → Option Text
unfolding max_body
read_body body [] = some body
read_body body (none ∷ chunks) = none
read_body body (some chunk ∷ chunks) =
    let rest = read_body (body ++ chunk) chunks in
    if ltb max_body (length body + length chunk) then none else rest

unfoldable pub clamped : Explanation → Explanation
clamped e = record e { risk = min e.risk 100 }

base_risk_lem :
    (action : Action)
    → (base_risk action ≤ 100) × ((is_critical action ≡ false) ⊎ (90 ≤ base_risk action))
unfolding base_risk kind_risk
base_risk_lem action = ground arith

-- A body that is read is within the limit, if what was read before is.
read_body-bounded :
    (body read : Text) (chunks : List (Option Text))
    → length body ≤ max_body
    → read_body body chunks ≡ some read
    → length read ≤ max_body
unfolding read_body
read_body-bounded body read [] small e = ground (arith, small, e)
read_body-bounded body read (none ∷ chunks) small e = ground (arith, e)
read_body-bounded body read (some chunk ∷ chunks) small e =
    elim (Bool-cases (ltb max_body (length body + length chunk))) [
      | inl big ↦ ground (arith, rw big at e)
      | inr fits ↦
          read_body-bounded (body ++ chunk) read chunks
            (ground (arith, fits, length-append body chunk)) (rw fits at e)
    ]

-- `post` sends an action and reads the status; `decode` is the reader of JSON.
module _ (post : Action → Option (List (Option Text))) (decode : Text → Option Explanation) where
  unfoldable pub try_explain : Action → Option Explanation
  unfolding read_body clamped
  try_explain action = Option.map clamped (
      and_then (and_then (post action) (λ (chunks : List (Option Text)). read_body [] chunks))
        decode)

  unfoldable pub explained : Action → Option Explanation → Explanation
  unfolding describe base_risk bytes
  explained action (some e) = e
  explained action none = record {
    plain_text = describe action;
    risk = max (base_risk action) 60;
    rationale = bytes "Checker endpoint unavailable; conservative offline estimate.";
  }

  -- `HttpChecker::explain`
  unfoldable pub explain : Action → Explanation
  unfolding explained try_explain
  explain action = explained action (try_explain action)

  -- An explanation that the endpoint gave was decoded from a body of at most the limit, which was read
  -- from the response, and its risk is cut to 100.
  pub try_explain-bounded :
      (action : Action) (e : Explanation)
      → try_explain action ≡ some e
      → (chunks : List (Option Text)) × (body : Text) × (x : Explanation) × (post action
          ≡ some chunks)
        × (read_body [] chunks ≡ some body)
        × (length body ≤ max_body)
        × (decode body ≡ some x)
        × (e ≡ record x { risk = min x.risk 100 })
  unfolding try_explain clamped
  try_explain-bounded action e h = elim (Option-cases (post action)) [
    | inl p ↦ ground (arith, rw p at h)
    | inr (chunks, p) ↦ elim (Option-cases (read_body [] chunks)) [
      | inl r ↦ ground (arith, rw (p, r) at h)
      | inr (body, r) ↦ elim (Option-cases (decode body)) [
        | inl d ↦ ground (arith, rw (p, r, d) at h)
        | inr (x, d) ↦ (
          chunks,
          body,
          x,
          p,
          r,
          read_body-bounded [] body chunks (unfold max_body in omega arith) r,
          d,
          ground (arith, rw (p, r, d) at h),
        )
      ]
    ]
  ]

  risk_of : (action : Action) (x : Explanation) → try_explain action ≡ some x → x.risk ≤ 100
  risk_of action x e =
      let (_, _, y, _, _, _, _, same) = try_explain-bounded action x e in ground (arith, same)

  -- An explanation over HTTP never has a risk above 100, and of at least 60 where the endpoint gives none;
  -- offline an action of a critical category has at least 90, and none more than 100.
  pub explain-risk :
      (action : Action)
      → ((explain action).risk ≤ 100)
        × ((is_some (try_explain action) ≡ true) ⊎ (60 ≤ (explain action).risk))
        × ((stub_explain action).risk ≤ 100)
        × ((is_critical action ≡ false) ⊎ (90 ≤ (stub_explain action).risk))
  unfolding explain explained stub_explain
  explain-risk action =
      let (bounded, high) = base_risk_lem action in
      elim (Option-cases (try_explain action)) [
        | inl e ↦ rw e (omega (arith, bounded), inr (omega arith), bounded, high)
        | inr (x, e) ↦ rw e (risk_of action x e, inl refl, bounded, high)
      ]
