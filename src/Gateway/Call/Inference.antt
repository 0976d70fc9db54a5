-- ===== src/Gateway/Call/Inference.antt =====
-- Which tools crates/guardian-mcp-gateway/src/lib.rs takes for critical by their names.
use project_guardian.Common.{
  or_else, true, Option, none, List, [], ◌∷◌, ℤ, Text, bytes, contains, to_ascii_lowercase, Exists,
  ◌≡◌, ◌⊎◌, arith, ◌↔◌,
}
use project_guardian.Core.{ActionKind, Capability, Action, is_critical, is_critical_capability}
use project_guardian.Gateway.Call.{
  ToolCall, kind_of_name, infer_kind, infer_capability, build_action,
}

-- The words that stand for moving money and for deletion.
abbrev pub critical_words : List Text
critical_words =
    bytes "payment" ∷ bytes "transfer" ∷ bytes "pay" ∷ bytes "delete" ∷ bytes "remove" ∷ []

kind_of_name_iff :
    (t : Text)
    → Exists (λ w. contains t w ≡ true) critical_words
      ↔ ((kind_of_name t ≡ ActionKind.payment) ⊎ (kind_of_name t ≡ ActionKind.delete))
unfolding kind_of_name
kind_of_name_iff t = ground arith

kind-is_critical :
    (kind : ActionKind) (c : Option Capability)
    → c ≡ none
    → (a : Action) → a.capability ≡ or_else c (infer_capability kind)
    → (is_critical a ≡ true) ↔ ((kind ≡ ActionKind.payment) ⊎ (kind ≡ ActionKind.delete))
unfolding is_critical is_critical_capability infer_capability
kind-is_critical kind c h a e = ground arith

-- A call that comes with neither a kind nor a capability is of a critical category exactly when its
-- tool's name holds, in any case, a word for moving money or for deletion.
pub build_action-is_critical_iff :
    (call : ToolCall) (source id : Text) (now : ℤ)
    → call.kind ≡ none
    → call.capability ≡ none
    → (is_critical (build_action call source id now) ≡ true)
      ↔ Exists (λ w. contains (to_ascii_lowercase call.tool) w ≡ true) critical_words
unfolding build_action infer_kind
build_action-is_critical_iff call source id now h k = ground (
  arith,
  kind_of_name_iff (to_ascii_lowercase call.tool),
  kind-is_critical (infer_kind call.tool) call.capability k (build_action call source id now),
)
