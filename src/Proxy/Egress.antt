-- ===== src/Proxy/Egress.antt =====
-- What leaves through the proxy of crates/guardian-proxy/src/lib.rs, and with which credential.
use project_guardian.Common.{
  inr, inl, Bool-cases, ◌++◌, bytes, bytes, ◌⊎◌, ◌≢◌, ◌↔◌, ◌≡◌, true, false, Option, none, List,
  Text, F64, arith, refl,
}
use mathlib.Core.Option
use project_guardian.Core.{Action, is_critical, Decision, allow, ask, deny}
use project_guardian.Policy.Cel.{Cel}
use project_guardian.Policy.Engine.{EvalEnv, CompiledPolicy, evaluate}
use project_guardian.Policy.Verdict.{evaluate-critical}
use project_guardian.Broker.Store.{Broker, token_for}
use project_guardian.Proxy.{
  HttpRequest, forward, block, normalize_host, to_action, carries_secret, to_trusted,
  tag_exfiltration, authorization_of, needs_approval, outcome_of, classify, mediate,
}

outcome_of-eq-forward_iff :
    (d : Decision) (a b : Option Text) → (outcome_of d a ≡ forward b) ↔ ((d ≡ allow) × (b ≡ a))
unfolding outcome_of
outcome_of-eq-forward_iff d a b = ground arith

outcome_of-blocks :
    (d : Decision) (a : Option Text) → d ≢ allow → (reason : Text) × (outcome_of d a ≡ block reason)
unfolding outcome_of
outcome_of-blocks allow a h = absurd (h refl)
outcome_of-blocks (ask reason) a h = (needs_approval reason, refl)
outcome_of-blocks (deny reason) a h = (reason, refl)

module _ (cel : Cel) (parse_f64 : Text → Option F64) (policy : CompiledPolicy cel) (env : EvalEnv)
    (broker : Broker) where
  -- A request is forwarded exactly when the policy allows its action, and the credential that goes
  -- with it is the bearer token that the broker holds for its normalized host, if there is one.
  pub mediate-eq-forward_iff :
      (to_lowercase : Text → Text) (req : HttpRequest) (credential : Option Text)
      → (mediate cel parse_f64 to_lowercase req policy env broker ≡ forward credential) ↔ (
          ((evaluate cel parse_f64 policy (to_action to_lowercase req) env).decision ≡ allow)
          × (credential
              ≡ Option.map
                  (λ (t : Text). bytes "Bearer " ++ t)
                  (token_for broker (normalize_host req.host))))
  unfolding mediate classify to_action authorization_of
  mediate-eq-forward_iff to_lowercase req credential = outcome_of-eq-forward_iff _ _ credential

  pub tagged-critical :
      (action : Action) (trusted : List Text)
      → carries_secret action ≡ true
      → to_trusted action trusted ≡ false
      → (action.capability ≡ none) ⊎ (is_critical action ≡ true)
      → is_critical (tag_exfiltration action trusted) ≡ true
  unfolding tag_exfiltration is_critical
  tagged-critical action trusted c t h = ground arith

  -- A request that carries a known secret to a host that is not trusted, and is of no category or of a
  -- critical one, is blocked once it is tagged, whatever the policy says.
  pub tag_exfiltration-blocks :
      (action : Action) (trusted : List Text)
      → carries_secret action ≡ true
      → to_trusted action trusted ≡ false
      → (action.capability ≡ none) ⊎ (is_critical action ≡ true)
      → let tagged = tag_exfiltration action trusted in
        (reason : Text) × (classify tagged (evaluate cel parse_f64 policy tagged env) broker
          ≡ block reason)
  unfolding classify
  tag_exfiltration-blocks action trusted c t h =
      let tagged = tag_exfiltration action trusted in
      outcome_of-blocks _ _
        (evaluate-critical cel parse_f64 policy tagged env (tagged-critical action trusted c t h)).0

pub to_trusted-tag_exfiltration :
    (action : Action) (trusted : List Text)
    → to_trusted (tag_exfiltration action trusted) trusted ≡ to_trusted action trusted
unfolding tag_exfiltration to_trusted
to_trusted-tag_exfiltration action trusted = elim (Bool-cases (carries_secret action)) [
  | inl on ↦ rw on (ground arith)
  | inr off ↦ rw off refl
]

-- Tagging an action a second time changes nothing.
pub tag_exfiltration_idem :
    (action : Action) (trusted : List Text)
    → tag_exfiltration (tag_exfiltration action trusted) trusted ≡ tag_exfiltration action trusted
unfolding tag_exfiltration
tag_exfiltration_idem action trusted = ground arith
