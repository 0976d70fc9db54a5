-- ===== src/Cli/Mcp/Denying.antt =====
-- `run_mcp` of crates/guardian-cli/src/main.rs without a daemon.
use project_guardian.Common.{
  true, false, Option, none, some, and_then, Text, F64, bytes, ok, Bool-cases, inl, inr, ◌≡◌, refl,
  arith, sym, ◌∙◌,
}
use project_guardian.Core.{Value, get, as_str, is_critical, Action, Decision, allow, ask, deny}
use project_guardian.Crypto.{Ed25519}
use project_guardian.Policy.Cel.{Cel}
use project_guardian.Policy.Engine.{CompiledPolicy, EvalEnv, evaluate}
use project_guardian.Policy.Verdict.{evaluate-critical}
use project_guardian.Audit.Log.Chain.{IsIntact}
use project_guardian.Gateway.State.{Ports, Config, State, denied}
use project_guardian.Gateway.Handle.{handle}
use project_guardian.Gateway.Handle.Consulting.{permits, through_of}
use project_guardian.Gateway.Handle.Mediation.{action_of, hard_deny, passes, clears, handle-Course}
use project_guardian.Gateway.Mcp.{McpServer, call_for, tools_call}
use project_guardian.Gateway.Mcp.Guarded.{gateway_router, result_of-blocked, tools_call_lem}
use project_guardian.Cli.Mcp.{
  Mode, proxy, builtin, ports_in, config_in, server_in, proxy_ports, local_ports, ports_with,
  approver, deny_asks, config_of, proxy_config, local_config,
}

-- Nobody approves anything.
abbrev IsAlone : Ports → Type 0
IsAlone p = (action : Action) → p.request_approval action (p.explain action) ≡ denied

ports_in-IsAlone : (mode : Mode) (p : Ports) → IsAlone (ports_in mode p)
unfolding ports_in proxy_ports local_ports ports_with approver deny_asks
ports_in-IsAlone (proxy broker g) p action = refl
ports_in-IsAlone builtin p action = refl

permits-IsAlone :
    (p : Ports) (action : Action) (d : Decision) → IsAlone p → permits p action d ≡ true → d ≡ allow
permits-IsAlone p action allow alone e = refl
permits-IsAlone p action (deny reason) alone e = ground arith
permits-IsAlone p action (ask reason) alone e = let d = alone action in ground (arith, d, e)

module _ (ed : Ed25519) (cel : Cel) (parse_f64 : Text → Option F64) (blake3 : Text → Text) where
  passes-IsAlone :
      (p : Ports) (c : Config ed cel) (action : Action) (hard : Option Text)
      → IsAlone p
      → passes ed cel parse_f64 p c blake3 action hard ≡ true
      → (evaluate cel parse_f64 c.policy action c.env).decision ≡ allow
  passes-IsAlone p c action none alone e = permits-IsAlone p action _ alone e
  passes-IsAlone p c action (some reason) alone e = ground arith

  outright_not_critical :
      (policy : CompiledPolicy cel) (action : Action) (env : EvalEnv)
      → (evaluate cel parse_f64 policy action env).decision ≡ allow
      → is_critical action ≡ false
  outright_not_critical policy action env outright = elim (Bool-cases (is_critical action)) [
    | inl critical ↦
        absurd ((evaluate-critical cel parse_f64 policy action env critical).0 outright)
    | inr e ↦ e
  ]

  module _ (from_str : Text → Option Value) (to_string : Value → Text) where
    tools_call-IsAlone :
        (p : Ports) (c : Config ed cel) (server : McpServer) (name : Text) (params v : Value)
        (s : State)
        → IsAlone p
        → and_then (get (bytes "name") params) as_str ≡ some name
        → IsIntact blake3 s.audit
        → (tools_call State
            (gateway_router ed cel parse_f64 p c blake3)
            from_str
            to_string
            server
            params
            s).0
          ≡ ok v
        → (evaluate cel parse_f64 c.policy
            (action_of ed cel parse_f64 p c blake3 (call_for server name params) s)
            c.env).decision
          ≡ allow
    tools_call-IsAlone p c server name params v s alone named intact success =
        let call = call_for server name params in
        passes-IsAlone p c (action_of ed cel parse_f64 p c blake3 call s)
          (hard_deny ed cel parse_f64 p c blake3 call s) alone
          (through_of _ (clears ed cel parse_f64 p c blake3 call s) _
            (handle-Course ed cel parse_f64 p c blake3 call s intact).outcome
            (result_of-blocked ed cel parse_f64 p c blake3 from_str to_string server
              (handle ed cel parse_f64 p c blake3 call s).0 v
              (sym (
                  tools_call_lem ed cel parse_f64 p c blake3 from_str to_string server name params s
                    named)
                ∙ success)))

    -- Without a daemon, in front of upstream servers and on its own: a `tools/call` that succeeds over an
    -- intact log was allowed by the policy outright, and its action is of no critical category.
    pub tools_call-alone :
        (mode : Mode) (ports : Ports) (policy : CompiledPolicy cel) (env : EvalEnv)
        (version name : Text) (params v : Value) (s : State)
        → let p = ports_in mode ports in
          let c = config_in ed cel mode policy env in
          let server = server_in ed cel mode version policy in
          let action = action_of ed cel parse_f64 p c blake3 (call_for server name params) s in
          and_then (get (bytes "name") params) as_str ≡ some name
          → IsIntact blake3 s.audit
          → (tools_call State
              (gateway_router ed cel parse_f64 p c blake3)
              from_str
              to_string
              server
              params
              s).0
            ≡ ok v
          → ((evaluate cel parse_f64 policy action env).decision ≡ allow)
            × (is_critical action ≡ false)
    unfolding config_in proxy_config local_config config_of
    tools_call-alone (proxy broker g) ports policy env version name params v s named intact
          success =
        let p = ports_in (proxy broker g) ports in
        let c = config_in ed cel (proxy broker g) policy env in
        let server = server_in ed cel (proxy broker g) version policy in
        let outright =
          tools_call-IsAlone p c server name params v s (ports_in-IsAlone (proxy broker g) ports)
            named intact success in
        (outright, outright_not_critical policy _ env outright)
    tools_call-alone builtin ports policy env version name params v s named intact success =
        let p = ports_in builtin ports in
        let c = config_in ed cel builtin policy env in
        let server = server_in ed cel builtin version policy in
        let outright =
          tools_call-IsAlone p c server name params v s (ports_in-IsAlone builtin ports) named
            intact success in
        (outright, outright_not_critical policy _ env outright)
