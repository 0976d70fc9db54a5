-- ===== src/Tests/Mediating.antt =====
-- A concrete gateway of crates/guardian-mcp-gateway, with calls run through it.
use project_guardian.Common.{◌≡◌, refl}
use project_guardian.Core.{is_critical}
use project_guardian.Policy.Engine.{evaluate, rule_decision}
use project_guardian.Audit.Log.{empty, append}
use project_guardian.Audit.Log.Chain.{empty-IsIntact}
use project_guardian.Gateway.Call.{build_action}
use project_guardian.Gateway.Paths.{override_deny}
use project_guardian.Gateway.State.{approved, tokenization_on}
use project_guardian.Gateway.Handle.{
  handle, normalize, decide, mediate, conclude, consult, record_entry, dispatch,
}
use project_guardian.Gateway.Handle.Courses.{Course, entry_of, call_of}
use project_guardian.Gateway.Handle.Mediation.{
  consulting_on, action_of, hard_deny, clears, handle-Course, handle-critical,
}
use project_guardian.Tests.Samples.{
  sample_ports, sample_config, sample_state, payment_call, sample_ed, sample_hash, sample_cel,
  no_number,
}

handle-Course_example :
    Course sample_ed sample_cel no_number sample_ports sample_config sample_hash
      (consulting_on sample_ed sample_cel no_number sample_ports sample_config sample_hash
        (action_of sample_ed sample_cel no_number sample_ports sample_config sample_hash
          payment_call sample_state)
        (hard_deny sample_ed sample_cel no_number sample_ports sample_config sample_hash
          payment_call sample_state))
      (entry_of sample_ed sample_cel no_number sample_ports sample_config sample_hash
        (action_of sample_ed sample_cel no_number sample_ports sample_config sample_hash
          payment_call sample_state)
        (hard_deny sample_ed sample_cel no_number sample_ports sample_config sample_hash
          payment_call sample_state))
      (call_of sample_ed sample_cel no_number sample_ports sample_config sample_hash payment_call
        sample_state)
      (clears sample_ed sample_cel no_number sample_ports sample_config sample_hash payment_call
        sample_state)
      sample_state
      (handle sample_ed sample_cel no_number sample_ports sample_config sample_hash payment_call
        sample_state)
handle-Course_example =
    handle-Course sample_ed sample_cel no_number sample_ports sample_config sample_hash payment_call
      sample_state (empty-IsIntact sample_hash)

handle-critical_example :
    sample_ports.request_approval
      (action_of sample_ed sample_cel no_number sample_ports sample_config sample_hash payment_call
        sample_state)
      (sample_ports.explain (
        action_of sample_ed sample_cel no_number sample_ports sample_config sample_hash payment_call
          sample_state))
    ≡ approved
unfolding handle is_critical normalize build_action decide override_deny mediate conclude consult
    evaluate rule_decision record_entry append empty dispatch tokenization_on
handle-critical_example =
    handle-critical sample_ed sample_cel no_number sample_ports sample_config sample_hash
      payment_call sample_state refl (empty-IsIntact sample_hash) refl
