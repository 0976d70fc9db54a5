-- ===== src/Tests/Guarding.antt =====
-- Concrete paths, tools, sessions and vaults of crates/guardian-mcp-gateway and crates/guardian-broker.
use project_guardian.Common.{
  ◌∷◌, ◌<◌, ℕ, zero, suc, true, Option, none, some, [], ℤ, Text, bytes, contains,
  to_ascii_lowercase, Exists, ◌≡◌, ◌↔◌, inl, refl, arith,
}
use project_guardian.Core.{null, is_critical}
use project_guardian.Gateway.Call.{ToolCall, build_action}
use project_guardian.Gateway.Call.Inference.{critical_words, build_action-is_critical_iff}
use project_guardian.Gateway.State.{Config, session_vault}
use project_guardian.Gateway.Handle.{handle}
use project_guardian.Gateway.Handle.Denial.{IsStopped, handle-IsStopped}
use project_guardian.Gateway.Handle.Isolation.{handle-session_vault}
use project_guardian.Vault.Luhn.{luhn_ok}
use project_guardian.Vault.Luhn.Errors.{luhn_ok-one_digit}
use project_guardian.Vault.Spans.{candidates}
use project_guardian.Vault.Store.{id_of, hex_digit, hex_of, random_id, new, tokenize, detokenize}
use project_guardian.Vault.Store.RoundTrip.{
  IsRandom, IsConsistent, new-IsConsistent, detokenize-tokenize,
}
use project_guardian.Tests.Samples.{
  sample_ed, sample_hash, sample_cel, no_number, padding, sample_ports, sample_config, sample_state,
  payment_call,
}

abbrev stopped_config : Config sample_ed sample_cel
stopped_config = record sample_config {
  self_protection = record { protected_prefixes = []; kill_switch = some (bytes "/k") };
}

handle-IsStopped_example : IsStopped sample_state (
    handle sample_ed sample_cel no_number
      (record sample_ports { exists = λ path. true })
      stopped_config
      sample_hash
      payment_call
      sample_state)
handle-IsStopped_example =
    handle-IsStopped sample_ed sample_cel no_number (record sample_ports { exists = λ path. true })
      stopped_config sample_hash payment_call sample_state (inl refl)

abbrev unnamed_call : ToolCall
unnamed_call = record {
  tool = bytes "Wire_Transfer";
  args = null;
  kind = none;
  capability = none;
  session = none;
}

build_action-is_critical_iff_example :
    (is_critical (build_action unnamed_call [] [] (ℤ.pos 1)) ≡ true)
    ↔ Exists (λ w. contains (to_ascii_lowercase unnamed_call.tool) w ≡ true) critical_words
build_action-is_critical_iff_example =
    build_action-is_critical_iff unnamed_call [] [] (ℤ.pos 1) refl refl

handle-session_vault_example :
    session_vault
      (bytes "b")
      (handle sample_ed sample_cel no_number sample_ports sample_config sample_hash payment_call
        sample_state).1
    ≡ session_vault (bytes "b") sample_state
unfolding bytes
handle-session_vault_example =
    handle-session_vault sample_ed sample_cel no_number sample_ports sample_config sample_hash
      (bytes "b") payment_call sample_state (λ e. ground arith)

-- The random bytes of a draw hold its number.
counted_bytes : ℕ → Option Text
counted_bytes n = some (n ∷ padding 15)

two_ids :
    (m n : ℕ)
    → m < 2
    → n < 2
    → id_of counted_bytes padding m ≡ id_of counted_bytes padding n
    → m ≡ n
unfolding counted_bytes random_id hex_of hex_digit
two_ids zero zero small smaller e = refl
two_ids zero (suc zero) small smaller e = ground (arith, e)
two_ids (suc zero) zero small smaller e = ground (arith, e)
two_ids (suc zero) (suc zero) small smaller e = refl
two_ids (suc (suc m)) n small smaller e = absurd (omega (arith, small))
two_ids m (suc (suc n)) small smaller e = absurd (omega (arith, smaller))

two_drawn : IsRandom counted_bytes padding 2
unfolding counted_bytes
two_drawn = record { drawn = λ n small. (n ∷ padding 15, refl, refl); distinct = two_ids }

detokenize-tokenize_example :
    let t = tokenize counted_bytes padding (bytes "pay 4111 1111 1111 1111 now") new in
    (detokenize t.1 t.0 ≡ bytes "pay 4111 1111 1111 1111 now")
    × IsConsistent counted_bytes padding 2 t.1
unfolding contains bytes tokenize candidates counted_bytes new
detokenize-tokenize_example =
    detokenize-tokenize counted_bytes padding 2 (bytes "pay 4111 1111 1111 1111 now") new two_drawn
      (new-IsConsistent counted_bytes padding 2) (omega arith) refl

abbrev one : ℕ
one = b'1'

luhn_ok-one_digit_example : one ≡ one
unfolding luhn_ok bytes
luhn_ok-one_digit_example =
    luhn_ok-one_digit (bytes "4111111") (bytes "11111111") one one (omega arith) (omega arith)
      (omega arith) (omega arith) refl refl
