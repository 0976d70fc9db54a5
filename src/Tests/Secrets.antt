-- ===== src/Tests/Secrets.antt =====
-- Concrete caveats, brokers and credentials of crates/guardian-broker.
use project_guardian.Common.{◌++◌, true, false, none, some, [], ℤ, Text, bytes, ◌≡◌, refl}
use project_guardian.Broker.Capability.{CapabilityRequest}
use project_guardian.Broker.Credential.{Credential, issue, verify, trusts, is_past}
use project_guardian.Broker.Credential.Verification.{verify-IsVouched, IsVouched}
use project_guardian.Tests.Samples.{sample_ed, sample_hex}

abbrev sample_request : CapabilityRequest
sample_request = record {
  host = bytes "a.example";
  now_ms = ℤ.pos 10;
  amount = none;
  critical = true;
  freshly_approved = false;
}

abbrev sample_credential : Credential
sample_credential = record {
  subject = bytes "bot";
  issuer = [];
  claims = [];
  not_after_ms = some (ℤ.pos 20);
}

canonical_sample : Credential → Text
canonical_sample c = c.subject ++ c.issuer

verify-IsVouched_example :
    let s = issue sample_ed sample_hex canonical_sample sample_credential 4 in
    (s.credential ≡ s.credential)
    × IsVouched sample_ed sample_hex canonical_sample s (ℤ.pos 10) none
unfolding issue verify is_past canonical_sample bytes trusts
verify-IsVouched_example =
    let s = issue sample_ed sample_hex canonical_sample sample_credential 4 in
    verify-IsVouched sample_ed sample_hex canonical_sample s (ℤ.pos 10) none s.credential refl
