-- ===== src/Broker/Store/Leaks.antt =====
-- The search of a request body for the broker's secrets in crates/guardian-broker/src/lib.rs.
use project_guardian.Common.{
  true, some, [], ◌∷◌, ◌++◌, Text, length, contains, contains-append, Map, lookup, text_eq_iff, ◌≡◌,
  ◌≤◌, arith, Exists, ◌↔◌,
}
use project_guardian.Broker.Store.{Broker, token_for, leaks, body_leaks_secret}

-- The secret is long enough to be searched for, and in the text.
abbrev pub Leaks : Text → Text × Text → Type 0
Leaks haystack (target, token) = (8 ≤ length token) × (contains haystack token ≡ true)

leaks_iff :
    (haystack : Text) (secrets : Map Text)
    → (leaks haystack secrets ≡ true) ↔ Exists (Leaks haystack) secrets
unfolding leaks
leaks_iff haystack [] = ground arith
leaks_iff haystack ((target, token) ∷ secrets) = ground (arith, leaks_iff haystack secrets)

-- A body is reported exactly when it contains some held secret of at least 8 bytes.
pub body_leaks_secret_iff :
    (b : Broker) (haystack : Text)
    → (body_leaks_secret b haystack ≡ true) ↔ Exists (Leaks haystack) b.secrets
unfolding body_leaks_secret
body_leaks_secret_iff b haystack = leaks_iff haystack b.secrets

held_leak :
    (target token haystack : Text) (secrets : Map Text)
    → lookup target secrets ≡ some token
    → Leaks haystack (target, token)
    → leaks haystack secrets ≡ true
unfolding leaks lookup
held_leak target token haystack [] h l = cc
held_leak target token haystack ((j, v) ∷ secrets) h l =
    ground (arith, text_eq_iff j target, held_leak target token haystack secrets)

-- A body with a held token of at least 8 bytes anywhere in it is reported, whatever surrounds it.
pub body_leaks_secret-append :
    (b : Broker) (target token before after : Text)
    → token_for b target ≡ some token
    → 8 ≤ length token
    → body_leaks_secret b (before ++ (token ++ after)) ≡ true
unfolding body_leaks_secret token_for
body_leaks_secret-append b target token before after h n =
    held_leak target token (before ++ (token ++ after)) b.secrets h
      (n, contains-append before token after)
