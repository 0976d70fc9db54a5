-- ===== src/Broker/Store.antt =====
-- crates/guardian-broker/src/lib.rs: the broker's secrets and caveats, and the injection of a secret
-- into a call's arguments.
pub mod Injection
pub mod Leaks
use project_guardian.Common.{
  Bool, true, false, ◌&&◌, Option, none, some, List, [], ◌∷◌, Text, bytes, length, leb, contains,
  Map, lookup, put, extend, is_some, Result, ok, err, if◌then◌else◌,
}
use project_guardian.Core.{Value, null, string, object, end, insert}
use project_guardian.Broker.Capability.{CapabilityRequest, Caveats, CaveatViolation, check}

pub record Broker : Type 0 where
  pub secrets : Map Text
  pub caveats : Map Caveats

-- `Broker::new`
unfoldable pub new : Map Text → Broker
new secrets = record { secrets = secrets; caveats = [] }

-- `Broker::from_toml_str`; the TOML parser is a parameter.
unfoldable pub from_toml_str : {E : Type 0} → (Text → Result (Map Text) E) → Text → Result Broker E
from_toml_str parse s = elim (parse s) [ ok secrets ↦ ok (new secrets) | err e ↦ err e ]

unfoldable pub set_caveats : Text → Caveats → Broker → Broker
unfolding put
set_caveats target caveats b = record b { caveats = put target caveats b.caveats }

-- `Broker::caveats_from_toml_str`: on a parse error nothing changes.
unfoldable pub caveats_from_toml_str :
    {E : Type 0} → (Text → Result (Map Caveats) E) → Text → Broker → Result Broker E
unfolding extend
caveats_from_toml_str parse s b = elim (parse s) [
  | ok m ↦ ok (record b { caveats = extend b.caveats m })
  | err e ↦ err e
]

allowed_by : Option Caveats → CapabilityRequest → Result (Unit {0}) CaveatViolation
allowed_by none req = ok tt
allowed_by (some caveats) req = check caveats req

unfoldable pub authorize : Broker → Text → CapabilityRequest → Result (Unit {0}) CaveatViolation
unfolding allowed_by lookup
authorize b target req = allowed_by (lookup target b.caveats) req

-- `Broker::add_keychain_targets`; reading the keychain is a parameter. What was overlaid before an
-- error stays.
unfoldable pub add_keychain_targets :
    {E : Type 0}
    → (Text → Result (Option Text) E)
    → List Text
    → Broker
    → Result (Unit {0}) E × Broker
unfolding put
add_keychain_targets load [] b = (ok tt, b)
add_keychain_targets load (target ∷ targets) b = elim (load target) [
  | err e ↦ (err e, b)
  | ok none ↦ add_keychain_targets load targets b
  | ok (some secret) ↦
      add_keychain_targets load targets (record b { secrets = put target secret b.secrets })
]

unfoldable pub has : Broker → Text → Bool
unfolding lookup
has b target = is_some (lookup target b.secrets)

unfoldable pub token_for : Broker → Text → Option Text
unfolding lookup
token_for b target = lookup target b.secrets

-- The loop over the secrets in `body_leaks_secret`.
leaks : Text → Map Text → Bool
unfolding contains
leaks haystack [] = false
leaks haystack ((target, token) ∷ secrets) =
    if leb 8 (length token) && contains haystack token then true else leaks haystack secrets

unfoldable pub body_leaks_secret : Broker → Text → Bool
unfolding leaks
body_leaks_secret b haystack = leaks haystack b.secrets

unfoldable pub default_field : Text
default_field = bytes "auth_token"

-- Arguments of another kind are left as they are.
inject_token : Option Text → Value → Text → Bool × Value
unfolding insert
inject_token none args field = (false, args)
inject_token (some token) null field = (true, object (insert field (string token) end))
inject_token (some token) (object ms) field = (true, object (insert field (string token) ms))
inject_token (some token) args field = (false, args)

-- `Broker::inject_as`: whether a token was injected, and the arguments after it.
unfoldable pub inject_as : Broker → Text → Value → Text → Bool × Value
unfolding inject_token lookup
inject_as b target args field = inject_token (lookup target b.secrets) args field

-- `Broker::inject`
unfoldable pub inject : Broker → Text → Value → Bool × Value
unfolding inject_as
inject b target args = inject_as b target args default_field
