-- ===== src/Policy/Caps.antt =====
-- Caps of crates/guardian-policy/src/engine.rs: when an action is over a rule's limit.
use project_guardian.Common.{
  Bool, true, false, ◌||◌, not, Option, none, some, and_then, or_else, Text, bytes, F64, f64_gt,
  f64_of_int, eq_ignore_ascii_case,
}
use project_guardian.Core.{Value, get, as_str, as_f64, Action}
use project_guardian.Policy.Schema.{Cap}

-- The number parser of the standard library, `str::parse::<f64>`, is a parameter.
module _ (parse_f64 : Text → Option F64) where
  number_or_text : Value → Option F64
  number_or_text v = or_else (as_f64 v) (and_then (as_str v) parse_f64)

  unfoldable pub arg_number : Action → Text → Option F64
  unfolding number_or_text get as_str as_f64
  arg_number action key = and_then (get key action.args) number_or_text

  -- A limit that is set, and an argument over it or not a number.
  unfoldable pub over : Option F64 → Option F64 → Bool
  unfolding f64_gt
  over none value = false
  over (some limit) none = true
  over (some limit) (some value) = f64_gt value limit

  limit_of_count : Cap → Option F64
  limit_of_count cap = elim cap.count_max [ none ↦ none | some n ↦ some (f64_of_int n) ]

  same_currency : Option Text → Text → Bool
  unfolding eq_ignore_ascii_case
  same_currency none want = false
  same_currency (some got) want = eq_ignore_ascii_case got want

  wrong_currency : Option Text → Option Text → Bool
  unfolding same_currency
  wrong_currency none got = false
  wrong_currency (some want) got = not (same_currency got want)

  unfoldable pub cap_violated : Cap → Action → Bool
  unfolding arg_number over limit_of_count f64_of_int wrong_currency get as_str bytes
  cap_violated cap action =
      over cap.amount_max (arg_number action (bytes "amount"))
      || over (limit_of_count cap) (arg_number action (bytes "count"))
      || wrong_currency cap.currency (and_then (get (bytes "currency") action.args) as_str)
