-- ===== src/Core/Json.antt =====
-- `serde_json::Value`, the data that crates/guardian-core/src/lib.rs carries as arguments and extra
-- fields. An object is its list of members; a look-up finds the first one with the key.
use project_guardian.Common.{
  ℕ, ℤ, Bool, Option, none, some, ◌≡◌, Text, F64, text_eq, f64_of_nat, f64_of_int, if◌then◌else◌,
  arith, text_eq_iff, refl,
}

-- An integer that fits `u64` or `i64`, or a float.
pub data Number : Type 0 where
  unsigned : ℕ → Number
  signed : ℤ → Number
  float : F64 → Number

mutual
  pub data Value : Type 0 where
    null : Value
    boolean : Bool → Value
    number : Number → Value
    string : Text → Value
    array : Values → Value
    object : Members → Value

  pub data Values : Type 0 where
    nil : Values
    cons : Value → Values → Values

  pub data Members : Type 0 where
    end : Members
    member : Text → Value → Members → Members

-- `map.get(key)`
unfoldable pub find : Text → Members → Option Value
unfolding text_eq
find k end = none
find k (member j v ms) = if text_eq j k then some v else find k ms

-- `map.insert(key, value)`
unfoldable pub insert : Text → Value → Members → Members
unfolding text_eq
insert k v end = member k v end
insert k v (member j w ms) = if text_eq j k then member k v ms else member j w (insert k v ms)

-- `value.get(key)`: nothing but an object has members
unfoldable pub get : Text → Value → Option Value
unfolding find
get k (object ms) = find k ms
get k _ = none

unfoldable pub as_str : Value → Option Text
as_str (string s) = some s
as_str _ = none

unfoldable pub as_bool : Value → Option Bool
as_bool (boolean b) = some b
as_bool _ = none

number_f64 : Number → F64
number_f64 (unsigned n) = f64_of_nat n
number_f64 (signed z) = f64_of_int z
number_f64 (float x) = x

unfoldable pub as_f64 : Value → Option F64
unfolding number_f64 f64_of_nat f64_of_int
as_f64 (number n) = some (number_f64 n)
as_f64 _ = none

pub find-insert :
    (k j : Text) (v : Value) (ms : Members)
    → find j (insert k v ms) ≡ (if text_eq k j then some v else find j ms)
unfolding find insert
find-insert k j v end = refl
find-insert k j v (member i w ms) =
    ground (arith, text_eq_iff k j, text_eq_iff i k, text_eq_iff i j, find-insert k j v ms)
