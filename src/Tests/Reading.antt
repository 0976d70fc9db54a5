-- ===== src/Tests/Reading.antt =====
-- A code of JSON values as texts that is read back, for runs that print values.
use mathlib.Core.List.{reverse-append, append_assoc, reverse-reverse, reverse}
use project_guardian.Common.{
  subst, ℕ, ℤ, true, false, Option, none, some, List, [], ◌∷◌, ◌++◌, Text, ◌≡◌, refl, trim, strip,
  leading_space, trailing_space, length, sym, zero, suc, if◌then◌else◌, ◌==◌,
}
use project_guardian.Gateway.Upstream.Stdio.{is_blank}
use project_guardian.Core.{
  Value, null, boolean, number, Number, string, array, object, Values, nil, cons, Members, end,
  member,
}

data Item : Type 0 where
  a_text : Text → Item
  a_value : Value → Item
  values : Values → Item
  members : Members → Item

push_char : ℕ → List Item → List Item
push_char c (a_text s ∷ st) = a_text (c ∷ s) ∷ st
push_char c st = st

push_string : List Item → List Item
push_string (a_text s ∷ st) = a_value (string s) ∷ st
push_string st = st

push_cons : List Item → List Item
push_cons (a_value v ∷ values vs ∷ st) = values (cons v vs) ∷ st
push_cons st = st

push_array : List Item → List Item
push_array (values vs ∷ st) = a_value (array vs) ∷ st
push_array st = st

push_member : List Item → List Item
push_member (a_text k ∷ a_value v ∷ members ms ∷ st) = members (member k v ms) ∷ st
push_member st = st

push_object : List Item → List Item
push_object (members ms ∷ st) = a_value (object ms) ∷ st
push_object st = st

apply : ℕ → ℕ → List Item → List Item
unfolding push_char push_string push_cons push_array push_member push_object
apply t n st =
    if t == 1
    then a_value null ∷ st
    else if t == 2
    then a_value (boolean true) ∷ st
    else if t == 3
    then a_value (boolean false) ∷ st
    else if t == 4
    then a_value (number (Number.unsigned n)) ∷ st
    else if t == 5
    then a_value (number (Number.signed (ℤ.pos n))) ∷ st
    else if t == 6
    then a_value (number (Number.signed (ℤ.negsuc n))) ∷ st
    else if t == 7
    then a_value (number (Number.float n)) ∷ st
    else if t == 8
    then a_text [] ∷ st
    else if t == 9
    then push_char n st
    else if t == 10
    then push_string st
    else if t == 11
    then values nil ∷ st
    else if t == 12
    then push_cons st
    else if t == 13
    then push_array st
    else if t == 14
    then members end ∷ st
    else if t == 15
    then push_member st
    else if t == 16
    then push_object st
    else st

-- Two numbers of the text at a time.
run : Text → List Item → List Item
unfolding apply
run (t ∷ n ∷ ts) st = run ts (apply t n st)
run _ st = st

code_number : Number → Text
code_number (Number.unsigned n) = 4 ∷ n ∷ []
code_number (Number.signed (ℤ.pos n)) = 5 ∷ n ∷ []
code_number (Number.signed (ℤ.negsuc n)) = 6 ∷ n ∷ []
code_number (Number.float n) = 7 ∷ n ∷ []

code_text : Text → Text
code_text [] = 8 ∷ 0 ∷ []
code_text (c ∷ s) = code_text s ++ (9 ∷ c ∷ [])

mutual
  unfolding code_number code_text

  code : Value → Text
  code null = 1 ∷ 0 ∷ []
  code (boolean true) = 2 ∷ 0 ∷ []
  code (boolean false) = 3 ∷ 0 ∷ []
  code (number n) = code_number n
  code (string s) = code_text s ++ (10 ∷ 0 ∷ [])
  code (array vs) = code_values vs ++ (13 ∷ 0 ∷ [])
  code (object ms) = code_members ms ++ (16 ∷ 0 ∷ [])

  code_values : Values → Text
  code_values nil = 11 ∷ 0 ∷ []
  code_values (cons v vs) = code_values vs ++ (code v ++ (12 ∷ 0 ∷ []))

  code_members : Members → Text
  code_members end = 14 ∷ 0 ∷ []
  code_members (member k v ms) = code_members ms ++ (code v ++ (code_text k ++ (15 ∷ 0 ∷ [])))

run-code_text : (s ts : Text) (st : List Item) → run (code_text s ++ ts) st ≡ run ts (a_text s ∷ st)
unfolding run code_text apply push_char
run-code_text [] ts st = refl
run-code_text (c ∷ s) ts st =
    rw (append_assoc (code_text s) (9 ∷ c ∷ []) ts, run-code_text s (9 ∷ c ∷ ts) st) refl

mutual
  unfolding run code code_values code_members apply push_string push_array push_object push_cons
      push_member code_number

  run-code :
      (v : Value) (ts : Text) (st : List Item) → run (code v ++ ts) st ≡ run ts (a_value v ∷ st)
  run-code null ts st = refl
  run-code (boolean true) ts st = refl
  run-code (boolean false) ts st = refl
  run-code (number (Number.unsigned n)) ts st = refl
  run-code (number (Number.signed (ℤ.pos n))) ts st = refl
  run-code (number (Number.signed (ℤ.negsuc n))) ts st = refl
  run-code (number (Number.float n)) ts st = refl
  run-code (string s) ts st =
      rw (append_assoc (code_text s) (10 ∷ 0 ∷ []) ts, run-code_text s (10 ∷ 0 ∷ ts) st) refl
  run-code (array vs) ts st =
      rw (append_assoc (code_values vs) (13 ∷ 0 ∷ []) ts, run-code_values vs (13 ∷ 0 ∷ ts) st) refl
  run-code (object ms) ts st =
      rw (append_assoc (code_members ms) (16 ∷ 0 ∷ []) ts, run-code_members ms (16 ∷ 0 ∷ ts) st)
        refl

  run-code_values :
      (vs : Values) (ts : Text) (st : List Item)
      → run (code_values vs ++ ts) st ≡ run ts (values vs ∷ st)
  run-code_values nil ts st = refl
  run-code_values (cons v vs) ts st =
      rw
        (
          append_assoc (code_values vs) (code v ++ (12 ∷ 0 ∷ [])) ts,
          run-code_values vs ((code v ++ (12 ∷ 0 ∷ [])) ++ ts) st,
          append_assoc (code v) (12 ∷ 0 ∷ []) ts,
          run-code v (12 ∷ 0 ∷ ts) (values vs ∷ st),
        )
        refl

  run-code_members :
      (ms : Members) (ts : Text) (st : List Item)
      → run (code_members ms ++ ts) st ≡ run ts (members ms ∷ st)
  run-code_members end ts st = refl
  run-code_members (member k v ms) ts st =
      rw
        (
          append_assoc (code_members ms) (code v ++ (code_text k ++ (15 ∷ 0 ∷ []))) ts,
          run-code_members ms ((code v ++ (code_text k ++ (15 ∷ 0 ∷ []))) ++ ts) st,
          append_assoc (code v) (code_text k ++ (15 ∷ 0 ∷ [])) ts,
          run-code v ((code_text k ++ (15 ∷ 0 ∷ [])) ++ ts) (members ms ∷ st),
          append_assoc (code_text k) (15 ∷ 0 ∷ []) ts,
          run-code_text k (15 ∷ 0 ∷ ts) (a_value v ∷ members ms ∷ st),
        )
        refl

only_value : List Item → Option Value
only_value (a_value v ∷ []) = some v
only_value _ = none

-- Neither end of a text is white space.
pub coded : Value → Text
unfolding code
coded v = b'x' ∷ b'x' ∷ b'x' ∷ (code v ++ (0 ∷ 0 ∷ 0 ∷ []))

pub decoded : Text → Option Value
unfolding run only_value
decoded (_ ∷ _ ∷ _ ∷ ts) = only_value (run ts [])
decoded _ = none

coded_full : (v : Value) → is_blank (coded v) ≡ false
unfolding coded is_blank
coded_full v = refl

pub decoded-coded : (v : Value) → decoded (coded v) ≡ some v
unfolding decoded coded run only_value apply
decoded-coded v = rw (run-code v (0 ∷ 0 ∷ 0 ∷ []) []) refl

kept_lem : (n : ℕ) (s : Text) → strip n trailing_space (0 ∷ 0 ∷ 0 ∷ s) ≡ 0 ∷ 0 ∷ 0 ∷ s
unfolding strip trailing_space
kept_lem zero s = refl
kept_lem (suc n) s = refl

reverse-coded : (v : Value) → (s : Text) × (reverse (coded v) ≡ 0 ∷ 0 ∷ 0 ∷ s)
unfolding coded
reverse-coded v = (
  reverse (b'x' ∷ b'x' ∷ b'x' ∷ code v),
  reverse-append (b'x' ∷ b'x' ∷ b'x' ∷ code v) (0 ∷ 0 ∷ 0 ∷ []),
)

front-coded : (v : Value) → strip (length (coded v)) leading_space (coded v) ≡ coded v
unfolding strip leading_space coded
front-coded v = refl

pub coded-shows : (v : Value) → is_blank (trim (coded v)) ≡ false
unfolding trim
coded-shows v =
    let (s, e) = reverse-coded v in
    let same : strip (length (coded v)) trailing_space (reverse (coded v)) ≡ reverse (coded v) =
      subst (λ t. strip (length (coded v)) trailing_space t ≡ t) (sym e)
        (kept_lem (length (coded v)) s) in
    rw (front-coded v, same, reverse-reverse (coded v)) (coded_full v)
