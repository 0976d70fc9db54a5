-- ===== src/Audit/Report.antt =====
-- crates/guardian-audit/src/report.rs: the report over a window of entries. The maps of the code are
-- lists of pairs here; what is read from them is sorted by count and by label, so that the order of a
-- map does not show.
pub mod Suggestions
use project_guardian.Common.{
  ℕ, zero, suc, ◌+◌, Bool, true, false, not, ◌&&◌, ◌||◌, Option, none, some, unwrap_or, List, [],
  ◌∷◌, ◌++◌, Text, bytes, text_eq, Map, lookup, put, length, take, ltb, leb, ◌==◌, if◌then◌else◌,
}
use project_guardian.Audit.Log.{AuditEntry}

unfoldable pub min_occurrences : ℕ
min_occurrences = 3

unfoldable pub top_blocked : ℕ
top_blocked = 5

pub record LabelCount : Type 0 where
  pub label : Text
  pub count : ℕ

pub record Suggestion : Type 0 where
  pub label : Text
  pub asked : ℕ
  pub text : Text

pub record Report : Type 0 where
  pub total : ℕ
  pub allows : ℕ
  pub asks : ℕ
  pub denies : ℕ
  pub blocked : List LabelCount
  pub suggestions : List Suggestion

unfoldable pub label_of : AuditEntry → Text
label_of e = unwrap_or e.matched_rule e.action_kind

pub record AskGroup : Type 0 where
  pub asked : ℕ
  pub approved : ℕ
  pub critical : Bool

unfoldable pub no_asks : AskGroup
no_asks = record { asked = 0; approved = 0; critical = false }

-- The human approved.
unfoldable pub was_approved : AuditEntry → Bool
unfolding text_eq
was_approved e = elim e.user_response [ none ↦ false | some r ↦ text_eq r (bytes "approved") ]

-- `asks.entry(label).or_default()`, updated
unfoldable pub add_ask : AuditEntry → AskGroup → AskGroup
add_ask e g = record {
  asked = g.asked + 1;
  approved = if was_approved e then g.approved + 1 else g.approved;
  critical = g.critical || e.critical;
}

-- The variables of the loop over the entries.
pub record Tally : Type 0 where
  pub allows : ℕ
  pub asks : ℕ
  pub denies : ℕ
  pub blocked : Map ℕ
  pub groups : Map AskGroup

unfoldable pub nothing : Tally
nothing = record { allows = 0; asks = 0; denies = 0; blocked = []; groups = [] }

unfoldable pub is_decision : AuditEntry → Text → Bool
unfolding text_eq
is_decision e name = text_eq e.decision name

unfoldable pub tally_entry : AuditEntry → Tally → Tally
tally_entry e t =
    if is_decision e (bytes "allow")
    then record t { allows = t.allows + 1 }
    else if is_decision e (bytes "deny")
    then record t {
      denies = t.denies + 1;
      blocked = put (label_of e) (unwrap_or (lookup (label_of e) t.blocked) 0 + 1) t.blocked;
    }
    else if is_decision e (bytes "ask")
    then record t {
      asks = t.asks + 1;
      groups =
          put (label_of e) (add_ask e (unwrap_or (lookup (label_of e) t.groups) no_asks)) t.groups;
    }
    else t

unfoldable pub tally : List AuditEntry → Tally → Tally
unfolding tally_entry
tally [] t = t
tally (e ∷ es) t = tally es (tally_entry e t)

-- The byte order of texts, strict.
text_lt : Text → Text → Bool
text_lt s [] = false
text_lt [] (b ∷ t) = true
text_lt (a ∷ s) (b ∷ t) = ltb a b || a == b && text_lt s t

-- `sort_by` with a strict order, stable
insert_by {ℓ} : {A : Type ℓ} → (A → A → Bool) → A → List A → List A
insert_by before x [] = x ∷ []
insert_by before x (y ∷ ys) =
    let rest = insert_by before x ys in if before y x then y ∷ rest else x ∷ y ∷ ys

unfoldable pub sort_by {ℓ} : {A : Type ℓ} → (A → A → Bool) → List A → List A
unfolding insert_by
sort_by before [] = []
sort_by before (x ∷ xs) = insert_by before x (sort_by before xs)

-- The greater count first, then the lesser label.
ranks_before : ℕ → Text → ℕ → Text → Bool
unfolding text_lt
ranks_before n s m t = ltb m n || n == m && text_lt s t

to_counts : Map ℕ → List LabelCount
to_counts [] = []
to_counts ((label, count) ∷ m) = record { label = label; count = count } ∷ to_counts m

unfoldable pub top_counts : Map ℕ → ℕ → List LabelCount
unfolding to_counts ranks_before sort_by
top_counts m n =
    take n
      (sort_by (λ (a b : LabelCount). ranks_before a.count a.label b.count b.label) (to_counts m))

-- The text of a suggestion; the decimal digits of a number are a parameter.
module _ (decimal : ℕ → Text) where
  suggestion_text : Text → ℕ → Text
  suggestion_text label n =
      bytes "'"
      ++ (label
          ++ (bytes "' was asked "
              ++ (decimal n
                  ++ bytes
                      " times and you approved every one — consider an allow rule. (Review first; Guardian never applies this automatically.)")))

  unfoldable pub suggestible : AskGroup → Bool
  unfolding min_occurrences
  suggestible g = not g.critical && leb min_occurrences g.asked && g.approved == g.asked

  unfoldable pub suggestions_of : Map AskGroup → List Suggestion
  unfolding suggestion_text suggestible
  suggestions_of [] = []
  suggestions_of ((label, g) ∷ m) =
      let rest = suggestions_of m in
      if suggestible g
      then record { label = label; asked = g.asked; text = suggestion_text label g.asked } ∷ rest
      else rest

  unfoldable pub build_report : List AuditEntry → Report
  unfolding nothing tally suggestions_of top_counts sort_by ranks_before
  build_report entries =
      let t = tally entries nothing in
      record {
        total = length entries;
        allows = t.allows;
        asks = t.asks;
        denies = t.denies;
        blocked = top_counts t.blocked top_blocked;
        suggestions =
            sort_by (λ (a b : Suggestion). ranks_before a.asked a.label b.asked b.label)
              (suggestions_of t.groups);
      }
