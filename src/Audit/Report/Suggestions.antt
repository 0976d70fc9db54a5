-- ===== src/Audit/Report/Suggestions.antt =====
-- Which rules the report of crates/guardian-audit/src/report.rs suggests to relax.
use project_guardian.Common.{
  ◌||◌, ◌+◌, All, ◌↔◌, Exists, ◌≤◌, any, Bool, true, false, ◌&&◌, unwrap_or, List, [], ◌∷◌, Text,
  bytes, text_eq, text_eq_iff, Map, lookup, put, lookup-put, if◌then◌else◌, ◌≡◌, refl, ap, ◌∙◌,
  arith, Bool-cases, inl, inr,
}
use project_guardian.Audit.Log.{AuditEntry}
use project_guardian.Audit.Report.{
  some, min_occurrences, nothing, build_report, suggestions_of, length, sort_by, suggestible,
  Suggestion, insert_by, none, ℕ, AskGroup, no_asks, was_approved, add_ask, Tally, is_decision,
  tally_entry, tally, label_of,
}

-- An entry of a review that the label is of.
abbrev pub is_ask_about : Text → AuditEntry → Bool
is_ask_about label e = is_decision e (bytes "ask") && text_eq (label_of e) label

-- The reviews of a label.
abbrev pub asks_about : Text → List AuditEntry → List AuditEntry
asks_about label [] = []
asks_about label (e ∷ es) =
    let rest = asks_about label es in if is_ask_about label e then e ∷ rest else rest

-- An approved review of no critical action.
abbrev pub IsClean : AuditEntry → Type 0
IsClean e = (e.critical ≡ false) × (was_approved e ≡ true)

-- The reviews added to a group.
abbrev grown : List AuditEntry → AskGroup → AskGroup
grown [] g = g
grown (e ∷ es) g = grown es (add_ask e g)

abbrev group_in : Text → Map AskGroup → AskGroup
group_in label m = unwrap_or (lookup label m) no_asks

ask-is_decision :
    (e : AuditEntry)
    → is_decision e (bytes "ask") ≡ true
    → (is_decision e (bytes "allow") ≡ false) × (is_decision e (bytes "deny") ≡ false)
unfolding is_decision bytes
ask-is_decision e h = let same = (text_eq_iff e.decision (bytes "ask")).0 h in rw same (refl, refl)

groups-tally_entry :
    (e : AuditEntry) (t : Tally)
    → (tally_entry e t).groups ≡ (
        if is_decision e (bytes "ask")
        then put (label_of e) (add_ask e (group_in (label_of e) t.groups)) t.groups
        else t.groups)
unfolding tally_entry
groups-tally_entry e t = ground (arith, ask-is_decision e)

group-tally_entry :
    (label : Text) (e : AuditEntry) (t : Tally)
    → group_in label (tally_entry e t).groups ≡ (
        if is_ask_about label e
        then add_ask e (group_in label t.groups)
        else group_in label t.groups)
group-tally_entry label e t = rw (groups-tally_entry e t) (
    ground (
      arith,
      text_eq_iff (label_of e) label,
      lookup-put (label_of e) label (add_ask e (group_in (label_of e) t.groups)) t.groups,
    ))

group-tally :
    (label : Text) (es : List AuditEntry) (t : Tally)
    → group_in label (tally es t).groups ≡ grown (asks_about label es) (group_in label t.groups)
unfolding tally
group-tally label [] t = refl
group-tally label (e ∷ es) t = elim (Bool-cases (is_ask_about label e)) [
  | inl h ↦
      let one = group-tally_entry label e t in
      rw h (group-tally label es (tally_entry e t) ∙ ap (grown (asks_about label es)) (one ∙ rw h))
  | inr h ↦
      let one = group-tally_entry label e t in
      rw h (group-tally label es (tally_entry e t) ∙ ap (grown (asks_about label es)) (one ∙ rw h))
]

-- How many of the reviews were approved.
abbrev approvals : List AuditEntry → ℕ
approvals [] = 0
approvals (e ∷ es) = if was_approved e then approvals es + 1 else approvals es

grown_lem :
    (es : List AuditEntry) (g : AskGroup)
    → ((grown es g).asked ≡ g.asked + length es)
      × ((grown es g).approved ≡ g.approved + approvals es)
      × ((grown es g).critical ≡ (g.critical || any (λ e. e.critical) es))
unfolding add_ask
grown_lem [] g = ground arith
grown_lem (e ∷ es) g = ground (arith, grown_lem es (add_ask e g))

le-approvals : (es : List AuditEntry) → approvals es ≤ length es
le-approvals [] = omega arith
le-approvals (e ∷ es) = ground (arith, le-approvals es)

IsClean-iff :
    (es : List AuditEntry)
    → ((any (λ e. e.critical) es ≡ false) × (approvals es ≡ length es)) ↔ All IsClean es
IsClean-iff [] = ground arith
IsClean-iff (e ∷ es) = ground (arith, le-approvals es, IsClean-iff es)

group-tally-nothing :
    (es : List AuditEntry) (label : Text)
    → group_in label (tally es nothing).groups ≡ grown (asks_about label es) no_asks
unfolding nothing lookup
group-tally-nothing es label = group-tally label es nothing

module _ (decimal : ℕ → Text) where
  suggestible_iff :
      (es : List AuditEntry)
      → (suggestible decimal (grown es no_asks) ≡ true) ↔ ((3 ≤ length es) × All IsClean es)
  unfolding suggestible no_asks min_occurrences
  suggestible_iff es = ground (arith, grown_lem es no_asks, le-approvals es, IsClean-iff es)

  -- Some suggestion is of the label.
  abbrev IsNamed : Text → List Suggestion → Type 0
  IsNamed label ss = Exists (λ (s : Suggestion). s.label ≡ label) ss

  -- No two groups are of one label.
  abbrev IsFresh : Text → Map AskGroup → Type 0
  IsFresh label m = lookup label m ≡ none

  abbrev Keyed : Map AskGroup → Type 0
  Keyed [] = Unit
  Keyed ((label, g) ∷ m) = IsFresh label m × Keyed m

  Keyed-put : (label : Text) (g : AskGroup) (m : Map AskGroup) → Keyed m → Keyed (put label g m)
  unfolding put
  Keyed-put label g [] k = unfold lookup in (refl, tt)
  Keyed-put label g ((j, h) ∷ m) k =
      ground (
        arith,
        text_eq_iff j label,
        text_eq_iff label j,
        lookup-put label j g m,
        Keyed-put label g m,
      )

  Keyed-tally : (es : List AuditEntry) (t : Tally) → Keyed t.groups → Keyed (tally es t).groups
  unfolding tally
  Keyed-tally [] t k = k
  Keyed-tally (e ∷ es) t k = Keyed-tally es (tally_entry e t) (
      rw (groups-tally_entry e t) (
        ground
          (arith, Keyed-put (label_of e) (add_ask e (group_in (label_of e) t.groups)) t.groups k)))

  lookup_cons :
      (label j : Text) (g : AskGroup) (m : Map AskGroup)
      → lookup label ((j, g) ∷ m) ≡ (if text_eq j label then some g else lookup label m)
  unfolding lookup
  lookup_cons label j g m = refl

  no_asks-suggestible : suggestible decimal no_asks ≡ false
  unfolding suggestible no_asks min_occurrences
  no_asks-suggestible = refl

  IsNamed-suggestions_of :
      (label : Text) (m : Map AskGroup)
      → Keyed m
      → IsNamed label (suggestions_of decimal m) ↔ (suggestible decimal (group_in label m) ≡ true)
  unfolding suggestions_of
  IsNamed-suggestions_of label [] k =
      unfold lookup suggestible no_asks min_occurrences in ground arith
  IsNamed-suggestions_of label ((j, g) ∷ m) k = ground (
    arith,
    text_eq_iff j label,
    lookup_cons label j g m,
    no_asks-suggestible,
    IsNamed-suggestions_of label m,
  )

  IsNamed-insert_by :
      (before : Suggestion → Suggestion → Bool) (label : Text) (s : Suggestion)
      (ss : List Suggestion)
      → IsNamed label (insert_by before s ss) ↔ IsNamed label (s ∷ ss)
  unfolding insert_by
  IsNamed-insert_by before label s [] = ground arith
  IsNamed-insert_by before label s (t ∷ ss) = ground (arith, IsNamed-insert_by before label s ss)

  IsNamed-sort_by :
      (before : Suggestion → Suggestion → Bool) (label : Text) (ss : List Suggestion)
      → IsNamed label (sort_by before ss) ↔ IsNamed label ss
  unfolding sort_by
  IsNamed-sort_by before label [] = ground arith
  IsNamed-sort_by before label (s ∷ ss) =
      ground (
        arith,
        IsNamed-insert_by before label s (sort_by before ss),
        IsNamed-sort_by before label ss,
      )

  suggested_iff :
      (es : List AuditEntry) (label : Text)
      → IsNamed label (suggestions_of decimal (tally es nothing).groups)
        ↔ ((3 ≤ length (asks_about label es)) × All IsClean (asks_about label es))
  suggested_iff es label = ground (
    arith,
    IsNamed-suggestions_of label (tally es nothing).groups
        (Keyed-tally es nothing (unfold nothing in tt)),
    group-tally-nothing es label,
    suggestible_iff (asks_about label es),
  )

  -- A rule is suggested for relaxing exactly when the window reviewed it at least 3 times, and every
  -- one of these reviews was approved and of no critical action.
  pub build_report-suggests_iff :
      (es : List AuditEntry) (label : Text)
      → Exists (λ s. s.label ≡ label) (build_report decimal es).suggestions
        ↔ ((3 ≤ length (asks_about label es)) × All IsClean (asks_about label es))
  unfolding build_report
  build_report-suggests_iff es label =
      let t = tally es nothing in
      let sorted = IsNamed-sort_by _ label (suggestions_of decimal t.groups) in
      let reviewed = suggested_iff es label in
      (λ n. reviewed.0 (sorted.0 n), λ r. sorted.1 (reviewed.1 r))
