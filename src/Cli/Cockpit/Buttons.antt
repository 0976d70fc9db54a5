-- ===== src/Cli/Cockpit/Buttons.antt =====
-- crates/guardian-cli/src/tui.rs: where `draw_approvals` puts the buttons that can be clicked. Coordinates are
-- `u16`; the body of the screen and the inside of a bordered card are ratatui's.
use project_guardian.Common.{
  ◌≡◌, ◌≤◌, ◌<◌, ℕ, ◌+◌, ◌*◌, ◌%◌, ◌^◌, List, [], ◌∷◌, ltb, if◌then◌else◌,
}
use project_guardian.Daemon.Control.{PendingView}
use project_guardian.Cli.Cockpit.{App, Hit, approvals}

pub record Rect : Type 0 where
  pub x : ℕ
  pub y : ℕ
  pub width : ℕ
  pub height : ℕ

unfoldable pub card_height : ℕ
card_height = 5

unfoldable pub u16 : ℕ → ℕ
u16 n = n % 2 ^ 16

-- `Block::inner` of ratatui, for a block with all its borders: a rectangle that has a column and a row, and is
-- not at the limit of `u16`, loses a column and a row at its start.
abbrev pub Insets : (Rect → Rect) → Type 0
Insets inner =
    (r : Rect)
    → 1 ≤ r.width
    → 1 ≤ r.height
    → r.x + 1 < 2 ^ 16
    → r.y + 1 < 2 ^ 16
    → ((inner r).x ≡ r.x + 1) × ((inner r).y ≡ r.y + 1)

module _ (inner : Rect → Rect) where
  -- The card of an item that is drawn at a height.
  unfoldable pub card : Rect → ℕ → Rect
  unfolding card_height
  card area y = record { x = area.x; y = y; width = area.width; height = card_height }

  -- The labels have 11 and 10 columns and stand 3 apart.
  unfoldable pub hit_of : Rect → ℕ → PendingView → Hit
  unfolding card u16
  hit_of area y item =
      let within = inner (card area y) in
      let allow_x = u16 (within.x + 1) in
      let deny_x = u16 (u16 (allow_x + 11) + 3) in
      record {
        row = u16 (within.y + 2);
        allow = (allow_x, u16 (allow_x + 11));
        deny = (deny_x, u16 (deny_x + 10));
        id = item.id;
      }

  -- The loop over the items from a number on: only those that fit are drawn.
  unfoldable pub hits_from : Rect → ℕ → List PendingView → List Hit
  unfolding hit_of u16 card_height
  hits_from area i [] = []
  hits_from area i (item ∷ pending) =
      let y = u16 (area.y + u16 (u16 i * card_height)) in
      let later = hits_from area (i + 1) pending in
      if ltb (u16 (area.y + area.height)) (u16 (y + card_height))
      then []
      else hit_of area y item ∷ later

  -- What `draw` does to the state: other screens have no buttons.
  unfoldable pub draw : Rect → App → App
  unfolding hits_from
  draw area a = record a { hits = elim a.view [ approvals ↦ hits_from area 0 a.pending | _ ↦ [] ] }
