-- ===== src/Cli/Cockpit/Clicks.antt =====
-- The button under the mouse belongs to the card that crates/guardian-cli/src/tui.rs drew there.
use project_guardian.Common.{
  subst, ◌⊎◌, ℕ, ◌+◌, ◌*◌, ◌^◌, ◌≤◌, ◌<◌, Bool, true, false, Bool-cases, some, List, [], ◌∷◌, ◌≡◌,
  refl, inl, inr, arith, ltb, if◌then◌else◌,
}
use project_guardian.Daemon.Control.{PendingView}
use project_guardian.Cli.Cockpit.{history, new_token, protect, approvals, App, View, Hit, item_at}
use project_guardian.Cli.Cockpit.Buttons.{
  Insets, draw, Rect, card_height, card, u16, hit_of, hits_from,
}
use project_guardian.Cli.Cockpit.Events.{hit_at, within}

-- The columns of a label: the first ones allow, the second ones deny.
abbrev pub IsOn : Rect → Bool → ℕ → Type 0
IsOn area true column = (area.x + 2 ≤ column) × (column < area.x + 13)
IsOn area false column = (area.x + 16 ≤ column) × (column < area.x + 26)

-- The button of an item's card, which is drawn whole, at a number of cards down, below some others.
abbrev IsCardFrom : ℕ → Rect → List PendingView → ℕ → ℕ → ℕ × Bool → Type 0
IsCardFrom i area pending row column (id, allow) =
    (k : ℕ) × (item : PendingView) × (item_at k pending ≡ some item)
    × (item.id ≡ id)
    × (row ≡ area.y + 5 * (i + k) + 3)
    × (5 * (i + k) + 5 ≤ area.height)
    × IsOn area allow column

-- The same, below none, with the column inside the card's borders.
abbrev pub IsCard : Rect → List PendingView → ℕ → ℕ → ℕ × Bool → Type 0
IsCard area pending row column (id, allow) =
    (k : ℕ) × (item : PendingView) × (item_at k pending ≡ some item)
    × (item.id ≡ id)
    × (row ≡ area.y + 5 * k + 3)
    × (5 * k + 5 ≤ area.height)
    × (column + 1 < area.x + area.width)
    × IsOn area allow column

u16_lem : (n : ℕ) → n < 2 ^ 16 → u16 n ≡ n
unfolding u16
u16_lem n h = omega (arith, h)

-- Both labels fit into the width of the screen, which is not at the limit of `u16`.
module _ (inner : Rect → Rect) (area : Rect) (inside : Insets inner) (wide : 27 ≤ area.width)
    (low : area.y + area.height + 5 < 2 ^ 16) (narrow : area.x + area.width < 2 ^ 16) where
  abbrev button : ℕ → PendingView → Hit
  button y item = record {
    row = y + 3;
    allow = (area.x + 2, area.x + 13);
    deny = (area.x + 16, area.x + 26);
    id = item.id;
  }

  hit_of_lem :
      (y : ℕ) (item : PendingView) → y + 5 < 2 ^ 16 → hit_of inner area y item ≡ button y item
  unfolding hit_of u16 card
  hit_of_lem y item h =
      let (across, down) =
        inside (card inner area y) (omega (arith, wide)) (omega arith) (omega (arith, wide, narrow))
          (omega (arith, h)) in
      ground (arith, h, wide, narrow, across, down)

  height_lem :
      (i : ℕ) → 5 * i ≤ area.height → u16 (area.y + u16 (u16 i * card_height)) ≡ area.y + 5 * i
  unfolding u16 card_height
  height_lem i h = omega (arith, h, low)

  hits_from_cons :
      (i : ℕ) (item : PendingView) (pending : List PendingView)
      → 5 * i ≤ area.height
      → hits_from inner area i (item ∷ pending) ≡ (
          if ltb (area.y + area.height) (area.y + 5 * i + 5)
          then []
          else button (area.y + 5 * i) item ∷ hits_from inner area (i + 1) pending)
  unfolding hits_from card_height
  hits_from_cons i item pending h =
      rw
        (
          height_lem i h,
          u16_lem (area.y + area.height) (omega (arith, low)),
          u16_lem (area.y + 5 * i + 5) (omega (arith, low, h)),
          hit_of_lem (area.y + 5 * i) item (omega (arith, low, h)),
        )
        refl

  hit_at-button :
      (y row column : ℕ) (item : PendingView) (hits : List Hit) (answer : ℕ × Bool)
      → hit_at (button y item ∷ hits) row column ≡ some answer
      → ((item.id ≡ answer.0) × (row ≡ y + 3) × IsOn area answer.1 column)
        ⊎ (hit_at hits row column ≡ some answer)
  unfolding hit_at within
  hit_at-button y row column item hits (id, true) h = ground (arith, h)
  hit_at-button y row column item hits (id, false) h = ground (arith, h)

  hits_from-IsCard :
      (pending : List PendingView) (i row column : ℕ) (answer : ℕ × Bool)
      → 5 * i ≤ area.height
      → hit_at (hits_from inner area i pending) row column ≡ some answer
      → IsCardFrom i area pending row column answer
  unfolding hits_from hit_at item_at
  hits_from-IsCard [] i row column answer h e = ground (arith, e)
  hits_from-IsCard (item ∷ pending) i row column answer h e =
      let found : hit_at _ row column ≡ some answer =
        subst (λ hits. hit_at hits row column ≡ some answer) (hits_from_cons i item pending h) e in
      elim (Bool-cases (ltb (area.y + area.height) (area.y + 5 * i + 5))) [
        | inl over ↦ absurd (ground (arith, over, found))
        | inr fits ↦
            elim (hit_at-button (area.y + 5 * i) row column item
              (hits_from inner area (i + 1) pending) answer (ground (arith, fits, found))) [
                | inl (same, at, on) ↦
                    (0, item, refl, same, ground (arith, at), ground (arith, fits), on)
                | inr later ↦
                    let (k, other, place, same, at, drawn, on) =
                      hits_from-IsCard pending (i + 1) row column answer (ground (arith, fits))
                        later in
                    (
                      k + 1,
                      other,
                      ground (arith, place),
                      same,
                      omega (arith, at),
                      omega (arith, drawn),
                      on,
                    )
              ]
      ]

  -- A label stands within the borders.
  IsOn-width :
      (allow : Bool) (column : ℕ) → IsOn area allow column → column + 1 < area.x + area.width
  IsOn-width true column (first, last) = omega (arith, last, wide)
  IsOn-width false column (first, last) = omega (arith, last, wide)

  drawn-IsCard :
      (view : View) (pending : List PendingView) (row column : ℕ) (answer : ℕ × Bool)
      → hit_at (elim view [ approvals ↦ hits_from inner area 0 pending | _ ↦ [] ]) row column
        ≡ some answer
      → (view ≡ approvals) × IsCard area pending row column answer
  unfolding hit_at
  drawn-IsCard approvals pending row column answer e =
      let (k, item, place, same, at, drawn, on) =
        hits_from-IsCard pending 0 row column answer (omega arith) e in
      (
        refl,
        (
          k,
          item,
          place,
          same,
          omega (arith, at),
          omega (arith, drawn),
          IsOn-width answer.1 column on,
          on,
        ),
      )
  drawn-IsCard history pending row column answer e = ground (arith, e)
  drawn-IsCard new_token pending row column answer e = ground (arith, e)
  drawn-IsCard protect pending row column answer e = ground (arith, e)

  -- A click that hits something after a drawing hits the button of a card that was drawn there.
  pub draw-IsCard :
      (a : App) (row column : ℕ) (answer : ℕ × Bool)
      → hit_at (draw inner area a).hits row column ≡ some answer
      → (a.view ≡ approvals) × IsCard area a.pending row column answer
  unfolding draw
  draw-IsCard a row column answer e = drawn-IsCard a.view a.pending row column answer e
