-- ===== src/Tui/Rows.antt =====
-- The rows of a menu that are on the screen, and what a click on one of them selects.
use v2ray_subscription_manag.Prelude.{
  ℕ, zero, suc, ◌+◌, ◌-◌, ◌^◌, ◌≤◌, ◌<◌, ◌≡◌, refl, some, length, arith, u64_max, max_of,
}
use v2ray_subscription_manag.Tui.{subscription_menu, Rect, TuiState}
use v2ray_subscription_manag.Tui.Mouse.{area_contains, row_under, left_click}
use v2ray_subscription_manag.Tui.Screen.{
  Layout, rows_from, row_hits_with_offset, scroll_offset, visible_row_count, draw_subscriptions,
  draw_menu, draw,
}

-- An area on a screen whose coordinates are `u16`, with room for a row.
abbrev pub IsPanel : Rect → Type 0
IsPanel area =
    (area.x + area.width < 2 ^ 16)
    × (area.y + area.height < 2 ^ 16)
    × (4 ≤ area.height)
    × (3 ≤ area.width)

-- A column inside the border.
abbrev pub IsInside : Rect → ℕ → Type 0
IsInside area x = (area.x < x) × (x + 1 < area.x + area.width)

-- The line of a row.
abbrev pub line_of : Rect → ℕ → ℕ → ℕ
line_of area offset i = area.y + 2 + (i - offset)

rows_from-under :
    (area : Rect) (offset index left i x : ℕ)
    → IsPanel area
    → IsInside area x
    → offset ≤ index
    → index ≤ i
    → i < index + left
    → i < offset + visible_row_count area
    → row_under (rows_from area offset index left) x (line_of area offset i) ≡ some i
unfolding rows_from area_contains visible_row_count
rows_from-under area offset index zero i x p q h k l m = absurd (omega arith)
rows_from-under area offset index (suc left) i x p q h k l m =
    ground (arith, rows_from-under area offset (index + 1) left i x p q)

scroll_offset_lem :
    (area : Rect) (selected total : ℕ)
    → 4 ≤ area.height
    → selected < total
    → selected < u64_max
    → (scroll_offset selected total (max_of (visible_row_count area) 1) ≤ selected)
      × (selected
          < scroll_offset selected total (max_of (visible_row_count area) 1)
            + visible_row_count area)
unfolding scroll_offset visible_row_count
scroll_offset_lem area selected total h k l = ground arith

module _ {Address : Type 0} where
  -- The subscription menu, and the first of its rows that is on the screen.
  abbrev pub subscriptions_shown : TuiState Address → TuiState Address
  subscriptions_shown s = record s { view = subscription_menu }

  abbrev pub first_row : TuiState Address → Rect → ℕ
  first_row s area =
      scroll_offset s.selected_subscription (length s.editable.subscriptions + 1)
        (max_of (visible_row_count area) 1)

  click-row :
      (s : TuiState Address) (layout : Layout) (x y i : ℕ)
      → row_under
          (row_hits_with_offset layout.menu
            (length s.editable.subscriptions + 1)
            (first_row s layout.menu))
          x
          y
        ≡ some i
      → (left_click (draw layout (subscriptions_shown s)) x y).selected_subscription ≡ i
  unfolding draw draw_menu draw_subscriptions left_click
  click-row s layout x y i e = rw (left_click, e) refl

  -- A drawn subscription menu, in an area with room for a row, whose selected row exists: the
  -- selected row is on the screen, and a click on the line of any row that is on the screen selects
  -- that row.
  pub draw-left_click :
      (s : TuiState Address) (layout : Layout) (x i : ℕ)
      → IsPanel layout.menu
      → IsInside layout.menu x
      → length s.editable.subscriptions < u64_max
      → s.selected_subscription ≤ length s.editable.subscriptions
      → first_row s layout.menu ≤ i
      → i < first_row s layout.menu + visible_row_count layout.menu
      → i ≤ length s.editable.subscriptions
      → (first_row s layout.menu ≤ s.selected_subscription)
        × (s.selected_subscription < first_row s layout.menu + visible_row_count layout.menu)
        × ((left_click
              (draw layout (subscriptions_shown s))
              x
              (line_of layout.menu (first_row s layout.menu) i)).selected_subscription
            ≡ i)
  unfolding row_hits_with_offset
  draw-left_click s layout x i p q small h k l m =
      let area = layout.menu in
      let total = length s.editable.subscriptions + 1 in
      let (above, below) =
        scroll_offset_lem area s.selected_subscription total p.2 (omega arith) (omega arith) in
      (
        above,
        below,
        click-row s layout x _ i (
            rows_from-under area (first_row s area) (first_row s area) (total - first_row s area) i
              x p q (omega arith) k (omega arith) l),
      )
