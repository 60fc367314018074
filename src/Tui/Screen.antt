-- ===== src/Tui/Screen.antt =====
-- What drawing changes: draw of tui/draw.rs and of the panels, of which the rows that the mouse can
-- hit and the bounds of the scroll positions are kept. Where the layout puts the panels, and how
-- many lines they have to show, is an argument.
use v2ray_subscription_manag.Prelude.{
  ℕ, zero, suc, ◌+◌, ◌-◌, ◌||◌, List, [], ◌∷◌, Option, none, some, length, leb, ltb, ◌==◌, min_of,
  max_of, saturating_add, u64_max, if◌then◌else◌,
}
use v2ray_subscription_manag.Config.Editor.{u16_max}
use v2ray_subscription_manag.Tui.{
  MenuView, main_menu, subscription_menu, new_subscription_menu, subscription_action_menu,
  configuration_menu, log_menu, Rect, TuiState, main_items, config_keys, no_hits,
}

-- The areas of the panels, and how many lines they have to show.
pub record Layout : Type 0 where
  pub logs : Rect
  pub found : Rect
  pub menu : Rect
  pub log_lines : ℕ
  pub found_rows : ℕ
  pub live_log_lines : ℕ

unfoldable pub visible_row_count : Rect → ℕ
visible_row_count area = area.height - 3

unfoldable pub scroll_offset : ℕ → ℕ → ℕ → ℕ
scroll_offset selected total visible =
    if (visible == 0) || leb total visible then 0 else saturating_add u64_max selected 1 - visible

abbrev pub usize_to_u16_saturating : ℕ → ℕ
usize_to_u16_saturating value = min_of value u16_max

-- The rows from one that is shown at some height, with as many left.
unfoldable pub rows_from : Rect → ℕ → ℕ → ℕ → List (ℕ × Rect)
rows_from area offset index zero = []
rows_from area offset index (suc left) =
    let later = rows_from area offset (index + 1) left in
    let first_y = saturating_add u16_max area.y 2 in
    let last_y = saturating_add u16_max area.y (area.height - 1) in
    let y = saturating_add u16_max first_y (usize_to_u16_saturating (index - offset)) in
    if leb last_y y
    then []
    else (index, record { x = area.x + 1; y = y; width = area.width - 2; height = 1 }) ∷ later

unfoldable pub row_hits_with_offset : Rect → ℕ → ℕ → List (ℕ × Rect)
row_hits_with_offset area count offset = rows_from area offset offset (count - offset)

abbrev pub area_of : Rect → Option Rect
area_of area = if (area.width == 0) || (area.height == 0) then none else some area

-- The panels of the logs and of the configs found keep their scroll position within what they show.
abbrev pub scrolled_logs : Rect → ℕ → ℕ → ℕ
scrolled_logs area total scroll =
    if ltb area.height 3 || ltb area.width 10
    then scroll
    else min_of scroll (total - (area.height - 2))

abbrev pub scrolled_found : Rect → ℕ → ℕ → ℕ
scrolled_found area total scroll =
    if ltb area.width 30 || ltb area.height 3
    then scroll
    else min_of scroll (total - (area.height - 3))

module _ {Address : Type 0} where
  unfoldable pub draw_main : Rect → TuiState Address → TuiState Address
  draw_main area s =
      let total = length main_items in
      let offset = scroll_offset s.selected_main total (max_of (visible_row_count area) 1) in
      record s { hits = record s.hits { main_rows = row_hits_with_offset area total offset } }

  unfoldable pub draw_subscriptions : Rect → TuiState Address → TuiState Address
  draw_subscriptions area s =
      let total = length s.editable.subscriptions + 1 in
      let offset =
        scroll_offset s.selected_subscription total (max_of (visible_row_count area) 1) in
      record s {
        hits = record s.hits { subscription_rows = row_hits_with_offset area total offset };
      }

  unfoldable pub draw_configurations : Rect → TuiState Address → TuiState Address
  draw_configurations area s =
      let total = length config_keys in
      let offset = scroll_offset s.selected_config total (visible_row_count area) in
      record s { hits = record s.hits { config_rows = row_hits_with_offset area total offset } }

  unfoldable pub draw_logs : Rect → ℕ → TuiState Address → TuiState Address
  draw_logs area total s = record s {
    hits = record s.hits { live_logs_area = some area };
    selected_log = min_of s.selected_log (total - max_of (visible_row_count area) 1);
  }

  unfoldable pub draw_menu : Layout → TuiState Address → MenuView → TuiState Address
  draw_menu layout s main_menu = draw_main layout.menu s
  draw_menu layout s subscription_menu = draw_subscriptions layout.menu s
  draw_menu layout s new_subscription_menu = s
  draw_menu layout s subscription_action_menu = s
  draw_menu layout s configuration_menu = draw_configurations layout.menu s
  draw_menu layout s log_menu = draw_logs layout.menu layout.live_log_lines s

  unfoldable pub draw : Layout → TuiState Address → TuiState Address
  draw layout s =
      draw_menu layout
        (record s {
          hits = record no_hits {
            logs_area = area_of layout.logs;
            found_area = area_of layout.found;
          };
          scroll = record {
            logs = scrolled_logs layout.logs layout.log_lines s.scroll.logs;
            found = scrolled_found layout.found layout.found_rows s.scroll.found;
          };
        })
        s.view
