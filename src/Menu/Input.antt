-- ===== src/Menu/Input.antt =====
-- The pointer and the keys of src/menu.c.
use nix_bench.Prelude.{
  ℕ, zero, suc, ◌+◌, ◌-◌, ◌%◌, ◌^◌, Bool, true, false, not, ◌&&◌, ◌||◌, Option, none, some, ltb,
  leb, ◌==◌, if◌then◌else◌, ℤ,
}
use nix_bench.Window.{Rect}
use nix_bench.Window.Pointer.{rect_contains}
use nix_bench.Menu.{
  command_none, no_index, ItemSpec, Phase, closed, open_phase, tracking, Key, toggle, next_item,
  previous_item, next_menu, previous_menu, activate, dismiss, HitKind, hit_none, hit_bar, hit_label,
  hit_panel, hit_item, Hit, Menu, menu_count, menu_spec, item_count, item_at, item_is_actionable,
  next_enabled_item, menu_cancel, open_menu_index, is_open,
}
use nix_bench.Menu.Layout.{visible_bar_rect, label_rect, panel_rect, item_rect}

-- The first index, from one on, whose rectangle has the point; `left` of them are still to come.
unfoldable pub find_rect : (ℕ → Rect) → ℤ → ℤ → ℕ → ℕ → Option ℕ
find_rect rect x y zero index = none
find_rect rect x y (suc left) index =
    let rest = find_rect rect x y left (suc index) in
    if rect_contains (rect index) x y then some index else rest

-- The labels and the bar.
unfoldable pub hit_test_label : Menu → ℤ → ℤ → Rect → Option ℕ → Hit
hit_test_label m x y viewport (some index) = record {
  kind = hit_label;
  menu_index = index;
  item_index = no_index;
}
hit_test_label m x y viewport none = record {
  kind = if rect_contains (visible_bar_rect m viewport) x y then hit_bar else hit_none;
  menu_index = no_index;
  item_index = no_index;
}

unfoldable pub hit_test_bar : Menu → ℤ → ℤ → Rect → Hit
hit_test_bar m x y viewport =
    hit_test_label m x y viewport (find_rect (label_rect m viewport) x y (menu_count m) 0)

unfoldable pub hit_test_panel : Menu → ℤ → ℤ → Rect → Option ℕ → Hit
hit_test_panel m x y viewport (some index) = record {
  kind = hit_item;
  menu_index = m.open_menu;
  item_index = index;
}
hit_test_panel m x y viewport none =
    if rect_contains (panel_rect m viewport) x y
    then record { kind = hit_panel; menu_index = m.open_menu; item_index = no_index }
    else hit_test_bar m x y viewport

unfoldable pub hit_test : Menu → ℤ → ℤ → Rect → Hit
hit_test m x y viewport =
    let count = item_count (menu_spec m m.open_menu) in
    if is_open m
    then hit_test_panel m x y viewport (find_rect (item_rect m viewport) x y count 0)
    else hit_test_bar m x y viewport

unfoldable pub is_item : HitKind → Bool
is_item hit_item = true
is_item _ = false

unfoldable pub is_label : HitKind → Bool
is_label hit_label = true
is_label _ = false

unfoldable pub is_bar : HitKind → Bool
is_bar hit_bar = true
is_bar _ = false

unfoldable pub enabled_item_for_hit : Menu → Hit → ℕ
enabled_item_for_hit m hit =
    let spec = menu_spec m hit.menu_index in
    if not (is_item hit.kind)
      || leb (item_count spec) hit.item_index
      || not (item_is_actionable (item_at spec hit.item_index))
    then no_index
    else hit.item_index

-- The arms of `nb_menu_pointer_down`, by the phase.
unfoldable pub press : Menu → Hit → Phase → Menu × Bool
press m hit tracking = (m, true)
press m hit closed =
    if is_label hit.kind
    then (open_menu_index m hit.menu_index tracking false, true)
    else (m, is_bar hit.kind)
press m hit open_phase =
    if is_label hit.kind && hit.menu_index == m.open_menu
    then (menu_cancel m, true)
    else if is_label hit.kind
    then (open_menu_index m hit.menu_index tracking false, true)
    else (record m { phase = tracking; hot_item = enabled_item_for_hit m hit }, true)

unfoldable pub pointer_down : Menu → ℤ → ℤ → Rect → Menu × Bool
pointer_down m x y viewport = press m (hit_test m x y viewport) m.phase

unfoldable pub pointer_move : Menu → ℤ → ℤ → Rect → Menu × Bool
pointer_move m x y viewport =
    let hit = hit_test m x y viewport in
    let hot_item = enabled_item_for_hit m hit in
    if not (is_open m)
    then (m, false)
    else if is_label hit.kind && not (hit.menu_index == m.open_menu)
    then (open_menu_index m hit.menu_index m.phase false, true)
    else if hot_item == m.hot_item
    then (m, false)
    else (record m { hot_item = hot_item }, true)

unfoldable pub is_tracking_phase : Phase → Bool
is_tracking_phase tracking = true
is_tracking_phase _ = false

unfoldable pub is_tracking : Menu → Bool
is_tracking m = is_tracking_phase m.phase

-- `spec->items[index].command`
unfoldable pub command_of : Option ItemSpec → ℕ
command_of none = command_none
command_of (some item) = item.command

-- The menu and the command that is chosen.
unfoldable pub pointer_up : Menu → ℤ → ℤ → Rect → Menu × ℕ
pointer_up m x y viewport =
    let hit = hit_test m x y viewport in
    let spec = menu_spec m m.open_menu in
    let index = enabled_item_for_hit m hit in
    if not (is_tracking m)
    then (m, command_none)
    else if is_label hit.kind
    then (open_menu_index m hit.menu_index open_phase false, command_none)
    else (
      menu_cancel m,
      if not (index == no_index) && ltb index (item_count spec)
          then command_of (item_at spec index)
          else command_none,
    )

unfoldable pub move_between_menus : Menu → Bool → Menu
move_between_menus m forward =
    let count = menu_count m in
    let index =
      if m.open_menu == no_index
      then if forward then 0 else count - 1
      else if forward
      then (m.open_menu + 1) % 2 ^ 64 % count
      else (m.open_menu + count - 1) % 2 ^ 64 % count in
    if count == 0 then m else open_menu_index m index open_phase true

-- A key of an open menu.
unfoldable pub press_open : Menu → Key → Menu × ℕ
press_open m toggle = (m, command_none)
press_open m dismiss = (m, command_none)
press_open m next_menu = (move_between_menus m true, command_none)
press_open m previous_menu = (move_between_menus m false, command_none)
press_open m next_item = (
  record m { hot_item = next_enabled_item (menu_spec m m.open_menu) m.hot_item true },
  command_none,
)
press_open m previous_item = (
  record m { hot_item = next_enabled_item (menu_spec m m.open_menu) m.hot_item false },
  command_none,
)
press_open m activate =
    let spec = menu_spec m m.open_menu in
    let item = item_at spec m.hot_item in
    if ltb m.hot_item (item_count spec) && item_is_actionable item
    then (menu_cancel m, command_of item)
    else (m, command_none)

unfoldable pub key_press : Menu → Key → Menu × ℕ
key_press m toggle =
    if is_open m
    then (menu_cancel m, command_none)
    else if ltb 0 (menu_count m)
    then (open_menu_index m 0 open_phase true, command_none)
    else (m, command_none)
key_press m dismiss = (menu_cancel m, command_none)
key_press m key = if not (is_open m) then (m, command_none) else press_open m key
