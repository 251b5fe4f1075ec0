-- ===== src/Menu/Layout.antt =====
-- The rectangles of src/menu.c: the bar, the labels, the panel of the open menu, and its items.
use nix_bench.Prelude.{
  ℕ, zero, suc, ◌+◌, ◌-◌, ◌*◌, Bool, true, false, not, ◌||◌, Option, none, some, List, ltb, leb,
  ◌==◌, if◌then◌else◌, length, ℤ, pos, ◌+ℤ◌, ◌-ℤ◌, ltb_ℤ, leb_ℤ,
}
use nix_bench.Window.{Rect, maximum, minimum, to_int}
use nix_bench.Menu.{
  bar_height, clock_area_width, text_capacity, item_gutter_width, ItemKind, command_item, separator,
  ItemSpec, MenuSpec, Menu, menu_count, menu_spec, item_count, item_at, menu_cancel, is_open,
}

abbrev pub label_inset_x : ℕ
label_inset_x = 4

abbrev pub label_padding_x : ℕ
label_padding_x = 8

abbrev pub label_inset_y : ℕ
label_inset_y = 2

abbrev pub panel_border : ℕ
panel_border = 2

abbrev pub panel_min_width : ℕ
panel_min_width = 144

abbrev pub item_padding_x : ℕ
item_padding_x = 12

abbrev pub item_height : ℕ
item_height = 24

abbrev pub separator_height : ℕ
separator_height = 6

abbrev pub glyph_width : ℕ
glyph_width = 8

unfoldable pub bounded_text_length : Option (List ℕ) → ℕ
bounded_text_length none = 0
bounded_text_length (some text) =
    if ltb (length text) (text_capacity - 1) then length text else text_capacity - 1

unfoldable pub clip_rect : Rect → Rect → Rect
clip_rect rect clip =
    let rect_right = rect.x +ℤ maximum (pos 0) rect.width in
    let rect_bottom = rect.y +ℤ maximum (pos 0) rect.height in
    let clip_right = clip.x +ℤ maximum (pos 0) clip.width in
    let clip_bottom = clip.y +ℤ maximum (pos 0) clip.height in
    let left = maximum rect.x clip.x in
    let top = maximum rect.y clip.y in
    let right = if ltb_ℤ rect_right clip_right then rect_right else clip_right in
    let bottom = if ltb_ℤ rect_bottom clip_bottom then rect_bottom else clip_bottom in
    record {
      x = left;
      y = top;
      width = if ltb_ℤ left right then to_int (right -ℤ left) else pos 0;
      height = if ltb_ℤ top bottom then to_int (bottom -ℤ top) else pos 0;
    }

unfoldable pub label_of : Option MenuSpec → Option (List ℕ)
label_of none = none
label_of (some spec) = spec.label

unfoldable pub label_natural_width : Option MenuSpec → ℕ
label_natural_width spec =
    let text_length = bounded_text_length (label_of spec) in
    if text_length == 0 then 0 else text_length * glyph_width + 2 * label_padding_x

unfoldable pub item_natural_height : Option ItemSpec → ℕ
item_natural_height none = item_height
item_natural_height (some item) = height_of item.kind
  where
    height_of : ItemKind → ℕ
    height_of command_item = item_height
    height_of separator = separator_height

unfoldable pub item_label : Option ItemSpec → Option (List ℕ)
item_label none = none
item_label (some item) = item.label

-- The loops over the items from an index on, `left` of them still to come.
unfoldable pub width_from : Option MenuSpec → ℕ → ℕ → ℕ → ℕ
width_from spec zero index width = width
width_from spec (suc left) index width =
    let item_width =
      bounded_text_length (item_label (item_at spec index)) * glyph_width
      + item_gutter_width
      + 2 * item_padding_x
      + 2 * panel_border in
    width_from spec left (suc index) (if ltb width item_width then item_width else width)

unfoldable pub height_from : Option MenuSpec → ℕ → ℕ → ℕ → ℕ
height_from spec zero index height = height
height_from spec (suc left) index height =
    height_from spec left (suc index) (height + item_natural_height (item_at spec index))

unfoldable pub panel_natural_width : Option MenuSpec → ℕ
panel_natural_width spec = width_from spec (item_count spec) 0 panel_min_width

unfoldable pub panel_natural_height : Option MenuSpec → ℕ
panel_natural_height spec = height_from spec (item_count spec) 0 (2 * panel_border)

-- The widths of the labels from an index on, added to `width`.
unfoldable pub labels_from : Menu → ℕ → ℕ → ℕ → ℕ
labels_from m zero index width = width
labels_from m (suc left) index width =
    labels_from m left (suc index) (width + label_natural_width (menu_spec m index))

unfoldable pub floating_bar_width : Menu → ℕ
floating_bar_width m = labels_from m (menu_count m) 0 (2 * label_inset_x)

unfoldable pub bar_rect : Rect → Rect
bar_rect viewport = record {
  x = viewport.x;
  y = viewport.y;
  width = maximum (pos 0) viewport.width;
  height = minimum (pos bar_height) (maximum (pos 0) viewport.height);
}

-- A floating bar's place on one axis, kept inside the viewport.
unfoldable pub keep_inside : ℤ → ℤ → ℤ → ℤ → ℤ
keep_inside origin size viewport_origin viewport_size =
    let low = if ltb_ℤ origin viewport_origin then viewport_origin else origin in
    if ltb_ℤ (viewport_origin +ℤ viewport_size) (low +ℤ size)
    then viewport_origin +ℤ viewport_size -ℤ size
    else low

unfoldable pub visible_bar_rect : Menu → Rect → Rect
visible_bar_rect m viewport =
    let bar = bar_rect viewport in
    let width = minimum (pos (floating_bar_width m)) (maximum (pos 0) viewport.width) in
    if not m.floating
    then bar
    else if not m.floating_visible
    then record { x = viewport.x; y = viewport.y; width = pos 0; height = pos 0 }
    else record {
      x = keep_inside m.floating_x width viewport.x viewport.width;
      y = keep_inside m.floating_y bar.height viewport.y viewport.height;
      width = width;
      height = bar.height;
    }

unfoldable pub show_floating : Menu → ℤ → ℤ → Rect → Menu × Bool
show_floating m x y viewport =
    if not m.floating
      || menu_count m == 0
      || leb_ℤ viewport.width (pos 0)
      || leb_ℤ viewport.height (pos 0)
    then (m, false)
    else (record (menu_cancel m) { floating_x = x; floating_y = y; floating_visible = true }, true)

unfoldable pub work_area : Rect → Rect
work_area viewport =
    let bar = bar_rect viewport in
    record {
      x = viewport.x;
      y = bar.y +ℤ bar.height;
      width = maximum (pos 0) viewport.width;
      height = maximum (pos 0) (viewport.height -ℤ bar.height);
    }

unfoldable pub clock_rect : Rect → Rect
clock_rect viewport =
    let bar = bar_rect viewport in
    let area_width = minimum (pos clock_area_width) bar.width in
    clip_rect
      (record {
        x = bar.x +ℤ bar.width -ℤ area_width +ℤ pos label_inset_x;
        y = bar.y +ℤ pos label_inset_y;
        width = maximum (pos 0) (area_width -ℤ pos (2 * label_inset_x));
        height = maximum (pos 0) (bar.height -ℤ pos (2 * label_inset_y));
      })
      bar

unfoldable pub label_rect : Menu → Rect → ℕ → Rect
label_rect m viewport index =
    let bar = visible_bar_rect m viewport in
    let before = if ltb index (menu_count m) then index else menu_count m in
    let clocked : Rect = record bar {
      width = maximum (pos 0) (bar.width -ℤ pos clock_area_width);
    } in
    let label : Rect = record {
      x = bar.x +ℤ pos (labels_from m before 0 label_inset_x);
      y = bar.y +ℤ pos label_inset_y;
      width = pos (label_natural_width (menu_spec m index));
      height = maximum (pos 0) (bar.height -ℤ pos (2 * label_inset_y));
    } in
    if not (ltb index (menu_count m))
    then record { x = bar.x; y = bar.y; width = pos 0; height = pos 0 }
    else clip_rect label (if not m.floating then clocked else bar)

-- The open menu has a description exactly if its index is below the number of menus.
unfoldable pub panel_rect : Menu → Rect → Rect
panel_rect m viewport =
    let bar = visible_bar_rect m viewport in
    let spec = menu_spec m m.open_menu in
    let panel : Rect = record {
      x = (label_rect m viewport m.open_menu).x;
      y = bar.y +ℤ bar.height;
      width = pos (panel_natural_width spec);
      height = pos (panel_natural_height spec);
    } in
    if not (is_open m) || not (ltb m.open_menu (menu_count m))
    then record { x = bar.x; y = bar.y +ℤ bar.height; width = pos 0; height = pos 0 }
    else clip_rect panel viewport

unfoldable pub item_rect : Menu → Rect → ℕ → Rect
item_rect m viewport index =
    let panel = panel_rect m viewport in
    let spec = menu_spec m m.open_menu in
    let item : Rect = record {
      x = panel.x +ℤ pos panel_border;
      y = panel.y +ℤ pos (height_from spec index 0 panel_border);
      width = maximum (pos 0) (panel.width -ℤ pos (2 * panel_border));
      height = pos (item_natural_height (item_at spec index));
    } in
    if leb (item_count spec) index
    then record { x = panel.x; y = panel.y; width = pos 0; height = pos 0 }
    else clip_rect item panel
