-- ===== src/Window/Layout.antt =====
-- The rectangles of a window's parts: src/window.c, from `scaled_inset` to
-- `nb_window_resize_rect`.
use nix_bench.Prelude.{
  ℕ, ◌+◌, ◌/◌, Bool, true, false, ◌&&◌, ◌||◌, not, ℤ, pos, negsuc, sub_ℕ, ◌+ℤ◌, ◌-ℤ◌, ◌*ℤ◌, ltb_ℤ,
  leb_ℤ, eqb_ℤ, if◌then◌else◌,
}
use nix_bench.Window.{
  Rect, zero_rect, Insets, Controls, Window, ControlLayout, split_controls, left_controls,
  border_width, title_height, decoration_inset_scale, footer_height, gadget_margin, close_size,
  resize_size, maximum, minimum, to_int,
}

-- C division by a positive number, which rounds towards zero.
unfoldable pub div_ℤ : ℤ → ℕ → ℤ
div_ℤ (pos k) n = pos (k / n)
div_ℤ (negsuc k) n = sub_ℕ 0 ((k + 1) / n)

unfoldable pub scaled_inset : ℤ → ℤ → ℤ
scaled_inset size fraction =
    to_int (div_ℤ (maximum (pos 0) size *ℤ fraction) decoration_inset_scale)

unfoldable pub has_decoration_content_insets : Window → Bool
has_decoration_content_insets w =
    let i = w.decoration_content_insets in
    w.decoration_pixel_profile_enabled
    || not (eqb_ℤ i.left (pos 0))
    || not (eqb_ℤ i.top (pos 0))
    || not (eqb_ℤ i.right (pos 0))
    || not (eqb_ℤ i.bottom (pos 0))

unfoldable pub has_custom_decoration_controls : Window → Bool
has_custom_decoration_controls w =
    if w.decoration_pixel_profile_enabled
    then true
    else ltb_ℤ (pos 0) w.decoration_controls.width && ltb_ℤ (pos 0) w.decoration_controls.height

unfoldable pub uses_compact_pixel_profile : Window → Bool
uses_compact_pixel_profile w =
    let p = w.decoration_pixel_profile in
    w.decoration_pixel_profile_enabled
    && (leb_ℤ w.frame.width p.compact_width || leb_ℤ w.frame.height p.compact_height)

unfoldable pub pixel_profile_insets : Window → Insets
pixel_profile_insets w =
    if uses_compact_pixel_profile w
    then w.decoration_pixel_profile.compact_insets
    else w.decoration_pixel_profile.regular_insets

unfoldable pub pixel_profile_controls : Window → Controls
pixel_profile_controls w =
    if uses_compact_pixel_profile w
    then w.decoration_pixel_profile.compact_controls
    else w.decoration_pixel_profile.regular_controls

unfoldable pub custom_control_rect : Window → ℤ → Rect
custom_control_rect w slot_from_right =
    let pixels = w.decoration_pixel_profile_enabled in
    let f = w.frame in
    let c = if pixels then pixel_profile_controls w else w.decoration_controls in
    let width = if pixels then c.width else scaled_inset f.width c.width in
    let height = if pixels then c.height else scaled_inset f.height c.height in
    let right = if pixels then c.right else scaled_inset f.width c.right in
    let top = if pixels then c.top else scaled_inset f.height c.top in
    let gap = if pixels then c.gap else scaled_inset f.width c.gap in
    record {
      x = f.x +ℤ f.width -ℤ right -ℤ width -ℤ slot_from_right *ℤ (width +ℤ gap);
      y = f.y +ℤ top;
      width = width;
      height = height;
    }

-- The frame's size without the border on both sides.
unfoldable pub inner_width : Window → ℤ
inner_width w = maximum (pos 0) (w.frame.width -ℤ pos 2 *ℤ border_width)

unfoldable pub inner_height : Window → ℤ
inner_height w = maximum (pos 0) (w.frame.height -ℤ pos 2 *ℤ border_width)

unfoldable pub title_rect : Window → Rect
title_rect w =
    if w.fullscreen
    then record { x = w.frame.x; y = w.frame.y; width = pos 0; height = pos 0 }
    else record {
      x = w.frame.x +ℤ border_width;
      y = w.frame.y +ℤ border_width;
      width = inner_width w;
      height = minimum title_height (inner_height w);
    }

-- The content of a window whose decoration has its own insets.
unfoldable pub inset_content_rect : Window → Rect
inset_content_rect w =
    let pixels = w.decoration_pixel_profile_enabled in
    let f = w.frame in
    let i = if pixels then pixel_profile_insets w else w.decoration_content_insets in
    let left = if pixels then minimum f.width i.left else scaled_inset f.width i.left in
    let top = if pixels then minimum f.height i.top else scaled_inset f.height i.top in
    let right_available = maximum (pos 0) (f.width -ℤ left) in
    let bottom_available = maximum (pos 0) (f.height -ℤ top) in
    let right = if pixels then minimum right_available i.right else scaled_inset f.width i.right in
    let bottom =
      if pixels then minimum bottom_available i.bottom else scaled_inset f.height i.bottom in
    record {
      x = f.x +ℤ left;
      y = f.y +ℤ top;
      width = maximum (pos 0) (f.width -ℤ left -ℤ right);
      height = maximum (pos 0) (f.height -ℤ top -ℤ bottom);
    }

-- The content of a window with the classic border, title and footer.
unfoldable pub plain_content_rect : Window → Rect
plain_content_rect w =
    let t = title_rect w in
    let bottom = w.frame.y +ℤ w.frame.height -ℤ border_width -ℤ footer_height in
    let y = t.y +ℤ t.height +ℤ w.decoration_menu_height in
    record { x = t.x; y = y; width = t.width; height = maximum (pos 0) (bottom -ℤ y) }

unfoldable pub content_rect : Window → Rect
content_rect w =
    if w.fullscreen
    then w.frame
    else if has_decoration_content_insets w
    then inset_content_rect w
    else plain_content_rect w

unfoldable pub menu_rect : Window → Rect
menu_rect w =
    let t = title_rect w in
    let available =
      maximum (pos 0)
        (w.frame.y +ℤ w.frame.height -ℤ border_width -ℤ footer_height -ℤ (t.y +ℤ t.height)) in
    let height = if w.fullscreen then pos 0 else minimum w.decoration_menu_height available in
    if has_decoration_content_insets w
    then zero_rect
    else record { x = t.x; y = t.y +ℤ t.height; width = t.width; height = height }

unfoldable pub footer_rect : Window → Rect
footer_rect w =
    let t = title_rect w in
    let available = maximum (pos 0) (inner_height w -ℤ t.height) in
    let height = minimum footer_height available in
    record {
      x = w.frame.x +ℤ border_width;
      y = w.frame.y +ℤ w.frame.height -ℤ border_width -ℤ height;
      width = inner_width w;
      height = height;
    }

-- The number of gadgets: the close gadget and the visible ones of the other two.
abbrev pub gadget_count : Window → ℕ
gadget_count w =
    1 + (if w.minimize_gadget_visible then 1 else 0) + (if w.maximize_gadget_visible then 1 else 0)

-- `control_gadget_size` from the title's width and height and the number of gadgets, which is
-- never 0, so the code's test of it has one outcome.
unfoldable pub gadget_size : ℤ → ℤ → ℕ → ℤ
gadget_size width height count =
    let available_width = maximum (pos 0) (width -ℤ pos (count + 1) *ℤ gadget_margin) in
    let available_height = maximum (pos 0) (height -ℤ pos 2 *ℤ gadget_margin) in
    minimum close_size (minimum (div_ℤ available_width count) available_height)

unfoldable pub control_gadget_size : Window → ℤ
control_gadget_size w = gadget_size (title_rect w).width (title_rect w).height (gadget_count w)

abbrev pub is_left : ControlLayout → Bool
is_left left_controls = true
is_left _ = false

abbrev pub is_split : ControlLayout → Bool
is_split split_controls = true
is_split _ = false

-- A square gadget of the title bar, at the given x.
abbrev pub gadget_at : Window → ℤ → Rect
gadget_at w x =
    let t = title_rect w in
    let size = control_gadget_size w in
    record { x = x; y = t.y +ℤ div_ℤ (t.height -ℤ size) 2; width = size; height = size }

unfoldable pub close_rect : Window → Rect
close_rect w =
    let t = title_rect w in
    let size = control_gadget_size w in
    if not w.fullscreen && has_custom_decoration_controls w
    then custom_control_rect w (pos 0)
    else gadget_at w (
        if is_left w.control_layout
        then t.x +ℤ gadget_margin
        else t.x +ℤ t.width -ℤ gadget_margin -ℤ size)

unfoldable pub minimize_rect : Window → Rect
minimize_rect w =
    let t = title_rect w in
    let c = close_rect w in
    let size = control_gadget_size w in
    if not w.minimize_gadget_visible
    then zero_rect
    else if not w.fullscreen && has_custom_decoration_controls w
    then custom_control_rect w (if w.maximize_gadget_visible then pos 2 else pos 1)
    else gadget_at w (
        if is_split w.control_layout
        then t.x +ℤ gadget_margin
        else if is_left w.control_layout
        then c.x +ℤ c.width +ℤ gadget_margin
        else if w.maximize_gadget_visible
        then c.x -ℤ gadget_margin -ℤ size -ℤ (size +ℤ gadget_margin)
        else c.x -ℤ gadget_margin -ℤ size)

unfoldable pub maximize_rect : Window → Rect
maximize_rect w =
    let c = close_rect w in
    let m = minimize_rect w in
    let size = control_gadget_size w in
    if not w.maximize_gadget_visible
    then zero_rect
    else if not w.fullscreen && has_custom_decoration_controls w
    then custom_control_rect w (pos 1)
    else gadget_at w (
        if is_left w.control_layout
        then (if ltb_ℤ (pos 0) m.width
            then m.x +ℤ m.width +ℤ gadget_margin
            else c.x +ℤ c.width +ℤ gadget_margin)
        else c.x -ℤ gadget_margin -ℤ size)

unfoldable pub resize_rect : Window → Rect
resize_rect w =
    let f = footer_rect w in
    let size = minimum resize_size (minimum f.width f.height) in
    record { x = f.x +ℤ f.width -ℤ size; y = f.y +ℤ f.height -ℤ size; width = size; height = size }
