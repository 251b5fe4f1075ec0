-- ===== src/Window/Settings.antt =====
-- The settings of a window and their validation: src/window.c, from `nb_window_set_controls` to
-- `nb_window_set_decoration_frame_draggable`.
use nix_bench.Prelude.{
  Bool, true, false, ◌&&◌, ◌||◌, not, ℤ, pos, ◌+ℤ◌, ◌*ℤ◌, ltb_ℤ, leb_ℤ, if◌then◌else◌,
}
use nix_bench.Window.{
  int_max, decoration_inset_max, decoration_inset_scale, min_width, min_height, Insets, Controls,
  PixelProfile, PointerMode, minimizing, maximizing, ControlLayout, Window, minimum, pointer_cancel,
}

abbrev pub is_minimizing : PointerMode → Bool
is_minimizing minimizing = true
is_minimizing _ = false

abbrev pub is_maximizing : PointerMode → Bool
is_maximizing maximizing = true
is_maximizing _ = false

-- A `ControlLayout` is one of the three values that the code's range check admits.
unfoldable pub set_controls : Window → Bool → Bool → ControlLayout → Window
set_controls w minimize_visible maximize_visible layout =
    let hides =
      (not minimize_visible && is_minimizing w.pointer_mode)
      || (not maximize_visible && is_maximizing w.pointer_mode) in
    let w' = if hides then pointer_cancel w else w in
    record w' {
      minimize_gadget_visible = minimize_visible;
      maximize_gadget_visible = maximize_visible;
      control_layout = layout;
    }

unfoldable pub set_decoration_menu_height : Window → ℤ → Window
set_decoration_menu_height w height = record w {
  decoration_menu_height =
      if ltb_ℤ (pos 0) height then minimum height decoration_inset_max else pos 0;
}

unfoldable pub decoration_insets_are_valid : Insets → Bool
decoration_insets_are_valid i =
    leb_ℤ (pos 0) i.left
    && leb_ℤ (pos 0) i.top
    && leb_ℤ (pos 0) i.right
    && leb_ℤ (pos 0) i.bottom
    && ltb_ℤ (i.left +ℤ i.right) (pos decoration_inset_scale)
    && ltb_ℤ (i.top +ℤ i.bottom) (pos decoration_inset_scale)

unfoldable pub set_decoration_content_insets : Window → Insets → Window
set_decoration_content_insets w i =
    if decoration_insets_are_valid i then record w { decoration_content_insets = i } else w

unfoldable pub decoration_controls_are_valid : Controls → Bool
decoration_controls_are_valid c =
    let cluster_width = (pos 3 *ℤ c.width) +ℤ (pos 2 *ℤ c.gap) in
    leb_ℤ (pos 0) c.top
    && leb_ℤ (pos 0) c.right
    && leb_ℤ (pos 0) c.width
    && leb_ℤ (pos 0) c.height
    && leb_ℤ (pos 0) c.gap
    && leb_ℤ (c.top +ℤ c.height) (pos decoration_inset_scale)
    && leb_ℤ (c.right +ℤ cluster_width) (pos decoration_inset_scale)

unfoldable pub set_decoration_controls : Window → Controls → Window
set_decoration_controls w c =
    if decoration_controls_are_valid c then record w { decoration_controls = c } else w

unfoldable pub pixel_insets_are_valid : Insets → Bool
pixel_insets_are_valid i =
    leb_ℤ (pos 0) i.left
    && leb_ℤ (pos 0) i.top
    && leb_ℤ (pos 0) i.right
    && leb_ℤ (pos 0) i.bottom
    && leb_ℤ (i.left +ℤ i.right) int_max
    && leb_ℤ (i.top +ℤ i.bottom) int_max

unfoldable pub pixel_controls_are_valid : Controls → Bool
pixel_controls_are_valid c =
    let cluster_width = (pos 3 *ℤ c.width) +ℤ (pos 2 *ℤ c.gap) in
    leb_ℤ (pos 0) c.top
    && leb_ℤ (pos 0) c.right
    && leb_ℤ (pos 0) c.width
    && leb_ℤ (pos 0) c.height
    && leb_ℤ (pos 0) c.gap
    && leb_ℤ (c.top +ℤ c.height) int_max
    && leb_ℤ (c.right +ℤ cluster_width) int_max

unfoldable pub decoration_pixel_profile_is_valid : PixelProfile → Bool
decoration_pixel_profile_is_valid p =
    leb_ℤ min_width p.compact_width
    && leb_ℤ min_height p.compact_height
    && pixel_insets_are_valid p.regular_insets
    && pixel_insets_are_valid p.compact_insets
    && pixel_controls_are_valid p.regular_controls
    && pixel_controls_are_valid p.compact_controls

unfoldable pub set_decoration_pixel_profile : Window → PixelProfile → Window
set_decoration_pixel_profile w p =
    if decoration_pixel_profile_is_valid p
    then record w { decoration_pixel_profile = p; decoration_pixel_profile_enabled = true }
    else w

unfoldable pub set_decoration_frame_draggable : Window → Bool → Window
set_decoration_frame_draggable w draggable = record w { decoration_frame_draggable = draggable }
