-- ===== src/Desktop/Windows.antt =====
-- Operations on one window and on all of them: src/desktop.c, `nb_desktop_set_window_title`, the
-- functions from `nb_desktop_toggle_window_minimized` to
-- `nb_desktop_set_window_decoration_frame_draggable`, and the two that clamp.
use nix_bench.Prelude.{
  ℕ, Bool, true, false, ◌||◌, not, Option, List, [], ◌∷◌, ℤ, ◌==◌, if◌then◌else◌,
}
use nix_bench.Window
use nix_bench.Window.{Window, Rect, Insets, Controls, PixelProfile, ControlLayout}
use nix_bench.Window.Settings
use nix_bench.Window.Settings.{
  decoration_insets_are_valid, decoration_controls_are_valid, decoration_pixel_profile_is_valid,
}
use nix_bench.Window.Frame.{toggle_minimized, toggle_maximized, set_fullscreen, clamp_to}
use nix_bench.Desktop.{
  Slot, Desktop, no_slot, find_slot_by_id, set_slot, for_stack, set_active_window,
  topmost_available_window,
}
use nix_bench.Desktop.Stack.{activate_window}

abbrev pub set_window : Slot → Window → Slot
set_window s w = record s { window = w }

-- The desktop with a new window in slot `i`.
unfoldable pub put_window : Desktop → ℕ → Window → Desktop
put_window d i w = record d { slots = set_slot d.slots i (set_window (d.slots i) w) }

unfoldable pub set_window_title : Desktop → ℕ → Option (List ℕ) → Desktop × Bool
set_window_title d id text =
    let slot = find_slot_by_id d id in
    if slot == no_slot
    then (d, false)
    else (put_window d slot (Window.set_title (d.slots slot).window text), true)

unfoldable pub toggle_window_minimized : Desktop → ℕ → Desktop × Bool
toggle_window_minimized d id =
    let slot = find_slot_by_id d id in
    let (w, done) = toggle_minimized (d.slots slot).window in
    let d' = put_window d slot w in
    if slot == no_slot || not done
    then (d, false)
    else if w.minimized
    then (
      if d.active_window == id then set_active_window d' (topmost_available_window d') else d',
      true,
    )
    else activate_window d' id

unfoldable pub toggle_window_maximized : Desktop → ℕ → Rect → Desktop × Bool
toggle_window_maximized d id bounds =
    let slot = find_slot_by_id d id in
    let (w, done) = toggle_maximized (d.slots slot).window bounds in
    if slot == no_slot then (d, false) else (put_window d slot w, done)

unfoldable pub set_window_fullscreen : Desktop → ℕ → Bool → Rect → Desktop × Bool
set_window_fullscreen d id fullscreen bounds =
    let slot = find_slot_by_id d id in
    let (w, done) = set_fullscreen (d.slots slot).window fullscreen bounds in
    let d' = put_window d slot w in
    if slot == no_slot || not done
    then (d, false)
    else if fullscreen
    then activate_window d' id
    else (d', true)

-- A function of the window applied in every slot of the stack.
abbrev pub each_window : (Window → Window) → Desktop → Desktop
each_window f d = record d { slots = for_stack (λ s. set_window s (f s.window)) d.stack d.slots }

unfoldable pub set_window_controls : Desktop → Bool → Bool → ControlLayout → Desktop
set_window_controls d minimize_visible maximize_visible layout =
    each_window (λ w. Settings.set_controls w minimize_visible maximize_visible layout) d

unfoldable pub set_window_menu_height : Desktop → ℤ → Desktop
set_window_menu_height d height = each_window (λ w. Settings.set_decoration_menu_height w height) d

unfoldable pub set_window_decoration_insets : Desktop → Insets → Desktop
set_window_decoration_insets d insets =
    if not (decoration_insets_are_valid insets)
    then d
    else each_window (λ w. Settings.set_decoration_content_insets w insets) d

unfoldable pub set_window_decoration_controls : Desktop → Controls → Desktop
set_window_decoration_controls d controls =
    if not (decoration_controls_are_valid controls)
    then d
    else each_window (λ w. Settings.set_decoration_controls w controls) d

unfoldable pub set_window_decoration_pixel_profile : Desktop → PixelProfile → Desktop
set_window_decoration_pixel_profile d profile =
    if not (decoration_pixel_profile_is_valid profile)
    then d
    else each_window (λ w. Settings.set_decoration_pixel_profile w profile) d

unfoldable pub set_window_decoration_frame_draggable : Desktop → Bool → Desktop
set_window_decoration_frame_draggable d draggable =
    each_window (λ w. Settings.set_decoration_frame_draggable w draggable) d

-- The clamping loop, with the bounds that each window is held to: the slots, and whether one
-- changed.
unfoldable pub clamp_slots : (Window → Rect) → List ℕ → (ℕ → Slot) → Bool → (ℕ → Slot) × Bool
clamp_slots bounds [] slots changed = (slots, changed)
clamp_slots bounds (i ∷ rest) slots changed =
    let w = (slots i).window in
    let (w', moved) = clamp_to w (bounds w) in
    clamp_slots bounds rest (set_slot slots i (set_window (slots i) w')) (moved || changed)

unfoldable pub clamp_windows : Desktop → Rect → Desktop × Bool
clamp_windows d bounds =
    let (slots, changed) = clamp_slots (λ w. bounds) d.stack d.slots false in
    (record d { slots = slots }, changed)

unfoldable pub clamp_windows_for_viewport : Desktop → Rect → Rect → Desktop × Bool
clamp_windows_for_viewport d work_area viewport =
    let bounds = λ (w : Window). if w.fullscreen then viewport else work_area in
    let (slots, changed) = clamp_slots bounds d.stack d.slots false in
    (record d { slots = slots }, changed)
