-- ===== src/Desktop/Pointing.antt =====
-- Pointer events on the desktop: src/desktop.c, from `nb_desktop_pointer_down` to
-- `nb_desktop_has_pointer_interaction`.
use nix_bench.Prelude.{ℕ, Bool, true, false, not, none, some, ℤ, ◌==◌, if◌then◌else◌}
use nix_bench.Window.{Rect, Hit, nothing, Action, no_action, pointer_cancel}
use nix_bench.Window.Pointer.{is_idle}
use nix_bench.Window.Pointer
use nix_bench.Desktop.{
  Desktop, id_none, no_slot, find_slot_by_id, set_active_window, topmost_slot_at,
}
use nix_bench.Desktop.Stack.{activate_window}
use nix_bench.Desktop.Windows.{put_window}

-- A press on the window in slot `i`, which is raised and made active first.
unfoldable pub press_slot : Desktop → ℕ → ℤ → ℤ → Desktop × Hit
press_slot d i x y =
    let id = (d.slots i).id in
    let d' = (activate_window d id).0 in
    let (w, hit) = Pointer.pointer_down (d'.slots i).window x y in
    let d″ = put_window d' i w in
    (record d″ { pointer_window = if is_idle w.pointer_mode then d″.pointer_window else id }, hit)

unfoldable pub pointer_down : Desktop → ℤ → ℤ → Desktop × Hit
pointer_down d x y =
    if not (d.pointer_window == id_none) then (d, nothing) else elim (topmost_slot_at d x y) [
      | none ↦ (set_active_window d id_none, nothing)
      | some i ↦ press_slot d i x y
    ]

unfoldable pub pointer_move : Desktop → ℤ → ℤ → Rect → Desktop × Bool
pointer_move d x y bounds =
    let slot = find_slot_by_id d d.pointer_window in
    let (w, changed) = Pointer.pointer_move (d.slots slot).window x y bounds in
    if slot == no_slot
    then (record d { pointer_window = id_none }, false)
    else (put_window d slot w, changed)

abbrev pub is_no_action : Action → Bool
is_no_action no_action = true
is_no_action _ = false

-- The desktop, the type of the action and its window.
unfoldable pub pointer_up : Desktop → ℤ → ℤ → Desktop × Action × ℕ
pointer_up d x y =
    let id = d.pointer_window in
    let slot = find_slot_by_id d id in
    let (w, action) = Pointer.pointer_up (d.slots slot).window x y in
    let d' = put_window d slot w in
    if slot == no_slot then (record d { pointer_window = id_none }, no_action, id_none) else (
      record d' { pointer_window = id_none },
      action,
      if is_no_action action then id_none else id,
    )

unfoldable pub pointer_cancel_all : Desktop → Desktop
pointer_cancel_all d =
    let slot = find_slot_by_id d d.pointer_window in
    let d' = put_window d slot (pointer_cancel (d.slots slot).window) in
    let d″ = if slot == no_slot then d else d' in record d″ { pointer_window = id_none }

unfoldable pub has_pointer_interaction : Desktop → Bool
has_pointer_interaction d = not (d.pointer_window == id_none)
