-- ===== src/Desktop/Stack.antt =====
-- Opening, closing, raising and activating windows: src/desktop.c, from `nb_desktop_open_window`
-- to `nb_desktop_activate_window`.
use nix_bench.Prelude.{
  ℕ, zero, suc, Bool, true, false, ◌||◌, not, Option, none, some, List, [], ◌∷◌, ◌++◌, ◌==◌,
  if◌then◌else◌,
}
use nix_bench.Window
use nix_bench.Window.{Window, Rect}
use nix_bench.Desktop.{
  Slot, Desktop, id_none, no_slot, window_count, find_slot_by_id, find_free_slot, find_stack_index,
  allocate_id, set_slot, set_active_window, topmost_available_window, find_window,
}

-- The slots with a window in slot `i`, under a new id.
abbrev pub fill_slot : Desktop → ℕ → ℕ → Option (List ℕ) → Rect → ℕ → Slot
fill_slot d i id text frame =
    set_slot d.slots i (record { window = Window.init text frame; id = id; occupied = true })

-- The id of the new window, or `id_none`, and the desktop.
unfoldable pub open_window : Desktop → Option (List ℕ) → Rect → ℕ × Desktop
open_window d text frame =
    let slot = find_free_slot d in
    let (id, d') = allocate_id d in
    if slot == no_slot then (id_none, d) else if id == id_none then (id_none, d') else (
      id,
      set_active_window
          (record d' { slots = fill_slot d' slot id text frame; stack = d'.stack ++ slot ∷ [] }) id,
    )

-- The loop that closes the gap at position `n`.
unfoldable pub remove_at : List ℕ → ℕ → List ℕ
remove_at [] n = []
remove_at (s ∷ rest) zero = rest
remove_at (s ∷ rest) (suc n) = s ∷ remove_at rest n

-- The slot after its window is destroyed.
abbrev pub emptied : Slot → Bool → Slot
emptied s pointed =
    let w = if pointed then Window.pointer_cancel s.window else s.window in
    record { window = record w { visible = false; active = false }; id = id_none; occupied = false }

-- The desktop without the window in slot `i` at position `n` of the stack.
unfoldable pub without : Desktop → ℕ → ℕ → ℕ → Desktop
without d id i n =
    let pointed = d.pointer_window == id in
    record d {
      slots = set_slot d.slots i (emptied (d.slots i) pointed);
      stack = remove_at d.stack n;
      pointer_window = if pointed then id_none else d.pointer_window;
    }

unfoldable pub destroy_window : Desktop → ℕ → Desktop × Bool
destroy_window d id =
    let slot = find_slot_by_id d id in
    let n = find_stack_index d slot in
    let d' = without d id slot n in
    if slot == no_slot || n == window_count d then (d, false) else (
      if d.active_window == id then set_active_window d' (topmost_available_window d') else d',
      true,
    )

unfoldable pub raise_window : Desktop → ℕ → Desktop × Bool
raise_window d id =
    let slot = find_slot_by_id d id in
    let n = find_stack_index d slot in
    if slot == no_slot || n == window_count d
    then (d, false)
    else (record d { stack = remove_at d.stack n ++ slot ∷ [] }, true)

-- A missing window counts as minimised: neither can be activated.
abbrev pub is_minimized : Option Window → Bool
is_minimized none = true
is_minimized (some w) = w.minimized

unfoldable pub activate_window : Desktop → ℕ → Desktop × Bool
activate_window d id =
    let (d', raised) = raise_window d id in
    if is_minimized (find_window d id) || not raised
    then (d, false)
    else (set_active_window d' id, true)
