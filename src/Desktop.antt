-- ===== src/Desktop.antt =====
-- src/desktop.h and the lookups of src/desktop.c: the window manager's slots and their stacking.
-- The array `slots` is a function of the index; the array `stack` with `window_count` is the list
-- of its first `window_count` entries, backmost first.
pub mod Stack
pub mod Windows
pub mod Pointing
pub mod Lookup
pub mod Invariant
pub mod Order
pub mod Focus
pub mod Retouch
pub mod Settled
pub mod Pressed
pub mod Reachable
pub mod Answers
pub mod Frontmost
pub mod Counter
mod Tests
use nix_bench.Prelude.{
  ℕ, zero, suc, ◌+◌, ◌%◌, ◌^◌, Bool, true, false, ◌&&◌, ◌||◌, not, Option, none, some, List, [],
  ◌∷◌, ℤ, ◌==◌, if◌then◌else◌, length, get_elem?,
}
use nix_bench.Window.{Window, Rect, Action, Hit, nothing}
use nix_bench.Window.Pointer.{hit_test}

abbrev pub max_windows : ℕ
max_windows = 16

-- `NB_WINDOW_ID_NONE`.
abbrev pub id_none : ℕ
id_none = 0

abbrev pub no_slot : ℕ
no_slot = max_windows

pub record Slot : Type 0 where
  pub window : Window
  pub id : ℕ
  pub occupied : Bool

pub record Desktop : Type 0 where
  pub slots : ℕ → Slot
  pub stack : List ℕ
  pub next_id : ℕ
  pub active_window : ℕ
  pub pointer_window : ℕ

abbrev pub window_count : Desktop → ℕ
window_count d = length d.stack

-- The first of the `n` indices from `i` on whose slot passes the test, or `no_slot`.
unfoldable pub find_from : (ℕ → Slot) → (Slot → Bool) → ℕ → ℕ → ℕ
find_from slots test zero i = no_slot
find_from slots test (suc n) i =
    let rest = find_from slots test n (i + 1) in if test (slots i) then i else rest

abbrev pub has_id : ℕ → Slot → Bool
has_id id s = s.occupied && s.id == id

unfoldable pub find_slot_by_id : Desktop → ℕ → ℕ
find_slot_by_id d id =
    if id == id_none then no_slot else find_from d.slots (has_id id) max_windows 0

abbrev pub is_free : Slot → Bool
is_free s = not s.occupied

unfoldable pub find_free_slot : Desktop → ℕ
find_free_slot d = find_from d.slots is_free max_windows 0

-- The position of a slot in the stack, or the stack's length.
unfoldable pub position : ℕ → List ℕ → ℕ
position slot [] = 0
position slot (s ∷ rest) = let later = position slot rest in if s == slot then 0 else suc later

unfoldable pub find_stack_index : Desktop → ℕ → ℕ
find_stack_index d slot_index = position slot_index d.stack

-- `++next_id`, which skips 0 when the 64-bit counter wraps.
abbrev pub succ_id : ℕ → ℕ
succ_id id = let next = (id + 1) % 2 ^ 64 in if next == id_none then 1 else next

-- The loop of `allocate_id`, with the attempts that are left: the id, and the desktop with its
-- `next_id` moved on.
unfoldable pub allocate_loop : ℕ → Desktop → ℕ × Desktop
allocate_loop zero d = (id_none, d)
allocate_loop (suc attempts) d =
    let candidate = d.next_id in
    let d' = record d { next_id = succ_id candidate } in
    let rest = allocate_loop attempts d' in
    if not (candidate == id_none) && find_slot_by_id d' candidate == no_slot
    then (candidate, d')
    else rest

unfoldable pub allocate_id : Desktop → ℕ × Desktop
allocate_id d = allocate_loop (max_windows + 1) d

-- A write to one slot.
abbrev pub set_slot : (ℕ → Slot) → ℕ → Slot → ℕ → Slot
set_slot slots i s j = if j == i then s else slots j

-- The loops over the stack that change the window of each slot in it.
unfoldable pub for_stack : (Slot → Slot) → List ℕ → (ℕ → Slot) → ℕ → Slot
for_stack f [] slots = slots
for_stack f (i ∷ rest) slots = for_stack f rest (set_slot slots i (f (slots i)))

abbrev pub mark_active : ℕ → Slot → Slot
mark_active id s = let w = s.window in record s { window = record w { active = s.id == id } }

-- The id that `set_active_window` makes active: none for an unknown or minimised window.
unfoldable pub focusable : Desktop → ℕ → ℕ
focusable d id =
    let slot = find_slot_by_id d id in
    if slot == no_slot || (not (id == id_none) && (d.slots slot).window.minimized)
    then id_none
    else id

unfoldable pub set_active_window : Desktop → ℕ → Desktop
set_active_window d id =
    let id' = focusable d id in
    record d { active_window = id'; slots = for_stack (mark_active id') d.stack d.slots }

-- The frontmost slot of the stack that passes the test.
unfoldable pub topmost : (ℕ → Bool) → List ℕ → Option ℕ
topmost test [] = none
topmost test (i ∷ rest) = elim (topmost test rest) [
  | some j ↦ some j
  | none ↦ if test i then some i else none
]

abbrev pub is_available : Slot → Bool
is_available s = s.occupied && s.window.visible && not s.window.minimized

unfoldable pub topmost_available_window : Desktop → ℕ
topmost_available_window d = elim (topmost (λ i. is_available (d.slots i)) d.stack) [
  | some i ↦ (d.slots i).id
  | none ↦ id_none
]

abbrev pub is_hit : Hit → Bool
is_hit nothing = false
is_hit _ = true

unfoldable pub topmost_slot_at : Desktop → ℤ → ℤ → Option ℕ
topmost_slot_at d x y = topmost (λ i. is_hit (hit_test (d.slots i).window x y)) d.stack

-- Every slot is free; `windows` are the windows in them, which `nb_desktop_init` leaves as they are.
unfoldable pub init : (ℕ → Window) → Desktop
init windows = record {
  slots = λ i. record { window = windows i; id = id_none; occupied = false };
  stack = [];
  next_id = 1;
  active_window = id_none;
  pointer_window = id_none;
}

-- Any slot's window, or none for an unknown id (`nb_desktop_find_window`, `find_window_mutable`).
unfoldable pub find_window : Desktop → ℕ → Option Window
find_window d id =
    let slot = find_slot_by_id d id in if slot == no_slot then none else some (d.slots slot).window

-- The window at a position of the stack, by its id and by itself.
unfoldable pub window_id_at : Desktop → ℕ → ℕ
window_id_at d stack_index = elim (get_elem? d.stack stack_index) [
  | none ↦ id_none
  | some i ↦ (d.slots i).id
]

unfoldable pub window_at : Desktop → ℕ → Option Window
window_at d stack_index = elim (get_elem? d.stack stack_index) [
  | none ↦ none
  | some i ↦ some (d.slots i).window
]
