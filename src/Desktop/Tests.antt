-- ===== src/Desktop/Tests.antt =====
-- The theorems on the window manager at a desktop with two windows.
use nix_bench.Prelude.{◌<◌, ◌≢◌, ◌↔◌, ◌∙◌, List, ℕ, ◌≡◌, refl, sym, inl, inr, none, [], ◌∷◌, pos}
use mathlib.Core.Path.{subst}
use nix_bench.Window
use nix_bench.Window.{Window, Rect, idle}
use nix_bench.Desktop.{
  id_none, window_count, max_windows, Desktop, init, allocate_id, allocate_loop, find_free_slot,
  find_from, find_slot_by_id, set_active_window, focusable, for_stack,
}
use nix_bench.Desktop.Stack.{open_window, destroy_window, raise_window, activate_window}
use nix_bench.Desktop.Invariant.{IsValid}
use nix_bench.Desktop.Lookup.{InStack}
use nix_bench.Desktop.Reachable.{
  Op, open_new, destroy, toggle_minimize, press, move, release, apply_all, apply_all-IsValid,
}
use nix_bench.Desktop.Pointing.{pointer_down}
use nix_bench.Desktop.Frontmost.{PointerDown, pointer_down-PointerDown}
use nix_bench.Desktop.Counter.{open_window-apply_all}
use nix_bench.Desktop.Order.Spec.{ids}
use nix_bench.Desktop.Order.Open.{init-IsValid, Opens, open_window-Opens}
use nix_bench.Desktop.Order.Raise.{
  Raises, raise_window-Raises, Activates, activate_window-Activates,
}
use nix_bench.Desktop.Order.Destroy.{Destroys, destroy_window-Destroys}

abbrev frame : Rect
frame = record { x = pos 40; y = pos 50; width = pos 300; height = pos 200 }

abbrev blank : ℕ → Window
blank i = Window.init none frame

abbrev one : Desktop
one = (open_window (init blank) none frame).1

abbrev two : Desktop
two = (open_window one none frame).1

one-IsValid : IsValid one
one-IsValid = (open_window-Opens (init blank) none frame (init-IsValid blank)).valid

two-IsValid : IsValid two
two-IsValid = (open_window-Opens one none frame one-IsValid).valid

open_window-Opens_example : Opens one (open_window one none frame).0 two
open_window-Opens_example = open_window-Opens one none frame one-IsValid

raise_window-Raises_example : Raises two 1 (raise_window two 1).0 (raise_window two 1).1
raise_window-Raises_example = raise_window-Raises two 1 two-IsValid

activate_window-Activates_example :
    Activates two 1 (activate_window two 1).0 (activate_window two 1).1
activate_window-Activates_example = activate_window-Activates two 1 two-IsValid

destroy_window-Destroys_example : Destroys two 2 (destroy_window two 2).0 (destroy_window two 2).1
destroy_window-Destroys_example = destroy_window-Destroys two 2 two-IsValid

-- The ids after two windows were opened, and after the first was raised.
ids_two : ids two ≡ 1 ∷ 2 ∷ []
unfolding open_window allocate_id allocate_loop find_free_slot find_from find_slot_by_id
    set_active_window focusable for_stack init
ids_two = refl

ids_raised : ids (raise_window two 1).0 ≡ 2 ∷ 1 ∷ []
unfolding open_window allocate_id allocate_loop find_free_slot find_from find_slot_by_id
    set_active_window focusable for_stack init
ids_raised = (raise_window-Raises two 1 two-IsValid).order

-- A window is opened, minimised and shown again; a second one is pressed, moved and closed.
abbrev session : List Op
session =
    open_new none frame
    ∷ toggle_minimize 1
    ∷ toggle_minimize 1
    ∷ open_new none frame
    ∷ press (pos 100) (pos 60)
    ∷ move (pos 200) (pos 80) frame
    ∷ release (pos 200) (pos 80)
    ∷ destroy 2
    ∷ []

apply_all-IsValid_example : IsValid (apply_all session (init blank))
apply_all-IsValid_example = apply_all-IsValid blank session

init-idle : (init blank).pointer_window ≡ id_none
unfolding init
init-idle = refl

two-idle : two.pointer_window ≡ id_none
two-idle =
    (open_window-Opens one none frame one-IsValid).pointer
    ∙ (open_window-Opens (init blank) none frame (init-IsValid blank)).pointer
    ∙ init-idle

two-stack : two.stack ≡ 0 ∷ 1 ∷ []
unfolding open_window init find_free_slot find_from allocate_id allocate_loop find_slot_by_id
    set_active_window for_stack
two-stack = refl

two-modes : ((two.slots 0).window.pointer_mode ≡ idle) × ((two.slots 1).window.pointer_mode ≡ idle)
unfolding open_window init find_free_slot find_from allocate_id allocate_loop find_slot_by_id
    set_active_window for_stack focusable Window.init Window.set_title
two-modes = (refl, refl)

two-windows_idle : (j : ℕ) → InStack j two.stack → (two.slots j).window.pointer_mode ≡ idle
two-windows_idle j h = elim (subst (InStack j) two-stack h) [
  | inl e ↦ subst (λ (k : ℕ). (two.slots k).window.pointer_mode ≡ idle) (sym e) two-modes.0
  | inr (inl e) ↦ subst (λ (k : ℕ). (two.slots k).window.pointer_mode ≡ idle) (sym e) two-modes.1
  | inr (inr none_left) ↦ elim none_left [ ]
]

pointer_down-PointerDown_example :
    PointerDown two (pos 100) (pos 60) (pointer_down two (pos 100) (pos 60))
pointer_down-PointerDown_example =
    pointer_down-PointerDown two (pos 100) (pos 60) two-IsValid two-idle two-windows_idle

open_window-apply_all_example :
    let d = apply_all session (init blank) in
    ((open_window d none frame).0 ≢ id_none) ↔ (window_count d < max_windows)
open_window-apply_all_example = open_window-apply_all blank session none frame
