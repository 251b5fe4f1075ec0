-- ===== src/Desktop/Reachable.antt =====
-- Runs of the operations of src/desktop.c from a new desktop.
use nix_bench.Prelude.{ℕ, inl, inr, Bool, Option, List, [], ◌∷◌, ℤ, Bool-cases}
use nix_bench.Window.{Window, Rect, Insets, Controls, PixelProfile, ControlLayout}
use nix_bench.Window.Settings.{
  decoration_insets_are_valid, decoration_controls_are_valid, decoration_pixel_profile_is_valid,
}
use nix_bench.Window.Marks.{
  set_controls-SameMarks, set_decoration_menu_height-SameMarks,
  set_decoration_content_insets-SameMarks, set_decoration_controls-SameMarks,
  set_decoration_pixel_profile-SameMarks, set_decoration_frame_draggable-SameMarks,
}
use nix_bench.Desktop.{Desktop, init}
use nix_bench.Desktop.Stack.{open_window, destroy_window, raise_window, activate_window}
use nix_bench.Desktop.Windows.{
  set_window_title, toggle_window_minimized, toggle_window_maximized, set_window_fullscreen,
  set_window_controls, set_window_menu_height, set_window_decoration_insets,
  set_window_decoration_controls, set_window_decoration_pixel_profile,
  set_window_decoration_frame_draggable, clamp_windows, clamp_windows_for_viewport,
}
use nix_bench.Desktop.Pointing.{pointer_down, pointer_move, pointer_up, pointer_cancel_all}
use nix_bench.Desktop.Invariant.{IsValid}
use nix_bench.Desktop.Order.Raise.{raise_window-Raises, activate_window-Activates}
use nix_bench.Desktop.Order.Destroy.{destroy_window-Destroys}
use nix_bench.Desktop.Order.Open.{init-IsValid, open_window-Opens}
use nix_bench.Desktop.Settled.{
  set_window_title-IsValid, toggle_window_maximized-IsValid, set_window_fullscreen-IsValid,
  clamp_windows-IsValid, clamp_for_viewport-IsValid, toggle_window_minimized-IsValid,
  each-SameMarks,
}
use nix_bench.Desktop.Pressed.{
  pointer_down-IsValid, pointer_move-IsValid, pointer_up-IsValid, pointer_cancel_all-IsValid,
}

-- The operations of src/desktop.h that change a desktop, with their arguments.
pub data Op : Type 0 where
  open_new : Option (List ℕ) → Rect → Op
  destroy raise activate toggle_minimize : ℕ → Op
  retitle : ℕ → Option (List ℕ) → Op
  toggle_maximize : ℕ → Rect → Op
  go_fullscreen : ℕ → Bool → Rect → Op
  choose_controls : Bool → Bool → ControlLayout → Op
  choose_menu_height : ℤ → Op
  choose_insets : Insets → Op
  choose_decoration_controls : Controls → Op
  choose_pixel_profile : PixelProfile → Op
  choose_draggable : Bool → Op
  press release : ℤ → ℤ → Op
  move : ℤ → ℤ → Rect → Op
  cancel : Op
  clamp : Rect → Op
  clamp_to_viewport : Rect → Rect → Op

unfoldable pub apply : Op → Desktop → Desktop
apply (open_new text frame) d = (open_window d text frame).1
apply (destroy id) d = (destroy_window d id).0
apply (raise id) d = (raise_window d id).0
apply (activate id) d = (activate_window d id).0
apply (toggle_minimize id) d = (toggle_window_minimized d id).0
apply (retitle id text) d = (set_window_title d id text).0
apply (toggle_maximize id bounds) d = (toggle_window_maximized d id bounds).0
apply (go_fullscreen id on bounds) d = (set_window_fullscreen d id on bounds).0
apply (choose_controls minimize maximize layout) d = set_window_controls d minimize maximize layout
apply (choose_menu_height height) d = set_window_menu_height d height
apply (choose_insets insets) d = set_window_decoration_insets d insets
apply (choose_decoration_controls controls) d = set_window_decoration_controls d controls
apply (choose_pixel_profile profile) d = set_window_decoration_pixel_profile d profile
apply (choose_draggable draggable) d = set_window_decoration_frame_draggable d draggable
apply (press x y) d = (pointer_down d x y).0
apply (release x y) d = (pointer_up d x y).0
apply (move x y bounds) d = (pointer_move d x y bounds).0
apply cancel d = pointer_cancel_all d
apply (clamp bounds) d = (clamp_windows d bounds).0
apply (clamp_to_viewport work_area viewport) d = (clamp_windows_for_viewport d work_area viewport).0

unfoldable pub apply_all : List Op → Desktop → Desktop
apply_all [] d = d
apply_all (op ∷ ops) d = apply_all ops (apply op d)

apply-IsValid : (op : Op) (d : Desktop) → IsValid d → IsValid (apply op d)
unfolding apply set_window_controls set_window_menu_height set_window_decoration_insets
    set_window_decoration_controls set_window_decoration_pixel_profile
    set_window_decoration_frame_draggable
apply-IsValid (open_new text frame) d v = (open_window-Opens d text frame v).valid
apply-IsValid (destroy id) d v = (destroy_window-Destroys d id v).valid
apply-IsValid (raise id) d v = (raise_window-Raises d id v).valid
apply-IsValid (activate id) d v = (activate_window-Activates d id v).valid
apply-IsValid (toggle_minimize id) d v = toggle_window_minimized-IsValid d id v
apply-IsValid (retitle id text) d v = set_window_title-IsValid d id text v
apply-IsValid (toggle_maximize id bounds) d v = toggle_window_maximized-IsValid d id bounds v
apply-IsValid (go_fullscreen id on bounds) d v = set_window_fullscreen-IsValid d id on bounds v
apply-IsValid (choose_controls minimize maximize layout) d v =
    each-SameMarks d _ (λ w. set_controls-SameMarks w minimize maximize layout) v
apply-IsValid (choose_menu_height height) d v =
    each-SameMarks d _ (λ w. set_decoration_menu_height-SameMarks w height) v
apply-IsValid (choose_insets insets) d v = elim (Bool-cases (decoration_insets_are_valid insets)) [
  | inl t ↦ rw t (each-SameMarks d _ (λ w. set_decoration_content_insets-SameMarks w insets) v)
  | inr f ↦ rw f v
]
apply-IsValid (choose_decoration_controls controls) d v =
    elim (Bool-cases (decoration_controls_are_valid controls)) [
      | inl t ↦ rw t (each-SameMarks d _ (λ w. set_decoration_controls-SameMarks w controls) v)
      | inr f ↦ rw f v
    ]
apply-IsValid (choose_pixel_profile profile) d v =
    elim (Bool-cases (decoration_pixel_profile_is_valid profile)) [
      | inl t ↦ rw t (each-SameMarks d _ (λ w. set_decoration_pixel_profile-SameMarks w profile) v)
      | inr f ↦ rw f v
    ]
apply-IsValid (choose_draggable draggable) d v =
    each-SameMarks d _ (λ w. set_decoration_frame_draggable-SameMarks w draggable) v
apply-IsValid (press x y) d v = pointer_down-IsValid d x y v
apply-IsValid (release x y) d v = pointer_up-IsValid d x y v
apply-IsValid (move x y bounds) d v = pointer_move-IsValid d x y bounds v
apply-IsValid cancel d v = pointer_cancel_all-IsValid d v
apply-IsValid (clamp bounds) d v = clamp_windows-IsValid d bounds v
apply-IsValid (clamp_to_viewport work_area viewport) d v =
    clamp_for_viewport-IsValid d work_area viewport v

apply_from-IsValid : (ops : List Op) (d : Desktop) → IsValid d → IsValid (apply_all ops d)
unfolding apply_all
apply_from-IsValid [] d v = v
apply_from-IsValid (op ∷ ops) d v = apply_from-IsValid ops (apply op d) (apply-IsValid op d v)

-- Whatever sequence of the manager's operations runs on a new desktop, with any arguments: the
-- stack lists each occupied slot once, the ids are distinct and not 0, exactly the window of the
-- active id is marked active and it is not minimised, and the pointer is with no window or with
-- one in the stack.
pub apply_all-IsValid :
    (windows : ℕ → Window) (ops : List Op) → IsValid (apply_all ops (init windows))
apply_all-IsValid windows ops = apply_from-IsValid ops (init windows) (init-IsValid windows)
