-- ===== src/Window/Marks.antt =====
-- What the operations of src/window.c do to the active mark and the minimised state of a window.
use nix_bench.Prelude.{◌≡◌, refl, Bool, true, false, not, Option, none, some, List, ℕ, ℤ, arith}
use nix_bench.Window.{
  Rect, Insets, Controls, PixelProfile, ControlLayout, Window, Hit, on_title, PointerMode, dragging,
  resizing, set_title, pointer_cancel,
}
use nix_bench.Window.Settings.{
  set_controls, set_decoration_menu_height, set_decoration_content_insets, set_decoration_controls,
  set_decoration_pixel_profile, set_decoration_frame_draggable,
}
use nix_bench.Window.Pointer.{
  hit_test, restore_for_drag, press, pointer_down, move_window_for_drag, resize_to, move_in,
  pointer_move, pointer_up,
}
use nix_bench.Window.Frame.{toggle_minimized, toggle_maximized, set_fullscreen, clamp_to}

-- The same active mark and minimised state.
pub record SameMarks (w w' : Window) : Type 0 where
  pub active : w'.active ≡ w.active
  pub minimized : w'.minimized ≡ w.minimized

pub set_title-SameMarks : (w : Window) (text : Option (List ℕ)) → SameMarks w (set_title w text)
unfolding set_title
set_title-SameMarks w none = record { active = refl; minimized = refl }
set_title-SameMarks w (some text) = record { active = refl; minimized = refl }

pub pointer_cancel-SameMarks : (w : Window) → SameMarks w (pointer_cancel w)
unfolding pointer_cancel
pointer_cancel-SameMarks w = record { active = refl; minimized = refl }

pub set_controls-SameMarks :
    (w : Window) (a b : Bool) (layout : ControlLayout) → SameMarks w (set_controls w a b layout)
unfolding set_controls pointer_cancel
set_controls-SameMarks w a b layout = ground arith

pub set_decoration_menu_height-SameMarks :
    (w : Window) (height : ℤ) → SameMarks w (set_decoration_menu_height w height)
unfolding set_decoration_menu_height
set_decoration_menu_height-SameMarks w height = record { active = refl; minimized = refl }

pub set_decoration_content_insets-SameMarks :
    (w : Window) (i : Insets) → SameMarks w (set_decoration_content_insets w i)
unfolding set_decoration_content_insets
set_decoration_content_insets-SameMarks w i = ground arith

pub set_decoration_controls-SameMarks :
    (w : Window) (c : Controls) → SameMarks w (set_decoration_controls w c)
unfolding set_decoration_controls
set_decoration_controls-SameMarks w c = ground arith

pub set_decoration_pixel_profile-SameMarks :
    (w : Window) (p : PixelProfile) → SameMarks w (set_decoration_pixel_profile w p)
unfolding set_decoration_pixel_profile
set_decoration_pixel_profile-SameMarks w p = ground arith

pub set_decoration_frame_draggable-SameMarks :
    (w : Window) (draggable : Bool) → SameMarks w (set_decoration_frame_draggable w draggable)
unfolding set_decoration_frame_draggable
set_decoration_frame_draggable-SameMarks w draggable = record { active = refl; minimized = refl }

pub toggle_maximized-SameMarks :
    (w : Window) (bounds : Rect) → SameMarks w (toggle_maximized w bounds).0
unfolding toggle_maximized clamp_to
toggle_maximized-SameMarks w bounds = ground arith

press-SameMarks : (h : Hit) (w : Window) (x y : ℤ) → SameMarks w (press h w x y)
unfolding press restore_for_drag
press-SameMarks on_title w x y = ground arith
press-SameMarks _ w x y = record { active = refl; minimized = refl }

pub pointer_down-SameMarks : (w : Window) (x y : ℤ) → SameMarks w (pointer_down w x y).0
unfolding pointer_down
pointer_down-SameMarks w x y = ground (arith, press-SameMarks (hit_test w x y) w x y)

move_in-SameMarks :
    (p : PointerMode) (w : Window) (x y : ℤ) (bounds : Rect)
    → SameMarks w (move_in p w x y bounds).0
unfolding move_in move_window_for_drag resize_to
move_in-SameMarks dragging w x y bounds = ground arith
move_in-SameMarks resizing w x y bounds = ground arith
move_in-SameMarks _ w x y bounds = record { active = refl; minimized = refl }

pub pointer_move-SameMarks :
    (w : Window) (x y : ℤ) (bounds : Rect) → SameMarks w (pointer_move w x y bounds).0
unfolding pointer_move
pointer_move-SameMarks w x y bounds = move_in-SameMarks w.pointer_mode w x y bounds

pub pointer_up-SameMarks : (w : Window) (x y : ℤ) → SameMarks w (pointer_up w x y).0
unfolding pointer_up pointer_cancel
pointer_up-SameMarks w x y = record { active = refl; minimized = refl }

-- Entering or leaving full screen keeps the active mark and minimises no window.
pub set_fullscreen_marks :
    (w : Window) (fullscreen : Bool) (bounds : Rect)
    → let w' = (set_fullscreen w fullscreen bounds).0 in
      (w'.active ≡ w.active) × (w.minimized ≡ false → w'.minimized ≡ false)
unfolding set_fullscreen pointer_cancel
set_fullscreen_marks w fullscreen bounds = ground arith

-- Toggling keeps the active mark, and turns the state where it succeeds.
pub toggle_minimized_marks :
    (w : Window)
    → let (w', done) = toggle_minimized w in
      (w'.active ≡ w.active) × (done ≡ true → w'.minimized ≡ not w.minimized)
unfolding toggle_minimized pointer_cancel
toggle_minimized_marks w = ground arith
