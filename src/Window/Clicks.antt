-- ===== src/Window/Clicks.antt =====
-- Presses, motions and releases: the pointer state machine of src/window.c.
use nix_bench.Prelude.{◌≡◌, ◌≢◌, ◌⊎◌, ◌↔◌, refl, ◌∙◌, true, false, List, [], ◌∷◌, ℤ, arith}
use nix_bench.Window.{
  Rect, Window, Hit, nothing, on_frame, on_content, on_title, on_close, on_minimize, on_maximize,
  on_resize, PointerMode, idle, dragging, closing, minimizing, maximizing, resizing, Action,
  close_requested, minimize_toggled, maximize_toggled, resized, pointer_cancel,
}
use nix_bench.Window.Pointer.{
  rect_contains, hit_test, press, pointer_down, move_window_for_drag, resize_to, move_in,
  pointer_move, release_in, pointer_up,
}

-- The hit test misses exactly if the window is hidden or minimised, or the point is outside its
-- frame.
pub hit_test-nothing :
    (w : Window) (x y : ℤ)
    → (hit_test w x y ≡ nothing)
      ↔ ((w.visible ≡ false) ⊎ (w.minimized ≡ true) ⊎ (rect_contains w.frame x y ≡ false))
unfolding hit_test
hit_test-nothing w x y = ground arith

pub record Motion : Type 0 where
  pub x : ℤ
  pub y : ℤ
  pub bounds : Rect

-- The window after a sequence of pointer motions.
unfoldable pub moves : Window → List Motion → Window
moves w [] = w
moves w (m ∷ ms) = moves (pointer_move w m.x m.y m.bounds).0 ms

-- What no motion changes.
record Same (w w' : Window) : Type 0 where
  mode : w'.pointer_mode ≡ w.pointer_mode
  width : w'.resize_origin_width ≡ w.resize_origin_width
  height : w'.resize_origin_height ≡ w.resize_origin_height

move_in-Same :
    (p : PointerMode) (w : Window) (x y : ℤ) (bounds : Rect) → Same w (move_in p w x y bounds).0
unfolding move_in move_window_for_drag resize_to
move_in-Same idle w x y bounds = ground arith
move_in-Same _ w x y bounds = ground arith

moves-Same : (w : Window) (ms : List Motion) → Same w (moves w ms)
unfolding moves pointer_move
moves-Same w [] = record { mode = refl; width = refl; height = refl }
moves-Same w (m ∷ ms) =
    let a = move_in-Same w.pointer_mode w m.x m.y m.bounds in
    let b = moves-Same (pointer_move w m.x m.y m.bounds).0 ms in
    record { mode = b.mode ∙ a.mode; width = b.width ∙ a.width; height = b.height ∙ a.height }

-- The mode that a press at each hit starts.
abbrev mode_of : Hit → PointerMode
mode_of nothing = idle
mode_of on_frame = idle
mode_of on_content = idle
mode_of on_title = dragging
mode_of on_close = closing
mode_of on_minimize = minimizing
mode_of on_maximize = maximizing
mode_of on_resize = resizing

abbrev SizeDiffers : Window → ℤ → ℤ → Type 0
SizeDiffers w width height = (w.frame.width ≢ width) ⊎ (w.frame.height ≢ height)

-- The gadget that is pressed and released, or the new size, is what the action says.
abbrev pub IsClick : Hit → Hit → Action → Type 0 → Type 0
IsClick pressed released a sized =
    ((a ≡ close_requested) ↔ ((pressed ≡ on_close) × (released ≡ on_close)))
    × ((a ≡ minimize_toggled) ↔ ((pressed ≡ on_minimize) × (released ≡ on_minimize)))
    × ((a ≡ maximize_toggled) ↔ ((pressed ≡ on_maximize) × (released ≡ on_maximize)))
    × ((a ≡ resized) ↔ ((pressed ≡ on_resize) × sized))

release_gadget :
    (h : Hit) (released : Hit) (w : Window) (x y : ℤ)
    → hit_test w x y ≡ released
    → IsClick h released
        (release_in (mode_of h) w x y)
        (SizeDiffers w w.resize_origin_width w.resize_origin_height)
unfolding release_in
release_gadget on_resize r w x y e = ground arith
release_gadget _ r w x y e = ground arith

press-mode :
    (h : Hit) (w : Window) (x y : ℤ)
    → w.pointer_mode ≡ idle
    → (press h w x y).pointer_mode ≡ mode_of h
unfolding press
press-mode on_title w x y e = refl
press-mode on_close w x y e = refl
press-mode on_minimize w x y e = refl
press-mode on_maximize w x y e = refl
press-mode on_resize w x y e = refl
press-mode _ w x y e = e

press-resize_origin :
    (h : Hit) (w : Window) (x y : ℤ)
    → h ≡ on_resize
    → ((press h w x y).resize_origin_width ≡ w.frame.width)
      × ((press h w x y).resize_origin_height ≡ w.frame.height)
unfolding press
press-resize_origin on_resize w x y e = (refl, refl)
press-resize_origin _ w x y e = absurd (cc e)

pointer_down_idle :
    (w : Window) (x y : ℤ)
    → w.pointer_mode ≡ idle
    → pointer_down w x y ≡ (press (hit_test w x y) w x y, hit_test w x y)
unfolding pointer_down
pointer_down_idle w x y e = ground arith

-- What is claimed of a press that led to `down`, the motions `ms` and a release at (x, y).
abbrev pub Clicked : Window → List Motion → ℤ → ℤ → Window × Hit → Type 0
Clicked w ms x y down =
    let moved = moves down.0 ms in
    let up = pointer_up moved x y in
    IsClick down.1 (hit_test moved x y) up.1 (SizeDiffers moved w.frame.width w.frame.height)
    × (up.0.pointer_mode ≡ idle)

sized_origin :
    (w moved : Window) (h : Hit) (a : Action)
    → (h ≡ on_resize
        → (moved.resize_origin_width ≡ w.frame.width)
          × (moved.resize_origin_height ≡ w.frame.height))
    → (a ≡ resized)
      ↔ ((h ≡ on_resize) × SizeDiffers moved moved.resize_origin_width moved.resize_origin_height)
    → (a ≡ resized) ↔ ((h ≡ on_resize) × SizeDiffers moved w.frame.width w.frame.height)
sized_origin w moved h a o e = (
  λ p. let (q, d) = e.0 p in let (x, y) = o q in (q, rw (x, y) at d),
  λ (q, d). let (x, y) = o q in e.1 (q, rw (← x, ← y) at d),
)

-- On an idle window, whatever motions come between a press and a release: the release asks to
-- close the window exactly if both were on the close gadget, and so for minimising and
-- maximising; it reports a new size exactly if the press was on the resize corner and the
-- frame's size differs from the one at the press. After it the window is idle again.
pub click :
    (w : Window) (x y : ℤ) (ms : List Motion) (x' y' : ℤ)
    → w.pointer_mode ≡ idle
    → Clicked w ms x' y' (pointer_down w x y)
unfolding pointer_up pointer_cancel moves
click w x y ms x' y' e =
    let h = hit_test w x y in
    let pressed = press h w x y in
    let moved = moves pressed ms in
    let same = moves-Same pressed ms in
    let mode : moved.pointer_mode ≡ mode_of h = same.mode ∙ press-mode h w x y e in
    let g = release_gadget h (hit_test moved x' y') moved x' y' refl in
    let o : h ≡ on_resize
        → (moved.resize_origin_width ≡ w.frame.width)
          × (moved.resize_origin_height ≡ w.frame.height) =
      λ q. let (a, b) = press-resize_origin h w x y q in (same.width ∙ a, same.height ∙ b) in
    let action = release_in (mode_of h) moved x' y' in
    rw (pointer_down_idle w x y e, mode)
      ((g.0, g.1, g.2, sized_origin w moved h action o g.3), refl)
