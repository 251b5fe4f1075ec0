-- ===== src/Window/Restore.antt =====
-- Full screen and maximising, there and back: src/window.c.
use nix_bench.Prelude.{◌≡◌, true, false, pos, ◌<ℤ◌, ◌≤ℤ◌, arith}
use nix_bench.Window.{Rect, Window, pointer_cancel}
use nix_bench.Window.Frame.{clamp_size, clamp_to, shrink_to, toggle_maximized, set_fullscreen}
use nix_bench.Window.Clamp.{IsWithin, clamp_frame_inside}

-- Bounds with a positive area, which the operations ask for.
abbrev pub IsPositive : Rect → Type 0
IsPositive bounds = (pos 0 <ℤ bounds.width) × (pos 0 <ℤ bounds.height)

-- A window that enters full screen and leaves it again, at any two bounds of positive area, has
-- its old frame and its old maximised state; in between, it fills the bounds and is neither
-- maximised nor minimised. Both calls succeed.
pub set_fullscreen_twice :
    (w : Window) (bounds later : Rect)
    → w.fullscreen ≡ false
    → IsPositive bounds
    → IsPositive later
    → let (entered, ok) = set_fullscreen w true bounds in
      let (w', ok') = set_fullscreen entered false later in
      (ok ≡ true)
      × (entered.frame ≡ bounds)
      × (entered.fullscreen ≡ true)
      × (entered.maximized ≡ false)
      × (entered.minimized ≡ false)
      × (ok' ≡ true)
      × (w'.frame ≡ w.frame)
      × (w'.maximized ≡ w.maximized)
      × (w'.fullscreen ≡ false)
unfolding set_fullscreen pointer_cancel
set_fullscreen_twice w bounds later f p q = ground arith

-- A window, neither full screen nor maximised, that is maximised and then un-maximised at the same
-- bounds of positive area has its old frame back, if that frame lies inside the bounds and is no
-- larger. In between it fills the bounds.
pub toggle_maximized_twice :
    (w : Window) (bounds : Rect)
    → w.fullscreen ≡ false
    → w.maximized ≡ false
    → IsPositive bounds
    → IsWithin bounds w.frame
    → w.frame.width ≤ℤ bounds.width
    → w.frame.height ≤ℤ bounds.height
    → let (large, ok) = toggle_maximized w bounds in
      let (w', ok') = toggle_maximized large bounds in
      (ok ≡ true)
      × (large.frame ≡ bounds)
      × (large.maximized ≡ true)
      × (ok' ≡ true)
      × (w'.frame ≡ w.frame)
      × (w'.maximized ≡ false)
unfolding toggle_maximized clamp_to shrink_to clamp_size
toggle_maximized_twice w bounds f m p v hw hh =
    ground (arith, clamp_frame_inside w.frame bounds v hw hh)
