-- ===== src/Window/Tests.antt =====
-- The theorems on windows at concrete windows, and a few runs of them.
use nix_bench.Prelude.{
  ◌≡◌, refl, true, false, some, List, [], ◌∷◌, pos, negsuc, ◌≤ℤ◌, ◌+ℤ◌, ◌-ℤ◌, arith,
}
use nix_bench.Window.{Rect, Window, init, sized_frame, set_title, to_int}
use nix_bench.Window.Layout.{
  has_custom_decoration_controls, close_rect, minimize_rect, maximize_rect,
}
use nix_bench.Window.Pointer.{rect_contains, pointer_down, move_window_for_drag}
use nix_bench.Window.Frame.{clamp_to, toggle_maximized, set_fullscreen}
use nix_bench.Window.Clamp.{IsWithin, clamp_to_lem}
use nix_bench.Window.Restore.{set_fullscreen_twice, toggle_maximized_twice}
use nix_bench.Window.Drag.{to_int_lem, visible_width, visible_height, move_window_for_drag_visible}
use nix_bench.Window.Clicks.{Motion, Clicked, click}
use nix_bench.Window.Layout.{
  title_rect, menu_rect, content_rect, footer_rect, has_decoration_content_insets,
}
use nix_bench.Window.Stacked.{IsStacked, content_rect-IsStacked}
use nix_bench.Window.Gadgets.{gadgets_apart}

-- A window at (40, 50) of 300 × 200 on a screen of 1024 × 768.
abbrev sample : Window
sample =
    init (some (78 ∷ 66 ∷ []))
      (record { x = pos 40; y = pos 50; width = pos 300; height = pos 200 })

abbrev screen : Rect
screen = record { x = pos 0; y = pos 0; width = pos 1024; height = pos 768 }

abbrev far : Window
far = record sample {
  frame = record { x = pos 2000; y = negsuc 99; width = pos 300; height = pos 900 };
}

clamp_to_lem_example :
    IsWithin screen (clamp_to far screen).0.frame
    × (clamp_to (clamp_to far screen).0 screen ≡ ((clamp_to far screen).0, false))
clamp_to_lem_example = clamp_to_lem far screen

set_fullscreen_twice_example :
    (set_fullscreen (set_fullscreen sample true screen).0 false screen).0.frame ≡ sample.frame
unfolding init set_title sized_frame
set_fullscreen_twice_example =
    (set_fullscreen_twice sample screen screen refl (omega arith, omega arith)
      (omega arith, omega arith)).6

toggle_maximized_twice_example :
    (toggle_maximized (toggle_maximized sample screen).0 screen).0.frame ≡ sample.frame
unfolding init set_title sized_frame ◌+ℤ◌
toggle_maximized_twice_example =
    (toggle_maximized_twice sample screen refl refl (omega arith, omega arith) (ground arith)
      (omega arith) (omega arith)).4

to_int_lem_example : to_int (negsuc 5) ≡ negsuc 5
to_int_lem_example = to_int_lem (negsuc 5) (omega arith, omega arith)

-- A drag far to the left of the screen.
move_window_for_drag_visible_example :
    let f = (move_window_for_drag sample (negsuc 5000) (pos 90) screen).0.frame in
    (f.width ≡ sample.frame.width)
    × (f.height ≡ sample.frame.height)
    × (pos 0 +ℤ visible_width sample screen ≤ℤ f.x +ℤ f.width)
    × (f.x +ℤ visible_width sample screen ≤ℤ pos 0 +ℤ pos 1024)
    × (pos 0 ≤ℤ f.y)
    × (f.y +ℤ visible_height sample screen ≤ℤ pos 0 +ℤ pos 768)
unfolding init set_title sized_frame ◌+ℤ◌ ◌-ℤ◌
move_window_for_drag_visible_example =
    move_window_for_drag_visible sample (negsuc 5000) (pos 90) screen (omega arith, omega arith)
      (ground arith)

abbrev motions : List Motion
motions =
    record { x = pos 70; y = pos 70; bounds = screen }
    ∷ record { x = pos 52; y = pos 61; bounds = screen }
    ∷ []

click_example : Clicked sample motions (pos 51) (pos 62) (pointer_down sample (pos 50) (pos 60))
unfolding init set_title
click_example = click sample (pos 50) (pos 60) motions (pos 51) (pos 62) refl

gadgets_apart_example :
    (rect_contains (close_rect sample) (pos 50) (pos 60) ≡ true
      → rect_contains (minimize_rect sample) (pos 50) (pos 60) ≡ false)
    × (rect_contains (close_rect sample) (pos 50) (pos 60) ≡ true
        → rect_contains (maximize_rect sample) (pos 50) (pos 60) ≡ false)
    × (rect_contains (minimize_rect sample) (pos 50) (pos 60) ≡ true
        → rect_contains (maximize_rect sample) (pos 50) (pos 60) ≡ false)
unfolding init set_title has_custom_decoration_controls
gadgets_apart_example = gadgets_apart sample (pos 50) (pos 60) (refl, refl)

content_rect-IsStacked_example :
    IsStacked sample.frame
      (title_rect sample)
      (menu_rect sample)
      (content_rect sample)
      (footer_rect sample)
      sample.decoration_menu_height
unfolding init set_title sized_frame has_decoration_content_insets
content_rect-IsStacked_example = content_rect-IsStacked sample (record {
  fullscreen = refl;
  insets = refl;
  width = omega arith;
  height = omega arith;
  menu = omega arith;
})
