-- ===== src/Window/Frame.antt =====
-- Minimising, maximising, full screen and clamping: the last part of src/window.c.
use nix_bench.Prelude.{
  Bool, true, false, ◌&&◌, ◌||◌, not, ℤ, pos, ◌+ℤ◌, ◌-ℤ◌, ltb_ℤ, leb_ℤ, eqb_ℤ, if◌then◌else◌,
}
use nix_bench.Window.{Rect, Window, maximum, minimum, pointer_cancel}
use nix_bench.Window.Pointer.{differ}

-- Each function returns the window and the result of the C function.
unfoldable pub toggle_minimized : Window → Window × Bool
toggle_minimized w =
    if not w.visible
    then (w, false)
    else let w' = pointer_cancel w in (record w' { minimized = not w'.minimized }, true)

abbrev pub eqb_rect : Rect → Rect → Bool
eqb_rect r s = eqb_ℤ r.x s.x && eqb_ℤ r.y s.y && eqb_ℤ r.width s.width && eqb_ℤ r.height s.height

-- One dimension of the clamping: the size, and with the clamped size the origin.
unfoldable pub clamp_size : ℤ → ℤ → ℤ
clamp_size size bounds_size = if ltb_ℤ bounds_size size then bounds_size else size

unfoldable pub clamp_origin : ℤ → ℤ → ℤ → ℤ → ℤ
clamp_origin origin size bounds_origin bounds_size =
    let maximum_origin = bounds_origin +ℤ maximum (pos 0) (bounds_size -ℤ size) in
    maximum bounds_origin (minimum origin maximum_origin)

-- The frame of a window that is neither maximised nor full screen, after `nb_window_clamp_to`.
unfoldable pub clamp_frame : Rect → Rect → Rect
clamp_frame f bounds =
    let width = clamp_size f.width bounds.width in
    let height = clamp_size f.height bounds.height in
    record {
      x = clamp_origin f.x width bounds.x bounds.width;
      y = clamp_origin f.y height bounds.y bounds.height;
      width = width;
      height = height;
    }

unfoldable pub clamp_to : Window → Rect → Window × Bool
clamp_to w bounds =
    let f = if w.maximized || w.fullscreen then bounds else clamp_frame w.frame bounds in
    (record w { frame = f }, not (eqb_rect w.frame f))

unfoldable pub shrink_to : Rect → Rect → Rect
shrink_to f bounds = record f {
  width = clamp_size f.width bounds.width;
  height = clamp_size f.height bounds.height;
}

unfoldable pub toggle_maximized : Window → Rect → Window × Bool
toggle_maximized w bounds =
    if w.fullscreen || leb_ℤ bounds.width (pos 0) || leb_ℤ bounds.height (pos 0)
    then (w, false)
    else if not w.maximized
    then (
      record w {
        restore_frame = w.frame;
        restore_frame_valid = true;
        maximized = true;
        frame = bounds;
      },
      true,
    )
    else let restored = if w.restore_frame_valid then w.restore_frame else w.frame in
      let w' = record w { maximized = false; frame = shrink_to restored bounds } in
      ((clamp_to w' bounds).0, true)

unfoldable pub set_fullscreen : Window → Bool → Rect → Window × Bool
set_fullscreen w fullscreen bounds =
    let w' = pointer_cancel w in
    if leb_ℤ bounds.width (pos 0) || leb_ℤ bounds.height (pos 0)
    then (w, false)
    else if not (differ w.fullscreen fullscreen)
    then (w, true)
    else if fullscreen
    then (
      record w' {
        fullscreen_restore_frame = w'.frame;
        fullscreen_restore_maximized = w'.maximized;
        fullscreen = true;
        maximized = false;
        minimized = false;
        frame = bounds;
      },
      true,
    )
    else (
      record w' {
        fullscreen = false;
        maximized = w'.fullscreen_restore_maximized;
        frame = w'.fullscreen_restore_frame;
      },
      true,
    )
