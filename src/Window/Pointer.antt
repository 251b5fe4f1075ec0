-- ===== src/Window/Pointer.antt =====
-- Hit tests and the pointer state machine of a window: src/window.c, `rect_contains`,
-- `move_window_for_drag`, `resize_dimension`, `origin_is_within_bounds` and the functions from
-- `nb_window_hit_test` to `nb_window_pointer_up`.
use nix_bench.Prelude.{
  Bool, true, false, ◌&&◌, ◌||◌, not, ℤ, pos, ◌+ℤ◌, ◌-ℤ◌, ltb_ℤ, leb_ℤ, eqb_ℤ, if◌then◌else◌,
}
use nix_bench.Window.{
  Rect, Window, Hit, nothing, on_frame, on_content, on_title, on_close, on_minimize, on_maximize,
  on_resize, PointerMode, idle, dragging, closing, minimizing, maximizing, resizing, Action,
  no_action, close_requested, minimize_toggled, maximize_toggled, resized, int_max, min_width,
  min_height, drag_visible_width, drag_visible_height, maximum, minimum, to_int, clamp_int64_to_int,
  pointer_cancel,
}
use nix_bench.Window.Layout.{
  title_rect, content_rect, close_rect, minimize_rect, maximize_rect, resize_rect,
}

unfoldable pub rect_contains : Rect → ℤ → ℤ → Bool
rect_contains r x y =
    ltb_ℤ (pos 0) r.width
    && ltb_ℤ (pos 0) r.height
    && leb_ℤ r.x x
    && leb_ℤ r.y y
    && ltb_ℤ x (r.x +ℤ r.width)
    && ltb_ℤ y (r.y +ℤ r.height)

unfoldable pub clamp_drag_coordinate : ℤ → ℤ → ℤ → ℤ
clamp_drag_coordinate desired minimum_origin maximum_origin =
    let low = if ltb_ℤ desired minimum_origin then minimum_origin else desired in
    clamp_int64_to_int (if ltb_ℤ maximum_origin low then maximum_origin else low)

-- The window and whether it moved.
unfoldable pub move_window_for_drag : Window → ℤ → ℤ → Rect → Window × Bool
move_window_for_drag w x y bounds =
    let f = w.frame in
    let visible_width = minimum f.width (minimum bounds.width drag_visible_width) in
    let visible_height = minimum f.height (minimum bounds.height drag_visible_height) in
    let new_x =
      clamp_drag_coordinate (x -ℤ w.pointer_offset_x) (bounds.x -ℤ f.width +ℤ visible_width)
        (bounds.x +ℤ bounds.width -ℤ visible_width) in
    let new_y =
      clamp_drag_coordinate (y -ℤ w.pointer_offset_y) bounds.y
        (bounds.y +ℤ bounds.height -ℤ visible_height) in
    if leb_ℤ bounds.width (pos 0) || leb_ℤ bounds.height (pos 0) then (w, false) else (
      record w { frame = record f { x = new_x; y = new_y } },
      not (eqb_ℤ f.x new_x) || not (eqb_ℤ f.y new_y),
    )

-- The two clampings of `resize_dimension`: of `available`, and of `desired` with the conversion
-- to `int`.
unfoldable pub clamp_available : ℤ → ℤ
clamp_available room =
    if ltb_ℤ room (pos 0) then pos 0 else if ltb_ℤ int_max room then int_max else room

unfoldable pub clamp_desired : ℤ → ℤ → ℤ → ℤ
clamp_desired available wanted minimum_size =
    let desired = if ltb_ℤ wanted minimum_size then minimum_size else wanted in
    to_int (if ltb_ℤ available desired then available else desired)

unfoldable pub resize_dimension : ℤ → ℤ → ℤ → ℤ → ℤ → ℤ → ℤ
resize_dimension pointer_coordinate pointer_offset frame_origin bounds_origin bounds_size
      minimum_size =
    let bounds_end = bounds_origin +ℤ maximum (pos 0) bounds_size in
    clamp_desired (clamp_available (bounds_end -ℤ frame_origin))
      (pointer_coordinate +ℤ pointer_offset -ℤ frame_origin) minimum_size

unfoldable pub origin_is_within_bounds : ℤ → ℤ → ℤ → Bool
origin_is_within_bounds origin bounds_origin bounds_size =
    ltb_ℤ (pos 0) bounds_size
    && leb_ℤ bounds_origin origin
    && ltb_ℤ origin (bounds_origin +ℤ bounds_size)

unfoldable pub hit_test : Window → ℤ → ℤ → Hit
hit_test w x y =
    if not w.visible || w.minimized || not (rect_contains w.frame x y)
    then nothing
    else if w.fullscreen
    then on_content
    else if rect_contains (close_rect w) x y
    then on_close
    else if rect_contains (minimize_rect w) x y
    then on_minimize
    else if rect_contains (maximize_rect w) x y
    then on_maximize
    else if not w.maximized && rect_contains (resize_rect w) x y
    then on_resize
    else if rect_contains (title_rect w) x y
    then on_title
    else if rect_contains (content_rect w) x y
    then on_content
    else if w.decoration_frame_draggable
    then on_title
    else on_frame

abbrev pub is_idle : PointerMode → Bool
is_idle idle = true
is_idle _ = false

-- A press on the title of a maximised window first restores its frame.
unfoldable pub restore_for_drag : Window → Window
restore_for_drag w =
    if w.maximized && w.restore_frame_valid
    then record w { frame = w.restore_frame; maximized = false }
    else w

-- What `nb_window_pointer_down` does at each hit.
unfoldable pub press : Hit → Window → ℤ → ℤ → Window
press on_title w x y =
    let w' = restore_for_drag w in
    record w' {
      pointer_mode = dragging;
      pointer_offset_x = x -ℤ w'.frame.x;
      pointer_offset_y = y -ℤ w'.frame.y;
    }
press on_close w x y = record w { pointer_mode = closing; close_pressed = true }
press on_minimize w x y = record w { pointer_mode = minimizing; minimize_pressed = true }
press on_maximize w x y = record w { pointer_mode = maximizing; maximize_pressed = true }
press on_resize w x y = record w {
  pointer_mode = resizing;
  pointer_offset_x = to_int (w.frame.x +ℤ w.frame.width -ℤ x);
  pointer_offset_y = to_int (w.frame.y +ℤ w.frame.height -ℤ y);
  resize_origin_width = w.frame.width;
  resize_origin_height = w.frame.height;
}
press nothing w x y = w
press on_frame w x y = w
press on_content w x y = w

unfoldable pub pointer_down : Window → ℤ → ℤ → Window × Hit
pointer_down w x y =
    if not (is_idle w.pointer_mode)
    then (w, nothing)
    else let hit = hit_test w x y in (press hit w x y, hit)

abbrev pub is_on_close : Hit → Bool
is_on_close on_close = true
is_on_close _ = false

abbrev pub is_on_minimize : Hit → Bool
is_on_minimize on_minimize = true
is_on_minimize _ = false

abbrev pub is_on_maximize : Hit → Bool
is_on_maximize on_maximize = true
is_on_maximize _ = false

abbrev pub differ : Bool → Bool → Bool
differ a b = if a then not b else b

unfoldable pub resize_to : Window → ℤ → ℤ → Rect → Window × Bool
resize_to w x y bounds =
    let f = w.frame in
    let width = resize_dimension x w.pointer_offset_x f.x bounds.x bounds.width min_width in
    let height = resize_dimension y w.pointer_offset_y f.y bounds.y bounds.height min_height in
    if not (origin_is_within_bounds f.x bounds.x bounds.width)
      || not (origin_is_within_bounds f.y bounds.y bounds.height)
    then (w, false)
    else (
      record w { frame = record f { width = width; height = height } },
      not (eqb_ℤ f.width width) || not (eqb_ℤ f.height height),
    )

-- The arms of `nb_window_pointer_move`, by the pointer mode.
unfoldable pub move_in : PointerMode → Window → ℤ → ℤ → Rect → Window × Bool
move_in idle w x y bounds = (w, false)
move_in dragging w x y bounds = move_window_for_drag w x y bounds
move_in closing w x y bounds =
    let pressed = is_on_close (hit_test w x y) in
    (record w { close_pressed = pressed }, differ w.close_pressed pressed)
move_in minimizing w x y bounds =
    let pressed = is_on_minimize (hit_test w x y) in
    (record w { minimize_pressed = pressed }, differ w.minimize_pressed pressed)
move_in maximizing w x y bounds =
    let pressed = is_on_maximize (hit_test w x y) in
    (record w { maximize_pressed = pressed }, differ w.maximize_pressed pressed)
move_in resizing w x y bounds = resize_to w x y bounds

unfoldable pub pointer_move : Window → ℤ → ℤ → Rect → Window × Bool
unfolding move_in
pointer_move w x y bounds = move_in w.pointer_mode w x y bounds

-- The action that a release asks for, by the pointer mode.
unfoldable pub release_in : PointerMode → Window → ℤ → ℤ → Action
release_in closing w x y = if is_on_close (hit_test w x y) then close_requested else no_action
release_in minimizing w x y =
    if is_on_minimize (hit_test w x y) then minimize_toggled else no_action
release_in maximizing w x y =
    if is_on_maximize (hit_test w x y) then maximize_toggled else no_action
release_in resizing w x y =
    if not (eqb_ℤ w.frame.width w.resize_origin_width)
      || not (eqb_ℤ w.frame.height w.resize_origin_height)
    then resized
    else no_action
release_in idle w x y = no_action
release_in dragging w x y = no_action

unfoldable pub pointer_up : Window → ℤ → ℤ → Window × Action
unfolding release_in
pointer_up w x y = (pointer_cancel w, release_in w.pointer_mode w x y)
