-- ===== src/Window/Drag.antt =====
-- Dragging and resizing by the pointer: src/window.c, `move_window_for_drag` and
-- `resize_dimension`.
use nix_bench.Prelude.{
  ◌≡◌, ◌⊎◌, refl, false, ◌||◌, ℤ, pos, negsuc, ◌<ℤ◌, ◌≤ℤ◌, ◌+ℤ◌, ◌-ℤ◌, int_laws, arith, leb_ℤ,
}
use nix_bench.Window.{
  Rect, Window, int_max, int_min, maximum, minimum, drag_visible_width, drag_visible_height, to_int,
  clamp_int64_to_int,
}
use nix_bench.Window.Pointer.{
  clamp_drag_coordinate, move_window_for_drag, clamp_available, clamp_desired, resize_dimension,
}
use nix_bench.Window.Restore.{IsPositive}

-- A value of the C type `int`.
abbrev pub IsInt : ℤ → Type 0
IsInt v = (int_min ≤ℤ v) × (v ≤ℤ int_max)

pub to_int_lem : (v : ℤ) → IsInt v → to_int v ≡ v
unfolding to_int
to_int_lem (pos n) h = ground arith
to_int_lem (negsuc n) h = ground arith

clamp_drag_coordinate_bounds :
    (desired low high : ℤ)
    → low ≤ℤ high
    → IsInt low
    → IsInt high
    → (low ≤ℤ clamp_drag_coordinate desired low high)
      × (clamp_drag_coordinate desired low high ≤ℤ high)
unfolding clamp_drag_coordinate clamp_int64_to_int
clamp_drag_coordinate_bounds desired low high h p q = ground arith

-- The part of a window that stays on the screen while it is dragged.
abbrev pub visible_width : Window → Rect → ℤ
visible_width w bounds = minimum w.frame.width (minimum bounds.width drag_visible_width)

abbrev pub visible_height : Window → Rect → ℤ
visible_height w bounds = minimum w.frame.height (minimum bounds.height drag_visible_height)

-- The origins between which a drag may place the window are values of `int`.
pub record OriginsFit (w : Window) (bounds : Rect) : Type 0 where
  pub width_nonneg : pos 0 ≤ℤ w.frame.width
  pub height_nonneg : pos 0 ≤ℤ w.frame.height
  pub lowest_x : int_min ≤ℤ bounds.x -ℤ w.frame.width
  pub highest_x : bounds.x +ℤ bounds.width ≤ℤ int_max
  pub lowest_y : int_min ≤ℤ bounds.y
  pub highest_y : bounds.y +ℤ bounds.height ≤ℤ int_max

visible_fits :
    (size bounds_size most : ℤ)
    → pos 0 ≤ℤ most
    → pos 0 <ℤ bounds_size
    → pos 0 ≤ℤ size
    → let v = minimum size (minimum bounds_size most) in
      (pos 0 ≤ℤ v) × (v ≤ℤ size) × (v ≤ℤ bounds_size)
visible_fits size bounds_size most h p q = ground arith

drag_x_visible :
    (desired origin bounds_size size v : ℤ)
    → pos 0 <ℤ bounds_size
    → pos 0 ≤ℤ size
    → int_min ≤ℤ origin -ℤ size
    → origin +ℤ bounds_size ≤ℤ int_max
    → (pos 0 ≤ℤ v) × (v ≤ℤ size) × (v ≤ℤ bounds_size)
    → let n = clamp_drag_coordinate desired (origin -ℤ size +ℤ v) (origin +ℤ bounds_size -ℤ v) in
      (origin +ℤ v ≤ℤ n +ℤ size) × (n +ℤ v ≤ℤ origin +ℤ bounds_size)
drag_x_visible desired origin bounds_size size v p q lo hi fits =
    let low = origin -ℤ size +ℤ v in
    let high = origin +ℤ bounds_size -ℤ v in
    let n =
      clamp_drag_coordinate_bounds desired low high (omega int_laws) (omega int_laws)
        (omega int_laws) in
    omega (int_laws, n)

drag_y_visible :
    (desired origin bounds_size v : ℤ)
    → int_min ≤ℤ origin
    → origin +ℤ bounds_size ≤ℤ int_max
    → (pos 0 ≤ℤ v) × (v ≤ℤ bounds_size)
    → let n = clamp_drag_coordinate desired origin (origin +ℤ bounds_size -ℤ v) in
      (origin ≤ℤ n) × (n +ℤ v ≤ℤ origin +ℤ bounds_size)
drag_y_visible desired origin bounds_size v lo hi fits =
    let high = origin +ℤ bounds_size -ℤ v in
    let n =
      clamp_drag_coordinate_bounds desired origin high (omega int_laws) (omega int_laws)
        (omega int_laws) in
    omega (int_laws, n)

guard_passed :
    (bounds : Rect)
    → IsPositive bounds
    → leb_ℤ bounds.width (pos 0) || leb_ℤ bounds.height (pos 0) ≡ false
guard_passed bounds p = ground arith

-- Where the bounds have an area, the window's size is not negative and the origins of a drag are
-- values of `int`: however far the pointer goes, a dragged window keeps its size, its top edge
-- stays below the top of the bounds, and the part named by `visible_width` and `visible_height`
-- (96 pixels and the height of a title bar, or less where the window or the bounds are smaller)
-- stays inside them.
pub move_window_for_drag_visible :
    (w : Window) (x y : ℤ) (bounds : Rect)
    → IsPositive bounds
    → OriginsFit w bounds
    → let f = (move_window_for_drag w x y bounds).0.frame in
      (f.width ≡ w.frame.width)
      × (f.height ≡ w.frame.height)
      × (bounds.x +ℤ visible_width w bounds ≤ℤ f.x +ℤ f.width)
      × (f.x +ℤ visible_width w bounds ≤ℤ bounds.x +ℤ bounds.width)
      × (bounds.y ≤ℤ f.y)
      × (f.y +ℤ visible_height w bounds ≤ℤ bounds.y +ℤ bounds.height)
unfolding move_window_for_drag
move_window_for_drag_visible w x y bounds p o =
    let fx =
      visible_fits w.frame.width bounds.width drag_visible_width (omega arith) p.0 o.width_nonneg in
    let fy =
      visible_fits w.frame.height bounds.height drag_visible_height (omega arith) p.1
        o.height_nonneg in
    let h =
      drag_x_visible (x -ℤ w.pointer_offset_x) bounds.x bounds.width w.frame.width
        (visible_width w bounds) p.0 o.width_nonneg o.lowest_x o.highest_x fx in
    let v =
      drag_y_visible (y -ℤ w.pointer_offset_y) bounds.y bounds.height (visible_height w bounds)
        o.lowest_y o.highest_y (fy.0, fy.2) in
    rw (guard_passed bounds p) (refl, refl, h.0, h.1, v.0, v.1)

-- The room that the bounds leave from the frame's origin to their end.
abbrev pub room : ℤ → ℤ → ℤ → ℤ
room frame_origin bounds_origin bounds_size = bounds_origin +ℤ bounds_size -ℤ frame_origin

maximum_pos : (size : ℤ) → pos 0 <ℤ size → maximum (pos 0) size ≡ size
maximum_pos size h = ground arith

clamp_available_inside :
    (available : ℤ)
    → pos 0 ≤ℤ available
    → available ≤ℤ int_max
    → clamp_available available ≡ available
unfolding clamp_available
clamp_available_inside available h m = ground arith

clamp_desired_lem :
    (available wanted least : ℤ)
    → pos 0 ≤ℤ available
    → available ≤ℤ int_max
    → pos 0 ≤ℤ least
    → let r = clamp_desired available wanted least in
      (pos 0 ≤ℤ r)
      × (r ≤ℤ available)
      × ((least ≤ℤ r) ⊎ (r ≡ available))
      × (least ≤ℤ wanted → wanted ≤ℤ available → r ≡ wanted)
unfolding clamp_desired
clamp_desired_lem available wanted least h m l =
    ground (arith, to_int_lem available, to_int_lem wanted, to_int_lem least)

-- Resizing one dimension, where the bounds are not empty, the origin is not past their end, the
-- room up to the end is a value of `int` and the minimum is not negative: the new size does not
-- run past the bounds' end; it is below the minimum only if it fills the room; and where the size
-- that the pointer asks for is at least the minimum and fits, it is exactly that size.
pub resize_dimension_lem :
    (pointer offset origin bounds_origin bounds_size least : ℤ)
    → pos 0 <ℤ bounds_size
    → origin ≤ℤ bounds_origin +ℤ bounds_size
    → room origin bounds_origin bounds_size ≤ℤ int_max
    → pos 0 ≤ℤ least
    → let r = resize_dimension pointer offset origin bounds_origin bounds_size least in
      let wanted = pointer +ℤ offset -ℤ origin in
      (pos 0 ≤ℤ r)
      × (r ≤ℤ room origin bounds_origin bounds_size)
      × ((least ≤ℤ r) ⊎ (r ≡ room origin bounds_origin bounds_size))
      × (least ≤ℤ wanted → wanted ≤ℤ room origin bounds_origin bounds_size → r ≡ wanted)
unfolding resize_dimension
resize_dimension_lem pointer offset origin bounds_origin bounds_size least p q m l =
    let available = room origin bounds_origin bounds_size in
    rw (maximum_pos bounds_size p, clamp_available_inside available (omega int_laws) m)
      (clamp_desired_lem available (pointer +ℤ offset -ℤ origin) least (omega int_laws) m l)
