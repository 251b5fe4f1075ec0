-- ===== src/Window/Clamp.antt =====
-- `nb_window_clamp_to` of src/window.c.
use nix_bench.Prelude.{
  ◌≡◌, inl, inr, ap, true, false, not, ◌||◌, ℤ, ◌≤ℤ◌, ◌+ℤ◌, +ℤ_parts, -ℤ_parts, eq_of_parts, arith,
  Bool-cases,
}
use nix_bench.Window.{Rect, Window}
use nix_bench.Window.Frame.{clamp_size, clamp_origin, clamp_frame, clamp_to, eqb_rect}

-- The rectangle `r` lies inside `bounds`, edges included.
pub record IsWithin (bounds r : Rect) : Type 0 where
  pub left : bounds.x ≤ℤ r.x
  pub top : bounds.y ≤ℤ r.y
  pub right : r.x +ℤ r.width ≤ℤ bounds.x +ℤ bounds.width
  pub bottom : r.y +ℤ r.height ≤ℤ bounds.y +ℤ bounds.height

module _ (origin size bounds_origin bounds_size : ℤ) where
  clamp_size-le : clamp_size size bounds_size ≤ℤ bounds_size
  unfolding clamp_size
  clamp_size-le = ground arith

  clamp_size_fixed : size ≤ℤ bounds_size → clamp_size size bounds_size ≡ size
  unfolding clamp_size
  clamp_size_fixed h = ground arith

  clamp_origin_bounds :
      size ≤ℤ bounds_size
      → let o = clamp_origin origin size bounds_origin bounds_size in
        (bounds_origin ≤ℤ o) × (o +ℤ size ≤ℤ bounds_origin +ℤ bounds_size)
  unfolding clamp_origin
  clamp_origin_bounds h = grind (arith, +ℤ_parts, -ℤ_parts)

  clamp_origin_fixed :
      size ≤ℤ bounds_size
      → bounds_origin ≤ℤ origin
      → origin +ℤ size ≤ℤ bounds_origin +ℤ bounds_size
      → clamp_origin origin size bounds_origin bounds_size ≡ origin
  unfolding clamp_origin
  clamp_origin_fixed h p q = grind (arith, +ℤ_parts, -ℤ_parts, eq_of_parts)

clamp_frame-IsWithin : (f bounds : Rect) → IsWithin bounds (clamp_frame f bounds)
unfolding clamp_frame
clamp_frame-IsWithin f b =
    let width = clamp_size f.width b.width in
    let height = clamp_size f.height b.height in
    let h = clamp_origin_bounds f.x width b.x b.width (clamp_size-le f.x f.width b.x b.width) in
    let v = clamp_origin_bounds f.y height b.y b.height (clamp_size-le f.y f.height b.y b.height) in
    record { left = h.0; top = v.0; right = h.1; bottom = v.1 }

-- A frame inside the bounds, and no wider or higher than they are, is left alone.
pub clamp_frame_inside :
    (f bounds : Rect)
    → IsWithin bounds f
    → f.width ≤ℤ bounds.width
    → f.height ≤ℤ bounds.height
    → clamp_frame f bounds ≡ f
unfolding clamp_frame
clamp_frame_inside f b v w h = rw (clamp_size_fixed f.x f.width b.x b.width w) (
    rw (clamp_size_fixed f.y f.height b.y b.height h) (
      cc (
        clamp_origin_fixed f.x f.width b.x b.width w v.left v.right,
        clamp_origin_fixed f.y f.height b.y b.height h v.top v.bottom,
      )))

clamp_frame_twice :
    (f bounds : Rect) → clamp_frame (clamp_frame f bounds) bounds ≡ clamp_frame f bounds
unfolding clamp_frame
clamp_frame_twice f b =
    clamp_frame_inside (clamp_frame f b) b (clamp_frame-IsWithin f b)
      (clamp_size-le f.x f.width b.x b.width) (clamp_size-le f.y f.height b.y b.height)

eqb_rect_refl : (r : Rect) → eqb_rect r r ≡ true
eqb_rect_refl r = ground arith

bounds-IsWithin : (b : Rect) → IsWithin b b
bounds-IsWithin b = omega arith

-- After `clamp_to` the window lies inside the bounds, whatever its state and frame were, and a
-- second call changes nothing and reports no change.
pub clamp_to_lem :
    (w : Window) (bounds : Rect)
    → let w' = (clamp_to w bounds).0 in
      IsWithin bounds w'.frame × (clamp_to w' bounds ≡ (w', false))
unfolding clamp_to
clamp_to_lem w b = elim (Bool-cases (w.maximized || w.fullscreen)) [
  | inl m ↦ rw m (bounds-IsWithin b, ap (λ e. (record w { frame = b }, not e)) (eqb_rect_refl b))
  | inr m ↦ rw m (
    clamp_frame-IsWithin w.frame b,
    rw (clamp_frame_twice w.frame b) (
        ap (λ e. (record w { frame = clamp_frame w.frame b }, not e))
          (eqb_rect_refl (clamp_frame w.frame b))),
  )
]
