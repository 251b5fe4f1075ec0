-- ===== src/Damage/Geometry.antt =====
-- What the functions of src/damage_region.c on single rectangles do to pixels and bounds.
use nix_bench.Prelude.{
  ◌≡◌, ◌⊎◌, ◌↔◌, Bool, true, false, not, ◌||◌, tests, ℤ, pos, ◌-ℤ◌, ◌≤ℤ◌, ◌<ℤ◌, +ℤ_parts, -ℤ_parts,
  ltb_ℤ, leb_ℤ, arith,
}
use nix_bench.Damage.{Rect, right, bottom, intersects, rect_union, rect_in_bounds}

-- The rectangle covers the pixel (px, py).
pub record Contains (r : Rect) (px py : ℤ) : Type 0 where
  pub left_le : r.x ≤ℤ px
  pub lt_right : px <ℤ right r
  pub top_le : r.y ≤ℤ py
  pub lt_bottom : py <ℤ bottom r

-- The rectangle is not empty and lies within a surface of width `w` and height `h`.
pub record IsInside (w h : ℤ) (r : Rect) : Type 0 where
  pub x_nonneg : pos 0 ≤ℤ r.x
  pub y_nonneg : pos 0 ≤ℤ r.y
  pub width_pos : pos 0 <ℤ r.width
  pub height_pos : pos 0 <ℤ r.height
  pub right_le : right r ≤ℤ w
  pub bottom_le : bottom r ≤ℤ h

none_true :
    (a b c d e f g h : Bool)
    → not (a || b || c || d || e || f || g || h) ≡ true
    → (a ≡ false)
      × (b ≡ false)
      × (c ≡ false)
      × (d ≡ false)
      × (e ≡ false)
      × (f ≡ false)
      × (g ≡ false)
      × (h ≡ false)
none_true a b c d e f g h p = ground arith

rect_in_bounds→IsInside : (r : Rect) (w h : ℤ) → rect_in_bounds r w h ≡ true → IsInside w h r
unfolding rect_in_bounds
rect_in_bounds→IsInside r w h e =
    let t =
      none_true (ltb_ℤ r.x (pos 0)) (ltb_ℤ r.y (pos 0)) (leb_ℤ r.width (pos 0))
        (leb_ℤ r.height (pos 0)) (leb_ℤ w r.x) (leb_ℤ h r.y) (ltb_ℤ (w -ℤ r.x) r.width)
        (ltb_ℤ (h -ℤ r.y) r.height) e in
    omega (tests, +ℤ_parts r.x r.width, +ℤ_parts r.y r.height, -ℤ_parts w r.x, -ℤ_parts h r.y)

IsInside→rect_in_bounds : (r : Rect) (w h : ℤ) → IsInside w h r → rect_in_bounds r w h ≡ true
unfolding rect_in_bounds
IsInside→rect_in_bounds r w h v =
    ground (arith, +ℤ_parts r.x r.width, +ℤ_parts r.y r.height, -ℤ_parts w r.x, -ℤ_parts h r.y)

pub rect_in_bounds_iff : (r : Rect) (w h : ℤ) → (rect_in_bounds r w h ≡ true) ↔ IsInside w h r
rect_in_bounds_iff r w h = (rect_in_bounds→IsInside r w h, IsInside→rect_in_bounds r w h)

pub rect_union-IsInside :
    (l r : Rect) (w h : ℤ) → IsInside w h l → IsInside w h r → IsInside w h (rect_union l r)
unfolding rect_union
rect_union-IsInside l r w h p q = grind (arith, +ℤ_parts, -ℤ_parts)

pub rect_union-Contains :
    (l r : Rect) (px py : ℤ) → Contains l px py ⊎ Contains r px py → Contains (rect_union l r) px py
unfolding rect_union
rect_union-Contains l r px py h = grind (arith, +ℤ_parts, -ℤ_parts)

pub intersects_comm : (l r : Rect) → intersects l r ≡ intersects r l
unfolding intersects
intersects_comm l r = ground arith
