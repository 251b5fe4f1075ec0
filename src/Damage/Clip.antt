-- ===== src/Damage/Clip.antt =====
-- `clip_rect` of src/damage_region.c and the pixels of the surface.
use nix_bench.Prelude.{
  ◌≡◌, ◌⊎◌, ◌↔◌, inl, inr, Option-cases, none, some, ℤ, pos, ◌+ℤ◌, ◌-ℤ◌, ◌≤ℤ◌, ◌<ℤ◌, +ℤ_parts,
  -ℤ_parts, eq_of_parts, arith,
}
use nix_bench.Damage.{
  Rect, right, bottom, clip_left, clip_top, clip_right, clip_bottom, clip_far, clip_rect,
}
use nix_bench.Damage.Geometry.{Contains, IsInside}

-- The first half of `clip_rect`: the left edge is cut at 0, the right edge stays.
clip_left_lem :
    (r : Rect)
    → let c = clip_left r in
      (pos 0 ≤ℤ c.x)
      × (r.x ≤ℤ c.x)
      × ((c.x ≡ pos 0) ⊎ (c.x ≡ r.x))
      × (right c ≡ right r)
      × (c.y ≡ r.y)
      × (c.height ≡ r.height)
unfolding clip_left
clip_left_lem r = ground (
  arith,
  +ℤ_parts r.width r.x,
  +ℤ_parts r.x r.width,
  +ℤ_parts (pos 0) (r.width +ℤ r.x),
  eq_of_parts (pos 0 +ℤ (r.width +ℤ r.x)) (r.x +ℤ r.width),
)

clip_top_lem :
    (r : Rect)
    → let c = clip_top r in
      (pos 0 ≤ℤ c.y)
      × (r.y ≤ℤ c.y)
      × ((c.y ≡ pos 0) ⊎ (c.y ≡ r.y))
      × (bottom c ≡ bottom r)
      × (c.x ≡ r.x)
      × (c.width ≡ r.width)
unfolding clip_top
clip_top_lem r = ground (
  arith,
  +ℤ_parts r.height r.y,
  +ℤ_parts r.y r.height,
  +ℤ_parts (pos 0) (r.height +ℤ r.y),
  eq_of_parts (pos 0 +ℤ (r.height +ℤ r.y)) (r.y +ℤ r.height),
)

-- The second half, where the near edges are in range: the far edges are cut at the surface's.
abbrev pub OnSurface : ℤ → ℤ → ℤ → ℤ → Type 0
OnSurface w h px py = (pos 0 ≤ℤ px) × (px <ℤ w) × (pos 0 ≤ℤ py) × (py <ℤ h)

clip_right_lem :
    (w : ℤ) (r : Rect)
    → let c = clip_right w r in
      (right c ≤ℤ right r)
      × (right c ≤ℤ w)
      × ((right c ≡ right r) ⊎ (right c ≡ w))
      × (c.x ≡ r.x)
      × (c.y ≡ r.y)
      × (c.height ≡ r.height)
unfolding clip_right
clip_right_lem w r = ground (
  arith,
  +ℤ_parts r.x r.width,
  -ℤ_parts w r.x,
  +ℤ_parts r.x (w -ℤ r.x),
  eq_of_parts (r.x +ℤ (w -ℤ r.x)) w,
)

clip_bottom_lem :
    (h : ℤ) (r : Rect)
    → let c = clip_bottom h r in
      (bottom c ≤ℤ bottom r)
      × (bottom c ≤ℤ h)
      × ((bottom c ≡ bottom r) ⊎ (bottom c ≡ h))
      × (c.x ≡ r.x)
      × (c.y ≡ r.y)
      × (c.width ≡ r.width)
unfolding clip_bottom
clip_bottom_lem h r = ground (
  arith,
  +ℤ_parts r.y r.height,
  -ℤ_parts h r.y,
  +ℤ_parts r.y (h -ℤ r.y),
  eq_of_parts (r.y +ℤ (h -ℤ r.y)) h,
)

-- `c` is the intersection of `r` with the surface, and is not empty.
pub record IsClipped (w h : ℤ) (r c : Rect) : Type 0 where
  pub inside : IsInside w h c
  pub left_ge : r.x ≤ℤ c.x
  pub left_tight : (c.x ≤ℤ pos 0) ⊎ (c.x ≤ℤ r.x)
  pub top_ge : r.y ≤ℤ c.y
  pub top_tight : (c.y ≤ℤ pos 0) ⊎ (c.y ≤ℤ r.y)
  pub right_le : right c ≤ℤ right r
  pub right_tight : (right r ≤ℤ right c) ⊎ (w ≤ℤ right c)
  pub bottom_le : bottom c ≤ℤ bottom r
  pub bottom_tight : (bottom r ≤ℤ bottom c) ⊎ (h ≤ℤ bottom c)

clip_far_eq :
    (w h : ℤ) (r c : Rect)
    → clip_far w h r ≡ some c
    → (r.x <ℤ w)
      × (r.y <ℤ h)
      × (pos 0 <ℤ r.width)
      × (pos 0 <ℤ r.height)
      × (c ≡ clip_bottom h (clip_right w r))
unfolding clip_far
clip_far_eq w h r c e = ground arith

clip_near_eq :
    (w h : ℤ) (r c : Rect)
    → clip_rect r w h ≡ some c
    → clip_far w h (clip_top (clip_left r)) ≡ some c
unfolding clip_rect
clip_near_eq w h r c e = ground arith

clip_far_parts :
    (w h : ℤ) (r : Rect)
    → pos 0 ≤ℤ r.x
    → pos 0 ≤ℤ r.y
    → r.x <ℤ w
    → r.y <ℤ h
    → pos 0 <ℤ r.width
    → pos 0 <ℤ r.height
    → let c = clip_bottom h (clip_right w r) in
      IsInside w h c
      × (c.x ≡ r.x)
      × (c.y ≡ r.y)
      × (right c ≤ℤ right r)
      × ((right r ≤ℤ right c) ⊎ (w ≤ℤ right c))
      × (bottom c ≤ℤ bottom r)
      × ((bottom r ≤ℤ bottom c) ⊎ (h ≤ℤ bottom c))
clip_far_parts w h r hx hy hw hh pw ph =
    let c' = clip_right w r in
    let c = clip_bottom h c' in
    ground (
      arith,
      clip_right_lem w r,
      clip_bottom_lem h c',
      +ℤ_parts r.x r.width,
      +ℤ_parts r.y r.height,
      +ℤ_parts c.x c.width,
      +ℤ_parts c.y c.height,
      +ℤ_parts c'.x c'.width,
      +ℤ_parts c'.y c'.height,
    )

-- A refusal means that no pixel of the surface is in the rectangle.
clip_far-none :
    (w h : ℤ) (r : Rect) (px py : ℤ)
    → clip_far w h r ≡ none
    → OnSurface w h px py
    → ¬ Contains r px py
unfolding clip_far
clip_far-none w h r px py e s k = grind (arith, +ℤ_parts)

near_parts :
    (r : Rect)
    → let m = clip_top (clip_left r) in
      (pos 0 ≤ℤ m.x)
      × (pos 0 ≤ℤ m.y)
      × (r.x ≤ℤ m.x)
      × ((m.x ≤ℤ pos 0) ⊎ (m.x ≤ℤ r.x))
      × (r.y ≤ℤ m.y)
      × ((m.y ≤ℤ pos 0) ⊎ (m.y ≤ℤ r.y))
      × (right m ≡ right r)
      × (bottom m ≡ bottom r)
near_parts r = ground (arith, clip_left_lem r, clip_top_lem (clip_left r))

-- A rectangle that `clip_rect` returns is the intersection with the surface.
pub clip_rect-IsClipped : (w h : ℤ) (r c : Rect) → clip_rect r w h ≡ some c → IsClipped w h r c
clip_rect-IsClipped w h r c e =
    let m = clip_top (clip_left r) in
    let near = near_parts r in
    let far = clip_far_eq w h m c (clip_near_eq w h r c e) in
    let parts = clip_far_parts w h m near.0 near.1 far.0 far.1 far.2 far.3 in
    ground (arith, near, far, parts)

-- The clipped rectangle covers exactly the pixels of the surface that the rectangle covers.
pub Contains-IsClipped :
    (w h : ℤ) (r c : Rect) (px py : ℤ)
    → IsClipped w h r c
    → Contains c px py ↔ (Contains r px py × OnSurface w h px py)
Contains-IsClipped w h r c px py v = (λ k. omega arith, λ k. omega arith)

-- A rectangle that `clip_rect` refuses covers no pixel of the surface.
pub clip_rect-none :
    (w h : ℤ) (r : Rect) (px py : ℤ)
    → clip_rect r w h ≡ none
    → OnSurface w h px py
    → ¬ Contains r px py
unfolding clip_rect
clip_rect-none w h r px py e s k =
    let m = clip_top (clip_left r) in
    ground
      (arith, near_parts r, clip_far-none w h m px py, +ℤ_parts r.x r.width, +ℤ_parts r.y r.height)

-- Either no pixel of the rectangle lies on the surface and `clip_rect` gives none, or it gives a
-- rectangle inside the surface that covers exactly the pixels that the given one has on it.
pub clip_rect_lem :
    (w h : ℤ) (r : Rect)
    → ((clip_rect r w h ≡ none) × ((px py : ℤ) → OnSurface w h px py → ¬ Contains r px py))
      ⊎ ((c : Rect) × (clip_rect r w h ≡ some c)
          × IsInside w h c
          × ((px py : ℤ) → Contains c px py ↔ (Contains r px py × OnSurface w h px py)))
clip_rect_lem w h r = elim (Option-cases (clip_rect r w h)) [
  | inl e ↦ inl (e, λ px py. clip_rect-none w h r px py e)
  | inr (c, e) ↦
      let v = clip_rect-IsClipped w h r c e in
      inr (c, e, v.inside, λ px py. Contains-IsClipped w h r c px py v)
]
