-- ===== src/Damage/Bounds.antt =====
-- `nb_damage_region_bounds` and `rect_union` of src/damage_region.c.
use nix_bench.Prelude.{
  ◌≡◌, ◌≢◌, ◌⊎◌, inl, inr, refl, ◌∙◌, true, false, none, some, List, [], ◌∷◌, ℤ, pos, ◌<ℤ◌, ◌≤ℤ◌,
  ◌-ℤ◌, +ℤ_parts, -ℤ_parts, arith, length,
}
use nix_bench.Damage.{
  Rect, Region, right, bottom, intersects, rects_merge_without_extra, rect_union, union_all,
  bounds_of, bounds, is_valid,
}
use nix_bench.Damage.Geometry.{Contains, IsInside, rect_union-IsInside}
use nix_bench.Damage.Rects.{All}
use nix_bench.Damage.Validity.{IsValid, is_valid-IsValid}

-- The rectangle `r` lies within the rectangle `c`.
pub record Within (c r : Rect) : Type 0 where
  pub left : c.x ≤ℤ r.x
  pub top : c.y ≤ℤ r.y
  pub far_x : right r ≤ℤ right c
  pub far_y : bottom r ≤ℤ bottom c

union-Within :
    (l r : Rect)
    → Within (rect_union l r) l
      × Within (rect_union l r) r
      × ((c : Rect) → Within c l → Within c r → Within c (rect_union l r))
unfolding rect_union
union-Within l r = grind (arith, +ℤ_parts, -ℤ_parts)

Within-trans : (a b c : Rect) → Within a b → Within b c → Within a c
Within-trans a b c h k = omega arith

union_all-Within :
    (acc : Rect) (rs : List Rect)
    → Within (union_all acc rs) acc × All (Within (union_all acc rs)) rs
unfolding union_all
union_all-Within acc [] = (omega arith, tt)
union_all-Within acc (r ∷ rs) =
    let u = union-Within acc r in
    let next = rect_union acc r in
    let rest = union_all-Within next rs in
    let b = union_all next rs in
    (Within-trans b next acc rest.0 u.0, (Within-trans b next r rest.0 u.1, rest.1))

union_all_least :
    (c acc : Rect) (rs : List Rect) → Within c acc → All (Within c) rs → Within c (union_all acc rs)
unfolding union_all
union_all_least c acc [] h k = h
union_all_least c acc (r ∷ rs) h k =
    union_all_least c (rect_union acc r) rs ((union-Within acc r).2 c h k.0) k.1

union_all-IsInside :
    (w h : ℤ) (acc : Rect) (rs : List Rect)
    → IsInside w h acc
    → All (IsInside w h) rs
    → IsInside w h (union_all acc rs)
unfolding union_all
union_all-IsInside w h acc [] i k = i
union_all-IsInside w h acc (r ∷ rs) i k =
    union_all-IsInside w h (rect_union acc r) rs (rect_union-IsInside acc r w h i k.0) k.1

-- `b` lies in the surface, contains the rectangles, and lies within all that contain them.
pub record IsBounds (w h : ℤ) (rs : List Rect) (b : Rect) : Type 0 where
  pub inside : IsInside w h b
  pub around : All (Within b) rs
  pub least : (c : Rect) → All (Within c) rs → Within c b

bounds_of-IsBounds :
    (w h : ℤ) (rs : List Rect)
    → All (IsInside w h) rs
    → length rs ≢ 0
    → (b : Rect) × (bounds_of rs ≡ some b) × IsBounds w h rs b
unfolding bounds_of
bounds_of-IsBounds w h [] i ne = absurd (ne refl)
bounds_of-IsBounds w h (r ∷ rs) i ne = (
  union_all r rs,
  refl,
  record {
    inside = union_all-IsInside w h r rs i.0 i.1;
    around = union_all-Within r rs;
    least = λ c k. union_all_least c r rs k.0 k.1;
  },
)

bounds_listed :
    (region : Region) (w h : ℤ)
    → is_valid region w h ≡ true
    → region.full ≡ false
    → length region.rects ≢ 0
    → bounds region w h ≡ bounds_of region.rects
unfolding bounds
bounds_listed region w h e f ne = ground arith

-- For a valid region that is not full and not empty, `nb_damage_region_bounds` succeeds with the
-- least rectangle that contains every damaged one, and that rectangle lies in the surface.
pub bounds-IsBounds :
    (region : Region) (w h : ℤ)
    → IsValid w h region
    → region.full ≡ false
    → length region.rects ≢ 0
    → (b : Rect) × (bounds region w h ≡ some b) × IsBounds w h region.rects b
bounds-IsBounds region w h v f ne =
    let (b, e, k) = bounds_of-IsBounds w h region.rects v.rects.inside ne in
    (b, bounds_listed region w h ((is_valid-IsValid w h region).1 v) f ne ∙ e, k)

-- It fails on every region that is not valid, and on the valid region with no damage.
pub bounds-none :
    (region : Region) (w h : ℤ)
    → (is_valid region w h ≡ false) ⊎ ((region.full ≡ false) × (region.rects ≡ []))
    → bounds region w h ≡ none
unfolding bounds
bounds-none region w h (inl e) = ground arith
bounds-none region w h (inr (f, e)) = ground arith

intersects_positive :
    (l r : Rect) → intersects l r ≡ true → (pos 0 <ℤ l.width) × (pos 0 <ℤ r.height)
unfolding intersects
intersects_positive l r e = ground arith

corner_Contains :
    (l r u : Rect)
    → Within u l
    → Within u r
    → (pos 0 <ℤ l.width) × (pos 0 <ℤ r.height)
    → bottom l <ℤ bottom r
    → Contains u l.x (bottom r -ℤ pos 1)
corner_Contains l r u hl hr p hy =
    omega (arith, +ℤ_parts l.x l.width, +ℤ_parts r.y r.height, -ℤ_parts (bottom r) (pos 1))

-- Two rectangles that overlap corner to corner are merged, and their union marks a pixel that
-- neither of them covers: the lower left corner, where the left one starts further left and the
-- right one ends further down.
pub merge_adds_pixels :
    (l r : Rect)
    → intersects l r ≡ true
    → l.x <ℤ r.x
    → bottom l <ℤ bottom r
    → let corner = bottom r -ℤ pos 1 in
      (rects_merge_without_extra l r ≡ true)
      × Contains (rect_union l r) l.x corner
      × ¬ Contains l l.x corner
      × ¬ Contains r l.x corner
unfolding rects_merge_without_extra
merge_adds_pixels l r e hx hy =
    let o = intersects_positive l r e in
    let u = union-Within l r in
    (
      rw e,
      corner_Contains l r (rect_union l r) u.0 u.1 o hy,
      λ c. omega (arith, c.lt_bottom, -ℤ_parts (bottom r) (pos 1)),
      λ c. omega (arith, c.left_le),
    )
