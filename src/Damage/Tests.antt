-- ===== src/Damage/Tests.antt =====
-- Runs of the damage regions, and their theorems at concrete inputs.
use nix_bench.Prelude.{
  ◌≡◌, ◌↔◌, refl, true, false, some, [], ◌∷◌, ℤ, pos, negsuc, arith, ◌-ℤ◌, ◌+ℤ◌,
}
use nix_bench.Damage.{
  Rect, Region, intersects, clip_left, clip_top, clip_right, clip_bottom, clip_far, clip_rect,
  rect_union, rects_merge_without_extra, put_second, last_first, remove_rect, absorb, insert, add,
  merge, is_valid,
}
use nix_bench.Damage.Geometry.{Contains}
use nix_bench.Damage.Validity.{IsValid}
use nix_bench.Damage.Pixels.{Lists, is_valid_iff}
use nix_bench.Damage.Operations.{Keeps, AddTo, MergeOf, add_lem, merge_lem}
use nix_bench.Damage.Bounds.{merge_adds_pixels}

abbrev rect : ℤ → ℤ → ℤ → ℤ → Rect
rect x y w h = record { x = x; y = y; width = w; height = h }

abbrev two : Region
two = record {
  full = false;
  rects = rect (pos 0) (pos 0) (pos 4) (pos 4) ∷ rect (pos 10) (pos 0) (pos 4) (pos 4) ∷ [];
}

abbrev one : Region
one = record { full = false; rects = rect (pos 5) (pos 5) (pos 1) (pos 1) ∷ [] }

abbrev outside_left : Rect
outside_left = rect (negsuc 4) (pos 2) (pos 30) (pos 3)

two-IsValid : IsValid (pos 20) (pos 10) two
unfolding intersects ◌+ℤ◌
two-IsValid = record {
  width_pos = omega arith;
  height_pos = omega arith;
  full_empty = λ e. cc e;
  rects = record { inside = omega arith; apart = ((refl, tt), (tt, tt)); bounded = omega arith };
}

-- A span over both rectangles collapses them into one.
add_merges :
    add two outside_left (pos 20) (pos 10)
    ≡ some (record { full = false; rects = rect (pos 0) (pos 0) (pos 20) (pos 5) ∷ [] })
unfolding add clip_rect clip_far clip_left clip_top clip_right clip_bottom insert absorb
    rects_merge_without_extra intersects rect_union remove_rect last_first put_second ◌+ℤ◌ ◌-ℤ◌
add_merges = refl

is_valid_iff_example : (is_valid two (pos 20) (pos 10) ≡ true) ↔ Lists (pos 20) (pos 10) two
is_valid_iff_example = is_valid_iff (pos 20) (pos 10) two

add_lem_example :
    (out : Region) × (add two outside_left (pos 20) (pos 10) ≡ some out)
    × Keeps (pos 20) (pos 10) (AddTo (pos 20) (pos 10) two outside_left) out
add_lem_example = add_lem (pos 20) (pos 10) two outside_left two-IsValid

merge_lem_example :
    (out : Region) × (merge two one (pos 20) (pos 10) ≡ some out)
    × Keeps (pos 20) (pos 10) (MergeOf (pos 20) (pos 10) two one) out
merge_lem_example = merge_lem (pos 20) (pos 10) two one two-IsValid

merge_adds_pixels_example :
    let l = rect (pos 0) (pos 0) (pos 4) (pos 4) in
    let r = rect (pos 3) (pos 3) (pos 4) (pos 4) in
    let corner = (pos 3 +ℤ pos 4) -ℤ pos 1 in
    (rects_merge_without_extra l r ≡ true)
    × Contains (rect_union l r) (pos 0) corner
    × ¬ Contains l (pos 0) corner
    × ¬ Contains r (pos 0) corner
unfolding intersects ◌+ℤ◌
merge_adds_pixels_example =
    merge_adds_pixels (rect (pos 0) (pos 0) (pos 4) (pos 4)) (rect (pos 3) (pos 3) (pos 4) (pos 4))
      refl (omega arith) (omega arith)
