-- ===== src/Damage/Pixels.antt =====
-- `nb_damage_region_is_valid` of src/damage_region.c in terms of pixels.
use nix_bench.Prelude.{
  ◌≤◌, ◌≡◌, ◌↔◌, inl, inr, Bool, true, List, [], ◌∷◌, ℤ, pos, ◌<ℤ◌, ◌≤ℤ◌, ◌+ℤ◌, ◌-ℤ◌, +ℤ_parts,
  -ℤ_parts, ltb_ℤ, if◌then◌else◌, arith, tests, ◌&&◌, length, Bool-cases,
}
use nix_bench.Damage.{Rect, Region, capacity, right, bottom, intersects, is_valid}
use nix_bench.Damage.Geometry.{Contains, IsInside}
use nix_bench.Damage.Clip.{OnSurface}
use nix_bench.Damage.Rects.{All, All-map, Apart, PairwiseApart}
use nix_bench.Damage.Validity.{is_valid-IsValid}

-- No pixel is in both rectangles.
abbrev pub Disjoint : Rect → Rect → Type 0
Disjoint r s = (px py : ℤ) → Contains r px py → ¬ Contains s px py

-- The rectangle has a pixel, and every pixel of it is on the surface.
pub record IsDrawn (w h : ℤ) (r : Rect) : Type 0 where
  pub corner : Contains r r.x r.y
  pub on_surface : (px py : ℤ) → Contains r px py → OnSurface w h px py

abbrev pub PairwiseDisjoint : List Rect → Type 0
PairwiseDisjoint [] = Unit {0}
PairwiseDisjoint (r ∷ rs) = All (Disjoint r) rs × PairwiseDisjoint rs

all_true :
    (a b c d e f g h : Bool)
    → (a && b && c && d && e && f && g && h ≡ true) ↔ (
        (a ≡ true)
        × (b ≡ true)
        × (c ≡ true)
        × (d ≡ true)
        × (e ≡ true)
        × (f ≡ true)
        × (g ≡ true)
        × (h ≡ true))
all_true a b c d e f g h = (λ p. ground arith, λ p. ground arith)

-- Two rectangles of positive size that overlap on both axes.
record Meets (l r : Rect) : Type 0 where
  left_wide : pos 0 <ℤ l.width
  left_high : pos 0 <ℤ l.height
  right_wide : pos 0 <ℤ r.width
  right_high : pos 0 <ℤ r.height
  x_left : l.x <ℤ right r
  x_right : r.x <ℤ right l
  y_left : l.y <ℤ bottom r
  y_right : r.y <ℤ bottom l

lt-true : (a b : ℤ) → a <ℤ b → ltb_ℤ a b ≡ true
lt-true a b h = ground arith

intersects-Meets : (l r : Rect) → (intersects l r ≡ true) ↔ Meets l r
unfolding intersects
intersects-Meets l r =
    let each =
      all_true (ltb_ℤ (pos 0) l.width) (ltb_ℤ (pos 0) l.height) (ltb_ℤ (pos 0) r.width)
        (ltb_ℤ (pos 0) r.height) (ltb_ℤ l.x (right r)) (ltb_ℤ r.x (right l)) (ltb_ℤ l.y (bottom r))
        (ltb_ℤ r.y (bottom l)) in
    (
      λ e. let t = each.0 e in omega (tests, t),
      λ m. each.1 (
        lt-true (pos 0) l.width m.left_wide,
        lt-true (pos 0) l.height m.left_high,
        lt-true (pos 0) r.width m.right_wide,
        lt-true (pos 0) r.height m.right_high,
        lt-true l.x (right r) m.x_left,
        lt-true r.x (right l) m.x_right,
        lt-true l.y (bottom r) m.y_left,
        lt-true r.y (bottom l) m.y_right,
      ),
    )

pixel-Meets : (r s : Rect) (px py : ℤ) → Contains r px py → Contains s px py → Meets s r
pixel-Meets r s px py p q = omega (
  arith,
  p,
  q,
  +ℤ_parts r.x r.width,
  +ℤ_parts r.y r.height,
  +ℤ_parts s.x s.width,
  +ℤ_parts s.y s.height,
)

-- The later of two starts, on one axis.
axis :
    (a b p q : ℤ)
    → a <ℤ p
    → b <ℤ q
    → a <ℤ q
    → b <ℤ p
    → let m = if ltb_ℤ a b then b else a in (a ≤ℤ m) × (m <ℤ p) × (b ≤ℤ m) × (m <ℤ q)
axis a b p q h i j k = ground arith

positive_end : (x width : ℤ) → pos 0 <ℤ width → x <ℤ x +ℤ width
positive_end x width h = omega (arith, +ℤ_parts x width)

common_pixel :
    (r s : Rect)
    → Meets s r
    → let px = if ltb_ℤ r.x s.x then s.x else r.x in
      let py = if ltb_ℤ r.y s.y then s.y else r.y in Contains r px py × Contains s px py
common_pixel r s m =
    let (a, b, c, d) =
      axis r.x s.x (right r) (right s) (positive_end r.x r.width m.right_wide)
        (positive_end s.x s.width m.left_wide) m.x_right m.x_left in
    let (e, f, g, h) =
      axis r.y s.y (bottom r) (bottom s) (positive_end r.y r.height m.right_high)
        (positive_end s.y s.height m.left_high) m.y_right m.y_left in
    (
      record { left_le = a; lt_right = b; top_le = e; lt_bottom = f },
      record { left_le = c; lt_right = d; top_le = g; lt_bottom = h },
    )

Apart→Disjoint : (r s : Rect) → Apart r s → Disjoint r s
Apart→Disjoint r s e px py p q = cc (e, (intersects-Meets s r).1 (pixel-Meets r s px py p q))

Disjoint→Apart : (r s : Rect) → Disjoint r s → Apart r s
Disjoint→Apart r s d = elim (Bool-cases (intersects s r)) [
  | inl e ↦ let (p, q) = common_pixel r s ((intersects-Meets s r).0 e) in absurd (d _ _ p q)
  | inr e ↦ e
]

IsInside→IsDrawn : (w h : ℤ) (r : Rect) → IsInside w h r → IsDrawn w h r
IsInside→IsDrawn w h r v = record {
  corner = record {
    left_le = omega arith;
    lt_right = positive_end r.x r.width v.width_pos;
    top_le = omega arith;
    lt_bottom = positive_end r.y r.height v.height_pos;
  };
  on_surface = λ px py p. omega (arith, v, p);
}

IsDrawn→IsInside : (w h : ℤ) (r : Rect) → IsDrawn w h r → IsInside w h r
IsDrawn→IsInside w h r v =
    let c = v.corner in
    let x = +ℤ_parts r.x r.width in
    let y = +ℤ_parts r.y r.height in
    let x' = -ℤ_parts (right r) (pos 1) in
    let y' = -ℤ_parts (bottom r) (pos 1) in
    let first = v.on_surface r.x r.y c in
    let last =
      v.on_surface (right r -ℤ pos 1) (bottom r -ℤ pos 1) (omega (arith, c, x, y, x', y')) in
    omega (arith, c, first, last, x, y, x', y')

PairwiseApart→ : (rs : List Rect) → PairwiseApart rs → PairwiseDisjoint rs
PairwiseApart→ [] p = tt
PairwiseApart→ (r ∷ rs) p =
    (All-map (Apart r) (Disjoint r) rs (Apart→Disjoint r) p.0, PairwiseApart→ rs p.1)

→PairwiseApart : (rs : List Rect) → PairwiseDisjoint rs → PairwiseApart rs
→PairwiseApart [] p = tt
→PairwiseApart (r ∷ rs) p =
    (All-map (Disjoint r) (Apart r) rs (Disjoint→Apart r) p.0, →PairwiseApart rs p.1)

-- What a valid region lists.
pub record Lists (w h : ℤ) (region : Region) : Type 0 where
  pub width_pos : pos 0 <ℤ w
  pub height_pos : pos 0 <ℤ h
  pub full_empty : region.full ≡ true → length region.rects ≡ 0
  pub bounded : length region.rects ≤ capacity
  pub drawn : All (IsDrawn w h) region.rects
  pub disjoint : PairwiseDisjoint region.rects

-- `nb_damage_region_is_valid` accepts a region exactly if the surface is not empty, a full region
-- lists no rectangle, and its rectangles are at most the capacity, each has a pixel and only pixels of
-- the surface, and no pixel is in two of them.
pub is_valid_iff : (w h : ℤ) (region : Region) → (is_valid region w h ≡ true) ↔ Lists w h region
is_valid_iff w h region = (
  λ e.
      let v = (is_valid-IsValid w h region).0 e in
      record {
        width_pos = v.width_pos;
        height_pos = v.height_pos;
        full_empty = v.full_empty;
        bounded = v.rects.bounded;
        drawn =
            All-map (IsInside w h) (IsDrawn w h) region.rects (IsInside→IsDrawn w h) v.rects.inside;
        disjoint = PairwiseApart→ region.rects v.rects.apart;
      },
  λ v. (is_valid-IsValid w h region).1 (record {
    width_pos = v.width_pos;
    height_pos = v.height_pos;
    full_empty = v.full_empty;
    rects = record {
      inside = All-map (IsDrawn w h) (IsInside w h) region.rects (IsDrawn→IsInside w h) v.drawn;
      apart = →PairwiseApart region.rects v.disjoint;
      bounded = v.bounded;
    };
  }),
)
