-- ===== src/Damage.antt =====
-- src/damage_region.h and src/damage_region.c: bounded sets of damaged rectangles.
-- `int` is ℤ. The array `rects` with its `count` is the list of its first `count` entries, since
-- no function reads an entry past `count`.
pub mod Geometry
pub mod Clip
pub mod Rects
pub mod Absorb
pub mod Insert
pub mod Validity
pub mod Pixels
pub mod Operations
pub mod Bounds
mod Tests
use nix_bench.Prelude.{
  ℕ, zero, suc, ◌+◌, ◌-◌, ◌*◌, ◌%◌, ◌^◌, Bool, true, false, ◌&&◌, ◌||◌, not, Option, none, some,
  List, [], ◌∷◌, ◌++◌, ℤ, pos, pos_part, neg_part, ◌+ℤ◌, ◌-ℤ◌, ltb_ℤ, leb_ℤ, eqb_ℤ, ltb, ◌==◌,
  if◌then◌else◌, length, get_elem?,
}

abbrev pub capacity : ℕ
capacity = 64

pub record Rect : Type 0 where
  pub x : ℤ
  pub y : ℤ
  pub width : ℤ
  pub height : ℤ

pub record Region : Type 0 where
  pub full : Bool
  pub rects : List Rect

unfoldable pub clear : Region → Region
clear region = record { full = false; rects = [] }

unfoldable pub set_full : Region → Region
set_full region = record (clear region) { full = true }

abbrev pub right : Rect → ℤ
right r = r.x +ℤ r.width

abbrev pub bottom : Rect → ℤ
bottom r = r.y +ℤ r.height

-- `nb_damage_rect_intersects`.
unfoldable pub intersects : Rect → Rect → Bool
intersects l r =
    ltb_ℤ (pos 0) l.width
    && ltb_ℤ (pos 0) l.height
    && ltb_ℤ (pos 0) r.width
    && ltb_ℤ (pos 0) r.height
    && ltb_ℤ l.x (right r)
    && ltb_ℤ r.x (right l)
    && ltb_ℤ l.y (bottom r)
    && ltb_ℤ r.y (bottom l)

-- The steps of `clip_rect`, in its order: the guards, the left and top edges, the second guard,
-- the right and bottom edges. `none` is the result `false`.
unfoldable pub clip_left : Rect → Rect
clip_left r = if ltb_ℤ r.x (pos 0) then record r { width = r.width +ℤ r.x; x = pos 0 } else r

unfoldable pub clip_top : Rect → Rect
clip_top r = if ltb_ℤ r.y (pos 0) then record r { height = r.height +ℤ r.y; y = pos 0 } else r

unfoldable pub clip_right : ℤ → Rect → Rect
clip_right w r = if ltb_ℤ (w -ℤ r.x) r.width then record r { width = w -ℤ r.x } else r

unfoldable pub clip_bottom : ℤ → Rect → Rect
clip_bottom h r = if ltb_ℤ (h -ℤ r.y) r.height then record r { height = h -ℤ r.y } else r

unfoldable pub clip_far : ℤ → ℤ → Rect → Option Rect
clip_far w h r =
    if leb_ℤ w r.x || leb_ℤ h r.y || leb_ℤ r.width (pos 0) || leb_ℤ r.height (pos 0)
    then none
    else some (clip_bottom h (clip_right w r))

unfoldable pub clip_rect : Rect → ℤ → ℤ → Option Rect
clip_rect r w h =
    if leb_ℤ w (pos 0) || leb_ℤ h (pos 0) || leb_ℤ r.width (pos 0) || leb_ℤ r.height (pos 0)
    then none
    else clip_far w h (clip_top (clip_left r))

abbrev pub min_ℤ : ℤ → ℤ → ℤ
min_ℤ a b = if ltb_ℤ a b then a else b

abbrev pub max_ℤ : ℤ → ℤ → ℤ
max_ℤ a b = if ltb_ℤ b a then a else b

unfoldable pub rect_union : Rect → Rect → Rect
rect_union l r =
    let x = min_ℤ l.x r.x in
    let y = min_ℤ l.y r.y in
    record {
      x = x;
      y = y;
      width = max_ℤ (right l) (right r) -ℤ x;
      height = max_ℤ (bottom l) (bottom r) -ℤ y;
    }

unfoldable pub rects_merge_without_extra : Rect → Rect → Bool
rects_merge_without_extra l r =
    intersects l r
    || (eqb_ℤ l.y r.y && eqb_ℤ l.height r.height && (eqb_ℤ (right l) r.x || eqb_ℤ (right r) l.x))
    || (eqb_ℤ l.x r.x && eqb_ℤ l.width r.width && (eqb_ℤ (bottom l) r.y || eqb_ℤ (bottom r) l.y))

-- `(unsigned int)` of an `int`.
abbrev pub unsigned_int : ℤ → ℕ
unsigned_int a = (pos_part a + (2 ^ 32 - neg_part a % 2 ^ 32)) % 2 ^ 32

unfoldable pub rect_area : Rect → ℕ
rect_area r = unsigned_int r.width * unsigned_int r.height

unfoldable pub put_second : Rect → List Rect → List Rect
put_second x [] = x ∷ []
put_second x (l ∷ rest) = l ∷ x ∷ rest

-- The last of `x ∷ xs` moved in front of the others.
unfoldable pub last_first : Rect → List Rect → List Rect
last_first x [] = x ∷ []
last_first x (y ∷ ys) = put_second x (last_first y ys)

-- `remove_rect`: the last rectangle takes the place of the removed one.
unfoldable pub remove_rect : List Rect → ℕ → List Rect
remove_rect [] i = []
remove_rect (r ∷ []) zero = []
remove_rect (r ∷ s ∷ rs) zero = last_first s rs
remove_rect (r ∷ rs) (suc i) = r ∷ remove_rect rs i

-- The best candidate of `compact_for_rect`: `best_index`, `best_extra` and `best_union_area`.
pub record Best : Type 0 where
  pub index : ℕ
  pub extra : ℕ
  pub union_area : ℕ

-- Unsigned 64-bit subtraction.
abbrev pub sub_uint64 : ℕ → ℕ → ℕ
sub_uint64 a b = (a + 2 ^ 64 - b) % 2 ^ 64

unfoldable pub extra_area : Rect → Rect → ℕ
extra_area s rect =
    sub_uint64 (sub_uint64 (rect_area (rect_union s rect)) (rect_area s)) (rect_area rect)

-- One round of the loop of `compact_for_rect` at the retained rectangle `s`.
unfoldable pub consider : Rect → ℕ → Rect → Best → Best
consider rect index s best =
    let united = rect_area (rect_union s rect) in
    let extra = extra_area s rect in
    if ltb extra best.extra || (extra == best.extra && ltb united best.union_area)
    then record { index = index; extra = extra; union_area = united }
    else best

unfoldable pub search_best : Rect → List Rect → ℕ → Best → Best
search_best rect [] index best = best
search_best rect (s ∷ rs) index best = search_best rect rs (index + 1) (consider rect index s best)

unfoldable pub best_index : Rect → List Rect → ℕ
best_index rect rs =
    (search_best rect rs 0
      (record { index = 0; extra = 2 ^ 64 - 1; union_area = 2 ^ 64 - 1 })).index

-- The retained rectangles and the incoming one.
abbrev pub Pending : Type 0
Pending = List Rect × Rect

unfoldable pub merge_at : List Rect → ℕ → Rect → Rect
merge_at rs i rect = elim (get_elem? rs i) [ none ↦ rect | some s ↦ rect_union s rect ]

unfoldable pub compact_for_rect : List Rect → Rect → Pending
compact_for_rect rs rect =
    let best = best_index rect rs in (remove_rect rs best, merge_at rs best rect)

-- The `while` loop of `nb_damage_region_add`, on fuel; `none` means that the fuel ran out.
unfoldable pub absorb : ℕ → List Rect → Rect → ℕ → Option Pending
absorb zero rs rect index = none
absorb (suc fuel) rs rect index = elim (get_elem? rs index) [
  | none ↦ some (rs, rect)
  | some s ↦ elim (rects_merge_without_extra s rect) [
    | true ↦ absorb fuel (remove_rect rs index) (rect_union s rect) 0
    | false ↦ absorb fuel rs rect (index + 1)
  ]
]

-- Rounds enough for the loop over `n` rectangles.
abbrev pub rounds : ℕ → ℕ
rounds zero = 1
rounds (suc n) = rounds n + suc (suc n)

-- From the label `merge_again` on: the loop, then the append, or a compaction and the jump back.
unfoldable pub insert : ℕ → List Rect → Rect → Option (List Rect)
insert zero rs rect = none
insert (suc fuel) rs rect = elim (absorb (rounds (length rs)) rs rect 0) [
  | none ↦ none
  | some (rs', rect') ↦ elim (length rs' == capacity) [
    | true ↦ insert fuel (compact_for_rect rs' rect').0 (compact_for_rect rs' rect').1
    | false ↦ some (rs' ++ rect' ∷ [])
  ]
]

-- The code's result is always `true` here; `none` means that the model's fuel ran out.
unfoldable pub add : Region → Rect → ℤ → ℤ → Option Region
add region rect w h = if region.full then some region else elim (clip_rect rect w h) [
  | none ↦ some region
  | some r ↦ elim (insert 2 region.rects r) [
    | none ↦ none
    | some rs ↦ some (record region { rects = rs })
  ]
]

unfoldable pub add_all : Region → List Rect → ℤ → ℤ → Option Region
add_all region [] w h = some region
add_all region (r ∷ rs) w h = elim (add region r w h) [
  | none ↦ none
  | some region' ↦ add_all region' rs w h
]

unfoldable pub merge : Region → Region → ℤ → ℤ → Option Region
merge destination source w h =
    if source.full
    then some (set_full destination)
    else if destination.full
    then some destination
    else add_all destination source.rects w h

-- The tests that `nb_damage_region_is_valid` makes of one rectangle.
unfoldable pub rect_in_bounds : Rect → ℤ → ℤ → Bool
rect_in_bounds r w h = not (
    ltb_ℤ r.x (pos 0)
    || ltb_ℤ r.y (pos 0)
    || leb_ℤ r.width (pos 0)
    || leb_ℤ r.height (pos 0)
    || leb_ℤ w r.x
    || leb_ℤ h r.y
    || ltb_ℤ (w -ℤ r.x) r.width
    || ltb_ℤ (h -ℤ r.y) r.height)

-- The inner loop: `rect` meets none of the earlier rectangles.
unfoldable pub meets_none : Rect → List Rect → Bool
meets_none rect [] = true
meets_none rect (s ∷ earlier) = not (intersects rect s) && meets_none rect earlier

-- The outer loop, with the rectangles already passed.
unfoldable pub rects_valid : List Rect → List Rect → ℤ → ℤ → Bool
rects_valid earlier [] w h = true
rects_valid earlier (r ∷ rs) w h =
    rect_in_bounds r w h && meets_none r earlier && rects_valid (earlier ++ r ∷ []) rs w h

unfoldable pub is_valid : Region → ℤ → ℤ → Bool
is_valid region w h =
    not (
      leb_ℤ w (pos 0)
      || leb_ℤ h (pos 0)
      || ltb capacity (length region.rects)
      || (region.full && not (length region.rects == 0)))
    && rects_valid [] region.rects w h

unfoldable pub union_all : Rect → List Rect → Rect
union_all acc [] = acc
union_all acc (r ∷ rs) = union_all (rect_union acc r) rs

unfoldable pub bounds_of : List Rect → Option Rect
bounds_of [] = none
bounds_of (r ∷ rs) = some (union_all r rs)

-- `none` is the result `false`.
unfoldable pub bounds : Region → ℤ → ℤ → Option Rect
bounds region w h =
    if not (is_valid region w h) || (not region.full && length region.rects == 0)
    then none
    else if region.full
    then some (record { x = pos 0; y = pos 0; width = w; height = h })
    else bounds_of region.rects
