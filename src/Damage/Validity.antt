-- ===== src/Damage/Validity.antt =====
-- `nb_damage_region_is_valid` of src/damage_region.c and the invariant of regions.
use nix_bench.Prelude.{
  ℕ, ◌≤◌, ◌≡◌, ◌↔◌, refl, Bool, true, not, ◌&&◌, ◌||◌, List, [], ◌∷◌, ◌++◌, ℤ, pos, ◌<ℤ◌, arith,
  length, both_true, and_true, not-true, ◌==◌, ltb, leb_ℤ,
}
use nix_bench.Damage.{
  Rect, Region, capacity, intersects, rect_in_bounds, meets_none, rects_valid, is_valid,
}
use nix_bench.Damage.Geometry.{IsInside, rect_in_bounds_iff}
use nix_bench.Damage.Rects.{All, Apart, PairwiseApart, All-append, Apart-sym}
use nix_bench.Damage.Insert.{AreRects}

pub record IsValid (w h : ℤ) (region : Region) : Type 0 where
  pub width_pos : pos 0 <ℤ w
  pub height_pos : pos 0 <ℤ h
  pub full_empty : region.full ≡ true → length region.rects ≡ 0
  pub rects : AreRects w h region.rects

-- Every earlier rectangle is apart from every later one.
abbrev AllApart : List Rect → List Rect → Type 0
AllApart earlier [] = Unit {0}
AllApart earlier (r ∷ rs) = All (Apart r) earlier × AllApart earlier rs

AllApart-nil : (rs : List Rect) → AllApart [] rs
AllApart-nil [] = tt
AllApart-nil (r ∷ rs) = (tt, AllApart-nil rs)

All-init {ℓ} :
    (P : Rect → Type ℓ) (xs : List Rect) (y : Rect) → All P (xs ++ y ∷ []) → All P xs × P y
All-init P [] y h = (tt, h.0)
All-init P (x ∷ xs) y h = let (a, b) = All-init P xs y h.1 in ((h.0, a), b)

AllApart-earlier :
    (earlier : List Rect) (r : Rect) (rs : List Rect)
    → AllApart (earlier ++ r ∷ []) rs
    → AllApart earlier rs
AllApart-earlier earlier r [] h = tt
AllApart-earlier earlier r (s ∷ rs) h =
    ((All-init (Apart s) earlier r h.0).0, AllApart-earlier earlier r rs h.1)

AllApart-last :
    (earlier : List Rect) (r : Rect) (rs : List Rect)
    → AllApart (earlier ++ r ∷ []) rs
    → All (Apart r) rs
AllApart-last earlier r [] h = tt
AllApart-last earlier r (s ∷ rs) h =
    (Apart-sym s r (All-init (Apart s) earlier r h.0).1, AllApart-last earlier r rs h.1)

AllApart-append :
    (earlier : List Rect) (r : Rect) (rs : List Rect)
    → AllApart earlier rs
    → All (Apart r) rs
    → AllApart (earlier ++ r ∷ []) rs
AllApart-append earlier r [] h k = tt
AllApart-append earlier r (s ∷ rs) h k = (
  All-append (Apart s) earlier (r ∷ []) h.0 (Apart-sym r s k.0, tt),
  AllApart-append earlier r rs h.1 k.1,
)

module _ (r : Rect) where
  meets_none→All : (rs : List Rect) → meets_none r rs ≡ true → All (Apart r) rs
  unfolding meets_none
  meets_none→All [] e = tt
  meets_none→All (s ∷ rs) e =
      let (a, b) = both_true (not (intersects r s)) (meets_none r rs) e in
      (Apart-sym s r (not-true (intersects r s) a), meets_none→All rs b)

  All→meets_none : (rs : List Rect) → All (Apart r) rs → meets_none r rs ≡ true
  unfolding meets_none
  All→meets_none [] h = refl
  All→meets_none (s ∷ rs) h = rw (Apart-sym r s h.0, All→meets_none rs h.1)

module _ (w h : ℤ) where
  rects_valid→ :
      (earlier rs : List Rect)
      → rects_valid earlier rs w h ≡ true
      → All (IsInside w h) rs × AllApart earlier rs × PairwiseApart rs
  unfolding rects_valid
  rects_valid→ earlier [] e = (tt, tt, tt)
  rects_valid→ earlier (r ∷ rs) e =
      let rest = rects_valid (earlier ++ r ∷ []) rs w h in
      let (ab, c) = both_true (rect_in_bounds r w h && meets_none r earlier) rest e in
      let (a, b) = both_true (rect_in_bounds r w h) (meets_none r earlier) ab in
      let (inside, apart, pairwise) = rects_valid→ (earlier ++ r ∷ []) rs c in
      (
        ((rect_in_bounds_iff r w h).0 a, inside),
        (meets_none→All r earlier b, AllApart-earlier earlier r rs apart),
        (AllApart-last earlier r rs apart, pairwise),
      )

  →rects_valid :
      (earlier rs : List Rect)
      → All (IsInside w h) rs
      → AllApart earlier rs
      → PairwiseApart rs
      → rects_valid earlier rs w h ≡ true
  unfolding rects_valid
  →rects_valid earlier [] i a p = refl
  →rects_valid earlier (r ∷ rs) i a p =
      let rest = rects_valid (earlier ++ r ∷ []) rs w h in
      and_true (rect_in_bounds r w h && meets_none r earlier) rest
        (and_true (rect_in_bounds r w h) (meets_none r earlier) ((rect_in_bounds_iff r w h).1 i.0)
          (All→meets_none r earlier a.0))
        (→rects_valid (earlier ++ r ∷ []) rs i.1 (AllApart-append earlier r rs a.1 p.0) p.1)

  is_valid_guard : (full : Bool) (n : ℕ) → Bool
  is_valid_guard full n =
      not (leb_ℤ w (pos 0) || leb_ℤ h (pos 0) || ltb capacity n || (full && not (n == 0)))

  guard→ :
      (full : Bool) (n : ℕ)
      → is_valid_guard full n ≡ true
      → (pos 0 <ℤ w) × (pos 0 <ℤ h) × (n ≤ capacity) × (full ≡ true → n ≡ 0)
  unfolding is_valid_guard
  guard→ full n e = ground arith

  →guard :
      (full : Bool) (n : ℕ)
      → pos 0 <ℤ w
      → pos 0 <ℤ h
      → n ≤ capacity
      → (full ≡ true → n ≡ 0)
      → is_valid_guard full n ≡ true
  unfolding is_valid_guard
  →guard full n a b c d = ground arith

  -- The test against the invariant of regions.
  pub is_valid-IsValid : (region : Region) → (is_valid region w h ≡ true) ↔ IsValid w h region
  unfolding is_valid is_valid_guard
  is_valid-IsValid region = (sound, complete)
    where
      n : ℕ
      n = length region.rects

      sound : is_valid region w h ≡ true → IsValid w h region
      sound e =
          let (g, v) =
            both_true (is_valid_guard region.full n) (rects_valid [] region.rects w h) e in
          let (wp, hp, b, f) = guard→ region.full n g in
          let (i, _, p) = rects_valid→ [] region.rects v in
          record {
            width_pos = wp;
            height_pos = hp;
            full_empty = f;
            rects = record { inside = i; apart = p; bounded = b };
          }

      complete : IsValid w h region → is_valid region w h ≡ true
      complete v =
          and_true (is_valid_guard region.full n) (rects_valid [] region.rects w h)
            (→guard region.full n v.width_pos v.height_pos v.rects.bounded v.full_empty)
            (→rects_valid [] region.rects v.rects.inside (AllApart-nil region.rects) v.rects.apart)
