-- ===== src/Damage/Absorb.antt =====
-- The merging loop of `nb_damage_region_add` in src/damage_region.c.
use native.Mathlib.Numerals.{add-one}
use nix_bench.Prelude.{
  ℕ, zero, suc, ◌+◌, ◌≤◌, ◌<◌, ◌≡◌, inl, inr, ap, false, none, some, List, [], ◌∷◌, ℤ, arith,
  length, get_elem?, Bool-cases, Option-cases,
}
use nix_bench.Damage.{
  Rect, Pending, intersects, rects_merge_without_extra, rect_union, remove_rect, absorb, rounds,
}
use nix_bench.Damage.Geometry.{IsInside, rect_union-IsInside, rect_union-Contains}
use nix_bench.Damage.Rects.{
  All, Apart, PairwiseApart, Covered, remove_rect-All, get_elem?-All, remove_rect-Apart,
  length-remove_rect, remove_rect-Covered,
}

-- The rectangles lie in the surface and do not meet one another, and the incoming one lies in it.
pub record IsPending (w h : ℤ) (p : Pending) : Type 0 where
  pub inside : All (IsInside w h) p.0
  pub apart : PairwiseApart p.0
  pub incoming : IsInside w h p.1

-- The loop has passed the first `i` rectangles: none of them merges with `rect`.
abbrev Scanned : Rect → ℕ → List Rect → Type 0
Scanned rect zero rs = Unit {0}
Scanned rect (suc i) [] = Unit {0}
Scanned rect (suc i) (s ∷ rs) = (rects_merge_without_extra s rect ≡ false) × Scanned rect i rs

Scanned-suc :
    (rect : Rect) (i : ℕ) (rs : List Rect) (s : Rect)
    → get_elem? rs i ≡ some s
    → rects_merge_without_extra s rect ≡ false
    → Scanned rect i rs
    → Scanned rect (suc i) rs
Scanned-suc rect zero [] s e m h = tt
Scanned-suc rect zero (r ∷ rs) s e m h = (ground arith, tt)
Scanned-suc rect (suc i) [] s e m h = tt
Scanned-suc rect (suc i) (r ∷ rs) s e m h = (h.0, Scanned-suc rect i rs s e m h.1)

merge_false→Apart : (s rect : Rect) → rects_merge_without_extra s rect ≡ false → Apart rect s
unfolding rects_merge_without_extra
merge_false→Apart s rect e = elim (Bool-cases (intersects s rect)) [ inl p ↦ cc p | inr p ↦ p ]

Scanned→Apart :
    (rect : Rect) (i : ℕ) (rs : List Rect)
    → get_elem? rs i ≡ none
    → Scanned rect i rs
    → All (Apart rect) rs
Scanned→Apart rect zero [] e h = tt
Scanned→Apart rect (suc i) [] e h = tt
Scanned→Apart rect zero (r ∷ rs) e h = cc
Scanned→Apart rect (suc i) (r ∷ rs) e h =
    (merge_false→Apart r rect h.0, Scanned→Apart rect i rs e h.1)

get_elem?-lt : (rs : List Rect) (i : ℕ) (s : Rect) → get_elem? rs i ≡ some s → i < length rs
get_elem?-lt [] i s e = cc
get_elem?-lt (r ∷ rs) zero s e = omega arith
get_elem?-lt (r ∷ rs) (suc i) s e = omega (arith, get_elem?-lt rs i s e)

rounds-gt : (n : ℕ) → n < rounds n
rounds-gt zero = omega arith
rounds-gt (suc n) = omega (arith, rounds-gt n)

-- What the loop has done when it stops, started from `p`.
pub record Absorbed (w h : ℤ) (p out : Pending) : Type 0 where
  pub pending : IsPending w h out
  pub free : All (Apart out.1) out.0
  pub shorter : length out.0 ≤ length p.0
  pub covers : (px py : ℤ) → Covered px py (p.1 ∷ p.0) → Covered px py (out.1 ∷ out.0)

module _ (w h : ℤ) where
  pub merge_step-IsPending :
      (rs : List Rect) (rect s : Rect) (i : ℕ)
      → get_elem? rs i ≡ some s
      → IsPending w h (rs, rect)
      → IsPending w h (remove_rect rs i, rect_union s rect)
  merge_step-IsPending rs rect s i e v = record {
    inside = remove_rect-All (IsInside w h) rs i v.inside;
    apart = remove_rect-Apart rs i v.apart;
    incoming =
        rect_union-IsInside s rect w h (get_elem?-All (IsInside w h) rs i s e v.inside) v.incoming;
  }

  pub merge_step-Covered :
      (rs : List Rect) (rect s : Rect) (i : ℕ) (px py : ℤ)
      → get_elem? rs i ≡ some s
      → Covered px py (rect ∷ rs)
      → Covered px py (rect_union s rect ∷ remove_rect rs i)
  merge_step-Covered rs rect s i px py e (inl c) = inl (rect_union-Contains s rect px py (inr c))
  merge_step-Covered rs rect s i px py e (inr c) = elim (remove_rect-Covered px py rs i s e c) [
    | inl k ↦ inl (rect_union-Contains s rect px py (inl k))
    | inr k ↦ inr k
  ]

  after_merge :
      (rs : List Rect) (rect s : Rect) (i : ℕ) (out : Pending)
      → get_elem? rs i ≡ some s
      → Absorbed w h (remove_rect rs i, rect_union s rect) out
      → Absorbed w h (rs, rect) out
  after_merge rs rect s i out e a = record {
    pending = a.pending;
    free = a.free;
    shorter = omega (arith, a.shorter, length-remove_rect rs i s e);
    covers = λ px py c. a.covers px py (merge_step-Covered rs rect s i px py e c);
  }

  -- With enough fuel the loop stops, whatever the rectangles are, at a list that does not meet
  -- the incoming rectangle.
  pub absorb_lem :
      (fuel : ℕ) (rs : List Rect) (rect : Rect) (i : ℕ)
      → IsPending w h (rs, rect)
      → Scanned rect i rs
      → i ≤ length rs
      → rounds (length rs) ≤ fuel + i
      → (out : Pending) × (absorb fuel rs rect i ≡ some out) × Absorbed w h (rs, rect) out
  unfolding absorb
  absorb_lem zero rs rect i v sc le enough = absurd (omega (arith, rounds-gt (length rs)))
  absorb_lem (suc fuel) rs rect i v sc le enough = elim (Option-cases (get_elem? rs i)) [
    | inl e ↦ (
      (rs, rect),
      rw (e, absorb),
      record {
        pending = v;
        free = Scanned→Apart rect i rs e sc;
        shorter = omega arith;
        covers = λ px py c. c;
      },
    )
    | inr (s, e) ↦ elim (Bool-cases (rects_merge_without_extra s rect)) [
      | inl m ↦
          let r' = remove_rect rs i in
          let shrink = length-remove_rect rs i s e in
          let (out, q, a) =
            absorb_lem fuel r' (rect_union s rect) 0 (merge_step-IsPending rs rect s i e v) tt
              (omega arith) (omega (arith, shrink, ap rounds shrink, get_elem?-lt rs i s e)) in
          (out, rw (e, absorb) (rw (m, absorb) q), after_merge rs rect s i out e a)
      | inr m ↦
          let (out, q, a) =
            absorb_lem fuel rs rect (i + 1) v (rw add-one (Scanned-suc rect i rs s e m sc))
              (omega (arith, get_elem?-lt rs i s e)) (omega arith) in
          (out, rw (e, absorb) (rw (m, absorb) q), a)
    ]
  ]
