-- ===== src/Damage/Insert.antt =====
-- Adding a clipped rectangle: the merging loop, the compaction at the capacity, and the append.
use nix_bench.Prelude.{
  ℕ, zero, suc, ◌+◌, ◌≤◌, ◌<◌, ◌≡◌, inl, inr, refl, some, List, [], ◌∷◌, ◌++◌, ℤ, arith, length,
  get_elem?, length-append, Bool-cases, ==_iff, ◌==◌,
}
use nix_bench.Damage.{
  Rect, Pending, Best, capacity, consider, search_best, best_index, merge_at, compact_for_rect,
  absorb, rounds, insert,
}
use nix_bench.Damage.Geometry.{IsInside}
use nix_bench.Damage.Rects.{
  All, Apart, PairwiseApart, Covered, Apart-sym, All-append, length-remove_rect,
}
use nix_bench.Damage.Absorb.{
  IsPending, Absorbed, absorb_lem, merge_step-IsPending, merge_step-Covered,
}

consider-lt :
    (rect : Rect) (index : ℕ) (s : Rect) (best : Best) (n : ℕ)
    → best.index < n
    → index < n
    → (consider rect index s best).index < n
unfolding consider
consider-lt rect index s best n p q = ground arith

search_best-lt :
    (rect : Rect) (rs : List Rect) (index : ℕ) (best : Best) (n : ℕ)
    → best.index < n
    → index + length rs ≤ n
    → (search_best rect rs index best).index < n
unfolding search_best
search_best-lt rect [] index best n p q = p
search_best-lt rect (s ∷ rs) index best n p q =
    search_best-lt rect rs (index + 1) (consider rect index s best) n
      (consider-lt rect index s best n p (omega arith)) (omega arith)

-- The index that the compaction picks is one of the list.
pub best_index-lt : (rect : Rect) (rs : List Rect) → 0 < length rs → best_index rect rs < length rs
unfolding best_index
best_index-lt rect rs h = search_best-lt rect rs 0 _ (length rs) h (omega arith)

get_elem?-some : (rs : List Rect) (i : ℕ) → i < length rs → (s : Rect) × (get_elem? rs i ≡ some s)
get_elem?-some [] i h = absurd (omega arith)
get_elem?-some (r ∷ rs) zero h = (r, refl)
get_elem?-some (r ∷ rs) (suc i) h = get_elem?-some rs i (omega arith)

PairwiseApart-append :
    (rs : List Rect) (r : Rect) → All (Apart r) rs → PairwiseApart rs → PairwiseApart (rs ++ r ∷ [])
PairwiseApart-append [] r a h = (tt, tt)
PairwiseApart-append (s ∷ rs) r a h = (
  All-append (Apart s) rs (r ∷ []) h.0 (Apart-sym r s a.0, tt),
  PairwiseApart-append rs r a.1 h.1,
)

Covered-append :
    (px py : ℤ) (rs : List Rect) (r : Rect) → Covered px py (r ∷ rs) → Covered px py (rs ++ r ∷ [])
Covered-append px py [] r c = c
Covered-append px py (s ∷ rs) r (inl c) = inr (Covered-append px py rs r (inl c))
Covered-append px py (s ∷ rs) r (inr (inl c)) = inl c
Covered-append px py (s ∷ rs) r (inr (inr c)) = inr (Covered-append px py rs r (inr c))

-- A list of rectangles that lie in the surface, do not meet, and fit the array.
pub record AreRects (w h : ℤ) (rs : List Rect) : Type 0 where
  pub inside : All (IsInside w h) rs
  pub apart : PairwiseApart rs
  pub bounded : length rs ≤ capacity

-- What is known of the list that `insert` stores.
pub record Inserted (w h : ℤ) (rs : List Rect) (rect : Rect) (out : List Rect) : Type 0 where
  pub valid : AreRects w h out
  pub covers : (px py : ℤ) → Covered px py (rect ∷ rs) → Covered px py out

module _ (w h : ℤ) where
  append-Inserted :
      (rs : List Rect) (rect : Rect) (out : Pending)
      → Absorbed w h (rs, rect) out
      → length out.0 < capacity
      → Inserted w h rs rect (out.0 ++ out.1 ∷ [])
  append-Inserted rs rect out a lt = record {
    valid = record {
      inside =
          All-append (IsInside w h) out.0 (out.1 ∷ []) a.pending.inside (a.pending.incoming, tt);
      apart = PairwiseApart-append out.0 out.1 a.free a.pending.apart;
      bounded = omega (arith, length-append {0} out.0 (out.1 ∷ []));
    };
    covers = λ px py c. Covered-append px py out.0 out.1 (a.covers px py c);
  }

  -- The compaction replaces one rectangle and the incoming one by their union.
  compact_lem :
      (rs : List Rect) (rect : Rect)
      → IsPending w h (rs, rect)
      → 0 < length rs
      → let p = compact_for_rect rs rect in
        IsPending w h p
        × (length rs ≡ suc (length p.0))
        × ((px py : ℤ) → Covered px py (rect ∷ rs) → Covered px py (p.1 ∷ p.0))
  unfolding compact_for_rect merge_at
  compact_lem rs rect v pos =
      let best = best_index rect rs in
      let (s, e) = get_elem?-some rs best (best_index-lt rect rs pos) in
      rw (e, merge_at)
        (
          merge_step-IsPending w h rs rect s best e v,
          length-remove_rect rs best s e,
          λ px py c. merge_step-Covered w h rs rect s best px py e c,
        )

  -- One round, with what the next one does if the list is full.
  insert_round :
      (fuel : ℕ) (rs : List Rect) (rect : Rect) (p : Pending)
      → absorb (rounds (length rs)) rs rect 0 ≡ some p
      → Absorbed w h (rs, rect) p
      → length rs ≤ capacity
      → (length p.0 ≡ capacity
          → let c = compact_for_rect p.0 p.1 in
            (out : List Rect) × (insert fuel c.0 c.1 ≡ some out) × Inserted w h c.0 c.1 out)
      → (out : List Rect) × (insert (suc fuel) rs rect ≡ some out) × Inserted w h rs rect out
  unfolding insert
  insert_round fuel rs rect p e a cap next = elim (Bool-cases (length p.0 == capacity)) [
    | inl full ↦
        let eq = (==_iff (length p.0) capacity).0 full in
        let (out, q, ins) = next eq in
        let c = compact_lem p.0 p.1 a.pending (omega (arith, eq)) in
        (
          out,
          rw (e, insert) (rw (full, insert) q),
          record {
            valid = ins.valid;
            covers = λ px py k. ins.covers px py (c.2 px py (a.covers px py k));
          },
        )
    | inr room ↦ (
      p.0 ++ p.1 ∷ [],
      rw (e, insert) (rw (room, insert)),
      append-Inserted rs rect p a (ground (arith, a.shorter)),
    )
  ]

  -- Two rounds are enough: after a compaction the list is shorter than the capacity.
  pub insert_lem :
      (fuel : ℕ) (rs : List Rect) (rect : Rect)
      → IsPending w h (rs, rect)
      → length rs ≤ capacity
      → length rs < capacity + fuel
      → (out : List Rect) × (insert (suc fuel) rs rect ≡ some out) × Inserted w h rs rect out
  insert_lem zero rs rect v cap enough =
      let (p, e, a) =
        absorb_lem w h (rounds (length rs)) rs rect 0 v tt (omega arith) (omega arith) in
      insert_round zero rs rect p e a cap (λ full. absurd (omega (arith, full, a.shorter)))
  insert_lem (suc f) rs rect v cap enough =
      let (p, e, a) =
        absorb_lem w h (rounds (length rs)) rs rect 0 v tt (omega arith) (omega arith) in
      insert_round (suc f) rs rect p e a cap λ full.
        let c = compact_for_rect p.0 p.1 in
        let k = compact_lem p.0 p.1 a.pending (omega (arith, full)) in
        insert_lem f c.0 c.1 k.0 (omega (arith, full, k.1)) (omega (arith, full, k.1))
