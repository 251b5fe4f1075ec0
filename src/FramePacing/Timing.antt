-- ===== src/FramePacing/Timing.antt =====
-- The timing of frames: src/session_frame_pacing.c.
use nix_bench.Prelude.{
  ℕ, zero, suc, ◌+◌, ◌-◌, ◌*◌, ◌≤◌, ◌<◌, ◌≡◌, ◌≢◌, ◌⊎◌, ◌↔◌, inl, inr, refl, Bool, true, false, pos,
  arith,
}
use native.Mathlib.Nat.{mod-lt, div-add-mod, mul-le-mul_left}
use nix_bench.Watchdog.{uint32_max}
use nix_bench.FramePacing.{
  max_interval_ms, millihertz_numerator, Pacing, add_milliseconds, exact_interval, limited_interval,
  configure, ready, presented, wait_timeout,
}

exact_interval-rounds_up :
    (r : ℕ)
    → 0 < r
    → (millihertz_numerator ≤ r * exact_interval r)
      × (r * exact_interval r < millihertz_numerator + r)
unfolding exact_interval
exact_interval-rounds_up r h =
    let n = millihertz_numerator + r - 1 in
    let e = div-add-mod n r in let m = mod-lt n h in omega (arith, e, m)

exact_interval-pos : (r : ℕ) → 0 < r → 0 < exact_interval r
exact_interval-pos r h = elim (zero_or_pos (exact_interval r)) [
  | inl z ↦ absurd (
      omega (
        arith,
        exact_interval-rounds_up r h,
        mul-le-mul_left {m = exact_interval r} {n = 0} r (omega (arith, z)),
      ))
  | inr q ↦ q
]
  where
    zero_or_pos : (n : ℕ) → (n ≡ 0) ⊎ (0 < n)
    zero_or_pos zero = inl refl
    zero_or_pos (suc n) = inr (omega arith)

exact_interval-le : (r : ℕ) → 1000 ≤ r → exact_interval r ≤ max_interval_ms
exact_interval-le r h = elim (le_or_gt (exact_interval r)) [
  | inl q ↦ q
  | inr q ↦ absurd (
      omega (
        arith,
        exact_interval-rounds_up r (omega arith),
        mul-le-mul_left {m = 1001} {n = exact_interval r} r q,
      ))
]
  where
    le_or_gt : (n : ℕ) → (n ≤ 1000) ⊎ (1001 ≤ n)
    le_or_gt n = ground arith

limited_interval_bounds :
    (i : ℕ) → (1 ≤ limited_interval i) × (limited_interval i ≤ max_interval_ms)
limited_interval_bounds i = ground arith

limited_interval_fixed : (i : ℕ) → 0 < i → i ≤ max_interval_ms → limited_interval i ≡ i
limited_interval_fixed i p q = ground arith

configured :
    (p : Pacing) (r : ℕ)
    → 0 < r
    → (configure p (pos r)).interval ≡ limited_interval (exact_interval r)
unfolding configure
configured p r h = ground arith

-- A refresh rate of `refresh` millihertz gives an interval from 1 to 1000 milliseconds. From 1 Hz
-- on, frames come no faster than the refresh rate and the interval is less than a millisecond
-- longer than the period: the product of rate and interval is at least 1000000 and less than
-- 1000000 plus the rate.
pub configure_lem :
    (p : Pacing) (refresh : ℕ)
    → 0 < refresh
    → let i = (configure p (pos refresh)).interval in
      (1 ≤ i)
      × (i ≤ max_interval_ms)
      × (1000 ≤ refresh
          → (millihertz_numerator ≤ refresh * i) × (refresh * i < millihertz_numerator + refresh))
configure_lem p refresh h =
    let e = exact_interval refresh in
    rw (configured p refresh h)
      ((limited_interval_bounds e).0, (limited_interval_bounds e).1, exact)
  where
    exact :
        1000 ≤ refresh
        → (millihertz_numerator ≤ refresh * limited_interval (exact_interval refresh))
          × (refresh * limited_interval (exact_interval refresh) < millihertz_numerator + refresh)
    exact q =
        rw
          (limited_interval_fixed (exact_interval refresh) (exact_interval-pos refresh h)
            (exact_interval-le refresh q))
          (exact_interval-rounds_up refresh h)

-- A frame that is presented at `now` makes the next one ready exactly from one interval later on,
-- or from the largest 64-bit time on where the sum is past it.
pub ready-presented :
    (p : Pacing) (now t : ℕ)
    → 0 < p.interval
    → (ready (presented p now) t ≡ true) ↔ (add_milliseconds now p.interval ≤ t)
unfolding ready presented add_milliseconds
ready-presented p now t h = ground arith

-- With a redraw pending and no presentation under way the timeout is at most the maximum. If a deadline
-- is set, no frame is ready at an earlier time than its end, and where it is below both the maximum and
-- the largest 32-bit number, a frame is ready at its end. Without a redraw, during a presentation or
-- without a deadline it is the maximum.
pub wait_timeout_lem :
    (p : Pacing) (now maximum : ℕ)
    → let w = wait_timeout p now true false maximum in
      (w ≤ maximum)
      × ((t : ℕ) → p.deadline ≢ 0 → now ≤ t → t < now + w → ready p t ≡ false)
      × (w < maximum → w < uint32_max → ready p (now + w) ≡ true)
      × ((redraw presentation : Bool)
          → (redraw ≡ false) ⊎ (presentation ≡ true) ⊎ (p.deadline ≡ 0)
          → wait_timeout p now redraw presentation maximum ≡ maximum)
unfolding wait_timeout ready
wait_timeout_lem p now maximum = ground arith
