-- ===== src/FramePacing/Tests.antt =====
-- The theorems on frame pacing at concrete states.
use nix_bench.Prelude.{
  ◌+◌, ◌-◌, ◌^◌, ◌*◌, ◌≤◌, ◌<◌, ◌≡◌, ◌≢◌, ◌⊎◌, refl, Bool, true, false, pos, ℕ, arith,
}
use nix_bench.FramePacing.{exact_interval, Pacing, init, configure, ready, wait_timeout}
use nix_bench.FramePacing.Timing.{configure_lem, wait_timeout_lem}

-- 60 Hz, with a frame presented at 100.
abbrev shown : Pacing
shown = record { deadline = 117; interval = 17 }

interval_60_hz : (configure init (pos 60000)).interval ≡ 17
unfolding configure exact_interval
interval_60_hz = refl

configure_lem_example :
    let i = (configure shown (pos 60000)).interval in
    (1 ≤ i) × (i ≤ 1000) × (1000 ≤ 60000 → (1000000 ≤ 60000 * i) × (60000 * i < 1000000 + 60000))
configure_lem_example = configure_lem shown 60000 (omega arith)

wait_timeout_lem_example :
    let w = wait_timeout shown 105 true false 60000 in
    (w ≤ 60000)
    × ((t : ℕ) → shown.deadline ≢ 0 → 105 ≤ t → t < 105 + w → ready shown t ≡ false)
    × (w < 60000 → w < 2 ^ 32 - 1 → ready shown (105 + w) ≡ true)
    × ((redraw presentation : Bool)
        → (redraw ≡ false) ⊎ (presentation ≡ true) ⊎ (shown.deadline ≡ 0)
        → wait_timeout shown 105 redraw presentation 60000 ≡ 60000)
wait_timeout_lem_example = wait_timeout_lem shown 105 60000
