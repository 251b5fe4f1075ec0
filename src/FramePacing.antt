-- ===== src/FramePacing.antt =====
-- src/session_frame_pacing.h and src/session_frame_pacing.c: when the next frame may be presented.
pub mod Timing
mod Tests
use nix_bench.Prelude.{
  ℕ, ◌+◌, ◌-◌, ◌/◌, ◌^◌, Bool, true, false, ◌||◌, not, ltb, leb, ◌==◌, if◌then◌else◌, ℤ, pos,
  pos_part, ltb_ℤ,
}
use nix_bench.Watchdog.{uint64_max, uint32_max}

abbrev pub fallback_interval_ms : ℕ
fallback_interval_ms = 17

abbrev pub max_interval_ms : ℕ
max_interval_ms = 1000

abbrev pub millihertz_numerator : ℕ
millihertz_numerator = 1000000

pub record Pacing : Type 0 where
  pub deadline : ℕ
  pub interval : ℕ

unfoldable pub add_milliseconds : ℕ → ℕ → ℕ
add_milliseconds start duration =
    if ltb (uint64_max - start) duration then uint64_max else start + duration

unfoldable pub init : Pacing
init = record { deadline = 0; interval = fallback_interval_ms }

-- The division of `nb_session_frame_pacing_configure`, which rounds up.
unfoldable pub exact_interval : ℕ → ℕ
exact_interval refresh = (millihertz_numerator + refresh - 1) / refresh

abbrev pub limited_interval : ℕ → ℕ
limited_interval interval =
    if ltb interval 1 then 1 else if ltb max_interval_ms interval then max_interval_ms else interval

unfoldable pub configure : Pacing → ℤ → Pacing
configure p refresh = record {
  deadline = 0;
  interval =
      if ltb_ℤ (pos 0) refresh
      then limited_interval (exact_interval (pos_part refresh))
      else fallback_interval_ms;
}

unfoldable pub ready : Pacing → ℕ → Bool
ready p now = p.deadline == 0 || leb p.deadline now

unfoldable pub presented : Pacing → ℕ → Pacing
presented p now = record p { deadline = add_milliseconds now p.interval }

unfoldable pub wait_timeout : Pacing → ℕ → Bool → Bool → ℕ → ℕ
wait_timeout p now redraw_pending presentation_pending maximum =
    let remaining = p.deadline - now in
    if not redraw_pending || presentation_pending || p.deadline == 0
    then maximum
    else if leb p.deadline now
    then 0
    else if ltb maximum remaining
    then maximum
    else if ltb uint32_max remaining
    then uint32_max
    else remaining
