-- ===== src/Watchdog.antt =====
-- src/session_watchdog.h and src/session_watchdog.c.
pub mod Invariant
pub mod Timing
mod Tests
use nix_bench.Prelude.{
  ℕ, ◌+◌, ◌-◌, ◌^◌, Bool, true, false, ◌||◌, not, ltb, leb, ◌==◌, if◌then◌else◌,
}

abbrev pub uint64_max : ℕ
uint64_max = 2 ^ 64 - 1

abbrev pub uint32_max : ℕ
uint32_max = 2 ^ 32 - 1

abbrev pub startup_grace_ms : ℕ
startup_grace_ms = 10000

abbrev pub ping_interval_ms : ℕ
ping_interval_ms = 1000

abbrev pub pong_timeout_ms : ℕ
pong_timeout_ms = 5000

pub data Action : Type 0 where
  wait send_ping startup_expired heartbeat_expired : Action

pub data Phase : Type 0 where
  starting ready awaiting_pong startup_over heartbeat_over : Phase

pub record Watchdog : Type 0 where
  pub deadline : ℕ
  pub next_token : ℕ
  pub outstanding_token : ℕ
  pub phase : Phase

-- `add_milliseconds`: the sum, held at UINT64_MAX.
unfoldable pub add_milliseconds : ℕ → ℕ → ℕ
add_milliseconds start duration =
    if ltb (uint64_max - start) duration then uint64_max else start + duration

-- `take_token` returns the token and the watchdog with its `next_token` moved on.
unfoldable pub take_token : Watchdog → ℕ × Watchdog
take_token w =
    let token = if w.next_token == 0 then 1 else w.next_token in
    (token, record w { next_token = if token == uint64_max then 1 else token + 1 })

unfoldable pub init : ℕ → Watchdog
unfolding add_milliseconds
init now = record {
  deadline = add_milliseconds now startup_grace_ms;
  next_token = 1;
  outstanding_token = 0;
  phase = starting;
}

-- The state both `note_ready` and `note_pong` leave: the next ping is due one interval from now.
abbrev pub make_ready : Watchdog → ℕ → Watchdog
make_ready w now = record w {
  deadline = add_milliseconds now ping_interval_ms;
  outstanding_token = 0;
  phase = ready;
}

ready_in : Phase → Watchdog → ℕ → Bool × Watchdog
ready_in ready w now = (true, w)
ready_in awaiting_pong w now = (true, w)
ready_in starting w now = (true, make_ready w now)
ready_in startup_over w now = (false, w)
ready_in heartbeat_over w now = (false, w)

unfoldable pub note_ready : Watchdog → ℕ → Bool × Watchdog
unfolding ready_in
note_ready w now = ready_in w.phase w now

abbrev pub is_awaiting : Phase → Bool
is_awaiting awaiting_pong = true
is_awaiting _ = false

unfoldable pub note_pong : Watchdog → ℕ → ℕ → Bool × Watchdog
note_pong w token now =
    if token == 0 || not (is_awaiting w.phase) || not (token == w.outstanding_token)
    then (false, w)
    else (true, make_ready w now)

-- The arms of the `switch` of `nb_session_watchdog_advance`: the action, `*ping_token` and the
-- watchdog.
advance_in : Phase → Watchdog → ℕ → Action × ℕ × Watchdog
unfolding take_token
advance_in starting w now =
    if ltb now w.deadline
    then (wait, 0, w)
    else (startup_expired, 0, record w { phase = startup_over })
advance_in ready w now =
    if ltb now w.deadline
    then (wait, 0, w)
    else let (token, w') = take_token w in
      (
        send_ping,
        token,
        record w' {
          outstanding_token = token;
          deadline = add_milliseconds now pong_timeout_ms;
          phase = awaiting_pong;
        },
      )
advance_in awaiting_pong w now =
    if ltb now w.deadline
    then (wait, 0, w)
    else (heartbeat_expired, 0, record w { phase = heartbeat_over })
advance_in startup_over w now = (startup_expired, 0, w)
advance_in heartbeat_over w now = (heartbeat_expired, 0, w)

unfoldable pub advance : Watchdog → ℕ → Action × ℕ × Watchdog
unfolding advance_in
advance w now = advance_in w.phase w now

unfoldable pub wait_timeout : Watchdog → ℕ → ℕ
wait_timeout w now =
    if leb w.deadline now
    then 0
    else let remaining = w.deadline - now in
      if ltb uint32_max remaining then uint32_max else remaining
