-- ===== src/Watchdog/Timing.antt =====
-- When the session watchdog acts: its timeout, the lifetime of a ping, and stale pongs.
use nix_bench.Prelude.{ℕ, ◌+◌, ◌≤◌, ◌<◌, ◌≡◌, ◌≢◌, ◌↔◌, true, false, arith}
use nix_bench.Watchdog.{
  Watchdog, pong_timeout_ms, wait, send_ping, heartbeat_expired, add_milliseconds, note_pong,
  advance, wait_timeout,
}
use nix_bench.Watchdog.Invariant.{IsValid}

-- For the whole of the timeout that `wait_timeout` returns, `advance` leaves the watchdog as it
-- is and asks for no ping; and where the timeout is zero, `advance` at that time does not wait.
pub advance-wait_timeout :
    (w : Watchdog) (now later : ℕ)
    → now ≤ later
    → (later < now + wait_timeout w now
        → ((advance w later).2 ≡ w) × ((advance w later).1 ≡ 0) × ((advance w later).0 ≢ send_ping))
      × (wait_timeout w now ≡ 0 → (advance w now).0 ≢ wait)
unfolding advance wait_timeout
advance-wait_timeout w now later h = ground arith

-- A ping that `advance` asks for carries a non-zero token. Before its deadline, which is the
-- time of the ping plus the timeout, held at the largest 64-bit time, `advance` waits;
-- from the deadline on it reports the heartbeat as expired. At any time, a pong is accepted
-- exactly if it carries that token.
pub ping_lifetime :
    (w : Watchdog) (sent token : ℕ) (w' : Watchdog)
    → advance w sent ≡ (send_ping, token, w')
    → (token ≢ 0)
      × ((t : ℕ) → t < add_milliseconds sent pong_timeout_ms → advance w' t ≡ (wait, 0, w'))
      × ((t : ℕ) → add_milliseconds sent pong_timeout_ms ≤ t → (advance w' t).0 ≡ heartbeat_expired)
      × ((t k : ℕ) → ((note_pong w' k t).0 ≡ true) ↔ (k ≡ token))
unfolding advance note_pong
ping_lifetime w sent token w' e = ground arith

-- In a valid watchdog, a pong that has been accepted is spent: until the next ping no pong is
-- accepted, and the token of the next ping is another one, so the old pong is refused again.
pub stale_pong :
    (w : Watchdog) (token now : ℕ) (w' : Watchdog)
    → IsValid w
    → note_pong w token now ≡ (true, w')
    → ((k t : ℕ) → (note_pong w' k t).0 ≡ false)
      × ((sent next : ℕ) (w″ : Watchdog)
          → advance w' sent ≡ (send_ping, next, w″)
          → (next ≢ token) × ((t : ℕ) → (note_pong w″ token t).0 ≡ false))
unfolding advance note_pong
stale_pong w token now w' v e = ground arith
