-- ===== src/Watchdog/Tests.antt =====
-- Runs of the session watchdog, and its theorems at concrete inputs.
use nix_bench.Prelude.{◌+◌, ◌<◌, ◌≡◌, ◌≢◌, refl, false, List, [], ◌∷◌, arith}
use nix_bench.Watchdog.{
  Watchdog, wait, send_ping, heartbeat_expired, startup_over, heartbeat_over, ready, awaiting_pong,
  add_milliseconds, init, note_ready, note_pong, advance, wait_timeout,
}
use nix_bench.Watchdog.Invariant.{
  Event, ready_seen, pong, tick, IsValid, step, run, run-init-IsValid,
}
use nix_bench.Watchdog.Timing.{advance-wait_timeout, ping_lifetime, stale_pong}

-- READY at 100, a ping at 1100, its pong at 1200, a ping at 2300 that no pong answers.
abbrev history : List Event
history = ready_seen 100 ∷ tick 1100 ∷ pong 1 1200 ∷ tick 2300 ∷ pong 1 2400 ∷ tick 7300 ∷ []

abbrev is_ready : Watchdog
is_ready = record { deadline = 1100; next_token = 1; outstanding_token = 0; phase = ready }

abbrev pinged : Watchdog
pinged = record { deadline = 6100; next_token = 2; outstanding_token = 1; phase = awaiting_pong }

abbrev dead : Watchdog
dead = record { deadline = 10000; next_token = 1; outstanding_token = 0; phase = startup_over }

history_expires : (run (init 0) history).phase ≡ heartbeat_over
unfolding run step init note_ready note_pong advance
history_expires = refl

run-init-IsValid_example : IsValid (run (init 0) history)
run-init-IsValid_example = run-init-IsValid 0 history (omega arith) (omega arith)

advance-wait_timeout_example :
    (600 < 100 + wait_timeout is_ready 100
      → ((advance is_ready 600).2 ≡ is_ready)
        × ((advance is_ready 600).1 ≡ 0)
        × ((advance is_ready 600).0 ≢ send_ping))
    × (wait_timeout is_ready 100 ≡ 0 → (advance is_ready 100).0 ≢ wait)
advance-wait_timeout_example = advance-wait_timeout is_ready 100 600 (omega arith)

ping_lifetime_example : (advance pinged 6100).0 ≡ heartbeat_expired
unfolding advance add_milliseconds
ping_lifetime_example = (ping_lifetime is_ready 1100 1 pinged refl).2 6100 (omega arith)

stale_pong_example : (note_pong (note_pong pinged 1 1200).1 1 1300).0 ≡ false
unfolding note_pong
stale_pong_example = (stale_pong pinged 1 1200 _ (omega arith) refl).0 1 1300
