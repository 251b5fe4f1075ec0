-- ===== src/Watchdog/Invariant.antt =====
-- The state machine of the session watchdog over the observations that its caller feeds it.
use nix_bench.Prelude.{ℕ, ◌≤◌, ◌≡◌, refl, ◌≢◌, List, [], ◌∷◌, arith}
use nix_bench.Watchdog.{
  Watchdog, Phase, starting, ready, awaiting_pong, startup_over, heartbeat_over, uint64_max,
  add_milliseconds, init, note_ready, note_pong, advance,
}

-- One call of the interface, with the time at which it is made.
pub data Event : Type 0 where
  ready_seen : ℕ → Event
  pong : ℕ → ℕ → Event
  tick : ℕ → Event

abbrev pub time : Event → ℕ
time (ready_seen now) = now
time (pong token now) = now
time (tick now) = now

unfoldable pub step : Watchdog → Event → Watchdog
step w (ready_seen now) = (note_ready w now).1
step w (pong token now) = (note_pong w token now).1
step w (tick now) = (advance w now).2

unfoldable pub run : Watchdog → List Event → Watchdog
run w [] = w
run w (e ∷ es) = run (step w e) es

-- Every time is a `uint64_t`.
abbrev pub TimesFit : List Event → Type 0
TimesFit [] = Unit {0}
TimesFit (e ∷ es) = (time e ≤ uint64_max) × TimesFit es

-- What the outstanding token is in each phase.
abbrev pub TokenFits : Phase → ℕ → ℕ → Type 0
TokenFits starting outstanding next = outstanding ≡ 0
TokenFits ready outstanding next = outstanding ≡ 0
TokenFits awaiting_pong outstanding next = (1 ≤ outstanding) × (outstanding ≢ next)
TokenFits startup_over outstanding next = outstanding ≡ 0
TokenFits heartbeat_over outstanding next = 1 ≤ outstanding

pub record IsValid (w : Watchdog) : Type 0 where
  pub deadline_fits : w.deadline ≤ uint64_max
  pub next_positive : 1 ≤ w.next_token
  pub next_fits : w.next_token ≤ uint64_max
  pub outstanding_fits : w.outstanding_token ≤ uint64_max
  pub token : TokenFits w.phase w.outstanding_token w.next_token

pub add_milliseconds-le :
    (start duration : ℕ) → start ≤ uint64_max → add_milliseconds start duration ≤ uint64_max
unfolding add_milliseconds
add_milliseconds-le start duration h = ground arith

pub init-IsValid : (now : ℕ) → now ≤ uint64_max → IsValid (init now)
unfolding init
init-IsValid now h = ground arith

module _ (deadline next outstanding : ℕ) where
  abbrev at : Phase → Watchdog
  at p = record {
    deadline = deadline;
    next_token = next;
    outstanding_token = outstanding;
    phase = p;
  }

  note_ready-IsValid :
      (p : Phase) (now : ℕ) → now ≤ uint64_max → IsValid (at p) → IsValid (note_ready (at p) now).1
  unfolding note_ready add_milliseconds
  note_ready-IsValid starting now h v = ground arith
  note_ready-IsValid _ now h v = ground arith

  note_pong-IsValid :
      (p : Phase) (token now : ℕ)
      → now ≤ uint64_max
      → IsValid (at p)
      → IsValid (note_pong (at p) token now).1
  unfolding note_pong add_milliseconds
  note_pong-IsValid awaiting_pong token now h v = ground arith
  note_pong-IsValid _ token now h v = ground arith

  advance-IsValid :
      (p : Phase) (now : ℕ) → now ≤ uint64_max → IsValid (at p) → IsValid (advance (at p) now).2
  unfolding advance add_milliseconds
  advance-IsValid starting now h v = ground arith
  advance-IsValid _ now h v = ground arith

step-IsValid : (w : Watchdog) (e : Event) → time e ≤ uint64_max → IsValid w → IsValid (step w e)
unfolding step
step-IsValid w (ready_seen now) h v =
    note_ready-IsValid w.deadline w.next_token w.outstanding_token w.phase now h v
step-IsValid w (pong token now) h v =
    note_pong-IsValid w.deadline w.next_token w.outstanding_token w.phase token now h v
step-IsValid w (tick now) h v =
    advance-IsValid w.deadline w.next_token w.outstanding_token w.phase now h v

run-IsValid : (w : Watchdog) (es : List Event) → TimesFit es → IsValid w → IsValid (run w es)
unfolding run
run-IsValid w [] h v = v
run-IsValid w (e ∷ es) h v = run-IsValid (step w e) es h.1 (step-IsValid w e h.0 v)

-- After any sequence of calls at 64-bit times, starting from `init`, the deadline and the tokens
-- fit 64 bits, the next token is not zero, a token is outstanding exactly in the phases that
-- follow a ping, and while a pong is awaited the next token differs from the outstanding one.
pub run-init-IsValid :
    (now : ℕ) (es : List Event) → now ≤ uint64_max → TimesFit es → IsValid (run (init now) es)
run-init-IsValid now es h hs = run-IsValid (init now) es hs (init-IsValid now h)

abbrev pub IsExpired : Phase → Type 0
IsExpired startup_over = Unit {0}
IsExpired heartbeat_over = Unit {0}
IsExpired _ = ⊥

step_expired : (w : Watchdog) (p : Phase) (e : Event) → w.phase ≡ p → IsExpired p → step w e ≡ w
unfolding step note_ready note_pong advance
step_expired w starting e q h = elim h [ ]
step_expired w ready e q h = elim h [ ]
step_expired w awaiting_pong e q h = elim h [ ]
step_expired w startup_over (ready_seen now) q h = ground arith
step_expired w startup_over (pong token now) q h = ground arith
step_expired w startup_over (tick now) q h = ground arith
step_expired w heartbeat_over (ready_seen now) q h = ground arith
step_expired w heartbeat_over (pong token now) q h = ground arith
step_expired w heartbeat_over (tick now) q h = ground arith

-- Expiry is final: once the startup grace or the pong timeout has run out, no sequence of calls
-- changes the watchdog, so a late READY or PONG does not revive the session.
pub run_expired : (w : Watchdog) (es : List Event) → IsExpired w.phase → run w es ≡ w
unfolding run
run_expired w [] h = refl
run_expired w (e ∷ es) h = rw (step_expired w w.phase e refl h) (run_expired w es h)
