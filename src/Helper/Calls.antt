-- ===== src/Helper/Calls.antt =====
-- The calls of src/privsep_helper.h for the device keep the helper consistent.
use nix_bench.Prelude.{
  ℕ, zero, suc, ◌-◌, ◌≡◌, refl, Bool, true, false, not, ◌&&◌, ◌||◌, Option, none, some, List, ltb,
  leb, ◌==◌, if◌then◌else◌, if_cases, codes, arith,
}
use nix_bench.Privsep.{fatal_internal, Body}
use nix_bench.Helper.{
  presentation, invalid_state, Helper, enqueue_or_fail, enqueue_message, remember_error,
  fail_helper,
}
use nix_bench.Helper.Outbound.{
  purge_unsent_input, purge_store, purge_loop, purge_start, Purge, consume_outbound,
  consume_records, use_record, drop_front_bytes,
}
use nix_bench.Helper.Session.{
  helper_suspend, suspend_purged, enter_suspension, abandon_presentation, abandoned_by,
  complete_frame, forget_abandoned, HostEvent, send_input, input_body, send_ping, report_fatal,
  take_pong,
}
use nix_bench.Helper.Consistent.{
  IsConsistent, SameState, same-IsConsistent, stop_helper-IsConsistent, fail_helper-IsConsistent,
  enqueue_or_fail-IsConsistent, enqueue_message-SameState, remember_error-SameState,
}

purge_store-SameState : (h : Helper) (p : Option Purge) → SameState h (purge_store h p).0
unfolding purge_store
purge_store-SameState h none = ground arith
purge_store-SameState h (some p) = ground arith

pub purge-SameState : (h : Helper) → SameState h (purge_unsent_input h).0
unfolding purge_unsent_input
purge-SameState h =
    let p = purge_loop h.outbound_record_count h 0 (purge_start h) in
    ground (arith, purge_store-SameState h p)

enter_suspension-IsConsistent : (h : Helper) → IsConsistent h → IsConsistent (enter_suspension h)
unfolding enter_suspension abandon_presentation
enter_suspension-IsConsistent h v = record {
  open_frame = ground (arith, v.open_frame);
  shown = λ o. ground arith;
  one_ping = ground (arith, v.one_ping);
  greeting = ground (arith, v.greeting);
}

pub helper_suspend-IsConsistent :
    (h : Helper) (ms : ℕ) → IsConsistent h → IsConsistent (helper_suspend h ms).0
unfolding helper_suspend suspend_purged
helper_suspend-IsConsistent h ms v =
    let q = if h.ready_sent then purge_unsent_input h else (h, true) in
    let v' = same-IsConsistent h q.0 v (ground (arith, purge-SameState h)) in
    let s = enter_suspension-IsConsistent q.0 v' in
    let text = codes "could not prioritize session suspension" in
    let body = Body.suspend (record {
      generation = (enter_suspension q.0).generation;
      milliseconds = ms;
      abandoned_frame_serial = abandoned_by q.0;
    }) in
    ground (
      arith,
      v,
      s,
      fail_helper-IsConsistent q.0 invalid_state fatal_internal 0 text v',
      enqueue_or_fail-IsConsistent (enter_suspension q.0) body false s,
    )

completed-IsConsistent :
    (h : Helper) → IsConsistent h → IsConsistent (record h { presentation_pending = false })
completed-IsConsistent h v = record {
  open_frame = λ o. let f = v.open_frame o in (f.0, f.1, f.2, refl, f.4, f.5, f.6, f.7);
  shown = λ o. cc;
  one_ping = v.one_ping;
  greeting = v.greeting;
}

forget_abandoned-IsConsistent :
    (h : Helper) (g s : ℕ) → IsConsistent h → IsConsistent (forget_abandoned h g s)
unfolding forget_abandoned
forget_abandoned-IsConsistent h g s v = same-IsConsistent h _ v (ground arith)

abbrev pub Consists : Helper × Bool → Type 0
Consists r = IsConsistent r.0

pub complete_frame-IsConsistent :
    (h : Helper) (g s ms : ℕ) → IsConsistent h → IsConsistent (complete_frame h g s ms).0
unfolding complete_frame
complete_frame-IsConsistent h g s ms v =
    let body = Body.frame_complete (record { generation = g; serial = s; milliseconds = ms }) in
    let q = enqueue_or_fail h body false in
    let known = (enqueue_or_fail-IsConsistent h body false v).0 in
    let unexpected = codes "unexpected privileged frame completion" in
    let mismatch = codes "privileged frame completion serial mismatch" in
    let fails = λ (m : List ℕ). fail_helper h invalid_state fatal_internal 0 m in
    let kept = λ (m : List ℕ). fail_helper-IsConsistent h invalid_state fatal_internal 0 m v in
    let differs = not (g == h.presentation_generation) || not (s == h.presentation_serial) in
    let completed : Helper = record (q.0) { presentation_pending = false } in
    let sent = if not q.1 then (q.0, false) else (completed, true) in
    let matched = if differs then fails mismatch else sent in
    let current = if not h.presentation_pending then fails unexpected else matched in
    let late : Helper × Bool = (forget_abandoned h g s, true) in
    let old = ltb g h.generation && not (s == 0) && leb s h.last_submitted_serial in
    if_cases Consists (h.failed || h.shutdown_requested) (h, false) (if old then late else current)
      (λ t. v)
      (λ t.
        if_cases Consists old late current (λ t. forget_abandoned-IsConsistent h g s v)
          (λ t.
            if_cases Consists (not h.presentation_pending) (fails unexpected) matched
              (λ t. kept unexpected)
              (λ t.
                if_cases Consists differs (fails mismatch) sent (λ t. kept mismatch)
                  (λ t.
                    if_cases Consists (not q.1) (q.0, false) (completed, true) (λ t. known)
                      (λ t. completed-IsConsistent q.0 known)))))

pub send_input-IsConsistent :
    (h : Helper) (e : HostEvent) → IsConsistent h → IsConsistent (send_input h e).0
unfolding send_input
send_input-IsConsistent h e v =
    let body = input_body h.generation e in
    ground (arith, v, (enqueue_or_fail-IsConsistent h body true v).0)

pub report_fatal-IsConsistent :
    (h : Helper) (reason n : ℕ) (m : List ℕ)
    → IsConsistent h
    → IsConsistent (report_fatal h reason n m).0
unfolding report_fatal
report_fatal-IsConsistent h reason n m v =
    let h' = remember_error h presentation n m in
    let fatal =
      Body.fatal (record { reason = reason; system_error = n; generation = h'.generation }) in
    let q = (enqueue_message h' fatal false).0 in
    let known = same-IsConsistent h h' v (remember_error-SameState h presentation n m) in
    let queued = same-IsConsistent h' q known (enqueue_message-SameState h' fatal false) in
    ground (arith, v, stop_helper-IsConsistent q queued)

-- A ping waits for the pong of the one before to be taken.
pinged-IsConsistent :
    (h : Helper) (token : ℕ)
    → IsConsistent h
    → h.pong_available ≡ false
    → IsConsistent (record h { ping_outstanding = true; ping_token = token })
pinged-IsConsistent h token v e = record {
  open_frame = v.open_frame;
  shown = v.shown;
  one_ping = λ o. e;
  greeting = v.greeting;
}

pub send_ping-IsConsistent :
    (h : Helper) (token : ℕ) → IsConsistent h → IsConsistent (send_ping h token).0
unfolding send_ping
send_ping-IsConsistent h token v =
    let q = enqueue_or_fail h (Body.ping token) false in
    let known = enqueue_or_fail-IsConsistent h (Body.ping token) false v in
    let barred =
      h.failed
      || h.shutdown_requested
      || not h.ready_sent
      || h.ping_outstanding
      || h.pong_available
      || token == 0 in
    let pinged : Helper = record (q.0) { ping_outstanding = true; ping_token = token } in
    if_cases Consists barred (h, false) (if not q.1 then (q.0, false) else (pinged, true)) (λ t. v)
      (λ t.
        if_cases Consists (not q.1) (q.0, false) (pinged, true) (λ e. known.0)
          (λ e. pinged-IsConsistent q.0 token known.0 (ground (arith, known.1))))

pub take_pong-IsConsistent : (h : Helper) → IsConsistent h → IsConsistent (take_pong h).0
unfolding take_pong
take_pong-IsConsistent h v =
    let h' : Helper = record h { pong_available = false } in
    if_cases (λ (r : Helper × Option ℕ). IsConsistent r.0) (not h.pong_available) (h, none)
      (h', some h.pong_token) (λ t. v)
      (λ t. record {
        open_frame = v.open_frame;
        shown = v.shown;
        one_ping = λ o. refl;
        greeting = v.greeting;
      })

use_record-SameState : (h : Helper) (n : ℕ) → SameState h (use_record h n)
unfolding use_record
use_record-SameState h n = ground arith

consume_records-SameState :
    (left : ℕ) (h : Helper) (n : ℕ) → SameState h (consume_records left h n).0
unfolding consume_records
consume_records-SameState zero h n = ground arith
consume_records-SameState (suc left) h n =
    let r = h.outbound_records h.outbound_record_head in
    let amount = if ltb n r.remaining then n else r.remaining in
    let h' = use_record h amount in
    ground (arith, use_record-SameState h amount, consume_records-SameState left h' (n - amount))

pub consume_outbound-SameState : (h : Helper) (n : ℕ) → SameState h (consume_outbound h n).0
unfolding consume_outbound drop_front_bytes
consume_outbound-SameState h n =
    ground (arith, consume_records-SameState h.outbound_record_count h n)
