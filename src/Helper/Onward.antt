-- ===== src/Helper/Onward.antt =====
-- Whatever calls of src/privsep_helper.h follow, the generation and the last submitted serial of a
-- helper only go on.
use nix_bench.Prelude.{
  ℕ, true, false, Option, none, some, List, [], ◌∷◌, ◌==◌, if◌then◌else◌, if_cases, codes, arith,
}
use nix_bench.Privsep.{fatal_internal, Body, Output}
use nix_bench.Helper.{
  presentation, allocation, invalid_state, Helper, remember_error, stop_helper, queue_ready,
  ready_body,
}
use nix_bench.Helper.Outbound.{purge_unsent_input, consume_outbound}
use nix_bench.Helper.Session.{
  helper_suspend, suspend_purged, enter_suspension, abandon_presentation, abandoned_by,
  complete_frame, forget_abandoned, helper_resume, resume_with, resume_resized, take_output,
  HostEvent, send_input, input_body, send_ping, report_fatal, take_pong,
}
use nix_bench.Helper.Consistent.{IsConsistent, enqueue_message-SameState, remember_error-SameState}
use nix_bench.Helper.Calls.{purge-SameState, consume_outbound-SameState}
use nix_bench.Helper.Grows.{
  Grows, same-Grows, fail_helper-Grows, enqueue_or_fail-Grows, Grows-trans, helper_feed-Grows,
}
use nix_bench.Helper.Runs.{Call, call, run_calls, call-IsConsistent}

suspend_purged-Grows : (h : Helper) (ms : ℕ) → Grows h (suspend_purged h ms).0
unfolding suspend_purged enter_suspension abandon_presentation
suspend_purged-Grows h ms =
    let h' = enter_suspension h in
    let body = Body.suspend (record {
      generation = h'.generation;
      milliseconds = ms;
      abandoned_frame_serial = abandoned_by h;
    }) in
    ground (arith, enqueue_or_fail-Grows h' body false)

helper_suspend-Grows : (h : Helper) (ms : ℕ) → Grows h (helper_suspend h ms).0
unfolding helper_suspend
helper_suspend-Grows h ms =
    let q = if h.ready_sent then purge_unsent_input h else (h, true) in
    let text = codes "could not prioritize session suspension" in
    ground (
      arith,
      purge-SameState h,
      suspend_purged-Grows q.0 ms,
      fail_helper-Grows q.0 invalid_state fatal_internal 0 text,
    )

resume_with-Grows : (output : Output) (h : Helper) → Grows h (resume_with output h).0
unfolding resume_with queue_ready
resume_with-Grows output h =
    let h' : Helper = record h { output = output; staging_valid = false; suspended = false } in
    ground (arith, enqueue_or_fail-Grows h' (ready_body h'.ready_sent h') false)

resume_resized-Grows :
    (h : Helper) (output : Output) (replacement : Option (ℕ → ℕ))
    → Grows h (resume_resized h output (take_output h output replacement)).0
unfolding resume_resized take_output
resume_resized-Grows h output none =
    if_cases (λ (r : Option Helper). Grows h (resume_resized h output r).0)
      (output.frame_bytes == h.staging_size) (some h) none (λ t. resume_with-Grows output h)
      (λ t.
        fail_helper-Grows h allocation fatal_internal 0
          (codes "could not resize trusted frame staging"))
resume_resized-Grows h output (some staging) =
    let resized : Helper = record h { staging = staging; staging_size = output.frame_bytes } in
    if_cases (λ (r : Option Helper). Grows h (resume_resized h output r).0)
      (output.frame_bytes == h.staging_size) (some h) (some resized)
      (λ t. resume_with-Grows output h) (λ t. resume_with-Grows output resized)

helper_resume-Grows :
    (h : Helper) (output : Output) (replacement : Option (ℕ → ℕ))
    → Grows h (helper_resume h output replacement).0
unfolding helper_resume
helper_resume-Grows h output replacement = ground (arith, resume_resized-Grows h output replacement)

send_input-Grows : (h : Helper) (e : HostEvent) → Grows h (send_input h e).0
unfolding send_input
send_input-Grows h e = ground (arith, enqueue_or_fail-Grows h (input_body h.generation e) true)

complete_frame-Grows : (h : Helper) (g s ms : ℕ) → Grows h (complete_frame h g s ms).0
unfolding complete_frame forget_abandoned
complete_frame-Grows h g s ms =
    let body = Body.frame_complete (record { generation = g; serial = s; milliseconds = ms }) in
    ground (
      arith,
      enqueue_or_fail-Grows h body false,
      fail_helper-Grows h invalid_state fatal_internal 0
          (codes "unexpected privileged frame completion"),
      fail_helper-Grows h invalid_state fatal_internal 0
          (codes "privileged frame completion serial mismatch"),
    )

send_ping-Grows : (h : Helper) (token : ℕ) → Grows h (send_ping h token).0
unfolding send_ping
send_ping-Grows h token = ground (arith, enqueue_or_fail-Grows h (Body.ping token) false)

report_fatal-Grows :
    (h : Helper) (reason n : ℕ) (m : List ℕ) → Grows h (report_fatal h reason n m).0
unfolding report_fatal stop_helper
report_fatal-Grows h reason n m =
    let h' = remember_error h presentation n m in
    let fatal =
      Body.fatal (record { reason = reason; system_error = n; generation = h'.generation }) in
    ground
      (arith, enqueue_message-SameState h' fatal false, remember_error-SameState h presentation n m)

take_pong-Grows : (h : Helper) → Grows h (take_pong h).0
unfolding take_pong
take_pong-Grows h = ground arith

call-Grows : (h : Helper) (c : Call) → IsConsistent h → Grows h (call h c)
unfolding call
call-Grows h (Call.feed bytes) v = helper_feed-Grows h bytes v
call-Grows h (Call.consume size) v =
    same-Grows h (consume_outbound h size).0 (consume_outbound-SameState h size)
call-Grows h (Call.suspend ms) v = helper_suspend-Grows h ms
call-Grows h (Call.resume output replacement) v = helper_resume-Grows h output replacement
call-Grows h (Call.input event) v = send_input-Grows h event
call-Grows h (Call.complete g s ms) v = complete_frame-Grows h g s ms
call-Grows h (Call.ping token) v = send_ping-Grows h token
call-Grows h (Call.fatal reason n message) v = report_fatal-Grows h reason n message
call-Grows h Call.take v = take_pong-Grows h

pub run_calls-Grows : (h : Helper) (cs : List Call) → IsConsistent h → Grows h (run_calls h cs)
unfolding run_calls
run_calls-Grows h [] v = ground arith
run_calls-Grows h (c ∷ cs) v =
    let h' = call h c in
    Grows-trans h h' (run_calls h' cs) (call-Grows h c v)
      (run_calls-Grows h' cs (call-IsConsistent h c v))
