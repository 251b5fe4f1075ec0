-- ===== src/Helper/Runs.antt =====
-- Runs of the calls of src/privsep_helper.h, from the creation of the helper on.
use nix_bench.Prelude.{
  ℕ, ◌≡◌, refl, Bool, true, false, not, Option, none, some, List, [], ◌∷◌, ◌==◌, if◌then◌else◌,
  if_cases, codes, arith,
}
use nix_bench.Privsep.{fatal_internal, Output, Credentials}
use nix_bench.Helper.{
  allocation, Helper, HostFrame, helper_create, queue_ready, ready_body, enqueue_or_fail,
}
use nix_bench.Helper.Outbound.{consume_outbound}
use nix_bench.Helper.Messages.{helper_feed}
use nix_bench.Helper.Session.{
  helper_suspend, complete_frame, helper_resume, resume_with, resume_resized, take_output,
  HostEvent, send_input, send_ping, report_fatal, take_pong,
}
use nix_bench.Helper.Consistent.{
  IsConsistent, same-IsConsistent, idle-IsConsistent, fail_helper-IsConsistent,
  enqueue_or_fail-IsConsistent,
}
use nix_bench.Helper.Dispatch.{ready-IsConsistent, helper_feed-IsConsistent}
use nix_bench.Helper.Calls.{
  Consists, helper_suspend-IsConsistent, complete_frame-IsConsistent, send_input-IsConsistent,
  send_ping-IsConsistent, report_fatal-IsConsistent, take_pong-IsConsistent,
  consume_outbound-SameState,
}

resumed-IsConsistent :
    (h : Helper) (output : Output)
    → IsConsistent h
    → IsConsistent (record h { output = output; staging_valid = false; suspended = false })
resumed-IsConsistent h output v = record {
  open_frame =
      λ o. let f = v.open_frame o in (f.0, f.1, f.2, f.3, f.4, f.5, λ s. ((f.6 s).0, refl), f.7);
  shown = λ o. let f = v.shown o in (f.0, f.1, refl, f.3, f.4, f.5);
  one_ping = v.one_ping;
  greeting = v.greeting;
}

resume_with-IsConsistent :
    (output : Output) (h : Helper) → IsConsistent h → IsConsistent (resume_with output h).0
unfolding resume_with queue_ready
resume_with-IsConsistent output h v =
    let h' : Helper = record h { output = output; staging_valid = false; suspended = false } in
    let v' = resumed-IsConsistent h output v in
    let q = enqueue_or_fail h' (ready_body h'.ready_sent h') false in
    let known = enqueue_or_fail-IsConsistent h' (ready_body h'.ready_sent h') false v' in
    let answered : Helper = record (q.0) { ready_sent = true } in
    if_cases Consists (not h.hello_received) (h', true)
      (if not q.1 then (q.0, false) else (answered, true)) (λ t. v')
      (λ t.
        if_cases Consists (not q.1) (q.0, false) (answered, true) (λ e. known.0)
          (λ e. ready-IsConsistent q.0 known.0 (ground (arith, known.1))))

resume_resized-IsConsistent :
    (h : Helper) (output : Output) (replacement : Option (ℕ → ℕ))
    → IsConsistent h
    → IsConsistent (resume_resized h output (take_output h output replacement)).0
unfolding resume_resized take_output
resume_resized-IsConsistent h output none v =
    if_cases (λ (r : Option Helper). IsConsistent (resume_resized h output r).0)
      (output.frame_bytes == h.staging_size) (some h) none
      (λ t. resume_with-IsConsistent output h v)
      (λ t.
        fail_helper-IsConsistent h allocation fatal_internal 0
          (codes "could not resize trusted frame staging") v)
resume_resized-IsConsistent h output (some staging) v =
    let resized : Helper = record h { staging = staging; staging_size = output.frame_bytes } in
    if_cases (λ (r : Option Helper). IsConsistent (resume_resized h output r).0)
      (output.frame_bytes == h.staging_size) (some h) (some resized)
      (λ t. resume_with-IsConsistent output h v)
      (λ t. resume_with-IsConsistent output resized (same-IsConsistent h resized v (ground arith)))

helper_resume-IsConsistent :
    (h : Helper) (output : Output) (replacement : Option (ℕ → ℕ))
    → IsConsistent h
    → IsConsistent (helper_resume h output replacement).0
unfolding helper_resume
helper_resume-IsConsistent h output replacement v =
    ground (arith, v, resume_resized-IsConsistent h output replacement v)

-- The calls that change a helper.
pub data Call : Type 0 where
  feed : (bytes : List ℕ) → Call
  consume : (size : ℕ) → Call
  suspend : (milliseconds : ℕ) → Call
  resume : (output : Output) → (replacement : Option (ℕ → ℕ)) → Call
  input : (event : HostEvent) → Call
  complete : (generation serial milliseconds : ℕ) → Call
  ping : (token : ℕ) → Call
  fatal : (reason system_error : ℕ) → (message : List ℕ) → Call
  take : Call

unfoldable pub call : Helper → Call → Helper
call h (feed bytes) = (helper_feed h bytes).helper
call h (consume size) = (consume_outbound h size).0
call h (suspend milliseconds) = (helper_suspend h milliseconds).0
call h (resume output replacement) = (helper_resume h output replacement).0
call h (input event) = (send_input h event).0
call h (complete generation serial milliseconds) =
    (complete_frame h generation serial milliseconds).0
call h (ping token) = (send_ping h token).0
call h (fatal reason system_error message) = (report_fatal h reason system_error message).0
call h take = (take_pong h).0

unfoldable pub run_calls : Helper → List Call → Helper
run_calls h [] = h
run_calls h (c ∷ cs) = run_calls (call h c) cs

pub call-IsConsistent : (h : Helper) (c : Call) → IsConsistent h → IsConsistent (call h c)
unfolding call
call-IsConsistent h (feed bytes) v = helper_feed-IsConsistent h bytes v
call-IsConsistent h (consume size) v = same-IsConsistent h _ v (consume_outbound-SameState h size)
call-IsConsistent h (suspend ms) v = helper_suspend-IsConsistent h ms v
call-IsConsistent h (resume output replacement) v =
    helper_resume-IsConsistent h output replacement v
call-IsConsistent h (input event) v = send_input-IsConsistent h event v
call-IsConsistent h (complete g s ms) v = complete_frame-IsConsistent h g s ms v
call-IsConsistent h (ping token) v = send_ping-IsConsistent h token v
call-IsConsistent h (fatal reason n message) v = report_fatal-IsConsistent h reason n message v
call-IsConsistent h take v = take_pong-IsConsistent h v

pub run_calls_keeps : (h : Helper) (cs : List Call) → IsConsistent h → IsConsistent (run_calls h cs)
unfolding run_calls
run_calls_keeps h [] v = v
run_calls_keeps h (c ∷ cs) v = run_calls_keeps (call h c) cs (call-IsConsistent h c v)

helper_create-IsConsistent :
    (expected : Credentials) (output : Output) (present : ℕ → HostFrame → Bool) (staging : ℕ → ℕ)
    (h : Helper)
    → helper_create expected output present staging ≡ some h
    → IsConsistent h
unfolding helper_create
helper_create-IsConsistent expected output present staging h e =
    idle-IsConsistent h (ground arith) (ground arith) (λ x. ground arith) (λ x. ground arith)

-- Whatever calls a new helper gets, in any order and with any bytes of the core, it is consistent: a
-- frame is open or shown only while the session lives, never two at a time, an open frame has a serial
-- above all that were submitted and no more bytes than declared, the shown frame is the last one
-- submitted, nothing is shown in a suspension, and at most one heartbeat is under way.
pub run_calls-IsConsistent :
    (expected : Credentials) (output : Output) (present : ℕ → HostFrame → Bool) (staging : ℕ → ℕ)
    (h : Helper) (cs : List Call)
    → helper_create expected output present staging ≡ some h
    → IsConsistent (run_calls h cs)
run_calls-IsConsistent expected output present staging h cs e =
    run_calls_keeps h cs (helper_create-IsConsistent expected output present staging h e)
