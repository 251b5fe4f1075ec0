-- ===== src/Helper/Parsing.antt =====
-- The parser of src/privsep_helper.c in the runs of any calls.
use nix_bench.Prelude.{
  ℕ, zero, suc, ◌-◌, ◌≡◌, refl, sym, Bool, true, false, Option, none, some, List, [], ◌∷◌, length,
  ltb, ◌==◌, if◌then◌else◌, if_cases, if_true, codes, arith, Bool-cases, inl, inr,
}
use mathlib.Core.Path.{subst}
use nix_bench.Privsep.{fatal_internal, Body, Output, Credentials, core}
use nix_bench.Privsep.Stream.Sound.{IsSound, parser_init-IsSound}
use nix_bench.Helper.{
  presentation, invalid_state, allocation, Helper, HostFrame, helper_create, stop_helper,
  remember_error, queue_ready, ready_body,
}
use nix_bench.Helper.Outbound.{
  purge_unsent_input, purge_store, purge_loop, purge_start, Purge, consume_outbound,
  consume_records, use_record, drop_front_bytes,
}
use nix_bench.Helper.Messages.{helper_feed}
use nix_bench.Helper.Session.{
  helper_suspend, suspend_purged, enter_suspension, abandon_presentation, abandoned_by,
  complete_frame, forget_abandoned, helper_resume, resume_with, resume_resized, take_output,
  HostEvent, send_input, input_body, send_ping, report_fatal, take_pong,
}
use nix_bench.Helper.Keeps.{
  Keeps, enqueue_message-Keeps, enqueue_or_fail-Keeps, fail_helper-Keeps, remember_error-Keeps,
}
use nix_bench.Helper.Loops.{Finishes, helper_feed-Finishes}
use nix_bench.Helper.Runs.{
  Call, feed, consume, suspend, resume, input, complete, ping, fatal, take, call, run_calls,
}

purge_store-Keeps : (h : Helper) (p : Option Purge) → Keeps h.parser (purge_store h p)
unfolding purge_store
purge_store-Keeps h none = refl
purge_store-Keeps h (some p) = refl

purge-Keeps : (h : Helper) → Keeps h.parser (purge_unsent_input h)
unfolding purge_unsent_input
purge-Keeps h =
    ground (arith, purge_store-Keeps h (purge_loop h.outbound_record_count h 0 (purge_start h)))

suspend_purged-Keeps : (h : Helper) (ms : ℕ) → Keeps h.parser (suspend_purged h ms)
unfolding suspend_purged enter_suspension abandon_presentation
suspend_purged-Keeps h ms =
    let h' = enter_suspension h in
    let body = Body.suspend (record {
      generation = h'.generation;
      milliseconds = ms;
      abandoned_frame_serial = abandoned_by h;
    }) in
    ground (arith, enqueue_or_fail-Keeps h' body false)

helper_suspend-Keeps : (h : Helper) (ms : ℕ) → Keeps h.parser (helper_suspend h ms)
unfolding helper_suspend
helper_suspend-Keeps h ms =
    let q = if h.ready_sent then purge_unsent_input h else (h, true) in
    let text = codes "could not prioritize session suspension" in
    ground (
      arith,
      purge-Keeps h,
      suspend_purged-Keeps q.0 ms,
      fail_helper-Keeps q.0 invalid_state fatal_internal 0 text,
    )

resume_with-Keeps : (output : Output) (h : Helper) → Keeps h.parser (resume_with output h)
unfolding resume_with queue_ready
resume_with-Keeps output h =
    let h' : Helper = record h { output = output; staging_valid = false; suspended = false } in
    ground (arith, enqueue_or_fail-Keeps h' (ready_body h'.ready_sent h') false)

resume_resized-Keeps :
    (h : Helper) (output : Output) (replacement : Option (ℕ → ℕ))
    → Keeps h.parser (resume_resized h output (take_output h output replacement))
unfolding resume_resized take_output
resume_resized-Keeps h output none =
    if_cases (λ (r : Option Helper). Keeps h.parser (resume_resized h output r))
      (output.frame_bytes == h.staging_size) (some h) none (λ t. resume_with-Keeps output h)
      (λ t.
        fail_helper-Keeps h allocation fatal_internal 0
          (codes "could not resize trusted frame staging"))
resume_resized-Keeps h output (some staging) =
    let resized : Helper = record h { staging = staging; staging_size = output.frame_bytes } in
    if_cases (λ (r : Option Helper). Keeps h.parser (resume_resized h output r))
      (output.frame_bytes == h.staging_size) (some h) (some resized)
      (λ t. resume_with-Keeps output h) (λ t. resume_with-Keeps output resized)

helper_resume-Keeps :
    (h : Helper) (output : Output) (replacement : Option (ℕ → ℕ))
    → Keeps h.parser (helper_resume h output replacement)
unfolding helper_resume
helper_resume-Keeps h output replacement = ground (arith, resume_resized-Keeps h output replacement)

send_input-Keeps : (h : Helper) (e : HostEvent) → Keeps h.parser (send_input h e)
unfolding send_input
send_input-Keeps h e = ground (arith, enqueue_or_fail-Keeps h (input_body h.generation e) true)

complete_frame-Keeps : (h : Helper) (g s ms : ℕ) → Keeps h.parser (complete_frame h g s ms)
unfolding complete_frame forget_abandoned
complete_frame-Keeps h g s ms =
    let body = Body.frame_complete (record { generation = g; serial = s; milliseconds = ms }) in
    ground (
      arith,
      enqueue_or_fail-Keeps h body false,
      fail_helper-Keeps h invalid_state fatal_internal 0
          (codes "unexpected privileged frame completion"),
      fail_helper-Keeps h invalid_state fatal_internal 0
          (codes "privileged frame completion serial mismatch"),
    )

send_ping-Keeps : (h : Helper) (token : ℕ) → Keeps h.parser (send_ping h token)
unfolding send_ping
send_ping-Keeps h token = ground (arith, enqueue_or_fail-Keeps h (Body.ping token) false)

report_fatal-Keeps :
    (h : Helper) (reason n : ℕ) (m : List ℕ) → Keeps h.parser (report_fatal h reason n m)
unfolding report_fatal stop_helper
report_fatal-Keeps h reason n m =
    let h' = remember_error h presentation n m in
    let fatal =
      Body.fatal (record { reason = reason; system_error = n; generation = h'.generation }) in
    ground (arith, enqueue_message-Keeps h' fatal false, remember_error-Keeps h presentation n m)

take_pong_keeps : (h : Helper) → (take_pong h).0.parser ≡ h.parser
unfolding take_pong
take_pong_keeps h = ground arith

consume_records-Keeps : (left : ℕ) (h : Helper) (n : ℕ) → Keeps h.parser (consume_records left h n)
unfolding consume_records use_record
consume_records-Keeps zero h n = refl
consume_records-Keeps (suc left) h n =
    let r = h.outbound_records h.outbound_record_head in
    let amount = if ltb n r.remaining then n else r.remaining in
    ground (arith, consume_records-Keeps left (use_record h amount) (n - amount))

consume_outbound-Keeps : (h : Helper) (n : ℕ) → Keeps h.parser (consume_outbound h n)
unfolding consume_outbound drop_front_bytes
consume_outbound-Keeps h n = ground (arith, consume_records-Keeps h.outbound_record_count h n)

helper_feed-IsSound :
    (h : Helper) (bytes : List ℕ) → IsSound h.parser → IsSound (helper_feed h bytes).helper.parser
helper_feed-IsSound h bytes v = elim (Bool-cases h.failed) [
  | inl f ↦ unfold helper_feed in rw (if_true _ _ f) v
  | inr f ↦ (helper_feed-Finishes h bytes v f).parser_sound
]

call-IsSound : (h : Helper) (c : Call) → IsSound h.parser → IsSound (call h c).parser
unfolding call
call-IsSound h (feed bytes) v = helper_feed-IsSound h bytes v
call-IsSound h (consume size) v = subst IsSound (sym (consume_outbound-Keeps h size)) v
call-IsSound h (suspend ms) v = subst IsSound (sym (helper_suspend-Keeps h ms)) v
call-IsSound h (resume output replacement) v =
    subst IsSound (sym (helper_resume-Keeps h output replacement)) v
call-IsSound h (input event) v = subst IsSound (sym (send_input-Keeps h event)) v
call-IsSound h (complete g s ms) v = subst IsSound (sym (complete_frame-Keeps h g s ms)) v
call-IsSound h (ping token) v = subst IsSound (sym (send_ping-Keeps h token)) v
call-IsSound h (fatal reason n message) v =
    subst IsSound (sym (report_fatal-Keeps h reason n message)) v
call-IsSound h take v = subst IsSound (sym (take_pong_keeps h)) v

run_calls-IsSound :
    (h : Helper) (cs : List Call) → IsSound h.parser → IsSound (run_calls h cs).parser
unfolding run_calls
run_calls-IsSound h [] v = v
run_calls-IsSound h (c ∷ cs) v = run_calls-IsSound (call h c) cs (call-IsSound h c v)

helper_create-IsSound :
    (expected : Credentials) (output : Output) (present : ℕ → HostFrame → Bool) (staging : ℕ → ℕ)
    (h : Helper)
    → helper_create expected output present staging ≡ some h
    → IsSound h.parser
unfolding helper_create
helper_create-IsSound expected output present staging h e =
    subst IsSound (ground (arith, e)) (parser_init-IsSound core)

-- In whatever state calls have left a helper, feeding it any bytes ends by itself, unless it has
-- failed and takes none: the loop makes at most one round for each byte. It takes all the bytes when
-- it answers true and never more than there are, and it leaves the parser sound.
pub helper_feed-run_calls :
    (expected : Credentials) (output : Output) (present : ℕ → HostFrame → Bool) (staging : ℕ → ℕ)
    (h : Helper) (cs : List Call) (bytes : List ℕ)
    → helper_create expected output present staging ≡ some h
    → (run_calls h cs).failed ≡ false
    → Finishes (length bytes) (helper_feed (run_calls h cs) bytes)
helper_feed-run_calls expected output present staging h cs bytes e f =
    helper_feed-Finishes (run_calls h cs) bytes
      (run_calls-IsSound h cs (helper_create-IsSound expected output present staging h e)) f
