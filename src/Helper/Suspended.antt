-- ===== src/Helper/Suspended.antt =====
-- What `nb_privsep_helper_suspend` of src/privsep_helper.c leaves.
use nix_bench.Prelude.{
  ℕ, ◌+◌, ◌-◌, ◌^◌, ◌≡◌, Bool, true, false, not, ◌||◌, Option, none, some, List, ◌==◌,
  if◌then◌else◌, if_cases, codes, arith,
}
use nix_bench.Privsep.{fatal_internal, Body, Endpoint}
use nix_bench.Privsep.Stream.{message_encode}
use nix_bench.Helper.{
  invalid_state, HelperError, outbound_full, fatal_core_unresponsive, remember_error, Helper,
  put_wire, enqueue_wire, enqueue_message, enqueue_or_fail, fail_helper, stop_helper,
  max_outbound_message,
}
use nix_bench.Helper.Outbound.{purge_unsent_input, purge_store, purge_loop, purge_start, Purge}
use nix_bench.Helper.Session.{
  helper_suspend, suspend_purged, enter_suspension, abandon_presentation, abandoned_by,
}

-- The fields of the session and its frames, which the queue of outbound bytes does not touch.
abbrev SameSession : Helper → Helper → Type 0
SameSession h h' =
    (h'.failed ≡ h.failed)
    × (h'.shutdown_requested ≡ h.shutdown_requested)
    × (h'.generation ≡ h.generation)
    × (h'.last_submitted_serial ≡ h.last_submitted_serial)
    × (h'.presentation_pending ≡ h.presentation_pending)
    × (h'.presentation_generation ≡ h.presentation_generation)
    × (h'.presentation_serial ≡ h.presentation_serial)
    × (h'.abandoned_generation ≡ h.abandoned_generation)
    × (h'.abandoned_serial ≡ h.abandoned_serial)
    × (h'.frame_open ≡ h.frame_open)
    × (h'.frame_stale ≡ h.frame_stale)
    × (h'.frame_generation ≡ h.frame_generation)
    × (h'.frame_serial ≡ h.frame_serial)
    × (h'.suspended ≡ h.suspended)

enqueue_wire-SameSession :
    (h : Helper) (input : Bool) (w : Option (List ℕ)) → SameSession h (enqueue_wire h input w).0
unfolding enqueue_wire put_wire
enqueue_wire-SameSession h input none = ground arith
enqueue_wire-SameSession h input (some wire) = ground arith

enqueue_message-SameSession :
    (h : Helper) (body : Body) (input : Bool) → SameSession h (enqueue_message h body input).0
unfolding enqueue_message
enqueue_message-SameSession h body input =
    let w = message_encode Endpoint.helper h.next_outbound_sequence body max_outbound_message in
    ground (arith, enqueue_wire-SameSession h input w)

purge_store-SameSession : (h : Helper) (p : Option Purge) → SameSession h (purge_store h p).0
unfolding purge_store
purge_store-SameSession h none = ground arith
purge_store-SameSession h (some p) = ground arith

purge-SameSession : (h : Helper) → SameSession h (purge_unsent_input h).0
unfolding purge_unsent_input
purge-SameSession h =
    let p = purge_loop h.outbound_record_count h 0 (purge_start h) in
    ground (arith, purge_store-SameSession h p)

remember_error-SameSession :
    (h : Helper) (e : HelperError) (n : ℕ) (m : List ℕ) → SameSession h (remember_error h e n m)
unfolding remember_error
remember_error-SameSession h e n m = ground arith

-- What a failure leaves: no frame is open or shown, and the serials stay.
abbrev pub Fails : Helper → Helper × Bool → Type 0
Fails h r =
    (r.1 ≡ false)
    × (r.0.last_submitted_serial ≡ h.last_submitted_serial)
    × (h.presentation_pending ≡ false → r.0.presentation_pending ≡ false)

pub fail_helper-Fails :
    (h : Helper) (e : HelperError) (reason n : ℕ) (m : List ℕ)
    → Fails h (fail_helper h e reason n m)
unfolding fail_helper stop_helper
fail_helper-Fails h e reason n m =
    let h' = remember_error h e n m in
    let fatal =
      Body.fatal (record { reason = reason; system_error = n; generation = h'.generation }) in
    ground (arith, enqueue_message-SameSession h' fatal false, remember_error-SameSession h e n m)

-- A queue that refuses a message makes the helper fail, so the answer true means that it was queued.
enqueue_or_fail-SameSession :
    (h : Helper) (body : Body) (input : Bool)
    → (enqueue_or_fail h body input).1 ≡ true
    → SameSession h (enqueue_or_fail h body input).0
unfolding enqueue_or_fail
enqueue_or_fail-SameSession h body input t =
    let q = enqueue_message h body input in
    let text = codes "privsep helper outbound queue is full" in
    if_cases (λ (r : Helper × Bool). r.1 ≡ true → SameSession h r.0) q.1 (q.0, true)
      (fail_helper q.0 outbound_full fatal_core_unresponsive 0 text)
      (λ e t'. enqueue_message-SameSession h body input)
      (λ e t'. cc (t', (fail_helper-Fails q.0 outbound_full fatal_core_unresponsive 0 text).0)) t

-- The helper as a suspension leaves it, but for the queue.
suspend_purged-SameSession :
    (h : Helper) (ms : ℕ)
    → (suspend_purged h ms).1 ≡ true
    → SameSession (enter_suspension h) (suspend_purged h ms).0
unfolding suspend_purged
suspend_purged-SameSession h ms t =
    let h' = enter_suspension h in
    let body = Body.suspend (record {
      generation = h'.generation;
      milliseconds = ms;
      abandoned_frame_serial = abandoned_by h;
    }) in
    if_cases (λ (r : Helper × Bool). r.1 ≡ true → SameSession h' r.0) (not h'.ready_sent) (h', true)
      (enqueue_or_fail h' body false) (λ e t'. ground arith)
      (λ e t'. enqueue_or_fail-SameSession h' body false t') t

-- What a suspension that answers true does: a shown frame is abandoned, an open one is stale, and the
-- next generation begins.
pub record IsSuspended (h h' : Helper) : Type 0 where
  pub alive : h'.failed ≡ false
  pub running : h'.shutdown_requested ≡ false
  pub next_generation : h'.generation ≡ h.generation + 1
  pub same_serial : h'.last_submitted_serial ≡ h.last_submitted_serial
  pub not_pending : h'.presentation_pending ≡ false
  pub stale : h'.frame_open ≡ true → h'.frame_stale ≡ true
  pub abandoned :
      h.presentation_pending ≡ true
      → (h'.abandoned_generation ≡ h.presentation_generation)
        × (h'.abandoned_serial ≡ h.presentation_serial)

enter_suspension-IsSuspended :
    (h p r : Helper)
    → h.failed ≡ false
    → h.shutdown_requested ≡ false
    → SameSession h p
    → SameSession (enter_suspension p) r
    → IsSuspended h r
unfolding enter_suspension abandon_presentation
enter_suspension-IsSuspended h p r f d s q = record {
  alive = ground arith;
  running = ground arith;
  next_generation = ground arith;
  same_serial = ground arith;
  not_pending = ground arith;
  stale = ground arith;
  abandoned = ground arith;
}

pub helper_suspend-IsSuspended :
    (h : Helper) (ms : ℕ) → (helper_suspend h ms).1 ≡ true → IsSuspended h (helper_suspend h ms).0
unfolding helper_suspend
helper_suspend-IsSuspended h ms t =
    let q = if h.ready_sent then purge_unsent_input h else (h, true) in
    let kept : SameSession h q.0 = ground (arith, purge-SameSession h) in
    let barred = h.failed || h.shutdown_requested || h.suspended || h.generation == 2 ^ 64 - 1 in
    let text = codes "could not prioritize session suspension" in
    let failure = fail_helper q.0 invalid_state fatal_internal 0 text in
    if_cases (λ (r : Helper × Bool). r.1 ≡ true → IsSuspended h r.0) barred (h, false)
      (if not q.1 then failure else suspend_purged q.0 ms) (λ e t'. cc)
      (λ e.
        if_cases (λ (r : Helper × Bool). r.1 ≡ true → IsSuspended h r.0) (not q.1) failure
          (suspend_purged q.0 ms)
          (λ e' t'. cc (t', (fail_helper-Fails q.0 invalid_state fatal_internal 0 text).0))
          (λ e' t'.
            enter_suspension-IsSuspended h q.0 (suspend_purged q.0 ms).0 (ground arith)
              (ground arith) kept (suspend_purged-SameSession q.0 ms t')))
      t
