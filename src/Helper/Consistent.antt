-- ===== src/Helper/Consistent.antt =====
-- The state of src/privsep_helper.c apart from its queue and its parser: what holds of the frame, the
-- presentation and the heartbeat between calls, and the parts of the code that keep it.
use nix_bench.Prelude.{
  ℕ, ◌≤◌, ◌<◌, ◌≡◌, ◌∙◌, refl, Bool, true, false, Option, none, some, List, if_cases, codes, arith,
}
use nix_bench.Privsep.{fatal_protocol, Body, Endpoint}
use nix_bench.Privsep.Stream.{message_encode}
use nix_bench.Helper.{
  protocol, HelperError, outbound_full, fatal_core_unresponsive, remember_error, Helper, put_wire,
  enqueue_wire, enqueue_message, enqueue_or_fail, fail_helper, stop_helper, max_outbound_message,
}
use nix_bench.Helper.Frames.{refuse}

-- A frame is open only in a running session that shows none. Its serial is new, its bytes fit, and it
-- belongs to the current generation, or, if it is stale, to one that is not later.
abbrev pub OpenFrame : Helper → Type 0
OpenFrame h =
    (h.ready_sent ≡ true)
    × (h.failed ≡ false)
    × (h.shutdown_requested ≡ false)
    × (h.presentation_pending ≡ false)
    × (h.frame_received ≤ h.frame_expected)
    × (h.last_submitted_serial < h.frame_serial)
    × (h.frame_stale ≡ false → (h.frame_generation ≡ h.generation) × (h.suspended ≡ false))
    × (h.frame_generation ≤ h.generation)

-- A frame is shown only in a running session that is not suspended; it is the last one submitted, of
-- the current generation, and its serial is not zero.
abbrev pub Shown : Helper → Type 0
Shown h =
    (h.failed ≡ false)
    × (h.shutdown_requested ≡ false)
    × (h.suspended ≡ false)
    × (h.presentation_serial ≡ h.last_submitted_serial)
    × (h.presentation_generation ≡ h.generation)
    × (0 < h.last_submitted_serial)

-- The pong of a ping is taken before the next ping is sent.
pub record IsConsistent (h : Helper) : Type 0 where
  pub open_frame : h.frame_open ≡ true → OpenFrame h
  pub shown : h.presentation_pending ≡ true → Shown h
  pub one_ping : h.ping_outstanding ≡ true → h.pong_available ≡ false
  pub greeting : h.ready_sent ≡ true → h.hello_received ≡ true

-- The fields that consistency speaks of.
abbrev pub SameState : Helper → Helper → Type 0
SameState h h' =
    (h'.failed ≡ h.failed)
    × (h'.shutdown_requested ≡ h.shutdown_requested)
    × (h'.generation ≡ h.generation)
    × (h'.last_submitted_serial ≡ h.last_submitted_serial)
    × (h'.presentation_pending ≡ h.presentation_pending)
    × (h'.presentation_generation ≡ h.presentation_generation)
    × (h'.presentation_serial ≡ h.presentation_serial)
    × (h'.frame_open ≡ h.frame_open)
    × (h'.frame_stale ≡ h.frame_stale)
    × (h'.frame_generation ≡ h.frame_generation)
    × (h'.frame_serial ≡ h.frame_serial)
    × (h'.frame_received ≡ h.frame_received)
    × (h'.frame_expected ≡ h.frame_expected)
    × (h'.suspended ≡ h.suspended)
    × (h'.ready_sent ≡ h.ready_sent)
    × (h'.hello_received ≡ h.hello_received)
    × (h'.ping_outstanding ≡ h.ping_outstanding)
    × (h'.pong_available ≡ h.pong_available)

enqueue_wire-SameState :
    (h : Helper) (input : Bool) (w : Option (List ℕ)) → SameState h (enqueue_wire h input w).0
unfolding enqueue_wire put_wire
enqueue_wire-SameState h input none = ground arith
enqueue_wire-SameState h input (some wire) = ground arith

pub enqueue_message-SameState :
    (h : Helper) (body : Body) (input : Bool) → SameState h (enqueue_message h body input).0
unfolding enqueue_message
enqueue_message-SameState h body input =
    let w = message_encode Endpoint.helper h.next_outbound_sequence body max_outbound_message in
    ground (arith, enqueue_wire-SameState h input w)

pub remember_error-SameState :
    (h : Helper) (e : HelperError) (n : ℕ) (m : List ℕ) → SameState h (remember_error h e n m)
unfolding remember_error
remember_error-SameState h e n m = ground arith

pub same-IsConsistent : (h h' : Helper) → IsConsistent h → SameState h h' → IsConsistent h'
same-IsConsistent h h' v s = record {
  open_frame = ground (arith, v.open_frame);
  shown = ground (arith, v.shown);
  one_ping = ground (arith, v.one_ping);
  greeting = ground (arith, v.greeting);
}

-- Without a frame that is open or shown, little is left to hold.
pub idle-IsConsistent :
    (h : Helper)
    → h.frame_open ≡ false
    → h.presentation_pending ≡ false
    → (h.ping_outstanding ≡ true → h.pong_available ≡ false)
    → (h.ready_sent ≡ true → h.hello_received ≡ true)
    → IsConsistent h
idle-IsConsistent h o p q g = record {
  open_frame = λ e. cc;
  shown = λ e. cc;
  one_ping = q;
  greeting = g;
}

pub stop_helper-IsConsistent : (h : Helper) → IsConsistent h → IsConsistent (stop_helper h)
unfolding stop_helper
stop_helper-IsConsistent h v = idle-IsConsistent _ refl refl v.one_ping v.greeting

pub fail_helper-IsConsistent :
    (h : Helper) (e : HelperError) (reason n : ℕ) (m : List ℕ)
    → IsConsistent h
    → IsConsistent (fail_helper h e reason n m).0
unfolding fail_helper
fail_helper-IsConsistent h e reason n m v =
    let h' = remember_error h e n m in
    let fatal =
      Body.fatal (record { reason = reason; system_error = n; generation = h'.generation }) in
    let q = (enqueue_message h' fatal false).0 in
    let known = same-IsConsistent h h' v (remember_error-SameState h e n m) in
    let queued = same-IsConsistent h' q known (enqueue_message-SameState h' fatal false) in
    if_cases (λ (r : Helper × Bool). IsConsistent r.0) h.failed (h, false) (stop_helper q, false)
      (λ t. v) (λ t. stop_helper-IsConsistent q queued)

pub refuse-IsConsistent : (h : Helper) (m : List ℕ) → IsConsistent h → IsConsistent (refuse h m).0
unfolding refuse
refuse-IsConsistent h m v = fail_helper-IsConsistent h protocol fatal_protocol 0 m v

pub fail_helper-refuses :
    (h : Helper) (e : HelperError) (reason n : ℕ) (m : List ℕ)
    → (fail_helper h e reason n m).1 ≡ false
unfolding fail_helper
fail_helper-refuses h e reason n m = ground arith

-- A queued message changes none of those fields.
pub enqueue_or_fail-IsConsistent :
    (h : Helper) (body : Body) (input : Bool)
    → IsConsistent h
    → let r = enqueue_or_fail h body input in IsConsistent r.0 × (r.1 ≡ true → SameState h r.0)
unfolding enqueue_or_fail
enqueue_or_fail-IsConsistent h body input v =
    let q = enqueue_message h body input in
    let same = enqueue_message-SameState h body input in
    let text = codes "privsep helper outbound queue is full" in
    let failure = fail_helper q.0 outbound_full fatal_core_unresponsive 0 text in
    let v' = same-IsConsistent h q.0 v same in
    if_cases (λ (r : Helper × Bool). IsConsistent r.0 × (r.1 ≡ true → SameState h r.0)) q.1
      (q.0, true) failure (λ e. (v', λ t. same))
      (λ e. (
        fail_helper-IsConsistent q.0 outbound_full fatal_core_unresponsive 0 text v',
        λ t. cc (t, fail_helper-refuses q.0 outbound_full fatal_core_unresponsive 0 text),
      ))

-- What a call leaves: a consistent helper, which has not failed if the answer is true.
abbrev pub Good : Helper × Bool → Type 0
Good r = IsConsistent r.0 × (r.1 ≡ true → r.0.failed ≡ false)

pub fail_helper-Good :
    (h : Helper) (e : HelperError) (reason n : ℕ) (m : List ℕ)
    → IsConsistent h
    → Good (fail_helper h e reason n m)
fail_helper-Good h e reason n m v =
    (fail_helper-IsConsistent h e reason n m v, λ t. cc (t, fail_helper-refuses h e reason n m))

pub refuse-Good : (h : Helper) (m : List ℕ) → IsConsistent h → Good (refuse h m)
unfolding refuse
refuse-Good h m v = fail_helper-Good h protocol fatal_protocol 0 m v

pub enqueue_or_fail-Good :
    (h : Helper) (body : Body) (input : Bool)
    → IsConsistent h
    → h.failed ≡ false
    → Good (enqueue_or_fail h body input)
enqueue_or_fail-Good h body input v a =
    let q = enqueue_or_fail-IsConsistent h body input v in (q.0, λ t. (q.1 t).0 ∙ a)
