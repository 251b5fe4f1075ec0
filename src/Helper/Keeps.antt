-- ===== src/Helper/Keeps.antt =====
-- The handlers of src/privsep_helper.c leave the parser to the feed.
use nix_bench.Prelude.{
  ℕ, zero, suc, ◌+◌, ◌-◌, ◌*◌, ◌%◌, ◌^◌, ◌≡◌, refl, Bool, true, false, Option, none, some, List,
  ◌==◌, if◌then◌else◌, if_true, if_false, codes, arith, Bool-cases, inl, inr,
}
use nix_bench.Damage.{Rect}
use nix_bench.Privsep.{
  fatal_protocol, FrameBegin, FrameData, FrameReference, Body, Parser, Endpoint,
}
use nix_bench.Privsep.Stream.{message_encode}
use nix_bench.Helper.{
  protocol, credentials, presentation, outbound_full, fatal_device, fatal_core_unresponsive,
  ready_body, Helper, HelperError, max_outbound_message, remember_error, enqueue_wire,
  enqueue_message, put_wire, stop_helper, fail_helper, enqueue_or_fail, queue_ready, clear_frame,
}
use nix_bench.Helper.Frames.{
  begin_rect, piece_of, find_damage, bytes_of, refuse, begin_loop, begin_checked, store_rect,
  handle_frame_begin, data_end, copy_loop, copy_next, copy_piece, Copied, complete, no_damage,
  too_large, no_fuel, handle_frame_data, handle_frame_reference, handle_pong, handle_shutdown,
  abandon_frame, submit_frame,
}
use nix_bench.Helper.Messages.{greet, handle_hello, handle_body, handle_message}

abbrev pub Keeps : Parser → Helper × Bool → Type 0
Keeps p r = r.0.parser ≡ p

enqueue_wire-Keeps :
    (h : Helper) (input : Bool) (w : Option (List ℕ)) → Keeps h.parser (enqueue_wire h input w)
unfolding enqueue_wire put_wire
enqueue_wire-Keeps h input none = refl
enqueue_wire-Keeps h input (some wire) = ground arith

pub enqueue_message-Keeps :
    (h : Helper) (body : Body) (input : Bool) → Keeps h.parser (enqueue_message h body input)
unfolding enqueue_message
enqueue_message-Keeps h body input =
    let wire = message_encode Endpoint.helper h.next_outbound_sequence body max_outbound_message in
    ground (arith, enqueue_wire-Keeps h input wire)

pub remember_error-Keeps :
    (h : Helper) (e : HelperError) (n : ℕ) (m : List ℕ) → (remember_error h e n m).parser ≡ h.parser
unfolding remember_error
remember_error-Keeps h e n m = ground arith

pub fail_helper-Keeps :
    (h : Helper) (e : HelperError) (reason n : ℕ) (m : List ℕ)
    → Keeps h.parser (fail_helper h e reason n m)
unfolding fail_helper stop_helper
fail_helper-Keeps h e reason n m =
    let h' = remember_error h e n m in
    let fatal =
      Body.fatal (record { reason = reason; system_error = n; generation = h'.generation }) in
    ground (arith, enqueue_message-Keeps h' fatal false, remember_error-Keeps h e n m)

pub enqueue_or_fail-Keeps :
    (h : Helper) (body : Body) (input : Bool) → Keeps h.parser (enqueue_or_fail h body input)
unfolding enqueue_or_fail
enqueue_or_fail-Keeps h body input =
    let h' = (enqueue_message h body input).0 in
    let text = codes "privsep helper outbound queue is full" in
    ground (
      arith,
      enqueue_message-Keeps h body input,
      fail_helper-Keeps h' outbound_full fatal_core_unresponsive 0 text,
    )

pub refuse-Keeps : (h : Helper) (m : List ℕ) → Keeps h.parser (refuse h m)
unfolding refuse
refuse-Keeps h m = fail_helper-Keeps h protocol fatal_protocol 0 m

begin_loop-Keeps :
    (h : Helper) (f : FrameBegin) (left index expected : ℕ)
    → (begin_loop h f left index expected).0.parser ≡ h.parser
unfolding begin_loop store_rect
begin_loop-Keeps h f zero index expected = refl
begin_loop-Keeps h f (suc left) index expected =
    let r = begin_rect h f index in
    let n = (expected + r.width * r.height * 4) % 2 ^ 64 in
    ground (arith, begin_loop-Keeps (store_rect h index r) f left (suc index) n)

begin_checked-Keeps :
    (f : FrameBegin) (n : ℕ) (h : Helper) (r : Option ℕ) → Keeps h.parser (begin_checked f n h r)
unfolding begin_checked
begin_checked-Keeps f n h none = refuse-Keeps h (codes "invalid FRAME_BEGIN damage rectangle")
begin_checked-Keeps f n h (some e) =
    ground (arith, refuse-Keeps h (codes "FRAME_BEGIN size or initial damage is invalid"))

handle_frame_begin-Keeps : (h : Helper) (f : FrameBegin) → Keeps h.parser (handle_frame_begin h f)
unfolding handle_frame_begin
handle_frame_begin-Keeps h f =
    let n = if f.damage_count == 0 then 1 else f.damage_count in
    let l = begin_loop h f n 0 0 in
    ground (
      arith,
      begin_loop-Keeps h f n 0 0,
      begin_checked-Keeps f n l.0 l.1,
      refuse-Keeps h (codes "out-of-order FRAME_BEGIN"),
    )

copy_next-Keeps :
    (rest : Helper → ℕ → ℕ → Helper × Copied) (h : Helper) (f : FrameData) (bytes : List ℕ)
    (s p : ℕ) (found : Option (Rect × ℕ))
    → ((h' : Helper) (s' p' : ℕ) → (rest h' s' p').0.parser ≡ h'.parser)
    → (copy_next rest h f bytes s p found).0.parser ≡ h.parser
unfolding copy_next copy_piece
copy_next-Keeps rest h f bytes s p none kept = refl
copy_next-Keeps rest h f bytes s p (some (damage, base)) kept =
    let q = piece_of h damage base p (f.size - s) in
    ground (arith, kept (copy_piece h bytes s q) (s + q.amount) (p + q.amount))

copy_loop-Keeps :
    (fuel : ℕ) (f : FrameData) (bytes : List ℕ) (h : Helper) (s p : ℕ)
    → (copy_loop fuel f bytes h s p).0.parser ≡ h.parser
unfolding copy_loop
copy_loop-Keeps zero f bytes h s p = refl
copy_loop-Keeps (suc fuel) f bytes h s p =
    let found = find_damage h h.frame_damage_count 0 0 p in
    ground (
      arith,
      copy_next-Keeps (copy_loop fuel f bytes) h f bytes s p found
          (λ h' s' p'. copy_loop-Keeps fuel f bytes h' s' p'),
    )

data_end-Keeps : (n : ℕ) (h : Helper) (c : Copied) → Keeps h.parser (data_end n (h, c))
unfolding data_end
data_end-Keeps n h complete = refl
data_end-Keeps n h no_damage = refuse-Keeps h (codes "FRAME_DATA has no matching damage rectangle")
data_end-Keeps n h too_large = refuse-Keeps h (codes "FRAME_DATA exceeds trusted output size")
data_end-Keeps n h no_fuel = refl

handle_frame_data-Keeps : (h : Helper) (f : FrameData) → Keeps h.parser (handle_frame_data h f)
unfolding handle_frame_data
handle_frame_data-Keeps h f =
    let copied = copy_loop f.size f (bytes_of f.bytes) h 0 h.frame_received in
    ground (
      arith,
      copy_loop-Keeps f.size f (bytes_of f.bytes) h 0 h.frame_received,
      data_end-Keeps (h.frame_received + f.size) copied.0 copied.1,
      refuse-Keeps h (codes "out-of-order FRAME_DATA"),
      refuse-Keeps h (codes "FRAME_DATA exceeds declared frame size"),
    )

handle_frame_reference-Keeps :
    (h : Helper) (aborts : Bool) (r : FrameReference)
    → Keeps h.parser (handle_frame_reference h aborts r)
unfolding handle_frame_reference abandon_frame submit_frame clear_frame
handle_frame_reference-Keeps h aborts r = ground (
  arith,
  refuse-Keeps h (codes "frame terminator does not match open frame"),
  refuse-Keeps h (codes "FRAME_COMMIT arrived before the complete frame"),
  fail_helper-Keeps h presentation fatal_device 0 (codes "privileged presentation callback failed"),
)

handle_pong-Keeps : (h : Helper) (t : ℕ) → Keeps h.parser (handle_pong h t)
unfolding handle_pong
handle_pong-Keeps h t = ground (arith, refuse-Keeps h (codes "unexpected heartbeat response"))

handle_shutdown-Keeps : (h : Helper) (t : ℕ) → Keeps h.parser (handle_shutdown h t)
unfolding handle_shutdown
handle_shutdown-Keeps h t = elim (Bool-cases h.shutdown_requested) [
  | inl e ↦ rw (if_true _ _ e) (refuse-Keeps h (codes "duplicate shutdown request"))
  | inr e ↦ rw (if_false _ _ e) (unfold clear_frame in enqueue_or_fail-Keeps _ _ false)
]

greet-Keeps : (h : Helper) → Keeps h.parser (greet h)
unfolding greet queue_ready
greet-Keeps h = ground (arith, enqueue_or_fail-Keeps h (ready_body false h) false)

handle_hello-Keeps : (h : Helper) (body : Body) → Keeps h.parser (handle_hello h body)
unfolding handle_hello
handle_hello-Keeps h (Body.core_hello c) = ground (
  arith,
  greet-Keeps (record h { hello_received = true }),
  fail_helper-Keeps h credentials fatal_protocol 0
      (codes "CORE_HELLO credentials do not match child"),
)
handle_hello-Keeps h _ = refuse-Keeps h (codes "CORE_HELLO must be the first message")

handle_body-Keeps : (h : Helper) (body : Body) → Keeps h.parser (handle_body h body)
unfolding handle_body
handle_body-Keeps h (Body.core_hello c) = refuse-Keeps h (codes "duplicate CORE_HELLO")
handle_body-Keeps h (Body.frame_begin f) = handle_frame_begin-Keeps h f
handle_body-Keeps h (Body.frame_data f) = handle_frame_data-Keeps h f
handle_body-Keeps h (Body.frame_commit r) = handle_frame_reference-Keeps h false r
handle_body-Keeps h (Body.frame_abort r) = handle_frame_reference-Keeps h true r
handle_body-Keeps h (Body.pong token) = handle_pong-Keeps h token
handle_body-Keeps h (Body.shutdown_request token) = handle_shutdown-Keeps h token
handle_body-Keeps h _ = refuse-Keeps h (codes "invalid core message")

-- A handler never touches the parser.
pub handle_message-Keeps : (h : Helper) (body : Body) → Keeps h.parser (handle_message h body)
unfolding handle_message
handle_message-Keeps h body = ground (
  arith,
  handle_hello-Keeps h body,
  handle_body-Keeps h body,
  refuse-Keeps h (codes "message received after shutdown request"),
)
