-- ===== src/Helper/Grows.antt =====
-- The generation and the serial that was last submitted, in src/privsep_helper.c, never go back.
use nix_bench.Prelude.{
  ℕ, zero, suc, ◌+◌, ◌≤◌, ◌<◌, ◌≡◌, Bool, true, false, not, Option, none, some, List, [], ◌∷◌, drop,
  length, ◌==◌, if◌then◌else◌, if_cases, codes, arith,
}
use nix_bench.Privsep.{fatal_protocol, FrameBegin, FrameData, FrameReference, Body, ParseStatus}
use nix_bench.Privsep.Stream.{parser_feed}
use nix_bench.Helper.{
  protocol, credentials, presentation, outbound_full, fatal_device, fatal_core_unresponsive,
  HelperError, Helper, remember_error, enqueue_message, enqueue_or_fail, fail_helper, stop_helper,
  clear_frame, queue_ready, ready_body,
}
use nix_bench.Helper.Frames.{
  bytes_of, refuse, begin_loop, begin_checked, handle_frame_begin, data_end, copy_loop, Copied,
  complete, no_damage, too_large, no_fuel, handle_frame_data, handle_frame_reference, handle_pong,
  handle_shutdown, abandon_frame, submit_frame,
}
use nix_bench.Helper.Messages.{
  greet, handle_hello, handle_body, handle_message, HelperFed, refused, feed_message, feed_loop,
  helper_feed,
}
use nix_bench.Helper.Consistent.{
  IsConsistent, SameState, same-IsConsistent, enqueue_message-SameState, remember_error-SameState,
}
use nix_bench.Helper.Handlers.{begin_loop-SameState}
use nix_bench.Helper.Dispatch.{copy_loop-SameState, handle_message-Good}

abbrev pub Grows : Helper → Helper → Type 0
Grows h h' = (h.generation ≤ h'.generation) × (h.last_submitted_serial ≤ h'.last_submitted_serial)

pub same-Grows : (h h' : Helper) → SameState h h' → Grows h h'
same-Grows h h' s = omega (arith, s)

pub fail_helper-Grows :
    (h : Helper) (e : HelperError) (reason n : ℕ) (m : List ℕ)
    → Grows h (fail_helper h e reason n m).0
unfolding fail_helper stop_helper
fail_helper-Grows h e reason n m =
    let h' = remember_error h e n m in
    let fatal =
      Body.fatal (record { reason = reason; system_error = n; generation = h'.generation }) in
    ground (arith, enqueue_message-SameState h' fatal false, remember_error-SameState h e n m)

refuse-Grows : (h : Helper) (m : List ℕ) → Grows h (refuse h m).0
unfolding refuse
refuse-Grows h m = fail_helper-Grows h protocol fatal_protocol 0 m

pub enqueue_or_fail-Grows :
    (h : Helper) (body : Body) (input : Bool) → Grows h (enqueue_or_fail h body input).0
unfolding enqueue_or_fail
enqueue_or_fail-Grows h body input =
    let q = (enqueue_message h body input).0 in
    let text = codes "privsep helper outbound queue is full" in
    ground (
      arith,
      enqueue_message-SameState h body input,
      fail_helper-Grows q outbound_full fatal_core_unresponsive 0 text,
    )

begin_checked-Grows :
    (f : FrameBegin) (n : ℕ) (h : Helper) (r : Option ℕ) → Grows h (begin_checked f n h r).0
unfolding begin_checked
begin_checked-Grows f n h none = refuse-Grows h (codes "invalid FRAME_BEGIN damage rectangle")
begin_checked-Grows f n h (some e) =
    ground (arith, refuse-Grows h (codes "FRAME_BEGIN size or initial damage is invalid"))

handle_frame_begin-Grows : (h : Helper) (f : FrameBegin) → Grows h (handle_frame_begin h f).0
unfolding handle_frame_begin
handle_frame_begin-Grows h f =
    let n = if f.damage_count == 0 then 1 else f.damage_count in
    let l = begin_loop h f n 0 0 in
    ground (
      arith,
      begin_loop-SameState h f n 0 0,
      begin_checked-Grows f n l.0 l.1,
      refuse-Grows h (codes "out-of-order FRAME_BEGIN"),
    )

data_end-Grows : (n : ℕ) (h : Helper) (c : Copied) → Grows h (data_end n (h, c)).0
unfolding data_end
data_end-Grows n h complete = ground arith
data_end-Grows n h no_damage = refuse-Grows h (codes "FRAME_DATA has no matching damage rectangle")
data_end-Grows n h too_large = refuse-Grows h (codes "FRAME_DATA exceeds trusted output size")
data_end-Grows n h no_fuel = ground arith

handle_frame_data-Grows : (h : Helper) (f : FrameData) → Grows h (handle_frame_data h f).0
unfolding handle_frame_data
handle_frame_data-Grows h f =
    let copied = copy_loop f.size f (bytes_of f.bytes) h 0 h.frame_received in
    ground (
      arith,
      copy_loop-SameState f.size f (bytes_of f.bytes) h 0 h.frame_received,
      data_end-Grows (h.frame_received + f.size) copied.0 copied.1,
      refuse-Grows h (codes "out-of-order FRAME_DATA"),
      refuse-Grows h (codes "FRAME_DATA exceeds declared frame size"),
    )

-- A frame that is submitted has a serial above the last one.
handle_frame_reference-Grows :
    (h : Helper) (aborts : Bool) (r : FrameReference)
    → IsConsistent h
    → Grows h (handle_frame_reference h aborts r).0
unfolding handle_frame_reference abandon_frame submit_frame clear_frame
handle_frame_reference-Grows h aborts r v =
    let above : h.frame_open ≡ true → h.last_submitted_serial < h.frame_serial =
      λ o. (v.open_frame o).5 in
    ground (
      arith,
      above,
      refuse-Grows h (codes "frame terminator does not match open frame"),
      refuse-Grows h (codes "FRAME_COMMIT arrived before the complete frame"),
      fail_helper-Grows h presentation fatal_device 0
          (codes "privileged presentation callback failed"),
    )

handle_pong-Grows : (h : Helper) (t : ℕ) → Grows h (handle_pong h t).0
unfolding handle_pong
handle_pong-Grows h t = ground (arith, refuse-Grows h (codes "unexpected heartbeat response"))

handle_shutdown-Grows : (h : Helper) (t : ℕ) → Grows h (handle_shutdown h t).0
unfolding handle_shutdown clear_frame
handle_shutdown-Grows h t =
    let h' : Helper =
      record (clear_frame (record h { shutdown_requested = true; shutdown_request_id = t })) {
        presentation_pending = false;
      } in
    ground (
      arith,
      refuse-Grows h (codes "duplicate shutdown request"),
      enqueue_or_fail-Grows h' (Body.shutdown_accepted t) false,
    )

greet-Grows : (h : Helper) → Grows h (greet h).0
unfolding greet queue_ready
greet-Grows h = ground (arith, enqueue_or_fail-Grows h (ready_body false h) false)

handle_hello-Grows : (h : Helper) (body : Body) → Grows h (handle_hello h body).0
unfolding handle_hello
handle_hello-Grows h (Body.core_hello c) = ground (
  arith,
  greet-Grows (record h { hello_received = true }),
  fail_helper-Grows h credentials fatal_protocol 0
      (codes "CORE_HELLO credentials do not match child"),
)
handle_hello-Grows h _ = refuse-Grows h (codes "CORE_HELLO must be the first message")

handle_body-Grows : (h : Helper) (body : Body) → IsConsistent h → Grows h (handle_body h body).0
unfolding handle_body
handle_body-Grows h (Body.core_hello c) v = refuse-Grows h (codes "duplicate CORE_HELLO")
handle_body-Grows h (Body.frame_begin f) v = handle_frame_begin-Grows h f
handle_body-Grows h (Body.frame_data f) v = handle_frame_data-Grows h f
handle_body-Grows h (Body.frame_commit r) v = handle_frame_reference-Grows h false r v
handle_body-Grows h (Body.frame_abort r) v = handle_frame_reference-Grows h true r v
handle_body-Grows h (Body.pong token) v = handle_pong-Grows h token
handle_body-Grows h (Body.shutdown_request token) v = handle_shutdown-Grows h token
handle_body-Grows h _ v = refuse-Grows h (codes "invalid core message")

handle_message-Grows :
    (h : Helper) (body : Body) → IsConsistent h → Grows h (handle_message h body).0
unfolding handle_message
handle_message-Grows h body v = ground (
  arith,
  handle_hello-Grows h body,
  handle_body-Grows h body v,
  refuse-Grows h (codes "message received after shutdown request"),
)

pub Grows-trans : (a b c : Helper) → Grows a b → Grows b c → Grows a c
Grows-trans a b c p q = omega (arith, p, q)

feed_message-Grows :
    (rest : Helper → List ℕ → ℕ → HelperFed) (h : Helper) (left : List ℕ) (total : ℕ)
    (status : ParseStatus)
    → IsConsistent h
    → h.failed ≡ false
    → ((h' : Helper) → IsConsistent h' → h'.failed ≡ false → Grows h' (rest h' left total).helper)
    → Grows h (feed_message rest h left total status).helper
unfolding feed_message
feed_message-Grows rest h left total ParseStatus.error v a next =
    refuse-Grows h (codes "malformed core protocol message")
feed_message-Grows rest h left total ParseStatus.need_more v a next = ground arith
feed_message-Grows rest h left total (ParseStatus.message m) v a next =
    let r = handle_message h m.body in
    let good = handle_message-Good h m.body v a in
    let grows = handle_message-Grows h m.body v in
    let stopped : HelperFed = record { helper = r.0; end = refused; consumed = total } in
    if_cases (λ (f : HelperFed). Grows h f.helper) (not r.1) stopped (rest r.0 left total)
      (λ t. grows)
      (λ t.
        Grows-trans h r.0 (rest r.0 left total).helper grows
          (next r.0 good.0 (good.1 (ground arith))))

feed_loop-Grows :
    (fuel : ℕ) (h : Helper) (bytes : List ℕ) (total : ℕ)
    → IsConsistent h
    → h.failed ≡ false
    → Grows h (feed_loop fuel h bytes total).helper
unfolding feed_loop
feed_loop-Grows fuel h [] total v a = ground arith
feed_loop-Grows zero h (b ∷ bytes) total v a = ground arith
feed_loop-Grows (suc fuel) h (b ∷ bytes) total v a =
    let fed = parser_feed h.parser (b ∷ bytes) in
    let h' : Helper = record h { parser = fed.parser } in
    let left = drop fed.consumed (b ∷ bytes) in
    feed_message-Grows (feed_loop fuel) h' left (total + fed.consumed) fed.status
      (same-IsConsistent h h' v (ground arith)) a
      (λ h'' v' a'. feed_loop-Grows fuel h'' left (total + fed.consumed) v' a')

pub helper_feed-Grows :
    (h : Helper) (bytes : List ℕ) → IsConsistent h → Grows h (helper_feed h bytes).helper
unfolding helper_feed
helper_feed-Grows h bytes v =
    if_cases (λ (f : HelperFed). Grows h f.helper) h.failed
      (record { helper = h; end = refused; consumed = 0 }) (feed_loop (length bytes) h bytes 0)
      (λ t. ground arith) (λ t. feed_loop-Grows (length bytes) h bytes 0 v t)
