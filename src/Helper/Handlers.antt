-- ===== src/Helper/Handlers.antt =====
-- The handlers of src/privsep_helper.c for the core's messages keep the helper consistent.
use nix_bench.Prelude.{
  ℕ, zero, suc, ◌+◌, ◌*◌, ◌%◌, ◌^◌, ◌<◌, ◌≡◌, refl, Bool, true, false, not, ◌&&◌, ◌||◌, Option,
  none, some, ltb, leb, ◌==◌, if◌then◌else◌, if_cases, codes, arith,
}
use nix_bench.Privsep.{max_damage_rects, FrameBegin, FrameReference, Body}
use nix_bench.Helper.{presentation, fatal_device, Helper, enqueue_or_fail, clear_frame}
use nix_bench.Helper.Frames.{
  begin_rect, refuse, begin_loop, begin_checked, store_rect, covers_output, handle_frame_begin,
  handle_frame_reference, handle_pong, handle_shutdown, abandon_frame, submit_frame,
}
use nix_bench.Helper.Consistent.{
  IsConsistent, SameState, same-IsConsistent, idle-IsConsistent, Good, refuse-Good,
  fail_helper-Good, enqueue_or_fail-Good,
}

clear_frame-IsConsistent : (h : Helper) → IsConsistent h → IsConsistent (clear_frame h)
unfolding clear_frame
clear_frame-IsConsistent h v = record {
  open_frame = λ e. cc;
  shown = v.shown;
  one_ping = v.one_ping;
  greeting = v.greeting;
}

abandon_frame-IsConsistent : (h : Helper) → IsConsistent h → IsConsistent (abandon_frame h)
unfolding abandon_frame
abandon_frame-IsConsistent h v = clear_frame-IsConsistent _ (same-IsConsistent h _ v (ground arith))

submit_frame-IsConsistent :
    (h : Helper)
    → h.frame_open ≡ true
    → h.frame_stale ≡ false
    → IsConsistent h
    → IsConsistent (submit_frame h)
unfolding submit_frame clear_frame
submit_frame-IsConsistent h o s v =
    let f = v.open_frame o in
    record {
      open_frame = λ e. cc;
      shown = λ e. (f.1, f.2, (f.6 s).1, refl, refl, omega (arith, f.5));
      one_ping = v.one_ping;
      greeting = v.greeting;
    }

pub handle_frame_reference-Good :
    (h : Helper) (aborts : Bool) (r : FrameReference)
    → IsConsistent h
    → h.failed ≡ false
    → Good (handle_frame_reference h aborts r)
unfolding handle_frame_reference
handle_frame_reference-Good h aborts r v a = ground (
  arith,
  v,
  a,
  abandoned,
  submitted,
  refuse-Good h (codes "frame terminator does not match open frame") v,
  refuse-Good h (codes "FRAME_COMMIT arrived before the complete frame") v,
  fail_helper-Good h presentation fatal_device 0 (codes "privileged presentation callback failed")
      v,
)
  where
    abandoned : Good (abandon_frame h, true)
    abandoned = (abandon_frame-IsConsistent h v, λ t. unfold abandon_frame clear_frame in a)

    submitted : h.frame_open ≡ true → h.frame_stale ≡ false → Good (submit_frame h, true)
    submitted o s = (submit_frame-IsConsistent h o s v, λ t. unfold submit_frame clear_frame in a)

pub begin_loop-SameState :
    (h : Helper) (f : FrameBegin) (left index expected : ℕ)
    → SameState h (begin_loop h f left index expected).0
unfolding begin_loop store_rect
begin_loop-SameState h f zero index expected = ground arith
begin_loop-SameState h f (suc left) index expected =
    let r = begin_rect h f index in
    let n = (expected + r.width * r.height * 4) % 2 ^ 64 in
    ground (arith, begin_loop-SameState (store_rect h index r) f left (suc index) n)

begin_checked-Good :
    (f : FrameBegin) (n : ℕ) (h : Helper) (r : Option ℕ)
    → IsConsistent h
    → h.failed ≡ false
    → h.shutdown_requested ≡ false
    → h.ready_sent ≡ true
    → h.presentation_pending ≡ false
    → h.suspended ≡ false
    → f.generation ≡ h.generation
    → h.last_submitted_serial < f.serial
    → Good (begin_checked f n h r)
unfolding begin_checked
begin_checked-Good f n h none v a d g p s e k =
    refuse-Good h (codes "invalid FRAME_BEGIN damage rectangle") v
begin_checked-Good f n h (some expected) v a d g p s e k =
    let opened : Helper = record h {
      frame_open = true;
      frame_stale = false;
      frame_generation = f.generation;
      frame_serial = f.serial;
      frame_expected = f.frame_bytes;
      frame_received = 0;
      frame_damage_count = n;
    } in
    let text = codes "FRAME_BEGIN size or initial damage is invalid" in
    if_cases Good
      (not (expected == f.frame_bytes) || not h.staging_valid && not (covers_output h n))
      (refuse h text) (opened, true) (λ t. refuse-Good h text v)
      (λ t. (
        record {
          open_frame = λ o. (g, a, d, p, omega arith, k, λ x. (e, s), omega (arith, e));
          shown = λ o. cc;
          one_ping = v.one_ping;
          greeting = v.greeting;
        },
        λ x. a,
      ))

pub handle_frame_begin-Good :
    (h : Helper) (f : FrameBegin)
    → IsConsistent h
    → h.failed ≡ false
    → h.shutdown_requested ≡ false
    → Good (handle_frame_begin h f)
unfolding handle_frame_begin
handle_frame_begin-Good h f v a d =
    let n = if f.damage_count == 0 then 1 else f.damage_count in
    let l = begin_loop h f n 0 0 in
    let same = begin_loop-SameState h f n 0 0 in
    let v' = same-IsConsistent h l.0 v same in
    let text = codes "out-of-order FRAME_BEGIN" in
    let barred =
      not h.ready_sent
      || h.frame_open
      || h.presentation_pending
      || not (f.generation == h.generation)
      || h.suspended
      || leb f.serial h.last_submitted_serial
      || ltb max_damage_rects n in
    if_cases Good barred (refuse h text) (begin_checked f n l.0 l.1) (λ t. refuse-Good h text v)
      (λ t.
        begin_checked-Good f n l.0 l.1 v' (ground arith) (ground arith) (ground arith)
          (ground arith) (ground arith) (ground arith) (ground arith))

pub handle_pong-Good :
    (h : Helper) (token : ℕ) → IsConsistent h → h.failed ≡ false → Good (handle_pong h token)
unfolding handle_pong
handle_pong-Good h token v a =
    let text = codes "unexpected heartbeat response" in
    let h' : Helper = record h {
      ping_outstanding = false;
      pong_available = true;
      pong_token = token;
    } in
    if_cases Good (not h.ping_outstanding || not (token == h.ping_token)) (refuse h text) (h', true)
      (λ t. refuse-Good h text v)
      (λ t. (
        record {
          open_frame = v.open_frame;
          shown = v.shown;
          one_ping = λ o. cc;
          greeting = v.greeting;
        },
        λ x. a,
      ))

pub handle_shutdown-Good :
    (h : Helper) (token : ℕ) → IsConsistent h → h.failed ≡ false → Good (handle_shutdown h token)
unfolding handle_shutdown
handle_shutdown-Good h token v a =
    let text = codes "duplicate shutdown request" in
    let h' : Helper =
      record (clear_frame (record h { shutdown_requested = true; shutdown_request_id = token })) {
        presentation_pending = false;
      } in
    let idle : IsConsistent h' =
      unfold clear_frame in idle-IsConsistent _ refl refl v.one_ping v.greeting in
    if_cases Good h.shutdown_requested (refuse h text)
      (enqueue_or_fail h' (Body.shutdown_accepted token) false) (λ t. refuse-Good h text v)
      (λ t.
        enqueue_or_fail-Good h' (Body.shutdown_accepted token) false idle (unfold clear_frame in a))
