-- ===== src/Helper/Tests.antt =====
-- Runs of the privileged helper, and its theorems at concrete inputs.
use mathlib.Core.Path.{subst}
use nix_bench.Prelude.{
  Bool, ◌≡◌, ◌≢◌, ◌≤◌, ◌==◌, ◌&&◌, if◌then◌else◌, List, none, refl, true, false, [], ◌∷◌, some,
  length, drop, arith, pos, ◌%◌,
}
use nix_bench.Damage.{Rect}
use nix_bench.Privsep.{
  core, Body, FrameBegin, FrameData, FrameReference, Credentials, Output, type_code,
}
use nix_bench.Privsep.Bytes.{store_u16, store_u32, store_u64}
use nix_bench.Privsep.Valid.{
  endpoint_is_valid, message_is_valid, body_is_valid, message_type_is_from,
}
use nix_bench.Privsep.Sizes.{message_payload_size}
use nix_bench.Privsep.Encode.{encode_payload, encode_ready, encode_output}
use nix_bench.Privsep.Stream.{message_encode, encode_header, encode_sized, parser_init}
use nix_bench.Privsep.Valid.{output_is_valid, ready_is_valid}
use nix_bench.Helper.{queue_ready, ready_body, helper_create, no_rect, no_record}
use nix_bench.Helper.Consistent.{IsConsistent}
use nix_bench.Helper.Runs.{Call, run_calls, run_calls-IsConsistent}
use nix_bench.Helper.Parsing.{helper_feed-run_calls}
use nix_bench.Helper.Runs.{call}
use nix_bench.Helper.Outbound.{
  purge_store, purge_loop, purge_next, purge_step, purge_advance, purge_keep, retain_record,
  purge_start, use_sequence, copy_outbound_span, span_from,
}
use nix_bench.Helper.{
  Helper, no_error, enqueue_or_fail, enqueue_message, enqueue_wire, put_wire, clear_frame,
  set_record,
}
use nix_bench.Helper.Outbound.{consume_outbound, consume_records, use_record, purge_unsent_input}
use nix_bench.Helper.Frames.{
  handle_frame_begin, begin_loop, begin_rect, begin_rect_fails, begin_checked, store_rect,
  covers_output, handle_frame_reference, submit_frame, committed_frame, copy_loop, Copied,
}
use nix_bench.Helper.Messages.{helper_feed}
use nix_bench.Helper.Session.{
  helper_suspend, suspend_purged, enter_suspension, abandon_presentation, abandoned_by,
  complete_frame, helper_resume, resume_with, resume_resized, take_output, send_ping,
}
use nix_bench.Helper.Loops.{Finishes, copy_loop-ne-no_fuel}
use nix_bench.Helper.Queue.{
  queued, Enqueues, enqueue_message-Enqueues, consume_outbound-queued, QueueFits,
}
use nix_bench.Helper.Handlers.{handle_frame_reference-Good}
use nix_bench.Helper.Columns.{handle_frame_begin-HasColumns}
use nix_bench.Helper.Late.{late_completion}

abbrev child : Credentials
child = record {
  process_id = 812;
  real_user_id = 1000;
  effective_user_id = 1000;
  saved_user_id = 1000;
  real_group_id = 100;
  effective_group_id = 100;
  saved_group_id = 100;
}

abbrev display : Output
display = record {
  logical_width = 2;
  logical_height = 2;
  pixel_width = 2;
  pixel_height = 2;
  refresh_millihertz = 60000;
  stride = 8;
  frame_bytes = 16;
  format = 1;
}

abbrev whole : Rect
whole = record { x = pos 0; y = pos 0; width = pos 2; height = pos 2 }

-- A helper whose frame 5 has arrived, with two bytes to send around the end of the ring.
abbrev running : Helper
running = record {
  parser = parser_init core;
  expected_credentials = child;
  output = display;
  present = λ generation frame. true;
  staging = λ i. 0;
  staging_size = 16;
  staging_valid = true;
  outbound = λ i. i % 256;
  outbound_head = 4095;
  outbound_size = 2;
  outbound_records = λ i. record { remaining = 2; sequence = 1; input = false; started = true };
  outbound_record_head = 0;
  outbound_record_count = 1;
  next_outbound_sequence = 2;
  outbound_sequence_exhausted = false;
  generation = 1;
  last_submitted_serial = 4;
  hello_received = true;
  ready_sent = true;
  suspended = false;
  frame_open = true;
  frame_stale = false;
  frame_generation = 1;
  frame_serial = 5;
  frame_expected = 16;
  frame_received = 16;
  frame_damage_count = 1;
  frame_damage_rects = λ i. whole;
  presentation_pending = false;
  presentation_generation = 1;
  presentation_serial = 4;
  abandoned_generation = 0;
  abandoned_serial = 0;
  ping_outstanding = false;
  ping_token = 0;
  pong_available = false;
  pong_token = 0;
  shutdown_requested = false;
  shutdown_request_id = 0;
  error = no_error;
  system_error = 0;
  error_message = [];
  failed = false;
}

abbrev commit : FrameReference
commit = record { generation = 1; serial = 5 }

-- The helper that shows frame 5.
abbrev showing : Helper
showing = record running {
  staging_valid = true;
  last_submitted_serial = 5;
  frame_open = false;
  frame_generation = 0;
  frame_serial = 0;
  frame_expected = 0;
  frame_received = 0;
  frame_damage_count = 0;
  frame_damage_rects = λ i. no_rect;
  presentation_pending = true;
  presentation_generation = 1;
  presentation_serial = 5;
}

shows_frame : handle_frame_reference running false commit ≡ (showing, true)
unfolding handle_frame_reference committed_frame submit_frame clear_frame
shows_frame = refl

suspends : (helper_suspend showing 100).1 ≡ true
unfolding handle_frame_reference submit_frame clear_frame helper_suspend purge_unsent_input
    suspend_purged enter_suspension abandon_presentation abandoned_by enqueue_or_fail
    enqueue_message enqueue_wire put_wire message_encode encode_sized message_is_valid
    endpoint_is_valid message_type_is_from body_is_valid message_payload_size encode_header
    encode_payload store_u16 store_u32 store_u64 type_code purge_store purge_loop purge_next
    purge_step purge_advance purge_keep retain_record purge_start use_sequence copy_outbound_span
    span_from
suspends = refl

running-IsConsistent : IsConsistent running
running-IsConsistent = record {
  open_frame =
      λ o. (refl, refl, refl, refl, omega arith, omega arith, λ s. (refl, refl), omega arith);
  shown = λ p. ground arith;
  one_ping = λ p. refl;
  greeting = λ p. refl;
}

showing-IsConsistent : IsConsistent showing
showing-IsConsistent =
    subst (λ (r : Helper × Bool). IsConsistent r.0) shows_frame
      (handle_frame_reference-Good running false commit running-IsConsistent refl).0

abbrev resumed_calls : List Call
resumed_calls = Call.resume display none ∷ Call.ping 3 ∷ []

lives :
    let k = run_calls (helper_suspend showing 100).0 resumed_calls in
    (k.failed ≡ false) × (k.shutdown_requested ≡ false)
unfolding run_calls call helper_suspend purge_unsent_input suspend_purged enter_suspension
    abandon_presentation abandoned_by enqueue_or_fail enqueue_message enqueue_wire put_wire
    message_encode encode_sized message_is_valid endpoint_is_valid message_type_is_from
    body_is_valid message_payload_size encode_header encode_payload store_u16 store_u32 store_u64
    type_code purge_store purge_loop purge_next purge_step purge_advance purge_keep retain_record
    purge_start use_sequence copy_outbound_span span_from helper_resume resume_with resume_resized
    take_output queue_ready output_is_valid send_ping ready_body ready_is_valid encode_ready
    encode_output
lives = (refl, refl)

late_completion_example :
    let h' = (helper_suspend showing 100).0 in
    let k = run_calls h' resumed_calls in
    (h'.abandoned_generation ≡ 1)
    × (h'.abandoned_serial ≡ 5)
    × (complete_frame k 1 5 120 ≡ (
      if 1 == k.abandoned_generation && 5 == k.abandoned_serial
          then record k { abandoned_generation = 0; abandoned_serial = 0 }
          else k,
      true,
    ))
late_completion_example =
    late_completion showing 100 120 resumed_calls showing-IsConsistent refl suspends lives.0 lives.1

abbrev pixels : FrameData
pixels = record {
  generation = 1;
  serial = 5;
  offset = 8;
  size = 6;
  bytes = some (1 ∷ 2 ∷ 3 ∷ 4 ∷ 5 ∷ 6 ∷ []);
}

abbrev between_frames : Helper
between_frames = record running { frame_open = false; staging_valid = false }

abbrev opening : FrameBegin
opening = record {
  generation = 1;
  serial = 5;
  frame_bytes = 16;
  damage = record { x = 0; y = 0; width = 0; height = 0 };
  damage_count = 0;
  damage_rects = [];
}

begins : (handle_frame_begin between_frames opening).1 ≡ true
unfolding handle_frame_begin begin_loop begin_rect begin_rect_fails begin_checked store_rect
    covers_output
begins = refl

copy_loop-ne-no_fuel_example :
    (copy_loop 6 pixels
      (1 ∷ 2 ∷ 3 ∷ 4 ∷ 5 ∷ 6 ∷ [])
      (handle_frame_begin between_frames opening).0
      0
      8).1
    ≢ Copied.no_fuel
copy_loop-ne-no_fuel_example =
    copy_loop-ne-no_fuel 6 pixels (1 ∷ 2 ∷ 3 ∷ 4 ∷ 5 ∷ 6 ∷ [])
      (handle_frame_begin between_frames opening).0 0 8
      (handle_frame_begin-HasColumns between_frames opening (omega arith) begins) (omega arith)

enqueue_message-Enqueues_example :
    Enqueues running (Body.ping 7) false (enqueue_message running (Body.ping 7) false)
enqueue_message-Enqueues_example =
    enqueue_message-Enqueues running (Body.ping 7) false (omega arith)

sends : (consume_outbound running 2).1 ≡ true
unfolding consume_outbound consume_records use_record set_record
sends = refl

consume_outbound-queued_example :
    let h' = (consume_outbound running 2).0 in
    (queued h' ≡ drop 2 (queued running)) × QueueFits h' × (2 ≤ length (queued running))
consume_outbound-queued_example = consume_outbound-queued running 2 (omega arith) sends

-- The helper as it is created.
abbrev fresh : Helper
fresh = record running {
  staging_valid = false;
  outbound = λ i. 0;
  outbound_head = 0;
  outbound_size = 0;
  outbound_records = λ i. no_record;
  outbound_record_count = 0;
  next_outbound_sequence = 1;
  last_submitted_serial = 0;
  hello_received = false;
  ready_sent = false;
  frame_open = false;
  frame_generation = 0;
  frame_serial = 0;
  frame_expected = 0;
  frame_received = 0;
  frame_damage_count = 0;
  frame_damage_rects = λ i. no_rect;
  presentation_generation = 0;
  presentation_serial = 0;
}

creates : helper_create child display (λ generation frame. true) (λ i. 0) ≡ some fresh
unfolding helper_create output_is_valid
creates = refl

run_calls-IsConsistent_example :
    IsConsistent (run_calls fresh (Call.feed (78 ∷ 66 ∷ []) ∷ Call.suspend 10 ∷ Call.ping 3 ∷ []))
run_calls-IsConsistent_example =
    run_calls-IsConsistent child display (λ generation frame. true) (λ i. 0) fresh
      (Call.feed (78 ∷ 66 ∷ []) ∷ Call.suspend 10 ∷ Call.ping 3 ∷ []) creates

keeps_going : (run_calls fresh (Call.suspend 10 ∷ [])).failed ≡ false
unfolding run_calls call helper_suspend suspend_purged enter_suspension abandon_presentation
keeps_going = refl

helper_feed-run_calls_example :
    Finishes 3 (helper_feed (run_calls fresh (Call.suspend 10 ∷ [])) (78 ∷ 66 ∷ 80 ∷ []))
helper_feed-run_calls_example =
    helper_feed-run_calls child display (λ generation frame. true) (λ i. 0) fresh
      (Call.suspend 10 ∷ []) (78 ∷ 66 ∷ 80 ∷ []) creates keeps_going
