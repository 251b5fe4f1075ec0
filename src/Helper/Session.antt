-- ===== src/Helper/Session.antt =====
-- src/privsep_helper.c from the side of the device: suspension, resumption, input, completions,
-- heartbeats and failures, and the queries.
use nix_bench.Prelude.{
  ℕ, ◌+◌, ◌-◌, ◌^◌, Bool, true, false, not, ◌&&◌, ◌||◌, Option, none, some, List, ltb, leb, ◌==◌,
  if◌then◌else◌, take, codes, ℤ,
}
use nix_bench.Privsep.{Output, Body, button_left, button_count, fatal_protocol, fatal_internal}
use nix_bench.Privsep.Valid.{output_is_valid, key_name_from}
use nix_bench.Helper.{
  Helper, HelperError, presentation, allocation, invalid_state, remember_error, is_no_error,
  enqueue_message, stop_helper, fail_helper, enqueue_or_fail, queue_ready,
}
use nix_bench.Helper.Outbound.{purge_unsent_input}

-- What a suspension does to the frames, with the serial that it reports as abandoned.
unfoldable pub abandoned_by : Helper → ℕ
abandoned_by h =
    if h.presentation_pending
    then h.presentation_serial
    else if h.frame_open
    then h.frame_serial
    else 0

unfoldable pub abandon_presentation : Helper → Helper
abandon_presentation h =
    if h.presentation_pending
    then record h {
      abandoned_generation = h.presentation_generation;
      abandoned_serial = h.presentation_serial;
      presentation_pending = false;
    }
    else h

unfoldable pub enter_suspension : Helper → Helper
enter_suspension h =
    let h' = abandon_presentation h in
    record h' {
      frame_stale = if h'.frame_open then true else h'.frame_stale;
      staging_valid = false;
      generation = h'.generation + 1;
      suspended = true;
    }

unfoldable pub suspend_purged : Helper → ℕ → Helper × Bool
suspend_purged h milliseconds =
    let h' = enter_suspension h in
    if not h'.ready_sent
    then (h', true)
    else enqueue_or_fail h'
        (Body.suspend (record {
          generation = h'.generation;
          milliseconds = milliseconds;
          abandoned_frame_serial = abandoned_by h;
        }))
        false

unfoldable pub helper_suspend : Helper → ℕ → Helper × Bool
helper_suspend h milliseconds =
    let (h', purged) = if h.ready_sent then purge_unsent_input h else (h, true) in
    if h.failed || h.shutdown_requested || h.suspended || h.generation == 2 ^ 64 - 1
    then (h, false)
    else if not purged
    then fail_helper h' invalid_state fatal_internal 0
        (codes "could not prioritize session suspension")
    else suspend_purged h' milliseconds

-- `replacement` is what `malloc` gives, `none` where it fails; it is asked for another size only.
unfoldable pub take_output : Helper → Output → Option (ℕ → ℕ) → Option Helper
take_output h output replacement =
    let resized : Option Helper = elim replacement [
      | none ↦ none
      | some staging ↦ some (record h { staging = staging; staging_size = output.frame_bytes })
    ] in
    if output.frame_bytes == h.staging_size then some h else resized

unfoldable pub resume_with : Output → Helper → Helper × Bool
resume_with output h =
    let h' : Helper = record h { output = output; staging_valid = false; suspended = false } in
    let (h'', queued) = queue_ready h' h'.ready_sent in
    if not h'.hello_received
    then (h', true)
    else if not queued
    then (h'', false)
    else (record h'' { ready_sent = true }, true)

unfoldable pub resume_resized : Helper → Output → Option Helper → Helper × Bool
resume_resized h output none =
    fail_helper h allocation fatal_internal 0 (codes "could not resize trusted frame staging")
resume_resized h output (some h') = resume_with output h'

unfoldable pub helper_resume : Helper → Output → Option (ℕ → ℕ) → Helper × Bool
helper_resume h output replacement =
    if h.failed || h.shutdown_requested || not h.suspended || not (output_is_valid output)
    then (h, false)
    else resume_resized h output (take_output h output replacement)

-- The events of `nb_host_event` that the helper tells apart.
pub data HostEvent : Type 0 where
  pointer_motion : (milliseconds : ℕ) → (x y : ℤ) → HostEvent
  pointer_button : (milliseconds : ℕ) → (x y : ℤ) → (button : ℕ) → (pressed : Bool) → HostEvent
  key : (milliseconds : ℕ) → (xkb_key_name : List ℕ) → (pressed repeat : Bool) → HostEvent
  other_event : HostEvent

unfoldable pub input_event_is_supported : HostEvent → Bool
input_event_is_supported (pointer_motion milliseconds x y) = true
input_event_is_supported (pointer_button milliseconds x y button pressed) =
    leb button_left button && ltb button button_count
input_event_is_supported (key milliseconds name pressed repeat) =
    if repeat && not pressed then false else key_name_from 0 name
input_event_is_supported other_event = false

unfoldable pub input_body : ℕ → HostEvent → Body
input_body generation (pointer_motion milliseconds x y) =
    Body.pointer_motion
      (record { generation = generation; milliseconds = milliseconds; x = x; y = y })
input_body generation (pointer_button milliseconds x y button pressed) =
    Body.pointer_button (record {
      generation = generation;
      milliseconds = milliseconds;
      x = x;
      y = y;
      button = button;
      pressed = pressed;
    })
input_body generation (key milliseconds name pressed repeat) = Body.key (record {
  generation = generation;
  milliseconds = milliseconds;
  xkb_key_name = name;
  pressed = pressed;
  repeat = repeat;
})
input_body generation other_event = Body.unknown 0

unfoldable pub send_input : Helper → HostEvent → Helper × Bool
send_input h event =
    if h.failed
      || h.shutdown_requested
      || not h.ready_sent
      || h.suspended
      || not (input_event_is_supported event)
    then (h, false)
    else enqueue_or_fail h (input_body h.generation event) true

unfoldable pub forget_abandoned : Helper → ℕ → ℕ → Helper
forget_abandoned h generation serial =
    if generation == h.abandoned_generation && serial == h.abandoned_serial
    then record h { abandoned_generation = 0; abandoned_serial = 0 }
    else h

unfoldable pub complete_frame : Helper → ℕ → ℕ → ℕ → Helper × Bool
complete_frame h generation serial milliseconds =
    let body =
      Body.frame_complete
        (record { generation = generation; serial = serial; milliseconds = milliseconds }) in
    let (h', queued) = enqueue_or_fail h body false in
    if h.failed || h.shutdown_requested
    then (h, false)
    else if ltb generation h.generation && not (serial == 0) && leb serial h.last_submitted_serial
    then (forget_abandoned h generation serial, true)
    else if not h.presentation_pending
    then fail_helper h invalid_state fatal_internal 0
        (codes "unexpected privileged frame completion")
    else if not (generation == h.presentation_generation) || not (serial == h.presentation_serial)
    then fail_helper h invalid_state fatal_internal 0
        (codes "privileged frame completion serial mismatch")
    else if not queued
    then (h', false)
    else (record h' { presentation_pending = false }, true)

unfoldable pub send_ping : Helper → ℕ → Helper × Bool
send_ping h token =
    let (h', queued) = enqueue_or_fail h (Body.ping token) false in
    if h.failed
      || h.shutdown_requested
      || not h.ready_sent
      || h.ping_outstanding
      || h.pong_available
      || token == 0
    then (h, false)
    else if not queued
    then (h', false)
    else (record h' { ping_outstanding = true; ping_token = token }, true)

unfoldable pub report_fatal : Helper → ℕ → ℕ → List ℕ → Helper × Bool
report_fatal h reason system_error message =
    let h' = remember_error h presentation system_error message in
    let fatal =
      Body.fatal
        (record { reason = reason; system_error = system_error; generation = h'.generation }) in
    let (h'', queued) = enqueue_message h' fatal false in
    if h.failed || ltb reason fatal_protocol || ltb fatal_internal reason
    then (h, false)
    else (stop_helper h'', queued)

unfoldable pub is_ready : Helper → Bool
is_ready h = h.ready_sent && not h.failed

unfoldable pub is_suspended : Helper → Bool
is_suspended h = h.suspended

unfoldable pub is_presentation_pending : Helper → Bool
is_presentation_pending h = h.presentation_pending

unfoldable pub generation_of : Helper → ℕ
generation_of h = h.generation

unfoldable pub is_ping_outstanding : Helper → Bool
is_ping_outstanding h = h.ping_outstanding

unfoldable pub take_pong : Helper → Helper × Option ℕ
take_pong h =
    if not h.pong_available
    then (h, none)
    else (record h { pong_available = false }, some h.pong_token)

unfoldable pub shutdown_request : Helper → Option ℕ
shutdown_request h = if not h.shutdown_requested then none else some h.shutdown_request_id

unfoldable pub helper_failed : Helper → Bool
helper_failed h = h.failed

-- The error with its system error and its text, in a buffer of `message_size` bytes.
unfoldable pub get_last_error : Helper → ℕ → Option (HelperError × ℕ × List ℕ)
get_last_error h message_size =
    if message_size == 0 || is_no_error h.error
    then none
    else some (h.error, h.system_error, take (message_size - 1) h.error_message)
