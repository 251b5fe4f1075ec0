-- ===== src/Helper.antt =====
-- src/privsep_helper.h and the first part of src/privsep_helper.c: the state of the privileged
-- helper, its queue of outbound messages, and how it fails. The buffers `staging` and `outbound` and
-- the array of records are functions of the index.
pub mod Outbound
pub mod Frames
pub mod Messages
pub mod Session
pub mod Keeps
pub mod Loops
pub mod Ring
pub mod Queue
pub mod Consistent
pub mod Handlers
pub mod Dispatch
pub mod Calls
pub mod Grows
pub mod Runs
pub mod Onward
pub mod Suspended
pub mod Late
pub mod Columns
pub mod Parsing
mod Tests
use nix_bench.Prelude.{
  ℕ, zero, suc, ◌+◌, ◌-◌, ◌*◌, ◌/◌, ◌%◌, ◌^◌, Bool, true, false, not, ◌&&◌, ◌||◌, Option, none,
  some, List, [], ◌∷◌, ltb, leb, ◌==◌, if◌then◌else◌, take, drop, length, codes, ℤ, pos,
}
use nix_bench.Damage.{Rect}
use nix_bench.Privsep.{header_size, Endpoint, Credentials, Output, Body, Parser}
use nix_bench.Privsep.Bytes.{byte_at}
use nix_bench.Privsep.Valid.{output_is_valid}
use nix_bench.Privsep.Stream.{message_encode, parser_init}

abbrev pub outbound_capacity : ℕ
outbound_capacity = 4096

abbrev pub control_reserve : ℕ
control_reserve = 256

abbrev pub error_capacity : ℕ
error_capacity = 192

abbrev pub max_outbound_message : ℕ
max_outbound_message = header_size + 40

abbrev pub max_outbound_messages : ℕ
max_outbound_messages = outbound_capacity / (header_size + 8)

pub data HelperError : Type 0 where
  no_error protocol credentials outbound_full presentation allocation invalid_state : HelperError

-- The numbers of `enum nb_privsep_fatal_reason` that the helper uses.
abbrev pub fatal_device : ℕ
fatal_device = 2

abbrev pub fatal_core_unresponsive : ℕ
fatal_core_unresponsive = 3

-- The frame that the presentation callback is shown, with the pixels of the call.
pub record HostFrame : Type 0 where
  pub pixels : ℕ → ℕ
  pub width : ℕ
  pub height : ℕ
  pub stride : ℕ
  pub serial : ℕ
  pub damage : Rect
  pub damage_rects : ℕ → Rect
  pub damage_count : ℕ

pub record OutboundRecord : Type 0 where
  pub remaining : ℕ
  pub sequence : ℕ
  pub input : Bool
  pub started : Bool

-- `present` is the callback with its data.
pub record Helper : Type 0 where
  pub parser : Parser
  pub expected_credentials : Credentials
  pub output : Output
  pub present : ℕ → HostFrame → Bool
  pub staging : ℕ → ℕ
  pub staging_size : ℕ
  pub staging_valid : Bool
  pub outbound : ℕ → ℕ
  pub outbound_head : ℕ
  pub outbound_size : ℕ
  pub outbound_records : ℕ → OutboundRecord
  pub outbound_record_head : ℕ
  pub outbound_record_count : ℕ
  pub next_outbound_sequence : ℕ
  pub outbound_sequence_exhausted : Bool
  pub generation : ℕ
  pub last_submitted_serial : ℕ
  pub hello_received : Bool
  pub ready_sent : Bool
  pub suspended : Bool
  pub frame_open : Bool
  pub frame_stale : Bool
  pub frame_generation : ℕ
  pub frame_serial : ℕ
  pub frame_expected : ℕ
  pub frame_received : ℕ
  pub frame_damage_count : ℕ
  pub frame_damage_rects : ℕ → Rect
  pub presentation_pending : Bool
  pub presentation_generation : ℕ
  pub presentation_serial : ℕ
  pub abandoned_generation : ℕ
  pub abandoned_serial : ℕ
  pub ping_outstanding : Bool
  pub ping_token : ℕ
  pub pong_available : Bool
  pub pong_token : ℕ
  pub shutdown_requested : Bool
  pub shutdown_request_id : ℕ
  pub error : HelperError
  pub system_error : ℕ
  pub error_message : List ℕ
  pub failed : Bool

abbrev pub no_rect : Rect
no_rect = record { x = pos 0; y = pos 0; width = pos 0; height = pos 0 }

abbrev pub no_record : OutboundRecord
no_record = record { remaining = 0; sequence = 0; input = false; started = false }

-- `a - b` on `size_t`.
abbrev pub size_sub : ℕ → ℕ → ℕ
size_sub a b = (a + 2 ^ 64 - b) % 2 ^ 64

-- `memcpy(buffer + position, bytes, length)`
unfoldable pub copy_in : (ℕ → ℕ) → ℕ → List ℕ → ℕ → ℕ
copy_in buffer position bytes j =
    if leb position j && ltb j (position + length bytes)
    then byte_at bytes (j - position)
    else buffer j

unfoldable pub set_record : (ℕ → OutboundRecord) → ℕ → OutboundRecord → ℕ → OutboundRecord
set_record records i r j = if j == i then r else records j

unfoldable pub credentials_equal : Credentials → Credentials → Bool
credentials_equal left right =
    left.process_id == right.process_id
    && left.real_user_id == right.real_user_id
    && left.effective_user_id == right.effective_user_id
    && left.saved_user_id == right.saved_user_id
    && left.real_group_id == right.real_group_id
    && left.effective_group_id == right.effective_group_id
    && left.saved_group_id == right.saved_group_id

unfoldable pub is_no_error : HelperError → Bool
is_no_error no_error = true
is_no_error _ = false

unfoldable pub remember_error : Helper → HelperError → ℕ → List ℕ → Helper
remember_error h e system_error message = if not (is_no_error h.error) then h else record h {
  error = e;
  system_error = system_error;
  error_message = take (error_capacity - 1) message;
}

-- The stores of `enqueue_message`, once the message is known to fit.
unfoldable pub put_wire : Helper → List ℕ → Bool → Helper
put_wire h wire input =
    let tail = (h.outbound_head + h.outbound_size) % outbound_capacity in
    let first =
      if ltb (length wire) (outbound_capacity - tail)
      then length wire
      else outbound_capacity - tail in
    let record_tail = (h.outbound_record_head + h.outbound_record_count) % max_outbound_messages in
    record h {
      outbound = copy_in (copy_in h.outbound tail (take first wire)) 0 (drop first wire);
      outbound_size = h.outbound_size + length wire;
      outbound_records = set_record h.outbound_records record_tail (record {
        remaining = length wire;
        sequence = h.next_outbound_sequence;
        input = input;
        started = false;
      });
      outbound_record_count = h.outbound_record_count + 1;
      next_outbound_sequence =
          if h.next_outbound_sequence == 2 ^ 64 - 1
          then h.next_outbound_sequence
          else h.next_outbound_sequence + 1;
      outbound_sequence_exhausted =
          if h.next_outbound_sequence == 2 ^ 64 - 1 then true else h.outbound_sequence_exhausted;
    }

unfoldable pub enqueue_wire : Helper → Bool → Option (List ℕ) → Helper × Bool
enqueue_wire h input none = (h, false)
enqueue_wire h input (some wire) =
    let available = size_sub outbound_capacity h.outbound_size in
    if ltb available (length wire) || input && ltb (available - length wire) control_reserve
    then (h, false)
    else (put_wire h wire input, true)

unfoldable pub enqueue_message : Helper → Body → Bool → Helper × Bool
enqueue_message h body input =
    if h.outbound_sequence_exhausted || h.outbound_record_count == max_outbound_messages
    then (h, false)
    else enqueue_wire h input
        (message_encode Endpoint.helper h.next_outbound_sequence body max_outbound_message)

-- The end of `fail_helper` and `report_fatal`.
unfoldable pub stop_helper : Helper → Helper
stop_helper h = record h { failed = true; frame_open = false; presentation_pending = false }

unfoldable pub fail_helper : Helper → HelperError → ℕ → ℕ → List ℕ → Helper × Bool
fail_helper h e reason system_error message =
    let h' = remember_error h e system_error message in
    let fatal =
      Body.fatal
        (record { reason = reason; system_error = system_error; generation = h'.generation }) in
    if h.failed then (h, false) else (stop_helper (enqueue_message h' fatal false).0, false)

unfoldable pub enqueue_or_fail : Helper → Body → Bool → Helper × Bool
enqueue_or_fail h body input =
    let (h', queued) = enqueue_message h body input in
    if queued
    then (h', true)
    else fail_helper h' outbound_full fatal_core_unresponsive 0
        (codes "privsep helper outbound queue is full")

-- `none` where the options are refused. The allocations are taken to succeed.
unfoldable pub helper_create :
    Credentials → Output → (ℕ → HostFrame → Bool) → (ℕ → ℕ) → Option Helper
helper_create expected output present staging =
    if expected.process_id == 0 || not (output_is_valid output)
    then none
    else some (record {
      parser = parser_init Endpoint.core;
      expected_credentials = expected;
      output = output;
      present = present;
      staging = staging;
      staging_size = output.frame_bytes;
      staging_valid = false;
      outbound = λ i. 0;
      outbound_head = 0;
      outbound_size = 0;
      outbound_records = λ i. no_record;
      outbound_record_head = 0;
      outbound_record_count = 0;
      next_outbound_sequence = 1;
      outbound_sequence_exhausted = false;
      generation = 1;
      last_submitted_serial = 0;
      hello_received = false;
      ready_sent = false;
      suspended = false;
      frame_open = false;
      frame_stale = false;
      frame_generation = 0;
      frame_serial = 0;
      frame_expected = 0;
      frame_received = 0;
      frame_damage_count = 0;
      frame_damage_rects = λ i. no_rect;
      presentation_pending = false;
      presentation_generation = 0;
      presentation_serial = 0;
      abandoned_generation = 0;
      abandoned_serial = 0;
      ping_outstanding = false;
      ping_token = 0;
      pong_available = false;
      pong_token = 0;
      shutdown_requested = false;
      shutdown_request_id = 0;
      error = no_error;
      system_error = 0;
      error_message = [];
      failed = false;
    })

-- The message with the output, of `queue_ready`.
unfoldable pub ready_body : Bool → Helper → Body
ready_body true h = Body.resume (record { generation = h.generation; output = h.output })
ready_body false h = Body.ready (record { generation = h.generation; output = h.output })

-- `resumes` stands for the type RESUME, else READY.
unfoldable pub queue_ready : Helper → Bool → Helper × Bool
queue_ready h resumes = enqueue_or_fail h (ready_body resumes h) false

unfoldable pub clear_frame : Helper → Helper
clear_frame h = record h {
  frame_open = false;
  frame_stale = false;
  frame_generation = 0;
  frame_serial = 0;
  frame_expected = 0;
  frame_received = 0;
  frame_damage_count = 0;
  frame_damage_rects = λ i. no_rect;
}
