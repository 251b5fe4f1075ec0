-- ===== src/Privsep/Sizes.antt =====
-- The sizes of payloads on the wire, of src/privsep_protocol.c.
use nix_bench.Prelude.{
  ℕ, ◌+◌, ◌-◌, ◌*◌, ◌/◌, ◌%◌, ◌^◌, Bool, false, not, ◌&&◌, ◌||◌, Option, none, some, ltb, leb, ◌==◌,
  if◌then◌else◌,
}
use nix_bench.Privsep.{
  max_payload_size, frame_data_prefix_size, max_damage_rects, MessageType, Body, type_of,
}
use nix_bench.Privsep.Valid.{wire_damage_count}

abbrev pub frame_begin_prefix_size : ℕ
frame_begin_prefix_size = 24

abbrev pub frame_begin_rect_size : ℕ
frame_begin_rect_size = 16

unfoldable pub fixed_payload_size : MessageType → Option ℕ
fixed_payload_size MessageType.core_hello = some 32
fixed_payload_size MessageType.frame_begin = none
fixed_payload_size MessageType.frame_commit = some 16
fixed_payload_size MessageType.frame_abort = some 16
fixed_payload_size MessageType.pong = some 8
fixed_payload_size MessageType.shutdown_request = some 8
fixed_payload_size MessageType.ping = some 8
fixed_payload_size MessageType.shutdown_accepted = some 8
fixed_payload_size MessageType.ready = some 40
fixed_payload_size MessageType.resume = some 40
fixed_payload_size MessageType.suspend = some 24
fixed_payload_size MessageType.pointer_motion = some 24
fixed_payload_size MessageType.pointer_button = some 32
fixed_payload_size MessageType.key = some 24
fixed_payload_size MessageType.frame_complete = some 24
fixed_payload_size MessageType.fatal = some 16
fixed_payload_size MessageType.frame_data = none
fixed_payload_size (MessageType.unknown n) = none

unfoldable pub is_expected_size : Option ℕ → ℕ → Bool
is_expected_size none payload_size = false
is_expected_size (some expected) payload_size = payload_size == expected

unfoldable pub wire_payload_size_is_valid : MessageType → ℕ → Bool
unfolding fixed_payload_size is_expected_size
wire_payload_size_is_valid MessageType.frame_data payload_size =
    ltb frame_data_prefix_size payload_size && leb payload_size max_payload_size
wire_payload_size_is_valid MessageType.frame_begin payload_size =
    if ltb payload_size frame_begin_prefix_size
      || not ((payload_size - frame_begin_prefix_size) % frame_begin_rect_size == 0)
    then false
    else leb ((payload_size - frame_begin_prefix_size) / frame_begin_rect_size % 2 ^ 32)
        max_damage_rects
wire_payload_size_is_valid type payload_size =
    is_expected_size (fixed_payload_size type) payload_size

unfoldable pub message_payload_size : Body → Option ℕ
unfolding fixed_payload_size
message_payload_size (Body.frame_data f) = some (frame_data_prefix_size + f.size)
message_payload_size (Body.frame_begin f) =
    some (frame_begin_prefix_size + wire_damage_count f * frame_begin_rect_size)
message_payload_size body = fixed_payload_size (type_of body)
