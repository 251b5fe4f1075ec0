-- ===== src/Privsep/Decode.antt =====
-- How src/privsep_protocol.c reads payloads. `payload + n` is the list without its first n bytes.
use nix_bench.Prelude.{
  ℕ, zero, suc, ◌+◌, ◌-◌, ◌*◌, ◌%◌, ◌^◌, Bool, not, ◌||◌, Option, none, some, List, [], ◌∷◌, ltb,
  ◌==◌, if◌then◌else◌, take, drop,
}
use nix_bench.Privsep.{
  frame_data_prefix_size, max_damage_rects, xkb_key_name_capacity, MessageType, Output, DamageRect,
  FrameReference, Ready, Suspend, PointerMotion, FrameComplete, Fatal, Body,
}
use nix_bench.Privsep.Bytes.{byte_at, load_u32, load_u64, load_i32}
use nix_bench.Privsep.Valid.{output_is_valid, no_rect}
use nix_bench.Privsep.Sizes.{frame_begin_prefix_size, frame_begin_rect_size}
use mathlib.Core.Option

unfoldable pub decode_output : List ℕ → Option Output
decode_output source =
    let output : Output = record {
      logical_width = load_u32 source;
      logical_height = load_u32 (drop 4 source);
      pixel_width = load_u32 (drop 8 source);
      pixel_height = load_u32 (drop 12 source);
      refresh_millihertz = load_u32 (drop 16 source);
      stride = load_u32 (drop 20 source);
      frame_bytes = load_u32 (drop 24 source);
      format = load_u32 (drop 28 source);
    } in
    if output_is_valid output then some output else none

unfoldable pub decode_core_hello : List ℕ → Option Body
decode_core_hello payload =
    if not (load_u32 (drop 28 payload) == 0)
    then none
    else some (
        Body.core_hello (record {
          process_id = load_u32 payload;
          real_user_id = load_u32 (drop 4 payload);
          effective_user_id = load_u32 (drop 8 payload);
          saved_user_id = load_u32 (drop 12 payload);
          real_group_id = load_u32 (drop 16 payload);
          effective_group_id = load_u32 (drop 20 payload);
          saved_group_id = load_u32 (drop 24 payload);
        }))

unfoldable pub decode_rect : List ℕ → DamageRect
decode_rect source = record {
  x = load_u32 source;
  y = load_u32 (drop 4 source);
  width = load_u32 (drop 8 source);
  height = load_u32 (drop 12 source);
}

-- The loop over the rectangles, `left` of them still to come.
unfoldable pub decode_rects : List ℕ → ℕ → ℕ → List DamageRect
decode_rects payload zero index = []
decode_rects payload (suc left) index =
    decode_rect (drop (frame_begin_prefix_size + index * frame_begin_rect_size) payload)
    ∷ decode_rects payload left (suc index)

unfoldable pub first_rect : List DamageRect → DamageRect
first_rect [] = no_rect
first_rect (r ∷ rects) = r

unfoldable pub decode_frame_begin : List ℕ → ℕ → Option Body
decode_frame_begin payload payload_size =
    let count = load_u32 (drop 20 payload) in
    let rects = decode_rects payload count 0 in
    if ltb max_damage_rects count
      || not (payload_size == frame_begin_prefix_size + count * frame_begin_rect_size)
    then none
    else some (
        Body.frame_begin (record {
          generation = load_u64 payload;
          serial = load_u64 (drop 8 payload);
          frame_bytes = load_u32 (drop 16 payload);
          damage = first_rect rects;
          damage_count = count;
          damage_rects = rects;
        }))

unfoldable pub decode_frame_data : List ℕ → ℕ → Option Body
decode_frame_data payload payload_size =
    let size = load_u32 (drop 20 payload) in
    if not (size == (payload_size + 2 ^ 64 - frame_data_prefix_size) % 2 ^ 64)
    then none
    else some (
        Body.frame_data (record {
          generation = load_u64 payload;
          serial = load_u64 (drop 8 payload);
          offset = load_u32 (drop 16 payload);
          size = size;
          bytes = some (drop frame_data_prefix_size payload);
        }))

unfoldable pub decode_frame_reference : List ℕ → FrameReference
decode_frame_reference payload = record {
  generation = load_u64 payload;
  serial = load_u64 (drop 8 payload);
}

-- The rest of a `ready` or `resume`, once its output is decoded.
unfoldable pub decode_ready : List ℕ → Option Ready
decode_ready payload = elim (decode_output (drop 8 payload)) [
  | none ↦ none
  | some output ↦ some record { generation = load_u64 payload; output = output }
]

unfoldable pub is_flag : ℕ → Bool
is_flag b = b == 0 || b == 1

unfoldable pub decode_pointer_button : List ℕ → Option Body
decode_pointer_button payload =
    let pressed = byte_at payload 28 in
    if not (is_flag pressed)
      || not (byte_at payload 29 == 0)
      || not (byte_at payload 30 == 0)
      || not (byte_at payload 31 == 0)
    then none
    else some (
        Body.pointer_button (record {
          generation = load_u64 payload;
          milliseconds = load_u64 (drop 8 payload);
          x = load_i32 (drop 16 payload);
          y = load_i32 (drop 20 payload);
          button = load_u32 (drop 24 payload);
          pressed = not (pressed == 0);
        }))

unfoldable pub decode_key : List ℕ → Option Body
decode_key payload =
    let pressed = byte_at payload 21 in
    let repeat = byte_at payload 22 in
    if not (is_flag pressed) || not (is_flag repeat) || not (byte_at payload 23 == 0)
    then none
    else some (
        Body.key (record {
          generation = load_u64 payload;
          milliseconds = load_u64 (drop 8 payload);
          xkb_key_name = take xkb_key_name_capacity (drop 16 payload);
          pressed = not (pressed == 0);
          repeat = not (repeat == 0);
        }))

unfoldable pub decode_suspend : List ℕ → Suspend
decode_suspend payload = record {
  generation = load_u64 payload;
  milliseconds = load_u64 (drop 8 payload);
  abandoned_frame_serial = load_u64 (drop 16 payload);
}

unfoldable pub decode_pointer_motion : List ℕ → PointerMotion
decode_pointer_motion payload = record {
  generation = load_u64 payload;
  milliseconds = load_u64 (drop 8 payload);
  x = load_i32 (drop 16 payload);
  y = load_i32 (drop 20 payload);
}

unfoldable pub decode_frame_complete : List ℕ → FrameComplete
decode_frame_complete payload = record {
  generation = load_u64 payload;
  serial = load_u64 (drop 8 payload);
  milliseconds = load_u64 (drop 16 payload);
}

unfoldable pub decode_fatal : List ℕ → Fatal
decode_fatal payload = record {
  reason = load_u32 payload;
  system_error = load_u32 (drop 4 payload);
  generation = load_u64 (drop 8 payload);
}

unfoldable pub decode_payload : MessageType → List ℕ → ℕ → Option Body
decode_payload MessageType.core_hello payload payload_size = decode_core_hello payload
decode_payload MessageType.frame_begin payload payload_size =
    decode_frame_begin payload payload_size
decode_payload MessageType.frame_data payload payload_size = decode_frame_data payload payload_size
decode_payload MessageType.frame_commit payload payload_size =
    some (Body.frame_commit (decode_frame_reference payload))
decode_payload MessageType.frame_abort payload payload_size =
    some (Body.frame_abort (decode_frame_reference payload))
decode_payload MessageType.ready payload payload_size = Option.map Body.ready (decode_ready payload)
decode_payload MessageType.resume payload payload_size =
    Option.map Body.resume (decode_ready payload)
decode_payload MessageType.suspend payload payload_size =
    some (Body.suspend (decode_suspend payload))
decode_payload MessageType.pointer_motion payload payload_size =
    some (Body.pointer_motion (decode_pointer_motion payload))
decode_payload MessageType.pointer_button payload payload_size = decode_pointer_button payload
decode_payload MessageType.key payload payload_size = decode_key payload
decode_payload MessageType.frame_complete payload payload_size =
    some (Body.frame_complete (decode_frame_complete payload))
decode_payload MessageType.pong payload payload_size = some (Body.pong (load_u64 payload))
decode_payload MessageType.shutdown_request payload payload_size =
    some (Body.shutdown_request (load_u64 payload))
decode_payload MessageType.ping payload payload_size = some (Body.ping (load_u64 payload))
decode_payload MessageType.shutdown_accepted payload payload_size =
    some (Body.shutdown_accepted (load_u64 payload))
decode_payload MessageType.fatal payload payload_size = some (Body.fatal (decode_fatal payload))
decode_payload (MessageType.unknown n) payload payload_size = none
