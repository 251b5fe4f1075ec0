-- ===== src/Privsep/Tests.antt =====
-- Runs of the protocol, and its theorems at concrete inputs.
use nix_bench.Prelude.{
  ℕ, ◌≡◌, ◌≤◌, refl, true, false, List, [], ◌∷◌, ◌++◌, none, some, length, take, drop, arith,
}
use nix_bench.Privsep.{
  core, helper, Body, DamageRect, Message, ParseStatus, type_from_code, type_code,
}
use nix_bench.Privsep.Bytes.{store_u16, store_u32, store_u64, load_u16, load_u32, load_u64, byte_at}
use nix_bench.Privsep.Valid.{
  endpoint_is_valid, message_is_valid, body_is_valid, message_type_is_from, frame_begin_is_valid,
  wire_damage_count, wire_damage_at, damage_loop, damage_rect_fails, differ, rect_at,
}
use nix_bench.Privsep.Sizes.{message_payload_size, wire_payload_size_is_valid}
use nix_bench.Privsep.Encode.{encode_payload, encode_rects, encode_rect}
use nix_bench.Privsep.Decode.{
  decode_payload, decode_frame_begin, decode_rects, decode_rect, first_rect,
}
use nix_bench.Privsep.RoundTrip.Canonical.{canonical}
use nix_bench.Privsep.Stream.{
  message_encode, encode_header, encode_sized, parser_init, parser_feed, at_message_boundary,
  feed_header, feed_received, feed_decoded, feed_announced, feed_payload, feed_filled,
  feed_complete, feed_finish, fail_parser, needs_more, amount_of, next_parser, decode_header,
}
use nix_bench.Privsep.Stream.Sound.{IsSound, parser_init-IsSound, parser_feed-IsSound}
use nix_bench.Privsep.Stream.Deliver.{after_message, parser_feed-message_encode}
use nix_bench.Privsep.Stream.PayloadPieces.{later}
use nix_bench.Privsep.Stream.Pieces.{parser_feed-append}
use nix_bench.Privsep.Stream.Accepted.{Accepts, parser_feed-Accepts}
use nix_bench.Privsep.Stream.Progress.{parser_feed-consumed, parser_feed_error}

-- A frame of 10 by 20 pixels with its rectangle in the fields for one, and with it in the array.
abbrev rect : DamageRect
rect = record { x = 1; y = 2; width = 10; height = 20 }

abbrev frame : Body
frame = Body.frame_begin (record {
  generation = 7;
  serial = 3;
  frame_bytes = 800;
  damage = rect;
  damage_count = 0;
  damage_rects = [];
})

abbrev bytes : List ℕ
bytes =
    78 ∷ 66 ∷ 80 ∷ 67 ∷ 0 ∷ 3 ∷ 0 ∷ 2 ∷ 0 ∷ 0 ∷ 0 ∷ 40 ∷ 0 ∷ 0 ∷ 0 ∷ 0 ∷ 0 ∷ 0 ∷ 0 ∷ 0 ∷ 0 ∷ 0 ∷ 0
    ∷ 1 ∷ 0 ∷ 0 ∷ 0 ∷ 0 ∷ 0 ∷ 0 ∷ 0 ∷ 7 ∷ 0 ∷ 0 ∷ 0 ∷ 0 ∷ 0 ∷ 0 ∷ 0 ∷ 3 ∷ 0 ∷ 0 ∷ 3 ∷ 32 ∷ 0 ∷ 0 ∷ 0
    ∷ 1 ∷ 0 ∷ 0 ∷ 0 ∷ 1 ∷ 0 ∷ 0 ∷ 0 ∷ 2 ∷ 0 ∷ 0 ∷ 0 ∷ 10 ∷ 0 ∷ 0 ∷ 0 ∷ 20 ∷ []

frame_bytes : message_encode core 1 frame 100 ≡ some bytes
unfolding message_encode encode_sized encode_header store_u16 store_u32 store_u64 type_code
    encode_payload encode_rects encode_rect message_is_valid endpoint_is_valid message_type_is_from
    body_is_valid frame_begin_is_valid wire_damage_count wire_damage_at damage_loop
    damage_rect_fails differ message_payload_size
frame_bytes = refl

no_room : message_encode core 1 frame 63 ≡ none
unfolding message_encode encode_sized message_is_valid endpoint_is_valid message_type_is_from
    body_is_valid frame_begin_is_valid wire_damage_count wire_damage_at damage_loop
    damage_rect_fails differ message_payload_size
no_room = refl

boundary : at_message_boundary (parser_init core) ≡ true
unfolding at_message_boundary parser_init endpoint_is_valid
boundary = refl

fresh : (parser_init core).sequence_exhausted ≡ false
unfolding parser_init
fresh = refl

waits : (parser_feed (parser_init core) (take 30 bytes)).status ≡ ParseStatus.need_more
unfolding parser_init endpoint_is_valid parser_feed feed_header feed_received feed_decoded
    feed_announced feed_payload feed_filled feed_complete feed_finish fail_parser needs_more
    amount_of next_parser decode_header load_u16 load_u32 load_u64 byte_at type_from_code
    message_type_is_from wire_payload_size_is_valid
waits = refl

delivered_encoded :
    message_encode (parser_init core).sender (parser_init core).expected_sequence frame 100
    ≡ some bytes
unfolding parser_init
delivered_encoded = frame_bytes

parser_feed-message_encode_example : parser_feed (parser_init core) (bytes ++ (78 ∷ [])) ≡ record {
  parser = after_message (parser_init core);
  status =
      ParseStatus.message
        (record { sequence = (parser_init core).expected_sequence; body = canonical frame });
  consumed = length bytes;
}
parser_feed-message_encode_example =
    parser_feed-message_encode (parser_init core) frame 100 bytes (78 ∷ [])
      (parser_init-IsSound core) boundary fresh (omega arith) delivered_encoded

parser_feed-append_example :
    parser_feed (parser_init core) (take 30 bytes ++ drop 30 bytes)
    ≡ later
        (length (take 30 bytes))
        (parser_feed (parser_feed (parser_init core) (take 30 bytes)).parser (drop 30 bytes))
parser_feed-append_example =
    parser_feed-append (parser_init core) (take 30 bytes) (drop 30 bytes) (parser_init-IsSound core)
      waits

parser_feed-IsSound_example : IsSound (parser_feed (parser_init core) (take 30 bytes)).parser
parser_feed-IsSound_example =
    parser_feed-IsSound (parser_init core) (take 30 bytes) (parser_init-IsSound core)

abbrev first_message : Message
first_message = record {
  sequence = 1;
  body = Body.frame_begin (record {
    generation = 7;
    serial = 3;
    frame_bytes = 800;
    damage = rect;
    damage_count = 1;
    damage_rects = rect ∷ [];
  });
}

reports : (parser_feed (parser_init core) bytes).status ≡ ParseStatus.message first_message
unfolding parser_init endpoint_is_valid parser_feed feed_header feed_received feed_decoded
    feed_announced feed_payload feed_filled feed_complete feed_finish fail_parser needs_more
    amount_of next_parser decode_header load_u16 load_u32 load_u64 byte_at type_from_code
    message_type_is_from wire_payload_size_is_valid decode_payload decode_frame_begin decode_rects
    decode_rect first_rect message_is_valid body_is_valid frame_begin_is_valid wire_damage_count
    wire_damage_at damage_loop damage_rect_fails differ rect_at
reports = refl

parser_feed-Accepts_example :
    Accepts (parser_init core) first_message (parser_feed (parser_init core) bytes).parser
parser_feed-Accepts_example =
    parser_feed-Accepts (parser_init core) bytes first_message (parser_init-IsSound core) reports

alive : (parser_init core).failed ≡ false
unfolding parser_init endpoint_is_valid
alive = refl

parser_feed-consumed_example :
    (1 ≤ (parser_feed (parser_init core) (take 30 bytes)).consumed)
    × ((parser_feed (parser_init core) (take 30 bytes)).consumed ≤ length (take 30 bytes))
parser_feed-consumed_example =
    parser_feed-consumed (parser_init core) (take 30 bytes) (parser_init-IsSound core) alive
      (omega arith)

-- The helper's parser does not take a message of the core.
refuses : (parser_feed (parser_init helper) bytes).status ≡ ParseStatus.error
unfolding parser_init endpoint_is_valid parser_feed feed_header feed_received feed_decoded
    feed_announced feed_payload feed_filled feed_complete feed_finish fail_parser needs_more
    amount_of next_parser decode_header load_u16 load_u32 load_u64 byte_at type_from_code
    message_type_is_from wire_payload_size_is_valid
refuses = refl

parser_feed_error_example :
    let q = (parser_feed (parser_init helper) bytes).parser in
    parser_feed q bytes ≡ record { parser = q; status = ParseStatus.error; consumed = 0 }
parser_feed_error_example = parser_feed_error (parser_init helper) bytes bytes refuses
