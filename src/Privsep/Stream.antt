-- ===== src/Privsep/Stream.antt =====
-- Whole messages of src/privsep_protocol.c: how they are written, and the parser that takes them from
-- a byte stream in any pieces.
pub mod Sound
pub mod PayloadPieces
pub mod HeaderPieces
pub mod Pieces
pub mod HeaderBytes
pub mod Deliver
pub mod Accepted
pub mod Progress
use nix_bench.Prelude.{
  ℕ, zero, suc, ◌+◌, ◌-◌, ◌*◌, ◌/◌, ◌%◌, ◌^◌, Bool, true, false, not, ◌&&◌, ◌||◌, Option, none,
  some, List, [], ◌∷◌, ◌++◌, ltb, leb, ◌==◌, if◌then◌else◌, take, drop, length,
}
use nix_bench.Privsep.{
  protocol_magic, protocol_version, header_size, max_payload_size, Endpoint, MessageType, Body,
  Message, type_of, type_code, type_from_code, Parser, ParseStatus, Fed,
}
use nix_bench.Privsep.Bytes.{store_u16, store_u32, store_u64, load_u16, load_u32, load_u64}
use nix_bench.Privsep.Valid.{endpoint_is_valid, message_type_is_from, message_is_valid}
use nix_bench.Privsep.Sizes.{message_payload_size, wire_payload_size_is_valid}
use nix_bench.Privsep.Encode.{encode_payload}
use nix_bench.Privsep.Decode.{decode_payload}

unfoldable pub encode_header : MessageType → ℕ → ℕ → List ℕ
unfolding store_u16 store_u32 store_u64
encode_header type payload_size sequence =
    store_u32 protocol_magic
    ++ (store_u16 protocol_version
        ++ (store_u16 (type_code type)
            ++ (store_u32 (payload_size % 2 ^ 32) ++ (store_u32 0 ++ store_u64 sequence))))

-- The stores of an encoder, once the size of the payload is known.
unfoldable pub encode_sized : ℕ → Body → ℕ → Option ℕ → Option (List ℕ)
encode_sized sequence body destination_size none = none
encode_sized sequence body destination_size (some payload_size) =
    if ltb destination_size (header_size + payload_size)
    then none
    else some (encode_header (type_of body) payload_size sequence ++ encode_payload body)

-- The bytes that the message takes at the destination, or `none` where the call fails; their number
-- is `*encoded_size`.
unfoldable pub message_encode : Endpoint → ℕ → Body → ℕ → Option (List ℕ)
message_encode sender sequence body destination_size =
    if sequence == 0 || not (message_is_valid sender body)
    then none
    else encode_sized sequence body destination_size (message_payload_size body)

unfoldable pub parser_init : Endpoint → Parser
parser_init sender = record {
  sender = sender;
  expected_sequence = 1;
  header = [];
  payload = [];
  payload_expected = 0;
  pending_type = MessageType.unknown 0;
  pending_sequence = 0;
  header_decoded = false;
  sequence_exhausted = false;
  failed = not (endpoint_is_valid sender);
}

-- `none` where the header is refused, which changes nothing.
unfoldable pub decode_header : Parser → Option Parser
decode_header p =
    let type = type_from_code (load_u16 (drop 6 p.header)) in
    let payload_size = load_u32 (drop 8 p.header) in
    let sequence = load_u64 (drop 16 p.header) in
    if not (load_u32 p.header == protocol_magic)
      || not (load_u16 (drop 4 p.header) == protocol_version)
      || not (load_u32 (drop 12 p.header) == 0)
      || p.sequence_exhausted
      || not (sequence == p.expected_sequence)
      || not (message_type_is_from type p.sender)
      || ltb max_payload_size payload_size
      || not (wire_payload_size_is_valid type payload_size)
    then none
    else some (record p {
      pending_type = type;
      pending_sequence = sequence;
      payload_expected = payload_size;
      header_decoded = true;
    })

unfoldable pub fail_parser : Parser → ℕ → Fed
fail_parser p consumed = record {
  parser = record p { failed = true };
  status = ParseStatus.error;
  consumed = consumed;
}

unfoldable pub needs_more : Parser → ℕ → Fed
needs_more p consumed = record { parser = p; status = ParseStatus.need_more; consumed = consumed }

-- Of what is wanted, as much as there is.
unfoldable pub amount_of : ℕ → List ℕ → ℕ
amount_of wanted source = if ltb (length source) wanted then length source else wanted

-- The parser after a message, ready for the next header.
unfoldable pub next_parser : Parser → Parser
next_parser p = record p {
  expected_sequence =
      if p.pending_sequence == 2 ^ 64 - 1 then p.expected_sequence else p.pending_sequence + 1;
  header = [];
  payload = [];
  payload_expected = 0;
  pending_type = MessageType.unknown 0;
  pending_sequence = 0;
  header_decoded = false;
  sequence_exhausted = if p.pending_sequence == 2 ^ 64 - 1 then true else p.sequence_exhausted;
}

-- The end of a feed, with the payload decoded or not.
unfoldable pub feed_finish : Parser → ℕ → Option Body → Fed
feed_finish p consumed none = fail_parser p consumed
feed_finish p consumed (some body) =
    if not (message_is_valid p.sender body) then fail_parser p consumed else record {
      parser = next_parser p;
      status = ParseStatus.message (record { sequence = p.pending_sequence; body = body });
      consumed = consumed;
    }

unfoldable pub feed_complete : Parser → ℕ → Fed
feed_complete p consumed =
    feed_finish p consumed (decode_payload p.pending_type p.payload p.payload_expected)

-- The payload's part of a feed, from `source` on, and its test after the copy.
unfoldable pub feed_filled : Parser → ℕ → Fed
feed_filled p consumed =
    if not (length p.payload == p.payload_expected)
    then needs_more p consumed
    else feed_complete p consumed

unfoldable pub feed_payload : Parser → List ℕ → ℕ → Fed
feed_payload p source consumed =
    let amount = amount_of ((p.payload_expected + 2 ^ 64 - length p.payload) % 2 ^ 64) source in
    feed_filled (record p { payload = p.payload ++ take amount source }) (consumed + amount)

-- `decoded` is what became of the header.
unfoldable pub feed_announced : Parser → List ℕ → ℕ → Option Parser → Fed
feed_announced p source consumed none = fail_parser p consumed
feed_announced p source consumed (some decoded) = feed_payload decoded source consumed

unfoldable pub feed_decoded : Parser → List ℕ → ℕ → Fed
feed_decoded p source consumed =
    if p.header_decoded
    then feed_payload p source consumed
    else feed_announced p source consumed (decode_header p)

-- The header's part of a feed, and its test after the copy; `source` is what is left then.
unfoldable pub feed_received : Parser → List ℕ → ℕ → Fed
feed_received p source consumed =
    if not (length p.header == header_size)
    then needs_more p consumed
    else feed_decoded p source consumed

unfoldable pub feed_header : Parser → List ℕ → Fed
feed_header p source =
    let amount = amount_of (header_size - length p.header) source in
    feed_received (record p { header = p.header ++ take amount source }) (drop amount source) amount

unfoldable pub parser_feed : Parser → List ℕ → Fed
parser_feed p bytes =
    if p.failed
    then record { parser = p; status = ParseStatus.error; consumed = 0 }
    else if ltb (length p.header) header_size
    then feed_header p bytes
    else feed_decoded p bytes 0

unfoldable pub at_message_boundary : Parser → Bool
at_message_boundary p =
    not p.failed && length p.header == 0 && length p.payload == 0 && not p.header_decoded

unfoldable pub parser_failed : Parser → Bool
parser_failed p = p.failed
