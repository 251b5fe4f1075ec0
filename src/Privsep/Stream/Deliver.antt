-- ===== src/Privsep/Stream/Deliver.antt =====
-- A message that src/privsep_protocol.c encodes, fed to a parser that expects it.
use nix_bench.Prelude.{
  ℕ, ◌+◌, ◌%◌, ◌^◌, ◌-◌, ◌≤◌, ◌≡◌, refl, ap, ◌∙◌, true, false, not, Option, none, some, List, [],
  ◌∷◌, ◌++◌, arith, if◌then◌else◌, length, take, drop, ◌==◌, if_false, length-append, drop-append,
  take-append_le, take_all,
}
use mathlib.Core.List.{append_assoc}
use nix_bench.Privsep.{
  header_size, max_payload_size, MessageType, Endpoint, Body, Parser, ParseStatus, type_of,
}
use nix_bench.Privsep.Valid.{message_type_is_from, message_is_valid}
use nix_bench.Privsep.Sizes.{message_payload_size}
use nix_bench.Privsep.Encode.{encode_payload}
use nix_bench.Privsep.Decode.{decode_payload}
use nix_bench.Privsep.RoundTrip.Canonical.{canonical, message_is_valid-canonical}
use nix_bench.Privsep.RoundTrip.Lengths.{
  InRange, length-encode_payload, wire_payload_size_is_valid-message_payload_size,
}
use nix_bench.Privsep.RoundTrip.Whole.{decode_payload-encode_payload}
use nix_bench.Privsep.Stream.Sound.{IsSound, with_header}
use nix_bench.Privsep.Stream.PayloadPieces.{parser_feed_header}
use nix_bench.Privsep.Stream.HeaderPieces.{feed_received_full, feed_decoded_new}
use nix_bench.Privsep.Stream.{
  encode_header, encode_sized, message_encode, decode_header, amount_of, next_parser, feed_finish,
  feed_announced, feed_complete, feed_filled, feed_payload, feed_header, parser_feed,
  at_message_boundary,
}
use nix_bench.Privsep.Stream.HeaderBytes.{length-encode_header, decode_header-encode_header}

-- The parser that has taken the message in order and waits for the next.
unfoldable pub after_message : Parser → Parser
after_message p = record p {
  expected_sequence =
      if p.expected_sequence == 2 ^ 64 - 1 then p.expected_sequence else p.expected_sequence + 1;
  header = [];
  payload = [];
  payload_expected = 0;
  pending_type = MessageType.unknown 0;
  pending_sequence = 0;
  header_decoded = false;
  sequence_exhausted = if p.expected_sequence == 2 ^ 64 - 1 then true else p.sequence_exhausted;
}

take_front : (xs ys : List ℕ) → take (length xs) (xs ++ ys) ≡ xs
take_front xs ys = take-append_le (length xs) xs ys (omega arith) ∙ take_all (length xs) xs refl

drop_front : (xs ys : List ℕ) → drop (length xs) (xs ++ ys) ≡ ys
drop_front xs ys = ap (λ (n : ℕ). drop n (xs ++ ys)) (omega arith) ∙ drop-append xs ys 0

amount_front : (n : ℕ) (xs ys : List ℕ) → n ≡ length xs → amount_of n (xs ++ ys) ≡ length xs
unfolding amount_of
amount_front n xs ys h = ground (arith, length-append xs ys)

-- The end of the feed, when the payload is there and decodes to a valid message.
feed_filled_whole :
    (p : Parser) (body : Body) (c : ℕ)
    → p.pending_sequence ≡ p.expected_sequence
    → length p.payload ≡ p.payload_expected
    → decode_payload p.pending_type p.payload p.payload_expected ≡ some body
    → message_is_valid p.sender body ≡ true
    → feed_filled p c ≡ record {
      parser = after_message p;
      status = ParseStatus.message (record { sequence = p.expected_sequence; body = body });
      consumed = c;
    }
unfolding feed_filled feed_complete feed_finish next_parser after_message
feed_filled_whole p body c order size dec valid =
    let done : not (length p.payload == p.payload_expected) ≡ false = ground arith in
    let good : not (message_is_valid p.sender body) ≡ false = rw valid refl in
    if_false _ _ done ∙ ap (feed_finish p c) dec ∙ if_false _ _ good ∙ rw order refl

-- The payload's part of the feed, when all of it is there.
feed_payload_whole :
    (p : Parser) (payload rest : List ℕ) (body : Body) (c : ℕ)
    → p.payload ≡ []
    → p.pending_sequence ≡ p.expected_sequence
    → length payload ≡ p.payload_expected
    → p.payload_expected ≤ max_payload_size
    → decode_payload p.pending_type payload p.payload_expected ≡ some body
    → message_is_valid p.sender body ≡ true
    → feed_payload p (payload ++ rest) c ≡ record {
      parser = after_message p;
      status = ParseStatus.message (record { sequence = p.expected_sequence; body = body });
      consumed = c + length payload;
    }
unfolding feed_payload
feed_payload_whole p payload rest body c empty order size small dec valid =
    let wanted = (p.payload_expected + 2 ^ 64 - length p.payload) % 2 ^ 64 in
    let exact : wanted ≡ length payload = omega (arith, ap length empty) in
    let all = amount_front wanted payload rest exact in
    let taken : p.payload ++ take (amount_of wanted (payload ++ rest)) (payload ++ rest) ≡ payload =
      rw (all, empty) (take_front payload rest) in
    rw (taken, all)
      (unfold after_message in
        feed_filled_whole (record p { payload = payload }) body (c + length payload) order size dec
          valid)

-- What an encoder that succeeds has written.
encode_sized-some :
    (sequence : ℕ) (body : Body) (room : ℕ) (r : Option ℕ) (bytes : List ℕ)
    → encode_sized sequence body room r ≡ some bytes
    → (size : ℕ) × (r ≡ some size)
      × (header_size + size ≤ room)
      × (bytes ≡ encode_header (type_of body) size sequence ++ encode_payload body)
unfolding encode_sized
encode_sized-some sequence body room none bytes e = cc
encode_sized-some sequence body room (some size) bytes e = (size, refl, ground arith, ground arith)

pub message_encode-some :
    (sender : Endpoint) (sequence : ℕ) (body : Body) (room : ℕ) (bytes : List ℕ)
    → message_encode sender sequence body room ≡ some bytes
    → (message_is_valid sender body ≡ true)
      × ((size : ℕ) × (message_payload_size body ≡ some size)
          × (header_size + size ≤ room)
          × (bytes ≡ encode_header (type_of body) size sequence ++ encode_payload body))
unfolding message_encode
message_encode-some sender sequence body room bytes e =
    let r = message_payload_size body in
    let written : encode_sized sequence body room r ≡ some bytes = ground arith in
    (ground arith, encode_sized-some sequence body room r bytes written)

nil_of_length : (xs : List ℕ) → length xs ≡ 0 → xs ≡ []
nil_of_length [] h = refl
nil_of_length (x ∷ xs) h = absurd (omega arith)

-- A parser between two messages.
pub boundary_parts :
    (p : Parser)
    → at_message_boundary p ≡ true
    → (p.failed ≡ false) × (p.header ≡ []) × (p.payload ≡ []) × (p.header_decoded ≡ false)
unfolding at_message_boundary
boundary_parts p h = (
  ground arith,
  nil_of_length p.header (ground arith),
  nil_of_length p.payload (ground arith),
  ground arith,
)

-- The header's part of the feed, when all of it is there.
feed_header_whole :
    (p : Parser) (header rest : List ℕ)
    → p.header ≡ []
    → p.header_decoded ≡ false
    → length header ≡ header_size
    → feed_header p (header ++ rest)
      ≡ feed_announced
          (with_header p header)
          rest
          header_size
          (decode_header (with_header p header))
unfolding feed_header
feed_header_whole p header rest empty d full =
    let wanted = header_size - length p.header in
    let all = amount_front wanted header rest (omega (arith, ap length empty)) in
    let q = with_header p header in
    let taken : p.header ++ take (amount_of wanted (header ++ rest)) (header ++ rest) ≡ header =
      rw (all, empty) (take_front header rest) in
    rw (taken, all)
      (rw (drop_front header rest, full)
        (feed_received_full q rest header_size full ∙ feed_decoded_new q rest header_size d))

valid_from :
    (sender : Endpoint) (body : Body)
    → message_is_valid sender body ≡ true
    → message_type_is_from (type_of body) sender ≡ true
unfolding message_is_valid
valid_from sender body v = ground arith

-- A message that was encoded for the sequence number that a parser between two messages expects is
-- delivered by one feed, whatever bytes follow it: exactly its bytes are consumed, the message has its
-- number and its body in canonical form, and the parser expects the next number, or none after the last.
pub parser_feed-message_encode :
    (p : Parser) (body : Body) (room : ℕ) (bytes rest : List ℕ)
    → IsSound p
    → at_message_boundary p ≡ true
    → p.sequence_exhausted ≡ false
    → InRange body
    → message_encode p.sender p.expected_sequence body room ≡ some bytes
    → parser_feed p (bytes ++ rest) ≡ record {
      parser = after_message p;
      status =
          ParseStatus.message (record { sequence = p.expected_sequence; body = canonical body });
      consumed = length bytes;
    }
parser_feed-message_encode p body room bytes rest v at x r e =
    let (failed, header, payload, decoded) = boundary_parts p at in
    let (valid, (size, sized, fits, written)) =
      message_encode-some p.sender p.expected_sequence body room bytes e in
    let (allowed, small) =
      wire_payload_size_is_valid-message_payload_size p.sender body size valid sized in
    let h = encode_header (type_of body) size p.expected_sequence in
    let full = length-encode_header (type_of body) size p.expected_sequence in
    let b = encode_payload body in
    let start = parser_feed_header p (bytes ++ rest) failed (omega (arith, ap length header)) in
    let accepted =
      decode_header-encode_header (with_header p h) (type_of body) size refl v.bounded.sequence_fits
        x (valid_from p.sender body valid) small allowed in
    let q : Parser = record p {
      header = h;
      pending_type = type_of body;
      pending_sequence = p.expected_sequence;
      payload_expected = size;
      header_decoded = true;
    } in
    let delivered =
      feed_payload_whole q b rest (canonical body) header_size payload refl
        (length-encode_payload body size r sized) small
        (decode_payload-encode_payload p.sender body size r valid sized)
        (message_is_valid-canonical p.sender body valid) in
    let counted : header_size + length b ≡ length (h ++ b) =
      omega (arith, full, length-append h b) in
    start
    ∙ rw (written, append_assoc h b rest)
        (feed_header_whole p h (b ++ rest) header decoded full
          ∙ rw accepted (unfold feed_announced after_message in rw counted at delivered))
