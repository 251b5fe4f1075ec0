-- ===== src/Privsep/RoundTrip/Whole.antt =====
-- Every payload is read back.
use nix_bench.Prelude.{◌+◌, ◌≡◌, ap, true, some, ℕ, ◌*◌, [], arith}
use nix_bench.Privsep.{Endpoint, FrameBegin, FrameData, Ready, Body, type_of}
use nix_bench.Privsep.Bytes.{store_u64, load_u64}
use nix_bench.Privsep.Valid.{
  output_is_valid, ready_is_valid, body_is_valid, message_is_valid, wire_damage_count,
}
use nix_bench.Privsep.Sizes.{message_payload_size, fixed_payload_size}
use nix_bench.Privsep.Encode.{encode_payload}
use nix_bench.Privsep.Decode.{decode_payload}
use nix_bench.Privsep.RoundTrip.Fixed.{
  decode_ready-encode_ready, decode-encode_core_hello,
  decode_frame_reference-encode_frame_reference, decode-encode_suspend,
  decode-encode_pointer_motion, decode-encode_pointer_button, decode-encode_frame_complete,
  decode-encode_fatal,
}
use nix_bench.Privsep.Bytes.Laws.{IsU64, load_u64-store_u64}
use nix_bench.Privsep.RoundTrip.Sized.{
  decode_key-encode_key, decode_frame_data-encode_frame_data, decode_frame_begin-encode_frame_begin,
}
use nix_bench.Privsep.RoundTrip.Canonical.{canonical, count-le}
use nix_bench.Privsep.RoundTrip.Lengths.{InRange}

token : (t : ℕ) → IsU64 t → load_u64 (store_u64 t) ≡ t
unfolding store_u64
token t h = load_u64-store_u64 t [] h

-- What validity gives the lemmas on single payloads.
frame_size :
    (f : FrameBegin) (size : ℕ)
    → message_payload_size (Body.frame_begin f) ≡ some size
    → size ≡ 24 + wire_damage_count f * 16
unfolding message_payload_size
frame_size f size e = ground arith

data_size :
    (f : FrameData) (size : ℕ)
    → message_payload_size (Body.frame_data f) ≡ some size
    → size ≡ 24 + f.size
unfolding message_payload_size
data_size f size e = ground arith

body_valid :
    (sender : Endpoint) (body : Body)
    → message_is_valid sender body ≡ true
    → body_is_valid body ≡ true
unfolding message_is_valid
body_valid sender body v = ground arith

ready_output : (r : Ready) → ready_is_valid r ≡ true → output_is_valid r.output ≡ true
unfolding ready_is_valid
ready_output r v = ground arith

-- The decoder reads back the body of every valid message whose fields lie in their C types, in its
-- canonical form: the body itself, except that a frame with its one rectangle in the fields
-- `damage_x` to `damage_height` comes back with it in the array too.
pub decode_payload-encode_payload :
    (sender : Endpoint) (body : Body) (size : ℕ)
    → InRange body
    → message_is_valid sender body ≡ true
    → message_payload_size body ≡ some size
    → decode_payload (type_of body) (encode_payload body) size ≡ some (canonical body)
unfolding decode_payload canonical encode_payload
decode_payload-encode_payload sender (Body.core_hello c) size h v e = decode-encode_core_hello c h
decode_payload-encode_payload sender (Body.frame_begin f) size h v e =
    let fits = count-le f (unfold body_is_valid in body_valid sender (Body.frame_begin f) v) in
    rw (frame_size f size e) (decode_frame_begin-encode_frame_begin f h fits)
decode_payload-encode_payload sender (Body.frame_data f) size h v e =
    rw (data_size f size e) (decode_frame_data-encode_frame_data f h)
decode_payload-encode_payload sender (Body.frame_commit r) size h v e =
    rw (decode_frame_reference-encode_frame_reference r h)
decode_payload-encode_payload sender (Body.frame_abort r) size h v e =
    rw (decode_frame_reference-encode_frame_reference r h)
decode_payload-encode_payload sender (Body.ready r) size h v e =
    let fits = ready_output r (unfold body_is_valid in body_valid sender (Body.ready r) v) in
    rw (decode_ready-encode_ready r h fits)
decode_payload-encode_payload sender (Body.resume r) size h v e =
    let fits = ready_output r (unfold body_is_valid in body_valid sender (Body.resume r) v) in
    rw (decode_ready-encode_ready r h fits)
decode_payload-encode_payload sender (Body.suspend s) size h v e =
    ap (λ b. some (Body.suspend b)) (decode-encode_suspend s h)
decode_payload-encode_payload sender (Body.pointer_motion m) size h v e =
    ap (λ b. some (Body.pointer_motion b)) (decode-encode_pointer_motion m h)
decode_payload-encode_payload sender (Body.pointer_button b) size h v e =
    decode-encode_pointer_button b h
decode_payload-encode_payload sender (Body.key k) size h v e = decode_key-encode_key k h
decode_payload-encode_payload sender (Body.frame_complete c) size h v e =
    ap (λ b. some (Body.frame_complete b)) (decode-encode_frame_complete c h)
decode_payload-encode_payload sender (Body.pong t) size h v e =
    ap (λ b. some (Body.pong b)) (token t h)
decode_payload-encode_payload sender (Body.shutdown_request t) size h v e =
    ap (λ b. some (Body.shutdown_request b)) (token t h)
decode_payload-encode_payload sender (Body.ping t) size h v e =
    ap (λ b. some (Body.ping b)) (token t h)
decode_payload-encode_payload sender (Body.shutdown_accepted t) size h v e =
    ap (λ b. some (Body.shutdown_accepted b)) (token t h)
decode_payload-encode_payload sender (Body.fatal f) size h v e =
    ap (λ b. some (Body.fatal b)) (decode-encode_fatal f h)
decode_payload-encode_payload sender (Body.unknown n) size h v e =
    unfold message_payload_size fixed_payload_size in cc
