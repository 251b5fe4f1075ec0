-- ===== src/Privsep/RoundTrip/Lengths.antt =====
-- The number of bytes that a payload takes, and that a header may announce it.
use nix_bench.Prelude.{
  ℕ, zero, suc, ◌*◌, ◌≤◌, ◌≡◌, refl, true, some, arith, length, length-append, take_all,
}
use nix_bench.Privsep.{max_payload_size, Endpoint, FrameBegin, Body, type_of}
use nix_bench.Privsep.Bytes.{store_u32, store_u64, store_i32}
use nix_bench.Privsep.Valid.{
  wire_damage_count, frame_data_is_valid, body_is_valid, message_is_valid,
}
use nix_bench.Privsep.Sizes.{message_payload_size, wire_payload_size_is_valid, fixed_payload_size}
use nix_bench.Privsep.Encode.{
  encode_output, encode_ready, encode_frame_reference, encode_payload, encode_rect, encode_rects,
  copy_bytes,
}
use nix_bench.Privsep.RoundTrip.Fixed.{
  CredentialsInRange, ReadyInRange, ReferenceInRange, SuspendInRange, MotionInRange, ButtonInRange,
  KeyInRange, CompleteInRange, FatalInRange,
}
use nix_bench.Privsep.RoundTrip.Sized.{FrameInRange, FrameDataInRange}
use nix_bench.Privsep.Bytes.Laws.{IsU64}
use nix_bench.Privsep.RoundTrip.Canonical.{count-le}

-- The fields of a message lie in the ranges of their C types.
abbrev pub InRange : Body → Type 0
InRange (Body.core_hello c) = CredentialsInRange c
InRange (Body.frame_begin f) = FrameInRange f
InRange (Body.frame_data f) = FrameDataInRange f
InRange (Body.frame_commit r) = ReferenceInRange r
InRange (Body.frame_abort r) = ReferenceInRange r
InRange (Body.ready r) = ReadyInRange r
InRange (Body.resume r) = ReadyInRange r
InRange (Body.suspend s) = SuspendInRange s
InRange (Body.pointer_motion m) = MotionInRange m
InRange (Body.pointer_button b) = ButtonInRange b
InRange (Body.key k) = KeyInRange k
InRange (Body.frame_complete c) = CompleteInRange c
InRange (Body.pong t) = IsU64 t
InRange (Body.shutdown_request t) = IsU64 t
InRange (Body.ping t) = IsU64 t
InRange (Body.shutdown_accepted t) = IsU64 t
InRange (Body.fatal f) = FatalInRange f
InRange (Body.unknown n) = Unit {0}

length-encode_rects :
    (f : FrameBegin) (left index : ℕ) → length (encode_rects f left index) ≡ left * 16
unfolding encode_rects encode_rect store_u32
length-encode_rects f zero index = refl
length-encode_rects f (suc left) index = omega (arith, length-encode_rects f left (suc index))

pub length-encode_payload :
    (body : Body) (size : ℕ)
    → InRange body
    → message_payload_size body ≡ some size
    → length (encode_payload body) ≡ size
unfolding encode_payload message_payload_size fixed_payload_size store_u32 store_u64 store_i32
    encode_ready encode_output encode_frame_reference
length-encode_payload (Body.frame_begin f) size h e =
    ground (arith, length-encode_rects f (wire_damage_count f) 0)
length-encode_payload (Body.frame_data f) size (a, b, c, d, (bytes, hb, hl)) e =
    unfold copy_bytes in ground (arith, take_all f.size bytes hl)
length-encode_payload (Body.key k) size h e =
    ground (arith, take_all 5 k.xkb_key_name h.2, length-append k.xkb_key_name)
length-encode_payload (Body.unknown n) size h e = cc
length-encode_payload _ size h e = ground arith

pub wire_payload_size_is_valid-message_payload_size :
    (sender : Endpoint) (body : Body) (size : ℕ)
    → message_is_valid sender body ≡ true
    → message_payload_size body ≡ some size
    → (wire_payload_size_is_valid (type_of body) size ≡ true) × (size ≤ max_payload_size)
unfolding message_is_valid body_is_valid frame_data_is_valid message_payload_size
    wire_payload_size_is_valid
wire_payload_size_is_valid-message_payload_size sender (Body.frame_begin f) size v e =
    ground (arith, count-le f)
wire_payload_size_is_valid-message_payload_size sender _ size v e = ground arith
