-- ===== src/Privsep/Stream/HeaderBytes.antt =====
-- The header that src/privsep_protocol.c stores, and what the parser makes of it.
use nix_bench.Prelude.{ℕ, ◌^◌, ◌≤◌, ◌<◌, ◌≡◌, refl, true, false, some, [], arith, length, drop}
use nix_bench.Privsep.{
  header_size, max_payload_size, protocol_magic, protocol_version, MessageType, Endpoint, core,
  helper, other, Parser, type_code, type_from_code,
}
use nix_bench.Privsep.Bytes.{store_u16, store_u32, store_u64, load_u16, load_u32, load_u64}
use nix_bench.Privsep.Bytes.Laws.{IsU16, IsU32, IsU64, load_u16-store_u16, load_u32-store_u32}
use nix_bench.Privsep.Valid.{message_type_is_from}
use nix_bench.Privsep.Sizes.{wire_payload_size_is_valid}
use nix_bench.Privsep.RoundTrip.Fixed.{read_u64, read_cast}
use nix_bench.Privsep.Stream.{encode_header, decode_header}

-- A type that an endpoint may send is read back from its number.
type_from_code-type_code :
    (type : MessageType) (sender : Endpoint)
    → message_type_is_from type sender ≡ true
    → type_from_code (type_code type) ≡ type
unfolding message_type_is_from type_from_code
type_from_code-type_code (MessageType.unknown n) core h = cc
type_from_code-type_code (MessageType.unknown n) helper h = cc
type_from_code-type_code (MessageType.unknown n) (other m) h = cc
type_from_code-type_code _ sender h = refl

type_code-IsU16 : (type : MessageType) → IsU16 (type_code type)
unfolding type_code
type_code-IsU16 (MessageType.unknown n) = omega arith
type_code-IsU16 _ = omega arith

-- The fields of a header, read back.
module _ (type : MessageType) (size sequence : ℕ) where
  header_magic : load_u32 (encode_header type size sequence) ≡ protocol_magic
  unfolding encode_header store_u32 store_u16 store_u64
  header_magic = load_u32-store_u32 protocol_magic _ (omega arith)

  header_version : load_u16 (drop 4 (encode_header type size sequence)) ≡ protocol_version
  unfolding encode_header store_u32 store_u16 store_u64
  header_version = load_u16-store_u16 protocol_version _ (omega arith)

  header_type : load_u16 (drop 6 (encode_header type size sequence)) ≡ type_code type
  unfolding encode_header store_u32 store_u16 store_u64
  header_type = load_u16-store_u16 (type_code type) _ (type_code-IsU16 type)

  header_payload_size : IsU32 size → load_u32 (drop 8 (encode_header type size sequence)) ≡ size
  unfolding encode_header store_u32 store_u16 store_u64
  header_payload_size h = read_cast size _ h

  header_flags : load_u32 (drop 12 (encode_header type size sequence)) ≡ 0
  unfolding encode_header store_u32 store_u16 store_u64
  header_flags = load_u32-store_u32 0 _ (omega arith)

  header_sequence :
      IsU64 sequence → load_u64 (drop 16 (encode_header type size sequence)) ≡ sequence
  unfolding encode_header store_u32 store_u16 store_u64
  header_sequence h = read_u64 sequence [] h

  pub length-encode_header : length (encode_header type size sequence) ≡ header_size
  unfolding encode_header store_u32 store_u16 store_u64
  length-encode_header = refl

-- A parser with the header of a message in order accepts it.
pub decode_header-encode_header :
    (p : Parser) (type : MessageType) (size : ℕ)
    → p.header ≡ encode_header type size p.expected_sequence
    → p.expected_sequence < 2 ^ 64
    → p.sequence_exhausted ≡ false
    → message_type_is_from type p.sender ≡ true
    → size ≤ max_payload_size
    → wire_payload_size_is_valid type size ≡ true
    → decode_header p
      ≡ some (record p {
        pending_type = type;
        pending_sequence = p.expected_sequence;
        payload_expected = size;
        header_decoded = true;
      })
unfolding decode_header
decode_header-encode_header p type size e fits x from small allowed =
    let sequence = p.expected_sequence in
    let t = type_from_code-type_code type p.sender from in
    rw e (
      rw
        (
          header_magic type size sequence,
          header_version type size sequence,
          header_type type size sequence,
          header_payload_size type size sequence (omega arith),
          header_flags type size sequence,
          header_sequence type size sequence fits,
        )
        (rw t (ground arith)))
