-- ===== src/Privsep/Stream/Sound.antt =====
-- What holds of a parser between the calls of src/privsep_protocol.c: the buffers are not overrun, and
-- a header is waited for or was accepted.
use nix_bench.Prelude.{
  ℕ, ◌+◌, ◌%◌, ◌^◌, ◌-◌, ◌≤◌, ◌<◌, ◌≡◌, refl, true, false, Option, none, some, List, ◌++◌, arith,
  if◌then◌else◌, length, take, ◌==◌, Bool-cases, if_cases, ltb, ltb→lt, not_ltb→le, tests, inl, inr,
  length-append, length-take,
}
use nix_bench.Privsep.{header_size, max_payload_size, Endpoint, Body, Parser, ParseStatus}
use nix_bench.Privsep.Valid.{message_type_is_from, message_is_valid}
use nix_bench.Privsep.Sizes.{wire_payload_size_is_valid}
use nix_bench.Privsep.Stream.{
  decode_header, fail_parser, needs_more, amount_of, next_parser, feed_finish, feed_announced,
  feed_complete, feed_filled, feed_received, feed_payload, feed_decoded, feed_header, parser_feed,
  parser_init,
}

-- What an accepted header leaves.
pub record IsAnnounced (p : Parser) : Type 0 where
  pub header_full : length p.header ≡ header_size
  pub in_order : p.pending_sequence ≡ p.expected_sequence
  pub from_sender : message_type_is_from p.pending_type p.sender ≡ true
  pub not_exhausted : p.sequence_exhausted ≡ false
  pub size_allowed : wire_payload_size_is_valid p.pending_type p.payload_expected ≡ true

-- The counts stay in the buffers, and the next sequence number is one of 64 bits and not 0.
pub record IsBounded (p : Parser) : Type 0 where
  pub header_fits : length p.header ≤ header_size
  pub payload_fits : length p.payload ≤ p.payload_expected
  pub expected_fits : p.payload_expected ≤ max_payload_size
  pub sequence_positive : 1 ≤ p.expected_sequence
  pub sequence_fits : p.expected_sequence < 2 ^ 64
  pub no_payload : p.header_decoded ≡ false → p.payload_expected ≡ 0
  pub announced : p.header_decoded ≡ true → IsAnnounced p

-- A parser that has not failed waits for bytes: of the header or of the payload.
pub record IsSound (p : Parser) : Type 0 where
  pub bounded : IsBounded p
  pub waits_header : p.failed ≡ false → p.header_decoded ≡ false → length p.header < header_size
  pub waits_payload :
      p.failed ≡ false → p.header_decoded ≡ true → length p.payload < p.payload_expected

pub parser_init-IsSound : (sender : Endpoint) → IsSound (parser_init sender)
unfolding parser_init
parser_init-IsSound sender = ground arith

fail_parser-IsSound : (p : Parser) (c : ℕ) → IsBounded p → IsSound (fail_parser p c).parser
unfolding fail_parser
fail_parser-IsSound p c b = ground (arith, b.announced)

next_parser-IsSound : (p : Parser) → IsBounded p → p.header_decoded ≡ true → IsSound (next_parser p)
unfolding next_parser
next_parser-IsSound p b d = ground (arith, b.announced)

-- Every end of a feed leaves a sound parser.
feed_finish-IsSound :
    (p : Parser) (c : ℕ) (r : Option Body)
    → IsBounded p
    → p.header_decoded ≡ true
    → IsSound (feed_finish p c r).parser
unfolding feed_finish
feed_finish-IsSound p c none b d = fail_parser-IsSound p c b
feed_finish-IsSound p c (some body) b d = elim (Bool-cases (message_is_valid p.sender body)) [
  | inl good ↦ rw good (next_parser-IsSound p b d)
  | inr bad ↦ rw bad (fail_parser-IsSound p c b)
]

pub amount-le : (n : ℕ) (s : List ℕ) → (amount_of n s ≤ n) × (amount_of n s ≤ length s)
unfolding amount_of
amount-le n s = ground arith

pub length-grown :
    (n : ℕ) (xs s : List ℕ) → length (xs ++ take (amount_of n s) s) ≡ length xs + amount_of n s
length-grown n xs s = omega (
  arith,
  length-append xs (take (amount_of n s) s),
  length-take (amount_of n s) s (amount-le n s).1,
)

abbrev pub with_payload : Parser → List ℕ → Parser
with_payload p payload = record p { payload = payload }

abbrev pub with_header : Parser → List ℕ → Parser
with_header p header = record p { header = header }

pub with_payload-IsBounded :
    (p : Parser) (payload : List ℕ)
    → IsBounded p
    → length payload ≤ p.payload_expected
    → IsBounded (with_payload p payload)
with_payload-IsBounded p payload b h = ground (arith, b.announced)

-- What a feed copies fits.
pub filled_le :
    (p : Parser) (s : List ℕ)
    → IsBounded p
    → length (
        p.payload
        ++ take (amount_of ((p.payload_expected + 2 ^ 64 - length p.payload) % 2 ^ 64) s) s)
      ≤ p.payload_expected
filled_le p s b =
    let wanted = (p.payload_expected + 2 ^ 64 - length p.payload) % 2 ^ 64 in
    omega
      (arith, length-grown wanted p.payload s, amount-le wanted s, b.payload_fits, b.expected_fits)

pub received_le :
    (p : Parser) (s : List ℕ)
    → IsBounded p
    → length (p.header ++ take (amount_of (header_size - length p.header) s) s) ≤ header_size
received_le p s b =
    let wanted = header_size - length p.header in
    omega (arith, length-grown wanted p.header s, amount-le wanted s, b.header_fits)

feed_payload-IsSound :
    (p : Parser) (s : List ℕ) (c : ℕ)
    → IsBounded p
    → p.header_decoded ≡ true
    → IsSound (feed_payload p s c).parser
unfolding feed_payload feed_filled needs_more
feed_payload-IsSound p s c b d =
    let wanted = (p.payload_expected + 2 ^ 64 - length p.payload) % 2 ^ 64 in
    let payload = p.payload ++ take (amount_of wanted s) s in
    let b' = with_payload-IsBounded p payload b (filled_le p s b) in
    elim (Bool-cases (length payload == p.payload_expected)) [
      | inl full ↦
          rw full (unfold feed_complete in feed_finish-IsSound (with_payload p payload) _ _ b' d)
      | inr short ↦ rw short record {
        bounded = b';
        waits_header = λ f h. ground arith;
        waits_payload = λ f h. ground arith;
      }
    ]

pub decode_header-IsBounded :
    (p q : Parser)
    → IsBounded p
    → length p.header ≡ header_size
    → p.header_decoded ≡ false
    → decode_header p ≡ some q
    → IsBounded q × (q.header_decoded ≡ true)
unfolding decode_header
decode_header-IsBounded p q b full d e = ground (arith, b.no_payload)

feed_announced-IsSound :
    (p : Parser) (s : List ℕ) (c : ℕ) (r : Option Parser)
    → IsBounded p
    → length p.header ≡ header_size
    → p.header_decoded ≡ false
    → decode_header p ≡ r
    → IsSound (feed_announced p s c r).parser
unfolding feed_announced
feed_announced-IsSound p s c none b full d e = fail_parser-IsSound p c b
feed_announced-IsSound p s c (some q) b full d e =
    let (b', d') = decode_header-IsBounded p q b full d e in feed_payload-IsSound q s c b' d'

feed_decoded-IsSound :
    (p : Parser) (s : List ℕ) (c : ℕ)
    → IsBounded p
    → length p.header ≡ header_size
    → IsSound (feed_decoded p s c).parser
unfolding feed_decoded
feed_decoded-IsSound p s c b full =
    if_cases (λ r. IsSound r.parser) p.header_decoded (feed_payload p s c)
      (feed_announced p s c (decode_header p)) (feed_payload-IsSound p s c b)
      (λ d. feed_announced-IsSound p s c (decode_header p) b full d refl)

pub with_header-IsBounded :
    (p : Parser) (header : List ℕ)
    → IsBounded p
    → p.header_decoded ≡ false
    → length header ≤ header_size
    → IsBounded (with_header p header)
with_header-IsBounded p header b d h = ground (arith, b.announced, b.no_payload)

feed_header-IsSound :
    (p : Parser) (s : List ℕ)
    → IsBounded p
    → p.header_decoded ≡ false
    → IsSound (feed_header p s).parser
unfolding feed_header feed_received needs_more
feed_header-IsSound p s b d =
    let wanted = header_size - length p.header in
    let header = p.header ++ take (amount_of wanted s) s in
    let b' = with_header-IsBounded p header b d (received_le p s b) in
    elim (Bool-cases (length header == header_size)) [
      | inl full ↦ rw full (feed_decoded-IsSound (with_header p header) _ _ b' (ground arith))
      | inr short ↦ rw short record {
        bounded = b';
        waits_header = λ f h. ground arith;
        waits_payload = λ f h. ground arith;
      }
    ]

pub undecoded :
    (p : Parser) → IsSound p → ltb (length p.header) header_size ≡ true → p.header_decoded ≡ false
undecoded p s h = elim (Bool-cases p.header_decoded) [
  | inl d ↦ absurd (omega (tests, (s.bounded.announced d).header_full, ltb→lt _ _ h))
  | inr d ↦ d
]

pub full :
    (p : Parser)
    → IsSound p
    → ltb (length p.header) header_size ≡ false
    → length p.header ≡ header_size
full p s h = omega (tests, not_ltb→le _ _ h, s.bounded.header_fits)

-- A feed of any bytes keeps the parser sound: the bytes in use never pass the end of the header's or
-- the payload's buffer, and a parser that has not failed has a place for a byte.
pub parser_feed-IsSound :
    (p : Parser) (bytes : List ℕ) → IsSound p → IsSound (parser_feed p bytes).parser
unfolding parser_feed
parser_feed-IsSound p bytes s =
    if_cases (λ r. IsSound r.parser) p.failed
      (record { parser = p; status = ParseStatus.error; consumed = 0 })
      (if ltb (length p.header) header_size then feed_header p bytes else feed_decoded p bytes 0)
      (λ f. s)
      (λ g.
        if_cases (λ r. IsSound r.parser) (ltb (length p.header) header_size) (feed_header p bytes)
          (feed_decoded p bytes 0) (λ h. feed_header-IsSound p bytes s.bounded (undecoded p s h))
          (λ h. feed_decoded-IsSound p bytes 0 s.bounded (full p s h)))
