-- ===== src/Privsep/Stream/Progress.antt =====
-- How far a feed of src/privsep_protocol.c gets, and what follows an error.
use nix_bench.Prelude.{
  ℕ, ◌+◌, ◌%◌, ◌^◌, ◌-◌, ◌≤◌, ◌<◌, ◌≡◌, refl, true, false, not, Option, none, some, List, ◌++◌,
  arith, if◌then◌else◌, length, take, drop, ◌==◌, Bool-cases, if_cases, if_true, ltb, ltb→lt, inl,
  inr, length-drop,
}
use nix_bench.Privsep.{header_size, max_payload_size, Body, Parser, ParseStatus, Fed}
use nix_bench.Privsep.Decode.{decode_payload}
use nix_bench.Privsep.Stream.Sound.{IsSound, with_header, amount-le, full}
use nix_bench.Privsep.Stream.PayloadPieces.{parser_feed_payload, parser_feed_header}
use nix_bench.Privsep.Stream.Pieces.{sound_decoded}
use nix_bench.Privsep.Stream.{
  decode_header, amount_of, fail_parser, needs_more, feed_finish, feed_announced, feed_complete,
  feed_filled, feed_payload, feed_decoded, feed_received, feed_header, parser_feed,
}

-- What an end of a feed reports as consumed.
feed_finish-consumed : (p : Parser) (c : ℕ) (r : Option Body) → (feed_finish p c r).consumed ≡ c
unfolding feed_finish fail_parser
feed_finish-consumed p c none = refl
feed_finish-consumed p c (some body) = ground arith

feed_filled-consumed : (p : Parser) (c : ℕ) → (feed_filled p c).consumed ≡ c
unfolding feed_filled feed_complete needs_more
feed_filled-consumed p c =
    if_cases (λ (r : Fed). r.consumed ≡ c) (not (length p.payload == p.payload_expected))
      (needs_more p c) (feed_complete p c) (λ e. refl) (λ e. feed_finish-consumed p c _)

-- At most the bytes from `c` on are consumed.
abbrev Within : ℕ → ℕ → Fed → Type 0
Within c n r = (c ≤ r.consumed) × (r.consumed ≤ c + n)

feed_payload-Within : (p : Parser) (s : List ℕ) (c : ℕ) → Within c (length s) (feed_payload p s c)
unfolding feed_payload
feed_payload-Within p s c =
    let wanted = (p.payload_expected + 2 ^ 64 - length p.payload) % 2 ^ 64 in
    omega (arith, feed_filled-consumed _ (c + amount_of wanted s), amount-le wanted s)

feed_announced-Within :
    (p : Parser) (s : List ℕ) (c : ℕ) (r : Option Parser)
    → Within c (length s) (feed_announced p s c r)
unfolding feed_announced fail_parser
feed_announced-Within p s c none = omega arith
feed_announced-Within p s c (some q) = feed_payload-Within q s c

feed_decoded-Within : (p : Parser) (s : List ℕ) (c : ℕ) → Within c (length s) (feed_decoded p s c)
unfolding feed_decoded
feed_decoded-Within p s c =
    if_cases (Within c (length s)) p.header_decoded (feed_payload p s c)
      (feed_announced p s c (decode_header p)) (λ e. feed_payload-Within p s c)
      (λ e. feed_announced-Within p s c (decode_header p))

feed_received-Within : (p : Parser) (s : List ℕ) (c : ℕ) → Within c (length s) (feed_received p s c)
unfolding feed_received needs_more
feed_received-Within p s c =
    if_cases (Within c (length s)) (not (length p.header == header_size)) (needs_more p c)
      (feed_decoded p s c) (λ e. omega arith) (λ e. feed_decoded-Within p s c)

-- A wanted byte that is there is taken.
amount_positive : (n : ℕ) (s : List ℕ) → 1 ≤ n → 1 ≤ length s → 1 ≤ amount_of n s
unfolding amount_of
amount_positive n s h k = ground arith

feed_header-consumed :
    (p : Parser) (s : List ℕ)
    → length p.header < header_size
    → 1 ≤ length s
    → (1 ≤ (feed_header p s).consumed) × ((feed_header p s).consumed ≤ length s)
unfolding feed_header
feed_header-consumed p s h k =
    let wanted = header_size - length p.header in
    let n = amount_of wanted s in
    omega (
      arith,
      feed_received-Within (record p { header = p.header ++ take n s }) (drop n s) n,
      length-drop n s,
      amount-le wanted s,
      amount_positive wanted s,
    )

feed_payload-consumed :
    (p : Parser) (s : List ℕ)
    → length p.payload < p.payload_expected
    → p.payload_expected ≤ max_payload_size
    → 1 ≤ length s
    → (1 ≤ (feed_payload p s 0).consumed) × ((feed_payload p s 0).consumed ≤ length s)
unfolding feed_payload
feed_payload-consumed p s h b k =
    let wanted = (p.payload_expected + 2 ^ 64 - length p.payload) % 2 ^ 64 in
    omega (
      arith,
      feed_filled-consumed _ (0 + amount_of wanted s),
      amount-le wanted s,
      amount_positive wanted s,
    )

-- A sound parser that has not failed takes a byte at least of what it is given, and not more than
-- there is, whatever it answers.
pub parser_feed-consumed :
    (p : Parser) (bytes : List ℕ)
    → IsSound p
    → p.failed ≡ false
    → 1 ≤ length bytes
    → (1 ≤ (parser_feed p bytes).consumed) × ((parser_feed p bytes).consumed ≤ length bytes)
parser_feed-consumed p bytes v f k = elim (Bool-cases (ltb (length p.header) header_size)) [
  | inl h ↦
      rw (parser_feed_header p bytes f (ltb→lt _ _ h))
        (feed_header-consumed p bytes (ltb→lt _ _ h) k)
  | inr h ↦
      let d = sound_decoded p v f (full p v h) in
      rw (parser_feed_payload p bytes f (full p v h) d)
        (feed_payload-consumed p bytes (v.waits_payload f d) v.bounded.expected_fits k)
]

abbrev FailsOnly : Fed → Type 0
FailsOnly r = r.status ≡ ParseStatus.error → r.parser.failed ≡ true

feed_filled-FailsOnly : (p : Parser) (c : ℕ) → FailsOnly (feed_filled p c)
unfolding feed_filled feed_complete needs_more
feed_filled-FailsOnly p c =
    if_cases FailsOnly (not (length p.payload == p.payload_expected)) (needs_more p c)
      (feed_complete p c) (λ e h. cc)
      (λ e. finish (decode_payload p.pending_type p.payload p.payload_expected))
  where
    finish : (r : Option Body) → FailsOnly (feed_finish p c r)
    finish none = unfold feed_finish fail_parser in λ h. refl
    finish (some body) = unfold feed_finish fail_parser in λ h. ground arith

feed_announced-FailsOnly :
    (p : Parser) (s : List ℕ) (c : ℕ) (r : Option Parser) → FailsOnly (feed_announced p s c r)
unfolding feed_announced fail_parser feed_payload
feed_announced-FailsOnly p s c none = λ h. refl
feed_announced-FailsOnly p s c (some q) = feed_filled-FailsOnly _ _

feed_decoded-FailsOnly : (p : Parser) (s : List ℕ) (c : ℕ) → FailsOnly (feed_decoded p s c)
unfolding feed_decoded feed_payload
feed_decoded-FailsOnly p s c =
    if_cases FailsOnly p.header_decoded (feed_payload p s c)
      (feed_announced p s c (decode_header p)) (λ e. feed_filled-FailsOnly _ _)
      (λ e. feed_announced-FailsOnly p s c (decode_header p))

feed_header-FailsOnly : (p : Parser) (s : List ℕ) → FailsOnly (feed_header p s)
unfolding feed_header feed_received needs_more
feed_header-FailsOnly p s =
    let n = amount_of (header_size - length p.header) s in
    let q = with_header p (p.header ++ take n s) in
    if_cases FailsOnly (not (length q.header == header_size)) (needs_more q n)
      (feed_decoded q (drop n s) n) (λ e h. cc) (λ e. feed_decoded-FailsOnly q (drop n s) n)

parser_feed-FailsOnly : (p : Parser) (s : List ℕ) → FailsOnly (parser_feed p s)
unfolding parser_feed
parser_feed-FailsOnly p s =
    if_cases FailsOnly p.failed (record { parser = p; status = ParseStatus.error; consumed = 0 })
      (if ltb (length p.header) header_size then feed_header p s else feed_decoded p s 0) (λ f h. f)
      (λ f.
        if_cases FailsOnly (ltb (length p.header) header_size) (feed_header p s)
          (feed_decoded p s 0) (λ e. feed_header-FailsOnly p s) (λ e. feed_decoded-FailsOnly p s 0))

-- After a feed that answered with an error, every feed answers so, whatever it is given, takes no byte
-- and leaves the parser as it is.
pub parser_feed_error :
    (p : Parser) (bytes more : List ℕ)
    → (parser_feed p bytes).status ≡ ParseStatus.error
    → let q = (parser_feed p bytes).parser in
      parser_feed q more ≡ record { parser = q; status = ParseStatus.error; consumed = 0 }
parser_feed_error p bytes more e =
    unfold parser_feed in if_true _ _ (parser_feed-FailsOnly p bytes e)
