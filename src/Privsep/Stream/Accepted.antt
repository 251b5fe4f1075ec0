-- ===== src/Privsep/Stream/Accepted.antt =====
-- What src/privsep_protocol.c accepts and refuses, whatever the bytes are.
use nix_bench.Prelude.{
  ℕ, ◌-◌, ◌≡◌, refl, ◌∙◌, true, false, not, Option, none, some, List, ◌++◌, arith, if◌then◌else◌,
  length, take, drop, ◌==◌, Bool-cases, if_cases, ltb, inl, inr,
}
use nix_bench.Privsep.{header_size, Body, Message, Parser, ParseStatus, Fed}
use nix_bench.Privsep.Valid.{message_is_valid}
use nix_bench.Privsep.Stream.Sound.{
  IsSound, IsBounded, with_header, undecoded, full, decode_header-IsBounded, with_payload-IsBounded,
  with_header-IsBounded, filled_le, received_le,
}
use nix_bench.Privsep.Stream.Deliver.{after_message}
use nix_bench.Privsep.Stream.{
  decode_header, amount_of, next_parser, fail_parser, needs_more, feed_finish, feed_announced,
  feed_complete, feed_filled, feed_payload, feed_decoded, feed_received, feed_header, parser_feed,
}

-- The message is one that the sender may send, with the number that was due, and the parser waits for
-- the next.
abbrev pub Accepts : Parser → Message → Parser → Type 0
Accepts p m q =
    (message_is_valid p.sender m.body ≡ true)
    × (m.sequence ≡ p.expected_sequence)
    × (p.sequence_exhausted ≡ false)
    × (q ≡ after_message p)

abbrev AcceptsOnly : Parser → Fed → Type 0
AcceptsOnly p r = (m : Message) → r.status ≡ ParseStatus.message m → Accepts p m r.parser

fail-AcceptsOnly : (p q : Parser) (c : ℕ) → AcceptsOnly p (fail_parser q c)
unfolding fail_parser
fail-AcceptsOnly p q c m e = cc

wait-AcceptsOnly : (p q : Parser) (c : ℕ) → AcceptsOnly p (needs_more q c)
unfolding needs_more
wait-AcceptsOnly p q c m e = cc

next-after :
    (p : Parser) → p.pending_sequence ≡ p.expected_sequence → next_parser p ≡ after_message p
unfolding next_parser after_message
next-after p e = rw e refl

-- `q` is the parser `p` with its header accepted or its buffers filled.
abbrev StageOf : Parser → Parser → Type 0
StageOf p q =
    (q.sender ≡ p.sender)
    × (q.expected_sequence ≡ p.expected_sequence)
    × (q.sequence_exhausted ≡ p.sequence_exhausted)
    × (q.failed ≡ p.failed)

after-StageOf : (p q : Parser) → StageOf p q → after_message q ≡ after_message p
unfolding after_message
after-StageOf p q h = cc

feed_finish-AcceptsOnly :
    (p q : Parser) (c : ℕ) (r : Option Body)
    → IsBounded q
    → q.header_decoded ≡ true
    → StageOf p q
    → AcceptsOnly p (feed_finish q c r)
unfolding feed_finish
feed_finish-AcceptsOnly p q c none b d h = fail-AcceptsOnly p q c
feed_finish-AcceptsOnly p q c (some body) b d h =
    let v = b.announced d in
    let after = next-after q v.in_order ∙ after-StageOf p q h in
    elim (Bool-cases (message_is_valid q.sender body)) [
      | inl good ↦
          rw good (λ m e. (cc (good, h.0), cc (v.in_order, h.1), cc (v.not_exhausted, h.2), after))
      | inr bad ↦ rw bad (fail-AcceptsOnly p q c)
    ]

feed_filled-AcceptsOnly :
    (p q : Parser) (c : ℕ)
    → IsBounded q
    → q.header_decoded ≡ true
    → StageOf p q
    → AcceptsOnly p (feed_filled q c)
unfolding feed_filled feed_complete
feed_filled-AcceptsOnly p q c b d h =
    if_cases (AcceptsOnly p) (not (length q.payload == q.payload_expected)) (needs_more q c)
      (feed_complete q c) (λ e. wait-AcceptsOnly p q c) (λ e. feed_finish-AcceptsOnly p q c _ b d h)

feed_payload-AcceptsOnly :
    (p q : Parser) (s : List ℕ) (c : ℕ)
    → IsBounded q
    → q.header_decoded ≡ true
    → StageOf p q
    → AcceptsOnly p (feed_payload q s c)
unfolding feed_payload
feed_payload-AcceptsOnly p q s c b d h =
    feed_filled-AcceptsOnly p _ _ (with_payload-IsBounded q _ b (filled_le q s b)) d h

decode_header-StageOf : (p q : Parser) → decode_header p ≡ some q → StageOf p q
unfolding decode_header
decode_header-StageOf p q e = ground arith

feed_announced-AcceptsOnly :
    (p q : Parser) (s : List ℕ) (c : ℕ) (r : Option Parser)
    → IsBounded q
    → length q.header ≡ header_size
    → q.header_decoded ≡ false
    → StageOf p q
    → decode_header q ≡ r
    → AcceptsOnly p (feed_announced q s c r)
unfolding feed_announced
feed_announced-AcceptsOnly p q s c none b f d h e = fail-AcceptsOnly p q c
feed_announced-AcceptsOnly p q s c (some q') b f d h e =
    let (b', d') = decode_header-IsBounded q q' b f d e in
    let h' = decode_header-StageOf q q' e in
    feed_payload-AcceptsOnly p q' s c b' d' (h'.0 ∙ h.0, h'.1 ∙ h.1, h'.2 ∙ h.2, h'.3 ∙ h.3)

feed_decoded-AcceptsOnly :
    (p q : Parser) (s : List ℕ) (c : ℕ)
    → IsBounded q
    → length q.header ≡ header_size
    → StageOf p q
    → AcceptsOnly p (feed_decoded q s c)
unfolding feed_decoded
feed_decoded-AcceptsOnly p q s c b f h =
    if_cases (AcceptsOnly p) q.header_decoded (feed_payload q s c)
      (feed_announced q s c (decode_header q)) (λ d. feed_payload-AcceptsOnly p q s c b d h)
      (λ d. feed_announced-AcceptsOnly p q s c (decode_header q) b f d h refl)

feed_header-AcceptsOnly :
    (p : Parser) (s : List ℕ)
    → IsBounded p
    → p.header_decoded ≡ false
    → AcceptsOnly p (feed_header p s)
unfolding feed_header feed_received
feed_header-AcceptsOnly p s b d =
    let n = amount_of (header_size - length p.header) s in
    let q = with_header p (p.header ++ take n s) in
    let w = with_header-IsBounded p (p.header ++ take n s) b d (received_le p s b) in
    if_cases (AcceptsOnly p) (not (length q.header == header_size)) (needs_more q n)
      (feed_decoded q (drop n s) n) (λ e. wait-AcceptsOnly p q n)
      (λ e. feed_decoded-AcceptsOnly p q (drop n s) n w (ground arith) (refl, refl, refl, refl))

-- Whatever the bytes are, a feed of a sound parser reports a message only if it is valid for the
-- sender, carries the sequence number that was due, and that number was not used up; the parser then
-- waits for the next number with empty buffers.
pub parser_feed-Accepts :
    (p : Parser) (bytes : List ℕ) (m : Message)
    → IsSound p
    → (parser_feed p bytes).status ≡ ParseStatus.message m
    → Accepts p m (parser_feed p bytes).parser
unfolding parser_feed
parser_feed-Accepts p bytes m v e =
    if_cases (AcceptsOnly p) p.failed
      (record { parser = p; status = ParseStatus.error; consumed = 0 })
      (if ltb (length p.header) header_size then feed_header p bytes else feed_decoded p bytes 0)
      (λ f m' e'. cc)
      (λ g.
        if_cases (AcceptsOnly p) (ltb (length p.header) header_size) (feed_header p bytes)
          (feed_decoded p bytes 0)
          (λ h. feed_header-AcceptsOnly p bytes v.bounded (undecoded p v h))
          (λ h.
            feed_decoded-AcceptsOnly p p bytes 0 v.bounded (full p v h) (refl, refl, refl, refl)))
      m e
