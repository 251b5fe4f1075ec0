-- ===== src/Privsep/Stream/PayloadPieces.antt =====
-- A payload of src/privsep_protocol.c that arrives in pieces.
use nix_bench.Prelude.{
  ℕ, ◌+◌, ◌%◌, ◌^◌, ◌-◌, ◌≤◌, ◌<◌, ◌≡◌, ◌≢◌, refl, sym, ap, ◌∙◌, true, false, Option, none, some,
  List, ◌++◌, arith, length, take, ◌==◌, Bool-cases, if_true, if_false, ltb, lt→ltb, inl, inr,
  length-append, take-append, take_all,
}
use mathlib.Core.List.{append_assoc}
use nix_bench.Privsep.{header_size, Body, Parser, ParseStatus, Fed}
use nix_bench.Privsep.Decode.{decode_payload}
use nix_bench.Privsep.Stream.{
  fail_parser, needs_more, amount_of, feed_finish, feed_complete, feed_filled, feed_payload,
  feed_decoded, feed_header, parser_feed,
}
use nix_bench.Privsep.Stream.Sound.{IsBounded, length-grown, with_payload, with_payload-IsBounded}

-- The same answer, with more bytes consumed before it.
abbrev pub later : ℕ → Fed → Fed
later k r = record r { consumed = k + r.consumed }

pub amount_of-append :
    (n : ℕ) (s b : List ℕ)
    → length s ≤ n
    → amount_of n (s ++ b) ≡ length s + amount_of (n - length s) b
unfolding amount_of
amount_of-append n s b h = ground (arith, length-append s b)

pub amount_of_enough : (n : ℕ) (s : List ℕ) → n ≤ length s → amount_of n s ≡ n
unfolding amount_of
amount_of_enough n s h = ground arith

amount_of_less :
    (n : ℕ) (s : List ℕ) → amount_of n s ≢ n → (amount_of n s ≡ length s) × (length s < n)
unfolding amount_of
amount_of_less n s h = ground arith

pub amount_of_short : (n : ℕ) (s : List ℕ) → length s ≤ n → amount_of n s ≡ length s
unfolding amount_of
amount_of_short n s h = ground arith

-- What is taken for `n` places from two pieces, the first of which they hold.
pub taken_append :
    (n : ℕ) (xs s b : List ℕ)
    → length s ≤ n
    → xs ++ take (amount_of n (s ++ b)) (s ++ b) ≡ (xs ++ s) ++ take (amount_of (n - length s) b) b
taken_append n xs s b h =
    rw (amount_of-append n s b h, take-append s b (amount_of (n - length s) b))
      (sym (append_assoc xs s (take (amount_of (n - length s) b) b)))

feed_finish-later :
    (p : Parser) (k c : ℕ) (r : Option Body) → feed_finish p (k + c) r ≡ later k (feed_finish p c r)
unfolding feed_finish fail_parser
feed_finish-later p k c none = refl
feed_finish-later p k c (some body) = ground arith

feed_filled-later : (p : Parser) (k c : ℕ) → feed_filled p (k + c) ≡ later k (feed_filled p c)
unfolding feed_filled feed_complete needs_more
feed_filled-later p k c = elim (Bool-cases (length p.payload == p.payload_expected)) [
  | inl done ↦ rw done (feed_finish-later p k c _)
  | inr short ↦ rw short refl
]

wanted-eq :
    (p : Parser)
    → IsBounded p
    → (p.payload_expected + 2 ^ 64 - length p.payload) % 2 ^ 64
      ≡ p.payload_expected - length p.payload
wanted-eq p b = omega (arith, b.payload_fits, b.expected_fits)

-- The payload's part without the wrap of the subtraction.
feed_payload_lem :
    (p : Parser) (s : List ℕ) (c : ℕ)
    → IsBounded p
    → let amount = amount_of (p.payload_expected - length p.payload) s in
      feed_payload p s c ≡ feed_filled (with_payload p (p.payload ++ take amount s)) (c + amount)
unfolding feed_payload
feed_payload_lem p s c b =
    ap
      (λ (w : ℕ).
        feed_filled (with_payload p (p.payload ++ take (amount_of w s) s)) (c + amount_of w s))
      (wanted-eq p b)

pub feed_payload-later :
    (p : Parser) (s : List ℕ) (k c : ℕ) → feed_payload p s (k + c) ≡ later k (feed_payload p s c)
unfolding feed_payload
feed_payload-later p s k c =
    ap (feed_filled _) (omega arith) ∙ feed_filled-later _ k (c + amount_of _ s)

feed_payload-append :
    (p : Parser) (s b : List ℕ) (c : ℕ)
    → IsBounded p
    → IsBounded (with_payload p (p.payload ++ s))
    → feed_payload p (s ++ b) c ≡ feed_payload (with_payload p (p.payload ++ s)) b (c + length s)
feed_payload-append p s b c v w =
    let room = p.payload_expected - length p.payload in
    let left = p.payload_expected - length (p.payload ++ s) in
    let h : length s ≤ room = omega (arith, length-append p.payload s, w.payload_fits) in
    let e : room - length s ≡ left = omega (arith, length-append p.payload s) in
    let taken = rw e at (taken_append room p.payload s b h) in
    let used = rw e at (amount_of-append room s b h) in
    feed_payload_lem p (s ++ b) c v
    ∙ rw (taken, used) (ap (feed_filled _) (omega arith))
    ∙ sym (feed_payload_lem (with_payload p (p.payload ++ s)) b (c + length s) w)

feed_finish-ne-need_more :
    (p : Parser) (c : ℕ) (r : Option Body) → (feed_finish p c r).status ≢ ParseStatus.need_more
unfolding feed_finish fail_parser
feed_finish-ne-need_more p c none e = cc
feed_finish-ne-need_more p c (some body) e = ground arith

-- A payload that stays short takes all the bytes.
feed_filled_more :
    (p : Parser) (c : ℕ)
    → (feed_filled p c).status ≡ ParseStatus.need_more
    → (length p.payload ≢ p.payload_expected) × (feed_filled p c ≡ needs_more p c)
unfolding feed_filled
feed_filled_more p c e = elim (Bool-cases (length p.payload == p.payload_expected)) [
  | inl done ↦ absurd (
      feed_finish-ne-need_more p c (decode_payload p.pending_type p.payload p.payload_expected)
        (unfold feed_complete in rw done at e))
  | inr short ↦ rw short (ground arith, refl)
]

feed_payload_more :
    (p : Parser) (s : List ℕ) (c : ℕ)
    → IsBounded p
    → (feed_payload p s c).status ≡ ParseStatus.need_more
    → (length p.payload + length s < p.payload_expected)
      × (feed_payload p s c ≡ needs_more (with_payload p (p.payload ++ s)) (c + length s))
feed_payload_more p s c b e =
    let room = p.payload_expected - length p.payload in
    let payload = p.payload ++ take (amount_of room s) s in
    let (short, same) =
      feed_filled_more (with_payload p payload) (c + amount_of room s)
        (rw (feed_payload_lem p s c b) at e) in
    let grown = length-grown room p.payload s in
    let (all, less) = amount_of_less room s (λ e. short (omega (arith, grown, b.payload_fits))) in
    (omega arith, feed_payload_lem p s c b ∙ same ∙ rw (all, take_all (length s) s refl) refl)

-- Where a feed begins.
pub parser_feed_header :
    (p : Parser) (b : List ℕ)
    → p.failed ≡ false
    → length p.header < header_size
    → parser_feed p b ≡ feed_header p b
unfolding parser_feed
parser_feed_header p b f h = if_false _ _ f ∙ if_true _ _ (lt→ltb _ _ h)

pub parser_feed_payload :
    (p : Parser) (b : List ℕ)
    → p.failed ≡ false
    → length p.header ≡ header_size
    → p.header_decoded ≡ true
    → parser_feed p b ≡ feed_payload p b 0
unfolding parser_feed feed_decoded
parser_feed_payload p b f h d =
    let over : ltb (length p.header) header_size ≡ false = ground arith in
    if_false _ _ f ∙ if_false _ _ over ∙ if_true _ _ d

-- The parser that waits for the rest of a payload takes it from the next bytes.
pub feed_payload-resume :
    (p : Parser) (s b : List ℕ) (c : ℕ)
    → IsBounded p
    → p.header_decoded ≡ true
    → p.failed ≡ false
    → (feed_payload p s c).status ≡ ParseStatus.need_more
    → feed_payload p (s ++ b) c ≡ later (c + length s) (parser_feed (feed_payload p s c).parser b)
feed_payload-resume p s b c v d f e =
    let (short, same) = feed_payload_more p s c v e in
    let w : IsBounded q =
      with_payload-IsBounded p (p.payload ++ s) v (omega (arith, length-append p.payload s)) in
    rw same (feed_payload-append p s b c v w ∙ more)
  where
    q : Parser
    q = with_payload p (p.payload ++ s)

    start : parser_feed q b ≡ feed_payload q b 0
    start = parser_feed_payload q b f (v.announced d).header_full d

    more :
        feed_payload q b (c + length s)
        ≡ later (c + length s) (parser_feed (needs_more q (c + length s)).parser b)
    more =
        unfold needs_more in
        (ap (feed_payload q b) (omega arith)
          ∙ feed_payload-later q b (c + length s) 0
          ∙ ap (later (c + length s)) (sym start))
