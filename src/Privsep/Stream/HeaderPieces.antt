-- ===== src/Privsep/Stream/HeaderPieces.antt =====
-- A header of src/privsep_protocol.c that arrives in pieces, or is followed by a part of the payload.
use nix_bench.Prelude.{
  ℕ, ◌+◌, ◌-◌, ◌≤◌, ◌<◌, ◌≡◌, refl, ◌∙◌, true, false, not, Option, none, some, List, ◌++◌, arith,
  length, take, drop, ◌==◌, Bool-cases, if_true, if_false, lt→ltb, inl, inr, length-append,
  length-take, length-drop, drop-append, take-append_le, drop-append_le, take_all,
}
use nix_bench.Privsep.{header_size, Parser, ParseStatus}
use nix_bench.Privsep.Stream.{
  decode_header, fail_parser, needs_more, amount_of, feed_announced, feed_received, feed_payload,
  feed_decoded, feed_header, parser_feed,
}
use nix_bench.Privsep.Stream.Sound.{
  IsBounded, IsSound, with_header, with_header-IsBounded, undecoded, decode_header-IsBounded,
}
use nix_bench.Privsep.Stream.PayloadPieces.{
  later, amount_of-append, amount_of_enough, amount_of_short, taken_append, feed_payload-later,
  feed_payload-resume,
}

feed_decoded_old :
    (p : Parser) (s : List ℕ) (c : ℕ)
    → p.header_decoded ≡ true
    → feed_decoded p s c ≡ feed_payload p s c
unfolding feed_decoded
feed_decoded_old p s c d = if_true _ _ d

pub feed_decoded_new :
    (p : Parser) (s : List ℕ) (c : ℕ)
    → p.header_decoded ≡ false
    → feed_decoded p s c ≡ feed_announced p s c (decode_header p)
unfolding feed_decoded
feed_decoded_new p s c d = if_false _ _ d

decode_header-failed : (p q : Parser) → decode_header p ≡ some q → q.failed ≡ p.failed
unfolding decode_header
decode_header-failed p q e = ground arith

feed_announced-resume :
    (p : Parser) (s b : List ℕ) (c : ℕ) (r : Option Parser)
    → IsBounded p
    → length p.header ≡ header_size
    → p.header_decoded ≡ false
    → p.failed ≡ false
    → decode_header p ≡ r
    → (feed_announced p s c r).status ≡ ParseStatus.need_more
    → feed_announced p (s ++ b) c r
      ≡ later (c + length s) (parser_feed (feed_announced p s c r).parser b)
unfolding feed_announced
feed_announced-resume p s b c none v h d f e m = unfold fail_parser in cc
feed_announced-resume p s b c (some q) v h d f e m =
    let (w, dq) = decode_header-IsBounded p q v h d e in
    feed_payload-resume q s b c w dq (decode_header-failed p q e ∙ f) m

feed_decoded-resume :
    (p : Parser) (s b : List ℕ) (c : ℕ)
    → IsBounded p
    → length p.header ≡ header_size
    → p.failed ≡ false
    → (feed_decoded p s c).status ≡ ParseStatus.need_more
    → feed_decoded p (s ++ b) c ≡ later (c + length s) (parser_feed (feed_decoded p s c).parser b)
feed_decoded-resume p s b c v h f m = elim (Bool-cases p.header_decoded) [
  | inl d ↦
      rw (feed_decoded_old p s c d, feed_decoded_old p (s ++ b) c d)
        (feed_payload-resume p s b c v d f (rw (feed_decoded_old p s c d) at m))
  | inr d ↦
      rw (feed_decoded_new p s c d, feed_decoded_new p (s ++ b) c d)
        (feed_announced-resume p s b c (decode_header p) v h d f refl
          (rw (feed_decoded_new p s c d) at m))
]

feed_announced-later :
    (p : Parser) (s : List ℕ) (k c : ℕ) (r : Option Parser)
    → feed_announced p s (k + c) r ≡ later k (feed_announced p s c r)
unfolding feed_announced fail_parser
feed_announced-later p s k c none = refl
feed_announced-later p s k c (some q) = feed_payload-later q s k c

feed_decoded-later :
    (p : Parser) (s : List ℕ) (k c : ℕ) → feed_decoded p s (k + c) ≡ later k (feed_decoded p s c)
feed_decoded-later p s k c = elim (Bool-cases p.header_decoded) [
  | inl d ↦
      rw (feed_decoded_old p s c d, feed_decoded_old p s (k + c) d) (feed_payload-later p s k c)
  | inr d ↦
      rw (feed_decoded_new p s c d, feed_decoded_new p s (k + c) d)
        (feed_announced-later p s k c (decode_header p))
]

feed_received-later :
    (p : Parser) (s : List ℕ) (k c : ℕ) → feed_received p s (k + c) ≡ later k (feed_received p s c)
unfolding feed_received needs_more
feed_received-later p s k c = elim (Bool-cases (length p.header == header_size)) [
  | inl done ↦ rw done (feed_decoded-later p s k c)
  | inr short ↦ rw short refl
]

feed_received_short :
    (p : Parser) (s : List ℕ) (c : ℕ)
    → length p.header < header_size
    → feed_received p s c ≡ needs_more p c
unfolding feed_received
feed_received_short p s c h =
    let short : not (length p.header == header_size) ≡ true = ground arith in if_true _ _ short

pub feed_received_full :
    (p : Parser) (s : List ℕ) (c : ℕ)
    → length p.header ≡ header_size
    → feed_received p s c ≡ feed_decoded p s c
unfolding feed_received
feed_received_full p s c h =
    let done : not (length p.header == header_size) ≡ false = ground arith in if_false _ _ done

-- A piece that does not complete the header.
pub feed_header_short :
    (p : Parser) (s : List ℕ)
    → length p.header + length s < header_size
    → feed_header p s ≡ needs_more (with_header p (p.header ++ s)) (length s)
unfolding feed_header
feed_header_short p s h =
    let e = amount_of_short (header_size - length p.header) s (omega arith) in
    rw (e, take_all (length s) s refl)
      (feed_received_short (with_header p (p.header ++ s)) _ _
        (omega (arith, length-append p.header s)))

pub feed_header-append :
    (p : Parser) (s b : List ℕ)
    → length p.header + length s < header_size
    → feed_header p (s ++ b) ≡ later (length s) (feed_header (with_header p (p.header ++ s)) b)
unfolding feed_header
feed_header-append p s b h =
    let room = header_size - length p.header in
    let left = header_size - length (p.header ++ s) in
    let e : room - length s ≡ left = omega (arith, length-append p.header s) in
    let taken = rw e at (taken_append room p.header s b (omega arith)) in
    let used = rw e at (amount_of-append room s b (omega arith)) in
    rw (taken, used)
      (rw (drop-append s b (amount_of left b)) (
        feed_received-later (with_header p ((p.header ++ s) ++ take (amount_of left b) b))
          (drop (amount_of left b) b) (length s) (amount_of left b)))

-- A piece that completes the header.
pub feed_header_long :
    (p : Parser) (s : List ℕ)
    → length p.header ≤ header_size
    → header_size ≤ length p.header + length s
    → let n = header_size - length p.header in
      feed_header p s ≡ feed_decoded (with_header p (p.header ++ take n s)) (drop n s) n
unfolding feed_header
feed_header_long p s h l =
    let n = header_size - length p.header in
    rw (amount_of_enough n s (omega arith)) (
      feed_received_full (with_header p (p.header ++ take n s)) (drop n s) n
        (omega (arith, length-append p.header (take n s), length-take n s (omega arith))))

-- With a header that the piece completes, or one that was complete before.
pub feed_header-resume :
    (p : Parser) (s b : List ℕ)
    → IsSound p
    → p.failed ≡ false
    → length p.header < header_size
    → header_size ≤ length p.header + length s
    → (feed_header p s).status ≡ ParseStatus.need_more
    → feed_header p (s ++ b) ≡ later (length s) (parser_feed (feed_header p s).parser b)
feed_header-resume p s b v f h l m =
    let n = header_size - length p.header in
    let q = with_header p (p.header ++ take n s) in
    let full_q : length q.header ≡ header_size =
      omega (arith, length-append p.header (take n s), length-take n s (omega arith)) in
    let w =
      with_header-IsBounded p (p.header ++ take n s) v.bounded (undecoded p v (lt→ltb _ _ h))
        (omega arith) in
    let once = feed_header_long p s (omega arith) l in
    let twice = feed_header_long p (s ++ b) (omega arith) (omega (arith, length-append s b)) in
    let used : n + length (drop n s) ≡ length s = omega (arith, length-drop n s) in
    let resumed = feed_decoded-resume q (drop n s) b n w full_q f (rw once at m) in
    rw once (
      twice
      ∙ rw (take-append_le n s b (omega arith), drop-append_le n s b (omega arith))
          (rw used at resumed))
