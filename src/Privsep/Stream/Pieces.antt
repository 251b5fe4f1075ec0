-- ===== src/Privsep/Stream/Pieces.antt =====
-- The feeds of src/privsep_protocol.c on a message that arrives in pieces.
use nix_bench.Prelude.{
  ℕ, ◌+◌, ◌<◌, ◌≡◌, sym, ap, ◌∙◌, true, false, List, ◌++◌, arith, length, Bool-cases, if_true, ltb,
  ltb→lt, not_ltb→le, tests, inl, inr, length-append,
}
use nix_bench.Privsep.{header_size, Parser, ParseStatus, Fed}
use nix_bench.Privsep.Stream.{needs_more, feed_header, parser_feed}
use nix_bench.Privsep.Stream.Sound.{IsSound, with_header, full}
use nix_bench.Privsep.Stream.PayloadPieces.{
  later, parser_feed_header, parser_feed_payload, feed_payload-resume,
}
use nix_bench.Privsep.Stream.HeaderPieces.{
  feed_header_short, feed_header-append, feed_header-resume,
}

pub waits_not_failed :
    (p : Parser) (s : List ℕ) → (parser_feed p s).status ≡ ParseStatus.need_more → p.failed ≡ false
waits_not_failed p s m = elim (Bool-cases p.failed) [
  | inl f ↦ unfold parser_feed in cc (if_true_status f)
  | inr f ↦ f
]
  where
    if_true_status : p.failed ≡ true → (parser_feed p s).status ≡ ParseStatus.error
    if_true_status f = unfold parser_feed in ap (λ (r : Fed). r.status) (if_true _ _ f)

pub sound_decoded :
    (p : Parser)
    → IsSound p
    → p.failed ≡ false
    → length p.header ≡ header_size
    → p.header_decoded ≡ true
sound_decoded p v f h = elim (Bool-cases p.header_decoded) [
  | inl d ↦ d
  | inr d ↦ absurd (omega (arith, v.waits_header f d))
]

-- The two pieces at a header that is not complete yet.
header-append :
    (p : Parser) (s b : List ℕ)
    → IsSound p
    → p.failed ≡ false
    → length p.header < header_size
    → (feed_header p s).status ≡ ParseStatus.need_more
    → feed_header p (s ++ b) ≡ later (length s) (parser_feed (feed_header p s).parser b)
header-append p s b v f h m = elim (Bool-cases (ltb (length p.header + length s) header_size)) [
  | inl short ↦
      let q = with_header p (p.header ++ s) in
      let less : length q.header < header_size =
        omega (tests, ltb→lt _ _ short, length-append p.header s) in
      rw (feed_header_short p s (ltb→lt _ _ short)) (
        feed_header-append p s b (ltb→lt _ _ short)
        ∙ unfold needs_more in ap (later (length s)) (sym (parser_feed_header q b f less)))
  | inr long ↦ feed_header-resume p s b v f h (not_ltb→le _ _ long) m
]

-- Where a feed asks for more, the bytes that follow are taken as if they had come with it: the same
-- message, error or wait, the same parser, and all the bytes of both pieces counted.
pub parser_feed-append :
    (p : Parser) (s b : List ℕ)
    → IsSound p
    → (parser_feed p s).status ≡ ParseStatus.need_more
    → parser_feed p (s ++ b) ≡ later (length s) (parser_feed (parser_feed p s).parser b)
parser_feed-append p s b v m = elim (Bool-cases (ltb (length p.header) header_size)) [
  | inl h ↦
      let f = waits_not_failed p s m in
      let first = parser_feed_header p s f (ltb→lt _ _ h) in
      let both = parser_feed_header p (s ++ b) f (ltb→lt _ _ h) in
      rw (first, both) (header-append p s b v f (ltb→lt _ _ h) (rw first at m))
  | inr h ↦
      let f = waits_not_failed p s m in
      let d = sound_decoded p v f (full p v h) in
      let first = parser_feed_payload p s f (full p v h) d in
      let both = parser_feed_payload p (s ++ b) f (full p v h) d in
      let resumed = feed_payload-resume p s b 0 v.bounded d f (rw first at m) in
      let none_before : 0 + length s ≡ length s = omega arith in
      rw (first, both) (rw none_before at resumed)
]
