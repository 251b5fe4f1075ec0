-- ===== src/Helper/Loops.antt =====
-- The loops of src/privsep_helper.c over the bytes of a feed and over the bytes of a frame end.
use nix_bench.Prelude.{
  ◌*◌, ◌%◌, ◌^◌, ℕ, zero, suc, ◌+◌, ◌-◌, ◌≤◌, ◌<◌, ◌≡◌, ◌≢◌, refl, sym, ap, ◌∙◌, true, false, not,
  Option, none, some, List, [], ◌∷◌, ltb, if_cases, if_true, if_false, ltb→lt, drop, length,
  length-drop, codes, arith, Bool-cases, inl, inr,
}
use mathlib.Core.List.{append-nil}
use mathlib.Core.Path.{subst}
use native.Mathlib.Nat.{mod-lt}
use nix_bench.Helper.{size_sub}
use nix_bench.Damage.{Rect}
use nix_bench.Privsep.{FrameData, ParseStatus, Fed, Parser}
use nix_bench.Privsep.Stream.{parser_feed}
use nix_bench.Privsep.Stream.Sound.{IsSound, parser_feed-IsSound}
use nix_bench.Privsep.Stream.Pieces.{parser_feed-append, waits_not_failed}
use nix_bench.Privsep.Stream.Progress.{parser_feed-consumed}
use nix_bench.Helper.{Helper}
use nix_bench.Helper.Frames.{
  find_damage, piece_of, piece_fails, copy_piece, copy_next, copy_loop, Copied, size_of_int,
}
use nix_bench.Helper.Messages.{
  HelperFed, accepted, refused, no_fuel, feed_message, feed_loop, helper_feed, handle_message,
}
use nix_bench.Helper.Keeps.{refuse-Keeps, handle_message-Keeps}

-- A feed that asks for more took all that there was.
parser_feed_more :
    (p : Parser) (s : List ℕ)
    → IsSound p
    → 1 ≤ length s
    → (parser_feed p s).status ≡ ParseStatus.need_more
    → (parser_feed p s).consumed ≡ length s
parser_feed_more p s v k m =
    let bounds = parser_feed-consumed p s v (waits_not_failed p s m) k in
    let again = rw append-nil at (parser_feed-append p s [] v m) in
    omega (arith, bounds, ap (λ (r : Fed). r.consumed) again)

parser_feed_failed :
    (p : Parser) (s : List ℕ)
    → p.failed ≡ true
    → parser_feed p s ≡ record { parser = p; status = ParseStatus.error; consumed = 0 }
unfolding parser_feed
parser_feed_failed p s f = if_true _ _ f

-- The loop ended by itself, with `n` bytes given in all.
pub record Finishes (n : ℕ) (r : HelperFed) : Type 0 where
  pub by_itself : r.end ≢ no_fuel
  pub all_taken : r.end ≡ accepted → r.consumed ≡ n
  pub within : r.consumed ≤ n
  pub parser_sound : IsSound r.helper.parser

feed_message-Finishes :
    (rest : Helper → List ℕ → ℕ → HelperFed) (h : Helper) (left : List ℕ) (total n : ℕ)
    (status : ParseStatus)
    → IsSound h.parser
    → total ≤ n
    → (status ≡ ParseStatus.need_more → total ≡ n)
    → ((h' : Helper) → h'.parser ≡ h.parser → Finishes n (rest h' left total))
    → Finishes n (feed_message rest h left total status)
unfolding feed_message
feed_message-Finishes rest h left total n ParseStatus.error v k m next = record {
  by_itself = λ e. cc;
  all_taken = λ e. cc;
  within = k;
  parser_sound = subst IsSound (sym (refuse-Keeps h (codes "malformed core protocol message"))) v;
}
feed_message-Finishes rest h left total n ParseStatus.need_more v k m next = record {
  by_itself = λ e. cc;
  all_taken = λ e. m refl;
  within = k;
  parser_sound = v;
}
feed_message-Finishes rest h left total n (ParseStatus.message b) v k m next =
    let (h', handled) = handle_message h b.body in
    let kept = handle_message-Keeps h b.body in
    let stopped : HelperFed = record { helper = h'; end = refused; consumed = total } in
    if_cases (Finishes n) (not handled) stopped (rest h' left total)
      (λ e. record {
        by_itself = λ e'. cc;
        all_taken = λ e'. cc;
        within = k;
        parser_sound = subst IsSound (sym kept) v;
      })
      (λ e. next h' kept)

failed_round :
    (fuel : ℕ) (h : Helper) (bytes : List ℕ) (total n : ℕ)
    → IsSound h.parser
    → h.parser.failed ≡ true
    → total ≤ n
    → let fed = parser_feed h.parser bytes in
      Finishes n (
        feed_message
          (feed_loop fuel)
          (record h { parser = fed.parser })
          (drop fed.consumed bytes)
          (total + fed.consumed)
          fed.status)
failed_round fuel h bytes total n v f k = rw (parser_feed_failed h.parser bytes f) (
    unfold feed_message in
    record {
      by_itself = λ e. cc;
      all_taken = λ e. cc;
      within = omega arith;
      parser_sound =
          subst IsSound (sym (refuse-Keeps h (codes "malformed core protocol message"))) v;
    })

feed_loop-Finishes :
    (fuel : ℕ) (h : Helper) (bytes : List ℕ) (total n : ℕ)
    → IsSound h.parser
    → length bytes ≤ fuel
    → total + length bytes ≡ n
    → Finishes n (feed_loop fuel h bytes total)
unfolding feed_loop
feed_loop-Finishes fuel h [] total n v k e = record {
  by_itself = λ e'. cc;
  all_taken = λ e'. omega arith;
  within = omega arith;
  parser_sound = v;
}
feed_loop-Finishes zero h (b ∷ bytes) total n v k e = absurd (omega arith)
feed_loop-Finishes (suc fuel) h (b ∷ bytes) total n v k e =
    let fed = parser_feed h.parser (b ∷ bytes) in
    let sound = parser_feed-IsSound h.parser (b ∷ bytes) v in
    let left = drop fed.consumed (b ∷ bytes) in
    elim (Bool-cases h.parser.failed) [
      | inl f ↦ failed_round fuel h (b ∷ bytes) total n v f (omega arith)
      | inr f ↦
          let taken = parser_feed-consumed h.parser (b ∷ bytes) v f (omega arith) in
          let shorter = length-drop fed.consumed (b ∷ bytes) in
          feed_message-Finishes (feed_loop fuel) (record h { parser = fed.parser }) left
            (total + fed.consumed) n fed.status sound (omega (arith, taken))
            (λ m. omega (arith, parser_feed_more h.parser (b ∷ bytes) v (omega arith) m))
            (λ h' kept.
              feed_loop-Finishes fuel h' left (total + fed.consumed) n
                (subst IsSound (sym kept) sound) (omega (arith, shorter, taken))
                (omega (arith, shorter, taken)))
    ]

-- From a sound parser on, a feed ends by itself and leaves the parser sound.
pub helper_feed-Finishes :
    (h : Helper) (bytes : List ℕ)
    → IsSound h.parser
    → h.failed ≡ false
    → Finishes (length bytes) (helper_feed h bytes)
unfolding helper_feed
helper_feed-Finishes h bytes v f =
    rw (if_false _ _ f)
      (feed_loop-Finishes (length bytes) h bytes 0 (length bytes) v (omega arith) (omega arith))

-- The rectangles of the frame have columns, and no more than fill a row of 2 ^ 64 bytes.
abbrev pub HasColumns : Helper → Type 0
HasColumns h =
    (i : ℕ)
    → i < h.frame_damage_count
    → (0 < size_of_int (h.frame_damage_rects i).width)
      × (size_of_int (h.frame_damage_rects i).width < 2 ^ 62)

-- A piece of such a rectangle has a byte.
amount_positive :
    (h : Helper) (d : Rect) (base packed remaining : ℕ)
    → 0 < size_of_int d.width
    → size_of_int d.width < 2 ^ 62
    → 0 < remaining
    → 0 < (piece_of h d base packed remaining).amount
unfolding piece_of
amount_positive h d base packed remaining w u k =
    let stride = size_of_int d.width * 4 % 2 ^ 64 in
    let some_stride : 0 < stride = omega arith in
    let inside = mod-lt (size_sub packed base) some_stride in ground (arith, inside, k)

-- A rectangle that is found is one of the frame's.
find_damage-some :
    (h : Helper) (left index base packed : ℕ) (d : Rect) (b : ℕ)
    → find_damage h left index base packed ≡ some (d, b)
    → (j : ℕ) × (j < index + left) × (h.frame_damage_rects j ≡ d)
unfolding find_damage
find_damage-some h zero index base packed d b e = cc
find_damage-some h (suc left) index base packed d b e =
    let c = h.frame_damage_rects index in
    let size = size_of_int c.width * size_of_int c.height % 2 ^ 64 * 4 % 2 ^ 64 in
    let end = (base + size) % 2 ^ 64 in
    elim (Bool-cases (ltb packed end)) [
      | inl here ↦
          let same : ◌≡◌ {A = Option (Rect × ℕ)} (some (c, base)) (some (d, b)) =
            sym (if_true _ _ here) ∙ e in
          (index, omega arith, cc)
      | inr after ↦
          let (j, l, q) =
            find_damage-some h left (suc index) end packed d b (rw (if_false _ _ after) at e) in
          (j, omega (arith, l), q)
    ]

found_columns :
    (h : Helper) (packed : ℕ) (d : Rect) (b : ℕ)
    → HasColumns h
    → find_damage h h.frame_damage_count 0 0 packed ≡ some (d, b)
    → (0 < size_of_int d.width) × (size_of_int d.width < 2 ^ 62)
found_columns h packed d b v e =
    let (j, l, q) = find_damage-some h h.frame_damage_count 0 0 packed d b e in
    subst (λ (r : Rect). (0 < size_of_int r.width) × (size_of_int r.width < 2 ^ 62)) q
      (v j (omega (arith, l)))

copy_next-ends :
    (rest : Helper → ℕ → ℕ → Helper × Copied) (h : Helper) (f : FrameData) (bytes : List ℕ)
    (s p : ℕ) (found : Option (Rect × ℕ))
    → HasColumns h
    → s < f.size
    → find_damage h h.frame_damage_count 0 0 p ≡ found
    → ((h' : Helper) (s' p' : ℕ) → HasColumns h' → s < s' → (rest h' s' p').1 ≢ Copied.no_fuel)
    → (copy_next rest h f bytes s p found).1 ≢ Copied.no_fuel
unfolding copy_next
copy_next-ends rest h f bytes s p none v k e next = λ m. cc
copy_next-ends rest h f bytes s p (some (d, b)) v k e next =
    let q = piece_of h d b p (f.size - s) in
    let columns = found_columns h p d b v e in
    if_cases (λ (r : Helper × Copied). r.1 ≢ Copied.no_fuel) (piece_fails h q) (h, Copied.too_large)
      (rest (copy_piece h bytes s q) (s + q.amount) (p + q.amount)) (λ e' m. cc)
      (λ e'.
        next _ _ _ (unfold copy_piece in v)
          (omega (arith, amount_positive h d b p (f.size - s) columns.0 columns.1 (omega arith))))

-- The loop that copies the bytes of a FRAME_DATA message ends by itself, where the rectangles of the
-- frame have a width from 1 to less than 2 ^ 62: each round copies a byte at least.
pub copy_loop-ne-no_fuel :
    (fuel : ℕ) (f : FrameData) (bytes : List ℕ) (h : Helper) (s p : ℕ)
    → HasColumns h
    → f.size ≤ s + fuel
    → (copy_loop fuel f bytes h s p).1 ≢ Copied.no_fuel
unfolding copy_loop
copy_loop-ne-no_fuel zero f bytes h s p v k = ground arith
copy_loop-ne-no_fuel (suc fuel) f bytes h s p v k =
    if_cases (λ (r : Helper × Copied). r.1 ≢ Copied.no_fuel) (ltb s f.size)
      (copy_next (copy_loop fuel f bytes) h f bytes s p (find_damage h h.frame_damage_count 0 0 p))
      (h, Copied.complete)
      (λ e.
        copy_next-ends (copy_loop fuel f bytes) h f bytes s p _ v (ltb→lt _ _ e) refl
          (λ h' s' p' v' l. copy_loop-ne-no_fuel fuel f bytes h' s' p' v' (omega arith)))
      (λ e m. cc)
