-- ===== src/Helper/Columns.antt =====
-- The rectangles that `handle_frame_begin` of src/privsep_helper.c stores have columns.
use nix_bench.Prelude.{
  ◌&&◌, pos, ℕ, zero, suc, ◌+◌, ◌*◌, ◌%◌, ◌^◌, ◌≤◌, ◌<◌, ◌≡◌, ◌≢◌, refl, Bool, true, false, not,
  ◌||◌, Option, none, some, ltb, leb, ◌==◌, if◌then◌else◌, if_cases, codes, arith,
}
use nix_bench.Damage.{Rect}
use nix_bench.Privsep.{DamageRect, fatal_protocol, FrameBegin, max_damage_rects}
use nix_bench.Helper.{protocol, Helper}
use nix_bench.Helper.Frames.{
  begin_rect, begin_rect_fails, store_rect, begin_loop, begin_checked, covers_output,
  handle_frame_begin, refuse, size_of_int,
}
use nix_bench.Helper.Loops.{HasColumns}
use nix_bench.Helper.Consistent.{fail_helper-refuses}

-- Every rectangle below index `n` has columns.
abbrev Wide : Helper → ℕ → Type 0
Wide h n =
    (i : ℕ)
    → i < n
    → (0 < size_of_int (h.frame_damage_rects i).width)
      × (size_of_int (h.frame_damage_rects i).width < 2 ^ 62)

abbrev HasColumn : Rect → Type 0
HasColumn r = (0 < size_of_int r.width) × (size_of_int r.width < 2 ^ 62)

begin_rect_fails_lem :
    (h : Helper) (r : DamageRect)
    → begin_rect_fails h r ≡ false
    → (0 < r.width) × (r.width ≤ h.output.pixel_width)
unfolding begin_rect_fails
begin_rect_fails_lem h r e = ground arith

store_rect-Wide :
    (h : Helper) (r : DamageRect) (index : ℕ)
    → h.output.pixel_width < 2 ^ 62
    → begin_rect_fails h r ≡ false
    → Wide h index
    → Wide (store_rect h index r) (suc index)
unfolding store_rect size_of_int
store_rect-Wide h r index w e v i k =
    let known = begin_rect_fails_lem h r e in
    if_cases HasColumn (i == index)
      (record { x = pos r.x; y = pos r.y; width = pos r.width; height = pos r.height })
      (h.frame_damage_rects i) (λ t. (known.0, omega (arith, known, w))) (λ t. v i (ground arith))

begin_loop-Wide :
    (h : Helper) (f : FrameBegin) (left index expected : ℕ)
    → h.output.pixel_width < 2 ^ 62
    → Wide h index
    → (begin_loop h f left index expected).1 ≢ none
    → Wide (begin_loop h f left index expected).0 (index + left)
unfolding begin_loop
begin_loop-Wide h f zero index expected w v e = λ i k. v i (omega (arith, k))
begin_loop-Wide h f (suc left) index expected w v e =
    let r = begin_rect h f index in
    let h' = store_rect h index r in
    let rest = begin_loop h' f left (suc index) ((expected + r.width * r.height * 4) % 2 ^ 64) in
    if_cases (λ (q : Helper × Option ℕ). q.1 ≢ none → Wide q.0 (index + suc left))
      (begin_rect_fails h r) (h, none) rest (λ t e'. absurd (e' refl))
      (λ t e' i k.
        begin_loop-Wide h' f left (suc index) ((expected + r.width * r.height * 4) % 2 ^ 64)
          (unfold store_rect in w) (store_rect-Wide h r index w t v) e' i (omega (arith, k)))
      e

begin_checked-HasColumns :
    (f : FrameBegin) (n : ℕ) (h : Helper) (r : Option ℕ)
    → (r ≢ none → Wide h n)
    → (begin_checked f n h r).1 ≡ true
    → HasColumns (begin_checked f n h r).0
unfolding begin_checked refuse
begin_checked-HasColumns f n h none v e = cc (
  e,
  fail_helper-refuses h protocol fatal_protocol 0 (codes "invalid FRAME_BEGIN damage rectangle"),
)
begin_checked-HasColumns f n h (some expected) v e =
    let text = codes "FRAME_BEGIN size or initial damage is invalid" in
    let opened : Helper = record h {
      frame_open = true;
      frame_stale = false;
      frame_generation = f.generation;
      frame_serial = f.serial;
      frame_expected = f.frame_bytes;
      frame_received = 0;
      frame_damage_count = n;
    } in
    if_cases (λ (q : Helper × Bool). q.1 ≡ true → HasColumns q.0)
      (not (expected == f.frame_bytes) || not h.staging_valid && not (covers_output h n))
      (refuse h text) (opened, true)
      (λ t e'. cc (e', fail_helper-refuses h protocol fatal_protocol 0 text)) (λ t e'. v (λ m. cc))
      e

-- A FRAME_BEGIN that is accepted leaves the frame with rectangles that have columns.
pub handle_frame_begin-HasColumns :
    (h : Helper) (f : FrameBegin)
    → h.output.pixel_width < 2 ^ 62
    → (handle_frame_begin h f).1 ≡ true
    → HasColumns (handle_frame_begin h f).0
unfolding handle_frame_begin refuse
handle_frame_begin-HasColumns h f w e =
    let n = if f.damage_count == 0 then 1 else f.damage_count in
    let l = begin_loop h f n 0 0 in
    let text = codes "out-of-order FRAME_BEGIN" in
    let barred =
      not h.ready_sent
      || h.frame_open
      || h.presentation_pending
      || not (f.generation == h.generation)
      || h.suspended
      || leb f.serial h.last_submitted_serial
      || ltb max_damage_rects n in
    if_cases (λ (q : Helper × Bool). q.1 ≡ true → HasColumns q.0) barred (refuse h text)
      (begin_checked f n l.0 l.1)
      (λ t e'. cc (e', fail_helper-refuses h protocol fatal_protocol 0 text))
      (λ t e'.
        begin_checked-HasColumns f n l.0 l.1
          (λ m i k.
            begin_loop-Wide h f n 0 0 w (λ j u. absurd (omega arith)) m i (omega (arith, k)))
          e')
      e
