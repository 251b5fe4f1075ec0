-- ===== src/Helper/Late.antt =====
-- Frames from before a suspension in src/privsep_helper.c: their completions and their ends.
use nix_bench.Prelude.{
  ℕ, ◌≤◌, ◌<◌, ◌≡◌, ◌∙◌, true, false, not, ◌&&◌, ◌||◌, List, ltb, leb, ◌==◌, if◌then◌else◌, if_true,
  if_false, arith,
}
use nix_bench.Helper.{Helper}
use nix_bench.Helper.Consistent.{IsConsistent}
use nix_bench.Helper.Calls.{helper_suspend-IsConsistent}
use nix_bench.Helper.Onward.{run_calls-Grows}
use nix_bench.Helper.Runs.{Call, run_calls}
use nix_bench.Helper.Session.{helper_suspend, complete_frame, forget_abandoned}
use nix_bench.Helper.Suspended.{helper_suspend-IsSuspended}

-- A completion of an earlier generation is taken at once; only the memory of the frame can change.
absorbed :
    (h : Helper) (g s late : ℕ)
    → h.failed ≡ false
    → h.shutdown_requested ≡ false
    → g < h.generation
    → 0 < s
    → s ≤ h.last_submitted_serial
    → complete_frame h g s late ≡ (
      if g == h.abandoned_generation && s == h.abandoned_serial
          then record h { abandoned_generation = 0; abandoned_serial = 0 }
          else h,
      true,
    )
unfolding complete_frame forget_abandoned
absorbed h g s late f d older some_serial seen =
    let barred : h.failed || h.shutdown_requested ≡ false = ground (arith, f, d) in
    let past : ltb g h.generation && not (s == 0) && leb s h.last_submitted_serial ≡ true =
      ground arith in
    if_false _ _ barred ∙ if_true _ _ past

-- The completion of a frame that is being shown when a suspension of a consistent helper succeeds is
-- absorbed. The suspension remembers the frame as abandoned. Whatever calls follow, as long as the
-- helper has neither failed nor been asked to shut down, the completion is answered with true; nothing
-- is queued and nothing else changes, but that a frame that is still remembered as abandoned is
-- forgotten.
pub late_completion :
    (h : Helper) (ms late : ℕ) (cs : List Call)
    → IsConsistent h
    → h.presentation_pending ≡ true
    → (helper_suspend h ms).1 ≡ true
    → (run_calls (helper_suspend h ms).0 cs).failed ≡ false
    → (run_calls (helper_suspend h ms).0 cs).shutdown_requested ≡ false
    → let h' = (helper_suspend h ms).0 in
      let k = run_calls h' cs in
      let g = h.presentation_generation in
      let s = h.presentation_serial in
      (h'.abandoned_generation ≡ g)
      × (h'.abandoned_serial ≡ s)
      × (complete_frame k g s late ≡ (
        if g == k.abandoned_generation && s == k.abandoned_serial
            then record k { abandoned_generation = 0; abandoned_serial = 0 }
            else k,
        true,
      ))
late_completion h ms late cs v p t f d =
    let q = helper_suspend-IsSuspended h ms t in
    let shown = v.shown p in
    let later = run_calls-Grows (helper_suspend h ms).0 cs (helper_suspend-IsConsistent h ms v) in
    (
      (q.abandoned p).0,
      (q.abandoned p).1,
      absorbed (run_calls (helper_suspend h ms).0 cs) h.presentation_generation
          h.presentation_serial late f d (omega (arith, shown, later, q.next_generation))
          (omega (arith, shown)) (omega (arith, shown, later, q.same_serial)),
    )
