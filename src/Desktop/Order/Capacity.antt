-- ===== src/Desktop/Order/Capacity.antt =====
-- The numbers of attempts and of slots: `allocate_id` and `find_free_slot` of src/desktop.c.
use nix_bench.Prelude.{
  ℕ, zero, suc, ◌+◌, ◌-◌, ◌^◌, ◌<◌, ◌≤◌, ◌≡◌, ◌≢◌, ◌↔◌, inl, inr, refl, sym, ap, ◌∙◌, true, false,
  not, ◌&&◌, Option, List, [], ◌∷◌, arith, Bool-cases, ◌==◌, if◌then◌else◌, length, map, ltb,
}
use mathlib.Core.Path.{subst}
use native.Mathlib.Decide.{ℕ_discrete}
use nix_bench.Window.{Rect}
use nix_bench.Desktop.{
  Slot, Desktop, id_none, no_slot, max_windows, window_count, find_slot_by_id, find_free_slot,
  succ_id, allocate_loop, allocate_id,
}
use nix_bench.Desktop.Stack.{open_window}
use nix_bench.Desktop.Lookup.{InStack}
use nix_bench.Desktop.Invariant.{IsValid}
use nix_bench.Desktop.Order.Spec.{ids, ids_of, at, nowhere, located}
use nix_bench.Desktop.Order.Allocate.{taken, free, full, find_free_slot-FindsFree}
use nix_bench.Desktop.Order.Counting.{all_below, only_below, InStack-map, length-map}

-- The id after `k` steps from `c`, which is not 0.
abbrev ahead : ℕ → ℕ → ℕ
ahead c k = if ltb (c + k) (2 ^ 64) then c + k else c + k + 1 - 2 ^ 64

-- The steps from `c` to an id.
abbrev steps : ℕ → ℕ → ℕ
steps c id = if ltb id c then id + 2 ^ 64 - 1 - c else id - c

ahead-succ_id :
    (c k : ℕ) → c ≢ id_none → c < 2 ^ 64 → k < 100 → ahead (succ_id c) k ≡ ahead c (k + 1)
ahead-succ_id c k ne lt h = ground (arith, ne)

steps-ahead : (c k : ℕ) → c ≢ id_none → c < 2 ^ 64 → k < 100 → steps c (ahead c k) ≡ k
steps-ahead c k ne lt h = ground (arith, ne)

pub succ_id-range : (c : ℕ) → c < 2 ^ 64 → (succ_id c ≢ id_none) × (succ_id c < 2 ^ 64)
succ_id-range c lt = ground arith

ahead_zero : (c : ℕ) → c < 2 ^ 64 → ahead c 0 ≡ c
ahead_zero c lt = ground arith

guard_passes : (c r : ℕ) → c ≢ id_none → r ≡ no_slot → not (c == id_none) && r == no_slot ≡ true
guard_passes c r ne e = ground arith

-- The loop gives an id, or each of the next `n` ids belongs to a window.
loop_failed :
    (n : ℕ) (d : Desktop)
    → d.next_id ≢ id_none
    → d.next_id < 2 ^ 64
    → n < 50
    → (allocate_loop n d).0 ≡ id_none
    → (k : ℕ) → k < n
    → find_slot_by_id d (ahead d.next_id k) ≢ no_slot
unfolding allocate_loop
loop_failed zero d ne lt h e k q = absurd (omega arith)
loop_failed (suc n) d ne lt h e k q =
    let c = d.next_id in
    let d' = record d { next_id = succ_id c } in
    elim (Bool-cases (not (c == id_none) && find_slot_by_id d' c == no_slot)) [
      | inl t ↦ absurd (ne (sym (rw t) ∙ e))
      | inr f ↦ elim (ℕ_discrete k 0) [
        | yes z ↦ here f z
        | no nz ↦
            let r = succ_id-range c lt in
            let rest =
              loop_failed n d' r.0 r.1 (omega arith) (sym (rw f) ∙ e) (k - 1) (omega arith) in
            later rest nz
      ]
    ]
  where
    here :
        not (d.next_id == id_none)
            && find_slot_by_id (record d { next_id = succ_id d.next_id }) d.next_id == no_slot
          ≡ false
        → k ≡ 0
        → find_slot_by_id d (ahead d.next_id k) ≢ no_slot
    here f z w =
        let c = d.next_id in
        let q : ahead c k ≡ c = ap (ahead c) z ∙ ahead_zero c lt in
        let found : find_slot_by_id (record d { next_id = succ_id c }) c ≡ no_slot =
          taken d (succ_id c) c ∙ ap (find_slot_by_id d) (sym q) ∙ w in
        cc (f, guard_passes c _ ne found)

    later :
        find_slot_by_id
            (record d { next_id = succ_id d.next_id })
            (ahead (succ_id d.next_id) (k - 1))
          ≢ no_slot
        → k ≢ 0
        → find_slot_by_id d (ahead d.next_id k) ≢ no_slot
    later r nz w =
        let c = d.next_id in
        let q : ahead (succ_id c) (k - 1) ≡ ahead c k =
          ahead-succ_id c (k - 1) ne lt (omega arith) ∙ ap (ahead c) (omega arith) in
        r (taken d (succ_id c) _ ∙ ap (find_slot_by_id d) q ∙ w)

InStack-ids :
    (slots : ℕ → Slot) (i : ℕ) (st : List ℕ) → InStack i st → InStack (slots i).id (ids_of slots st)
InStack-ids slots i [] h = h
InStack-ids slots i (j ∷ st) (inl e) = inl (ap (λ k. (slots k).id) e)
InStack-ids slots i (j ∷ st) (inr h) = inr (InStack-ids slots i st h)

length-ids : (slots : ℕ → Slot) (st : List ℕ) → length (ids_of slots st) ≡ length st
length-ids slots [] = refl
length-ids slots (i ∷ st) = ap suc (length-ids slots st)

listed_id : (d : Desktop) (id : ℕ) → IsValid d → find_slot_by_id d id ≢ no_slot → InStack id (ids d)
listed_id d id v ne = elim (located d id v.stacked) [
  | nowhere e _ ↦ absurd (ne e)
  | at i e lt h q _ _ ↦ subst (λ k. InStack k (ids d)) q (InStack-ids d.slots i d.stack h)
]

-- If `n` attempts fail, there are at least `n` windows.
failed_count :
    (n : ℕ) (d : Desktop)
    → IsValid d
    → d.next_id ≢ id_none
    → d.next_id < 2 ^ 64
    → n < 50
    → (allocate_loop n d).0 ≡ id_none
    → n ≤ window_count d
failed_count n d v ne lt h e =
    let c = d.next_id in
    let all = all_below n (map (steps c) (ids d)) (λ k q.
      subst (λ j. InStack j (map (steps c) (ids d))) (steps-ahead c k ne lt (omega arith))
        (InStack-map (steps c) (ahead c k) (ids d)
          (listed_id d (ahead c k) v (loop_failed n d ne lt h e k q)))) in
    omega (arith, all, length-map (steps c) (ids d), length-ids d.slots d.stack)

-- A free slot leaves room for fewer than the maximum of windows.
free_count :
    (d : Desktop) (i : ℕ)
    → IsValid d
    → i < max_windows
    → (d.slots i).occupied ≡ false
    → window_count d < max_windows
free_count d i v lt f =
    let r =
      only_below max_windows (i ∷ d.stack)
        ((λ h. cc (v.stacked.occupied i h, f)), v.stacked.distinct) (λ k h. below k h) in
    omega (arith, r)
  where
    below : (k : ℕ) → InStack k (i ∷ d.stack) → k < max_windows
    below k (inl e) = omega (arith, e)
    below k (inr h) = v.stacked.in_range k h

full_count :
    (d : Desktop)
    → IsValid d
    → ((j : ℕ) → j < max_windows → (d.slots j).occupied ≡ true)
    → max_windows ≤ window_count d
full_count d v h = all_below max_windows d.stack (λ k lt. v.stacked.stacked k lt (h k lt))

allocated :
    (d : Desktop)
    → IsValid d
    → d.next_id ≢ id_none
    → d.next_id < 2 ^ 64
    → window_count d < max_windows
    → (allocate_id d).0 ≢ id_none
unfolding allocate_id
allocated d v ne lt c e =
    absurd (omega (arith, failed_count (max_windows + 1) d v ne lt (omega arith) e))

open-full :
    (d : Desktop) (text : Option (List ℕ)) (frame : Rect)
    → find_free_slot d ≡ no_slot
    → (open_window d text frame).0 ≡ id_none
unfolding open_window
open-full d text frame e = rw e

open-free :
    (d : Desktop) (text : Option (List ℕ)) (frame : Rect)
    → find_free_slot d < max_windows
    → (allocate_id d).0 ≢ id_none
    → (open_window d text frame).0 ≡ (allocate_id d).0
unfolding open_window
open-free d text frame lt ne = ground (arith, ne)

-- On a valid desktop whose next id is a 64-bit number other than 0, opening a window gives an id
-- exactly if fewer than 16 windows are open: the 17 attempts of `allocate_id` always find one,
-- also where the ids wrap around.
pub open_window_lem :
    (d : Desktop) (text : Option (List ℕ)) (frame : Rect)
    → IsValid d
    → d.next_id ≢ id_none
    → d.next_id < 2 ^ 64
    → ((open_window d text frame).0 ≢ id_none) ↔ (window_count d < max_windows)
open_window_lem d text frame v ne lt = elim (find_free_slot-FindsFree d) [
  | full e h ↦ (
    λ opened. absurd (opened (open-full d text frame e)),
    λ c. absurd (omega (arith, full_count d v h)),
  )
  | free q f ↦
      let c = free_count d _ v q f in
      let a = allocated d v ne lt c in (λ _. c, λ _ e. a (sym (open-free d text frame q a) ∙ e))
]
