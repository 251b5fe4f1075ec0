-- ===== src/Desktop/Order/Removed.antt =====
-- A slot taken out of the stack: for `nb_desktop_destroy_window` of src/desktop.c.
use nix_bench.Prelude.{
  ℕ, ◌<◌, ◌≡◌, ◌≢◌, inl, inr, refl, sym, ap, ◌∙◌, true, false, List, [], ◌∷◌, arith,
}
use mathlib.Core.Path.{subst}
use native.Mathlib.Decide.{ℕ_discrete}
use nix_bench.Desktop.{position, Slot, max_windows, set_slot}
use nix_bench.Desktop.Lookup.{
  InStack, removed, remove_at-InStack, remove_at-Distinct, removed-not_InStack, removed-InStack,
}
use nix_bench.Desktop.Invariant.{IsStacked, IsFocused, IsKnown}
use nix_bench.Desktop.Order.Spec.{ids_of}

set_slot_here : (slots : ℕ → Slot) (i : ℕ) (s : Slot) → set_slot slots i s i ≡ s
set_slot_here slots i s = ground arith

set_slot_other :
    (slots : ℕ → Slot) (i : ℕ) (s : Slot) (j : ℕ) → j ≢ i → set_slot slots i s j ≡ slots j
set_slot_other slots i s j ne = ground arith

-- The slots after slot `i` got the free slot `s`, and the stack after `i` left it.
module _ (slots : ℕ → Slot) (i : ℕ) (st : List ℕ) (s : Slot) (v : IsStacked slots st) where
  pub kept : (j : ℕ) → InStack j (removed i st) → set_slot slots i s j ≡ slots j
  kept j h =
      set_slot_other slots i s j
        (λ e. removed-not_InStack i st v.distinct (subst (λ k. InStack k (removed i st)) e h))

  listed : (j : ℕ) → InStack j (removed i st) → InStack j st
  listed j h = remove_at-InStack j st (position i st) h

  pub ids-kept :
      (st' : List ℕ)
      → ((j : ℕ) → InStack j st' → set_slot slots i s j ≡ slots j)
      → ids_of (set_slot slots i s) st' ≡ ids_of slots st'
  ids-kept [] h = refl
  ids-kept (j ∷ st') h =
      ap (λ (t : Slot). t.id ∷ ids_of (set_slot slots i s) st') (h j (inl refl))
      ∙ ap (λ l. (slots j).id ∷ l) (ids-kept st' (λ k m. h k (inr m)))

  pub removed-IsStacked : s.occupied ≡ false → IsStacked (set_slot slots i s) (removed i st)
  removed-IsStacked f = record {
    distinct = remove_at-Distinct st (position i st) v.distinct;
    in_range = λ j h. v.in_range j (listed j h);
    occupied = λ j h. ap (λ (t : Slot). t.occupied) (kept j h) ∙ v.occupied j (listed j h);
    named = λ j h e. v.named j (listed j h) (sym (ap (λ (t : Slot). t.id) (kept j h)) ∙ e);
    stacked = λ j lt o. still j lt o (ℕ_discrete j i);
    ids = λ j k h m e.
        v.ids j k (listed j h) (listed k m)
          (sym (ap (λ (t : Slot). t.id) (kept j h)) ∙ e ∙ ap (λ (t : Slot). t.id) (kept k m));
  }
    where
      still :
          (j : ℕ)
          → j < max_windows
          → (set_slot slots i s j).occupied ≡ true
          → Dec (j ≡ i)
          → InStack j (removed i st)
      still j lt o (yes e) =
          absurd (
            cc
              (subst (λ k. (set_slot slots i s k).occupied ≡ true) e o, set_slot_here slots i s, f))
      still j lt o (no ne) =
          removed-InStack i j st ne (
            v.stacked j lt
              (sym (ap (λ (t : Slot). t.occupied) (set_slot_other slots i s j ne)) ∙ o))

  pub removed-IsKnown :
      (id : ℕ)
      → id ≢ (slots i).id
      → IsKnown slots st id
      → IsKnown (set_slot slots i s) (removed i st) id
  removed-IsKnown id other k ne =
      let (j, h, e) = k ne in
      let away : j ≢ i = λ q. other (sym e ∙ ap (λ l. (slots l).id) q) in
      (
        j,
        removed-InStack i j st away h,
        ap (λ (t : Slot). t.id) (set_slot_other slots i s j away) ∙ e,
      )

  pub removed-IsFocused :
      (active : ℕ)
      → active ≢ (slots i).id
      → IsFocused slots st active
      → IsFocused (set_slot slots i s) (removed i st) active
  removed-IsFocused active other f = record {
    marked = λ j h. rw (kept j h) (f.marked j (listed j h));
    focused = λ ne.
        let (j, h, e, m) = f.focused ne in
        let away : j ≢ i = λ q. other (sym e ∙ ap (λ l. (slots l).id) q) in
        let same = set_slot_other slots i s j away in
        (
          j,
          removed-InStack i j st away h,
          ap (λ (t : Slot). t.id) same ∙ e,
          ap (λ (t : Slot). t.window.minimized) same ∙ m,
        );
  }
