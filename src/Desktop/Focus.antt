-- ===== src/Desktop/Focus.antt =====
-- `set_active_window` of src/desktop.c, and moving a slot to the front of the stack.
use nix_bench.Prelude.{
  ℕ, ◌≡◌, ◌≢◌, ◌⊎◌, ◌↔◌, inl, inr, refl, sym, ap, ◌∙◌, false, List, [], ◌∷◌, ◌++◌,
}
use nix_bench.Prelude.{◌==◌}
use mathlib.Core.Path.{subst}
use native.Mathlib.Decide.{ℕ_discrete}
use nix_bench.Desktop.{
  Slot, Desktop, id_none, for_stack, mark_active, focusable, set_active_window, position,
}
use nix_bench.Desktop.Lookup.{
  InStack, Distinct, for_stack_listed, removed, removed-not_InStack, removed-InStack,
  remove_at-InStack, remove_at-Distinct,
}
use nix_bench.Desktop.Invariant.{
  IsStacked, IsFocused, IsKnown, IsValid, SameShape, SameShape-IsStacked, SameShape-IsKnown,
  for_stack-SameShape, focusable_cases,
}

module _ (d : Desktop) (id : ℕ) (v : IsStacked d.slots d.stack) where
  marked_slots : ℕ → Slot
  marked_slots = for_stack (mark_active (focusable d id)) d.stack d.slots

  marked_slot :
      (i : ℕ) → InStack i d.stack → marked_slots i ≡ mark_active (focusable d id) (d.slots i)
  unfolding marked_slots
  marked_slot i h = for_stack_listed (mark_active (focusable d id)) d.stack d.slots i v.distinct h

  marked-SameShape : SameShape d.slots marked_slots
  unfolding marked_slots
  marked-SameShape =
      for_stack-SameShape (mark_active (focusable d id)) d.stack d.slots (λ s. refl) (λ s. refl)

  pub set_active_window-IsFocused :
      let d' = set_active_window d id in IsFocused d'.slots d'.stack d'.active_window
  unfolding set_active_window marked_slots
  set_active_window-IsFocused = record {
    marked = λ i h.
        ap (λ (s : Slot). s.window.active) (marked_slot i h)
        ∙ ap (λ k. k == focusable d id) (sym (marked-SameShape.id i));
    focused = λ ne. at_focus ne (focusable_cases d id v);
  }
    where
      at_focus :
          focusable d id ≢ id_none
          → (focusable d id ≡ id_none)
            ⊎ ((focusable d id ≡ id)
                × (i : ℕ) × InStack i d.stack
                × ((d.slots i).id ≡ id)
                × ((d.slots i).window.minimized ≡ false))
          → (i : ℕ) × InStack i d.stack
            × ((marked_slots i).id ≡ focusable d id)
            × ((marked_slots i).window.minimized ≡ false)
      at_focus ne (inl z) = absurd (ne z)
      at_focus ne (inr (f, i, h, e, m)) = (
        i,
        h,
        marked-SameShape.id i ∙ e ∙ sym f,
        ap (λ (s : Slot). s.window.minimized) (marked_slot i h) ∙ m,
      )

  -- Whatever id is asked for, setting the active window keeps the stack and gives a valid focus.
  pub set_active_window-IsValid :
      IsKnown d.slots d.stack d.pointer_window → IsValid (set_active_window d id)
  unfolding set_active_window marked_slots
  set_active_window-IsValid p = record {
    stacked = SameShape-IsStacked d.slots marked_slots d.stack marked-SameShape v;
    focus = set_active_window-IsFocused;
    pointed = SameShape-IsKnown d.slots marked_slots d.stack d.pointer_window marked-SameShape p;
  }

pub InStack-append :
    (i : ℕ) (st : List ℕ) (j : ℕ) → InStack i (st ++ j ∷ []) → InStack i st ⊎ (i ≡ j)
InStack-append i [] j (inl e) = inr e
InStack-append i [] j (inr h) = elim h [ ]
InStack-append i (s ∷ st) j (inl e) = inl (inl e)
InStack-append i (s ∷ st) j (inr h) = elim (InStack-append i st j h) [
  | inl k ↦ inl (inr k)
  | inr e ↦ inr e
]

pub InStack-append_left : (i : ℕ) (st : List ℕ) (j : ℕ) → InStack i st → InStack i (st ++ j ∷ [])
InStack-append_left i [] j h = elim h [ ]
InStack-append_left i (s ∷ st) j (inl e) = inl e
InStack-append_left i (s ∷ st) j (inr h) = inr (InStack-append_left i st j h)

pub InStack-append_last : (st : List ℕ) (j : ℕ) → InStack j (st ++ j ∷ [])
InStack-append_last [] j = inl refl
InStack-append_last (s ∷ st) j = inr (InStack-append_last st j)

pub Distinct-append : (st : List ℕ) (j : ℕ) → Distinct st → ¬ InStack j st → Distinct (st ++ j ∷ [])
Distinct-append [] j d h = (λ k. k, tt)
Distinct-append (s ∷ st) j d h = (not_last, Distinct-append st j d.1 (λ k. h (inr k)))
  where
    not_last : ¬ InStack s (st ++ j ∷ [])
    not_last k = elim (InStack-append s st j k) [ inl m ↦ d.0 m | inr e ↦ h (inl (sym e)) ]

-- The stack with one of its slots moved to the front.
abbrev pub raised : ℕ → List ℕ → List ℕ
raised i st = removed i st ++ i ∷ []

pub raised-InStack : (i j : ℕ) (st : List ℕ) → InStack i st → InStack j st ↔ InStack j (raised i st)
raised-InStack i j st h = (to, from)
  where
    to : InStack j st → InStack j (raised i st)
    to k = elim (ℕ_discrete j i) [
      | yes e ↦ subst (λ m. InStack m (raised i st)) (sym e) (InStack-append_last (removed i st) i)
      | no ne ↦ InStack-append_left j (removed i st) i (removed-InStack i j st ne k)
    ]

    from : InStack j (raised i st) → InStack j st
    from k = elim (InStack-append j (removed i st) i k) [
      | inl m ↦ remove_at-InStack j st (position i st) m
      | inr e ↦ subst (λ m. InStack m st) (sym e) h
    ]

pub raised-IsStacked :
    (slots : ℕ → Slot) (i : ℕ) (st : List ℕ)
    → InStack i st
    → IsStacked slots st
    → IsStacked slots (raised i st)
raised-IsStacked slots i st h v = record {
  distinct =
      Distinct-append (removed i st) i (remove_at-Distinct st (position i st) v.distinct)
        (removed-not_InStack i st v.distinct);
  in_range = λ j k. v.in_range j (from j k);
  occupied = λ j k. v.occupied j (from j k);
  named = λ j k. v.named j (from j k);
  stacked = λ j lt o. (raised-InStack i j st h).0 (v.stacked j lt o);
  ids = λ j l k m. v.ids j l (from j k) (from l m);
}
  where
    from : (j : ℕ) → InStack j (raised i st) → InStack j st
    from j k = (raised-InStack i j st h).1 k
