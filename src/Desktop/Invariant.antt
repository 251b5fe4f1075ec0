-- ===== src/Desktop/Invariant.antt =====
-- The window manager's invariant on the slots, the stack and the focus of src/desktop.c.
use nix_bench.Prelude.{
  ℕ, ◌<◌, ◌≡◌, ◌≢◌, ◌⊎◌, inl, inr, refl, sym, ◌∙◌, true, false, List, [], ◌∷◌, arith, Bool-cases,
}
use nix_bench.Prelude.{◌==◌}
use nix_bench.Desktop.{
  Slot, Desktop, id_none, max_windows, find_slot_by_id, for_stack, set_slot, focusable,
}
use nix_bench.Desktop.Lookup.{InStack, Distinct, hit, miss, find_slot_by_id-FindsId}

-- The stack lists each occupied slot once and nothing else; their ids are distinct and not 0.
pub record IsStacked (slots : ℕ → Slot) (stack : List ℕ) : Type 0 where
  pub distinct : Distinct stack
  pub in_range : (i : ℕ) → InStack i stack → i < max_windows
  pub occupied : (i : ℕ) → InStack i stack → (slots i).occupied ≡ true
  pub named : (i : ℕ) → InStack i stack → (slots i).id ≢ id_none
  pub stacked : (i : ℕ) → i < max_windows → (slots i).occupied ≡ true → InStack i stack
  pub ids : (i j : ℕ) → InStack i stack → InStack j stack → (slots i).id ≡ (slots j).id → i ≡ j

-- Exactly the window of the active id is marked as active, and it is not minimised.
pub record IsFocused (slots : ℕ → Slot) (stack : List ℕ) (active : ℕ) : Type 0 where
  pub marked : (i : ℕ) → InStack i stack → (slots i).window.active ≡ ((slots i).id == active)
  pub focused :
      active ≢ id_none
      → (i : ℕ) × InStack i stack × ((slots i).id ≡ active) × ((slots i).window.minimized ≡ false)

-- The id is none, or that of a window in the stack.
abbrev pub IsKnown : (ℕ → Slot) → List ℕ → ℕ → Type 0
IsKnown slots stack id = id ≢ id_none → (i : ℕ) × InStack i stack × ((slots i).id ≡ id)

pub record IsValid (d : Desktop) : Type 0 where
  pub stacked : IsStacked d.slots d.stack
  pub focus : IsFocused d.slots d.stack d.active_window
  pub pointed : IsKnown d.slots d.stack d.pointer_window

-- The same slots are occupied, under the same ids.
pub record SameShape (slots slots' : ℕ → Slot) : Type 0 where
  pub occupied : (i : ℕ) → (slots' i).occupied ≡ (slots i).occupied
  pub id : (i : ℕ) → (slots' i).id ≡ (slots i).id

pub SameShape-IsStacked :
    (slots slots' : ℕ → Slot) (stack : List ℕ)
    → SameShape slots slots'
    → IsStacked slots stack
    → IsStacked slots' stack
SameShape-IsStacked slots slots' stack s v = record {
  distinct = v.distinct;
  in_range = v.in_range;
  occupied = λ i h. s.occupied i ∙ v.occupied i h;
  named = λ i h e. v.named i h (sym (s.id i) ∙ e);
  stacked = λ i lt o. v.stacked i lt (sym (s.occupied i) ∙ o);
  ids = λ i j h k e. v.ids i j h k (sym (s.id i) ∙ e ∙ s.id j);
}

pub SameShape-IsKnown :
    (slots slots' : ℕ → Slot) (stack : List ℕ) (id : ℕ)
    → SameShape slots slots'
    → IsKnown slots stack id
    → IsKnown slots' stack id
SameShape-IsKnown slots slots' stack id s v ne = let (i, h, e) = v ne in (i, h, s.id i ∙ e)

set_slot-SameShape :
    (slots : ℕ → Slot) (i : ℕ) (s : Slot)
    → s.occupied ≡ (slots i).occupied
    → s.id ≡ (slots i).id
    → SameShape slots (set_slot slots i s)
set_slot-SameShape slots i s o e = record {
  occupied = λ j. ground (arith, o);
  id = λ j. ground (arith, e);
}

SameShape-trans : (a b c : ℕ → Slot) → SameShape a b → SameShape b c → SameShape a c
SameShape-trans a b c s t = record {
  occupied = λ i. t.occupied i ∙ s.occupied i;
  id = λ i. t.id i ∙ s.id i;
}

pub for_stack-SameShape :
    (f : Slot → Slot) (stack : List ℕ) (slots : ℕ → Slot)
    → ((s : Slot) → (f s).occupied ≡ s.occupied)
    → ((s : Slot) → (f s).id ≡ s.id)
    → SameShape slots (for_stack f stack slots)
unfolding for_stack
for_stack-SameShape f [] slots o e = record { occupied = λ i. refl; id = λ i. refl }
for_stack-SameShape f (i ∷ stack) slots o e =
    let next = set_slot slots i (f (slots i)) in
    SameShape-trans slots next _
      (set_slot-SameShape slots i (f (slots i)) (o (slots i)) (e (slots i)))
      (for_stack-SameShape f stack next o e)

pub focusable_cases :
    (d : Desktop) (id : ℕ)
    → IsStacked d.slots d.stack
    → (focusable d id ≡ id_none)
      ⊎ ((focusable d id ≡ id)
          × (i : ℕ) × InStack i d.stack
          × ((d.slots i).id ≡ id)
          × ((d.slots i).window.minimized ≡ false))
unfolding focusable
focusable_cases d id v = elim (find_slot_by_id-FindsId d id) [
  | miss e _ ↦ inl (ground arith)
  | hit lt o e ne ↦
      let slot = find_slot_by_id d id in
      elim (Bool-cases (d.slots slot).window.minimized) [
        | inl m ↦ inl (ground arith)
        | inr m ↦ inr (ground arith, slot, v.stacked slot lt o, e, m)
      ]
]
