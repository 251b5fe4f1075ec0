-- ===== src/Desktop/Order/Raise.antt =====
-- `nb_desktop_raise_window` and `nb_desktop_activate_window` of src/desktop.c: the invariant and
-- the stacking order.
use nix_bench.Prelude.{
  ℕ, ◌<◌, ◌≡◌, inl, inr, refl, sym, ◌∙◌, Bool, true, false, not, none, some, List, [], ◌∷◌, ◌++◌,
  arith, Bool-cases,
}
use nix_bench.Prelude.{if◌then◌else◌}
use mathlib.Core.List.{map-append}
use nix_bench.Desktop.{
  Slot, Desktop, max_windows, find_slot_by_id, find_stack_index, find_window, set_active_window,
  mark_active, focusable,
}
use nix_bench.Desktop.Stack.{raise_window, activate_window, is_minimized}
use nix_bench.Desktop.Lookup.{InStack, removed, position_lt}
use nix_bench.Desktop.Invariant.{IsFocused, IsKnown, IsValid, for_stack-SameShape}
use nix_bench.Desktop.Focus.{raised, raised-IsStacked, raised-InStack, set_active_window-IsValid}
use nix_bench.Desktop.Order.Spec.{
  ids, ids_of, member, drop_id, to_front, ids-SameShape, at, nowhere, located,
}

raise_at :
    (d : Desktop) (id i : ℕ)
    → find_slot_by_id d id ≡ i
    → i < max_windows
    → InStack i d.stack
    → raise_window d id ≡ (record d { stack = raised i d.stack }, true)
unfolding raise_window find_stack_index
raise_at d id i e lt h = rw e (ground (arith, position_lt i d.stack h))

raise_nowhere :
    (d : Desktop) (id : ℕ) → find_slot_by_id d id ≡ max_windows → raise_window d id ≡ (d, false)
unfolding raise_window
raise_nowhere d id e = ground arith

raised-IsFocused :
    (slots : ℕ → Slot) (i : ℕ) (st : List ℕ) (active : ℕ)
    → InStack i st
    → IsFocused slots st active
    → IsFocused slots (raised i st) active
raised-IsFocused slots i st active h f = record {
  marked = λ j k. f.marked j ((raised-InStack i j st h).1 k);
  focused = λ ne. let (j, k, e, m) = f.focused ne in (j, (raised-InStack i j st h).0 k, e, m);
}

raised-IsKnown :
    (slots : ℕ → Slot) (i : ℕ) (st : List ℕ) (id : ℕ)
    → InStack i st
    → IsKnown slots st id
    → IsKnown slots (raised i st) id
raised-IsKnown slots i st id h k ne = let (j, m, e) = k ne in (j, (raised-InStack i j st h).0 m, e)

ids-raised :
    (slots : ℕ → Slot) (i id : ℕ) (st xs : List ℕ)
    → ids_of slots (removed i st) ≡ drop_id id xs
    → (slots i).id ≡ id
    → ids_of slots (raised i st) ≡ drop_id id xs ++ id ∷ []
ids-raised slots i id st xs r q = map-append (λ j. (slots j).id) (removed i st) (i ∷ []) ∙ cc (r, q)

-- What raising a window does: `moved` is the desktop and `done` the result.
pub record Raises (d : Desktop) (id : ℕ) (moved : Desktop) (done : Bool) : Type 0 where
  pub valid : IsValid moved
  pub result : done ≡ member id (ids d)
  pub order : ids moved ≡ to_front id (ids d)
  pub slots : moved.slots ≡ d.slots
  pub active : moved.active_window ≡ d.active_window
  pub refused : done ≡ false → moved ≡ d

-- On a valid desktop, raising succeeds exactly for the id of a stacked window. It moves that
-- window to the front and keeps the order of the others; an unknown id changes nothing. The slots
-- and the active window stay, and the desktop is valid again.
pub raise_window-Raises :
    (d : Desktop) (id : ℕ) → IsValid d → Raises d id (raise_window d id).0 (raise_window d id).1
raise_window-Raises d id v = elim (located d id v.stacked) [
  | nowhere e m ↦ rw (raise_nowhere d id e) (record {
    valid = v;
    result = sym m;
    order = rw m;
    slots = refl;
    active = refl;
    refused = λ _. refl;
  })
  | at i e lt h q m r ↦ rw (raise_at d id i e lt h) (record {
    valid = record {
      stacked = raised-IsStacked d.slots i d.stack h v.stacked;
      focus = raised-IsFocused d.slots i d.stack d.active_window h v.focus;
      pointed = raised-IsKnown d.slots i d.stack d.pointer_window h v.pointed;
    };
    result = sym m;
    order = rw m (ids-raised d.slots i id d.stack (ids d) r q);
    slots = refl;
    active = refl;
    refused = λ e. absurd (cc e);
  })
]

pub ids-set_active : (d : Desktop) (id : ℕ) → ids (set_active_window d id) ≡ ids d
unfolding set_active_window
ids-set_active d id =
    ids-SameShape d.slots _ d.stack
      (for_stack-SameShape (mark_active (focusable d id)) d.stack d.slots (λ s. refl) (λ s. refl))

pub find_window_at :
    (d : Desktop) (id i : ℕ)
    → find_slot_by_id d id ≡ i
    → i < max_windows
    → find_window d id ≡ some (d.slots i).window
unfolding find_window
find_window_at d id i e lt = rw e (ground arith)

find_window_nowhere :
    (d : Desktop) (id : ℕ) → find_slot_by_id d id ≡ max_windows → find_window d id ≡ none
unfolding find_window
find_window_nowhere d id e = ground arith

pub focusable_at :
    (d : Desktop) (id i : ℕ) (stack : List ℕ)
    → find_slot_by_id d id ≡ i
    → i < max_windows
    → (d.slots i).window.minimized ≡ false
    → focusable (record d { stack = stack }) id ≡ id
unfolding focusable find_slot_by_id
focusable_at d id i stack e lt m = rw e (ground arith)

pub set_active-active :
    (d : Desktop) (id : ℕ) → (set_active_window d id).active_window ≡ focusable d id
unfolding set_active_window
set_active-active d id = refl

pub set_active-pointer :
    (d : Desktop) (id : ℕ) → (set_active_window d id).pointer_window ≡ d.pointer_window
unfolding set_active_window
set_active-pointer d id = refl

-- Whether the id is of a window that is not minimised.
abbrev pub is_shown : Desktop → ℕ → Bool
is_shown d id = not (is_minimized (find_window d id))

-- What activating a window does: `moved` is the desktop and `done` the result.
pub record Activates (d : Desktop) (id : ℕ) (moved : Desktop) (done : Bool) : Type 0 where
  pub valid : IsValid moved
  pub result : done ≡ is_shown d id
  pub order : ids moved ≡ (if is_shown d id then to_front id (ids d) else ids d)
  pub active : moved.active_window ≡ (if is_shown d id then id else d.active_window)
  pub pointer : moved.pointer_window ≡ d.pointer_window
  pub refused : done ≡ false → moved ≡ d

activate_refused :
    (d : Desktop) (id : ℕ) → is_shown d id ≡ false → activate_window d id ≡ (d, false)
unfolding activate_window
activate_refused d id e = ground arith

activate_shown :
    (d : Desktop) (id i : ℕ)
    → is_shown d id ≡ true
    → raise_window d id ≡ (record d { stack = raised i d.stack }, true)
    → activate_window d id ≡ (set_active_window (record d { stack = raised i d.stack }) id, true)
unfolding activate_window
activate_shown d id i e r = rw r (ground arith)

refused :
    (d : Desktop) (id : ℕ)
    → IsValid d
    → is_shown d id ≡ false
    → Activates d id (activate_window d id).0 (activate_window d id).1
refused d id v e = rw (activate_refused d id e) (record {
  valid = v;
  result = sym e;
  order = rw e;
  active = rw e;
  pointer = refl;
  refused = λ _. refl;
})

-- On a valid desktop, activating a window succeeds exactly if the id is of a stacked window that
-- is not minimised. It then brings that window to the front, keeps the order of the others and
-- makes it the active one; otherwise the desktop stays. The desktop is valid again.
pub activate_window-Activates :
    (d : Desktop) (id : ℕ)
    → IsValid d
    → Activates d id (activate_window d id).0 (activate_window d id).1
activate_window-Activates d id v = elim (located d id v.stacked) [
  | nowhere e m ↦ refused d id v (rw (find_window_nowhere d id e))
  | at i e lt h q m r ↦ elim (Bool-cases (d.slots i).window.minimized) [
    | inl mini ↦ refused d id v (rw (find_window_at d id i e lt) (rw mini))
    | inr shown ↦
        let top = record d { stack = raised i d.stack } in
        let s : is_shown d id ≡ true = rw (find_window_at d id i e lt) (rw shown) in
        rw (activate_shown d id i s (raise_at d id i e lt h)) (record {
          valid =
              set_active_window-IsValid top id (raised-IsStacked d.slots i d.stack h v.stacked)
                (raised-IsKnown d.slots i d.stack d.pointer_window h v.pointed);
          result = sym s;
          order = ids-set_active top id ∙ ids-raised d.slots i id d.stack (ids d) r q ∙ rw s (rw m);
          active =
              set_active-active top id ∙ focusable_at d id i (raised i d.stack) e lt shown ∙ rw s;
          pointer = set_active-pointer top id;
          refused = λ e. absurd (cc e);
        })
  ]
]
