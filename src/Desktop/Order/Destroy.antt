-- ===== src/Desktop/Order/Destroy.antt =====
-- `nb_desktop_destroy_window` of src/desktop.c: the invariant and the stacking order.
use nix_bench.Prelude.{
  ℕ, ◌<◌, ◌≡◌, ◌≢◌, inl, inr, refl, sym, ◌∙◌, Bool, true, false, List, [], ◌∷◌, arith, Bool-cases,
}
use nix_bench.Prelude.{◌==◌, ==_iff, if◌then◌else◌}
use mathlib.Core.Path.{subst}
use nix_bench.Desktop.{
  position, Desktop, max_windows, find_slot_by_id, find_stack_index, set_active_window,
  topmost_available_window,
}
use nix_bench.Desktop.Stack.{emptied, without, destroy_window}
use nix_bench.Desktop.Lookup.{InStack, removed, position_lt}
use nix_bench.Desktop.Invariant.{IsStacked, IsFocused, IsKnown, IsValid}
use nix_bench.Desktop.Focus.{set_active_window-IsValid}
use nix_bench.Desktop.Order.Spec.{ids, ids_of, member, drop_id, at, nowhere, located}
use nix_bench.Desktop.Order.Raise.{ids-set_active}
use nix_bench.Desktop.Order.Removed.{
  kept, ids-kept, removed-IsStacked, removed-IsKnown, removed-IsFocused,
}

destroy_nowhere :
    (d : Desktop) (id : ℕ) → find_slot_by_id d id ≡ max_windows → destroy_window d id ≡ (d, false)
unfolding destroy_window
destroy_nowhere d id e = ground arith

-- What is left of the desktop when the window in slot `i` is taken out.
abbrev rest_of : Desktop → ℕ → ℕ → Desktop
rest_of d id i = without d id i (position i d.stack)

destroy_at :
    (d : Desktop) (id i : ℕ)
    → find_slot_by_id d id ≡ i
    → i < max_windows
    → InStack i d.stack
    → destroy_window d id ≡ (
      if d.active_window == id
          then set_active_window (rest_of d id i) (topmost_available_window (rest_of d id i))
          else rest_of d id i,
      true,
    )
unfolding destroy_window find_stack_index
destroy_at d id i e lt h = rw e (ground (arith, position_lt i d.stack h))

-- What destroying a window does: `left` is the desktop and `done` the result.
pub record Destroys (d : Desktop) (id : ℕ) (left : Desktop) (done : Bool) : Type 0 where
  pub valid : IsValid left
  pub result : done ≡ member id (ids d)
  pub order : ids left ≡ drop_id id (ids d)
  pub active : d.active_window ≢ id → left.active_window ≡ d.active_window
  pub refused : done ≡ false → left ≡ d

module _ (d : Desktop) (id i : ℕ) (v : IsValid d) (h : InStack i d.stack)
    (q : (d.slots i).id ≡ id) where
  rest-IsStacked : IsStacked (rest_of d id i).slots (rest_of d id i).stack
  unfolding without
  rest-IsStacked =
      removed-IsStacked d.slots i d.stack (emptied (d.slots i) (d.pointer_window == id)) v.stacked
        refl

  rest-IsKnown :
      IsKnown (rest_of d id i).slots (rest_of d id i).stack (rest_of d id i).pointer_window
  unfolding without
  rest-IsKnown = elim (Bool-cases (d.pointer_window == id)) [
    | inl p ↦ rw p (λ ne. absurd (ne refl))
    | inr p ↦ rw p (
        removed-IsKnown d.slots i d.stack (emptied (d.slots i) false) v.stacked d.pointer_window
          (λ e. cc (p, (==_iff d.pointer_window id).1 (e ∙ q))) v.pointed)
  ]

  rest-IsFocused :
      d.active_window ≢ id → IsFocused (rest_of d id i).slots (rest_of d id i).stack d.active_window
  unfolding without
  rest-IsFocused ne =
      removed-IsFocused d.slots i d.stack (emptied (d.slots i) (d.pointer_window == id)) v.stacked
        d.active_window (λ e. ne (e ∙ q)) v.focus

  ids-rest :
      ids_of d.slots (removed i d.stack) ≡ drop_id id (ids d)
      → ids (rest_of d id i) ≡ drop_id id (ids d)
  unfolding without
  ids-rest r =
      let s = emptied (d.slots i) (d.pointer_window == id) in
      ids-kept d.slots i d.stack s v.stacked (removed i d.stack)
        (kept d.slots i d.stack s v.stacked)
      ∙ r

  rest-active : (rest_of d id i).active_window ≡ d.active_window
  unfolding without
  rest-active = refl

  destroyed :
      member id (ids d) ≡ true
      → ids_of d.slots (removed i d.stack) ≡ drop_id id (ids d)
      → Destroys d id
          (if d.active_window == id
            then set_active_window (rest_of d id i) (topmost_available_window (rest_of d id i))
            else rest_of d id i)
          true
  destroyed m r = elim (Bool-cases (d.active_window == id)) [
    | inl a ↦ rw a (
        let next = topmost_available_window (rest_of d id i) in
        record {
          valid = set_active_window-IsValid (rest_of d id i) next rest-IsStacked rest-IsKnown;
          result = sym m;
          order = ids-set_active (rest_of d id i) next ∙ ids-rest r;
          active = λ ne. absurd (ne ((==_iff d.active_window id).0 a));
          refused = λ e. absurd (cc e);
        })
    | inr a ↦
        let ne : d.active_window ≢ id = λ e. cc (a, (==_iff d.active_window id).1 e) in
        rw a (record {
          valid = record {
            stacked = rest-IsStacked;
            focus =
                subst (IsFocused (rest_of d id i).slots (rest_of d id i).stack) (sym rest-active)
                  (rest-IsFocused ne);
            pointed = rest-IsKnown;
          };
          result = sym m;
          order = ids-rest r;
          active = λ _. rest-active;
          refused = λ e. absurd (cc e);
        })
  ]

-- On a valid desktop, destroying succeeds exactly for the id of a stacked window. It takes that
-- window out of the order, keeps the order of the others, and leaves the active window alone if
-- it was another one; an unknown id changes nothing. The desktop is valid again.
pub destroy_window-Destroys :
    (d : Desktop) (id : ℕ)
    → IsValid d
    → Destroys d id (destroy_window d id).0 (destroy_window d id).1
destroy_window-Destroys d id v = elim (located d id v.stacked) [
  | nowhere e m ↦ rw (destroy_nowhere d id e) (record {
    valid = v;
    result = sym m;
    order = sym (drop_missing id (ids d) m);
    active = λ _. refl;
    refused = λ _. refl;
  })
  | at i e lt h q m r ↦ rw (destroy_at d id i e lt h) (destroyed d id i v h q m r)
]
  where
    drop_missing : (id : ℕ) (xs : List ℕ) → member id xs ≡ false → drop_id id xs ≡ xs
    drop_missing id [] m = refl
    drop_missing id (x ∷ xs) m = ground (arith, drop_missing id xs)
