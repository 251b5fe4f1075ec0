-- ===== src/Desktop/Retouch.antt =====
-- Changes of single windows in their slots, and of all windows in the stack: for src/desktop.c.
use nix_bench.Prelude.{ℕ, ◌≡◌, refl, sym, ap, ◌∙◌, Bool, false, ◌==◌, List, [], ◌∷◌, arith, ◌||◌}
use mathlib.Core.Path.{subst}
use native.Mathlib.Decide.{ℕ_discrete}
use nix_bench.Window.{Window, Rect}
use nix_bench.Window.Frame.{clamp_to}
use nix_bench.Desktop.{Slot, Desktop, set_slot, for_stack, set_active_window}
use nix_bench.Desktop.Focus.{set_active_window-IsValid}
use nix_bench.Desktop.Invariant.{
  IsFocused, IsValid, SameShape, SameShape-IsStacked, SameShape-IsKnown,
}
use nix_bench.Desktop.Windows.{set_window, put_window, each_window, clamp_slots}

-- The windows have the same active mark, and none but those of other ids than `active` became
-- minimised.
pub record SameFocus (active : ℕ) (slots slots' : ℕ → Slot) : Type 0 where
  pub shape : SameShape slots slots'
  pub marked : (i : ℕ) → (slots' i).window.active ≡ (slots i).window.active
  pub shown :
      (i : ℕ)
      → (slots i).id ≡ active
      → (slots i).window.minimized ≡ false
      → (slots' i).window.minimized ≡ false

pub SameFocus-IsFocused :
    (slots slots' : ℕ → Slot) (stack : List ℕ) (active : ℕ)
    → SameFocus active slots slots'
    → IsFocused slots stack active
    → IsFocused slots' stack active
SameFocus-IsFocused slots slots' stack active s f = record {
  marked = λ i h. s.marked i ∙ f.marked i h ∙ ap (λ k. k == active) (sym (s.shape.id i));
  focused = λ ne. let (i, h, e, m) = f.focused ne in (i, h, s.shape.id i ∙ e, s.shown i e m);
}

pub SameFocus-IsValid :
    (d : Desktop) (slots' : ℕ → Slot)
    → SameFocus d.active_window d.slots slots'
    → IsValid d
    → IsValid (record d { slots = slots' })
SameFocus-IsValid d slots' s v = record {
  stacked = SameShape-IsStacked d.slots slots' d.stack s.shape v.stacked;
  focus = SameFocus-IsFocused d.slots slots' d.stack d.active_window s v.focus;
  pointed = SameShape-IsKnown d.slots slots' d.stack d.pointer_window s.shape v.pointed;
}

SameFocus-refl : (active : ℕ) (slots : ℕ → Slot) → SameFocus active slots slots
SameFocus-refl active slots = record {
  shape = record { occupied = λ i. refl; id = λ i. refl };
  marked = λ i. refl;
  shown = λ i e m. m;
}

SameFocus-trans :
    (active : ℕ) (a b c : ℕ → Slot)
    → SameFocus active a b
    → SameFocus active b c
    → SameFocus active a c
SameFocus-trans active a b c s t = record {
  shape = record {
    occupied = λ i. t.shape.occupied i ∙ s.shape.occupied i;
    id = λ i. t.shape.id i ∙ s.shape.id i;
  };
  marked = λ i. t.marked i ∙ s.marked i;
  shown = λ i e m. t.shown i (s.shape.id i ∙ e) (s.shown i e m);
}

set_window-SameFocus :
    (active : ℕ) (slots : ℕ → Slot) (i : ℕ) (w : Window)
    → w.active ≡ (slots i).window.active
    → ((slots i).id ≡ active → (slots i).window.minimized ≡ false → w.minimized ≡ false)
    → SameFocus active slots (set_slot slots i (set_window (slots i) w))
set_window-SameFocus active slots i w a m = record {
  shape = record { occupied = λ j. ground arith; id = λ j. ground arith };
  marked = λ j. ground (arith, a);
  shown = λ j e k. elim (ℕ_discrete j i) [
    | yes q ↦ ground (
      arith,
      m (ap (λ l. (slots l).id) (sym q) ∙ e) (ap (λ l. (slots l).window.minimized) (sym q) ∙ k),
    )
    | no q ↦ ground arith
  ];
}

-- A new window in one slot, with the same active mark, and not minimised if it has the focus.
pub put_window-IsValid :
    (d : Desktop) (i : ℕ) (w : Window)
    → w.active ≡ (d.slots i).window.active
    → ((d.slots i).id ≡ d.active_window
        → (d.slots i).window.minimized ≡ false
        → w.minimized ≡ false)
    → IsValid d
    → IsValid (put_window d i w)
unfolding put_window
put_window-IsValid d i w a m v =
    SameFocus-IsValid d _ (set_window-SameFocus d.active_window d.slots i w a m) v

-- A function of windows that keeps the active mark and the minimised state.
pub record KeepsFocus (f : Window → Window) : Type 0 where
  pub active : (w : Window) → (f w).active ≡ w.active
  pub minimized : (w : Window) → (f w).minimized ≡ w.minimized

for_stack-SameFocus :
    (active : ℕ) (f : Window → Window) (stack : List ℕ) (slots : ℕ → Slot)
    → KeepsFocus f
    → SameFocus active slots (for_stack (λ s. set_window s (f s.window)) stack slots)
unfolding for_stack
for_stack-SameFocus active f [] slots k = SameFocus-refl active slots
for_stack-SameFocus active f (i ∷ stack) slots k =
    let w = (slots i).window in
    let next = set_slot slots i (set_window (slots i) (f w)) in
    SameFocus-trans active slots next _
      (set_window-SameFocus active slots i (f w) (k.active w) (λ _ m. k.minimized w ∙ m))
      (for_stack-SameFocus active f stack next k)

pub each_window-IsValid :
    (d : Desktop) (f : Window → Window) → KeepsFocus f → IsValid d → IsValid (each_window f d)
each_window-IsValid d f k v =
    SameFocus-IsValid d _ (for_stack-SameFocus d.active_window f d.stack d.slots k) v

pub clamp_to-KeepsFocus : (bounds : Window → Rect) → KeepsFocus (λ w. (clamp_to w (bounds w)).0)
unfolding clamp_to
clamp_to-KeepsFocus bounds = record { active = λ w. refl; minimized = λ w. refl }

clamp_slots_lem :
    (bounds : Window → Rect) (stack : List ℕ) (slots : ℕ → Slot) (changed : Bool)
    → (clamp_slots bounds stack slots changed).0
      ≡ for_stack (λ s. set_window s (clamp_to s.window (bounds s.window)).0) stack slots
unfolding clamp_slots for_stack
clamp_slots_lem bounds [] slots changed = refl
clamp_slots_lem bounds (i ∷ stack) slots changed =
    let w = (slots i).window in
    clamp_slots_lem bounds stack (set_slot slots i (set_window (slots i) (clamp_to w (bounds w)).0))
      ((clamp_to w (bounds w)).1 || changed)

pub clamp_slots-IsValid :
    (d : Desktop) (bounds : Window → Rect)
    → IsValid d
    → IsValid (record d { slots = (clamp_slots bounds d.stack d.slots false).0 })
clamp_slots-IsValid d bounds v =
    subst (λ slots. IsValid (record d { slots = slots }))
      (sym (clamp_slots_lem bounds d.stack d.slots false))
      (each_window-IsValid d (λ w. (clamp_to w (bounds w)).0) (clamp_to-KeepsFocus bounds) v)

pub put_window-SameShape :
    (d : Desktop) (i : ℕ) (w : Window) → SameShape d.slots (put_window d i w).slots
unfolding put_window
put_window-SameShape d i w = record { occupied = λ j. ground arith; id = λ j. ground arith }

-- Whatever the new window is, the focus can be set again.
pub refocused-IsValid :
    (d : Desktop) (i : ℕ) (w : Window) (id : ℕ)
    → IsValid d
    → IsValid (set_active_window (put_window d i w) id)
unfolding put_window
refocused-IsValid d i w id v =
    let s = put_window-SameShape d i w in
    set_active_window-IsValid (put_window d i w) id
      (SameShape-IsStacked d.slots _ d.stack s v.stacked)
      (SameShape-IsKnown d.slots _ d.stack d.pointer_window s v.pointed)
