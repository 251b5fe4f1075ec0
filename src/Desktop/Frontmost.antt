-- ===== src/Desktop/Frontmost.antt =====
-- Presses of the pointer: `topmost_slot_at` and `nb_desktop_pointer_down` of src/desktop.c.
use nix_bench.Prelude.{
  ℕ, ◌≡◌, ◌≢◌, inl, inr, refl, sym, ap, ◌∙◌, Bool, true, false, not, if◌then◌else◌, none, some,
  List, [], ◌∷◌, ◌++◌, ℤ, arith, Bool-cases, ◌==◌, ==_iff,
}
use mathlib.Core.Path.{subst}
use nix_bench.Window.{Window, Hit, nothing, idle}
use nix_bench.Window.Pointer
use nix_bench.Window.Pointer.{hit_test}
use nix_bench.Window.Clicks.{hit_test-nothing}
use nix_bench.Desktop.{
  Desktop, set_active_window, id_none, find_slot_by_id, topmost, topmost_slot_at, focusable, is_hit,
}
use nix_bench.Desktop.Stack.{activate_window}
use nix_bench.Desktop.Windows.{put_window}
use nix_bench.Desktop.Pointing.{press_slot, pointer_down}
use nix_bench.Desktop.Lookup.{InStack, hit, miss, find_slot_by_id-FindsId}
use nix_bench.Desktop.Invariant.{IsValid}
use nix_bench.Desktop.Order.Spec.{ids, to_front, ids-SameShape}
use nix_bench.Desktop.Order.Raise.{
  is_shown, activate_window-Activates, ids-set_active, set_active-active, find_window_at,
}
use nix_bench.Desktop.Answers.{takes_pointer, activated-Answers}
use nix_bench.Desktop.Retouch.{put_window-SameShape}

-- The frontmost slot of the stack that passes a test, with what lies below and above it.
pub data Frontmost (test : ℕ → Bool) (stack : List ℕ) : Type 0 where
  nowhere :
      topmost test stack ≡ none
      → ((j : ℕ) → InStack j stack → test j ≡ false)
      → Frontmost test stack
  front :
      (below above : List ℕ) (i : ℕ)
      → topmost test stack ≡ some i
      → stack ≡ below ++ i ∷ above
      → test i ≡ true
      → ((j : ℕ) → InStack j above → test j ≡ false)
      → Frontmost test stack

topmost-Frontmost : (test : ℕ → Bool) (stack : List ℕ) → Frontmost test stack
unfolding topmost
topmost-Frontmost test [] = nowhere refl (λ j h. absurd h)
topmost-Frontmost test (s ∷ stack) = elim (topmost-Frontmost test stack) [
  | front below above i e q t h ↦ front (s ∷ below) above i (rw e) (ap (λ l. s ∷ l) q) t h
  | nowhere e h ↦ elim (Bool-cases (test s)) [
    | inl t ↦ front [] stack s (rw e (rw t)) refl t h
    | inr f ↦ nowhere (rw e (rw f)) (either f h)
  ]
]
  where
    either :
        test s ≡ false
        → ((j : ℕ) → InStack j stack → test j ≡ false)
        → (j : ℕ) → InStack j (s ∷ stack)
        → test j ≡ false
    either f h j (inl e) = ap test e ∙ f
    either f h j (inr k) = h j k

is_hit-nothing : (h : Hit) → is_hit h ≡ false → h ≡ nothing
is_hit-nothing h e = ground arith

is_hit-other : (h : Hit) → is_hit h ≡ true → h ≢ nothing
is_hit-other h e q = ground arith

hit-shown : (w : Window) (x y : ℤ) → is_hit (hit_test w x y) ≡ true → w.minimized ≡ false
hit-shown w x y e = elim (Bool-cases w.minimized) [
  | inl m ↦ absurd (is_hit-other (hit_test w x y) e ((hit_test-nothing w x y).1 (inr (inl m))))
  | inr m ↦ m
]

module _ (d : Desktop) (i : ℕ) (v : IsValid d) (h : InStack i d.stack) where
  slot_found : find_slot_by_id d (d.slots i).id ≡ i
  slot_found = elim (find_slot_by_id-FindsId d (d.slots i).id) [
    | hit lt o e ne ↦ v.stacked.ids _ i (v.stacked.stacked _ lt o) h e
    | miss _ other ↦
        absurd
          (other (v.stacked.named i h) i (v.stacked.in_range i h) (v.stacked.occupied i h) refl)
  ]

  slot-is_shown : (d.slots i).window.minimized ≡ false → is_shown d (d.slots i).id ≡ true
  slot-is_shown m =
      rw (find_window_at d (d.slots i).id i slot_found (v.stacked.in_range i h)) (rw m)

-- What a press at (x, y) does that hits the window in slot `i`, with its answer.
pub record Presses (d : Desktop) (i : ℕ) (x y : ℤ) (pressed : Desktop × Hit) : Type 0 where
  pub order : ids pressed.0 ≡ to_front (d.slots i).id (ids d)
  pub active : pressed.0.active_window ≡ (d.slots i).id
  pub answer : pressed.1 ≡ hit_test (d.slots i).window x y
  pub pointer : pressed.0.pointer_window ≡ (
      if takes_pointer (hit_test (d.slots i).window x y) then (d.slots i).id else d.pointer_window)

press_slot-Presses :
    (d : Desktop) (i : ℕ) (x y : ℤ)
    → IsValid d
    → InStack i d.stack
    → (d.slots i).window.minimized ≡ false
    → (d.slots i).window.pointer_mode ≡ idle
    → Presses d i x y (press_slot d i x y)
unfolding press_slot put_window
press_slot-Presses d i x y v h m u =
    let id = (d.slots i).id in
    let d' = (activate_window d id).0 in
    let a = activate_window-Activates d id v in
    let s = slot-is_shown d i v h m in
    let answers = activated-Answers d id i x y u in
    let w = (Pointer.pointer_down (d'.slots i).window x y).0 in
    record {
      order =
          ids-SameShape d'.slots (put_window d' i w).slots d'.stack (put_window-SameShape d' i w)
          ∙ a.order
          ∙ rw s;
      active = a.active ∙ rw s;
      answer = answers.0;
      pointer =
          given _ (takes_pointer (hit_test (d.slots i).window x y)) _ _ id answers.1 a.pointer;
    }
  where
    given :
        (idle_after takes : Bool) (before after id : ℕ)
        → idle_after ≡ not takes
        → after ≡ before
        → (if idle_after then after else id) ≡ (if takes then id else before)
    given idle_after true before after id e q = rw e refl
    given idle_after false before after id e q = rw e q

set_active-pointer :
    (d : Desktop) (id : ℕ) → (set_active_window d id).pointer_window ≡ d.pointer_window
unfolding set_active_window
set_active-pointer d id = refl

focusable_none : (d : Desktop) → focusable d id_none ≡ id_none
unfolding focusable
focusable_none d = ground arith

stacked_front : (below above : List ℕ) (i : ℕ) → InStack i (below ++ i ∷ above)
stacked_front [] above i = inl refl
stacked_front (s ∷ below) above i = inr (stacked_front below above i)

-- What a press without an interaction does: no window is under the pointer, or the frontmost one
-- under it is in slot `i`, with the slots `above` in front of it.
pub data PointerDown (d : Desktop) (x y : ℤ) (pressed : Desktop × Hit) : Type 0 where
  on_desktop :
      ((j : ℕ) → InStack j d.stack → hit_test (d.slots j).window x y ≡ nothing)
      → pressed.1 ≡ nothing
      → pressed.0.active_window ≡ id_none
      → ids pressed.0 ≡ ids d
      → pressed.0.pointer_window ≡ id_none
      → PointerDown d x y pressed
  on_window :
      (below above : List ℕ) (i : ℕ)
      → d.stack ≡ below ++ i ∷ above
      → ((j : ℕ) → InStack j above → hit_test (d.slots j).window x y ≡ nothing)
      → hit_test (d.slots i).window x y ≢ nothing
      → Presses d i x y pressed
      → PointerDown d x y pressed

-- A press on a valid desktop with no interaction under way, whose windows are all idle, goes to the
-- frontmost window that is hit: that window comes to the front, with the order of the others kept, and
-- is active; the answer is the part of it that was hit, and it gets the pointer exactly if that part
-- is the title or a gadget. Where no window is hit the answer is nothing, no window is active or gets
-- the pointer, and the order stays.
pub pointer_down-PointerDown :
    (d : Desktop) (x y : ℤ)
    → IsValid d
    → d.pointer_window ≡ id_none
    → ((j : ℕ) → InStack j d.stack → (d.slots j).window.pointer_mode ≡ idle)
    → PointerDown d x y (pointer_down d x y)
unfolding pointer_down topmost_slot_at
pointer_down-PointerDown d x y v e u =
    let test : ℕ → Bool = λ i. is_hit (hit_test (d.slots i).window x y) in
    let free : d.pointer_window == id_none ≡ true = (==_iff d.pointer_window id_none).1 e in
    elim (topmost-Frontmost test d.stack) [
      | nowhere n h ↦
          rw (free, n)
            (on_desktop (λ j k. is_hit-nothing _ (h j k)) refl
              (set_active-active d id_none ∙ focusable_none d) (ids-set_active d id_none)
              (set_active-pointer d id_none ∙ e))
      | front below above i s q t h ↦
          let listed = subst (InStack i) (sym q) (stacked_front below above i) in
          rw (free, s)
            (on_window below above i q (λ j k. is_hit-nothing _ (h j k)) (is_hit-other _ t)
              (press_slot-Presses d i x y v listed (hit-shown (d.slots i).window x y t)
                (u i listed)))
    ]
