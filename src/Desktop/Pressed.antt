-- ===== src/Desktop/Pressed.antt =====
-- The invariant under the pointer events of src/desktop.c.
use nix_bench.Prelude.{
  ℕ, ◌≡◌, inl, inr, refl, ◌∙◌, Bool, true, false, some, List, [], ◌∷◌, ℤ, arith, Bool-cases,
  Option-cases, ◌==◌,
}
use mathlib.Core.Path.{subst}
use nix_bench.Window.{Rect, pointer_cancel}
use nix_bench.Window.Pointer
use nix_bench.Window.Pointer.{is_idle}
use nix_bench.Window.Marks.{
  pointer_cancel-SameMarks, pointer_down-SameMarks, pointer_move-SameMarks, pointer_up-SameMarks,
}
use nix_bench.Desktop.{
  Desktop, id_none, no_slot, find_slot_by_id, topmost, topmost_slot_at, set_active_window,
  mark_active, focusable,
}
use nix_bench.Desktop.Stack.{raise_window, activate_window}
use nix_bench.Desktop.Windows.{put_window}
use nix_bench.Desktop.Pointing.{
  press_slot, pointer_down, pointer_move, pointer_up, pointer_cancel_all,
}
use nix_bench.Desktop.Lookup.{InStack}
use nix_bench.Desktop.Invariant.{IsKnown, IsValid, SameShape, for_stack-SameShape}
use nix_bench.Desktop.Retouch.{put_window-SameShape}
use nix_bench.Desktop.Order.Raise.{activate_window-Activates}
use nix_bench.Desktop.Settled.{put-SameMarks, set_active-IsValid, either_result}

-- The pointer interaction given to a window of the stack, or ended.
pointed-IsValid :
    (d : Desktop) (id : ℕ)
    → IsKnown d.slots d.stack id
    → IsValid d
    → IsValid (record d { pointer_window = id })
pointed-IsValid d id k v = record { stacked = v.stacked; focus = v.focus; pointed = k }

ended-IsValid : (d : Desktop) → IsValid d → IsValid (record d { pointer_window = id_none })
ended-IsValid d v = pointed-IsValid d id_none (λ ne. absurd (ne refl)) v

topmost-InStack :
    (test : ℕ → Bool) (stack : List ℕ) (i : ℕ) → topmost test stack ≡ some i → InStack i stack
unfolding topmost
topmost-InStack test [] i e = absurd (cc e)
topmost-InStack test (j ∷ stack) i e = elim (Option-cases (topmost test stack)) [
  | inl n ↦ inl (ground (arith, n, e))
  | inr (k, s) ↦ inr (topmost-InStack test stack i (ground (arith, s, e)))
]

pub raise_window-slots : (d : Desktop) (id : ℕ) → (raise_window d id).0.slots ≡ d.slots
unfolding raise_window
raise_window-slots d id = either_result (λ e. e.slots ≡ d.slots) _ (d, false) _ refl refl

activate_window-SameShape :
    (d : Desktop) (id : ℕ) → SameShape d.slots (activate_window d id).0.slots
unfolding activate_window set_active_window
activate_window-SameShape d id =
    let d' = (raise_window d id).0 in
    either_result (λ e. SameShape d.slots e.slots) _ (d, false) (set_active_window d' id, true)
      (record { occupied = λ i. refl; id = λ i. refl })
      (subst (λ slots. SameShape slots (set_active_window d' id).slots) (raise_window-slots d id)
        (for_stack-SameShape (mark_active (focusable d' id)) d'.stack d'.slots (λ s. refl)
          (λ s. refl)))

press_slot-IsValid :
    (d : Desktop) (i : ℕ) (x y : ℤ) → InStack i d.stack → IsValid d → IsValid (press_slot d i x y).0
unfolding press_slot put_window
press_slot-IsValid d i x y h v =
    let id = (d.slots i).id in
    let d' = (activate_window d id).0 in
    let v' = (activate_window-Activates d id v).valid in
    let s = activate_window-SameShape d id in
    let w = (Pointer.pointer_down (d'.slots i).window x y).0 in
    let next = put_window d' i w in
    let q = put-SameMarks d' i w (pointer_down-SameMarks (d'.slots i).window x y) v' in
    let shape = put_window-SameShape d' i w in
    let here =
      v'.stacked.stacked i (v.stacked.in_range i h) (s.occupied i ∙ v.stacked.occupied i h) in
    elim (Bool-cases (is_idle w.pointer_mode)) [
      | inl t ↦ rw t (pointed-IsValid next next.pointer_window q.pointed q)
      | inr f ↦ rw f (pointed-IsValid next id (λ _. (i, here, shape.id i ∙ s.id i)) q)
    ]

pub pointer_down-IsValid : (d : Desktop) (x y : ℤ) → IsValid d → IsValid (pointer_down d x y).0
unfolding pointer_down topmost_slot_at
pointer_down-IsValid d x y v = elim (Bool-cases (d.pointer_window == id_none)) [
  | inr f ↦ rw f v
  | inl t ↦ elim (Option-cases (topmost_slot_at d x y)) [
    | inl e ↦ rw (t, e) (set_active-IsValid d id_none v)
    | inr (i, e) ↦ rw (t, e) (press_slot-IsValid d i x y (topmost-InStack _ d.stack i e) v)
  ]
]

pub pointer_move-IsValid :
    (d : Desktop) (x y : ℤ) (bounds : Rect) → IsValid d → IsValid (pointer_move d x y bounds).0
unfolding pointer_move
pointer_move-IsValid d x y bounds v =
    let slot = find_slot_by_id d d.pointer_window in
    either_result IsValid (slot == no_slot) _ _ (ended-IsValid d v)
      (put-SameMarks d slot _ (pointer_move-SameMarks (d.slots slot).window x y bounds) v)

pub pointer_up-IsValid : (d : Desktop) (x y : ℤ) → IsValid d → IsValid (pointer_up d x y).0
unfolding pointer_up
pointer_up-IsValid d x y v =
    let slot = find_slot_by_id d d.pointer_window in
    let w = (Pointer.pointer_up (d.slots slot).window x y).0 in
    let q = put-SameMarks d slot w (pointer_up-SameMarks (d.slots slot).window x y) v in
    elim (Bool-cases (slot == no_slot)) [
      | inl t ↦ rw t (ended-IsValid d v)
      | inr f ↦ rw f (ended-IsValid (put_window d slot w) q)
    ]

pub pointer_cancel_all-IsValid : (d : Desktop) → IsValid d → IsValid (pointer_cancel_all d)
unfolding pointer_cancel_all
pointer_cancel_all-IsValid d v =
    let slot = find_slot_by_id d d.pointer_window in
    let w = pointer_cancel (d.slots slot).window in
    let q = put-SameMarks d slot w (pointer_cancel-SameMarks (d.slots slot).window) v in
    elim (Bool-cases (slot == no_slot)) [
      | inl t ↦ rw t (ended-IsValid d v)
      | inr f ↦ rw f (ended-IsValid (put_window d slot w) q)
    ]
