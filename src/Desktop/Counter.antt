-- ===== src/Desktop/Counter.antt =====
-- The counter of window ids over runs of operations: `allocate_id` and `next_id` of src/desktop.c.
use nix_bench.Prelude.{ℕ, inl, inr, Bool, Option, List, [], ◌∷◌, ℤ, Bool-cases}
use nix_bench.Window.{Window, Rect, Insets, Controls, PixelProfile}
use nix_bench.Desktop.{Desktop, init}
use nix_bench.Desktop.Stack.{open_window, destroy_window, raise_window, activate_window}
use nix_bench.Desktop.Windows.{
  set_window_title, toggle_window_minimized, toggle_window_maximized, set_window_fullscreen,
  set_window_controls, set_window_menu_height, set_window_decoration_insets,
  set_window_decoration_controls, set_window_decoration_pixel_profile,
  set_window_decoration_frame_draggable, clamp_windows, clamp_windows_for_viewport,
}
use nix_bench.Desktop.Pointing.{pointer_down, pointer_move, pointer_up, pointer_cancel_all}
use nix_bench.Prelude.{
  zero, suc, refl, sym, ◌∙◌, ◌≡◌, ◌==◌, if◌then◌else◌, false, not, ◌&&◌, arith, ◌^◌, ◌<◌, ◌≢◌, ◌↔◌,
  ◌+◌, Option-cases,
}
use mathlib.Core.Path.{subst}
use nix_bench.Prelude.{true}
use nix_bench.Window.Frame.{toggle_minimized}
use nix_bench.Desktop.{topmost_available_window, find_stack_index, no_slot, find_slot_by_id}
use nix_bench.Desktop.{
  id_none, max_windows, window_count, succ_id, allocate_id, allocate_loop, set_active_window,
  topmost_slot_at, find_free_slot,
}
use nix_bench.Desktop.Stack.{without, open_window, destroy_window, raise_window, activate_window}
use nix_bench.Desktop.Windows.{put_window}
use nix_bench.Desktop.Pointing.{press_slot}
use nix_bench.Desktop.Settled.{either_result}
use nix_bench.Desktop.Reachable.{
  Op, open_new, destroy, raise, activate, toggle_minimize, retitle, toggle_maximize, go_fullscreen,
  choose_controls, choose_menu_height, choose_insets, choose_decoration_controls,
  choose_pixel_profile, choose_draggable, press, release, move, cancel, clamp, clamp_to_viewport,
  apply, apply_all, apply_all-IsValid,
}
use nix_bench.Desktop.Order.Capacity.{open_window_lem, succ_id-range}

-- The counter is a 64-bit number other than 0.
pub record InRange (d : Desktop) : Type 0 where
  pub nonzero : d.next_id ≢ id_none
  pub fits : d.next_id < 2 ^ 64

keep : (d d' : Desktop) → d'.next_id ≡ d.next_id → InRange d → InRange d'
keep d d' e v = record {
  nonzero = λ q. v.nonzero (sym e ∙ q);
  fits = subst (λ k. k < 2 ^ 64) (sym e) v.fits;
}

set_active-next_id : (d : Desktop) (id : ℕ) → (set_active_window d id).next_id ≡ d.next_id
unfolding set_active_window
set_active-next_id d id = refl

put_window-next_id : (d : Desktop) (i : ℕ) (w : Window) → (put_window d i w).next_id ≡ d.next_id
unfolding put_window
put_window-next_id d i w = refl

allocate_loop-InRange : (n : ℕ) (d : Desktop) → InRange d → InRange (allocate_loop n d).1
unfolding allocate_loop
allocate_loop-InRange zero d v = v
allocate_loop-InRange (suc n) d v =
    let d' = record d { next_id = succ_id d.next_id } in
    let r = succ_id-range d.next_id v.fits in
    let v' : InRange d' = record { nonzero = r.0; fits = r.1 } in
    elim (Bool-cases (not (d.next_id == id_none) && find_slot_by_id d' d.next_id == no_slot)) [
      | inl t ↦ rw t v'
      | inr f ↦ rw f (allocate_loop-InRange n d' v')
    ]

open_window-InRange :
    (d : Desktop) (text : Option (List ℕ)) (frame : Rect)
    → InRange d
    → InRange (open_window d text frame).1
unfolding open_window allocate_id set_active_window
open_window-InRange d text frame v =
    let a = allocate_loop-InRange (max_windows + 1) d v in
    elim (Bool-cases (find_free_slot d == no_slot)) [
      | inl t ↦ rw t v
      | inr f ↦ elim (Bool-cases ((allocate_id d).0 == id_none)) [
        | inl z ↦ rw (f, z) a
        | inr n ↦ rw (f, n) (keep (allocate_id d).1 _ refl a)
      ]
    ]

raise_window-next_id : (d : Desktop) (id : ℕ) → (raise_window d id).0.next_id ≡ d.next_id
unfolding raise_window
raise_window-next_id d id = either_result (λ e. e.next_id ≡ d.next_id) _ (d, false) _ refl refl

activate_window-next_id : (d : Desktop) (id : ℕ) → (activate_window d id).0.next_id ≡ d.next_id
unfolding activate_window
activate_window-next_id d id =
    either_result (λ e. e.next_id ≡ d.next_id) _ (d, false) _ refl
      (set_active-next_id (raise_window d id).0 id ∙ raise_window-next_id d id)

either_desktop :
    (P : Desktop → Type 0) (b : Bool) (d d' : Desktop) → P d → P d' → P (if b then d else d')
either_desktop P true d d' p p' = p
either_desktop P false d d' p p' = p'

destroy_window-next_id : (d : Desktop) (id : ℕ) → (destroy_window d id).0.next_id ≡ d.next_id
unfolding destroy_window without
destroy_window-next_id d id =
    let P : Desktop → Type 0 = λ e. e.next_id ≡ d.next_id in
    let slot = find_slot_by_id d id in
    let rest = without d id slot (find_stack_index d slot) in
    let next = set_active_window rest (topmost_available_window rest) in
    either_result P _ (d, false) (if d.active_window == id then next else rest, true) refl
      (either_desktop P (d.active_window == id) next rest
        (set_active-next_id rest (topmost_available_window rest)) refl)

toggle_window_minimized-next_id :
    (d : Desktop) (id : ℕ) → (toggle_window_minimized d id).0.next_id ≡ d.next_id
unfolding toggle_window_minimized
toggle_window_minimized-next_id d id =
    let P : Desktop → Type 0 = λ e. e.next_id ≡ d.next_id in
    let slot = find_slot_by_id d id in
    let w = (toggle_minimized (d.slots slot).window).0 in
    let rest = put_window d slot w in
    let kept = put_window-next_id d slot w in
    let next = set_active_window rest (topmost_available_window rest) in
    either_result P _ (d, false) _ refl
      (either_result P w.minimized (if d.active_window == id then next else rest, true)
        (activate_window rest id)
        (either_desktop P (d.active_window == id) next rest
          (set_active-next_id rest (topmost_available_window rest) ∙ kept) kept)
        (activate_window-next_id rest id ∙ kept))

set_window_fullscreen-next_id :
    (d : Desktop) (id : ℕ) (on : Bool) (bounds : Rect)
    → (set_window_fullscreen d id on bounds).0.next_id ≡ d.next_id
unfolding set_window_fullscreen put_window
set_window_fullscreen-next_id d id on bounds =
    let P : Desktop → Type 0 = λ e. e.next_id ≡ d.next_id in
    either_result P _ (d, false) _ refl (either_result P on _ _ (activate_window-next_id _ id) refl)

pointer_down-next_id : (d : Desktop) (x y : ℤ) → (pointer_down d x y).0.next_id ≡ d.next_id
unfolding pointer_down press_slot put_window
pointer_down-next_id d x y = elim (Bool-cases (d.pointer_window == id_none)) [
  | inr f ↦ rw f refl
  | inl t ↦ elim (Option-cases (topmost_slot_at d x y)) [
    | inl e ↦ rw (t, e) (set_active-next_id d id_none)
    | inr (i, e) ↦ rw (t, e) (activate_window-next_id d (d.slots i).id)
  ]
]

pointer_up-next_id : (d : Desktop) (x y : ℤ) → (pointer_up d x y).0.next_id ≡ d.next_id
unfolding pointer_up put_window
pointer_up-next_id d x y = elim (Bool-cases (find_slot_by_id d d.pointer_window == no_slot)) [
  | inl t ↦ rw t refl
  | inr f ↦ rw f refl
]

pointer_move-next_id :
    (d : Desktop) (x y : ℤ) (bounds : Rect) → (pointer_move d x y bounds).0.next_id ≡ d.next_id
unfolding pointer_move put_window
pointer_move-next_id d x y bounds =
    elim (Bool-cases (find_slot_by_id d d.pointer_window == no_slot)) [
      | inl t ↦ rw t refl
      | inr f ↦ rw f refl
    ]

pointer_cancel_all-next_id : (d : Desktop) → (pointer_cancel_all d).next_id ≡ d.next_id
unfolding pointer_cancel_all put_window
pointer_cancel_all-next_id d = elim (Bool-cases (find_slot_by_id d d.pointer_window == no_slot)) [
  | inl t ↦ rw t refl
  | inr f ↦ rw f refl
]

set_window_title-next_id :
    (d : Desktop) (id : ℕ) (text : Option (List ℕ))
    → (set_window_title d id text).0.next_id ≡ d.next_id
unfolding set_window_title put_window
set_window_title-next_id d id text =
    either_result (λ e. e.next_id ≡ d.next_id) _ (d, false) _ refl refl

toggle_window_maximized-next_id :
    (d : Desktop) (id : ℕ) (bounds : Rect)
    → (toggle_window_maximized d id bounds).0.next_id ≡ d.next_id
unfolding toggle_window_maximized put_window
toggle_window_maximized-next_id d id bounds =
    either_result (λ e. e.next_id ≡ d.next_id) _ (d, false) _ refl refl

set_window_decoration_insets-next_id :
    (d : Desktop) (insets : Insets) → (set_window_decoration_insets d insets).next_id ≡ d.next_id
unfolding set_window_decoration_insets
set_window_decoration_insets-next_id d insets =
    either_desktop (λ e. e.next_id ≡ d.next_id) _ d _ refl refl

set_window_decoration_controls-next_id :
    (d : Desktop) (controls : Controls)
    → (set_window_decoration_controls d controls).next_id ≡ d.next_id
unfolding set_window_decoration_controls
set_window_decoration_controls-next_id d controls =
    either_desktop (λ e. e.next_id ≡ d.next_id) _ d _ refl refl

set_window_decoration_pixel_profile-next_id :
    (d : Desktop) (profile : PixelProfile)
    → (set_window_decoration_pixel_profile d profile).next_id ≡ d.next_id
unfolding set_window_decoration_pixel_profile
set_window_decoration_pixel_profile-next_id d profile =
    either_desktop (λ e. e.next_id ≡ d.next_id) _ d _ refl refl

apply-InRange : (op : Op) (d : Desktop) → InRange d → InRange (apply op d)
unfolding apply set_window_controls set_window_menu_height set_window_decoration_frame_draggable
    put_window clamp_windows clamp_windows_for_viewport
apply-InRange (open_new text frame) d v = open_window-InRange d text frame v
apply-InRange (destroy id) d v = keep d _ (destroy_window-next_id d id) v
apply-InRange (raise id) d v = keep d _ (raise_window-next_id d id) v
apply-InRange (activate id) d v = keep d _ (activate_window-next_id d id) v
apply-InRange (toggle_minimize id) d v = keep d _ (toggle_window_minimized-next_id d id) v
apply-InRange (retitle id text) d v = keep d _ (set_window_title-next_id d id text) v
apply-InRange (toggle_maximize id bounds) d v =
    keep d _ (toggle_window_maximized-next_id d id bounds) v
apply-InRange (go_fullscreen id on bounds) d v =
    keep d _ (set_window_fullscreen-next_id d id on bounds) v
apply-InRange (choose_controls minimize maximize layout) d v = keep d _ refl v
apply-InRange (choose_menu_height height) d v = keep d _ refl v
apply-InRange (choose_insets insets) d v =
    keep d _ (set_window_decoration_insets-next_id d insets) v
apply-InRange (choose_decoration_controls controls) d v =
    keep d _ (set_window_decoration_controls-next_id d controls) v
apply-InRange (choose_pixel_profile profile) d v =
    keep d _ (set_window_decoration_pixel_profile-next_id d profile) v
apply-InRange (choose_draggable draggable) d v = keep d _ refl v
apply-InRange (press x y) d v = keep d _ (pointer_down-next_id d x y) v
apply-InRange (release x y) d v = keep d _ (pointer_up-next_id d x y) v
apply-InRange (move x y bounds) d v = keep d _ (pointer_move-next_id d x y bounds) v
apply-InRange cancel d v = keep d _ (pointer_cancel_all-next_id d) v
apply-InRange (clamp bounds) d v = keep d _ refl v
apply-InRange (clamp_to_viewport work_area viewport) d v = keep d _ refl v

apply_all-InRange : (ops : List Op) (d : Desktop) → InRange d → InRange (apply_all ops d)
unfolding apply_all
apply_all-InRange [] d v = v
apply_all-InRange (op ∷ ops) d v = apply_all-InRange ops (apply op d) (apply-InRange op d v)

init-InRange : (windows : ℕ → Window) → InRange (init windows)
unfolding init
init-InRange windows = record { nonzero = omega arith; fits = omega arith }

-- On every desktop that a sequence of the manager's operations reaches from a new one, opening a
-- window gives an id exactly if fewer than 16 windows are open: the 17 attempts of `allocate_id`
-- always find one, also after the ids have wrapped around.
pub open_window-apply_all :
    (windows : ℕ → Window) (ops : List Op) (text : Option (List ℕ)) (frame : Rect)
    → let d = apply_all ops (init windows) in
      ((open_window d text frame).0 ≢ id_none) ↔ (window_count d < max_windows)
open_window-apply_all windows ops text frame =
    let r = apply_all-InRange ops (init windows) (init-InRange windows) in
    open_window_lem (apply_all ops (init windows)) text frame (apply_all-IsValid windows ops)
      r.nonzero r.fits
