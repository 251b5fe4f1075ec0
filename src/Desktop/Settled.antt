-- ===== src/Desktop/Settled.antt =====
-- The invariant under the operations of src/desktop.c on one window and on all windows.
use nix_bench.Prelude.{
  ℕ, ◌≡◌, inl, inr, sym, ◌∙◌, Bool, true, false, not, ◌||◌, Option, List, Bool-cases, ◌==◌, ==_iff,
  if◌then◌else◌,
}
use nix_bench.Window.{Window, Rect}
use nix_bench.Window.Frame.{toggle_minimized, set_fullscreen}
use nix_bench.Window.Marks.{
  SameMarks, set_title-SameMarks, toggle_maximized-SameMarks, set_fullscreen_marks,
  toggle_minimized_marks,
}
use nix_bench.Desktop.{
  Desktop, no_slot, find_slot_by_id, topmost_available_window, set_active_window,
}
use nix_bench.Desktop.Windows.{
  put_window, each_window, set_window_title, toggle_window_minimized, toggle_window_maximized,
  set_window_fullscreen, clamp_windows, clamp_windows_for_viewport,
}
use nix_bench.Desktop.Lookup.{hit, miss, find_slot_by_id-FindsId}
use nix_bench.Desktop.Invariant.{IsValid}
use nix_bench.Desktop.Focus.{set_active_window-IsValid}
use nix_bench.Desktop.Retouch.{
  KeepsFocus, put_window-IsValid, each_window-IsValid, clamp_slots-IsValid, refocused-IsValid,
}
use nix_bench.Desktop.Order.Raise.{activate_window-Activates}

pub put-SameMarks :
    (d : Desktop) (i : ℕ) (w : Window)
    → SameMarks (d.slots i).window w
    → IsValid d
    → IsValid (put_window d i w)
put-SameMarks d i w s v = put_window-IsValid d i w s.active (λ _ m. s.minimized ∙ m) v

pub set_active-IsValid : (d : Desktop) (id : ℕ) → IsValid d → IsValid (set_active_window d id)
set_active-IsValid d id v = set_active_window-IsValid d id v.stacked v.pointed

-- What holds of the desktop in both branches of a result.
pub either_result :
    (P : Desktop → Type 0) (b : Bool) (r r' : Desktop × Bool)
    → P r.0
    → P r'.0
    → P (if b then r else r').0
either_result P true r r' p p' = p
either_result P false r r' p p' = p'

pub set_window_title-IsValid :
    (d : Desktop) (id : ℕ) (text : Option (List ℕ))
    → IsValid d
    → IsValid (set_window_title d id text).0
unfolding set_window_title
set_window_title-IsValid d id text v =
    let slot = find_slot_by_id d id in
    either_result IsValid (slot == no_slot) _ _ v
      (put-SameMarks d slot _ (set_title-SameMarks (d.slots slot).window text) v)

pub toggle_window_maximized-IsValid :
    (d : Desktop) (id : ℕ) (bounds : Rect)
    → IsValid d
    → IsValid (toggle_window_maximized d id bounds).0
unfolding toggle_window_maximized
toggle_window_maximized-IsValid d id bounds v =
    let slot = find_slot_by_id d id in
    either_result IsValid (slot == no_slot) _ _ v
      (put-SameMarks d slot _ (toggle_maximized-SameMarks (d.slots slot).window bounds) v)

pub set_window_fullscreen-IsValid :
    (d : Desktop) (id : ℕ) (fullscreen : Bool) (bounds : Rect)
    → IsValid d
    → IsValid (set_window_fullscreen d id fullscreen bounds).0
unfolding set_window_fullscreen
set_window_fullscreen-IsValid d id fullscreen bounds v =
    let slot = find_slot_by_id d id in
    let w = (set_fullscreen (d.slots slot).window fullscreen bounds).0 in
    let m = set_fullscreen_marks (d.slots slot).window fullscreen bounds in
    let v' = put_window-IsValid d slot w m.0 (λ _. m.1) v in
    either_result IsValid _ _ _ v (
      either_result IsValid fullscreen _ _
        (activate_window-Activates (put_window d slot w) id v').valid v')

pub clamp_windows-IsValid :
    (d : Desktop) (bounds : Rect) → IsValid d → IsValid (clamp_windows d bounds).0
unfolding clamp_windows
clamp_windows-IsValid d bounds v = clamp_slots-IsValid d (λ w. bounds) v

pub clamp_for_viewport-IsValid :
    (d : Desktop) (work_area viewport : Rect)
    → IsValid d
    → IsValid (clamp_windows_for_viewport d work_area viewport).0
unfolding clamp_windows_for_viewport
clamp_for_viewport-IsValid d work_area viewport v =
    clamp_slots-IsValid d (λ w. if w.fullscreen then viewport else work_area) v

-- The desktop after the window `w` was minimised, without and with the focus.
minimised-IsValid :
    (d : Desktop) (id slot : ℕ) (w : Window)
    → (d.slots slot).id ≡ id
    → w.active ≡ (d.slots slot).window.active
    → IsValid d
    → IsValid (
        if d.active_window == id
        then set_active_window
            (put_window d slot w)
            (topmost_available_window (put_window d slot w))
        else put_window d slot w)
minimised-IsValid d id slot w q a v = elim (Bool-cases (d.active_window == id)) [
  | inl t ↦ rw t (refocused-IsValid d slot w _ v)
  | inr f ↦ rw f (
      put_window-IsValid d slot w a
        (λ e _. absurd (cc (f, (==_iff d.active_window id).1 (sym e ∙ q)))) v)
]

pub toggle_window_minimized-IsValid :
    (d : Desktop) (id : ℕ) → IsValid d → IsValid (toggle_window_minimized d id).0
unfolding toggle_window_minimized
toggle_window_minimized-IsValid d id v = elim (find_slot_by_id-FindsId d id) [
  | miss e _ ↦ rw e v
  | hit lt o q ne ↦
      let slot = find_slot_by_id d id in
      let r = toggle_minimized (d.slots slot).window in
      let a = (toggle_minimized_marks (d.slots slot).window).0 in
      either_result IsValid (slot == no_slot || not r.1) _ _ v (elim (Bool-cases r.0.minimized) [
        | inl t ↦ rw t (minimised-IsValid d id slot r.0 q a v)
        | inr f ↦
            rw f
              (activate_window-Activates (put_window d slot r.0) id
                (put_window-IsValid d slot r.0 a (λ _ _. f) v)).valid
      ])
]

KeepsFocus-SameMarks : (f : Window → Window) → ((w : Window) → SameMarks w (f w)) → KeepsFocus f
KeepsFocus-SameMarks f s = record { active = λ w. (s w).active; minimized = λ w. (s w).minimized }

pub each-SameMarks :
    (d : Desktop) (f : Window → Window)
    → ((w : Window) → SameMarks w (f w))
    → IsValid d
    → IsValid (each_window f d)
each-SameMarks d f s v = each_window-IsValid d f (KeepsFocus-SameMarks f s) v
