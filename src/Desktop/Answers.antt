-- ===== src/Desktop/Answers.antt =====
-- What a press of src/desktop.c answers, and when the window takes the pointer.
use nix_bench.Prelude.{
  ℕ, ◌≡◌, refl, sym, ap, ◌∙◌, Bool, true, false, not, List, [], ◌∷◌, ℤ, Bool-cases, inl, inr, ◌==◌,
  ==_iff, if_true, if_false,
}
use mathlib.Core.Path.{subst}
use nix_bench.Window.{
  Window, Hit, nothing, on_frame, on_content, on_title, on_close, on_minimize, on_maximize,
  on_resize, idle,
}
use nix_bench.Window.Layout.{
  has_decoration_content_insets, has_custom_decoration_controls, uses_compact_pixel_profile,
  pixel_profile_insets, pixel_profile_controls, custom_control_rect, inner_width, inner_height,
  title_rect, inset_content_rect, plain_content_rect, content_rect, footer_rect,
  control_gadget_size, close_rect, minimize_rect, maximize_rect, resize_rect,
}
use nix_bench.Window.Pointer
use nix_bench.Window.Pointer.{hit_test, is_idle, press, restore_for_drag}
use nix_bench.Desktop.{
  Slot, Desktop, set_slot, for_stack, mark_active, set_active_window, focusable,
}
use nix_bench.Desktop.Stack.{activate_window, raise_window}
use nix_bench.Desktop.Settled.{either_result}
use nix_bench.Desktop.Pressed.{raise_window-slots}

-- The hits that begin an interaction: the title, to drag, and the gadgets.
abbrev pub takes_pointer : Hit → Bool
takes_pointer nothing = false
takes_pointer on_frame = false
takes_pointer on_content = false
takes_pointer on_title = true
takes_pointer on_close = true
takes_pointer on_minimize = true
takes_pointer on_maximize = true
takes_pointer on_resize = true

-- The same window but for its active mark.
abbrev pub Remarked : Window → Window → Type 0
Remarked w w' = (b : Bool) × (w' ≡ record w { active = b })

hit_test-active :
    (w : Window) (b : Bool) (x y : ℤ) → hit_test (record w { active = b }) x y ≡ hit_test w x y
unfolding hit_test has_decoration_content_insets has_custom_decoration_controls
    uses_compact_pixel_profile pixel_profile_insets pixel_profile_controls custom_control_rect
    inner_width inner_height title_rect inset_content_rect plain_content_rect content_rect
    footer_rect control_gadget_size close_rect minimize_rect maximize_rect resize_rect
hit_test-active w b x y = refl

mark_Remarked :
    (id : ℕ) (slots : ℕ → Slot) (j i : ℕ)
    → Remarked (slots i).window (set_slot slots j (mark_active id (slots j)) i).window
mark_Remarked id slots j i = elim (Bool-cases (i == j)) [
  | inl e ↦ (
    (slots j).id == id,
    ap (λ (s : Slot). s.window) (if_true (mark_active id (slots j)) (slots i) e)
        ∙ ap (λ (k : ℕ). (mark_active_window (slots k).window ((slots j).id == id)))
            (sym ((==_iff i j).0 e)),
  )
  | inr e ↦ (
    (slots i).window.active,
    ap (λ (s : Slot). s.window) (if_false (mark_active id (slots j)) (slots i) e),
  )
]
  where
    mark_active_window : Window → Bool → Window
    mark_active_window w b = record w { active = b }

for_stack-Remarked :
    (id : ℕ) (stack : List ℕ) (slots : ℕ → Slot) (i : ℕ)
    → Remarked (slots i).window (for_stack (mark_active id) stack slots i).window
unfolding for_stack
for_stack-Remarked id [] slots i = ((slots i).window.active, refl)
for_stack-Remarked id (j ∷ stack) slots i =
    let next = set_slot slots j (mark_active id (slots j)) in
    let (b, e) = mark_Remarked id slots j i in
    let (c, f) = for_stack-Remarked id stack next i in
    (c, f ∙ ap (λ (w : Window). record w { active = c }) e)

activate_window-Remarked :
    (d : Desktop) (id i : ℕ) → Remarked (d.slots i).window ((activate_window d id).0.slots i).window
unfolding activate_window set_active_window
activate_window-Remarked d id i =
    let d' = (raise_window d id).0 in
    either_result (λ e. Remarked (d.slots i).window (e.slots i).window) _ (d, false)
      (set_active_window d' id, true) ((d.slots i).window.active, refl)
      (subst
        (λ (slots : ℕ → Slot). Remarked (slots i).window ((set_active_window d' id).slots i).window)
        (raise_window-slots d id) (for_stack-Remarked (focusable d' id) d'.stack d'.slots i))

press-takes_pointer :
    (hit : Hit) (w : Window) (x y : ℤ)
    → w.pointer_mode ≡ idle
    → is_idle (press hit w x y).pointer_mode ≡ not (takes_pointer hit)
unfolding press restore_for_drag
press-takes_pointer nothing w x y e = rw e refl
press-takes_pointer on_frame w x y e = rw e refl
press-takes_pointer on_content w x y e = rw e refl
press-takes_pointer on_title w x y e = refl
press-takes_pointer on_close w x y e = refl
press-takes_pointer on_minimize w x y e = refl
press-takes_pointer on_maximize w x y e = refl
press-takes_pointer on_resize w x y e = refl

-- An idle window answers with the hit, and is idle afterwards if the hit begins no interaction.
abbrev pub Answers : Hit → Window × Hit → Type 0
Answers hit r = (r.1 ≡ hit) × (is_idle r.0.pointer_mode ≡ not (takes_pointer hit))

pointer_down-Answers :
    (w : Window) (x y : ℤ)
    → w.pointer_mode ≡ idle
    → Answers (hit_test w x y) (Pointer.pointer_down w x y)
unfolding Pointer.pointer_down
pointer_down-Answers w x y e =
    let hit = hit_test w x y in
    let busy : Window × Hit = (w, nothing) in
    let pressed : Window × Hit = (press hit w x y, hit) in
    subst (Answers hit) (sym (if_false busy pressed (ap (λ m. not (is_idle m)) e)))
      (refl, press-takes_pointer hit w x y e)

-- The same for the window in a slot after its activation, by the hit before it.
pub activated-Answers :
    (d : Desktop) (id i : ℕ) (x y : ℤ)
    → (d.slots i).window.pointer_mode ≡ idle
    → Answers
        (hit_test (d.slots i).window x y)
        (Pointer.pointer_down ((activate_window d id).0.slots i).window x y)
activated-Answers d id i x y e =
    let (b, q) = activate_window-Remarked d id i in
    let w : Window = record ((d.slots i).window) { active = b } in
    subst (λ (v : Window). Answers (hit_test (d.slots i).window x y) (Pointer.pointer_down v x y))
      (sym q)
      (subst (λ (h : Hit). Answers h (Pointer.pointer_down w x y))
        (hit_test-active (d.slots i).window b x y) (pointer_down-Answers w x y e))
