-- ===== src/Window/Gadgets.antt =====
-- The gadgets in a classic title bar: src/window.c, `control_gadget_size` and the rectangles of
-- the close, minimise and maximise gadgets.
use nix_bench.Prelude.{
  ℕ, ◌+◌, ◌*◌, ◌≤◌, ◌≡◌, ◌⊎◌, inl, inr, true, false, ℤ, pos, pos_part, neg_part, ◌<ℤ◌, ◌≤ℤ◌, ◌*ℤ◌,
  +ℤ_parts, -ℤ_parts, arith,
}
use nix_bench.Window.{Window}
use nix_bench.Window.Layout.{
  div_ℤ, has_custom_decoration_controls, title_rect, gadget_size, gadget_count, control_gadget_size,
  close_rect, minimize_rect, maximize_rect,
}
use nix_bench.Window.Pointer.{rect_contains}

-- A title bar of this width holds `count` gadgets of the given size with their margins.
abbrev Holds : ℕ → ℤ → ℤ → Type 0
Holds count size width =
    (pos 0 ≤ℤ size)
    × (pos 0 <ℤ size → 4 * (count + 1) + count * pos_part size + neg_part width ≤ pos_part width)

gadget_size-Holds :
    (width height : ℤ) (count : ℕ)
    → (count ≡ 1) ⊎ (count ≡ 2) ⊎ (count ≡ 3)
    → Holds count (gadget_size width height count) width
unfolding gadget_size div_ℤ ◌*ℤ◌
gadget_size-Holds width height count (inl e) =
    ground (arith, -ℤ_parts width (pos 8), -ℤ_parts height (pos 8))
gadget_size-Holds width height count (inr (inl e)) =
    ground (arith, -ℤ_parts width (pos 12), -ℤ_parts height (pos 8))
gadget_size-Holds width height count (inr (inr e)) =
    ground (arith, -ℤ_parts width (pos 16), -ℤ_parts height (pos 8))

count_cases : (w : Window) → (gadget_count w ≡ 1) ⊎ (gadget_count w ≡ 2) ⊎ (gadget_count w ≡ 3)
count_cases w = ground arith

-- A window that shows the classic title bar.
abbrev pub IsClassic : Window → Type 0
IsClassic w = (w.fullscreen ≡ false) × (has_custom_decoration_controls w ≡ false)

close_minimize_apart :
    (w : Window) (x y : ℤ)
    → IsClassic w
    → rect_contains (close_rect w) x y ≡ true
    → rect_contains (minimize_rect w) x y ≡ false
unfolding rect_contains close_rect minimize_rect control_gadget_size
close_minimize_apart w x y c e =
    let t = title_rect w in
    let h = gadget_size-Holds t.width t.height (gadget_count w) (count_cases w) in
    grind (arith, +ℤ_parts, -ℤ_parts)

close_maximize_apart :
    (w : Window) (x y : ℤ)
    → IsClassic w
    → rect_contains (close_rect w) x y ≡ true
    → rect_contains (maximize_rect w) x y ≡ false
unfolding rect_contains close_rect minimize_rect maximize_rect control_gadget_size
close_maximize_apart w x y c e =
    let t = title_rect w in
    let h = gadget_size-Holds t.width t.height (gadget_count w) (count_cases w) in
    grind (arith, +ℤ_parts, -ℤ_parts)

minimize_maximize_apart :
    (w : Window) (x y : ℤ)
    → IsClassic w
    → rect_contains (minimize_rect w) x y ≡ true
    → rect_contains (maximize_rect w) x y ≡ false
unfolding rect_contains close_rect minimize_rect maximize_rect control_gadget_size
minimize_maximize_apart w x y c e =
    let t = title_rect w in
    let h = gadget_size-Holds t.width t.height (gadget_count w) (count_cases w) in
    grind (arith, +ℤ_parts, -ℤ_parts)

-- In a classic title bar, a point of the close gadget is in neither of the other two gadgets, and
-- a point of the minimise gadget is not in the maximise gadget, whatever the frame's size, the
-- gadgets shown and their layout.
pub gadgets_apart :
    (w : Window) (x y : ℤ)
    → IsClassic w
    → (rect_contains (close_rect w) x y ≡ true → rect_contains (minimize_rect w) x y ≡ false)
      × (rect_contains (close_rect w) x y ≡ true → rect_contains (maximize_rect w) x y ≡ false)
      × (rect_contains (minimize_rect w) x y ≡ true → rect_contains (maximize_rect w) x y ≡ false)
gadgets_apart w x y c =
    (close_minimize_apart w x y c, close_maximize_apart w x y c, minimize_maximize_apart w x y c)
