-- ===== src/Window/Stacked.antt =====
-- The rectangles of title, content and footer of a classic window: src/window.c.
use nix_bench.Prelude.{
  ◌≡◌, ◌⊎◌, refl, false, ℤ, pos, ◌+ℤ◌, ◌-ℤ◌, ◌*ℤ◌, ◌≤ℤ◌, +ℤ_parts, -ℤ_parts, eq_of_parts, arith,
  int_laws,
}
use nix_bench.Window.{
  Rect, Window, title_height, footer_height, min_width, min_height, maximum, minimum,
}
use nix_bench.Window.Layout.{
  has_decoration_content_insets, inner_width, inner_height, title_rect, menu_rect,
  plain_content_rect, content_rect, footer_rect,
}
use nix_bench.Window.Clamp.{IsWithin}

-- A window with the classic border that is at least as large as a new one.
pub record IsClassicSize (w : Window) : Type 0 where
  pub fullscreen : w.fullscreen ≡ false
  pub insets : has_decoration_content_insets w ≡ false
  pub width : min_width ≤ℤ w.frame.width
  pub height : min_height ≤ℤ w.frame.height
  pub menu : pos 0 ≤ℤ w.decoration_menu_height

inset_size : (size : ℤ) → pos 100 ≤ℤ size → maximum (pos 0) (size -ℤ pos 6) ≡ size -ℤ pos 6
inset_size size h = grind (arith, -ℤ_parts)

title_size : (size : ℤ) → pos 100 ≤ℤ size → minimum title_height (size -ℤ pos 6) ≡ pos 24
title_size size h = grind (arith, -ℤ_parts)

footer_size :
    (size : ℤ)
    → pos 100 ≤ℤ size
    → minimum footer_height (maximum (pos 0) (size -ℤ pos 6 -ℤ pos 24)) ≡ pos 20
footer_size size h = grind (arith, -ℤ_parts)

title_eq :
    (w : Window)
    → IsClassicSize w
    → title_rect w ≡ record {
      x = w.frame.x +ℤ pos 3;
      y = w.frame.y +ℤ pos 3;
      width = w.frame.width -ℤ pos 6;
      height = pos 24;
    }
unfolding title_rect inner_width inner_height ◌*ℤ◌
title_eq w c =
    let wide : pos 100 ≤ℤ w.frame.width = let h = c.width in omega arith in
    rw
      (
        c.fullscreen,
        inset_size w.frame.width wide,
        inset_size w.frame.height c.height,
        title_size w.frame.height c.height,
      )
      refl

footer_eq :
    (w : Window)
    → IsClassicSize w
    → footer_rect w ≡ record {
      x = w.frame.x +ℤ pos 3;
      y = w.frame.y +ℤ w.frame.height -ℤ pos 3 -ℤ pos 20;
      width = w.frame.width -ℤ pos 6;
      height = pos 20;
    }
unfolding footer_rect inner_width inner_height ◌*ℤ◌
footer_eq w c =
    let wide : pos 100 ≤ℤ w.frame.width = let h = c.width in omega arith in
    rw
      (
        title_eq w c,
        inset_size w.frame.width wide,
        inset_size w.frame.height c.height,
        footer_size w.frame.height c.height,
      )
      refl

content_eq :
    (w : Window)
    → IsClassicSize w
    → content_rect w ≡ (
        let y = w.frame.y +ℤ pos 3 +ℤ pos 24 +ℤ w.decoration_menu_height in
        record {
          x = w.frame.x +ℤ pos 3;
          y = y;
          width = w.frame.width -ℤ pos 6;
          height = maximum (pos 0) (w.frame.y +ℤ w.frame.height -ℤ pos 3 -ℤ pos 20 -ℤ y);
        })
unfolding content_rect plain_content_rect
content_eq w c = rw (title_eq w c, c.insets, c.fullscreen) refl

-- The height of the menu's strip, which ends at the footer at the latest.
strip_height : Window → ℤ
strip_height w = minimum w.decoration_menu_height (maximum (pos 0) (w.frame.height -ℤ pos 50))

menu_space :
    (y height : ℤ)
    → maximum (pos 0) (y +ℤ height -ℤ pos 3 -ℤ pos 20 -ℤ (y +ℤ pos 3 +ℤ pos 24))
      ≡ maximum (pos 0) (height -ℤ pos 50)
menu_space y height = grind (arith, +ℤ_parts, -ℤ_parts, eq_of_parts)

menu_eq :
    (w : Window)
    → IsClassicSize w
    → menu_rect w ≡ record {
      x = w.frame.x +ℤ pos 3;
      y = w.frame.y +ℤ pos 3 +ℤ pos 24;
      width = w.frame.width -ℤ pos 6;
      height = strip_height w;
    }
unfolding menu_rect strip_height
menu_eq w c = rw (title_eq w c, c.insets, c.fullscreen, menu_space w.frame.y w.frame.height) refl

title-IsWithin :
    (x y width height : ℤ)
    → pos 100 ≤ℤ width
    → pos 100 ≤ℤ height
    → IsWithin
        (record { x = x; y = y; width = width; height = height })
        (record { x = x +ℤ pos 3; y = y +ℤ pos 3; width = width -ℤ pos 6; height = pos 24 })
title-IsWithin x y width height p q = record {
  left = omega int_laws;
  top = omega int_laws;
  right = omega int_laws;
  bottom = omega int_laws;
}

footer-IsWithin :
    (x y width height : ℤ)
    → pos 100 ≤ℤ width
    → pos 100 ≤ℤ height
    → IsWithin
        (record { x = x; y = y; width = width; height = height })
        (record {
          x = x +ℤ pos 3;
          y = y +ℤ height -ℤ pos 3 -ℤ pos 20;
          width = width -ℤ pos 6;
          height = pos 20;
        })
footer-IsWithin x y width height p q = record {
  left = omega int_laws;
  top = omega int_laws;
  right = omega int_laws;
  bottom = omega int_laws;
}

-- The content's top edge and height, between the menu and the footer.
content_height :
    (y height menu : ℤ)
    → pos 0 ≤ℤ menu
    → let top = y +ℤ pos 3 +ℤ pos 24 +ℤ menu in
      let h = maximum (pos 0) (y +ℤ height -ℤ pos 3 -ℤ pos 20 -ℤ top) in
      (pos 0 ≤ℤ h) × ((h ≡ pos 0) ⊎ (top +ℤ h ≡ y +ℤ height -ℤ pos 3 -ℤ pos 20))
content_height y height menu p = grind (arith, +ℤ_parts, -ℤ_parts, eq_of_parts)

-- The menu's end, which is the content's start or the footer's.
menu_end :
    (y height menu : ℤ)
    → pos 100 ≤ℤ height
    → pos 0 ≤ℤ menu
    → let start = y +ℤ pos 3 +ℤ pos 24 in
      let end = start +ℤ minimum menu (maximum (pos 0) (height -ℤ pos 50)) in
      let top = start +ℤ menu in
      let footer = y +ℤ height -ℤ pos 3 -ℤ pos 20 in
      let content = maximum (pos 0) (footer -ℤ top) in
      (end ≤ℤ footer) × ((top ≡ end) ⊎ ((end ≡ footer) × (content ≡ pos 0)))
menu_end y height menu h p = grind (arith, +ℤ_parts, -ℤ_parts, eq_of_parts)

-- Title, menu, content and footer of a window, one below the other.
pub record IsStacked (frame title menu content footer : Rect) (menu_height : ℤ) : Type 0 where
  pub title_inside : IsWithin frame title
  pub footer_inside : IsWithin frame footer
  pub left : (menu.x ≡ title.x) × (content.x ≡ title.x) × (footer.x ≡ title.x)
  pub width :
      (menu.width ≡ title.width) × (content.width ≡ title.width) × (footer.width ≡ title.width)
  pub menu_top : menu.y ≡ title.y +ℤ title.height
  pub menu_bottom : menu.y +ℤ menu.height ≤ℤ footer.y
  pub top :
      (content.y ≡ menu.y +ℤ menu.height)
      ⊎ ((menu.y +ℤ menu.height ≡ footer.y) × (content.height ≡ pos 0))
  pub below : content.y ≡ title.y +ℤ title.height +ℤ menu_height
  pub bottom : (content.height ≡ pos 0) ⊎ (content.y +ℤ content.height ≡ footer.y)

-- In a classic window that is not full screen and at least as large as a new one, the title and
-- the footer lie in the frame, and title, menu, content and footer are equally wide. The menu starts
-- right below the title and ends above the footer or where it starts; the content starts the menu's
-- own height below the title, which is right below the menu, or the menu reaches the footer and the
-- content is empty. The content is empty or ends right above the footer.
pub content_rect-IsStacked :
    (w : Window)
    → IsClassicSize w
    → IsStacked w.frame
        (title_rect w)
        (menu_rect w)
        (content_rect w)
        (footer_rect w)
        w.decoration_menu_height
unfolding strip_height
content_rect-IsStacked w c =
    let f = w.frame in
    let wide : pos 100 ≤ℤ f.width = let h = c.width in omega arith in
    let ends = menu_end f.y f.height w.decoration_menu_height c.height c.menu in
    rw (title_eq w c, footer_eq w c, content_eq w c, menu_eq w c)
      (record {
        title_inside = title-IsWithin f.x f.y f.width f.height wide c.height;
        footer_inside = footer-IsWithin f.x f.y f.width f.height wide c.height;
        left = (refl, refl, refl);
        width = (refl, refl, refl);
        menu_top = refl;
        menu_bottom = ends.0;
        top = ends.1;
        below = refl;
        bottom = (content_height f.y f.height w.decoration_menu_height c.menu).1;
      })
