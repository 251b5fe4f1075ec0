-- ===== src/Window.antt =====
-- src/window.h and the first part of src/window.c: the state of one managed window and its
-- initialisation. `int` and `int64_t` are ℤ: the functions use `int64_t` where a
-- sum of two `int` values can leave the range of `int`.
pub mod Settings
pub mod Layout
pub mod Pointer
pub mod Frame
pub mod Clamp
pub mod Restore
pub mod Drag
pub mod Clicks
pub mod Gadgets
pub mod Marks
pub mod Stacked
mod Tests
use nix_bench.Prelude.{
  ℕ, zero, suc, ◌+◌, ◌-◌, ◌/◌, ◌%◌, ◌^◌, Bool, true, false, ◌&&◌, ◌||◌, not, Option, none, some,
  List, [], ◌∷◌, ℤ, pos, negsuc, pos_part, neg_part, sub_ℕ, ◌+ℤ◌, ◌*ℤ◌, ltb_ℤ, leb_ℤ, ◌==◌,
  if◌then◌else◌,
}

abbrev pub int_max : ℤ
int_max = pos (2 ^ 31 - 1)

abbrev pub int_min : ℤ
int_min = negsuc (2 ^ 31 - 1)

abbrev pub border_width : ℤ
border_width = pos 3

abbrev pub title_height : ℤ
title_height = pos 24

abbrev pub decoration_inset_max : ℤ
decoration_inset_max = pos 96

abbrev pub decoration_inset_scale : ℕ
decoration_inset_scale = 1000

abbrev pub footer_height : ℤ
footer_height = pos 20

abbrev pub gadget_margin : ℤ
gadget_margin = pos 4

abbrev pub close_size : ℤ
close_size = pos 16

abbrev pub resize_size : ℤ
resize_size = pos 20

abbrev pub drag_visible_width : ℤ
drag_visible_width = pos 96

abbrev pub drag_visible_height : ℤ
drag_visible_height = title_height

abbrev pub min_width : ℤ
min_width = pos 160

abbrev pub min_height : ℤ
min_height = pos 100

abbrev pub title_capacity : ℕ
title_capacity = 64

pub record Rect : Type 0 where
  pub x : ℤ
  pub y : ℤ
  pub width : ℤ
  pub height : ℤ

abbrev pub zero_rect : Rect
zero_rect = record { x = pos 0; y = pos 0; width = pos 0; height = pos 0 }

pub record Insets : Type 0 where
  pub left : ℤ
  pub top : ℤ
  pub right : ℤ
  pub bottom : ℤ

pub record Controls : Type 0 where
  pub top : ℤ
  pub right : ℤ
  pub width : ℤ
  pub height : ℤ
  pub gap : ℤ

pub record PixelProfile : Type 0 where
  pub compact_width : ℤ
  pub compact_height : ℤ
  pub regular_insets : Insets
  pub compact_insets : Insets
  pub regular_controls : Controls
  pub compact_controls : Controls

pub data Hit : Type 0 where
  nothing on_frame on_content on_title on_close on_minimize on_maximize on_resize : Hit

pub data PointerMode : Type 0 where
  idle dragging closing minimizing maximizing resizing : PointerMode

pub data Action : Type 0 where
  no_action close_requested minimize_toggled maximize_toggled resized : Action

pub data ControlLayout : Type 0 where
  split_controls left_controls right_controls : ControlLayout

-- The title is the text before its terminating NUL.
pub record Window : Type 0 where
  pub frame : Rect
  pub title : List ℕ
  pub visible : Bool
  pub active : Bool
  pub pointer_mode : PointerMode
  pub close_pressed : Bool
  pub minimize_pressed : Bool
  pub maximize_pressed : Bool
  pub pointer_offset_x : ℤ
  pub pointer_offset_y : ℤ
  pub resize_origin_width : ℤ
  pub resize_origin_height : ℤ
  pub restore_frame : Rect
  pub restore_frame_valid : Bool
  pub fullscreen_restore_frame : Rect
  pub fullscreen_restore_maximized : Bool
  pub minimized : Bool
  pub maximized : Bool
  pub fullscreen : Bool
  pub minimize_gadget_visible : Bool
  pub maximize_gadget_visible : Bool
  pub control_layout : ControlLayout
  pub decoration_menu_height : ℤ
  pub decoration_content_insets : Insets
  pub decoration_controls : Controls
  pub decoration_pixel_profile : PixelProfile
  pub decoration_pixel_profile_enabled : Bool
  pub decoration_frame_draggable : Bool

abbrev pub maximum : ℤ → ℤ → ℤ
maximum l r = if ltb_ℤ r l then l else r

abbrev pub minimum : ℤ → ℤ → ℤ
minimum l r = if ltb_ℤ l r then l else r

-- The conversion `(int)` of an `int64_t`, which wraps.
unfoldable pub to_int : ℤ → ℤ
to_int v = sub_ℕ ((pos_part v + 2 ^ 31 + (2 ^ 32 - neg_part v % 2 ^ 32)) % 2 ^ 32) (2 ^ 31)

unfoldable pub clamp_int64_to_int : ℤ → ℤ
clamp_int64_to_int v = if ltb_ℤ v int_min then int_min else if ltb_ℤ int_max v then int_max else v

-- The loop of `nb_window_set_title`, with the room that is left before the NUL.
unfoldable pub copy_title : ℕ → List ℕ → List ℕ
copy_title zero text = []
copy_title (suc room) [] = []
copy_title (suc room) (c ∷ text) =
    let rest = copy_title room text in if c == 0 then [] else c ∷ rest

-- `none` is a null title.
unfoldable pub set_title : Window → Option (List ℕ) → Window
set_title w none = record w { title = [] }
set_title w (some text) = record w { title = copy_title (title_capacity - 1) text }

abbrev pub no_insets : Insets
no_insets = record { left = pos 0; top = pos 0; right = pos 0; bottom = pos 0 }

abbrev pub no_controls : Controls
no_controls = record { top = pos 0; right = pos 0; width = pos 0; height = pos 0; gap = pos 0 }

abbrev pub no_profile : PixelProfile
no_profile = record {
  compact_width = pos 0;
  compact_height = pos 0;
  regular_insets = no_insets;
  compact_insets = no_insets;
  regular_controls = no_controls;
  compact_controls = no_controls;
}

unfoldable pub sized_frame : Rect → Rect
sized_frame r = record r { width = maximum r.width min_width; height = maximum r.height min_height }

-- The fields that `nb_window_init` sets, all of the window's.
unfoldable pub init : Option (List ℕ) → Rect → Window
init text f =
    set_title
      (record {
        frame = sized_frame f;
        title = [];
        visible = true;
        active = false;
        pointer_mode = idle;
        close_pressed = false;
        minimize_pressed = false;
        maximize_pressed = false;
        pointer_offset_x = pos 0;
        pointer_offset_y = pos 0;
        resize_origin_width = pos 0;
        resize_origin_height = pos 0;
        restore_frame = sized_frame f;
        restore_frame_valid = false;
        fullscreen_restore_frame = sized_frame f;
        fullscreen_restore_maximized = false;
        minimized = false;
        maximized = false;
        fullscreen = false;
        minimize_gadget_visible = true;
        maximize_gadget_visible = true;
        control_layout = right_controls;
        decoration_menu_height = pos 0;
        decoration_content_insets = no_insets;
        decoration_controls = no_controls;
        decoration_pixel_profile = no_profile;
        decoration_pixel_profile_enabled = false;
        decoration_frame_draggable = false;
      })
      text

unfoldable pub pointer_cancel : Window → Window
pointer_cancel w = record w {
  pointer_mode = idle;
  close_pressed = false;
  minimize_pressed = false;
  maximize_pressed = false;
  pointer_offset_x = pos 0;
  pointer_offset_y = pos 0;
  resize_origin_width = pos 0;
  resize_origin_height = pos 0;
}
