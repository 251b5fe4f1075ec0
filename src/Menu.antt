-- ===== src/Menu.antt =====
-- src/menu.h and the first part of src/menu.c: the menus, their items, the state of the menu bar, and
-- the search for items. An array with its count is a list, which is empty for a missing array.
pub mod Layout
pub mod Input
pub mod Valid
pub mod Calls
pub mod Runs
mod Tests
use nix_bench.Prelude.{
  ℕ, zero, suc, ◌+◌, ◌-◌, ◌*◌, ◌%◌, ◌^◌, Bool, true, false, not, ◌&&◌, ◌||◌, Option, none, some,
  List, [], ◌∷◌, ltb, leb, ◌==◌, if◌then◌else◌, length, get_elem?, ℤ, pos,
}

abbrev pub bar_height : ℕ
bar_height = 24

abbrev pub clock_area_width : ℕ
clock_area_width = 72

abbrev pub max_menus : ℕ
max_menus = 8

abbrev pub max_items : ℕ
max_items = 16

abbrev pub text_capacity : ℕ
text_capacity = 32

abbrev pub item_gutter_width : ℕ
item_gutter_width = 18

abbrev pub command_none : ℕ
command_none = 0

abbrev pub no_index : ℕ
no_index = 2 ^ 64 - 1

pub data ItemKind : Type 0 where
  command_item separator : ItemKind

pub record ItemSpec : Type 0 where
  pub label : Option (List ℕ)
  pub command : ℕ
  pub kind : ItemKind
  pub enabled : Bool
  pub checked : Bool

pub record MenuSpec : Type 0 where
  pub label : Option (List ℕ)
  pub items : List ItemSpec

pub data Phase : Type 0 where
  closed open_phase tracking : Phase

pub data Key : Type 0 where
  toggle next_item previous_item next_menu previous_menu activate dismiss : Key

pub data HitKind : Type 0 where
  hit_none hit_bar hit_label hit_panel hit_item : HitKind

pub record Hit : Type 0 where
  pub kind : HitKind
  pub menu_index : ℕ
  pub item_index : ℕ

-- `menus` is the model's array, empty without a model.
pub record Menu : Type 0 where
  pub menus : List MenuSpec
  pub phase : Phase
  pub open_menu : ℕ
  pub hot_item : ℕ
  pub floating_x : ℤ
  pub floating_y : ℤ
  pub floating : Bool
  pub floating_visible : Bool

unfoldable pub bounded_count : ℕ → ℕ → ℕ
bounded_count count maximum_count = if ltb count maximum_count then count else maximum_count

unfoldable pub menu_count : Menu → ℕ
menu_count m = bounded_count (length m.menus) max_menus

unfoldable pub menu_spec : Menu → ℕ → Option MenuSpec
menu_spec m index = if ltb index (menu_count m) then get_elem? m.menus index else none

unfoldable pub item_count : Option MenuSpec → ℕ
item_count none = 0
item_count (some spec) = bounded_count (length spec.items) max_items

-- `spec->items[index]`
unfoldable pub item_at : Option MenuSpec → ℕ → Option ItemSpec
item_at none index = none
item_at (some spec) index = get_elem? spec.items index

-- A text that is neither missing nor empty.
unfoldable pub is_text : Option (List ℕ) → Bool
is_text none = false
is_text (some []) = false
is_text (some (c ∷ text)) = true

unfoldable pub is_command : ItemKind → Bool
is_command command_item = true
is_command separator = false

unfoldable pub item_is_actionable : Option ItemSpec → Bool
item_is_actionable none = false
item_is_actionable (some item) =
    is_command item.kind && item.enabled && not (item.command == command_none) && is_text item.label

-- The loop over the items from an index on, `left` of them still to come.
unfoldable pub enabled_from : Option MenuSpec → ℕ → ℕ → ℕ
enabled_from spec zero index = no_index
enabled_from spec (suc left) index =
    let rest = enabled_from spec left (suc index) in
    if item_is_actionable (item_at spec index) then index else rest

unfoldable pub first_enabled_item : Option MenuSpec → ℕ
first_enabled_item spec = enabled_from spec (item_count spec) 0

unfoldable pub candidate_at : ℕ → ℕ → Bool → ℕ → ℕ
candidate_at count current forward offset =
    if current == no_index
    then if forward then offset - 1 else count - offset
    else if forward
    then (current + offset) % 2 ^ 64 % count
    else (current + count + 2 ^ 64 - offset % count) % 2 ^ 64 % count

-- The loop over the offsets, `left` of them still to come.
unfoldable pub next_enabled_from : Option MenuSpec → ℕ → Bool → ℕ → ℕ → ℕ
next_enabled_from spec current forward zero offset = no_index
next_enabled_from spec current forward (suc left) offset =
    let candidate = candidate_at (item_count spec) current forward offset in
    let rest = next_enabled_from spec current forward left (suc offset) in
    if item_is_actionable (item_at spec candidate) then candidate else rest

unfoldable pub next_enabled_item : Option MenuSpec → ℕ → Bool → ℕ
next_enabled_item spec current forward =
    if item_count spec == 0
    then no_index
    else next_enabled_from spec current forward (item_count spec) 1

unfoldable pub menu_cancel : Menu → Menu
menu_cancel m = record m {
  phase = closed;
  open_menu = no_index;
  hot_item = no_index;
  floating_visible = if m.floating then false else m.floating_visible;
}

-- `spec` is that of the menu to open.
unfoldable pub open_spec : Menu → ℕ → Phase → Bool → Option MenuSpec → Menu
open_spec m index phase select_first none = menu_cancel m
open_spec m index phase select_first (some spec) = record m {
  phase = phase;
  floating_visible = if m.floating then true else m.floating_visible;
  open_menu = index;
  hot_item = if select_first then first_enabled_item (some spec) else no_index;
}

unfoldable pub open_menu_index : Menu → ℕ → Phase → Bool → Menu
open_menu_index m index phase select_first =
    open_spec m index phase select_first (menu_spec m index)

unfoldable pub menu_init : Menu
menu_init = record {
  menus = [];
  phase = closed;
  open_menu = no_index;
  hot_item = no_index;
  floating_x = pos 0;
  floating_y = pos 0;
  floating = false;
  floating_visible = false;
}

unfoldable pub set_model : Menu → List MenuSpec → Menu
set_model m menus = record (menu_cancel m) { menus = menus }

unfoldable pub set_floating : Menu → Bool → Menu
set_floating m floating =
    if (if floating then m.floating else not m.floating)
    then m
    else record (menu_cancel m) { floating = floating; floating_visible = false }

unfoldable pub is_open : Menu → Bool
is_open m = is_open_phase m.phase
  where
    is_open_phase : Phase → Bool
    is_open_phase closed = false
    is_open_phase open_phase = true
    is_open_phase tracking = true

unfoldable pub is_visible : Menu → Bool
is_visible m = not m.floating || m.floating_visible
