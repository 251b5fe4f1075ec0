-- ===== src/Menu/Tests.antt =====
-- Runs of the menu bar, and its theorems at concrete inputs.
use nix_bench.Prelude.{◌≡◌, refl, true, false, some, [], ◌∷◌, pos}
use nix_bench.Window.{Rect}
use nix_bench.Menu.{
  ItemSpec, command_item, separator, MenuSpec, Menu, Key, open_menu_index, open_phase, open_spec,
  menu_spec, menu_count, bounded_count, first_enabled_item, enabled_from, item_count, item_at,
  item_is_actionable, is_command, is_text, set_model, menu_cancel, menu_init, is_open,
}
use nix_bench.Menu.Input.{key_press, press_open, pointer_up, command_of}
use nix_bench.Menu.Valid.{IsValid}
use nix_bench.Menu.Runs.{Call, run_menu, run_menu-IsValid, Commands, commands_lem}

abbrev quit : ItemSpec
quit = record {
  label = some (81 ∷ []);
  command = 7;
  kind = command_item;
  enabled = true;
  checked = false;
}

abbrev line : ItemSpec
line = record { label = some []; command = 0; kind = separator; enabled = false; checked = false }

abbrev file : MenuSpec
file = record { label = some (70 ∷ []); items = line ∷ quit ∷ [] }

abbrev screen : Rect
screen = record { x = pos 0; y = pos 0; width = pos 640; height = pos 480 }

abbrev shown : Menu
shown = open_menu_index (set_model menu_init (file ∷ [])) 0 open_phase true

-- The highlight skips the line, and the key chooses the item below it.
chooses_quit : (key_press shown Key.activate).1 ≡ 7
unfolding key_press press_open open_menu_index open_spec menu_spec menu_count bounded_count
    first_enabled_item enabled_from item_count item_at item_is_actionable is_command is_text
    set_model menu_cancel menu_init is_open command_of
chooses_quit = refl

run_menu-IsValid_example :
    IsValid (run_menu menu_init (Call.set_menus (file ∷ []) ∷ Call.press_key Key.toggle ∷ []))
run_menu-IsValid_example =
    run_menu-IsValid (Call.set_menus (file ∷ []) ∷ Call.press_key Key.toggle ∷ [])

commands_lem_example :
    Commands shown (key_press shown Key.activate)
    × Commands shown (pointer_up shown (pos 10) (pos 60) screen)
commands_lem_example = commands_lem shown Key.activate (pos 10) (pos 60) screen
