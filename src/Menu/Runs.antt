-- ===== src/Menu/Runs.antt =====
-- Runs of the calls of src/menu.h, and the commands that they give.
use nix_bench.Prelude.{
  ℕ, ◌<◌, ◌≡◌, ◌≢◌, refl, Bool, true, false, not, ◌&&◌, ◌||◌, List, [], ◌∷◌, ltb, ◌==◌,
  if◌then◌else◌, if_cases, ℤ, pos, leb_ℤ, arith, inl,
}
use nix_bench.Window.{Rect}
use nix_bench.Menu.{
  command_none, no_index, MenuSpec, closed, open_phase, Key, toggle, next_item, previous_item,
  next_menu, previous_menu, activate, dismiss, Menu, menu_count, menu_spec, item_count, item_at,
  item_is_actionable, menu_cancel, open_menu_index, is_open, set_model, set_floating, menu_init,
}
use nix_bench.Menu.Layout.{show_floating}
use nix_bench.Menu.Input.{
  hit_test, is_label, enabled_item_for_hit, pointer_down, pointer_move, is_tracking, command_of,
  pointer_up, press_open, key_press,
}
use nix_bench.Menu.Valid.{IsValid, menu_cancel-IsValid}
use nix_bench.Menu.Calls.{
  enabled_item_for_hit-Chooses, hit_test-OwnItem, pointer_down-IsValid, pointer_move-IsValid,
  pointer_up-IsValid, key_press-IsValid,
}

-- The calls that change a menu bar.
pub data Call : Type 0 where
  set_menus : (menus : List MenuSpec) → Call
  cancel : Call
  float : (floating : Bool) → Call
  show : (x y : ℤ) → (viewport : Rect) → Call
  press_at : (x y : ℤ) → (viewport : Rect) → Call
  move_to : (x y : ℤ) → (viewport : Rect) → Call
  release_at : (x y : ℤ) → (viewport : Rect) → Call
  press_key : (key : Key) → Call

unfoldable pub call : Menu → Call → Menu
call m (set_menus menus) = set_model m menus
call m cancel = menu_cancel m
call m (float floating) = set_floating m floating
call m (show x y viewport) = (show_floating m x y viewport).0
call m (press_at x y viewport) = (pointer_down m x y viewport).0
call m (move_to x y viewport) = (pointer_move m x y viewport).0
call m (release_at x y viewport) = (pointer_up m x y viewport).0
call m (press_key key) = (key_press m key).0

unfoldable pub run_menu : Menu → List Call → Menu
run_menu m [] = m
run_menu m (c ∷ cs) = run_menu (call m c) cs

-- Any menu bar that is cancelled is valid, whatever its other fields.
idle-IsValid :
    (m : Menu) → m.phase ≡ closed → m.open_menu ≡ no_index → m.hot_item ≡ no_index → IsValid m
idle-IsValid m p o h = record {
  closed_menu = λ e. (o, h);
  open_index = λ e. cc (e, unopened m p);
  hot = inl h;
}
  where
    unopened : (m : Menu) → m.phase ≡ closed → is_open m ≡ false
    unopened m p = unfold is_open in rw p refl

call-IsValid : (m : Menu) (c : Call) → IsValid m → IsValid (call m c)
unfolding call
call-IsValid m (set_menus menus) v = unfold set_model menu_cancel in idle-IsValid _ refl refl refl
call-IsValid m cancel v = menu_cancel-IsValid m
call-IsValid m (float floating) v =
    unfold set_floating menu_cancel in
    if_cases IsValid (if floating then m.floating else not m.floating) m _ (λ t. v)
      (λ t. idle-IsValid _ refl refl refl)
call-IsValid m (show x y viewport) v =
    unfold show_floating menu_cancel in
    if_cases (λ (r : Menu × Bool). IsValid r.0)
      (not m.floating
        || menu_count m == 0
        || leb_ℤ viewport.width (pos 0)
        || leb_ℤ viewport.height (pos 0))
      (m, false) _ (λ t. v) (λ t. idle-IsValid _ refl refl refl)
call-IsValid m (press_at x y viewport) v = pointer_down-IsValid m x y viewport v
call-IsValid m (move_to x y viewport) v = pointer_move-IsValid m x y viewport v
call-IsValid m (release_at x y viewport) v = pointer_up-IsValid m x y viewport v
call-IsValid m (press_key key) v = key_press-IsValid m key v

run_menu_keeps : (m : Menu) (cs : List Call) → IsValid m → IsValid (run_menu m cs)
unfolding run_menu
run_menu_keeps m [] v = v
run_menu_keeps m (c ∷ cs) v = run_menu_keeps (call m c) cs (call-IsValid m c v)

-- Whatever calls a new menu bar gets, a closed bar has no open menu and no highlighted item, an open
-- one shows a menu of the model, and a highlighted item is one of that menu that can be chosen.
pub run_menu-IsValid : (cs : List Call) → IsValid (run_menu menu_init cs)
run_menu-IsValid cs =
    run_menu_keeps menu_init cs (unfold menu_init in idle-IsValid _ refl refl refl)

-- The command of an item of the open menu that can be chosen.
pub record IsChosen (m : Menu) (command : ℕ) : Type 0 where
  pub index : ℕ
  pub listed : index < item_count (menu_spec m m.open_menu)
  pub can_be_chosen : item_is_actionable (item_at (menu_spec m m.open_menu) index) ≡ true
  pub is_its : command_of (item_at (menu_spec m m.open_menu) index) ≡ command

abbrev pub Commands : Menu → Menu × ℕ → Type 0
Commands m r = r.1 ≢ command_none → IsChosen m r.1 × (r.0 ≡ menu_cancel m)

none-Commands : (m m' : Menu) → Commands m (m', command_none)
none-Commands m m' q = absurd (q refl)

chosen-Commands :
    (m : Menu) (index : ℕ)
    → index < item_count (menu_spec m m.open_menu)
    → item_is_actionable (item_at (menu_spec m m.open_menu) index) ≡ true
    → Commands m (menu_cancel m, command_of (item_at (menu_spec m m.open_menu) index))
chosen-Commands m index k a q =
    (record { index = index; listed = k; can_be_chosen = a; is_its = refl }, refl)

press_open-Commands : (m : Menu) (key : Key) → Commands m (press_open m key)
unfolding press_open
press_open-Commands m toggle = none-Commands m _
press_open-Commands m dismiss = none-Commands m _
press_open-Commands m next_menu = none-Commands m _
press_open-Commands m previous_menu = none-Commands m _
press_open-Commands m next_item = none-Commands m _
press_open-Commands m previous_item = none-Commands m _
press_open-Commands m activate =
    let spec = menu_spec m m.open_menu in
    let item = item_at spec m.hot_item in
    if_cases (Commands m) (ltb m.hot_item (item_count spec) && item_is_actionable item)
      (menu_cancel m, command_of item) (m, command_none)
      (λ t. chosen-Commands m m.hot_item (ground arith) (ground arith)) (λ t. none-Commands m m)

opened-Commands :
    (m : Menu) (key : Key)
    → Commands m (if not (is_open m) then (m, command_none) else press_open m key)
opened-Commands m key =
    if_cases (Commands m) (not (is_open m)) (m, command_none) (press_open m key)
      (λ t. none-Commands m m) (λ t. press_open-Commands m key)

key_press-Commands : (m : Menu) (key : Key) → Commands m (key_press m key)
unfolding key_press
key_press-Commands m toggle =
    if_cases (Commands m) (is_open m) (menu_cancel m, command_none)
      (if ltb 0 (menu_count m)
        then (open_menu_index m 0 open_phase true, command_none)
        else (m, command_none))
      (λ t. none-Commands m _)
      (λ t.
        if_cases (Commands m) (ltb 0 (menu_count m)) _ _ (λ k. none-Commands m _)
          (λ k. none-Commands m _))
key_press-Commands m dismiss = none-Commands m _
key_press-Commands m next_item = opened-Commands m next_item
key_press-Commands m previous_item = opened-Commands m previous_item
key_press-Commands m next_menu = opened-Commands m next_menu
key_press-Commands m previous_menu = opened-Commands m previous_menu
key_press-Commands m activate = opened-Commands m activate

pointer_up-Commands :
    (m : Menu) (x y : ℤ) (viewport : Rect) → Commands m (pointer_up m x y viewport)
unfolding pointer_up
pointer_up-Commands m x y viewport =
    let hit = hit_test m x y viewport in
    let spec = menu_spec m m.open_menu in
    let index = enabled_item_for_hit m hit in
    let choose = not (index == no_index) && ltb index (item_count spec) in
    let command = if choose then command_of (item_at spec index) else command_none in
    let closing : Menu × ℕ = (menu_cancel m, command) in
    let switched : Menu × ℕ = (open_menu_index m hit.menu_index open_phase false, command_none) in
    let chosen = enabled_item_for_hit-Chooses m hit (hit_test-OwnItem m x y viewport) in
    if_cases (Commands m) (not (is_tracking m)) (m, command_none)
      (if is_label hit.kind then switched else closing) (λ t. none-Commands m m)
      (λ t.
        if_cases (Commands m) (is_label hit.kind) switched closing (λ l. none-Commands m _)
          (λ l.
            if_cases (λ (c : ℕ). Commands m (menu_cancel m, c)) choose
              (command_of (item_at spec index)) command_none
              (λ c. chosen-Commands m index (ground arith) (ground (arith, chosen)))
              (λ c. none-Commands m _)))

-- A key, or the release of the pointer anywhere, gives a command other than 0 only if it is that of an
-- item of the open menu that can be chosen, and the menu bar is then cancelled.
pub commands_lem :
    (m : Menu) (key : Key) (x y : ℤ) (viewport : Rect)
    → Commands m (key_press m key) × Commands m (pointer_up m x y viewport)
commands_lem m key x y viewport = (key_press-Commands m key, pointer_up-Commands m x y viewport)
