-- ===== src/Menu/Calls.antt =====
-- The pointer and the keys of src/menu.c keep the menu bar valid.
use nix_bench.Prelude.{
  ℕ, ◌+◌, ◌-◌, ◌%◌, ◌^◌, ◌≡◌, ◌≢◌, inl, inr, refl, sym, Bool, true, false, not, ◌&&◌, ◌||◌, Option,
  none, some, leb, ◌==◌, if◌then◌else◌, if_cases, ℤ, arith,
}
use nix_bench.Window.{Rect}
use nix_bench.Menu.{
  command_none, no_index, Phase, closed, open_phase, tracking, Key, toggle, next_item,
  previous_item, next_menu, previous_menu, activate, dismiss, Hit, Menu, menu_count, menu_spec,
  item_count, item_at, item_is_actionable, next_enabled_item, menu_cancel, open_menu_index, is_open,
}
use nix_bench.Menu.Layout.{item_rect, panel_rect, label_rect}
use nix_bench.Menu.Input.{
  hit_test, hit_test_panel, hit_test_bar, hit_test_label, find_rect, is_item, is_label, is_bar,
  enabled_item_for_hit, press, pointer_down, pointer_move, pointer_up, move_between_menus,
  press_open, key_press,
}
use nix_bench.Menu.Valid.{
  Chooses, IsValid, next_enabled_item-Chooses, menu_cancel-IsValid, showing-IsValid,
  open_menu_index-IsValid,
}
use nix_bench.Window.Pointer.{rect_contains}

abbrev pub OwnItem : Menu → Hit → Type 0
OwnItem m hit = is_item hit.kind ≡ true → hit.menu_index ≡ m.open_menu

hit_test_label-OwnItem :
    (m : Menu) (x y : ℤ) (viewport : Rect) (found : Option ℕ)
    → OwnItem m (hit_test_label m x y viewport found)
unfolding hit_test_label is_item
hit_test_label-OwnItem m x y viewport (some index) = λ e. cc
hit_test_label-OwnItem m x y viewport none = λ e. ground (arith, e)

hit_test_bar-OwnItem :
    (m : Menu) (x y : ℤ) (viewport : Rect) → OwnItem m (hit_test_bar m x y viewport)
unfolding hit_test_bar
hit_test_bar-OwnItem m x y viewport =
    hit_test_label-OwnItem m x y viewport (find_rect (label_rect m viewport) x y (menu_count m) 0)

hit_test_panel-OwnItem :
    (m : Menu) (x y : ℤ) (viewport : Rect) (found : Option ℕ)
    → OwnItem m (hit_test_panel m x y viewport found)
unfolding hit_test_panel
hit_test_panel-OwnItem m x y viewport (some index) = λ e. refl
hit_test_panel-OwnItem m x y viewport none =
    if_cases (OwnItem m) (rect_contains (panel_rect m viewport) x y) _ (hit_test_bar m x y viewport)
      (λ t e. refl) (λ t. hit_test_bar-OwnItem m x y viewport)

-- An item that is hit is one of the open menu.
pub hit_test-OwnItem : (m : Menu) (x y : ℤ) (viewport : Rect) → OwnItem m (hit_test m x y viewport)
unfolding hit_test
hit_test-OwnItem m x y viewport =
    let found = find_rect (item_rect m viewport) x y (item_count (menu_spec m m.open_menu)) 0 in
    if_cases (OwnItem m) (is_open m) (hit_test_panel m x y viewport found)
      (hit_test_bar m x y viewport) (λ t. hit_test_panel-OwnItem m x y viewport found)
      (λ t. hit_test_bar-OwnItem m x y viewport)

pub enabled_item_for_hit-Chooses :
    (m : Menu) (hit : Hit)
    → OwnItem m hit
    → Chooses (menu_spec m m.open_menu) (enabled_item_for_hit m hit)
unfolding enabled_item_for_hit
enabled_item_for_hit-Chooses m hit own =
    let spec = menu_spec m hit.menu_index in
    let barred =
      not (is_item hit.kind)
      || leb (item_count spec) hit.item_index
      || not (item_is_actionable (item_at spec hit.item_index)) in
    if_cases (Chooses (menu_spec m m.open_menu)) barred no_index hit.item_index (λ t. inl refl)
      (λ t. let same = own (ground arith) in rw (sym same) (inr (ground arith, ground arith)))

hot-IsValid :
    (m : Menu) (phase : Phase) (index : ℕ)
    → IsValid m
    → is_open m ≡ true
    → is_open (record m { phase = phase; hot_item = index }) ≡ true
    → Chooses (menu_spec m m.open_menu) index
    → IsValid (record m { phase = phase; hot_item = index })
hot-IsValid m phase index v o o' c =
    showing-IsValid _ o' (unfold menu_count in v.open_index o) (unfold menu_spec menu_count in c)

abbrev Valid : Menu × Bool → Type 0
Valid r = IsValid r.0

opened : (m : Menu) → m.phase ≡ open_phase → is_open m ≡ true
unfolding is_open
opened m e = rw e refl

pressed-IsValid :
    (m : Menu) (index : ℕ)
    → IsValid m
    → is_open m ≡ true
    → Chooses (menu_spec m m.open_menu) index
    → IsValid (record m { phase = tracking; hot_item = index })
pressed-IsValid m index v o c = hot-IsValid m tracking index v o (unfold is_open in refl) c

press-IsValid :
    (m : Menu) (hit : Hit) (phase : Phase)
    → IsValid m
    → m.phase ≡ phase
    → Chooses (menu_spec m m.open_menu) (enabled_item_for_hit m hit)
    → IsValid (press m hit phase).0
unfolding press
press-IsValid m hit tracking v e c = v
press-IsValid m hit closed v e c =
    if_cases Valid (is_label hit.kind) (open_menu_index m hit.menu_index tracking false, true)
      (m, is_bar hit.kind) (λ t. open_menu_index-IsValid m hit.menu_index tracking false (λ q. cc))
      (λ t. v)
press-IsValid m hit open_phase v e c =
    let pressed : Menu = record m { phase = tracking; hot_item = enabled_item_for_hit m hit } in
    let switched : Menu × Bool = (open_menu_index m hit.menu_index tracking false, true) in
    if_cases Valid (is_label hit.kind && hit.menu_index == m.open_menu) (menu_cancel m, true)
      (if is_label hit.kind then switched else (pressed, true)) (λ t. menu_cancel-IsValid m)
      (λ t.
        if_cases Valid (is_label hit.kind) switched (pressed, true)
          (λ l. open_menu_index-IsValid m hit.menu_index tracking false (λ q. cc))
          (λ l. pressed-IsValid m (enabled_item_for_hit m hit) v (opened m e) c))

pub pointer_down-IsValid :
    (m : Menu) (x y : ℤ) (viewport : Rect) → IsValid m → IsValid (pointer_down m x y viewport).0
unfolding pointer_down
pointer_down-IsValid m x y viewport v =
    let hit = hit_test m x y viewport in
    press-IsValid m hit m.phase v refl
      (enabled_item_for_hit-Chooses m hit (hit_test-OwnItem m x y viewport))

open-ne : (m : Menu) → is_open m ≡ true → m.phase ≢ closed
unfolding is_open
open-ne m o e = cc (o, closed_lem m e)
  where
    closed_lem : (m : Menu) → m.phase ≡ closed → is_open m ≡ false
    closed_lem m e = rw e refl

pub pointer_move-IsValid :
    (m : Menu) (x y : ℤ) (viewport : Rect) → IsValid m → IsValid (pointer_move m x y viewport).0
unfolding pointer_move
pointer_move-IsValid m x y viewport v =
    let hit = hit_test m x y viewport in
    let index = enabled_item_for_hit m hit in
    let chosen = enabled_item_for_hit-Chooses m hit (hit_test-OwnItem m x y viewport) in
    let kept : Menu × Bool = (m, false) in
    let moved : Menu = record m { hot_item = index } in
    let shown = if index == m.hot_item then kept else (moved, true) in
    let over = is_label hit.kind && not (hit.menu_index == m.open_menu) in
    let switched : Menu × Bool = (open_menu_index m hit.menu_index m.phase false, true) in
    if_cases Valid (not (is_open m)) kept (if over then switched else shown) (λ t. v)
      (λ t.
        let o : is_open m ≡ true = ground arith in
        if_cases Valid over switched shown
          (λ l. open_menu_index-IsValid m hit.menu_index m.phase false (open-ne m o))
          (λ l.
            if_cases Valid (index == m.hot_item) kept (moved, true) (λ s. v)
              (λ s. hot-IsValid m m.phase index v o (unfold is_open in o) chosen)))

pub pointer_up-IsValid :
    (m : Menu) (x y : ℤ) (viewport : Rect) → IsValid m → IsValid (pointer_up m x y viewport).0
unfolding pointer_up
pointer_up-IsValid m x y viewport v =
    let hit = hit_test m x y viewport in
    ground (
      arith,
      v,
      menu_cancel-IsValid m,
      open_menu_index-IsValid m hit.menu_index open_phase false (λ q. cc),
    )

move_between_menus-IsValid :
    (m : Menu) (forward : Bool) → IsValid m → IsValid (move_between_menus m forward)
unfolding move_between_menus
move_between_menus-IsValid m forward v =
    let index =
      if m.open_menu == no_index
      then if forward then 0 else menu_count m - 1
      else if forward
      then (m.open_menu + 1) % 2 ^ 64 % menu_count m
      else (m.open_menu + menu_count m - 1) % 2 ^ 64 % menu_count m in
    if_cases IsValid (menu_count m == 0) m (open_menu_index m index open_phase true) (λ t. v)
      (λ t. open_menu_index-IsValid m index open_phase true (λ q. cc))

press_open-IsValid :
    (m : Menu) (key : Key) → IsValid m → is_open m ≡ true → IsValid (press_open m key).0
unfolding press_open
press_open-IsValid m toggle v o = v
press_open-IsValid m dismiss v o = v
press_open-IsValid m next_menu v o = move_between_menus-IsValid m true v
press_open-IsValid m previous_menu v o = move_between_menus-IsValid m false v
press_open-IsValid m next_item v o =
    let spec = menu_spec m m.open_menu in
    hot-IsValid m m.phase (next_enabled_item spec m.hot_item true) v o (unfold is_open in o)
      (next_enabled_item-Chooses spec m.hot_item true)
press_open-IsValid m previous_item v o =
    let spec = menu_spec m m.open_menu in
    hot-IsValid m m.phase (next_enabled_item spec m.hot_item false) v o (unfold is_open in o)
      (next_enabled_item-Chooses spec m.hot_item false)
press_open-IsValid m activate v o = ground (arith, v, menu_cancel-IsValid m)

opened_key-IsValid :
    (m : Menu) (key : Key)
    → IsValid m
    → IsValid (if not (is_open m) then (m, command_none) else press_open m key).0
opened_key-IsValid m key v =
    if_cases (λ (r : Menu × ℕ). IsValid r.0) (not (is_open m)) (m, command_none) (press_open m key)
      (λ t. v) (λ t. press_open-IsValid m key v (ground arith))

pub key_press-IsValid : (m : Menu) (key : Key) → IsValid m → IsValid (key_press m key).0
unfolding key_press
key_press-IsValid m toggle v =
    ground (arith, v, menu_cancel-IsValid m, open_menu_index-IsValid m 0 open_phase true (λ q. cc))
key_press-IsValid m dismiss v = menu_cancel-IsValid m
key_press-IsValid m next_item v = opened_key-IsValid m next_item v
key_press-IsValid m previous_item v = opened_key-IsValid m previous_item v
key_press-IsValid m next_menu v = opened_key-IsValid m next_menu v
key_press-IsValid m previous_menu v = opened_key-IsValid m previous_menu v
key_press-IsValid m activate v = opened_key-IsValid m activate v
