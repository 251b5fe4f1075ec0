-- ===== src/Menu/Valid.antt =====
-- The state of the menu bar between the calls of src/menu.h, and the calls that keep it.
use nix_bench.Prelude.{
  ℕ, zero, suc, ◌+◌, ◌-◌, ◌%◌, ◌^◌, ◌<◌, ◌≤◌, ◌≡◌, ◌≢◌, ◌⊎◌, inl, inr, refl, Bool, true, false,
  Option, none, some, ◌==◌, if◌then◌else◌, if_cases, arith,
}
use native.Mathlib.Nat.{mod-lt}
use nix_bench.Menu.{
  no_index, MenuSpec, Phase, closed, open_phase, tracking, Menu, menu_count, menu_spec, item_count,
  item_at, item_is_actionable, enabled_from, first_enabled_item, candidate_at, next_enabled_from,
  next_enabled_item, menu_cancel, open_spec, open_menu_index, is_open,
}

-- An index of an item that can be chosen, or none.
abbrev pub Chooses : Option MenuSpec → ℕ → Type 0
Chooses spec index =
    (index ≡ no_index)
    ⊎ ((index < item_count spec) × (item_is_actionable (item_at spec index) ≡ true))

-- A closed menu bar has no open menu; an open one shows a menu that exists, and the highlighted item
-- is one that can be chosen.
pub record IsValid (m : Menu) : Type 0 where
  pub closed_menu : is_open m ≡ false → (m.open_menu ≡ no_index) × (m.hot_item ≡ no_index)
  pub open_index : is_open m ≡ true → m.open_menu < menu_count m
  pub hot : Chooses (menu_spec m m.open_menu) m.hot_item

enabled_from-Chooses :
    (spec : Option MenuSpec) (left index : ℕ)
    → left + index ≡ item_count spec
    → Chooses spec (enabled_from spec left index)
unfolding enabled_from
enabled_from-Chooses spec zero index e = inl refl
enabled_from-Chooses spec (suc left) index e =
    if_cases (Chooses spec) (item_is_actionable (item_at spec index)) index
      (enabled_from spec left (suc index)) (λ a. inr (omega arith, a))
      (λ a. enabled_from-Chooses spec left (suc index) (omega arith))

candidate_below :
    (count current : ℕ) (forward : Bool) (offset : ℕ)
    → 0 < count
    → 1 ≤ offset
    → offset ≤ count
    → candidate_at count current forward offset < count
unfolding candidate_at
candidate_below count current forward offset c l u =
    let ahead = mod-lt ((current + offset) % 2 ^ 64) c in
    let back = mod-lt ((current + count + 2 ^ 64 - offset % count) % 2 ^ 64) c in
    ground (arith, ahead, back)

next_enabled_from-Chooses :
    (spec : Option MenuSpec) (current : ℕ) (forward : Bool) (left offset : ℕ)
    → 0 < item_count spec
    → 1 ≤ offset
    → left + offset ≡ item_count spec + 1
    → Chooses spec (next_enabled_from spec current forward left offset)
unfolding next_enabled_from
next_enabled_from-Chooses spec current forward zero offset c l e = inl refl
next_enabled_from-Chooses spec current forward (suc left) offset c l e =
    let candidate = candidate_at (item_count spec) current forward offset in
    if_cases (Chooses spec) (item_is_actionable (item_at spec candidate)) candidate
      (next_enabled_from spec current forward left (suc offset))
      (λ a. inr (candidate_below (item_count spec) current forward offset c l (omega arith), a))
      (λ a.
        next_enabled_from-Chooses spec current forward left (suc offset) c (omega arith)
          (omega arith))

pub next_enabled_item-Chooses :
    (spec : Option MenuSpec) (current : ℕ) (forward : Bool)
    → Chooses spec (next_enabled_item spec current forward)
unfolding next_enabled_item
next_enabled_item-Chooses spec current forward =
    if_cases (Chooses spec) (item_count spec == 0) no_index
      (next_enabled_from spec current forward (item_count spec) 1) (λ e. inl refl)
      (λ e.
        next_enabled_from-Chooses spec current forward (item_count spec) 1 (ground arith)
          (omega arith) (omega arith))

pub menu_cancel-IsValid : (m : Menu) → IsValid (menu_cancel m)
unfolding menu_cancel is_open
menu_cancel-IsValid m = record {
  closed_menu = λ e. (refl, refl);
  open_index = λ e. cc;
  hot = inl refl;
}

menu_spec-some :
    (m : Menu) (index : ℕ) (spec : MenuSpec) → menu_spec m index ≡ some spec → index < menu_count m
unfolding menu_spec
menu_spec-some m index spec e = ground (arith, e)

open_phase-ne : (phase : Phase) → phase ≢ closed → (m : Menu) → m.phase ≡ phase → is_open m ≡ true
unfolding is_open
open_phase-ne closed p m e = absurd (p refl)
open_phase-ne open_phase p m e = rw e refl
open_phase-ne tracking p m e = rw e refl

-- A menu that shows one of its menus.
pub showing-IsValid :
    (m : Menu)
    → is_open m ≡ true
    → m.open_menu < menu_count m
    → Chooses (menu_spec m m.open_menu) m.hot_item
    → IsValid m
showing-IsValid m o k c = record { closed_menu = λ e. cc; open_index = λ e. k; hot = c }

open_spec-IsValid :
    (m : Menu) (index : ℕ) (phase : Phase) (select_first : Bool) (spec : Option MenuSpec)
    → phase ≢ closed
    → menu_spec m index ≡ spec
    → IsValid (open_spec m index phase select_first spec)
unfolding open_spec
open_spec-IsValid m index phase select_first none p e = menu_cancel-IsValid m
open_spec-IsValid m index phase select_first (some spec) p e =
    let hot = if select_first then first_enabled_item (some spec) else no_index in
    let chosen : Chooses (some spec) hot =
      if_cases (Chooses (some spec)) select_first (first_enabled_item (some spec)) no_index
        (λ t.
          unfold first_enabled_item in
          enabled_from-Chooses (some spec) (item_count (some spec)) 0 (omega arith))
        (λ t. inl refl) in
    showing-IsValid _ (open_phase-ne phase p _ refl)
      (unfold menu_count in menu_spec-some m index spec e)
      (unfold menu_spec menu_count in rw e chosen)

pub open_menu_index-IsValid :
    (m : Menu) (index : ℕ) (phase : Phase) (select_first : Bool)
    → phase ≢ closed
    → IsValid (open_menu_index m index phase select_first)
unfolding open_menu_index
open_menu_index-IsValid m index phase select_first p =
    open_spec-IsValid m index phase select_first (menu_spec m index) p refl
