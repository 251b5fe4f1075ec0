-- ===== src/ConsoleShortcuts/Modifiers.antt =====
-- The modifier keys of src/session_console_shortcuts.c by the events that came.
use nix_bench.Prelude.{ℕ, ◌≡◌, ◌≢◌, ◌⊎◌, Bool, true, List, [], ◌∷◌}
use nix_bench.ConsoleShortcuts.{
  Shortcuts, KeyEvent, KeyKind, left_control_key, right_control_key, left_alt_key, right_alt_key,
  lctl, rctl, lalt, ralt,
}

-- No event is of the key.
abbrev pub Untouched : List ℕ → List KeyEvent → Type 0
Untouched name [] = Unit {0}
Untouched name (e ∷ es) = (e.xkb_key_name ≢ name) × Untouched name es

-- Some event pressed the key, and no later one is of it.
abbrev pub HeldKey : List ℕ → List KeyEvent → Type 0
HeldKey name [] = ⊥
HeldKey name (e ∷ es) =
    HeldKey name es ⊎ ((e.xkb_key_name ≡ name) × (e.pressed ≡ true) × Untouched name es)

-- One of the Control keys and one of the Alt keys are held.
abbrev pub ChordHeld : List KeyEvent → Type 0
ChordHeld es = (HeldKey lctl es ⊎ HeldKey rctl es) × (HeldKey lalt es ⊎ HeldKey ralt es)

data Modifier : Type 0 where
  left_control right_control left_alt right_alt : Modifier

abbrev flag : Modifier → Shortcuts → Bool
flag left_control s = s.left_control
flag right_control s = s.right_control
flag left_alt s = s.left_alt
flag right_alt s = s.right_alt

abbrev name_of : Modifier → List ℕ
name_of left_control = lctl
name_of right_control = rctl
name_of left_alt = lalt
name_of right_alt = ralt

abbrev kind_for : Modifier → KeyKind
kind_for left_control = left_control_key
kind_for right_control = right_control_key
kind_for left_alt = left_alt_key
kind_for right_alt = right_alt_key
