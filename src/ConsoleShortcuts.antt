-- ===== src/ConsoleShortcuts.antt =====
-- src/session_console_shortcuts.h and src/session_console_shortcuts.c: the key chords of the
-- console that the session handles itself.
pub mod Presses
pub mod Modifiers
mod Tests
use nix_bench.Prelude.{
  ℕ, zero, suc, ◌+◌, Bool, true, false, ◌&&◌, ◌||◌, not, List, [], ◌∷◌, ◌==◌, if◌then◌else◌,
}

pub data ShortcutType : Type 0 where
  no_shortcut emergency_shutdown switch_vt : ShortcutType

pub record Shortcut : Type 0 where
  pub type : ShortcutType
  pub vt_number : ℕ
  pub consumed : Bool

-- The two bit masks of function keys are functions: bit `n - 1` of a mask is its value at `n`.
pub record Shortcuts : Type 0 where
  pub left_control : Bool
  pub right_control : Bool
  pub left_alt : Bool
  pub right_alt : Bool
  pub backspace : Bool
  pub consumed_backspace : Bool
  pub function_keys : ℕ → Bool
  pub consumed_function_keys : ℕ → Bool

-- The key event of a `nb_host_event`; the name is its text before the NUL.
pub record KeyEvent : Type 0 where
  pub xkb_key_name : List ℕ
  pub pressed : Bool
  pub repeat : Bool

-- `none_shortcut` is the code's `no_shortcut()`.
abbrev pub none_shortcut : Shortcut
none_shortcut = record { type = no_shortcut; vt_number = 0; consumed = false }

unfoldable pub key_is : List ℕ → List ℕ → Bool
key_is [] [] = true
key_is [] (c ∷ name) = false
key_is (k ∷ ks) [] = false
key_is (k ∷ ks) (c ∷ name) = k == c && key_is ks name

abbrev pub lctl : List ℕ
lctl = 76 ∷ 67 ∷ 84 ∷ 76 ∷ []

abbrev pub rctl : List ℕ
rctl = 82 ∷ 67 ∷ 84 ∷ 76 ∷ []

abbrev pub lalt : List ℕ
lalt = 76 ∷ 65 ∷ 76 ∷ 84 ∷ []

abbrev pub ralt : List ℕ
ralt = 82 ∷ 65 ∷ 76 ∷ 84 ∷ []

abbrev pub bksp : List ℕ
bksp = 66 ∷ 75 ∷ 83 ∷ 80 ∷ []

-- "FK", with the digits of a number from 1 to 12.
abbrev pub function_name : ℕ → ℕ → List ℕ
function_name tens ones = 70 ∷ 75 ∷ (48 + tens) ∷ (48 + ones) ∷ []

abbrev pub names : List (List ℕ)
names =
    function_name 0 1
    ∷ function_name 0 2
    ∷ function_name 0 3
    ∷ function_name 0 4
    ∷ function_name 0 5
    ∷ function_name 0 6
    ∷ function_name 0 7
    ∷ function_name 0 8
    ∷ function_name 0 9
    ∷ function_name 1 0
    ∷ function_name 1 1
    ∷ function_name 1 2
    ∷ []

-- The loop of `function_key_number` from position `index` on.
unfoldable pub number_from : List ℕ → List (List ℕ) → ℕ → ℕ
number_from text [] index = 0
number_from text (name ∷ rest) index =
    let later = number_from text rest (index + 1) in if key_is text name then index + 1 else later

unfoldable pub function_key_number : List ℕ → ℕ
function_key_number text = number_from text names 0

abbrev pub reset : Shortcuts
reset = record {
  left_control = false;
  right_control = false;
  left_alt = false;
  right_alt = false;
  backspace = false;
  consumed_backspace = false;
  function_keys = λ n. false;
  consumed_function_keys = λ n. false;
}

-- The four modifier keys, and the other ones.
pub data KeyKind : Type 0 where
  left_control_key right_control_key left_alt_key right_alt_key backspace_key : KeyKind
  function_key : ℕ → KeyKind
  other_key : KeyKind

unfoldable pub kind_of : List ℕ → KeyKind
kind_of text =
    let n = function_key_number text in
    if key_is text lctl
    then left_control_key
    else if key_is text rctl
    then right_control_key
    else if key_is text lalt
    then left_alt_key
    else if key_is text ralt
    then right_alt_key
    else if key_is text bksp
    then backspace_key
    else if n == 0
    then other_key
    else function_key n

abbrev pub chord : Shortcuts → Bool
chord s = (s.left_control || s.right_control) && (s.left_alt || s.right_alt)

unfoldable pub apply_backspace : Shortcuts → Bool → Bool → Shortcuts × Shortcut
apply_backspace s pressed repeat =
    if not pressed
    then (
      record s { backspace = false; consumed_backspace = false },
      record none_shortcut { consumed = s.consumed_backspace },
    )
    else if s.backspace || repeat
    then (record s { backspace = true }, record none_shortcut { consumed = s.consumed_backspace })
    else if chord s
    then (
      record s { backspace = true; consumed_backspace = true },
      record { type = emergency_shutdown; vt_number = 0; consumed = true },
    )
    else (record s { backspace = true }, none_shortcut)

-- A mask with the bit of one key written.
abbrev pub set_bit : (ℕ → Bool) → ℕ → Bool → ℕ → Bool
set_bit mask n b k = if k == n then b else mask k

unfoldable pub apply_function_key : Shortcuts → ℕ → Bool → Bool → Shortcuts × Shortcut
apply_function_key s n pressed repeat =
    let keys = set_bit s.function_keys n true in
    if not pressed
    then (
      record s {
        function_keys = set_bit s.function_keys n false;
        consumed_function_keys = set_bit s.consumed_function_keys n false;
      },
      record none_shortcut { consumed = s.consumed_function_keys n },
    )
    else if s.function_keys n || repeat
    then (
      record s { function_keys = keys },
      record none_shortcut { consumed = s.consumed_function_keys n },
    )
    else if chord s
    then (
      record s {
        function_keys = keys;
        consumed_function_keys = set_bit s.consumed_function_keys n true;
      },
      record { type = switch_vt; vt_number = n; consumed = true },
    )
    else (record s { function_keys = keys }, none_shortcut)

unfoldable pub apply_kind : KeyKind → Shortcuts → Bool → Bool → Shortcuts × Shortcut
apply_kind left_control_key s pressed repeat = (record s { left_control = pressed }, none_shortcut)
apply_kind right_control_key s pressed repeat =
    (record s { right_control = pressed }, none_shortcut)
apply_kind left_alt_key s pressed repeat = (record s { left_alt = pressed }, none_shortcut)
apply_kind right_alt_key s pressed repeat = (record s { right_alt = pressed }, none_shortcut)
apply_kind backspace_key s pressed repeat = apply_backspace s pressed repeat
apply_kind (function_key n) s pressed repeat = apply_function_key s n pressed repeat
apply_kind other_key s pressed repeat = (s, none_shortcut)

-- What `nb_session_console_shortcuts_apply` does with a key event.
unfoldable pub apply_key : Shortcuts → KeyEvent → Shortcuts × Shortcut
apply_key s e = apply_kind (kind_of e.xkb_key_name) s e.pressed e.repeat

-- A `nb_host_event` by what the code reads of it.
pub data HostEvent : Type 0 where
  key : KeyEvent → HostEvent
  of_other_type : HostEvent

unfoldable pub apply : Shortcuts → HostEvent → Shortcuts × Shortcut
apply s (key e) = apply_key s e
apply s of_other_type = (s, none_shortcut)
