-- ===== src/ConsoleShortcuts/Tests.antt =====
-- The theorems on console shortcuts at concrete key events.
use nix_bench.Prelude.{ℕ, true, false, List, [], ◌∷◌}
use nix_bench.ConsoleShortcuts.{KeyEvent, lctl, ralt, function_name}

abbrev down : List ℕ → KeyEvent
down key = record { xkb_key_name = key; pressed = true; repeat = false }

abbrev up : List ℕ → KeyEvent
up key = record { xkb_key_name = key; pressed = false; repeat = false }

-- Control and Alt are held.
abbrev history : List KeyEvent
history = down lctl ∷ down ralt ∷ []

abbrev f7 : List ℕ
f7 = function_name 0 7

abbrev later : List KeyEvent
later = up lctl ∷ down f7 ∷ up f7 ∷ []
