-- ===== src/ConsoleShortcuts/Presses.antt =====
-- Presses of a chord's key and what follows them: src/session_console_shortcuts.c.
use nix_bench.Prelude.{
  ℕ, ◌≤◌, ◌+◌, length, ◌≡◌, ◌≢◌, ◌↔◌, inl, inr, refl, sym, ap, Bool, true, false, List, [], ◌∷◌,
  arith, Bool-cases,
}
use mathlib.Core.Path.{subst}
use native.Mathlib.Decide.{ℕ_discrete}
use nix_bench.ConsoleShortcuts.{
  names, number_from, function_key_number, no_shortcut, switch_vt, Shortcut, Shortcuts, KeyEvent,
  KeyKind, left_control_key, right_control_key, left_alt_key, right_alt_key, backspace_key,
  function_key, other_key, kind_of, chord, reset, apply_backspace, apply_function_key, apply_kind,
  apply_key,
}

-- Whether a chord's key is held down, and whether its press was consumed.
abbrev pub is_down : KeyKind → Shortcuts → Bool
is_down backspace_key s = s.backspace
is_down (function_key n) s = s.function_keys n
is_down _ s = false

abbrev pub is_consumed : KeyKind → Shortcuts → Bool
is_consumed backspace_key s = s.consumed_backspace
is_consumed (function_key n) s = s.consumed_function_keys n
is_consumed _ s = false

-- The keys that a chord can end with.
abbrev pub IsChordKey : KeyKind → Type 0
IsChordKey backspace_key = Unit {0}
IsChordKey (function_key n) = Unit {0}
IsChordKey _ = ⊥

-- Only keys that are down are marked as consumed.
pub record IsValid (s : Shortcuts) : Type 0 where
  pub backspace : s.consumed_backspace ≡ true → s.backspace ≡ true
  pub function : (n : ℕ) → s.consumed_function_keys n ≡ true → s.function_keys n ≡ true

abbrev pub run : Shortcuts → List KeyEvent → Shortcuts
run s [] = s
run s (e ∷ es) = run (apply_key s e).0 es

apply_kind-IsValid :
    (k : KeyKind) (s : Shortcuts) (pressed repeat : Bool)
    → IsValid s
    → IsValid (apply_kind k s pressed repeat).0
unfolding apply_kind apply_backspace apply_function_key
apply_kind-IsValid left_control_key s p r v = record {
  backspace = v.backspace;
  function = v.function;
}
apply_kind-IsValid right_control_key s p r v = record {
  backspace = v.backspace;
  function = v.function;
}
apply_kind-IsValid left_alt_key s p r v = record { backspace = v.backspace; function = v.function }
apply_kind-IsValid right_alt_key s p r v = record { backspace = v.backspace; function = v.function }
apply_kind-IsValid backspace_key s p r v = record {
  backspace = ground arith;
  function = λ n. let f = v.function n in ground arith;
}
apply_kind-IsValid (function_key m) s p r v = record {
  backspace = ground arith;
  function = λ n. let f = v.function n in ground arith;
}
apply_kind-IsValid other_key s p r v = v

run-IsValid : (s : Shortcuts) (es : List KeyEvent) → IsValid s → IsValid (run s es)
unfolding apply_key
run-IsValid s [] v = v
run-IsValid s (e ∷ es) v =
    run-IsValid (apply_key s e).0 es
      (apply_kind-IsValid (kind_of e.xkb_key_name) s e.pressed e.repeat v)

-- The state of a chord's key that is held down.
record IsHeld (k : KeyKind) (b : Bool) (s : Shortcuts) : Type 0 where
  down : is_down k s ≡ true
  consumed : is_consumed k s ≡ b

-- Events of another key, and presses of this one, leave it held.
step-IsHeld :
    (k : KeyKind) (b : Bool) (j : KeyKind) (s : Shortcuts) (pressed repeat : Bool)
    → IsHeld k b s
    → (j ≡ k → pressed ≡ true)
    → IsHeld k b (apply_kind j s pressed repeat).0
unfolding apply_kind apply_backspace apply_function_key
step-IsHeld backspace_key b left_control_key s p r h q = record {
  down = h.down;
  consumed = h.consumed;
}
step-IsHeld backspace_key b right_control_key s p r h q = record {
  down = h.down;
  consumed = h.consumed;
}
step-IsHeld backspace_key b left_alt_key s p r h q = record { down = h.down; consumed = h.consumed }
step-IsHeld backspace_key b right_alt_key s p r h q = record {
  down = h.down;
  consumed = h.consumed;
}
step-IsHeld backspace_key b other_key s p r h q = record { down = h.down; consumed = h.consumed }
step-IsHeld (function_key n) b left_control_key s p r h q = record {
  down = h.down;
  consumed = h.consumed;
}
step-IsHeld (function_key n) b right_control_key s p r h q = record {
  down = h.down;
  consumed = h.consumed;
}
step-IsHeld (function_key n) b left_alt_key s p r h q = record {
  down = h.down;
  consumed = h.consumed;
}
step-IsHeld (function_key n) b right_alt_key s p r h q = record {
  down = h.down;
  consumed = h.consumed;
}
step-IsHeld (function_key n) b other_key s p r h q = record { down = h.down; consumed = h.consumed }
step-IsHeld backspace_key b backspace_key s p r h q =
    let e = q refl in
    let d = h.down in let c = h.consumed in record { down = ground arith; consumed = ground arith }
step-IsHeld backspace_key b (function_key m) s p r h q =
    let d = h.down in let c = h.consumed in record { down = ground arith; consumed = ground arith }
step-IsHeld (function_key n) b backspace_key s p r h q =
    let d = h.down in let c = h.consumed in record { down = ground arith; consumed = ground arith }
step-IsHeld (function_key n) b (function_key m) s p r h q =
    let d = h.down in
    let c = h.consumed in
    let e : m ≡ n → p ≡ true = λ z. q (ap function_key z) in
    elim (ℕ_discrete n m) [
      | yes z ↦
          let t = e (sym z) in
          let u = ap s.function_keys z in record { down = ground arith; consumed = ground arith }
      | no z ↦ record { down = ground arith; consumed = ground arith }
    ]
step-IsHeld left_control_key b j s p r h q = absurd (cc h.down)
step-IsHeld right_control_key b j s p r h q = absurd (cc h.down)
step-IsHeld left_alt_key b j s p r h q = absurd (cc h.down)
step-IsHeld right_alt_key b j s p r h q = absurd (cc h.down)
step-IsHeld other_key b j s p r h q = absurd (cc h.down)

consumed_held :
    (k : KeyKind) (b : Bool) (s : Shortcuts) (pressed repeat : Bool)
    → IsHeld k b s
    → ((apply_kind k s pressed repeat).1.consumed ≡ b)
      × ((apply_kind k s pressed repeat).1.type ≡ no_shortcut)
unfolding apply_kind apply_backspace apply_function_key
consumed_held backspace_key b s p r h = let d = h.down in let c = h.consumed in ground arith
consumed_held (function_key n) b s p r h = let d = h.down in let c = h.consumed in ground arith
consumed_held left_control_key b s p r h = absurd (cc h.down)
consumed_held right_control_key b s p r h = absurd (cc h.down)
consumed_held left_alt_key b s p r h = absurd (cc h.down)
consumed_held right_alt_key b s p r h = absurd (cc h.down)
consumed_held other_key b s p r h = absurd (cc h.down)

-- Every event of the key up to its release is consumed exactly if `b` says so, and asks for
-- nothing.
abbrev pub Held : KeyKind → Bool → Shortcuts → List KeyEvent → Type 0
Held k b s [] = Unit {0}
Held k b s (e ∷ es) =
    (kind_of e.xkb_key_name ≡ k
      → ((apply_key s e).1.consumed ≡ b) × ((apply_key s e).1.type ≡ no_shortcut))
    × ((kind_of e.xkb_key_name ≡ k → e.pressed ≡ true) → Held k b (apply_key s e).0 es)

run-Held :
    (k : KeyKind) (b : Bool) (s : Shortcuts) (es : List KeyEvent) → IsHeld k b s → Held k b s es
unfolding apply_key
run-Held k b s [] h = tt
run-Held k b s (e ∷ es) h = (
  λ q.
      subst
        (λ j.
          ((apply_kind j s e.pressed e.repeat).1.consumed ≡ b)
          × ((apply_kind j s e.pressed e.repeat).1.type ≡ no_shortcut))
        (sym q) (consumed_held k b s e.pressed e.repeat h),
  λ q.
      run-Held k b (apply_key s e).0 es
        (step-IsHeld k b (kind_of e.xkb_key_name) s e.pressed e.repeat h q),
)

-- What a fresh press does.
record Pressed (k : KeyKind) (s : Shortcuts) (r : Shortcuts × Shortcut) : Type 0 where
  acts : (r.1.type ≢ no_shortcut) ↔ (chord s ≡ true)
  consumed : r.1.consumed ≡ chord s
  held : IsHeld k (chord s) r.0

press_kind :
    (k : KeyKind) (s : Shortcuts)
    → IsValid s
    → IsChordKey k
    → is_down k s ≡ false
    → Pressed k s (apply_kind k s true false)
unfolding apply_kind apply_backspace apply_function_key
press_kind backspace_key s v c d =
    let w = v.backspace in
    elim (Bool-cases (chord s)) [
      | inl t ↦ record {
        acts = ground arith;
        consumed = ground arith;
        held = record { down = ground arith; consumed = ground arith };
      }
      | inr t ↦ record {
        acts = ground arith;
        consumed = ground arith;
        held = record { down = ground arith; consumed = ground arith };
      }
    ]
press_kind (function_key n) s v c d =
    let w = v.function n in
    elim (Bool-cases (chord s)) [
      | inl t ↦ record {
        acts = ground arith;
        consumed = ground arith;
        held = record { down = ground arith; consumed = ground arith };
      }
      | inr t ↦ record {
        acts = ground arith;
        consumed = ground arith;
        held = record { down = ground arith; consumed = ground arith };
      }
    ]
press_kind left_control_key s v c d = absurd c
press_kind right_control_key s v c d = absurd c
press_kind left_alt_key s v c d = absurd c
press_kind right_alt_key s v c d = absurd c
press_kind other_key s v c d = absurd c

fresh :
    (s : Shortcuts) (e : KeyEvent)
    → e.pressed ≡ true
    → e.repeat ≡ false
    → Pressed (kind_of e.xkb_key_name) s (apply_kind (kind_of e.xkb_key_name) s true false)
    → Pressed (kind_of e.xkb_key_name) s (apply_key s e)
unfolding apply_key
fresh s e p r f = rw (p, r) f

number_from-le :
    (key : List ℕ) (rest : List (List ℕ)) (index : ℕ)
    → number_from key rest index ≤ index + length rest
unfolding number_from
number_from-le key [] index = omega arith
number_from-le key (name ∷ rest) index = ground (arith, number_from-le key rest (index + 1))

function_key_number-le : (key : List ℕ) → function_key_number key ≤ 12
unfolding function_key_number
function_key_number-le key = number_from-le key names 0

kind_of-function_key : (key : List ℕ) (n : ℕ) → kind_of key ≡ function_key n → (1 ≤ n) × (n ≤ 12)
unfolding kind_of
kind_of-function_key key n e = ground (arith, function_key_number-le key)

switched :
    (k : KeyKind) (s : Shortcuts) (pressed repeat : Bool)
    → (apply_kind k s pressed repeat).1.type ≡ switch_vt
    → k ≡ function_key (apply_kind k s pressed repeat).1.vt_number
unfolding apply_kind apply_backspace apply_function_key
switched backspace_key s p r e = ground arith
switched (function_key n) s p r e = ground arith
switched left_control_key s p r e = absurd (cc e)
switched right_control_key s p r e = absurd (cc e)
switched left_alt_key s p r e = absurd (cc e)
switched right_alt_key s p r e = absurd (cc e)
switched other_key s p r e = absurd (cc e)

-- The same by the state of the modifiers, `chord`.
pub press-chord :
    (history : List KeyEvent) (e : KeyEvent) (es : List KeyEvent)
    → IsChordKey (kind_of e.xkb_key_name)
    → e.pressed ≡ true
    → e.repeat ≡ false
    → is_down (kind_of e.xkb_key_name) (run reset history) ≡ false
    → let s = run reset history in
      let r = apply_key s e in
      ((r.1.type ≢ no_shortcut) ↔ (chord s ≡ true))
      × (r.1.consumed ≡ chord s)
      × Held (kind_of e.xkb_key_name) (chord s) r.0 es
press-chord history e es c p r d =
    let s = run reset history in
    let k = kind_of e.xkb_key_name in
    let v =
      run-IsValid reset history
        (record { backspace = λ q. absurd (cc q); function = λ n q. absurd (cc q) }) in
    let f = fresh s e p r (press_kind k s v c d) in
    (f.acts, f.consumed, run-Held k (chord s) (apply_key s e).0 es f.held)

-- A switch of the virtual terminal is asked for by the function key of its number, 1 to 12.
pub switch_vt_lem :
    (s : Shortcuts) (e : KeyEvent)
    → (apply_key s e).1.type ≡ switch_vt
    → let n = (apply_key s e).1.vt_number in
      (kind_of e.xkb_key_name ≡ function_key n) × (1 ≤ n) × (n ≤ 12)
unfolding apply_key
switch_vt_lem s e t =
    let q = switched (kind_of e.xkb_key_name) s e.pressed e.repeat t in
    let b = kind_of-function_key e.xkb_key_name _ q in (q, b.0, b.1)
