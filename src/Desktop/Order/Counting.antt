-- ===== src/Desktop/Order/Counting.antt =====
-- Counting the elements of a list of numbers: for the capacity of src/desktop.c.
use nix_bench.Prelude.{
  ℕ, zero, suc, ◌<◌, ◌≤◌, ◌≡◌, ◌≢◌, ◌⊎◌, inl, inr, refl, sym, ap, false, List, [], ◌∷◌, arith,
  Bool-cases, ◌==◌, ==_iff, length, map,
}
use mathlib.Core.Path.{subst}
use native.Mathlib.Decide.{ℕ_discrete}
use nix_bench.Desktop.{position}
use nix_bench.Desktop.Lookup.{
  InStack, Distinct, removed, removed_here, removed_there, removed-InStack, removed-not_InStack,
  remove_at-InStack, remove_at-Distinct,
}

length-removed : (i : ℕ) (st : List ℕ) → InStack i st → suc (length (removed i st)) ≡ length st
length-removed i [] h = absurd h
length-removed i (s ∷ st) h = elim (Bool-cases (s == i)) [
  | inl e ↦ rw (removed_here i s st e)
  | inr e ↦ rw (removed_there i s st e) (ap suc (length-removed i st (later h e)))
]
  where
    later : (i ≡ s) ⊎ InStack i st → s == i ≡ false → InStack i st
    later (inl q) e = absurd (cc (e, (==_iff s i).1 (sym q)))
    later (inr k) e = k

InStack-cases : (i : ℕ) (st : List ℕ) → InStack i st ⊎ ¬ InStack i st
InStack-cases i [] = inr (λ h. h)
InStack-cases i (s ∷ st) = elim (ℕ_discrete i s) [
  | yes e ↦ inl (inl e)
  | no ne ↦ elim (InStack-cases i st) [
    | inl h ↦ inl (inr h)
    | inr n ↦ inr (λ h. elim h [ inl e ↦ ne e | inr k ↦ n k ])
  ]
]

-- A list with all numbers below `n` has at least `n` elements.
pub all_below : (n : ℕ) (xs : List ℕ) → ((k : ℕ) → k < n → InStack k xs) → n ≤ length xs
all_below zero xs h = omega arith
all_below (suc n) xs h =
    let r =
      all_below n (removed n xs)
        (λ k lt. removed-InStack n k xs (λ e. absurd (omega (arith, e))) (h k (omega arith))) in
    omega (arith, r, length-removed n xs (h n (omega arith)))

-- A list of distinct numbers below `n` has at most `n` elements.
pub only_below :
    (n : ℕ) (xs : List ℕ) → Distinct xs → ((k : ℕ) → InStack k xs → k < n) → length xs ≤ n
only_below zero [] d h = omega arith
only_below zero (x ∷ xs) d h = absurd (omega (arith, h x (inl refl)))
only_below (suc n) xs d h = elim (InStack-cases n xs) [
  | inl m ↦
      let r = only_below n (removed n xs) (remove_at-Distinct xs (position n xs) d) (λ k g.
        smaller k (h k (remove_at-InStack k xs (position n xs) g))
          (λ e. removed-not_InStack n xs d (subst (λ j. InStack j (removed n xs)) e g))) in
      omega (arith, r, length-removed n xs m)
  | inr none ↦
      let r =
        only_below n xs d (λ k g. smaller k (h k g) (λ e. none (subst (λ j. InStack j xs) e g))) in
      omega (arith, r)
]
  where
    smaller : (k : ℕ) → k < suc n → k ≢ n → k < n
    smaller k lt ne = omega (arith, ne)

pub InStack-map : (f : ℕ → ℕ) (x : ℕ) (xs : List ℕ) → InStack x xs → InStack (f x) (map f xs)
InStack-map f x [] h = h
InStack-map f x (y ∷ xs) (inl e) = inl (ap f e)
InStack-map f x (y ∷ xs) (inr h) = inr (InStack-map f x xs h)

pub length-map : (f : ℕ → ℕ) (xs : List ℕ) → length (map f xs) ≡ length xs
length-map f [] = refl
length-map f (x ∷ xs) = ap suc (length-map f xs)
