-- ===== src/Desktop/Lookup.antt =====
-- What the searches of src/desktop.c find, and what its loops over the stack change.
use nix_bench.Prelude.{
  ℕ, zero, suc, ◌+◌, ◌≤◌, ◌<◌, ◌≡◌, ◌≢◌, ◌⊎◌, ◌↔◌, inl, inr, refl, sym, ap, ◌∙◌, Bool, true, false,
  List, [], ◌∷◌, arith, Bool-cases,
}
use nix_bench.Prelude.{◌==◌, ==_iff, length}
use mathlib.Core.Path.{subst}
use native.Mathlib.Decide.{ℕ_discrete}
use nix_bench.Desktop.{
  Slot, Desktop, id_none, no_slot, max_windows, find_from, has_id, find_slot_by_id, position,
  for_stack, set_slot,
}
use nix_bench.Desktop.Stack.{remove_at}

abbrev pub InStack : ℕ → List ℕ → Type 0
InStack i [] = ⊥
InStack i (j ∷ rest) = (i ≡ j) ⊎ InStack i rest

Sum_elim {ℓ} : {A B : Type 0} {C : Type ℓ} → (A → C) → (B → C) → A ⊎ B → C
Sum_elim f g (inl a) = f a
Sum_elim f g (inr b) = g b

abbrev pub Distinct : List ℕ → Type 0
Distinct [] = Unit {0}
Distinct (i ∷ rest) = ¬ InStack i rest × Distinct rest

-- What `find_from` returns: no slot and no match, or the first match.
abbrev pub Found : (ℕ → Slot) → (Slot → Bool) → ℕ → ℕ → ℕ → Type 0
Found slots test n i r =
    ((r ≡ no_slot) × ((j : ℕ) → i ≤ j → j < i + n → test (slots j) ≡ false))
    ⊎ ((i ≤ r) × (r < i + n) × (test (slots r) ≡ true))

pub find_from-Found :
    (slots : ℕ → Slot) (test : Slot → Bool) (n i : ℕ)
    → Found slots test n i (find_from slots test n i)
unfolding find_from
find_from-Found slots test zero i = inl (refl, λ j p q. absurd (omega arith))
find_from-Found slots test (suc n) i = elim (Bool-cases (test (slots i))) [
  | inl t ↦ rw t (inr (omega arith, omega arith, t))
  | inr f ↦ rw f (next f (find_from-Found slots test n (i + 1)))
]
  where
    next :
        {r : ℕ}
        → test (slots i) ≡ false
        → Found slots test n (i + 1) r
        → Found slots test (suc n) i r
    next f (inl (e, h)) = inl (e, λ j p q. skip j p q h)
      where
        skip :
            (j : ℕ)
            → i ≤ j
            → j < i + suc n
            → ((k : ℕ) → i + 1 ≤ k → k < i + 1 + n → test (slots k) ≡ false)
            → test (slots j) ≡ false
        skip j p q h = elim (ℕ_discrete i j) [
          | yes e ↦ subst (λ k. test (slots k) ≡ false) e f
          | no ne ↦ h j (omega arith) (omega arith)
        ]
    next f (inr (p, q, t)) = inr (omega arith, omega arith, t)

-- A slot index below the maximum is the slot of the id; otherwise no slot has it.
pub data FindsId (d : Desktop) (id : ℕ) (r : ℕ) : Type 0 where
  hit :
      r < max_windows → (d.slots r).occupied ≡ true → (d.slots r).id ≡ id → id ≢ 0 → FindsId d id r
  miss :
      r ≡ no_slot
      → (id ≢ 0 → (j : ℕ) → j < max_windows → (d.slots j).occupied ≡ true → (d.slots j).id ≢ id)
      → FindsId d id r

has_id_iff : (id : ℕ) (s : Slot) → (has_id id s ≡ true) ↔ ((s.occupied ≡ true) × (s.id ≡ id))
has_id_iff id s = ground arith

Found-FindsId :
    (d : Desktop) (id r : ℕ) → id ≢ 0 → Found d.slots (has_id id) max_windows 0 r → FindsId d id r
Found-FindsId d id r ne (inl (e, h)) =
    miss e λ _ j lt o q. cc (h j (omega arith) (omega arith), (has_id_iff id (d.slots j)).1 (o, q))
Found-FindsId d id r ne (inr (p, q, t)) =
    let (o, e) = (has_id_iff id (d.slots r)).0 t in hit (omega arith) o e ne

pub find_slot_by_id-FindsId : (d : Desktop) (id : ℕ) → FindsId d id (find_slot_by_id d id)
unfolding find_slot_by_id
find_slot_by_id-FindsId d id = elim (Bool-cases (id == id_none)) [
  | inl z ↦ rw z (miss refl (λ ne. absurd (ne ((==_iff id id_none).0 z))))
  | inr nz ↦ rw nz (
      Found-FindsId d id _ (λ e. cc (nz, (==_iff id id_none).1 e))
        (find_from-Found d.slots (has_id id) max_windows 0))
]

pub position_lt : (i : ℕ) (st : List ℕ) → InStack i st → position i st < length st
unfolding position
position_lt i [] h = elim h [ ]
position_lt i (j ∷ st) (inl e) = ground arith
position_lt i (j ∷ st) (inr h) = ground (arith, position_lt i st h)

pub position_missing : (i : ℕ) (st : List ℕ) → ¬ InStack i st → position i st ≡ length st
unfolding position
position_missing i [] h = refl
position_missing i (j ∷ st) h =
    let ne : i ≢ j = λ e. h (inl e) in ground (arith, position_missing i st (λ k. h (inr k)))

pub remove_at-InStack : (j : ℕ) (st : List ℕ) (n : ℕ) → InStack j (remove_at st n) → InStack j st
unfolding remove_at
remove_at-InStack j [] n h = h
remove_at-InStack j (s ∷ st) zero h = inr h
remove_at-InStack j (s ∷ st) (suc n) (inl e) = inl e
remove_at-InStack j (s ∷ st) (suc n) (inr h) = inr (remove_at-InStack j st n h)

pub remove_at-Distinct : (st : List ℕ) (n : ℕ) → Distinct st → Distinct (remove_at st n)
unfolding remove_at
remove_at-Distinct [] n h = tt
remove_at-Distinct (s ∷ st) zero h = h.1
remove_at-Distinct (s ∷ st) (suc n) h =
    (λ k. h.0 (remove_at-InStack s st n k), remove_at-Distinct st n h.1)

-- The stack without the slot `i`.
abbrev pub removed : ℕ → List ℕ → List ℕ
removed i st = remove_at st (position i st)

pub removed_here : (i s : ℕ) (st : List ℕ) → (s == i) ≡ true → removed i (s ∷ st) ≡ st
unfolding remove_at position
removed_here i s st e = rw e

pub removed_there :
    (i s : ℕ) (st : List ℕ) → (s == i) ≡ false → removed i (s ∷ st) ≡ s ∷ removed i st
unfolding remove_at position
removed_there i s st e = rw e

pub removed-not_InStack : (i : ℕ) (st : List ℕ) → Distinct st → ¬ InStack i (removed i st)
removed-not_InStack i [] d h = remove_at-InStack i [] (position i []) h
removed-not_InStack i (s ∷ st) d h = elim (Bool-cases (s == i)) [
  | inl e ↦
      let k = subst (InStack i) (removed_here i s st e) h in
      d.0 (subst (λ j. InStack j st) (sym ((==_iff s i).0 e)) k)
  | inr e ↦ elim (subst (InStack i) (removed_there i s st e) h) [
    | inl q ↦ absurd (cc (e, (==_iff s i).1 (sym q)))
    | inr k ↦ removed-not_InStack i st d.1 k
  ]
]

pub removed-InStack : (i j : ℕ) (st : List ℕ) → j ≢ i → InStack j st → InStack j (removed i st)
removed-InStack i j [] ne h = elim h [ ]
removed-InStack i j (s ∷ st) ne h = elim (Bool-cases (s == i)) [
  | inl e ↦
      subst (InStack j) (sym (removed_here i s st e))
        (Sum_elim (λ q. absurd (ne (q ∙ (==_iff s i).0 e))) (λ k. k) h)
  | inr e ↦
      subst (InStack j) (sym (removed_there i s st e))
        (Sum_elim inl (λ k. inr (removed-InStack i j st ne k)) h)
]

module _ (f : Slot → Slot) where
  -- The loop leaves a slot that is not in the stack alone.
  pub for_stack_other :
      (st : List ℕ) (slots : ℕ → Slot) (j : ℕ) → ¬ InStack j st → for_stack f st slots j ≡ slots j
  unfolding for_stack
  for_stack_other [] slots j h = refl
  for_stack_other (i ∷ st) slots j h =
      let ne : j ≢ i = λ e. h (inl e) in
      for_stack_other st (set_slot slots i (f (slots i))) j (λ k. h (inr k)) ∙ ground arith

  -- A slot that the stack lists once is changed by the function, once.
  pub for_stack_listed :
      (st : List ℕ) (slots : ℕ → Slot) (j : ℕ)
      → Distinct st
      → InStack j st
      → for_stack f st slots j ≡ f (slots j)
  unfolding for_stack
  for_stack_listed [] slots j d h = elim h [ ]
  for_stack_listed (i ∷ st) slots j d (inl e) =
      for_stack_other st (set_slot slots i (f (slots i))) j
        (λ k. d.0 (subst (λ m. InStack m st) e k))
      ∙ ground arith
  for_stack_listed (i ∷ st) slots j d (inr h) =
      let ne : j ≢ i = λ e. d.0 (subst (λ m. InStack m st) e h) in
      for_stack_listed st (set_slot slots i (f (slots i))) j d.1 h ∙ ap f (ground arith)
