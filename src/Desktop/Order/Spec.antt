-- ===== src/Desktop/Order/Spec.antt =====
-- The abstract stacking order: a list of window ids, and how it meets the desktop's stack.
use nix_bench.Prelude.{
  ℕ, ◌<◌, ◌≡◌, ◌≢◌, ◌↔◌, inl, inr, refl, sym, ap, ◌∙◌, Bool, true, false, ◌||◌, List, [], ◌∷◌, ◌++◌,
  arith, Bool-cases,
}
use nix_bench.Prelude.{◌==◌, ==_iff, map, if◌then◌else◌}
use mathlib.Core.Path.{subst, fun_ext}
use nix_bench.Desktop.{Slot, Desktop, max_windows, find_slot_by_id}
use nix_bench.Desktop.Stack.{remove_at}
use nix_bench.Desktop.Lookup.{
  InStack, hit, miss, find_slot_by_id-FindsId, removed, removed_here, removed_there,
}
use nix_bench.Desktop.Invariant.{IsStacked, SameShape}

-- The ids of the stacked windows, backmost first.
abbrev pub ids_of : (ℕ → Slot) → List ℕ → List ℕ
ids_of slots stack = map (λ i. (slots i).id) stack

abbrev pub ids : Desktop → List ℕ
ids d = ids_of d.slots d.stack

-- Whether a window has the id.
abbrev pub member : ℕ → List ℕ → Bool
member id [] = false
member id (x ∷ xs) = x == id || member id xs

-- The order without the first window of the id.
abbrev pub drop_id : ℕ → List ℕ → List ℕ
drop_id id [] = []
drop_id id (x ∷ xs) = if x == id then xs else x ∷ drop_id id xs

-- The order with the window of the id in front.
abbrev pub to_front : ℕ → List ℕ → List ℕ
to_front id xs = if member id xs then drop_id id xs ++ id ∷ [] else xs

module _ (slots : ℕ → Slot) where
  member_listed :
      (stack : List ℕ) (i : ℕ) → InStack i stack → member (slots i).id (ids_of slots stack) ≡ true
  member_listed [] i h = elim h [ ]
  member_listed (s ∷ stack) i (inl e) = rw e (ground arith)
  member_listed (s ∷ stack) i (inr h) = ground (arith, member_listed stack i h)

  member_missing :
      (stack : List ℕ) (id : ℕ)
      → ((i : ℕ) → InStack i stack → (slots i).id ≢ id)
      → member id (ids_of slots stack) ≡ false
  member_missing [] id h = refl
  member_missing (s ∷ stack) id h =
      ground (arith, h s (inl refl), member_missing stack id (λ i k. h i (inr k)))

  -- Where only slot i has the id, removing the slot removes the id.
  ids-removed :
      (stack : List ℕ) (i id : ℕ)
      → ((j : ℕ) → InStack j stack → (j ≡ i) ↔ ((slots j).id ≡ id))
      → ids_of slots (removed i stack) ≡ drop_id id (ids_of slots stack)
  unfolding remove_at
  ids-removed [] i id h = refl
  ids-removed (s ∷ stack) i id h = elim (Bool-cases (s == i)) [
    | inl e ↦
        rw (removed_here i s stack e)
          (let q = (h s (inl refl)).0 ((==_iff s i).0 e) in ground (arith, q))
    | inr e ↦ rw (removed_there i s stack e) (
        let ne : (slots s).id ≢ id = λ q. cc (e, (==_iff s i).1 ((h s (inl refl)).1 q)) in
        ground (arith, ne, ids-removed stack i id (λ j k. h j (inr k))))
  ]

-- A found slot is in the stack and is the only one of its id; a missing id is no member.
pub data Located (d : Desktop) (id : ℕ) : Type 0 where
  at :
      (i : ℕ)
      → find_slot_by_id d id ≡ i
      → i < max_windows
      → InStack i d.stack
      → (d.slots i).id ≡ id
      → member id (ids d) ≡ true
      → ids_of d.slots (removed i d.stack) ≡ drop_id id (ids d)
      → Located d id
  nowhere : find_slot_by_id d id ≡ max_windows → member id (ids d) ≡ false → Located d id

pub located : (d : Desktop) (id : ℕ) → IsStacked d.slots d.stack → Located d id
located d id v = elim (find_slot_by_id-FindsId d id) [
  | hit lt o e ne ↦
      let i = find_slot_by_id d id in
      let h = v.stacked i lt o in
      at i refl lt h e (subst (λ k. member k (ids d) ≡ true) e (member_listed d.slots d.stack i h))
        (ids-removed d.slots d.stack i id (λ j k. (λ q. rw q e, λ q. v.ids j i k h (q ∙ sym e))))
  | miss e none_has ↦ nowhere e (
      member_missing d.slots d.stack id
        (λ i h q. none_has (λ z. v.named i h (q ∙ z)) i (v.in_range i h) (v.occupied i h) q))
]

pub ids-SameShape :
    (slots slots' : ℕ → Slot) (stack : List ℕ)
    → SameShape slots slots'
    → ids_of slots' stack ≡ ids_of slots stack
ids-SameShape slots slots' stack s = ap (λ f. map f stack) (fun_ext s.id)
