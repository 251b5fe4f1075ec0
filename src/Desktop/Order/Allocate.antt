-- ===== src/Desktop/Order/Allocate.antt =====
-- `allocate_id` and `find_free_slot` of src/desktop.c: new ids and free slots.
use nix_bench.Prelude.{
  ℕ, zero, suc, ◌+◌, ◌<◌, ◌≡◌, ◌≢◌, inl, inr, refl, sym, ◌∙◌, Bool, true, false, not, ◌&&◌, arith,
  Bool-cases,
}
use nix_bench.Prelude.{◌==◌}
use nix_bench.Desktop.{
  Desktop, id_none, no_slot, max_windows, is_free, find_free_slot, find_slot_by_id, allocate_loop,
  allocate_id, succ_id,
}
use nix_bench.Desktop.Lookup.{Found, find_from-Found}

-- What `allocate_id` gives: an id that no slot has, or none; only `next_id` moves on.
pub record IsAllocated (d : Desktop) (r : ℕ × Desktop) : Type 0 where
  pub same : r.1 ≡ record d { next_id = r.1.next_id }
  pub fresh : r.0 ≢ id_none → find_slot_by_id d r.0 ≡ no_slot

pub taken :
    (d : Desktop) (k id : ℕ) → find_slot_by_id (record d { next_id = k }) id ≡ find_slot_by_id d id
unfolding find_slot_by_id
taken d k id = refl

is_found : (b : Bool) (k : ℕ) → not b && k == no_slot ≡ true → k ≡ no_slot
is_found b k t = ground arith

allocate_loop-IsAllocated : (n : ℕ) (d : Desktop) → IsAllocated d (allocate_loop n d)
unfolding allocate_loop
allocate_loop-IsAllocated zero d = record { same = refl; fresh = λ ne. absurd (ne refl) }
allocate_loop-IsAllocated (suc n) d =
    let d' = record d { next_id = succ_id d.next_id } in
    let rest = allocate_loop-IsAllocated n d' in
    elim (Bool-cases (not (d.next_id == id_none) && find_slot_by_id d' d.next_id == no_slot)) [
      | inl t ↦ rw t (record {
        same = refl;
        fresh =
            λ _. sym (taken d (succ_id d.next_id) d.next_id) ∙ is_found (d.next_id == id_none) _ t;
      })
      | inr f ↦ rw f (record {
        same = rest.same;
        fresh = λ ne. sym (taken d (succ_id d.next_id) _) ∙ rest.fresh ne;
      })
    ]

pub allocate_id-IsAllocated : (d : Desktop) → IsAllocated d (allocate_id d)
unfolding allocate_id
allocate_id-IsAllocated d = allocate_loop-IsAllocated (max_windows + 1) d

-- A free slot, or none and every slot is occupied.
pub data FindsFree (d : Desktop) (r : ℕ) : Type 0 where
  free : r < max_windows → (d.slots r).occupied ≡ false → FindsFree d r
  full : r ≡ no_slot → ((j : ℕ) → j < max_windows → (d.slots j).occupied ≡ true) → FindsFree d r

pub find_free_slot-FindsFree : (d : Desktop) → FindsFree d (find_free_slot d)
unfolding find_free_slot
find_free_slot-FindsFree d = finds (find_from-Found d.slots is_free max_windows 0)
  where
    occupied_by : (j : ℕ) → is_free (d.slots j) ≡ false → (d.slots j).occupied ≡ true
    occupied_by j e = ground arith

    finds : {r : ℕ} → Found d.slots is_free max_windows 0 r → FindsFree d r
    finds (inl (e, h)) = full e (λ j lt. occupied_by j (h j (omega arith) (omega arith)))
    finds (inr (p, q, t)) = free (omega arith) (ground arith)
