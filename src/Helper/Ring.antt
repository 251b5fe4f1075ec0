-- ===== src/Helper/Ring.antt =====
-- The bytes in use of the ring buffer of src/privsep_helper.c, as a list from its front.
use nix_bench.Prelude.{
  ltb→lt, not_ltb→le, ◌⊎◌, ℕ, zero, suc, ◌+◌, ◌-◌, ◌%◌, ◌≤◌, ◌<◌, ◌≡◌, refl, sym, ap, ◌∙◌, List, [],
  ◌∷◌, ◌++◌, ltb, take, drop, length, length-drop, length-take, drop-append, take-append_le,
  take_all, arith, Bool-cases, inl, inr,
}
use nix_bench.Privsep.Bytes.{byte_at}
use nix_bench.Helper.{outbound_capacity, copy_in}
use nix_bench.Helper.Outbound.{span_from}

-- `n` bytes from a position on, around the end of the buffer.
unfoldable pub ring : (ℕ → ℕ) → ℕ → ℕ → List ℕ
ring buffer position zero = []
ring buffer position (suc n) = buffer (position % outbound_capacity) ∷ ring buffer (suc position) n

pub length-ring : (b : ℕ → ℕ) (p n : ℕ) → length (ring b p n) ≡ n
unfolding ring
length-ring b p zero = refl
length-ring b p (suc n) = ap suc (length-ring b (suc p) n)

pub ring-append : (b : ℕ → ℕ) (p m n : ℕ) → ring b p (m + n) ≡ ring b p m ++ ring b (p + m) n
unfolding ring
ring-append b p zero n =
    let e : zero + n ≡ n = omega arith in let f : p + zero ≡ p = omega arith in rw (e, f)
ring-append b p (suc m) n =
    let e : suc m + n ≡ suc (m + n) = omega arith in
    let f : p + suc m ≡ suc p + m = omega arith in
    rw (e, f) (ap (◌∷◌ (b (p % outbound_capacity))) (ring-append b (suc p) m n))

drop_front : (n : ℕ) (xs ys : List ℕ) → length xs ≡ n → drop n (xs ++ ys) ≡ ys
drop_front n xs ys e = ap (λ (k : ℕ). drop k (xs ++ ys)) (omega arith) ∙ drop-append xs ys 0

take_front : (n : ℕ) (xs ys : List ℕ) → length xs ≡ n → take n (xs ++ ys) ≡ xs
take_front n xs ys e = take-append_le n xs ys (omega arith) ∙ take_all n xs e

pub ring-drop :
    (b : ℕ → ℕ) (p size n : ℕ) → n ≤ size → drop n (ring b p size) ≡ ring b (p + n) (size - n)
ring-drop b p size n k =
    let e : n + (size - n) ≡ size = omega arith in
    let split = rw e at (ring-append b p n (size - n)) in
    rw split (drop_front n (ring b p n) (ring b (p + n) (size - n)) (length-ring b p n))

pub ring-take : (b : ℕ → ℕ) (p size n : ℕ) → n ≤ size → take n (ring b p size) ≡ ring b p n
ring-take b p size n k =
    let e : n + (size - n) ≡ size = omega arith in
    let split = rw e at (ring-append b p n (size - n)) in
    rw split (take_front n (ring b p n) (ring b (p + n) (size - n)) (length-ring b p n))

pub ring_same :
    (b c : ℕ → ℕ) (p q n : ℕ)
    → ((i : ℕ) → i < n → b ((p + i) % outbound_capacity) ≡ c ((q + i) % outbound_capacity))
    → ring b p n ≡ ring c q n
unfolding ring
ring_same b c p q zero same = refl
ring_same b c p q (suc n) same =
    let at : (m k : ℕ)
        → m ≡ k
        → (d : ℕ → ℕ) → d (m % outbound_capacity) ≡ d (k % outbound_capacity) =
      λ m k e d. ap (λ (t : ℕ). d (t % outbound_capacity)) e in
    let here = at p (p + 0) (omega arith) b ∙ same 0 (omega arith) ∙ at (q + 0) q (omega arith) c in
    let rest = ring_same b c (suc p) (suc q) n (λ i k.
      at (suc p + i) (p + suc i) (omega arith) b
      ∙ same (suc i) (omega arith)
      ∙ at (q + suc i) (suc q + i) (omega arith) c) in
    cc (here, rest)

pub ring_bytes :
    (b : ℕ → ℕ) (p : ℕ) (xs : List ℕ)
    → ((i : ℕ) → i < length xs → b ((p + i) % outbound_capacity) ≡ byte_at xs i)
    → ring b p (length xs) ≡ xs
unfolding ring byte_at
ring_bytes b p [] same = refl
ring_bytes b p (x ∷ xs) same =
    let at : (m k : ℕ) → m ≡ k → b (m % outbound_capacity) ≡ b (k % outbound_capacity) =
      λ m k e. ap (λ (t : ℕ). b (t % outbound_capacity)) e in
    let here = at p (p + 0) (omega arith) ∙ same 0 (omega arith) in
    let rest =
      ring_bytes b (suc p) xs
        (λ i k. at (suc p + i) (p + suc i) (omega arith) ∙ same (suc i) (omega arith)) in
    cc (here, rest)

-- The position counts around the end.
pub ring-mod : (b : ℕ → ℕ) (p n : ℕ) → ring b (p % outbound_capacity) n ≡ ring b p n
ring-mod b p n = ring_same b b (p % outbound_capacity) p n (λ i k. ap b (omega arith))

-- A span that does not reach the end of the buffer is a part of the ring.
pub span-ring : (b : ℕ → ℕ) (p n : ℕ) → p + n ≤ outbound_capacity → span_from b p n ≡ ring b p n
unfolding ring span_from
span-ring b p zero h = refl
span-ring b p (suc n) h =
    let e : p % outbound_capacity ≡ p = omega arith in
    let rest = span-ring b (suc p) n (omega arith) in cc (ap b e, rest)

byte_at-take : (n : ℕ) (xs : List ℕ) (i : ℕ) → i < n → byte_at (take n xs) i ≡ byte_at xs i
unfolding byte_at
byte_at-take zero xs i h = absurd (omega arith)
byte_at-take (suc n) [] i h = refl
byte_at-take (suc n) (x ∷ xs) zero h = refl
byte_at-take (suc n) (x ∷ xs) (suc i) h = byte_at-take n xs i (omega arith)

byte_at-drop : (n : ℕ) (xs : List ℕ) (i : ℕ) → byte_at (drop n xs) i ≡ byte_at xs (n + i)
unfolding byte_at
byte_at-drop zero xs i = ap (byte_at xs) (omega arith)
byte_at-drop (suc n) [] i = refl
byte_at-drop (suc n) (x ∷ xs) i =
    let e : suc n + i ≡ suc (n + i) = omega arith in
    byte_at-drop n xs i ∙ sym (ap (byte_at (x ∷ xs)) e)

copy_in_inside :
    (b : ℕ → ℕ) (p : ℕ) (xs : List ℕ) (j : ℕ)
    → p ≤ j
    → j < p + length xs
    → copy_in b p xs j ≡ byte_at xs (j - p)
unfolding copy_in
copy_in_inside b p xs j h k = ground arith

copy_in_outside :
    (b : ℕ → ℕ) (p : ℕ) (xs : List ℕ) (j : ℕ)
    → (j < p) ⊎ (p + length xs ≤ j)
    → copy_in b p xs j ≡ b j
unfolding copy_in
copy_in_outside b p xs j (inl h) = ground arith
copy_in_outside b p xs j (inr h) = ground arith

-- A store of bytes at the end of those in use, split at the end of the buffer.
module _ (b : ℕ → ℕ) (head size : ℕ) (wire : List ℕ) (first : ℕ) where
  abbrev pub stored : ℕ → ℕ
  stored =
      copy_in (copy_in b ((head + size) % outbound_capacity) (take first wire)) 0 (drop first wire)

  module _ (fits : size + length wire ≤ outbound_capacity) (split : first ≤ length wire)
      (room : first ≤ outbound_capacity - (head + size) % outbound_capacity)
      (wraps : (first ≡ length wire)
        ⊎ (first ≡ outbound_capacity - (head + size) % outbound_capacity)) where
    -- The places of the two parts of the store.
    last_part :
        (i : ℕ)
        → i < first
        → (head + size + i) % outbound_capacity ≡ (head + size) % outbound_capacity + i
        → 0 + length (drop first wire) ≤ (head + size + i) % outbound_capacity
    last_part i h e = elim wraps [
      | inl w ↦ omega (arith, length-drop first wire)
      | inr w ↦ omega (arith, length-drop first wire)
    ]

    wrapped :
        (i : ℕ) → i < length wire → first ≤ i → (head + size + i) % outbound_capacity ≡ i - first
    wrapped i h k = elim wraps [ inl w ↦ absurd (omega arith) | inr w ↦ omega arith ]

    not_last : (i : ℕ) → i < size → 0 + length (drop first wire) ≤ (head + i) % outbound_capacity
    not_last i h = elim wraps [
      | inl w ↦ omega (arith, length-drop first wire)
      | inr w ↦ omega (arith, length-drop first wire)
    ]

    not_first :
        (i : ℕ)
        → i < size
        → ((head + i) % outbound_capacity < (head + size) % outbound_capacity)
          ⊎ ((head + size) % outbound_capacity + length (take first wire)
              ≤ (head + i) % outbound_capacity)
    not_first i h =
        elim (Bool-cases
          (ltb ((head + i) % outbound_capacity) ((head + size) % outbound_capacity))) [
            | inl before ↦ inl (ltb→lt _ _ before)
            | inr after ↦
                let k = not_ltb→le _ _ after in inr (omega (arith, length-take first wire split))
          ]

    pub stored_new :
        (i : ℕ) → i < length wire → stored ((head + size + i) % outbound_capacity) ≡ byte_at wire i
    stored_new i h =
        let tail = (head + size) % outbound_capacity in
        let j = (head + size + i) % outbound_capacity in
        let taken = length-take first wire split in
        let dropped = length-drop first wire in
        elim (Bool-cases (ltb i first)) [
          | inl before ↦
              let k : i < first = ltb→lt _ _ before in
              let e : j ≡ tail + i = omega arith in
              copy_in_outside (copy_in b tail (take first wire)) 0 (drop first wire) j
                (inr (last_part i k e))
              ∙ copy_in_inside b tail (take first wire) j (omega arith) (omega (arith, taken))
              ∙ ap (byte_at (take first wire)) (omega arith)
              ∙ byte_at-take first wire i k
          | inr after ↦
              let k : first ≤ i = not_ltb→le _ _ after in
              let e : j ≡ i - first = wrapped i h k in
              copy_in_inside (copy_in b tail (take first wire)) 0 (drop first wire) j (omega arith)
                (omega (arith, dropped))
              ∙ byte_at-drop first wire (j - 0)
              ∙ ap (byte_at wire) (omega arith)
        ]

    pub stored_old :
        (i : ℕ)
        → i < size
        → stored ((head + i) % outbound_capacity) ≡ b ((head + i) % outbound_capacity)
    stored_old i h =
        let tail = (head + size) % outbound_capacity in
        let j = (head + i) % outbound_capacity in
        copy_in_outside (copy_in b tail (take first wire)) 0 (drop first wire) j
          (inr (not_last i h))
        ∙ copy_in_outside b tail (take first wire) j (not_first i h)
