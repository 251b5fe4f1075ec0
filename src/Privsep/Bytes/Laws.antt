-- ===== src/Privsep/Bytes/Laws.antt =====
-- The loads of src/privsep_protocol.c on what the stores wrote.
use nix_bench.Prelude.{
  ℕ, ◌+◌, ◌*◌, ◌/◌, ◌%◌, ◌^◌, ◌-◌, ◌<◌, ◌≡◌, refl, bit_or, bit_or_disjoint, List, ◌++◌, ℤ, pos,
  negsuc, -ℤ_parts, arith,
}
use nix_bench.Privsep.Bytes.{
  store_u16, store_u32, store_u64, load_u16, load_u32, load_u64, load_i32, store_i32,
}

abbrev pub IsU16 : ℕ → Type 0
IsU16 v = v < 2 ^ 16

abbrev pub IsU32 : ℕ → Type 0
IsU32 v = v < 2 ^ 32

abbrev pub IsU64 : ℕ → Type 0
IsU64 v = v < 2 ^ 64

abbrev pub IsI32 : ℤ → Type 0
IsI32 (pos n) = n < 2 ^ 31
IsI32 (negsuc n) = n < 2 ^ 31

or_above : (k q x y : ℕ) → x ≡ q * 2 ^ k → y < 2 ^ k → bit_or x y ≡ x + y
or_above k q x y e h = rw e (bit_or_disjoint k q y h)

-- Four bytes are one number.
join_bytes :
    (a b c d : ℕ)
    → a < 2 ^ 8
    → b < 2 ^ 8
    → c < 2 ^ 8
    → d < 2 ^ 8
    → bit_or (bit_or (bit_or (a * 2 ^ 24) (b * 2 ^ 16)) (c * 2 ^ 8)) d
      ≡ a * 2 ^ 24 + b * 2 ^ 16 + c * 2 ^ 8 + d
join_bytes a b c d ha hb hc hd =
    let first = or_above 24 a (a * 2 ^ 24) (b * 2 ^ 16) refl (omega arith) in
    let second =
      or_above 16 (a * 2 ^ 8 + b) (a * 2 ^ 24 + b * 2 ^ 16) (c * 2 ^ 8) (omega arith)
        (omega arith) in
    let third =
      or_above 8 (a * 2 ^ 16 + b * 2 ^ 8 + c) (a * 2 ^ 24 + b * 2 ^ 16 + c * 2 ^ 8) d (omega arith)
        (omega arith) in
    rw (first, second) third

pub load_u16-store_u16 : (v : ℕ) (rest : List ℕ) → IsU16 v → load_u16 (store_u16 v ++ rest) ≡ v
unfolding load_u16 store_u16
load_u16-store_u16 v rest h =
    omega (arith, bit_or_disjoint 8 (v / 2 ^ 8 % 2 ^ 8) (v % 2 ^ 8) (omega arith))

pub load_u32-store_u32 : (v : ℕ) (rest : List ℕ) → IsU32 v → load_u32 (store_u32 v ++ rest) ≡ v
unfolding load_u32 store_u32
load_u32-store_u32 v rest h = omega (
  arith,
  join_bytes (v / 2 ^ 24 % 2 ^ 8) (v / 2 ^ 16 % 2 ^ 8) (v / 2 ^ 8 % 2 ^ 8) (v % 2 ^ 8) (omega arith)
      (omega arith) (omega arith) (omega arith),
)

pub load_u64-store_u64 : (v : ℕ) (rest : List ℕ) → IsU64 v → load_u64 (store_u64 v ++ rest) ≡ v
unfolding load_u64 store_u64 store_u32
load_u64-store_u64 v rest h =
    let hi =
      load_u32-store_u32 (v / 2 ^ 32 % 2 ^ 32) (store_u32 (v % 2 ^ 32) ++ rest) (omega arith) in
    let lo = load_u32-store_u32 (v % 2 ^ 32) rest (omega arith) in
    rw (hi, lo) (omega (arith, bit_or_disjoint 32 (v / 2 ^ 32 % 2 ^ 32) (v % 2 ^ 32) (omega arith)))

pub load_i32-store_i32 : (v : ℤ) (rest : List ℕ) → IsI32 v → load_i32 (store_i32 v ++ rest) ≡ v
unfolding load_i32 store_i32
load_i32-store_i32 (pos n) rest h = ground (arith, load_u32-store_u32 (n % 2 ^ 32) rest)
load_i32-store_i32 (negsuc n) rest h =
    ground (arith, load_u32-store_u32 (2 ^ 32 - 1 - n % 2 ^ 32) rest, -ℤ_parts (negsuc 0) (pos n))
