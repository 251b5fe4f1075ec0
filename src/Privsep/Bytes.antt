-- ===== src/Privsep/Bytes.antt =====
-- The big-endian stores and loads of src/privsep_protocol.c. A store gives the bytes that it writes
-- from its pointer on, and a load takes the bytes from its pointer on.
pub mod Laws
use nix_bench.Prelude.{
  ℕ, zero, suc, ◌-◌, ◌*◌, ◌/◌, ◌%◌, ◌^◌, bit_or, List, [], ◌∷◌, ◌++◌, ℤ, pos, negsuc, ◌-ℤ◌, leb,
  if◌then◌else◌, drop,
}

-- What is read at an index; past the end of the list nothing is in use, and the value is 0.
unfoldable pub byte_at : List ℕ → ℕ → ℕ
byte_at [] i = 0
byte_at (b ∷ bs) zero = b
byte_at (b ∷ bs) (suc i) = byte_at bs i

unfoldable pub store_u16 : ℕ → List ℕ
store_u16 value = (value / 2 ^ 8) % 2 ^ 8 ∷ value % 2 ^ 8 ∷ []

unfoldable pub store_u32 : ℕ → List ℕ
store_u32 value =
    (value / 2 ^ 24) % 2 ^ 8
    ∷ (value / 2 ^ 16) % 2 ^ 8
    ∷ (value / 2 ^ 8) % 2 ^ 8
    ∷ value % 2 ^ 8
    ∷ []

unfoldable pub store_u64 : ℕ → List ℕ
unfolding store_u32
store_u64 value = store_u32 ((value / 2 ^ 32) % 2 ^ 32) ++ store_u32 (value % 2 ^ 32)

unfoldable pub load_u16 : List ℕ → ℕ
unfolding byte_at
load_u16 source = bit_or (byte_at source 0 * 2 ^ 8) (byte_at source 1)

unfoldable pub load_u32 : List ℕ → ℕ
unfolding byte_at
load_u32 source =
    bit_or
      (bit_or (bit_or (byte_at source 0 * 2 ^ 24) (byte_at source 1 * 2 ^ 16))
        (byte_at source 2 * 2 ^ 8))
      (byte_at source 3)

unfoldable pub load_u64 : List ℕ → ℕ
load_u64 source = bit_or (load_u32 source * 2 ^ 32) (load_u32 (drop 4 source))

-- `(uint32_t)value`
abbrev pub u32_of_i32 : ℤ → ℕ
u32_of_i32 (pos n) = n % 2 ^ 32
u32_of_i32 (negsuc n) = 2 ^ 32 - 1 - n % 2 ^ 32

unfoldable pub load_i32 : List ℕ → ℤ
load_i32 source =
    let value = load_u32 source in
    if leb value (2 ^ 31 - 1) then pos value else negsuc 0 -ℤ pos (2 ^ 32 - 1 - value)

unfoldable pub store_i32 : ℤ → List ℕ
store_i32 value = store_u32 (u32_of_i32 value)
