-- ===== src/Privsep/RoundTrip/Fixed.antt =====
-- Payloads of a fixed size.
use nix_bench.Prelude.{
  ℕ, ◌/◌, ◌%◌, ◌^◌, ◌≡◌, ◌∙◌, true, some, List, [], ◌∷◌, ◌++◌, ℤ, length, arith,
}
use nix_bench.Privsep.{
  xkb_key_name_capacity, Credentials, Output, DamageRect, FrameReference, Ready, Suspend,
  PointerMotion, PointerButton, KeyEvent, FrameComplete, Fatal, Body,
}
use nix_bench.Privsep.Bytes.{
  byte_at, store_u32, store_u64, store_i32, load_u32, load_u64, load_i32, u32_of_i32,
}
use nix_bench.Privsep.Bytes.Laws.{
  IsU32, IsU64, IsI32, load_u32-store_u32, load_u64-store_u64, load_i32-store_i32,
}
use nix_bench.Privsep.Valid.{output_is_valid}
use nix_bench.Privsep.Encode.{
  encode_output, encode_ready, encode_frame_reference, encode_payload, encode_rect, byte_of_bool,
}
use nix_bench.Privsep.Decode.{
  decode_output, decode_ready, decode_frame_reference, decode_core_hello, decode_suspend, is_flag,
  decode_pointer_motion, decode_pointer_button, decode_frame_complete, decode_fatal, decode_rect,
}

abbrev pub OutputInRange : Output → Type 0
OutputInRange o =
    IsU32 o.logical_width
    × IsU32 o.logical_height
    × IsU32 o.pixel_width
    × IsU32 o.pixel_height
    × IsU32 o.refresh_millihertz
    × IsU32 o.stride
    × IsU32 o.frame_bytes
    × IsU32 o.format

abbrev pub CredentialsInRange : Credentials → Type 0
CredentialsInRange c =
    IsU32 c.process_id
    × IsU32 c.real_user_id
    × IsU32 c.effective_user_id
    × IsU32 c.saved_user_id
    × IsU32 c.real_group_id
    × IsU32 c.effective_group_id
    × IsU32 c.saved_group_id

abbrev pub RectInRange : DamageRect → Type 0
RectInRange r = IsU32 r.x × IsU32 r.y × IsU32 r.width × IsU32 r.height

abbrev pub ReadyInRange : Ready → Type 0
ReadyInRange r = IsU64 r.generation × OutputInRange r.output

abbrev pub ReferenceInRange : FrameReference → Type 0
ReferenceInRange r = IsU64 r.generation × IsU64 r.serial

abbrev pub SuspendInRange : Suspend → Type 0
SuspendInRange s = IsU64 s.generation × IsU64 s.milliseconds × IsU64 s.abandoned_frame_serial

abbrev pub MotionInRange : PointerMotion → Type 0
MotionInRange m = IsU64 m.generation × IsU64 m.milliseconds × IsI32 m.x × IsI32 m.y

abbrev pub ButtonInRange : PointerButton → Type 0
ButtonInRange b = IsU64 b.generation × IsU64 b.milliseconds × IsI32 b.x × IsI32 b.y × IsU32 b.button

-- The name is an array of five characters.
abbrev pub KeyInRange : KeyEvent → Type 0
KeyInRange k =
    IsU64 k.generation × IsU64 k.milliseconds × (length k.xkb_key_name ≡ xkb_key_name_capacity)

abbrev pub CompleteInRange : FrameComplete → Type 0
CompleteInRange c = IsU64 c.generation × IsU64 c.serial × IsU64 c.milliseconds

abbrev pub FatalInRange : Fatal → Type 0
FatalInRange f = IsU32 f.reason × IsU32 f.system_error × IsU64 f.generation

-- The loads at the bytes that a store wrote, for `grind` to find.
abbrev pub stored_u32 : ℕ → List ℕ → List ℕ
stored_u32 v rest =
    (v / 2 ^ 24) % 2 ^ 8 ∷ (v / 2 ^ 16) % 2 ^ 8 ∷ (v / 2 ^ 8) % 2 ^ 8 ∷ v % 2 ^ 8 ∷ rest

pub read_u32 : (v : ℕ) (rest : List ℕ) → IsU32 v → load_u32 (stored_u32 v rest) ≡ v
unfolding store_u32
read_u32 v rest h = load_u32-store_u32 v rest h

pub read_u64 :
    (v : ℕ) (rest : List ℕ)
    → IsU64 v
    → load_u64 (stored_u32 ((v / 2 ^ 32) % 2 ^ 32) (stored_u32 (v % 2 ^ 32) rest)) ≡ v
unfolding store_u64 store_u32
read_u64 v rest h = load_u64-store_u64 v rest h

read_i32 : (v : ℤ) (rest : List ℕ) → IsI32 v → load_i32 (stored_u32 (u32_of_i32 v) rest) ≡ v
unfolding store_i32 store_u32
read_i32 v rest h = load_i32-store_i32 v rest h

pub read_cast : (v : ℕ) (rest : List ℕ) → IsU32 v → load_u32 (stored_u32 (v % 2 ^ 32) rest) ≡ v
read_cast v rest h = read_u32 (v % 2 ^ 32) rest (omega arith) ∙ omega arith

read_zero : load_u32 (0 ∷ 0 ∷ 0 ∷ 0 ∷ []) ≡ 0
read_zero = read_u32 0 [] (omega arith)

pub decode_output-encode_output :
    (o : Output)
    → OutputInRange o
    → output_is_valid o ≡ true
    → decode_output (encode_output o) ≡ some o
unfolding decode_output encode_output store_u32
decode_output-encode_output o h v = grind (arith, read_u32)

pub decode_ready-encode_ready :
    (r : Ready)
    → ReadyInRange r
    → output_is_valid r.output ≡ true
    → decode_ready (encode_ready r) ≡ some r
unfolding decode_ready encode_ready store_u64 store_u32
decode_ready-encode_ready r h v = grind (arith, decode_output-encode_output r.output, read_u64)

pub decode-encode_core_hello :
    (c : Credentials)
    → CredentialsInRange c
    → decode_core_hello (encode_payload (Body.core_hello c)) ≡ some (Body.core_hello c)
unfolding decode_core_hello encode_payload store_u32
decode-encode_core_hello c h = grind (arith, read_u32, read_zero)

pub decode_rect-encode_rect :
    (r : DamageRect) (rest : List ℕ) → RectInRange r → decode_rect (encode_rect r ++ rest) ≡ r
unfolding decode_rect encode_rect store_u32
decode_rect-encode_rect r rest h = grind (arith, read_u32)

pub decode_frame_reference-encode_frame_reference :
    (r : FrameReference)
    → ReferenceInRange r
    → decode_frame_reference (encode_frame_reference r) ≡ r
unfolding decode_frame_reference encode_frame_reference store_u64 store_u32
decode_frame_reference-encode_frame_reference r h = grind (arith, read_u64)

pub decode-encode_suspend :
    (s : Suspend) → SuspendInRange s → decode_suspend (encode_payload (Body.suspend s)) ≡ s
unfolding decode_suspend encode_payload store_u64 store_u32
decode-encode_suspend s h = grind (arith, read_u64)

pub decode-encode_pointer_motion :
    (m : PointerMotion)
    → MotionInRange m
    → decode_pointer_motion (encode_payload (Body.pointer_motion m)) ≡ m
unfolding decode_pointer_motion encode_payload store_u64 store_u32 store_i32
decode-encode_pointer_motion m h = grind (arith, read_u64, read_i32)

pub decode-encode_pointer_button :
    (b : PointerButton)
    → ButtonInRange b
    → decode_pointer_button (encode_payload (Body.pointer_button b)) ≡ some (Body.pointer_button b)
unfolding decode_pointer_button encode_payload store_u64 store_u32 store_i32 byte_at byte_of_bool
    is_flag
decode-encode_pointer_button b h =
    let e = read_cast b.button (byte_of_bool b.pressed ∷ 0 ∷ 0 ∷ 0 ∷ []) (omega arith) in
    grind (arith, e, read_u64, read_i32)

pub decode-encode_frame_complete :
    (c : FrameComplete)
    → CompleteInRange c
    → decode_frame_complete (encode_payload (Body.frame_complete c)) ≡ c
unfolding decode_frame_complete encode_payload store_u64 store_u32
decode-encode_frame_complete c h = grind (arith, read_u64)

pub decode-encode_fatal :
    (f : Fatal) → FatalInRange f → decode_fatal (encode_payload (Body.fatal f)) ≡ f
unfolding decode_fatal encode_payload store_u64 store_u32
decode-encode_fatal f h =
    let e = read_cast f.reason (store_u32 f.system_error ++ store_u64 f.generation) (omega arith) in
    let e2 = read_u32 f.system_error (store_u64 f.generation) (omega arith) in
    let e3 = read_u64 f.generation [] h.2 in cc (e, e2, e3)
