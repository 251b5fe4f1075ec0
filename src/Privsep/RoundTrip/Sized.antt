-- ===== src/Privsep/RoundTrip/Sized.antt =====
-- Payloads with a list inside: keys, frame data and the rectangles of a frame.
use nix_bench.Prelude.{
  ℕ, zero, suc, ◌+◌, ◌*◌, ◌≤◌, ◌≡◌, refl, ap, ◌∙◌, Bool, not, some, List, [], ◌∷◌, ◌++◌, arith,
  length, drop, drop_sum, take_all, Bool-cases, inl, inr, ◌==◌,
}
use nix_bench.Privsep.{max_damage_rects, DamageRect, FrameBegin, FrameData, KeyEvent, Body}
use nix_bench.Privsep.Bytes.{byte_at, store_u32, store_u64, load_u32, load_u64}
use nix_bench.Privsep.Bytes.Laws.{IsU32, IsU64}
use nix_bench.Privsep.RoundTrip.Fixed.{
  KeyInRange, RectInRange, read_u32, read_u64, read_cast, decode_rect-encode_rect,
}
use nix_bench.Privsep.Valid.{wire_damage_count, wire_damage_at, rect_at}
use nix_bench.Privsep.Encode.{encode_payload, encode_rect, encode_rects, byte_of_bool, copy_bytes}
use nix_bench.Privsep.Decode.{
  decode_key, decode_frame_data, decode_frame_begin, decode_rect, decode_rects, first_rect, is_flag,
}

decode_key_lem :
    (name : List ℕ) (g m : ℕ) (p r : Bool)
    → let k : KeyEvent = record {
      generation = g;
      milliseconds = m;
      xkb_key_name = name;
      pressed = p;
      repeat = r;
    } in
      KeyInRange k → decode_key (encode_payload (Body.key k)) ≡ some (Body.key k)
unfolding decode_key encode_payload store_u64 store_u32 byte_at byte_of_bool is_flag
decode_key_lem (a ∷ b ∷ c ∷ d ∷ e ∷ []) g m p r h = grind (arith, read_u64)
decode_key_lem [] g m p r h = absurd (omega arith)
decode_key_lem (a ∷ []) g m p r h = absurd (omega arith)
decode_key_lem (a ∷ b ∷ []) g m p r h = absurd (omega arith)
decode_key_lem (a ∷ b ∷ c ∷ []) g m p r h = absurd (omega arith)
decode_key_lem (a ∷ b ∷ c ∷ d ∷ []) g m p r h = absurd (omega arith)
decode_key_lem (a ∷ b ∷ c ∷ d ∷ e ∷ f ∷ name) g m p r h = absurd (omega arith)

pub decode_key-encode_key :
    (k : KeyEvent) → KeyInRange k → decode_key (encode_payload (Body.key k)) ≡ some (Body.key k)
decode_key-encode_key k h =
    decode_key_lem k.xkb_key_name k.generation k.milliseconds k.pressed k.repeat h

-- The buffer holds the bytes that the message counts, and no more.
abbrev pub FrameDataInRange : FrameData → Type 0
FrameDataInRange f =
    IsU64 f.generation
    × IsU64 f.serial
    × IsU32 f.offset
    × IsU32 f.size
    × ((bytes : List ℕ) × (f.bytes ≡ some bytes) × (length bytes ≡ f.size))

pub decode_frame_data-encode_frame_data :
    (f : FrameData)
    → FrameDataInRange f
    → decode_frame_data (encode_payload (Body.frame_data f)) (24 + f.size)
      ≡ some (Body.frame_data f)
unfolding decode_frame_data encode_payload store_u64 store_u32 copy_bytes
decode_frame_data-encode_frame_data f (hg, hs, ho, hz, (bytes, hb, hl)) =
    grind (arith, read_u64, read_u32, take_all f.size bytes hl)

-- The rectangles that a message stands for, from an index on.
unfoldable pub wire_rects : FrameBegin → ℕ → ℕ → List DamageRect
wire_rects f zero index = []
wire_rects f (suc left) index = wire_damage_at f index ∷ wire_rects f left (suc index)

-- The frame that a decoder makes of a message: its rectangles in the array alone, the first of them
-- repeated in the fields for one rectangle.
unfoldable pub canonical_frame : FrameBegin → FrameBegin
canonical_frame f =
    let rects = wire_rects f (wire_damage_count f) 0 in
    record f { damage = first_rect rects; damage_count = wire_damage_count f; damage_rects = rects }

abbrev pub AllInRange : List DamageRect → Type 0
AllInRange [] = Unit {0}
AllInRange (r ∷ rects) = RectInRange r × AllInRange rects

abbrev pub FrameInRange : FrameBegin → Type 0
FrameInRange f =
    IsU64 f.generation
    × IsU64 f.serial
    × IsU32 f.frame_bytes
    × RectInRange f.damage
    × AllInRange f.damage_rects

rect_at-InRange :
    (rects : List DamageRect) (index : ℕ) → AllInRange rects → RectInRange (rect_at rects index)
unfolding rect_at
rect_at-InRange [] index h = omega arith
rect_at-InRange (r ∷ rects) zero h = h.0
rect_at-InRange (r ∷ rects) (suc index) h = rect_at-InRange rects index h.1

wire_damage_at-InRange :
    (f : FrameBegin) (index : ℕ) → FrameInRange f → RectInRange (wire_damage_at f index)
unfolding wire_damage_at
wire_damage_at-InRange f index h = elim (Bool-cases (not (f.damage_count == 0))) [
  | inl many ↦ rw many (rect_at-InRange f.damage_rects index h.4)
  | inr one ↦ rw one h.3
]

drop-encode_rect : (r : DamageRect) (rest : List ℕ) → drop 16 (encode_rect r ++ rest) ≡ rest
unfolding encode_rect store_u32
drop-encode_rect r rest = refl

decode_rects-encode_rects :
    (f : FrameBegin) (payload : List ℕ) (left index : ℕ)
    → FrameInRange f
    → drop (24 + index * 16) payload ≡ encode_rects f left index
    → decode_rects payload left index ≡ wire_rects f left index
unfolding decode_rects encode_rects wire_rects
decode_rects-encode_rects f payload zero index h e = refl
decode_rects-encode_rects f payload (suc left) index h e =
    let r = wire_damage_at f index in
    let rest = encode_rects f left (suc index) in
    let here : decode_rect (drop (24 + index * 16) payload) ≡ r =
      rw e (decode_rect-encode_rect r rest (wire_damage_at-InRange f index h)) in
    let next : drop (24 + suc index * 16) payload ≡ rest =
      rw split (drop_sum (24 + index * 16) 16 payload) ∙ ap (drop 16) e ∙ drop-encode_rect r rest in
    cc (here, decode_rects-encode_rects f payload left (suc index) h next)
  where
    split : 24 + suc index * 16 ≡ 24 + index * 16 + 16
    split = omega arith

-- A decoder that reads the fields and the rectangles of the frame gives its canonical form.
decode_frame_begin_lem :
    (f : FrameBegin) (payload : List ℕ)
    → wire_damage_count f ≤ max_damage_rects
    → load_u64 payload ≡ f.generation
    → load_u64 (drop 8 payload) ≡ f.serial
    → load_u32 (drop 16 payload) ≡ f.frame_bytes
    → load_u32 (drop 20 payload) ≡ wire_damage_count f
    → decode_rects payload (wire_damage_count f) 0 ≡ wire_rects f (wire_damage_count f) 0
    → decode_frame_begin payload (24 + wire_damage_count f * 16)
      ≡ some (Body.frame_begin (canonical_frame f))
unfolding decode_frame_begin canonical_frame
decode_frame_begin_lem f payload hc eg es eb ec er = rw ec (rw er (rw (eg, es, eb) (ground arith)))

pub decode_frame_begin-encode_frame_begin :
    (f : FrameBegin)
    → FrameInRange f
    → wire_damage_count f ≤ max_damage_rects
    → decode_frame_begin (encode_payload (Body.frame_begin f)) (24 + wire_damage_count f * 16)
      ≡ some (Body.frame_begin (canonical_frame f))
unfolding encode_payload store_u64 store_u32
decode_frame_begin-encode_frame_begin f h hc =
    let rects = encode_rects f (wire_damage_count f) 0 in
    decode_frame_begin_lem f (encode_payload (Body.frame_begin f)) hc (read_u64 f.generation _ h.0)
      (read_u64 f.serial _ h.1) (read_u32 f.frame_bytes _ h.2)
      (read_cast (wire_damage_count f) rects (omega arith))
      (decode_rects-encode_rects f (encode_payload (Body.frame_begin f)) (wire_damage_count f) 0 h
        refl)
