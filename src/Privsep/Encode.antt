-- ===== src/Privsep/Encode.antt =====
-- How src/privsep_protocol.c writes payloads. A store at `payload + n` is a list behind the n bytes
-- stored before it: the code stores in the order of the addresses and leaves no gap.
use nix_bench.Prelude.{
  ℕ, zero, suc, ◌%◌, ◌^◌, Bool, true, false, Option, none, some, List, [], ◌∷◌, ◌++◌, take,
}
use nix_bench.Privsep.{
  xkb_key_name_capacity, Output, DamageRect, FrameBegin, FrameReference, Ready, Body,
}
use nix_bench.Privsep.Bytes.{store_u32, store_u64, store_i32}
use nix_bench.Privsep.Valid.{wire_damage_count, wire_damage_at}

unfoldable pub encode_output : Output → List ℕ
encode_output output =
    store_u32 output.logical_width
    ++ (store_u32 output.logical_height
        ++ (store_u32 output.pixel_width
            ++ (store_u32 output.pixel_height
                ++ (store_u32 output.refresh_millihertz
                    ++ (store_u32 output.stride
                        ++ (store_u32 output.frame_bytes ++ store_u32 output.format))))))

unfoldable pub encode_rect : DamageRect → List ℕ
unfolding store_u32
encode_rect r = store_u32 r.x ++ (store_u32 r.y ++ (store_u32 r.width ++ store_u32 r.height))

-- The loop over the rectangles, `left` of them still to come.
unfoldable pub encode_rects : FrameBegin → ℕ → ℕ → List ℕ
encode_rects f zero index = []
encode_rects f (suc left) index =
    encode_rect (wire_damage_at f index) ++ encode_rects f left (suc index)

unfoldable pub byte_of_bool : Bool → ℕ
byte_of_bool true = 1
byte_of_bool false = 0

-- `memcpy` of `size` bytes from the buffer.
unfoldable pub copy_bytes : ℕ → Option (List ℕ) → List ℕ
copy_bytes size none = []
copy_bytes size (some bytes) = take size bytes

unfoldable pub encode_ready : Ready → List ℕ
encode_ready r = store_u64 r.generation ++ encode_output r.output

unfoldable pub encode_frame_reference : FrameReference → List ℕ
encode_frame_reference r = store_u64 r.generation ++ store_u64 r.serial

unfoldable pub encode_payload : Body → List ℕ
encode_payload (Body.core_hello c) =
    store_u32 c.process_id
    ++ (store_u32 c.real_user_id
        ++ (store_u32 c.effective_user_id
            ++ (store_u32 c.saved_user_id
                ++ (store_u32 c.real_group_id
                    ++ (store_u32 c.effective_group_id
                        ++ (store_u32 c.saved_group_id ++ store_u32 0))))))
encode_payload (Body.frame_begin f) =
    let count = wire_damage_count f in
    store_u64 f.generation
    ++ (store_u64 f.serial
        ++ (store_u32 f.frame_bytes ++ (store_u32 (count % 2 ^ 32) ++ encode_rects f count 0)))
encode_payload (Body.frame_data f) =
    store_u64 f.generation
    ++ (store_u64 f.serial
        ++ (store_u32 f.offset ++ (store_u32 f.size ++ copy_bytes f.size f.bytes)))
encode_payload (Body.frame_commit r) = encode_frame_reference r
encode_payload (Body.frame_abort r) = encode_frame_reference r
encode_payload (Body.ready r) = encode_ready r
encode_payload (Body.resume r) = encode_ready r
encode_payload (Body.suspend s) =
    store_u64 s.generation ++ (store_u64 s.milliseconds ++ store_u64 s.abandoned_frame_serial)
encode_payload (Body.pointer_motion m) =
    store_u64 m.generation ++ (store_u64 m.milliseconds ++ (store_i32 m.x ++ store_i32 m.y))
encode_payload (Body.pointer_button b) =
    store_u64 b.generation
    ++ (store_u64 b.milliseconds
        ++ (store_i32 b.x
            ++ (store_i32 b.y
                ++ (store_u32 (b.button % 2 ^ 32) ++ (byte_of_bool b.pressed ∷ 0 ∷ 0 ∷ 0 ∷ [])))))
encode_payload (Body.key k) =
    store_u64 k.generation
    ++ (store_u64 k.milliseconds
        ++ (take xkb_key_name_capacity k.xkb_key_name
            ++ (byte_of_bool k.pressed ∷ byte_of_bool k.repeat ∷ 0 ∷ [])))
encode_payload (Body.frame_complete c) =
    store_u64 c.generation ++ (store_u64 c.serial ++ store_u64 c.milliseconds)
encode_payload (Body.pong token) = store_u64 token
encode_payload (Body.shutdown_request token) = store_u64 token
encode_payload (Body.ping token) = store_u64 token
encode_payload (Body.shutdown_accepted token) = store_u64 token
encode_payload (Body.fatal f) =
    store_u32 (f.reason % 2 ^ 32) ++ (store_u32 f.system_error ++ store_u64 f.generation)
encode_payload (Body.unknown n) = []
