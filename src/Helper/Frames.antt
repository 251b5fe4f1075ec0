-- ===== src/Helper/Frames.antt =====
-- The handlers of src/privsep_helper.c for the messages of the core: frames, heartbeat, shutdown.
use nix_bench.Prelude.{
  ℕ, zero, suc, ◌+◌, ◌-◌, ◌*◌, ◌/◌, ◌%◌, ◌^◌, Bool, true, false, not, ◌&&◌, ◌||◌, Option, none,
  some, List, [], ltb, leb, ◌==◌, if◌then◌else◌, take, drop, codes, ℤ, pos, negsuc, eqb_ℤ,
}
use nix_bench.Damage.{Rect}
use nix_bench.Privsep.{max_damage_rects, DamageRect, FrameBegin, FrameData, FrameReference, Body}
use nix_bench.Privsep.Valid.{rect_at}
use nix_bench.Helper.{
  size_sub, Helper, HostFrame, protocol, presentation, fatal_device, copy_in, fail_helper,
  enqueue_or_fail, clear_frame,
}
use nix_bench.Privsep.{fatal_protocol}

-- The failure of a message that breaks the protocol.
unfoldable pub refuse : Helper → List ℕ → Helper × Bool
refuse h message = fail_helper h protocol fatal_protocol 0 message

-- Rectangle `index` of a frame; a frame without rectangles is the whole output.
unfoldable pub begin_rect : Helper → FrameBegin → ℕ → DamageRect
begin_rect h begin index =
    if not (begin.damage_count == 0)
    then rect_at begin.damage_rects index
    else record { x = 0; y = 0; width = h.output.pixel_width; height = h.output.pixel_height }

unfoldable pub begin_rect_fails : Helper → DamageRect → Bool
begin_rect_fails h r =
    leb h.output.pixel_width r.x
    || leb h.output.pixel_height r.y
    || r.width == 0
    || r.height == 0
    || ltb (h.output.pixel_width - r.x) r.width
    || ltb (h.output.pixel_height - r.y) r.height

unfoldable pub store_rect : Helper → ℕ → DamageRect → Helper
store_rect h index r = record h {
  frame_damage_rects = λ i.
      if i == index
      then record { x = pos r.x; y = pos r.y; width = pos r.width; height = pos r.height }
      else h.frame_damage_rects i;
}

-- The loop over the rectangles, `left` of them still to come; `none` for one that is refused.
unfoldable pub begin_loop : Helper → FrameBegin → ℕ → ℕ → ℕ → Helper × Option ℕ
begin_loop h begin zero index expected = (h, some expected)
begin_loop h begin (suc left) index expected =
    let r = begin_rect h begin index in
    let rest =
      begin_loop (store_rect h index r) begin left (suc index)
        ((expected + r.width * r.height * 4) % 2 ^ 64) in
    if begin_rect_fails h r then (h, none) else rest

-- The first frame after a lost one covers the output.
unfoldable pub covers_output : Helper → ℕ → Bool
covers_output h damage_count =
    let r = h.frame_damage_rects 0 in
    damage_count == 1
    && eqb_ℤ r.x (pos 0)
    && eqb_ℤ r.y (pos 0)
    && eqb_ℤ r.width (pos h.output.pixel_width)
    && eqb_ℤ r.height (pos h.output.pixel_height)

unfoldable pub begin_checked : FrameBegin → ℕ → Helper → Option ℕ → Helper × Bool
begin_checked begin damage_count h none = refuse h (codes "invalid FRAME_BEGIN damage rectangle")
begin_checked begin damage_count h (some expected) =
    if not (expected == begin.frame_bytes)
      || not h.staging_valid && not (covers_output h damage_count)
    then refuse h (codes "FRAME_BEGIN size or initial damage is invalid")
    else (
      record h {
        frame_open = true;
        frame_stale = false;
        frame_generation = begin.generation;
        frame_serial = begin.serial;
        frame_expected = begin.frame_bytes;
        frame_received = 0;
        frame_damage_count = damage_count;
      },
      true,
    )

unfoldable pub handle_frame_begin : Helper → FrameBegin → Helper × Bool
handle_frame_begin h begin =
    let damage_count = if begin.damage_count == 0 then 1 else begin.damage_count in
    let (h', expected) = begin_loop h begin damage_count 0 0 in
    if not h.ready_sent
      || h.frame_open
      || h.presentation_pending
      || not (begin.generation == h.generation)
      || h.suspended
      || leb begin.serial h.last_submitted_serial
      || ltb max_damage_rects damage_count
    then refuse h (codes "out-of-order FRAME_BEGIN")
    else begin_checked begin damage_count h' expected

-- `(size_t)value` of an `int`.
unfoldable pub size_of_int : ℤ → ℕ
size_of_int (pos n) = n
size_of_int (negsuc n) = 2 ^ 64 - 1 - n

-- The search for the rectangle that a packed offset falls in, with the bytes of those before it.
unfoldable pub find_damage : Helper → ℕ → ℕ → ℕ → ℕ → Option (Rect × ℕ)
find_damage h zero index base packed_offset = none
find_damage h (suc left) index base packed_offset =
    let candidate = h.frame_damage_rects index in
    let candidate_size =
      size_of_int candidate.width * size_of_int candidate.height % 2 ^ 64 * 4 % 2 ^ 64 in
    let end = (base + candidate_size) % 2 ^ 64 in
    let rest = find_damage h left (suc index) end packed_offset in
    if ltb packed_offset end then some (candidate, base) else rest

-- Where a piece of a row goes: its place in the staging buffer and its length. A rectangle without
-- columns would divide by zero in C.
pub record Piece : Type 0 where
  pub destination_offset : ℕ
  pub amount : ℕ

unfoldable pub piece_of : Helper → Rect → ℕ → ℕ → ℕ → Piece
piece_of h damage base packed_offset remaining =
    let damage_stride = size_of_int damage.width * 4 % 2 ^ 64 in
    let local_offset = size_sub packed_offset base in
    let row = local_offset / damage_stride in
    let row_offset = local_offset % damage_stride in
    let available = damage_stride - row_offset in
    let row_start = (size_of_int damage.y + row) % 2 ^ 64 * h.output.stride % 2 ^ 64 in
    let left_edge = size_of_int damage.x * 4 % 2 ^ 64 in
    record {
      destination_offset = (row_start + left_edge + row_offset) % 2 ^ 64;
      amount = if ltb remaining available then remaining else available;
    }

unfoldable pub piece_fails : Helper → Piece → Bool
piece_fails h p =
    ltb h.staging_size p.destination_offset || ltb (h.staging_size - p.destination_offset) p.amount

unfoldable pub copy_piece : Helper → List ℕ → ℕ → Piece → Helper
copy_piece h bytes source_offset p = record h {
  staging = copy_in h.staging p.destination_offset (take p.amount (drop source_offset bytes));
}

-- How the loop over the data ends; `no_fuel` is no end of the code's loop.
pub data Copied : Type 0 where
  complete no_damage too_large no_fuel : Copied

-- The next round of the loop, for the rectangle that was found.
unfoldable pub copy_next :
    (Helper → ℕ → ℕ → Helper × Copied)
    → Helper
    → FrameData
    → List ℕ
    → ℕ
    → ℕ
    → Option (Rect × ℕ)
    → Helper × Copied
copy_next rest h f bytes source_offset packed_offset none = (h, no_damage)
copy_next rest h f bytes source_offset packed_offset (some (damage, base)) =
    let p = piece_of h damage base packed_offset (f.size - source_offset) in
    if piece_fails h p
    then (h, too_large)
    else rest (copy_piece h bytes source_offset p) (source_offset + p.amount)
        (packed_offset + p.amount)

unfoldable pub copy_loop : ℕ → FrameData → List ℕ → Helper → ℕ → ℕ → Helper × Copied
copy_loop zero f bytes h source_offset packed_offset =
    (h, if ltb source_offset f.size then no_fuel else complete)
copy_loop (suc fuel) f bytes h source_offset packed_offset =
    let found = find_damage h h.frame_damage_count 0 0 packed_offset in
    let next = copy_next (copy_loop fuel f bytes) h f bytes source_offset packed_offset found in
    if ltb source_offset f.size then next else (h, complete)

unfoldable pub bytes_of : Option (List ℕ) → List ℕ
bytes_of none = []
bytes_of (some bytes) = bytes

unfoldable pub data_end : ℕ → Helper × Copied → Helper × Bool
data_end end (h, complete) = (record h { frame_received = end % 2 ^ 32 }, true)
data_end end (h, no_damage) = refuse h (codes "FRAME_DATA has no matching damage rectangle")
data_end end (h, too_large) = refuse h (codes "FRAME_DATA exceeds trusted output size")
data_end end (h, no_fuel) = (h, false)

-- Each round of the loop copies a byte at least, so `size` rounds are enough.
unfoldable pub handle_frame_data : Helper → FrameData → Helper × Bool
handle_frame_data h f =
    let end = h.frame_received + f.size in
    if not h.frame_open
      || not (f.generation == h.frame_generation)
      || not (f.serial == h.frame_serial)
      || not (f.offset == h.frame_received)
    then refuse h (codes "out-of-order FRAME_DATA")
    else if ltb h.frame_expected end
    then refuse h (codes "FRAME_DATA exceeds declared frame size")
    else if not h.frame_stale
    then data_end end (copy_loop f.size f (bytes_of f.bytes) h 0 h.frame_received)
    else (record h { frame_received = end % 2 ^ 32 }, true)

-- The frame that a commit shows.
unfoldable pub committed_frame : Helper → HostFrame
committed_frame h = record {
  pixels = h.staging;
  width = h.output.pixel_width;
  height = h.output.pixel_height;
  stride = h.output.stride;
  serial = h.frame_serial;
  damage = h.frame_damage_rects 0;
  damage_rects = h.frame_damage_rects;
  damage_count = h.frame_damage_count;
}

unfoldable pub abandon_frame : Helper → Helper
abandon_frame h = clear_frame (record h { staging_valid = false })

unfoldable pub submit_frame : Helper → Helper
submit_frame h = clear_frame (record h {
  presentation_pending = true;
  presentation_generation = h.generation;
  presentation_serial = h.frame_serial;
  last_submitted_serial = h.frame_serial;
  staging_valid = true;
})

-- `aborts` tells FRAME_ABORT from FRAME_COMMIT.
unfoldable pub handle_frame_reference : Helper → Bool → FrameReference → Helper × Bool
handle_frame_reference h aborts r =
    if not h.frame_open
      || not (r.generation == h.frame_generation)
      || not (r.serial == h.frame_serial)
    then refuse h (codes "frame terminator does not match open frame")
    else if aborts
    then (abandon_frame h, true)
    else if not (h.frame_received == h.frame_expected)
    then refuse h (codes "FRAME_COMMIT arrived before the complete frame")
    else if h.frame_stale
    then (abandon_frame h, true)
    else if not (h.present h.generation (committed_frame h))
    then fail_helper h presentation fatal_device 0 (codes "privileged presentation callback failed")
    else (submit_frame h, true)

unfoldable pub handle_pong : Helper → ℕ → Helper × Bool
handle_pong h token =
    if not h.ping_outstanding || not (token == h.ping_token)
    then refuse h (codes "unexpected heartbeat response")
    else (record h { ping_outstanding = false; pong_available = true; pong_token = token }, true)

unfoldable pub handle_shutdown : Helper → ℕ → Helper × Bool
handle_shutdown h request_id =
    if h.shutdown_requested
    then refuse h (codes "duplicate shutdown request")
    else enqueue_or_fail
        (record (clear_frame
          (record h { shutdown_requested = true; shutdown_request_id = request_id })) {
            presentation_pending = false;
          })
        (Body.shutdown_accepted request_id) false
