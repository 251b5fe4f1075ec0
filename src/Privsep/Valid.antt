-- ===== src/Privsep/Valid.antt =====
-- The validity tests of src/privsep_protocol.c: which messages an endpoint may send, and which
-- values they may carry.
use nix_bench.Prelude.{
  ℕ, zero, suc, ◌+◌, ◌-◌, ◌*◌, ◌%◌, ◌^◌, Bool, true, false, not, ◌&&◌, ◌||◌, Option, none, some,
  List, [], ◌∷◌, ltb, leb, ◌==◌, if◌then◌else◌,
}
use nix_bench.Privsep.{
  max_output_dimension, max_refresh_millihertz, max_frame_bytes, max_damage_rects,
  frame_data_capacity, format_xrgb8888, button_left, button_count, fatal_protocol, fatal_internal,
  Endpoint, core, helper, other, MessageType, Output, DamageRect, FrameBegin, FrameData,
  FrameReference, Ready, Body, type_of,
}

unfoldable pub endpoint_is_valid : Endpoint → Bool
endpoint_is_valid core = true
endpoint_is_valid helper = true
endpoint_is_valid (other n) = false

is_from_core : MessageType → Bool
is_from_core MessageType.core_hello = true
is_from_core MessageType.frame_begin = true
is_from_core MessageType.frame_data = true
is_from_core MessageType.frame_commit = true
is_from_core MessageType.frame_abort = true
is_from_core MessageType.pong = true
is_from_core MessageType.shutdown_request = true
is_from_core _ = false

is_from_helper : MessageType → Bool
is_from_helper MessageType.ready = true
is_from_helper MessageType.suspend = true
is_from_helper MessageType.resume = true
is_from_helper MessageType.pointer_motion = true
is_from_helper MessageType.pointer_button = true
is_from_helper MessageType.key = true
is_from_helper MessageType.frame_complete = true
is_from_helper MessageType.ping = true
is_from_helper MessageType.shutdown_accepted = true
is_from_helper MessageType.fatal = true
is_from_helper _ = false

unfoldable pub message_type_is_from : MessageType → Endpoint → Bool
unfolding is_from_core is_from_helper
message_type_is_from type core = is_from_core type
message_type_is_from type helper = is_from_helper type
message_type_is_from type (other n) = false

-- The characters of the array from an index on.
unfoldable pub key_name_from : ℕ → List ℕ → Bool
key_name_from index [] = false
key_name_from index (character ∷ name) =
    let rest = key_name_from (suc index) name in
    if character == 0
    then not (index == 0)
    else if ltb character 0x21 || ltb 0x7e character
    then false
    else rest

unfoldable pub key_name_is_valid : List ℕ → Bool
key_name_is_valid name = key_name_from 0 name

unfoldable pub output_is_valid : Output → Bool
output_is_valid output =
    let stride = output.pixel_width * 4 % 2 ^ 64 in
    let frame_bytes = stride * output.pixel_height % 2 ^ 64 in
    if output.logical_width == 0
      || output.logical_height == 0
      || output.pixel_width == 0
      || output.pixel_height == 0
      || ltb max_output_dimension output.logical_width
      || ltb max_output_dimension output.logical_height
      || ltb max_output_dimension output.pixel_width
      || ltb max_output_dimension output.pixel_height
      || ltb max_refresh_millihertz output.refresh_millihertz
      || not (output.format == format_xrgb8888)
    then false
    else leb stride (2 ^ 32 - 1)
      && output.stride == stride % 2 ^ 32
      && leb frame_bytes max_frame_bytes
      && output.frame_bytes == frame_bytes % 2 ^ 32

unfoldable pub fatal_reason_is_valid : ℕ → Bool
fatal_reason_is_valid reason = leb fatal_protocol reason && leb reason fatal_internal

abbrev pub no_rect : DamageRect
no_rect = record { x = 0; y = 0; width = 0; height = 0 }

-- `damage_rects[index]`
unfoldable pub rect_at : List DamageRect → ℕ → DamageRect
rect_at [] index = no_rect
rect_at (r ∷ rects) zero = r
rect_at (r ∷ rects) (suc index) = rect_at rects index

-- The count with which a message is checked and written: one rectangle may stand in the fields
-- `damage_x` to `damage_height`, with a count of 0.
unfoldable pub wire_damage_count : FrameBegin → ℕ
wire_damage_count f = if f.damage_count == 0 && not (f.damage.width == 0) then 1 else f.damage_count

unfoldable pub wire_damage_at : FrameBegin → ℕ → DamageRect
wire_damage_at f index =
    if not (f.damage_count == 0) then rect_at f.damage_rects index else f.damage

-- The test on one rectangle, and the loop over those with `left` still to come.
unfoldable pub damage_rect_fails : DamageRect → Bool
damage_rect_fails r =
    leb max_output_dimension r.x
    || leb max_output_dimension r.y
    || r.width == 0
    || r.height == 0
    || ltb (max_output_dimension - r.x) r.width
    || ltb (max_output_dimension - r.y) r.height

unfoldable pub damage_loop : FrameBegin → ℕ → ℕ → ℕ → Bool
damage_loop f zero index damage_bytes = damage_bytes == f.frame_bytes
damage_loop f (suc left) index damage_bytes =
    let r = wire_damage_at f index in
    let rest =
      damage_loop f left (suc index) ((damage_bytes + r.width * r.height * 4 % 2 ^ 64) % 2 ^ 64) in
    if damage_rect_fails r then false else rest

-- `!=` of two tests.
unfoldable pub differ : Bool → Bool → Bool
differ true b = not b
differ false b = b

unfoldable pub frame_begin_is_valid : FrameBegin → Bool
frame_begin_is_valid f =
    if f.generation == 0
      || f.serial == 0
      || f.frame_bytes == 0
      || ltb max_frame_bytes f.frame_bytes
      || ltb max_damage_rects f.damage_count
      || differ (f.damage.width == 0) (f.damage.height == 0)
    then false
    else if wire_damage_count f == 0
    then f.damage.x == 0 && f.damage.y == 0
    else damage_loop f (wire_damage_count f) 0 0

unfoldable pub has_bytes : Option (List ℕ) → Bool
has_bytes none = false
has_bytes (some bytes) = true

unfoldable pub frame_data_is_valid : FrameData → Bool
frame_data_is_valid f =
    if f.generation == 0
      || f.serial == 0
      || f.size == 0
      || ltb frame_data_capacity f.size
      || not (has_bytes f.bytes)
    then false
    else leb (f.offset + f.size) max_frame_bytes

unfoldable pub frame_reference_is_valid : FrameReference → Bool
frame_reference_is_valid r = not (r.generation == 0) && not (r.serial == 0)

unfoldable pub ready_is_valid : Ready → Bool
ready_is_valid r = not (r.generation == 0) && output_is_valid r.output

-- The switch on the type.
unfoldable pub body_is_valid : Body → Bool
body_is_valid (Body.core_hello c) = not (c.process_id == 0)
body_is_valid (Body.frame_begin f) = frame_begin_is_valid f
body_is_valid (Body.frame_data f) = frame_data_is_valid f
body_is_valid (Body.frame_commit r) = frame_reference_is_valid r
body_is_valid (Body.frame_abort r) = frame_reference_is_valid r
body_is_valid (Body.pong token) = not (token == 0)
body_is_valid (Body.shutdown_request token) = not (token == 0)
body_is_valid (Body.ping token) = not (token == 0)
body_is_valid (Body.shutdown_accepted token) = not (token == 0)
body_is_valid (Body.ready r) = ready_is_valid r
body_is_valid (Body.resume r) = ready_is_valid r
body_is_valid (Body.suspend s) = not (s.generation == 0)
body_is_valid (Body.pointer_motion m) = not (m.generation == 0)
body_is_valid (Body.pointer_button b) =
    not (b.generation == 0) && leb button_left b.button && ltb b.button button_count
body_is_valid (Body.key k) =
    not (k.generation == 0) && key_name_is_valid k.xkb_key_name && (not k.repeat || k.pressed)
body_is_valid (Body.frame_complete c) = not (c.generation == 0) && not (c.serial == 0)
body_is_valid (Body.fatal f) = fatal_reason_is_valid f.reason
body_is_valid (Body.unknown n) = false

unfoldable pub message_is_valid : Endpoint → Body → Bool
message_is_valid sender body =
    if not (endpoint_is_valid sender) || not (message_type_is_from (type_of body) sender)
    then false
    else body_is_valid body
