-- ===== src/Privsep.antt =====
-- src/privsep_protocol.h: the messages between the privileged helper and the core, and the state of
-- a parser. A `char` array and a buffer are lists of numbers below 256; of a buffer with a count of
-- the bytes in use the list holds the bytes in use. A value cast to an enumeration stays a number
-- where the code tests its range.
pub mod Bytes
pub mod Valid
pub mod Sizes
pub mod Encode
pub mod Decode
pub mod Stream
mod Tests
pub mod RoundTrip
use nix_bench.Prelude.{ℕ, ◌*◌, ◌+◌, ◌%◌, ◌^◌, Bool, Option, List, [], ◌∷◌, ℤ, ◌==◌, if◌then◌else◌}

abbrev pub protocol_magic : ℕ
protocol_magic = 0x4e425043

abbrev pub protocol_version : ℕ
protocol_version = 3

abbrev pub header_size : ℕ
header_size = 24

abbrev pub frame_data_capacity : ℕ
frame_data_capacity = 65536

abbrev pub frame_data_prefix_size : ℕ
frame_data_prefix_size = 24

abbrev pub max_payload_size : ℕ
max_payload_size = frame_data_prefix_size + frame_data_capacity

abbrev pub max_wire_message_size : ℕ
max_wire_message_size = header_size + max_payload_size

abbrev pub max_output_dimension : ℕ
max_output_dimension = 8192

abbrev pub max_refresh_millihertz : ℕ
max_refresh_millihertz = 1000000

abbrev pub max_frame_bytes : ℕ
max_frame_bytes = 128 * 1024 * 1024

abbrev pub xkb_key_name_capacity : ℕ
xkb_key_name_capacity = 5

abbrev pub max_damage_rects : ℕ
max_damage_rects = 64

-- `other` is a value outside the enumeration, which an `enum` of C can hold.
pub data Endpoint : Type 0 where
  core helper : Endpoint
  other : ℕ → Endpoint

pub data MessageType : Type 0 where
  core_hello frame_begin frame_data frame_commit frame_abort pong shutdown_request : MessageType
  ready suspend resume pointer_motion pointer_button key frame_complete : MessageType
  ping shutdown_accepted fatal : MessageType
  unknown : ℕ → MessageType

abbrev pub format_xrgb8888 : ℕ
format_xrgb8888 = 1

abbrev pub button_left : ℕ
button_left = 0

abbrev pub button_count : ℕ
button_count = 5

abbrev pub fatal_protocol : ℕ
fatal_protocol = 1

abbrev pub fatal_internal : ℕ
fatal_internal = 5

pub record Credentials : Type 0 where
  pub process_id : ℕ
  pub real_user_id : ℕ
  pub effective_user_id : ℕ
  pub saved_user_id : ℕ
  pub real_group_id : ℕ
  pub effective_group_id : ℕ
  pub saved_group_id : ℕ

pub record Output : Type 0 where
  pub logical_width : ℕ
  pub logical_height : ℕ
  pub pixel_width : ℕ
  pub pixel_height : ℕ
  pub refresh_millihertz : ℕ
  pub stride : ℕ
  pub frame_bytes : ℕ
  pub format : ℕ

pub record Ready : Type 0 where
  pub generation : ℕ
  pub output : Output

pub record Suspend : Type 0 where
  pub generation : ℕ
  pub milliseconds : ℕ
  pub abandoned_frame_serial : ℕ

pub record DamageRect : Type 0 where
  pub x : ℕ
  pub y : ℕ
  pub width : ℕ
  pub height : ℕ

-- `damage` is `damage_x` to `damage_height`. The entries of the array behind the end of the list
-- `damage_rects` are zero.
pub record FrameBegin : Type 0 where
  pub generation : ℕ
  pub serial : ℕ
  pub frame_bytes : ℕ
  pub damage : DamageRect
  pub damage_count : ℕ
  pub damage_rects : List DamageRect

-- `bytes` is the buffer that the pointer shows; `none` is the null pointer.
pub record FrameData : Type 0 where
  pub generation : ℕ
  pub serial : ℕ
  pub offset : ℕ
  pub size : ℕ
  pub bytes : Option (List ℕ)

pub record FrameReference : Type 0 where
  pub generation : ℕ
  pub serial : ℕ

pub record PointerMotion : Type 0 where
  pub generation : ℕ
  pub milliseconds : ℕ
  pub x : ℤ
  pub y : ℤ

pub record PointerButton : Type 0 where
  pub generation : ℕ
  pub milliseconds : ℕ
  pub x : ℤ
  pub y : ℤ
  pub button : ℕ
  pub pressed : Bool

pub record KeyEvent : Type 0 where
  pub generation : ℕ
  pub milliseconds : ℕ
  pub xkb_key_name : List ℕ
  pub pressed : Bool
  pub repeat : Bool

pub record FrameComplete : Type 0 where
  pub generation : ℕ
  pub serial : ℕ
  pub milliseconds : ℕ

pub record Fatal : Type 0 where
  pub reason : ℕ
  pub system_error : ℕ
  pub generation : ℕ

-- The union of a message under its type.
pub data Body : Type 0 where
  core_hello : Credentials → Body
  frame_begin : FrameBegin → Body
  frame_data : FrameData → Body
  frame_commit frame_abort : FrameReference → Body
  ready resume : Ready → Body
  suspend : Suspend → Body
  pointer_motion : PointerMotion → Body
  pointer_button : PointerButton → Body
  key : KeyEvent → Body
  frame_complete : FrameComplete → Body
  pong shutdown_request ping shutdown_accepted : ℕ → Body
  fatal : Fatal → Body
  unknown : ℕ → Body

pub record Message : Type 0 where
  pub sequence : ℕ
  pub body : Body

-- The field `type` of a message.
abbrev pub type_of : Body → MessageType
type_of (Body.core_hello c) = MessageType.core_hello
type_of (Body.frame_begin f) = MessageType.frame_begin
type_of (Body.frame_data f) = MessageType.frame_data
type_of (Body.frame_commit r) = MessageType.frame_commit
type_of (Body.frame_abort r) = MessageType.frame_abort
type_of (Body.ready r) = MessageType.ready
type_of (Body.resume r) = MessageType.resume
type_of (Body.suspend s) = MessageType.suspend
type_of (Body.pointer_motion m) = MessageType.pointer_motion
type_of (Body.pointer_button b) = MessageType.pointer_button
type_of (Body.key k) = MessageType.key
type_of (Body.frame_complete c) = MessageType.frame_complete
type_of (Body.pong t) = MessageType.pong
type_of (Body.shutdown_request t) = MessageType.shutdown_request
type_of (Body.ping t) = MessageType.ping
type_of (Body.shutdown_accepted t) = MessageType.shutdown_accepted
type_of (Body.fatal f) = MessageType.fatal
type_of (Body.unknown n) = MessageType.unknown n

-- The number of a message type, `(uint16_t)message->type`.
unfoldable pub type_code : MessageType → ℕ
type_code MessageType.core_hello = 0x0001
type_code MessageType.frame_begin = 0x0002
type_code MessageType.frame_data = 0x0003
type_code MessageType.frame_commit = 0x0004
type_code MessageType.frame_abort = 0x0005
type_code MessageType.pong = 0x0006
type_code MessageType.shutdown_request = 0x0007
type_code MessageType.ready = 0x8001
type_code MessageType.suspend = 0x8002
type_code MessageType.resume = 0x8003
type_code MessageType.pointer_motion = 0x8004
type_code MessageType.pointer_button = 0x8005
type_code MessageType.key = 0x8006
type_code MessageType.frame_complete = 0x8007
type_code MessageType.ping = 0x8008
type_code MessageType.shutdown_accepted = 0x8009
type_code MessageType.fatal = 0x800a
type_code (MessageType.unknown n) = n % 2 ^ 16

abbrev known_types : List MessageType
known_types =
    MessageType.core_hello ∷ MessageType.frame_begin ∷ MessageType.frame_data
    ∷ MessageType.frame_commit ∷ MessageType.frame_abort ∷ MessageType.pong
    ∷ MessageType.shutdown_request ∷ MessageType.ready ∷ MessageType.suspend ∷ MessageType.resume
    ∷ MessageType.pointer_motion ∷ MessageType.pointer_button ∷ MessageType.key
    ∷ MessageType.frame_complete ∷ MessageType.ping ∷ MessageType.shutdown_accepted
    ∷ MessageType.fatal ∷ []

abbrev find_code : ℕ → List MessageType → MessageType
find_code n [] = MessageType.unknown n
find_code n (t ∷ ts) = if type_code t == n then t else find_code n ts

-- The type with a number, `(enum nb_privsep_message_type)wire_type`.
unfoldable pub type_from_code : ℕ → MessageType
unfolding type_code
type_from_code n = find_code n known_types

-- `header` and `payload` are the bytes in use, so `header_used` and `payload_used` are their lengths.
pub record Parser : Type 0 where
  pub sender : Endpoint
  pub expected_sequence : ℕ
  pub header : List ℕ
  pub payload : List ℕ
  pub payload_expected : ℕ
  pub pending_type : MessageType
  pub pending_sequence : ℕ
  pub header_decoded : Bool
  pub sequence_exhausted : Bool
  pub failed : Bool

-- What a feed answers. `error` leaves the message undetermined; the others but `message` clear it.
pub data ParseStatus : Type 0 where
  error need_more : ParseStatus
  message : Message → ParseStatus

-- A feed gives the parser, the status and `*consumed`.
pub record Fed : Type 0 where
  pub parser : Parser
  pub status : ParseStatus
  pub consumed : ℕ
