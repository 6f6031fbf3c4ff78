-- ===== src/Messages/Message.antt =====
-- `AbstractInternalMessage` of bxcommon/messages/abstract_internal_message.py and
-- `AbstractBloxrouteMessage` of bxcommon/messages/bloxroute/abstract_bloxroute_message.py: a buffer
-- that begins with a header, the type and the payload's length, which a message keeps beside it.
-- (The attributes are cached on first use in the source; in a message that was built or read they are
-- there from the start. The priority is left out.)
pub mod Header
use Prim.Native.Nat.{bit_and, bit_or, bit_xor}
use bxcommon.Prelude.Bytes.{Bytes, slice, assign_slice}
use bxcommon.Prelude.Int.{ℤ, pos, negsuc}
use bxcommon.Prelude.Result.{
  Result, ok, err, value_error, struct_error, index_error, payload_len_error, ◌>>=◌,
}
use bxcommon.Prelude.{
  ℕ, zero, suc, ◌+◌, ◌-◌, ◌≡◌, Bool, true, false, ◌&&◌, not, Option, none, some, List, [], ◌∷◌,
  ◌++◌, ltb, leb, ◌==◌, length, take, drop, if◌then◌else◌, replicate,
}
use bxcommon.Buffers.Input.{same_bytes}
use bxcommon.Serializers.ShortIds.{ul_int_size_in_bytes}
use bxcommon.Serializers.Wire.{pack_into, unpack_from, put_slice, get_slice}

-- `MSG_TYPE_LEN`, `BX_HDR_COMMON_OFF` and `STARTING_SEQUENCE_BYTES` of bxcommon/constants.py.
abbrev pub msg_type_len : ℕ
msg_type_len = 12

abbrev pub bx_hdr_common_off : ℕ
bx_hdr_common_off = 16

abbrev pub starting_sequence_bytes : Bytes
starting_sequence_bytes = 255 ∷ 254 ∷ 253 ∷ 252 ∷ []

abbrev pub starting_sequence_bytes_len : ℕ
starting_sequence_bytes_len = 4

-- `BloxrouteMessageControlFlags.VALID`
abbrev pub valid_flag : ℕ
valid_flag = 1

-- The attributes of a class of messages that its methods read.
pub record MessageClass : Type 0 where
  pub starting_bytes_len : ℕ
  pub header_length : ℕ

abbrev pub internal_message : MessageClass
internal_message = record { starting_bytes_len = 0; header_length = bx_hdr_common_off }

abbrev pub bloxroute_message : MessageClass
bloxroute_message = record {
  starting_bytes_len = starting_sequence_bytes_len;
  header_length = starting_sequence_bytes_len + bx_hdr_common_off;
}

pub record Message : Type 0 where
  pub msg_type : Bytes
  pub payload_len : ℕ
  pub buf : Bytes

-- The format "12s": bytes that are cut, or filled up with zeros, to twelve.
abbrev pub padded : Bytes → Bytes
padded msg_type = take msg_type_len (msg_type ++ replicate msg_type_len 0)

-- `xs.rstrip(b"\x00")`
abbrev pub rstrip : Bytes → Bytes
rstrip [] = []
rstrip (x ∷ xs) = let rest = rstrip xs in if same_bytes rest [] && (x == 0) then [] else x ∷ rest

-- `struct.pack_into("<12sL", buf, offset, msg_type, payload_len)`
unfoldable pub put_header : Bytes → ℕ → Bytes → ℕ → Result (Bytes × ℕ)
put_header msg_type payload_len buf offset = do
  (buf', offset') ← put_slice (padded msg_type) buf offset
  pack_into ul_int_size_in_bytes payload_len buf' offset'

unfoldable pub pack_header : Bytes → ℕ → Bytes → ℕ → Result (Bytes × ℕ)
pack_header msg_type payload_len buf offset =
    if leb (offset + bx_hdr_common_off) (length buf)
    then put_header msg_type payload_len buf offset
    else err struct_error

-- `struct.unpack_from("<12sL", buf, offset)`
unfoldable pub get_header : Bytes → ℕ → Result ((Bytes × ℕ) × ℕ)
get_header buf offset = do
  (command, offset1) ← get_slice msg_type_len buf offset
  (payload_length, offset2) ← unpack_from ul_int_size_in_bytes buf offset1
  ok ((command, payload_length), offset2)

-- `AbstractInternalMessage.__init__`
unfoldable pub init_internal : MessageClass → Bytes → ℤ → Bytes → Result Message
init_internal cls msg_type (negsuc _) buf = err value_error
init_internal cls msg_type (pos payload_len) buf =
    if ltb (length buf) cls.header_length then err value_error else (do
      (buf', _) ← pack_header msg_type payload_len buf cls.starting_bytes_len
      ok (record { msg_type = msg_type; payload_len = payload_len; buf = buf' }))

-- `buf[-1]`, and `buf[-1] = value` in a buffer that is not empty.
abbrev pub last_byte : Bytes → Option ℕ
last_byte [] = none
last_byte (x ∷ []) = some x
last_byte (x ∷ y ∷ xs) = last_byte (y ∷ xs)

abbrev pub set_last : ℕ → Bytes → Bytes
set_last value [] = []
set_last value (x ∷ []) = value ∷ []
set_last value (x ∷ y ∷ xs) = x ∷ set_last value (y ∷ xs)

unfoldable pub get_control_flags : Message → Result ℕ
get_control_flags m = elim (last_byte m.buf) [ none ↦ err index_error | some flags ↦ ok flags ]

unfoldable pub set_control_flag : ℕ → Message → Result Message
set_control_flag flag m = do
  flags ← get_control_flags m
  ok (record m { buf = set_last (bit_or flags flag) m.buf })

unfoldable pub remove_control_flag : ℕ → Message → Result Message
remove_control_flag flag m = do
  flags ← get_control_flags m
  ok (if bit_and flags flag == 0 then m else record m { buf = set_last (bit_xor flags flag) m.buf })

-- `AbstractBloxrouteMessage.__init__`
unfoldable pub init_bloxroute : Bytes → ℤ → Bytes → Result Message
init_bloxroute msg_type payload_len buf = do
  m ← init_internal bloxroute_message msg_type payload_len buf
  set_control_flag valid_flag
      (record m { buf = assign_slice 0 starting_sequence_bytes_len starting_sequence_bytes m.buf })

unfoldable pub unpack : MessageClass → Bytes → Result (Bytes × ℕ)
unpack cls buf =
    if leb (cls.starting_bytes_len + bx_hdr_common_off) (length buf)
    then (do
      ((command, payload_length), _) ← get_header buf cls.starting_bytes_len
      ok (rstrip command, payload_length))
    else err struct_error

-- `payload_length != len(buf) - cls.HEADER_LENGTH`; a shorter buffer fits no length.
unfoldable pub validate_payload : MessageClass → Bytes → ℕ → Result (Unit {0})
validate_payload cls buf payload_length =
    if payload_length + cls.header_length == length buf then ok tt else err payload_len_error

-- `initialize_class`: the class is called with the buffer.
unfoldable pub initialize_class : (Bytes → Result Message) → Bytes → Bytes × ℕ → Result Message
initialize_class cls_type buf (command, payload_length) = do
  instance_ ← cls_type buf
  ok (record instance_ { msg_type = command; payload_len = payload_length })

unfoldable pub rawbytes : MessageClass → Message → Bytes
rawbytes cls m =
    if m.payload_len + cls.header_length == length m.buf
    then m.buf
    else slice 0 (m.payload_len + cls.header_length) m.buf

unfoldable pub payload : MessageClass → Message → Bytes
payload cls m = slice cls.header_length (m.payload_len + cls.header_length) m.buf
