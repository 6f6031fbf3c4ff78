-- ===== src/Messages/Factory.antt =====
-- `AbstractMessageFactory` of bxcommon/messages/abstract_message_factory.py: what stands at the front
-- of an input buffer, and which message a buffer is. `MessageFormat` is what it takes from its base
-- type of messages, and `message_type_mapping` the classes by type.
pub mod Framed
use bxcommon.Buffers.Input.{InputBuffer, Piece, get_item, same_bytes}
use bxcommon.Messages.Message.{Message, MessageClass, unpack, validate_payload, initialize_class}
use bxcommon.Prelude.Bytes.{Bytes}
use bxcommon.Prelude.Int.{pos, ltb_ℤ}
use bxcommon.Prelude.Result.{Result, ok, err, parse_error, unrecognized_command_error, ◌>>=◌}
use bxcommon.Prelude.{
  ℕ, ◌+◌, Bool, true, false, not, Option, none, some, List, [], ◌∷◌, ltb, leb, length,
  if◌then◌else◌,
}

pub record MessagePreview : Type 0 where
  pub is_full_message : Bool
  pub command : Option Bytes
  pub payload_length : Option ℕ

-- A class is what its constructor makes of a buffer.
pub record MessageFactory : Type 0 where
  pub base_message_type : MessageClass
  pub message_type_mapping : List (Bytes × (Bytes → Result Message))

-- `message_type_mapping[command]`
abbrev pub class_of :
    Bytes → List (Bytes × (Bytes → Result Message)) → Option (Bytes → Result Message)
class_of command [] = none
class_of command ((name, cls) ∷ rest) =
    if same_bytes command name then some cls else class_of command rest

-- The preview, and the buffer, whose first pieces the look at them may have merged.
unfoldable pub get_message_header_preview :
    MessageFactory → InputBuffer → Result (MessagePreview × InputBuffer)
get_message_header_preview factory b =
    let header_length = factory.base_message_type.header_length in
    if ltb_ℤ b.length (pos header_length)
    then ok (record { is_full_message = false; command = none; payload_length = none }, b)
    else (do
      (front, b') ← get_item none (some header_length) b
      (command, payload_length) ← unpack factory.base_message_type front.bytes
      ok (
        record {
          is_full_message = not (ltb_ℤ b'.length (pos (payload_length + header_length)));
          command = some command;
          payload_length = some payload_length;
        },
        b',
      ))

unfoldable pub create_message : MessageFactory → Bytes → Bytes → Bytes × ℕ → Result Message
create_message factory command buf args = elim (class_of command factory.message_type_mapping) [
  | none ↦ err unrecognized_command_error
  | some cls ↦ initialize_class cls buf args
]

unfoldable pub create_message_from_buffer : MessageFactory → Bytes → Result Message
create_message_from_buffer factory buf =
    if ltb (length buf) factory.base_message_type.header_length then err parse_error else (do
      (command, payload_length) ← unpack factory.base_message_type buf
      _ ← validate_payload factory.base_message_type buf payload_length
      create_message factory command buf (command, payload_length))
