-- ===== src/Messages/Validator.antt =====
-- `BloxrouteMessageValidator` of bxcommon/messages/bloxroute/bloxroute_message_validator.py. A look at
-- the input buffer may merge its pieces, so that a validation gives the buffer back.
pub mod Verdict
pub mod Built
use Prim.Native.Nat.{bit_and}
use bxcommon.Buffers.Input.{InputBuffer, Piece, get_item, same_bytes}
use bxcommon.Messages.Message.{starting_sequence_bytes, starting_sequence_bytes_len, valid_flag}
use bxcommon.Prelude.Bytes.{Bytes}
use bxcommon.Prelude.Int.{pos, ltb_ℤ}
use bxcommon.Prelude.Result.{
  Result, ok, err, index_error, assertion_error, message_validation_error,
  control_flag_validation_error, ◌>>=◌,
}
use bxcommon.Prelude.{
  ℕ, zero, suc, ◌+◌, ◌*◌, Bool, true, false, ◌||◌, Option, none, some, List, [], ◌∷◌, ltb, leb,
  ◌==◌, if◌then◌else◌,
}

-- The types of bxcommon/messages/bloxroute/bloxroute_message_type.py that have a limit of their own.
abbrev pub transaction : Bytes
transaction = 116 ∷ 120 ∷ []

abbrev pub broadcast : Bytes
broadcast = 98 ∷ 114 ∷ 111 ∷ 97 ∷ 100 ∷ 99 ∷ 97 ∷ 115 ∷ 116 ∷ []

abbrev pub transactions : Bytes
transactions = 116 ∷ 120 ∷ 115 ∷ []

abbrev pub tx_service_sync_blocks_short_ids : Bytes
tx_service_sync_blocks_short_ids = 116 ∷ 120 ∷ 98 ∷ 108 ∷ 111 ∷ 99 ∷ 107 ∷ []

abbrev pub tx_service_sync_txs : Bytes
tx_service_sync_txs = 116 ∷ 120 ∷ 116 ∷ 120 ∷ 115 ∷ []

abbrev pub transaction_cleanup : Bytes
transaction_cleanup = 116 ∷ 120 ∷ 99 ∷ 108 ∷ 110 ∷ 117 ∷ 112 ∷ []

abbrev pub block_confirmation : Bytes
block_confirmation = 98 ∷ 108 ∷ 107 ∷ 99 ∷ 110 ∷ 102 ∷ 114 ∷ 109 ∷ []

pub record MessageSizeValidationSettings : Type 0 where
  pub max_block_size_bytes : ℕ
  pub max_tx_size_bytes : ℕ

pub record BloxrouteMessageValidator : Type 0 where
  pub size_validation_settings : Option MessageSizeValidationSettings
  pub connection_protocol_version : ℕ

abbrev pub first_validating_version : ℕ
first_validating_version = 4

abbrev pub default_max_payload_len_bytes : ℕ
default_max_payload_len_bytes = 1024 * 1024

unfoldable pub validate_starting_sequence : InputBuffer → Result InputBuffer
validate_starting_sequence b =
    if ltb_ℤ b.length (pos starting_sequence_bytes_len) then ok b else (do
      (front, b') ← get_item none (some starting_sequence_bytes_len) b
      if same_bytes front.bytes starting_sequence_bytes
          then ok b'
          else err message_validation_error)

-- `msg_type in {…}`
unfoldable pub is_block_sized : Bytes → Bool
is_block_sized t =
    same_bytes t broadcast
    || same_bytes t transactions
    || same_bytes t tx_service_sync_blocks_short_ids
    || same_bytes t tx_service_sync_txs
    || same_bytes t transaction_cleanup
    || same_bytes t block_confirmation

-- The limit that a type's payload has.
unfoldable pub max_payload_len : MessageSizeValidationSettings → Bytes → ℕ
max_payload_len settings msg_type =
    if same_bytes msg_type transaction
    then settings.max_tx_size_bytes
    else (if is_block_sized msg_type
        then settings.max_block_size_bytes
        else default_max_payload_len_bytes)

unfoldable pub validate_payload_length :
    MessageSizeValidationSettings → Option Bytes → Option ℕ → InputBuffer → Result InputBuffer
validate_payload_length settings none payload_len b = ok b
validate_payload_length settings (some msg_type) none b = ok b
validate_payload_length settings (some msg_type) (some payload_len) b =
    if ltb (max_payload_len settings msg_type) payload_len
    then err message_validation_error
    else ok b

-- `input_buffer[end - 1:end]`, and the first byte of it.
unfoldable pub byte_before : ℕ → InputBuffer → Result (ℕ × InputBuffer)
byte_before zero b = err index_error
byte_before (suc k) b = do
  (control_flag_byte, b') ← get_item (some k) (some (suc k)) b
  elim control_flag_byte.bytes [ [] ↦ err index_error | flags ∷ _ ↦ ok (flags, b') ]

unfoldable pub validate_control_flags : Bool → ℕ → Option ℕ → InputBuffer → Result InputBuffer
validate_control_flags false header_len payload_len b = ok b
validate_control_flags true header_len none b = err assertion_error
validate_control_flags true header_len (some payload_len) b =
    if ltb_ℤ b.length (pos (header_len + payload_len)) then err message_validation_error else (do
      (flags, b') ← byte_before (header_len + payload_len) b
      if bit_and flags valid_flag == valid_flag then ok b' else err control_flag_validation_error)

unfoldable pub validate :
    BloxrouteMessageValidator
    → Bool
    → Option Bytes
    → ℕ
    → Option ℕ
    → InputBuffer
    → Result InputBuffer
validate v is_full_msg msg_type header_len payload_len b =
    let validating = leb first_validating_version v.connection_protocol_version in
    do
      b1 ← if validating then validate_starting_sequence b else ok b
      b2 ← elim v.size_validation_settings [
        | none ↦ ok b1
        | some settings ↦ validate_payload_length settings msg_type payload_len b1
      ]
      if validating then validate_control_flags is_full_msg header_len payload_len b2 else ok b2
