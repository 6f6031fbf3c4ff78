-- ===== src/Messages/Cleanup.antt =====
-- `AbstractBroadcastMessage` of bxcommon/messages/bloxroute/abstract_broadcast_message.py and
-- `AbstractCleanupMessage` of abstract_cleanup_message.py beside it. A source id is its 16 bytes, as
-- uuid_pack makes them; what is cached on first use is read each time.
pub mod Fields
pub mod RoundTrip
use bxcommon.Messages.Message.{Message, bloxroute_message, init_bloxroute}
use bxcommon.Serializers.Hash.{sha256_hash_len, get_hash, put_hash}
use bxcommon.Serializers.ShortIds.{ul_int_size_in_bytes, put_short_ids, get_short_ids}
use bxcommon.Serializers.Wire.{pack_into, unpack_from, pack_bytes, unpack_bytes}
use bxcommon.Prelude.Bytes.{Bytes}
use bxcommon.Prelude.Int.{ℤ, pos}
use bxcommon.Prelude.Result.{Result, ok, ◌>>=◌}
use bxcommon.Prelude.{ℕ, zero, suc, ◌+◌, ◌-◌, ◌*◌, List, [], ◌∷◌, length, replicate}

abbrev pub network_num_len : ℕ
network_num_len = ul_int_size_in_bytes

abbrev pub node_id_size_in_bytes : ℕ
node_id_size_in_bytes = 16

abbrev pub control_flags_len : ℕ
control_flags_len = 1

-- `AbstractBroadcastMessage.PAYLOAD_LENGTH`
abbrev pub broadcast_payload_length : ℕ
broadcast_payload_length =
    sha256_hash_len + network_num_len + node_id_size_in_bytes + control_flags_len

-- `SOURCE_ID_OFFSET`
abbrev pub source_id_offset : ℕ
source_id_offset = bloxroute_message.header_length + sha256_hash_len + network_num_len

-- `PAYLOAD_START_OFFSET` of the clean-up messages
abbrev pub payload_start_offset : ℕ
payload_start_offset =
    bloxroute_message.header_length + broadcast_payload_length - control_flags_len

-- The fields that a new broadcast message has.
unfoldable pub put_broadcast : Bytes → ℕ → Bytes → Bytes → ℕ → Result (Bytes × ℕ)
put_broadcast message_hash network_num source_id buf off = do
  (buf1, off1) ← put_hash message_hash buf off
  (buf2, off2) ← pack_into network_num_len network_num buf1 off1
  pack_bytes source_id buf2 off2

-- `AbstractBroadcastMessage.__init__` without a buffer, for a class with this type and length
unfoldable pub init_broadcast : Bytes → ℕ → Bytes → ℕ → Bytes → Result Message
init_broadcast message_type payload_length message_hash network_num source_id = do
  m ←
      init_bloxroute message_type (pos payload_length)
        (replicate (bloxroute_message.header_length + payload_length) 0)
  (buf, _) ← put_broadcast message_hash network_num source_id m.buf bloxroute_message.header_length
  ok (record m { buf = buf })

unfoldable pub set_message_hash : Bytes → Message → Result Message
set_message_hash message_hash m = do
  (buf, _) ← put_hash message_hash m.buf bloxroute_message.header_length
  ok (record m { buf = buf })

unfoldable pub message_hash : Message → Result Bytes
message_hash m = do (hash, _) ← get_hash m.buf bloxroute_message.header_length; ok hash

unfoldable pub network_num : Message → Result ℕ
network_num m = do
  (num, _) ← unpack_from network_num_len m.buf (bloxroute_message.header_length + sha256_hash_len)
  ok num

unfoldable pub source_id : Message → Result Bytes
source_id m = do (id, _) ← unpack_bytes node_id_size_in_bytes m.buf source_id_offset; ok id

unfoldable pub set_source_id : Bytes → Message → Result Message
set_source_id id m = do (buf, _) ← pack_bytes id m.buf source_id_offset; ok (record m { buf = buf })

-- `for tx_hash in tx_hashes`
unfoldable pub put_hashes : List Bytes → Bytes → ℕ → Result (Bytes × ℕ)
put_hashes [] buf off = ok (buf, off)
put_hashes (tx_hash ∷ tx_hashes) buf off = do
  (buf', off') ← put_hash tx_hash buf off
  put_hashes tx_hashes buf' off'

-- `for tx_hash in range(tx_hashes_count)`
unfoldable pub get_hashes : ℕ → Bytes → ℕ → Result (List Bytes × ℕ)
get_hashes zero buf off = ok ([], off)
get_hashes (suc count) buf off = do
  (tx_hash, off') ← get_hash buf off
  (tx_hashes, off'') ← get_hashes count buf off'
  ok (tx_hash ∷ tx_hashes, off'')

unfoldable pub put_cleanup : List ℕ → List Bytes → Bytes → ℕ → Result (Bytes × ℕ)
put_cleanup sids tx_hashes buf off = do
  (buf1, off1) ← pack_into ul_int_size_in_bytes (length sids) buf off
  (buf2, off2) ← put_short_ids sids buf1 off1
  (buf3, off3) ← pack_into ul_int_size_in_bytes (length tx_hashes) buf2 off2
  put_hashes tx_hashes buf3 off3

abbrev pub cleanup_payload_length : List ℕ → List Bytes → ℕ
cleanup_payload_length sids tx_hashes =
    broadcast_payload_length
    + ul_int_size_in_bytes * 2
    + length sids * ul_int_size_in_bytes
    + length tx_hashes * sha256_hash_len

-- `AbstractCleanupMessage.__init__` without a buffer
unfoldable pub init_cleanup : Bytes → Bytes → ℕ → Bytes → List ℕ → List Bytes → Result Message
init_cleanup message_type message_hash network_num source_id sids tx_hashes = do
  m ←
      init_broadcast message_type (cleanup_payload_length sids tx_hashes) message_hash network_num
        source_id
  (buf, _) ← put_cleanup sids tx_hashes m.buf payload_start_offset
  ok (record m { buf = buf })

-- `_parse`, which gives `short_ids` and `transaction_hashes`
unfoldable pub parse : Bytes → ℕ → Result ((List ℕ × List Bytes) × ℕ)
parse buf off = do
  (sids_count, off1) ← unpack_from ul_int_size_in_bytes buf off
  (sids, off2) ← get_short_ids sids_count buf off1
  (tx_hashes_count, off3) ← unpack_from ul_int_size_in_bytes buf off2
  (tx_hashes, off4) ← get_hashes tx_hashes_count buf off3
  ok ((sids, tx_hashes), off4)

unfoldable pub short_ids : Message → Result (List ℕ)
short_ids m = do ((sids, _), _) ← parse m.buf payload_start_offset; ok sids

unfoldable pub transaction_hashes : Message → Result (List Bytes)
transaction_hashes m = do ((_, tx_hashes), _) ← parse m.buf payload_start_offset; ok tx_hashes
