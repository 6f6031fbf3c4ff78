-- ===== src/Serializers/Infos.antt =====
-- bxcommon/messages/bloxroute/transactions_info_serializer.py: transactions with their short ids.
pub mod RoundTrip
use bxcommon.Serializers.Hash.{sha256_hash_len, get_hash, get_hash-Reads, put_hash, put_hash-Writes}
use bxcommon.Serializers.ShortIds.{
  ul_int_size_in_bytes, put_short_ids, get_short_ids, AllFit, id_bytes, list_bytes, length-id_bytes,
  put_short_ids-Writes, get_short_ids-Reads,
}
use bxcommon.Prelude.Bytes.{Bytes, slice}
use bxcommon.Prelude.Result.{
  Error, Result, ok, err, value_error, assertion_error, struct_error, ◌>>=◌,
}
use bxcommon.Prelude.{
  ℕ, zero, suc, ◌+◌, ◌-◌, ◌*◌, ◌≤◌, ◌<◌, ◌≡◌, refl, sym, ap, ◌∙◌, Bool, true, false, not, ◌&&◌,
  ◌||◌, Option, none, some, List, [], ◌∷◌, ◌++◌, ltb, leb, ◌==◌, length, take, drop, if◌then◌else◌,
  arith, append_assoc, append-nil, length-append, replicate, Bool-cases, inl, inr,
}
use bxcommon.Serializers.Wire.{
  to_bytes, bound, pack_into, unpack_from, put_slice, get_slice, Writes, Reads, put_slice-Writes,
  get_slice-Reads, pack_into-Writes, unpack_from-Reads, done-Writes, done-Reads, then-Writes,
  then-Reads, map-Reads, written_whole, skip, skip-Reads, length-to_bytes,
}

-- `TransactionInfo` of bxcommon/models/transaction_info.py.
pub record TransactionInfo : Type 0 where
  pub hash : Option Bytes
  pub contents : Option Bytes
  pub short_id : Option ℕ

-- The value, which an `assert` or `pack_into` requires.
unfoldable pub required {ℓ} : {A : Type ℓ} → Error → Option A → Result A
required raised none = err raised
required raised (some value) = ok value

-- The loop of `get_serialized_length`.
unfoldable pub add_contents_len : List TransactionInfo → ℕ → Result ℕ
add_contents_len [] message_size = ok message_size
add_contents_len (tx ∷ txs) message_size = do
  tx_contents ← required assertion_error tx.contents
  add_contents_len txs (message_size + length tx_contents)

unfoldable pub get_serialized_length : List TransactionInfo → Result ℕ
get_serialized_length txs = add_contents_len txs (
    ul_int_size_in_bytes
    + length txs * (ul_int_size_in_bytes + sha256_hash_len + ul_int_size_in_bytes))

-- The body of the loop in `serialize_transactions_info_to_buffer`.
unfoldable pub put_info : TransactionInfo → Bytes → ℕ → Result (Bytes × ℕ)
put_info tx buffer offset = do
  short_id ← required struct_error tx.short_id
  (buffer1, offset1) ← pack_into ul_int_size_in_bytes short_id buffer offset
  tx_hash ← required assertion_error tx.hash
  (buffer2, offset2) ← put_hash tx_hash buffer1 offset1
  tx_contents ← required assertion_error tx.contents
  (buffer3, offset3) ← pack_into ul_int_size_in_bytes (length tx_contents) buffer2 offset2
  put_slice tx_contents buffer3 offset3

unfoldable pub put_infos : List TransactionInfo → Bytes → ℕ → Result (Bytes × ℕ)
put_infos [] buffer offset = ok (buffer, offset)
put_infos (tx ∷ txs) buffer offset = do
  (buffer', offset') ← put_info tx buffer offset
  put_infos txs buffer' offset'

unfoldable pub serialize_transactions_info_to_buffer :
    List TransactionInfo → Bytes → ℕ → Result (Bytes × ℕ)
serialize_transactions_info_to_buffer txs buffer offset = do
  (buffer', offset') ← pack_into ul_int_size_in_bytes (length txs) buffer offset
  put_infos txs buffer' offset'

unfoldable pub serialize_transactions_info : List TransactionInfo → Result Bytes
serialize_transactions_info txs = do
  size ← get_serialized_length txs
  (serialized_bytes, _) ← serialize_transactions_info_to_buffer txs (replicate size 0) 0
  ok serialized_bytes

-- The body of the loop in `deserialize_transactions_info_from_buffer`.
unfoldable pub get_info : Bytes → ℕ → Result (TransactionInfo × ℕ)
get_info buffer offset = do
  (tx_sid, offset1) ← unpack_from ul_int_size_in_bytes buffer offset
  (tx_hash, offset2) ← get_hash buffer offset1
  (tx_size, offset3) ← unpack_from ul_int_size_in_bytes buffer offset2
  (tx, offset4) ← get_slice tx_size buffer offset3
  ok (record { hash = some tx_hash; contents = some tx; short_id = some tx_sid }, offset4)

unfoldable pub get_infos : ℕ → Bytes → ℕ → Result (List TransactionInfo × ℕ)
get_infos zero buffer offset = ok ([], offset)
get_infos (suc txs_count) buffer offset = do
  (tx, offset') ← get_info buffer offset
  (txs, offset'') ← get_infos txs_count buffer offset'
  ok (tx ∷ txs, offset'')

unfoldable pub deserialize_transactions_info_from_buffer :
    Bytes → ℕ → Result (List TransactionInfo × ℕ)
deserialize_transactions_info_from_buffer buffer offset = do
  (txs_count, offset') ← unpack_from ul_int_size_in_bytes buffer offset
  get_infos txs_count buffer offset'

unfoldable pub deserialize_transactions_info : Bytes → Result (List TransactionInfo)
deserialize_transactions_info buffer = do
  (transactions_info, _) ← deserialize_transactions_info_from_buffer buffer 0
  ok transactions_info
