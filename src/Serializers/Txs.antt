-- ===== src/Serializers/Txs.antt =====
-- bxcommon/messages/bloxroute/txs_serializer.py: transactions with contents, short ids and flags. The log
-- line for a transaction that is left out is not modelled.
pub mod Written
pub mod RoundTrip
pub mod Skipped
use bxcommon.Serializers.Hash.{sha256_hash_len, get_hash, get_hash-Reads, put_hash, put_hash-Writes}
use bxcommon.Serializers.ShortIds.{
  ul_int_size_in_bytes, put_short_ids, get_short_ids, AllFit, id_bytes, list_bytes, length-id_bytes,
  put_short_ids-Writes, get_short_ids-Reads,
}
use bxcommon.Prelude.Sets.{elem}
use bxcommon.Prelude.Bytes.{Bytes, slice}
use bxcommon.Prelude.Result.{Result, ok, err, value_error, assertion_error, struct_error, ◌>>=◌}
use bxcommon.Prelude.{
  ℕ, zero, suc, ◌+◌, ◌-◌, ◌*◌, ◌≤◌, ◌<◌, ◌≡◌, refl, sym, ap, ◌∙◌, Bool, true, false, not, ◌&&◌,
  ◌||◌, Option, none, some, List, [], ◌∷◌, ◌++◌, ltb, leb, ◌==◌, length, take, drop, if◌then◌else◌,
  arith, append_assoc, append-nil, length-append, replicate, Bool-cases, inl, inr,
}
use bxcommon.Serializers.Wire.{
  to_bytes, bound, pack_into, unpack_from, put_slice, get_slice, Writes, Reads, put_slice-Writes,
  get_slice-Reads, pack_into-Writes, unpack_from-Reads, done-Writes, done-Reads, then-Writes,
  then-Reads, map-Reads, written_whole, skip, skip-Reads, length-to_bytes,
}

-- A flag is its value.
pub record TxContentShortIds : Type 0 where
  pub tx_hash : Bytes
  pub tx_content : Option Bytes
  pub short_ids : List ℕ
  pub short_id_flags : List ℕ

abbrev pub ul_short_size_in_bytes : ℕ
ul_short_size_in_bytes = 2

abbrev pub sid_len : ℕ
sid_len = 4

abbrev pub transaction_flag_len : ℕ
transaction_flag_len = 2

abbrev pub null_tx_sid : ℕ
null_tx_sid = 0

unfoldable pub get_serialized_tx_content_short_ids_bytes_len : TxContentShortIds → ℕ
get_serialized_tx_content_short_ids_bytes_len tx =
    let tx_content_size : ℕ = elim tx.tx_content [
      | none ↦ 0
      | some tx_content ↦ length tx_content
    ] in
    sha256_hash_len
    + ul_int_size_in_bytes
    + tx_content_size
    + ul_int_size_in_bytes
    + ul_short_size_in_bytes
    + (sid_len + transaction_flag_len) * length tx.short_ids

unfoldable pub get_serialized_txs_content_short_ids_bytes_len : List TxContentShortIds → ℕ
get_serialized_txs_content_short_ids_bytes_len [] = 0
get_serialized_txs_content_short_ids_bytes_len (tx ∷ txs) =
    get_serialized_tx_content_short_ids_bytes_len tx
    + get_serialized_txs_content_short_ids_bytes_len txs

-- `for short_id_tx_flag in tx_content_short_ids.short_id_flags`
unfoldable pub put_flags : List ℕ → Bytes → ℕ → Result (Bytes × ℕ)
put_flags [] buffer off = ok (buffer, off)
put_flags (flag ∷ flags) buffer off = do
  (buffer', off') ← pack_into ul_short_size_in_bytes flag buffer off
  put_flags flags buffer' off'

-- The `assert` between the short ids and the flags.
unfoldable pub check_flags : TxContentShortIds → Bytes → ℕ → Result (Bytes × ℕ)
check_flags tx buffer off =
    if length tx.short_id_flags == length tx.short_ids
    then put_flags tx.short_id_flags buffer off
    else err assertion_error

-- The branch for a transaction with contents and no null id.
unfoldable pub put_tx : TxContentShortIds → Bytes → Bytes → ℕ → Result (Bytes × ℕ)
put_tx tx tx_content buffer off = do
  (buffer1, off1) ← put_hash tx.tx_hash buffer off
  (buffer2, off2) ← pack_into ul_int_size_in_bytes (length tx_content) buffer1 off1
  (buffer3, off3) ← put_slice tx_content buffer2 off2
  (buffer4, off4) ← pack_into ul_int_size_in_bytes 0 buffer3 off3
  (buffer5, off5) ← pack_into ul_short_size_in_bytes (length tx.short_ids) buffer4 off4
  (buffer6, off6) ← put_short_ids tx.short_ids buffer5 off5
  check_flags tx buffer6 off6

unfoldable pub put_if_complete : TxContentShortIds → Bytes → ℕ → Result (Bytes × ℕ)
put_if_complete tx buffer off = elim tx.tx_content [
  | none ↦ ok (buffer, off)
  | some tx_content ↦
      if elem null_tx_sid tx.short_ids then ok (buffer, off) else put_tx tx tx_content buffer off
]

unfoldable pub put_txs : List TxContentShortIds → Bytes → ℕ → Result (Bytes × ℕ)
put_txs [] buffer off = ok (buffer, off)
put_txs (tx ∷ txs) buffer off = do
  (buffer', off') ← put_if_complete tx buffer off
  put_txs txs buffer' off'

unfoldable pub serialize_txs_content_short_ids_into_bytes : List TxContentShortIds → Result Bytes
serialize_txs_content_short_ids_into_bytes txs = do
  (buffer, _) ← put_txs txs (replicate (get_serialized_txs_content_short_ids_bytes_len txs) 0) 0
  ok buffer

-- `TransactionFlag(value)`: the flags are the thirteen lowest bits.
unfoldable pub transaction_flag : ℕ → Result ℕ
transaction_flag value = if ltb value 8192 then ok value else err value_error

unfoldable pub get_flag : Bytes → ℕ → Result (ℕ × ℕ)
get_flag buffer offset = do
  (value, offset') ← unpack_from ul_short_size_in_bytes buffer offset
  flag ← transaction_flag value
  ok (flag, offset')

unfoldable pub get_flags : ℕ → Bytes → ℕ → Result (List ℕ × ℕ)
get_flags zero buffer offset = ok ([], offset)
get_flags (suc count) buffer offset = do
  (flag, offset') ← get_flag buffer offset
  (flags, offset'') ← get_flags count buffer offset'
  ok (flag ∷ flags, offset'')

-- The body of the loop in `deserialize_txs_content_short_ids_from_buffer`.
unfoldable pub get_tx : Bytes → ℕ → Result (TxContentShortIds × ℕ)
get_tx buffer offset = do
  (tx_hash, offset1) ← get_hash buffer offset
  (tx_content_size, offset2) ← unpack_from ul_int_size_in_bytes buffer offset1
  (tx_content, offset3) ← get_slice tx_content_size buffer offset2
  (_, offset4) ← skip ul_int_size_in_bytes buffer offset3
  (short_ids_count, offset5) ← unpack_from ul_short_size_in_bytes buffer offset4
  (short_ids, offset6) ← get_short_ids short_ids_count buffer offset5
  (flags, offset7) ← get_flags short_ids_count buffer offset6
  ok (
    record {
      tx_hash = tx_hash;
      tx_content = some tx_content;
      short_ids = short_ids;
      short_id_flags = flags;
    },
    offset7,
  )

unfoldable pub get_txs : ℕ → Bytes → ℕ → Result (List TxContentShortIds × ℕ)
get_txs zero buffer offset = ok ([], offset)
get_txs (suc tx_count) buffer offset = do
  (tx, offset') ← get_tx buffer offset
  (txs, offset'') ← get_txs tx_count buffer offset'
  ok (tx ∷ txs, offset'')

unfoldable pub deserialize_txs_content_short_ids_from_buffer :
    Bytes → ℕ → ℕ → Result (List TxContentShortIds)
deserialize_txs_content_short_ids_from_buffer buffer offset tx_count = do
  (txs, _) ← get_txs tx_count buffer offset
  ok txs
