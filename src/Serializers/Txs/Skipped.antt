-- ===== src/Serializers/Txs/Skipped.antt =====
-- A transaction without contents in bxcommon/messages/bloxroute/txs_serializer.py.

use bxcommon.Serializers.Txs.Written.{FullTx, Fits, tx_bytes}
use bxcommon.Serializers.Txs.RoundTrip.{get_txs-Reads}
use bxcommon.Serializers.Txs.{
  TxContentShortIds, get_serialized_tx_content_short_ids_bytes_len,
  get_serialized_txs_content_short_ids_bytes_len, put_if_complete, put_txs,
  serialize_txs_content_short_ids_into_bytes, deserialize_txs_content_short_ids_from_buffer,
}
use bxcommon.Prelude.Bytes.{Bytes}
use bxcommon.Prelude.Result.{ok, ◌>>=◌}
use bxcommon.Prelude.{
  ◌+◌, ◌*◌, ◌≡◌, refl, ap, ◌∙◌, none, some, [], ◌∷◌, ◌++◌, length, replicate_add, arith, replicate,
}

abbrev null_tx : FullTx
null_tx = record { tx_hash = replicate 32 0; tx_content = []; short_ids = []; short_id_flags = [] }

null_tx-Fits : Fits null_tx
null_tx-Fits = record {
  hash_len = refl;
  contents_fit = omega arith;
  no_null = refl;
  ids_fit = tt;
  few = omega arith;
  matching = refl;
  flags_known = tt;
}

-- A transaction without contents is serialized as zeros, without an error. The receiver of the list,
-- which is told its length, reads in its place a transaction with the null hash, empty contents and
-- no short ids, whatever the transaction's hash and short ids were.
pub serialize_txs_missing :
    (tx : TxContentShortIds)
    → tx.tx_content ≡ none
    → (serialized : Bytes) × (serialize_txs_content_short_ids_into_bytes (tx ∷ []) ≡ ok serialized)
      × (deserialize_txs_content_short_ids_from_buffer serialized 0 1
          ≡ ok (
              record {
                tx_hash = replicate 32 0;
                tx_content = some [];
                short_ids = [];
                short_id_flags = [];
              }
              ∷ []))
unfolding serialize_txs_content_short_ids_into_bytes deserialize_txs_content_short_ids_from_buffer
    put_txs put_if_complete get_serialized_txs_content_short_ids_bytes_len
    get_serialized_tx_content_short_ids_bytes_len
serialize_txs_missing tx missing =
    let more = 6 * length tx.short_ids in
    let zeros : replicate (42 + more) 0 ≡ tx_bytes null_tx ++ replicate more 0 =
      replicate_add 42 more 0 in
    let read = get_txs-Reads (null_tx ∷ []) (null_tx-Fits, tt) [] (replicate more 0) in
    (
      replicate (42 + more) 0,
      rw missing (ap (λ n. ok (replicate n 0)) (omega arith)),
      ap (λ b. deserialize_txs_content_short_ids_from_buffer b 0 1) zeros
          ∙ ap (λ t. t >>= λ r. ok r.0) read,
    )
