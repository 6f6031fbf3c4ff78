-- ===== src/Serializers/Txs/RoundTrip.antt =====
-- The readers of bxcommon/messages/bloxroute/txs_serializer.py, on what its writers write.
use bxcommon.Serializers.Txs.Written.{
  FullTx, tx_of, txs_of, AllFlags, Fits, AllTxsFit, flag_bytes, length-flag_bytes, ids_part,
  tail_part, tx_bytes, txs_bytes, put_txs-Writes,
}
use bxcommon.Serializers.Txs.{
  TxContentShortIds, get_serialized_tx_content_short_ids_bytes_len,
  get_serialized_txs_content_short_ids_bytes_len, put_txs,
  serialize_txs_content_short_ids_into_bytes, transaction_flag, get_flag, get_flags, get_tx,
  get_txs, deserialize_txs_content_short_ids_from_buffer,
}
use bxcommon.Serializers.Hash.{get_hash, get_hash-Reads}
use bxcommon.Serializers.ShortIds.{get_short_ids, id_bytes, length-id_bytes, get_short_ids-Reads}
use mathlib.Core.Path.{subst}
use bxcommon.Prelude.Bytes.{Bytes}
use bxcommon.Prelude.Result.{Result, ok, ◌>>=◌}
use bxcommon.Prelude.{
  ℕ, ◌<◌, ◌≡◌, refl, ap, true, some, List, [], ◌∷◌, ◌++◌, ltb, lt→ltb, length, arith, length-append,
}
use bxcommon.Serializers.Wire.{
  to_bytes, unpack_from, get_slice, Reads, get_slice-Reads, unpack_from-Reads, done-Reads,
  then-Reads, map-Reads, written_whole, skip, skip-Reads,
}

get_flag-Reads : (flag : ℕ) → flag < 8192 → Reads get_flag (to_bytes 2 flag) flag
unfolding get_flag transaction_flag
get_flag-Reads flag known before after =
    let read = unpack_from-Reads 2 flag (omega (arith, known)) before after in
    let small : ltb flag 8192 ≡ true = lt→ltb flag 8192 known in rw (read, small) refl

get_flags-Reads :
    (flags : List ℕ) → AllFlags flags → Reads (get_flags (length flags)) (flag_bytes flags) flags
unfolding get_flags
get_flags-Reads [] known = done-Reads []
get_flags-Reads (flag ∷ flags) known =
    then-Reads get_flag
      (λ first buffer offset. get_flags (length flags) buffer offset >>= λ r. ok (first ∷ r.0, r.1))
      (to_bytes 2 flag) (flag_bytes flags) (get_flag-Reads flag known.0)
      (map-Reads (get_flags (length flags)) (◌∷◌ flag) (flag_bytes flags)
        (get_flags-Reads flags known.1))

-- The readers of these parts.
abbrev made : Bytes → Bytes → List ℕ → List ℕ → TxContentShortIds
made hash xs ids flags = record {
  tx_hash = hash;
  tx_content = some xs;
  short_ids = ids;
  short_id_flags = flags;
}

abbrev read_flags : Bytes → Bytes → ℕ → List ℕ → Bytes → ℕ → Result (TxContentShortIds × ℕ)
read_flags hash xs count ids b o = get_flags count b o >>= λ r. ok (made hash xs ids r.0, r.1)

abbrev read_ids : Bytes → Bytes → ℕ → Bytes → ℕ → Result (TxContentShortIds × ℕ)
read_ids hash xs count b o = get_short_ids count b o >>= λ r. read_flags hash xs count r.0 b r.1

abbrev read_tail : Bytes → Bytes → Bytes → ℕ → Result (TxContentShortIds × ℕ)
read_tail hash xs b o = skip 4 b o >>= λ r. unpack_from 2 b r.1 >>= λ c. read_ids hash xs c.0 b c.1

ids-Reads :
    (tx : FullTx)
    → Fits tx
    → Reads (read_ids tx.tx_hash tx.tx_content (length tx.short_ids)) (ids_part tx) (tx_of tx)
ids-Reads tx fit =
    let count = length tx.short_ids in
    then-Reads (get_short_ids count) (read_flags tx.tx_hash tx.tx_content count)
      (id_bytes tx.short_ids) (flag_bytes tx.short_id_flags)
      (get_short_ids-Reads tx.short_ids fit.ids_fit)
      (map-Reads (get_flags count) (made tx.tx_hash tx.tx_content tx.short_ids)
        (flag_bytes tx.short_id_flags)
        (subst (λ n. Reads (get_flags n) (flag_bytes tx.short_id_flags) tx.short_id_flags)
          fit.matching (get_flags-Reads tx.short_id_flags fit.flags_known)))

tail-Reads :
    (tx : FullTx) → Fits tx → Reads (read_tail tx.tx_hash tx.tx_content) (tail_part tx) (tx_of tx)
tail-Reads tx fit =
    let count = length tx.short_ids in
    then-Reads (skip 4)
      (λ _ b o. unpack_from 2 b o >>= λ c. read_ids tx.tx_hash tx.tx_content c.0 b c.1)
      (to_bytes 4 0) (to_bytes 2 count ++ ids_part tx) (skip-Reads (to_bytes 4 0))
      (then-Reads (unpack_from 2) (read_ids tx.tx_hash tx.tx_content) (to_bytes 2 count)
        (ids_part tx) (unpack_from-Reads 2 count fit.few) (ids-Reads tx fit))

pub get_tx-Reads : (tx : FullTx) → Fits tx → Reads get_tx (tx_bytes tx) (tx_of tx)
unfolding get_tx
get_tx-Reads tx fit =
    let xs = tx.tx_content in
    then-Reads get_hash
      (λ h b o. unpack_from 4 b o >>= λ n. get_slice n.0 b n.1 >>= λ c. read_tail h c.0 b c.1)
      tx.tx_hash (to_bytes 4 (length xs) ++ (xs ++ tail_part tx))
      (get_hash-Reads tx.tx_hash fit.hash_len)
      (then-Reads (unpack_from 4) (λ n b o. get_slice n b o >>= λ c. read_tail tx.tx_hash c.0 b c.1)
        (to_bytes 4 (length xs)) (xs ++ tail_part tx)
        (unpack_from-Reads 4 (length xs) fit.contents_fit)
        (then-Reads (get_slice (length xs)) (read_tail tx.tx_hash) xs (tail_part tx)
          (get_slice-Reads xs) (tail-Reads tx fit)))

pub get_txs-Reads :
    (txs : List FullTx)
    → AllTxsFit txs
    → Reads (get_txs (length (txs_of txs))) (txs_bytes txs) (txs_of txs)
unfolding get_txs
get_txs-Reads [] fit = done-Reads []
get_txs-Reads (tx ∷ txs) fit =
    then-Reads get_tx
      (λ first b o. get_txs (length (txs_of txs)) b o >>= λ r. ok (first ∷ r.0, r.1)) (tx_bytes tx)
      (txs_bytes txs) (get_tx-Reads tx fit.0)
      (map-Reads (get_txs (length (txs_of txs))) (◌∷◌ (tx_of tx)) (txs_bytes txs)
        (get_txs-Reads txs fit.1))

length-tx_bytes :
    (tx : FullTx)
    → Fits tx
    → length (tx_bytes tx) ≡ get_serialized_tx_content_short_ids_bytes_len (tx_of tx)
unfolding get_serialized_tx_content_short_ids_bytes_len
length-tx_bytes tx fit =
    let xs = tx.tx_content in
    let count = length tx.short_ids in
    omega (
      arith,
      fit.hash_len,
      fit.matching,
      length-id_bytes tx.short_ids,
      length-flag_bytes tx.short_id_flags,
      length-append tx.tx_hash (to_bytes 4 (length xs) ++ (xs ++ tail_part tx)),
      length-append (to_bytes 4 (length xs)) (xs ++ tail_part tx),
      length-append xs (tail_part tx),
      length-append (to_bytes 4 0) (to_bytes 2 count ++ ids_part tx),
      length-append (to_bytes 2 count) (ids_part tx),
      length-append (id_bytes tx.short_ids) (flag_bytes tx.short_id_flags),
    )

length-txs_bytes :
    (txs : List FullTx)
    → AllTxsFit txs
    → length (txs_bytes txs) ≡ get_serialized_txs_content_short_ids_bytes_len (txs_of txs)
unfolding get_serialized_txs_content_short_ids_bytes_len
length-txs_bytes [] fit = refl
length-txs_bytes (tx ∷ txs) fit = omega (
  arith,
  length-append (tx_bytes tx) (txs_bytes txs),
  length-tx_bytes tx fit.0,
  length-txs_bytes txs fit.1,
)

-- Transactions with contents and without the null id, whose flags are known and as many as their
-- short ids, and whose numbers fit their fields, are serialized without an error, in as many bytes
-- as the length function says, and deserialized, from wherever the bytes stand, to themselves.
pub deserialize_txs-serialize_txs :
    (txs : List FullTx)
    → AllTxsFit txs
    → (before after : Bytes)
    → (serialized : Bytes) × (serialize_txs_content_short_ids_into_bytes (txs_of txs)
        ≡ ok serialized)
      × (length serialized ≡ get_serialized_txs_content_short_ids_bytes_len (txs_of txs))
      × (deserialize_txs_content_short_ids_from_buffer
            (before ++ (serialized ++ after))
            (length before)
            (length (txs_of txs))
          ≡ ok (txs_of txs))
unfolding serialize_txs_content_short_ids_into_bytes deserialize_txs_content_short_ids_from_buffer
deserialize_txs-serialize_txs txs fit before after =
    let out = txs_bytes txs in
    let len = length-txs_bytes txs fit in
    let written =
      written_whole (put_txs (txs_of txs)) out
        (get_serialized_txs_content_short_ids_bytes_len (txs_of txs)) (put_txs-Writes txs fit)
        len in
    (
      out,
      ap (λ r. r >>= λ p. ok p.0) written,
      len,
      ap (λ r. r >>= λ p. ok p.0) (get_txs-Reads txs fit before after),
    )
