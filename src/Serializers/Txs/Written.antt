-- ===== src/Serializers/Txs/Written.antt =====
-- The writers of bxcommon/messages/bloxroute/txs_serializer.py, for transactions with contents.
use bxcommon.Serializers.Txs.{
  TxContentShortIds, put_flags, check_flags, put_tx, put_if_complete, put_txs,
}
use bxcommon.Serializers.Hash.{sha256_hash_len, put_hash, put_hash-Writes}
use bxcommon.Serializers.ShortIds.{put_short_ids, AllFit, id_bytes, put_short_ids-Writes}
use bxcommon.Prelude.Sets.{elem}
use bxcommon.Prelude.Bytes.{Bytes}
use bxcommon.Prelude.Result.{Result, ◌>>=◌}
use bxcommon.Prelude.{
  ℕ, ◌*◌, ◌<◌, ◌≡◌, true, false, some, List, [], ◌∷◌, ◌++◌, ◌==◌, length, arith, length-append,
}
use bxcommon.Serializers.Wire.{
  to_bytes, bound, pack_into, put_slice, Writes, put_slice-Writes, pack_into-Writes, done-Writes,
  then-Writes,
}

-- A transaction with contents.
pub record FullTx : Type 0 where
  pub tx_hash : Bytes
  pub tx_content : Bytes
  pub short_ids : List ℕ
  pub short_id_flags : List ℕ

abbrev pub tx_of : FullTx → TxContentShortIds
tx_of tx = record {
  tx_hash = tx.tx_hash;
  tx_content = some tx.tx_content;
  short_ids = tx.short_ids;
  short_id_flags = tx.short_id_flags;
}

abbrev pub txs_of : List FullTx → List TxContentShortIds
txs_of [] = []
txs_of (tx ∷ txs) = tx_of tx ∷ txs_of txs

abbrev pub AllFlags : List ℕ → Type 0
AllFlags [] = Unit
AllFlags (flag ∷ flags) = (flag < 8192) × AllFlags flags

-- A hash of its length, a length of the contents and short ids that four bytes hold, of which none is
-- the null id and which two bytes count, and as many known flags.
pub record Fits (tx : FullTx) : Type 0 where
  pub hash_len : length tx.tx_hash ≡ sha256_hash_len
  pub contents_fit : length tx.tx_content < bound 4
  pub no_null : elem 0 tx.short_ids ≡ false
  pub ids_fit : AllFit tx.short_ids
  pub few : length tx.short_ids < bound 2
  pub matching : length tx.short_id_flags ≡ length tx.short_ids
  pub flags_known : AllFlags tx.short_id_flags

abbrev pub AllTxsFit : List FullTx → Type 0
AllTxsFit [] = Unit
AllTxsFit (tx ∷ txs) = Fits tx × AllTxsFit txs

abbrev pub flag_bytes : List ℕ → Bytes
flag_bytes [] = []
flag_bytes (flag ∷ flags) = to_bytes 2 flag ++ flag_bytes flags

pub length-flag_bytes : (flags : List ℕ) → length (flag_bytes flags) ≡ length flags * 2
length-flag_bytes [] = omega arith
length-flag_bytes (flag ∷ flags) =
    omega (arith, length-append (to_bytes 2 flag) (flag_bytes flags), length-flag_bytes flags)

pub put_flags-Writes :
    (flags : List ℕ) → AllFlags flags → Writes (put_flags flags) (flag_bytes flags)
unfolding put_flags
put_flags-Writes [] known = done-Writes
put_flags-Writes (flag ∷ flags) known =
    then-Writes (pack_into 2 flag) (put_flags flags) (to_bytes 2 flag) (flag_bytes flags)
      (pack_into-Writes 2 flag (omega (arith, known.0))) (put_flags-Writes flags known.1)

-- The parts of a transaction behind its contents, and behind its short ids.
abbrev pub ids_part : FullTx → Bytes
ids_part tx = id_bytes tx.short_ids ++ flag_bytes tx.short_id_flags

abbrev pub tail_part : FullTx → Bytes
tail_part tx = to_bytes 4 0 ++ (to_bytes 2 (length tx.short_ids) ++ ids_part tx)

abbrev pub tx_bytes : FullTx → Bytes
tx_bytes tx = tx.tx_hash ++ (to_bytes 4 (length tx.tx_content) ++ (tx.tx_content ++ tail_part tx))

abbrev pub txs_bytes : List FullTx → Bytes
txs_bytes [] = []
txs_bytes (tx ∷ txs) = tx_bytes tx ++ txs_bytes txs

-- The writers of these parts.
abbrev pub put_ids_part : FullTx → Bytes → ℕ → Result (Bytes × ℕ)
put_ids_part tx b o = put_short_ids tx.short_ids b o >>= λ r. check_flags (tx_of tx) r.0 r.1

abbrev pub put_counted : FullTx → Bytes → ℕ → Result (Bytes × ℕ)
put_counted tx b o = pack_into 2 (length tx.short_ids) b o >>= λ r. put_ids_part tx r.0 r.1

abbrev pub put_tail : FullTx → Bytes → ℕ → Result (Bytes × ℕ)
put_tail tx b o = pack_into 4 0 b o >>= λ r. put_counted tx r.0 r.1

check_flags-Writes :
    (tx : FullTx) → Fits tx → Writes (check_flags (tx_of tx)) (flag_bytes tx.short_id_flags)
unfolding check_flags
check_flags-Writes tx fit =
    let same : (length tx.short_id_flags == length tx.short_ids) ≡ true =
      ground (arith, fit.matching) in
    rw same (put_flags-Writes tx.short_id_flags fit.flags_known)

tail-Writes : (tx : FullTx) → Fits tx → Writes (put_tail tx) (tail_part tx)
tail-Writes tx fit =
    then-Writes (pack_into 4 0) (put_counted tx) (to_bytes 4 0)
      (to_bytes 2 (length tx.short_ids) ++ ids_part tx) (pack_into-Writes 4 0 (omega arith))
      (then-Writes (pack_into 2 (length tx.short_ids)) (put_ids_part tx)
        (to_bytes 2 (length tx.short_ids)) (ids_part tx)
        (pack_into-Writes 2 (length tx.short_ids) fit.few)
        (then-Writes (put_short_ids tx.short_ids) (check_flags (tx_of tx)) (id_bytes tx.short_ids)
          (flag_bytes tx.short_id_flags) (put_short_ids-Writes tx.short_ids fit.ids_fit)
          (check_flags-Writes tx fit)))

put_tx-Writes : (tx : FullTx) → Fits tx → Writes (put_tx (tx_of tx) tx.tx_content) (tx_bytes tx)
unfolding put_tx
put_tx-Writes tx fit =
    let xs = tx.tx_content in
    then-Writes (put_hash tx.tx_hash)
      (λ b o.
        pack_into 4 (length xs) b o >>= λ r. put_slice xs r.0 r.1 >>= λ q. put_tail tx q.0 q.1)
      tx.tx_hash (to_bytes 4 (length xs) ++ (xs ++ tail_part tx))
      (put_hash-Writes tx.tx_hash fit.hash_len)
      (then-Writes (pack_into 4 (length xs)) (λ b o. put_slice xs b o >>= λ q. put_tail tx q.0 q.1)
        (to_bytes 4 (length xs)) (xs ++ tail_part tx)
        (pack_into-Writes 4 (length xs) fit.contents_fit)
        (then-Writes (put_slice xs) (put_tail tx) xs (tail_part tx) (put_slice-Writes xs)
          (tail-Writes tx fit)))

put_if_complete-Writes : (tx : FullTx) → Fits tx → Writes (put_if_complete (tx_of tx)) (tx_bytes tx)
unfolding put_if_complete
put_if_complete-Writes tx fit = rw fit.no_null (put_tx-Writes tx fit)

pub put_txs-Writes :
    (txs : List FullTx) → AllTxsFit txs → Writes (put_txs (txs_of txs)) (txs_bytes txs)
unfolding put_txs
put_txs-Writes [] fit = done-Writes
put_txs-Writes (tx ∷ txs) fit =
    then-Writes (put_if_complete (tx_of tx)) (put_txs (txs_of txs)) (tx_bytes tx) (txs_bytes txs)
      (put_if_complete-Writes tx fit.0) (put_txs-Writes txs fit.1)
