-- ===== src/Serializers/Infos/RoundTrip.antt =====
-- The writers and readers of bxcommon/messages/bloxroute/transactions_info_serializer.py.
use bxcommon.Serializers.Infos.{
  TransactionInfo, required, add_contents_len, get_serialized_length, put_info, put_infos,
  serialize_transactions_info_to_buffer, serialize_transactions_info, get_info, get_infos,
  deserialize_transactions_info_from_buffer, deserialize_transactions_info,
}
use bxcommon.Serializers.Hash.{sha256_hash_len, get_hash, get_hash-Reads, put_hash, put_hash-Writes}
use bxcommon.Prelude.Bytes.{Bytes}
use bxcommon.Prelude.Result.{Result, ok, ◌>>=◌}
use bxcommon.Prelude.{
  ℕ, suc, ◌+◌, ◌*◌, ◌<◌, ◌≡◌, refl, sym, ap, ◌∙◌, some, List, [], ◌∷◌, ◌++◌, length, arith,
  append-nil, length-append, replicate,
}
use bxcommon.Serializers.Wire.{
  to_bytes, bound, pack_into, unpack_from, put_slice, get_slice, Writes, Reads, put_slice-Writes,
  get_slice-Reads, pack_into-Writes, unpack_from-Reads, done-Writes, done-Reads, then-Writes,
  then-Reads, map-Reads, written_whole,
}

-- A transaction with all its parts.
pub record FullInfo : Type 0 where
  pub hash : Bytes
  pub contents : Bytes
  pub short_id : ℕ

abbrev pub info : FullInfo → TransactionInfo
info tx = record { hash = some tx.hash; contents = some tx.contents; short_id = some tx.short_id }

abbrev pub infos : List FullInfo → List TransactionInfo
infos [] = []
infos (tx ∷ txs) = info tx ∷ infos txs

-- A hash of its length, and a short id and a length of the contents that four bytes hold.
pub record Fits (tx : FullInfo) : Type 0 where
  pub hash_len : length tx.hash ≡ sha256_hash_len
  pub id_fits : tx.short_id < bound 4
  pub contents_fit : length tx.contents < bound 4

abbrev pub AllInfosFit : List FullInfo → Type 0
AllInfosFit [] = Unit
AllInfosFit (tx ∷ txs) = Fits tx × AllInfosFit txs

abbrev sized_bytes : Bytes → Bytes
sized_bytes xs = to_bytes 4 (length xs) ++ xs

abbrev info_bytes : FullInfo → Bytes
info_bytes tx = to_bytes 4 tx.short_id ++ (tx.hash ++ sized_bytes tx.contents)

abbrev infos_bytes : List FullInfo → Bytes
infos_bytes [] = []
infos_bytes (tx ∷ txs) = info_bytes tx ++ infos_bytes txs

put_info-Writes : (tx : FullInfo) → Fits tx → Writes (put_info (info tx)) (info_bytes tx)
unfolding put_info required
put_info-Writes tx fit =
    let size = length tx.contents in
    let put_sized : Bytes → ℕ → Result (Bytes × ℕ) =
      λ buffer offset. pack_into 4 size buffer offset >>= λ r. put_slice tx.contents r.0 r.1 in
    then-Writes (pack_into 4 tx.short_id)
      (λ buffer offset. put_hash tx.hash buffer offset >>= λ r. put_sized r.0 r.1)
      (to_bytes 4 tx.short_id) (tx.hash ++ sized_bytes tx.contents)
      (pack_into-Writes 4 tx.short_id fit.id_fits)
      (then-Writes (put_hash tx.hash) put_sized tx.hash (sized_bytes tx.contents)
        (put_hash-Writes tx.hash fit.hash_len)
        (then-Writes (pack_into 4 size) (put_slice tx.contents) (to_bytes 4 size) tx.contents
          (pack_into-Writes 4 size fit.contents_fit) (put_slice-Writes tx.contents)))

put_infos-Writes :
    (txs : List FullInfo) → AllInfosFit txs → Writes (put_infos (infos txs)) (infos_bytes txs)
unfolding put_infos
put_infos-Writes [] fit = done-Writes
put_infos-Writes (tx ∷ txs) fit =
    then-Writes (put_info (info tx)) (put_infos (infos txs)) (info_bytes tx) (infos_bytes txs)
      (put_info-Writes tx fit.0) (put_infos-Writes txs fit.1)

get_info-Reads : (tx : FullInfo) → Fits tx → Reads get_info (info_bytes tx) (info tx)
unfolding get_info
get_info-Reads tx fit =
    let size = length tx.contents in
    let end : ℕ → Bytes → Bytes → TransactionInfo =
      λ sid hash xs. record { hash = some hash; contents = some xs; short_id = some sid } in
    then-Reads (unpack_from 4)
      (λ sid buffer offset. get_hash buffer offset >>= λ h. unpack_from 4 buffer h.1 >>= λ c.
        get_slice c.0 buffer c.1 >>= λ r. ok (end sid h.0 r.0, r.1))
      (to_bytes 4 tx.short_id) (tx.hash ++ sized_bytes tx.contents)
      (unpack_from-Reads 4 tx.short_id fit.id_fits)
      (then-Reads get_hash
        (λ hash buffer offset. unpack_from 4 buffer offset >>= λ c.
          get_slice c.0 buffer c.1 >>= λ r. ok (end tx.short_id hash r.0, r.1))
        tx.hash (sized_bytes tx.contents) (get_hash-Reads tx.hash fit.hash_len)
        (then-Reads (unpack_from 4)
          (λ count buffer offset.
            get_slice count buffer offset >>= λ r. ok (end tx.short_id tx.hash r.0, r.1))
          (to_bytes 4 size) tx.contents (unpack_from-Reads 4 size fit.contents_fit)
          (map-Reads (get_slice size) (end tx.short_id tx.hash) tx.contents
            (get_slice-Reads tx.contents))))

get_infos-Reads :
    (txs : List FullInfo)
    → AllInfosFit txs
    → Reads (get_infos (length (infos txs))) (infos_bytes txs) (infos txs)
unfolding get_infos
get_infos-Reads [] fit = done-Reads []
get_infos-Reads (tx ∷ txs) fit =
    then-Reads get_info
      (λ first buffer offset.
        get_infos (length (infos txs)) buffer offset >>= λ r. ok (first ∷ r.0, r.1))
      (info_bytes tx) (infos_bytes txs) (get_info-Reads tx fit.0)
      (map-Reads (get_infos (length (infos txs))) (◌∷◌ (info tx)) (infos_bytes txs)
        (get_infos-Reads txs fit.1))

add_contents_len_lem :
    (txs : List FullInfo) (n : ℕ)
    → AllInfosFit txs
    → add_contents_len (infos txs) (n + length (infos txs) * 40) ≡ ok (n + length (infos_bytes txs))
unfolding add_contents_len required
add_contents_len_lem [] n fit = ap ok (omega arith)
add_contents_len_lem (tx ∷ txs) n fit =
    let len = length (info_bytes tx) in
    let parts : len ≡ 40 + length tx.contents = omega (
      arith,
      fit.0.hash_len,
      length-append (to_bytes 4 tx.short_id) (tx.hash ++ sized_bytes tx.contents),
      length-append tx.hash (sized_bytes tx.contents),
      length-append (to_bytes 4 (length tx.contents)) tx.contents,
    ) in
    let next : n + (suc (length (infos txs))) * 40 + length tx.contents
        ≡ (n + len) + length (infos txs) * 40 =
      omega (arith, parts) in
    let total = length-append (info_bytes tx) (infos_bytes txs) in
    ap (add_contents_len (infos txs)) next
    ∙ add_contents_len_lem txs (n + len) fit.1
    ∙ ap ok (omega (arith, total))

abbrev list_of : List FullInfo → Bytes
list_of txs = to_bytes 4 (length (infos txs)) ++ infos_bytes txs

-- Transactions with all their parts, whose hashes have their length, whose short ids and lengths are
-- numbers of four bytes, and no more than four bytes count, are serialized without an error, and
-- deserialized to themselves.
pub deserialize_info-serialize_info :
    (txs : List FullInfo)
    → AllInfosFit txs
    → length (infos txs) < bound 4
    → (serialized : Bytes) × (serialize_transactions_info (infos txs) ≡ ok serialized)
      × (get_serialized_length (infos txs) ≡ ok (length serialized))
      × (deserialize_transactions_info serialized ≡ ok (infos txs))
unfolding serialize_transactions_info serialize_transactions_info_to_buffer get_serialized_length
    deserialize_transactions_info deserialize_transactions_info_from_buffer
deserialize_info-serialize_info txs fit few =
    let count = length (infos txs) in
    let out = list_of txs in
    let total = length-append (to_bytes 4 count) (infos_bytes txs) in
    let size : get_serialized_length (infos txs) ≡ ok (length out) =
      add_contents_len_lem txs 4 fit ∙ ap ok (omega (arith, total)) in
    let written =
      written_whole (serialize_transactions_info_to_buffer (infos txs)) out (length out)
        (then-Writes (pack_into 4 count) (put_infos (infos txs)) (to_bytes 4 count)
          (infos_bytes txs) (pack_into-Writes 4 count few) (put_infos-Writes txs fit))
        refl in
    let read =
      then-Reads (unpack_from 4) get_infos (to_bytes 4 count) (infos_bytes txs)
        (unpack_from-Reads 4 count few) (get_infos-Reads txs fit) [] [] in
    (
      out,
      ap
            (λ s. s >>= λ n.
              serialize_transactions_info_to_buffer (infos txs) (replicate n 0) 0 >>= λ p. ok p.0)
            size
          ∙ ap (λ r. r >>= λ p. ok p.0) written,
      size,
      ap (λ b. deserialize_transactions_info b) (sym (append-nil out))
          ∙ ap (λ r. r >>= λ p. ok p.0) read,
    )
