-- ===== src/Serializers/Tests.antt =====
-- The theorems of the serializers at concrete lists.
use bxcommon.Serializers.Txs.Written.{FullTx, txs_of}
use bxcommon.Serializers.Txs.RoundTrip.{deserialize_txs-serialize_txs}
use bxcommon.Prelude.Bytes.{Bytes}
use bxcommon.Prelude.Result.{ok}
use bxcommon.Prelude.{◌≡◌, refl, none, [], ◌∷◌, ◌++◌, length, replicate, arith}
use bxcommon.Serializers.Blocks.{
  BlockShortIds, serialize_blocks_short_ids_into_bytes, deserialize_blocks_short_ids_from_buffer,
  get_serialized_blocks_short_ids_bytes_len, deserialize_blocks-serialize_blocks,
}
use bxcommon.Serializers.Infos.RoundTrip.{FullInfo}
use bxcommon.Serializers.Txs.{
  TxContentShortIds, serialize_txs_content_short_ids_into_bytes,
  deserialize_txs_content_short_ids_from_buffer, get_serialized_txs_content_short_ids_bytes_len,
}

-- A buffer that ends inside the second short id.
abbrev cut_short : Bytes
cut_short = 9 ∷ 2 ∷ 0 ∷ 0 ∷ 0 ∷ 7 ∷ 0 ∷ 0 ∷ 0 ∷ 8 ∷ []

abbrev zero_hash : Bytes
zero_hash = replicate 32 0

abbrev one_block : BlockShortIds
one_block = record { block_hash = zero_hash; short_ids = 4 ∷ 70000 ∷ [] }

deserialize_blocks-serialize_blocks_example :
    let blocks = one_block ∷ one_block ∷ [] in
    (serialized : Bytes) × (serialize_blocks_short_ids_into_bytes blocks ≡ ok serialized)
    × (length serialized ≡ get_serialized_blocks_short_ids_bytes_len blocks)
    × (deserialize_blocks_short_ids_from_buffer ((1 ∷ 2 ∷ []) ++ (serialized ++ (3 ∷ []))) 2 2
        ≡ ok blocks)
deserialize_blocks-serialize_blocks_example =
    deserialize_blocks-serialize_blocks (one_block ∷ one_block ∷ [])
      (
        record { hash_len = refl; ids_fit = (omega arith, (omega arith, tt)); few = omega arith },
        (
          record { hash_len = refl; ids_fit = (omega arith, (omega arith, tt)); few = omega arith },
          tt,
        ),
      )
      (1 ∷ 2 ∷ []) (3 ∷ [])

abbrev one_info : FullInfo
one_info = record { hash = zero_hash; contents = 5 ∷ 6 ∷ []; short_id = 300 }

abbrev one_tx : FullTx
one_tx = record {
  tx_hash = zero_hash;
  tx_content = 5 ∷ 6 ∷ 7 ∷ [];
  short_ids = 8 ∷ 9 ∷ [];
  short_id_flags = 0 ∷ 2 ∷ [];
}

deserialize_txs-serialize_txs_example :
    let txs = txs_of (one_tx ∷ []) in
    (serialized : Bytes) × (serialize_txs_content_short_ids_into_bytes txs ≡ ok serialized)
    × (length serialized ≡ get_serialized_txs_content_short_ids_bytes_len txs)
    × (deserialize_txs_content_short_ids_from_buffer ((1 ∷ []) ++ (serialized ++ (2 ∷ []))) 1 1
        ≡ ok txs)
deserialize_txs-serialize_txs_example =
    deserialize_txs-serialize_txs (one_tx ∷ [])
      (
        record {
          hash_len = refl;
          contents_fit = omega arith;
          no_null = refl;
          ids_fit = (omega arith, (omega arith, tt));
          few = omega arith;
          matching = refl;
          flags_known = (omega arith, (omega arith, tt));
        },
        tt,
      )
      (1 ∷ []) (2 ∷ [])

abbrev missing_contents : TxContentShortIds
missing_contents = record {
  tx_hash = replicate 32 7;
  tx_content = none;
  short_ids = 8 ∷ [];
  short_id_flags = 0 ∷ [];
}
