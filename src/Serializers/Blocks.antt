-- ===== src/Serializers/Blocks.antt =====
-- bxcommon/messages/bloxroute/blocks_short_ids_serializer.py: blocks, each with its hash and short ids.
use bxcommon.Serializers.Hash.{sha256_hash_len, get_hash, get_hash-Reads, put_hash, put_hash-Writes}
use bxcommon.Serializers.ShortIds.{
  ul_int_size_in_bytes, put_short_ids, get_short_ids, AllFit, id_bytes, list_bytes, length-id_bytes,
  put_short_ids-Writes, get_short_ids-Reads,
}
use bxcommon.Prelude.Bytes.{Bytes}
use bxcommon.Prelude.Result.{Result, ok, ◌>>=◌}
use bxcommon.Prelude.{
  ℕ, zero, suc, ◌+◌, ◌*◌, ◌<◌, ◌≡◌, ap, List, [], ◌∷◌, ◌++◌, length, arith, length-append,
  replicate,
}
use bxcommon.Serializers.Wire.{
  to_bytes, bound, pack_into, unpack_from, Writes, Reads, pack_into-Writes, unpack_from-Reads,
  done-Writes, done-Reads, then-Writes, then-Reads, map-Reads, written_whole,
}

pub record BlockShortIds : Type 0 where
  pub block_hash : Bytes
  pub short_ids : List ℕ

-- `sum([len(block_short_ids.short_ids) for block_short_ids in blocks_short_ids])`
unfoldable pub count_short_ids : List BlockShortIds → ℕ
count_short_ids [] = 0
count_short_ids (block ∷ blocks) = length block.short_ids + count_short_ids blocks

unfoldable pub get_serialized_blocks_short_ids_bytes_len : List BlockShortIds → ℕ
get_serialized_blocks_short_ids_bytes_len blocks =
    length blocks * sha256_hash_len
    + length blocks * ul_int_size_in_bytes
    + count_short_ids blocks * ul_int_size_in_bytes

-- The body of the loop in `serialize_blocks_short_ids_into_bytes`.
unfoldable pub put_block : BlockShortIds → Bytes → ℕ → Result (Bytes × ℕ)
put_block block buffer off = do
  (buffer1, off1) ← put_hash block.block_hash buffer off
  (buffer2, off2) ← pack_into ul_int_size_in_bytes (length block.short_ids) buffer1 off1
  put_short_ids block.short_ids buffer2 off2

unfoldable pub put_blocks : List BlockShortIds → Bytes → ℕ → Result (Bytes × ℕ)
put_blocks [] buffer off = ok (buffer, off)
put_blocks (block ∷ blocks) buffer off = do
  (buffer', off') ← put_block block buffer off
  put_blocks blocks buffer' off'

unfoldable pub serialize_blocks_short_ids_into_bytes : List BlockShortIds → Result Bytes
serialize_blocks_short_ids_into_bytes blocks = do
  (buffer, _) ← put_blocks blocks (replicate (get_serialized_blocks_short_ids_bytes_len blocks) 0) 0
  ok buffer

-- The body of the loop in `deserialize_blocks_short_ids_from_buffer`.
unfoldable pub get_block : Bytes → ℕ → Result (BlockShortIds × ℕ)
get_block buffer offset = do
  (block_hash, offset1) ← get_hash buffer offset
  (short_ids_count, offset2) ← unpack_from ul_int_size_in_bytes buffer offset1
  (short_ids, offset3) ← get_short_ids short_ids_count buffer offset2
  ok (record { block_hash = block_hash; short_ids = short_ids }, offset3)

unfoldable pub get_blocks : ℕ → Bytes → ℕ → Result (List BlockShortIds × ℕ)
get_blocks zero buffer offset = ok ([], offset)
get_blocks (suc block_count) buffer offset = do
  (block, offset') ← get_block buffer offset
  (blocks, offset'') ← get_blocks block_count buffer offset'
  ok (block ∷ blocks, offset'')

unfoldable pub deserialize_blocks_short_ids_from_buffer :
    Bytes → ℕ → ℕ → Result (List BlockShortIds)
deserialize_blocks_short_ids_from_buffer buffer offset block_count = do
  (blocks, _) ← get_blocks block_count buffer offset
  ok blocks

-- A hash of its length, and short ids that four bytes hold, as many as four bytes count.
pub record Fits (block : BlockShortIds) : Type 0 where
  pub hash_len : length block.block_hash ≡ sha256_hash_len
  pub ids_fit : AllFit block.short_ids
  pub few : length block.short_ids < bound 4

abbrev pub AllBlocksFit : List BlockShortIds → Type 0
AllBlocksFit [] = Unit
AllBlocksFit (block ∷ blocks) = Fits block × AllBlocksFit blocks

abbrev pub block_bytes : BlockShortIds → Bytes
block_bytes block = block.block_hash ++ list_bytes block.short_ids

abbrev pub blocks_bytes : List BlockShortIds → Bytes
blocks_bytes [] = []
blocks_bytes (block ∷ blocks) = block_bytes block ++ blocks_bytes blocks

put_block-Writes :
    (block : BlockShortIds) → Fits block → Writes (put_block block) (block_bytes block)
unfolding put_block
put_block-Writes block fit =
    let ids = block.short_ids in
    then-Writes (put_hash block.block_hash)
      (λ buffer off. pack_into 4 (length ids) buffer off >>= λ r. put_short_ids ids r.0 r.1)
      block.block_hash (list_bytes ids) (put_hash-Writes block.block_hash fit.hash_len)
      (then-Writes (pack_into 4 (length ids)) (put_short_ids ids) (to_bytes 4 (length ids))
        (id_bytes ids) (pack_into-Writes 4 (length ids) fit.few)
        (put_short_ids-Writes ids fit.ids_fit))

put_blocks-Writes :
    (blocks : List BlockShortIds)
    → AllBlocksFit blocks
    → Writes (put_blocks blocks) (blocks_bytes blocks)
unfolding put_blocks
put_blocks-Writes [] fit = done-Writes
put_blocks-Writes (block ∷ blocks) fit =
    then-Writes (put_block block) (put_blocks blocks) (block_bytes block) (blocks_bytes blocks)
      (put_block-Writes block fit.0) (put_blocks-Writes blocks fit.1)

get_block-Reads : (block : BlockShortIds) → Fits block → Reads get_block (block_bytes block) block
unfolding get_block
get_block-Reads block fit =
    let ids = block.short_ids in
    then-Reads get_hash
      (λ hash buffer offset. unpack_from 4 buffer offset >>= λ c.
        get_short_ids c.0 buffer c.1 >>= λ r.
        ok (record { block_hash = hash; short_ids = r.0 }, r.1))
      block.block_hash (list_bytes ids) (get_hash-Reads block.block_hash fit.hash_len)
      (then-Reads (unpack_from 4)
        (λ count buffer offset. get_short_ids count buffer offset >>= λ r.
          ok (record { block_hash = block.block_hash; short_ids = r.0 }, r.1))
        (to_bytes 4 (length ids)) (id_bytes ids) (unpack_from-Reads 4 (length ids) fit.few)
        (map-Reads (get_short_ids (length ids))
          (λ is. record { block_hash = block.block_hash; short_ids = is }) (id_bytes ids)
          (get_short_ids-Reads ids fit.ids_fit)))

get_blocks-Reads :
    (blocks : List BlockShortIds)
    → AllBlocksFit blocks
    → Reads (get_blocks (length blocks)) (blocks_bytes blocks) blocks
unfolding get_blocks
get_blocks-Reads [] fit = done-Reads []
get_blocks-Reads (block ∷ blocks) fit =
    then-Reads get_block
      (λ first buffer offset.
        get_blocks (length blocks) buffer offset >>= λ r. ok (first ∷ r.0, r.1))
      (block_bytes block) (blocks_bytes blocks) (get_block-Reads block fit.0)
      (map-Reads (get_blocks (length blocks)) (◌∷◌ block) (blocks_bytes blocks)
        (get_blocks-Reads blocks fit.1))

length-blocks_bytes :
    (blocks : List BlockShortIds)
    → AllBlocksFit blocks
    → length (blocks_bytes blocks) ≡ get_serialized_blocks_short_ids_bytes_len blocks
unfolding get_serialized_blocks_short_ids_bytes_len count_short_ids
length-blocks_bytes [] fit = omega arith
length-blocks_bytes (block ∷ blocks) fit = omega (
  arith,
  length-blocks_bytes blocks fit.1,
  fit.0.hash_len,
  length-append (block_bytes block) (blocks_bytes blocks),
  length-append block.block_hash (list_bytes block.short_ids),
  length-append (to_bytes 4 (length block.short_ids)) (id_bytes block.short_ids),
  length-id_bytes block.short_ids,
)

-- Blocks whose hashes have their length, and whose short ids are numbers of four bytes and no more
-- than four bytes count, are serialized without an error, in as many bytes as the length function
-- says, and deserialized, from wherever the bytes stand, to themselves.
pub deserialize_blocks-serialize_blocks :
    (blocks : List BlockShortIds)
    → AllBlocksFit blocks
    → (before after : Bytes)
    → (serialized : Bytes) × (serialize_blocks_short_ids_into_bytes blocks ≡ ok serialized)
      × (length serialized ≡ get_serialized_blocks_short_ids_bytes_len blocks)
      × (deserialize_blocks_short_ids_from_buffer
            (before ++ (serialized ++ after))
            (length before)
            (length blocks)
          ≡ ok blocks)
unfolding serialize_blocks_short_ids_into_bytes deserialize_blocks_short_ids_from_buffer
deserialize_blocks-serialize_blocks blocks fit before after =
    let out = blocks_bytes blocks in
    let len = length-blocks_bytes blocks fit in
    let written =
      written_whole (put_blocks blocks) out (get_serialized_blocks_short_ids_bytes_len blocks)
        (put_blocks-Writes blocks fit) len in
    (
      out,
      ap (λ r. r >>= λ p. ok p.0) written,
      len,
      ap (λ r. r >>= λ p. ok p.0) (get_blocks-Reads blocks fit before after),
    )
