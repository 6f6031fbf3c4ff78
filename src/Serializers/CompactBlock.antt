-- ===== src/Serializers/CompactBlock.antt =====
-- bxcommon/messages/bloxroute/compact_block_short_ids_serializer.py: the short ids of a compact block, in
-- the format of short_ids_serializer.py. Its reader gives a length where that one gives an offset.
use bxcommon.Serializers.ShortIds as ShortIds
use bxcommon.Serializers.ShortIds.{
  ul_int_size_in_bytes, put_short_ids, get_short_ids, AllFit, id_bytes, list_bytes, length-id_bytes,
  put_short_ids-Writes, get_short_ids-Reads,
}
use bxcommon.Prelude.Bytes.{Bytes, slice}
use bxcommon.Prelude.Result.{>>=_assoc, Result, ok, err, struct_error, ◌>>=◌}
use bxcommon.Prelude.{
  ℕ, zero, suc, ◌+◌, ◌-◌, ◌*◌, ◌≡◌, ◌⊎◌, refl, sym, ap, List, [], ◌∷◌, leb, length, arith,
  replicate, Bool-cases, inl, inr,
}
use bxcommon.Serializers.Wire.{from_bytes, pack_into, unpack_from}

unfoldable pub get_serialized_short_ids_bytes_len : List ℕ → ℕ
get_serialized_short_ids_bytes_len short_ids =
    ul_int_size_in_bytes + length short_ids * ul_int_size_in_bytes

unfoldable pub serialize_short_ids_into_bytes : List ℕ → Result Bytes
serialize_short_ids_into_bytes short_ids = do
  (buffer, offset) ←
      pack_into ul_int_size_in_bytes (length short_ids)
        (replicate (get_serialized_short_ids_bytes_len short_ids) 0) 0
  (buffer', _) ← put_short_ids short_ids buffer offset
  ok buffer'

-- `for _ in range(short_ids_len)`
unfoldable pub get_short_ids_at : ℕ → Bytes → ℕ → ℕ → Result (List ℕ × ℕ)
get_short_ids_at zero buffer offset len = ok ([], len)
get_short_ids_at (suc count) buffer offset len = do
  (short_id, _) ← unpack_from ul_int_size_in_bytes buffer (offset + len)
  (short_ids, len') ← get_short_ids_at count buffer offset (len + ul_int_size_in_bytes)
  ok (short_id ∷ short_ids, len')

unfoldable pub deserialize_short_ids_from_buffer : Bytes → ℕ → Result (List ℕ × ℕ)
deserialize_short_ids_from_buffer buffer offset = do
  (short_ids_len, _) ← unpack_from ul_int_size_in_bytes buffer offset
  get_short_ids_at short_ids_len buffer offset ul_int_size_in_bytes

pub record BlockOffsets : Type 0 where
  pub short_id_offset : ℕ
  pub block_begin_offset : ℕ

unfoldable pub get_bx_block_offsets : Bytes → Result BlockOffsets
get_bx_block_offsets bx_block = do
  (short_id_offset, _) ← unpack_from 8 bx_block 0
  ok (record { short_id_offset = short_id_offset; block_begin_offset = 8 })

unpack_from-cases :
    (size : ℕ) (buffer : Bytes) (offset : ℕ)
    → (unpack_from size buffer offset ≡ err struct_error)
      ⊎ ((value : ℕ) × (unpack_from size buffer offset ≡ ok (value, offset + size)))
unfolding unpack_from
unpack_from-cases size buffer offset = elim (Bool-cases (leb (offset + size) (length buffer))) [
  | inl inside ↦ inr (from_bytes (slice offset (offset + size) buffer), rw inside refl)
  | inr outside ↦ inl (rw outside refl)
]

-- The offset as a length behind where the list begins.
abbrev from_start : ℕ → Result (List ℕ × ℕ) → Result (List ℕ × ℕ)
from_start offset run = run >>= λ r. ok (r.0, r.1 - offset)

from_start-cons :
    (value offset : ℕ) (run : Result (List ℕ × ℕ))
    → (from_start offset run >>= λ r. ok (value ∷ r.0, r.1))
      ≡ from_start offset (run >>= λ r. ok (value ∷ r.0, r.1))
from_start-cons value offset (err raised) = refl
from_start-cons value offset (ok (ids, end)) = refl

get_short_ids_at_lem :
    (count : ℕ) (buffer : Bytes) (offset len : ℕ)
    → get_short_ids_at count buffer offset len
      ≡ from_start offset (get_short_ids count buffer (offset + len))
unfolding get_short_ids_at get_short_ids
get_short_ids_at_lem zero buffer offset len = ap (λ n. ok ([], n)) (omega arith)
get_short_ids_at_lem (suc count) buffer offset len =
    elim (unpack_from-cases 4 buffer (offset + len)) [
      | inl raised ↦ rw raised refl
      | inr (value, read) ↦
          let next : offset + len + 4 ≡ offset + (len + 4) = omega arith in
          let later = get_short_ids_at_lem count buffer offset (len + 4) in
          rw (read, next, later)
            (from_start-cons value offset (get_short_ids count buffer (offset + (len + 4))))
    ]

-- On every buffer, errors included, the reader of compact blocks does what the reader of
-- short_ids_serializer.py does, and gives the length of the list where that one gives the offset
-- behind it.
pub deserialize_compact_lem :
    (buffer : Bytes) (offset : ℕ)
    → deserialize_short_ids_from_buffer buffer offset
      ≡ (ShortIds.deserialize_short_ids_from_buffer buffer offset >>= λ r. ok (r.0, r.1 - offset))
unfolding deserialize_short_ids_from_buffer ShortIds.deserialize_short_ids_from_buffer
deserialize_compact_lem buffer offset = elim (unpack_from-cases 4 buffer offset) [
  | inl raised ↦ rw raised refl
  | inr (count, read) ↦ rw read (get_short_ids_at_lem count buffer offset 4)
]

-- The writer of compact blocks does what the other does.
pub serialize_compact_lem :
    (short_ids : List ℕ)
    → serialize_short_ids_into_bytes short_ids ≡ ShortIds.serialize_short_ids short_ids
unfolding serialize_short_ids_into_bytes get_serialized_short_ids_bytes_len
    ShortIds.serialize_short_ids ShortIds.serialize_short_ids_to_buffer
    ShortIds.get_serialized_length
serialize_compact_lem short_ids = sym (
    >>=_assoc (pack_into 4 (length short_ids) (replicate (4 + length short_ids * 4) 0) 0)
      (λ r. put_short_ids short_ids r.0 r.1) (λ r. ok r.0))
