-- ===== src/Serializers/ShortIds.antt =====
-- bxcommon/messages/bloxroute/short_ids_serializer.py: a list of short ids, behind its length.
use bxcommon.Prelude.Bytes.{Bytes}
use bxcommon.Prelude.Result.{Result, ok, ◌>>=◌}
use bxcommon.Prelude.{
  ℕ, zero, suc, ◌+◌, ◌*◌, ◌<◌, ◌≡◌, sym, ap, ◌∙◌, List, [], ◌∷◌, ◌++◌, length, arith, append-nil,
  length-append, replicate,
}
use bxcommon.Serializers.Wire.{
  to_bytes, bound, pack_into, unpack_from, Writes, Reads, pack_into-Writes, unpack_from-Reads,
  done-Writes, done-Reads, then-Writes, then-Reads, map-Reads, written_whole,
}

abbrev pub ul_int_size_in_bytes : ℕ
ul_int_size_in_bytes = 4

unfoldable pub get_serialized_length : ℕ → ℕ
get_serialized_length count = ul_int_size_in_bytes + count * ul_int_size_in_bytes

-- `for short_id in short_ids`
unfoldable pub put_short_ids : List ℕ → Bytes → ℕ → Result (Bytes × ℕ)
put_short_ids [] buffer offset = ok (buffer, offset)
put_short_ids (short_id ∷ short_ids) buffer offset = do
  (buffer', offset') ← pack_into ul_int_size_in_bytes short_id buffer offset
  put_short_ids short_ids buffer' offset'

unfoldable pub serialize_short_ids_to_buffer : List ℕ → Bytes → ℕ → Result (Bytes × ℕ)
serialize_short_ids_to_buffer short_ids buffer offset = do
  (buffer', offset') ← pack_into ul_int_size_in_bytes (length short_ids) buffer offset
  put_short_ids short_ids buffer' offset'

unfoldable pub serialize_short_ids : List ℕ → Result Bytes
serialize_short_ids short_ids = do
  (serialized_bytes, _) ←
      serialize_short_ids_to_buffer short_ids
        (replicate (get_serialized_length (length short_ids)) 0) 0
  ok serialized_bytes

-- `for _ in range(short_ids_count)`
unfoldable pub get_short_ids : ℕ → Bytes → ℕ → Result (List ℕ × ℕ)
get_short_ids zero buffer offset = ok ([], offset)
get_short_ids (suc count) buffer offset = do
  (short_id, offset') ← unpack_from ul_int_size_in_bytes buffer offset
  (short_ids, offset'') ← get_short_ids count buffer offset'
  ok (short_id ∷ short_ids, offset'')

unfoldable pub deserialize_short_ids_from_buffer : Bytes → ℕ → Result (List ℕ × ℕ)
deserialize_short_ids_from_buffer buffer offset = do
  (short_ids_count, offset') ← unpack_from ul_int_size_in_bytes buffer offset
  get_short_ids short_ids_count buffer offset'

unfoldable pub deserialize_short_ids : Bytes → Result (List ℕ)
deserialize_short_ids buffer = do
  (short_ids, _) ← deserialize_short_ids_from_buffer buffer 0
  ok short_ids

-- All short ids are numbers of four bytes.
abbrev pub AllFit : List ℕ → Type 0
AllFit [] = Unit
AllFit (short_id ∷ short_ids) = (short_id < bound 4) × AllFit short_ids

-- The format: each short id in four bytes.
abbrev pub id_bytes : List ℕ → Bytes
id_bytes [] = []
id_bytes (short_id ∷ short_ids) = to_bytes 4 short_id ++ id_bytes short_ids

-- And before them how many there are.
abbrev pub list_bytes : List ℕ → Bytes
list_bytes short_ids = to_bytes 4 (length short_ids) ++ id_bytes short_ids

pub length-id_bytes : (short_ids : List ℕ) → length (id_bytes short_ids) ≡ length short_ids * 4
length-id_bytes [] = omega arith
length-id_bytes (short_id ∷ short_ids) =
    omega
      (arith, length-append (to_bytes 4 short_id) (id_bytes short_ids), length-id_bytes short_ids)

pub put_short_ids-Writes :
    (short_ids : List ℕ) → AllFit short_ids → Writes (put_short_ids short_ids) (id_bytes short_ids)
unfolding put_short_ids
put_short_ids-Writes [] fit = done-Writes
put_short_ids-Writes (short_id ∷ short_ids) fit =
    then-Writes (pack_into 4 short_id) (put_short_ids short_ids) (to_bytes 4 short_id)
      (id_bytes short_ids) (pack_into-Writes 4 short_id fit.0)
      (put_short_ids-Writes short_ids fit.1)

pub get_short_ids-Reads :
    (short_ids : List ℕ)
    → AllFit short_ids
    → Reads (get_short_ids (length short_ids)) (id_bytes short_ids) short_ids
unfolding get_short_ids
get_short_ids-Reads [] fit = done-Reads []
get_short_ids-Reads (short_id ∷ short_ids) fit =
    then-Reads (unpack_from 4)
      (λ first buffer offset.
        get_short_ids (length short_ids) buffer offset >>= λ r. ok (first ∷ r.0, r.1))
      (to_bytes 4 short_id) (id_bytes short_ids) (unpack_from-Reads 4 short_id fit.0)
      (map-Reads (get_short_ids (length short_ids)) (◌∷◌ short_id) (id_bytes short_ids)
        (get_short_ids-Reads short_ids fit.1))

pub serialize_short_ids_to_buffer-Writes :
    (short_ids : List ℕ)
    → AllFit short_ids
    → length short_ids < bound 4
    → Writes (serialize_short_ids_to_buffer short_ids) (list_bytes short_ids)
unfolding serialize_short_ids_to_buffer
serialize_short_ids_to_buffer-Writes short_ids fit few =
    then-Writes (pack_into 4 (length short_ids)) (put_short_ids short_ids)
      (to_bytes 4 (length short_ids)) (id_bytes short_ids)
      (pack_into-Writes 4 (length short_ids) few) (put_short_ids-Writes short_ids fit)

-- Wherever the bytes of a list stand in a buffer, `deserialize_short_ids_from_buffer` reads the list
-- there, and gives the offset behind it.
pub deserialize_short_ids_from_buffer-Reads :
    (short_ids : List ℕ)
    → AllFit short_ids
    → length short_ids < bound 4
    → Reads deserialize_short_ids_from_buffer (list_bytes short_ids) short_ids
unfolding deserialize_short_ids_from_buffer
deserialize_short_ids_from_buffer-Reads short_ids fit few =
    then-Reads (unpack_from 4) get_short_ids (to_bytes 4 (length short_ids)) (id_bytes short_ids)
      (unpack_from-Reads 4 (length short_ids) few) (get_short_ids-Reads short_ids fit)

-- Short ids of four bytes each, fewer than four bytes count, are serialized without an error, in as
-- many bytes as `get_serialized_length` says, and deserialized to themselves.
pub deserialize_short_ids-serialize_short_ids :
    (short_ids : List ℕ)
    → AllFit short_ids
    → length short_ids < bound 4
    → (serialized : Bytes) × (serialize_short_ids short_ids ≡ ok serialized)
      × (length serialized ≡ get_serialized_length (length short_ids))
      × (deserialize_short_ids serialized ≡ ok short_ids)
unfolding serialize_short_ids get_serialized_length deserialize_short_ids
deserialize_short_ids-serialize_short_ids short_ids fit few =
    let out = list_bytes short_ids in
    let size = get_serialized_length (length short_ids) in
    let len : length out ≡ size = omega (
      arith,
      length-append (to_bytes 4 (length short_ids)) (id_bytes short_ids),
      length-id_bytes short_ids,
    ) in
    let written =
      written_whole (serialize_short_ids_to_buffer short_ids) out size
        (serialize_short_ids_to_buffer-Writes short_ids fit few) len in
    let read = deserialize_short_ids_from_buffer-Reads short_ids fit few [] [] in
    (
      out,
      ap (λ r. r >>= λ p. ok p.0) written,
      len,
      ap (λ b. deserialize_short_ids b) (sym (append-nil out)) ∙ ap (λ r. r >>= λ p. ok p.0) read,
    )
