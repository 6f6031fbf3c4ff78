-- ===== src/Serializers/Hash.antt =====
-- `Sha256Hash` of bxcommon/utils/object_hash.py, as its bytes.
use bxcommon.Prelude.Bytes.{assign_slice, Bytes}
use bxcommon.Prelude.Result.{Result, ok, err, value_error, ◌>>=◌}
use bxcommon.Prelude.{ℕ, ◌+◌, ◌≡◌, sym, ap, ◌∙◌, ◌++◌, ◌==◌, length, if◌then◌else◌, arith}
use bxcommon.Serializers.Wire.{
  put_slice, get_slice, Writes, Reads, put_slice-Writes, get_slice-Reads,
}

abbrev pub sha256_hash_len : ℕ
sha256_hash_len = 32

-- The constructor `Sha256Hash(binary)`.
unfoldable pub sha256_hash : Bytes → Result Bytes
sha256_hash binary = if length binary == sha256_hash_len then ok binary else err value_error

-- `Sha256Hash(buffer[offset:offset + SHA256_HASH_LEN])`
unfoldable pub get_hash : Bytes → ℕ → Result (Bytes × ℕ)
get_hash buffer offset = do
  (binary, offset') ← get_slice sha256_hash_len buffer offset
  hash ← sha256_hash binary
  ok (hash, offset')

pub get_hash-Reads : (hash : Bytes) → length hash ≡ sha256_hash_len → Reads get_hash hash hash
unfolding get_hash sha256_hash
get_hash-Reads hash len before after =
    let read : get_slice sha256_hash_len (before ++ (hash ++ after)) (length before)
        ≡ ok (hash, length (before ++ hash)) =
      ap (λ n. get_slice n (before ++ (hash ++ after)) (length before)) (sym len)
      ∙ get_slice-Reads hash before after in
    rw read (ground (arith, len))

-- `buffer[offset:offset + SHA256_HASH_LEN] = hash.binary`
unfoldable pub put_hash : Bytes → Bytes → ℕ → Result (Bytes × ℕ)
put_hash hash buffer offset =
    ok (assign_slice offset (offset + sha256_hash_len) hash buffer, offset + sha256_hash_len)

pub put_hash-Writes : (hash : Bytes) → length hash ≡ sha256_hash_len → Writes (put_hash hash) hash
unfolding put_hash put_slice
put_hash-Writes hash len done rest room =
    ap (λ n. ok (assign_slice (length done) (length done + n) hash (done ++ rest), length done + n))
      (sym len)
    ∙ put_slice-Writes hash done rest room
