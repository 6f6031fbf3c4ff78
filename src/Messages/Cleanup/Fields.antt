-- ===== src/Messages/Cleanup/Fields.antt =====
-- The fields of a clean-up message of abstract_cleanup_message.py, as they are written and read.
use bxcommon.Messages.Cleanup.{
  node_id_size_in_bytes, cleanup_payload_length, put_broadcast, put_hashes, get_hashes, put_cleanup,
  parse,
}
use bxcommon.Serializers.Hash.{sha256_hash_len, get_hash, get_hash-Reads, put_hash, put_hash-Writes}
use bxcommon.Serializers.ShortIds.{
  put_short_ids, get_short_ids, AllFit, id_bytes, put_short_ids-Writes, get_short_ids-Reads,
}
use bxcommon.Serializers.Wire.{
  to_bytes, bound, pack_into, unpack_from, pack_bytes, Writes, Reads, pack_bytes-Writes,
  pack_into-Writes, unpack_from-Reads, done-Writes, done-Reads, then-Writes, then-Reads, map-Reads,
}
use bxcommon.Prelude.Bytes.{Bytes}
use bxcommon.Prelude.Result.{Result, ok, ◌>>=◌}
use bxcommon.Prelude.{ℕ, ◌*◌, ◌<◌, ◌≡◌, List, [], ◌∷◌, ◌++◌, length, arith, length-append}

abbrev pub AllHashes : List Bytes → Type 0
AllHashes [] = Unit
AllHashes (tx_hash ∷ tx_hashes) = (length tx_hash ≡ sha256_hash_len) × AllHashes tx_hashes

-- Hashes and ids of their lengths, and numbers that four bytes hold.
pub record Fits (hash : Bytes) (num : ℕ) (id : Bytes) (sids : List ℕ) (tx_hashes : List Bytes)
    : Type 0 where
  pub hash_len : length hash ≡ sha256_hash_len
  pub num_fits : num < bound 4
  pub id_len : length id ≡ node_id_size_in_bytes
  pub sids_fit : AllFit sids
  pub few_sids : length sids < bound 4
  pub hashes_fit : AllHashes tx_hashes
  pub few_hashes : length tx_hashes < bound 4
  pub payload_fits : cleanup_payload_length sids tx_hashes < bound 4

unfoldable pub hashes_bytes : List Bytes → Bytes
hashes_bytes [] = []
hashes_bytes (tx_hash ∷ tx_hashes) = tx_hash ++ hashes_bytes tx_hashes

put_hashes-Writes :
    (tx_hashes : List Bytes)
    → AllHashes tx_hashes
    → Writes (put_hashes tx_hashes) (hashes_bytes tx_hashes)
unfolding put_hashes hashes_bytes
put_hashes-Writes [] fit = done-Writes
put_hashes-Writes (tx_hash ∷ tx_hashes) fit =
    then-Writes (put_hash tx_hash) (put_hashes tx_hashes) tx_hash (hashes_bytes tx_hashes)
      (put_hash-Writes tx_hash fit.0) (put_hashes-Writes tx_hashes fit.1)

get_hashes-Reads :
    (tx_hashes : List Bytes)
    → AllHashes tx_hashes
    → Reads (get_hashes (length tx_hashes)) (hashes_bytes tx_hashes) tx_hashes
unfolding get_hashes hashes_bytes
get_hashes-Reads [] fit = done-Reads []
get_hashes-Reads (tx_hash ∷ tx_hashes) fit =
    then-Reads get_hash
      (λ first buffer offset.
        get_hashes (length tx_hashes) buffer offset >>= λ r. ok (first ∷ r.0, r.1))
      tx_hash (hashes_bytes tx_hashes) (get_hash-Reads tx_hash fit.0)
      (map-Reads (get_hashes (length tx_hashes)) (◌∷◌ tx_hash) (hashes_bytes tx_hashes)
        (get_hashes-Reads tx_hashes fit.1))

pub length-hashes_bytes :
    (tx_hashes : List Bytes)
    → AllHashes tx_hashes
    → length (hashes_bytes tx_hashes) ≡ length tx_hashes * sha256_hash_len
unfolding hashes_bytes
length-hashes_bytes [] fit = omega arith
length-hashes_bytes (tx_hash ∷ tx_hashes) fit = omega (
  arith,
  length-append tx_hash (hashes_bytes tx_hashes),
  fit.0,
  length-hashes_bytes tx_hashes fit.1,
)

unfoldable pub tail_bytes : List Bytes → Bytes
tail_bytes tx_hashes = to_bytes 4 (length tx_hashes) ++ hashes_bytes tx_hashes

unfoldable pub cleanup_bytes : List ℕ → List Bytes → Bytes
cleanup_bytes sids tx_hashes = to_bytes 4 (length sids) ++ (id_bytes sids ++ tail_bytes tx_hashes)

pub put_cleanup-Writes :
    (sids : List ℕ) (tx_hashes : List Bytes)
    → AllFit sids
    → length sids < bound 4
    → AllHashes tx_hashes
    → length tx_hashes < bound 4
    → Writes (put_cleanup sids tx_hashes) (cleanup_bytes sids tx_hashes)
unfolding put_cleanup cleanup_bytes tail_bytes
put_cleanup-Writes sids tx_hashes fit few hashes_fit few_hashes =
    let counted =
      then-Writes (pack_into 4 (length tx_hashes)) (put_hashes tx_hashes)
        (to_bytes 4 (length tx_hashes)) (hashes_bytes tx_hashes)
        (pack_into-Writes 4 (length tx_hashes) few_hashes)
        (put_hashes-Writes tx_hashes hashes_fit) in
    let hashes : Bytes → ℕ → Result (Bytes × ℕ) =
      λ buf off. pack_into 4 (length tx_hashes) buf off >>= λ r. put_hashes tx_hashes r.0 r.1 in
    then-Writes (pack_into 4 (length sids))
      (λ buf off. put_short_ids sids buf off >>= λ r. hashes r.0 r.1) (to_bytes 4 (length sids))
      (id_bytes sids ++ tail_bytes tx_hashes) (pack_into-Writes 4 (length sids) few)
      (then-Writes (put_short_ids sids) hashes (id_bytes sids) (tail_bytes tx_hashes)
        (put_short_ids-Writes sids fit) counted)

pub parse-Reads :
    (sids : List ℕ) (tx_hashes : List Bytes)
    → AllFit sids
    → length sids < bound 4
    → AllHashes tx_hashes
    → length tx_hashes < bound 4
    → Reads parse (cleanup_bytes sids tx_hashes) (sids, tx_hashes)
unfolding parse cleanup_bytes tail_bytes
parse-Reads sids tx_hashes fit few hashes_fit few_hashes =
    then-Reads (unpack_from 4)
      (λ count buf off. get_short_ids count buf off >>= λ s.
        unpack_from 4 buf s.1 >>= λ c. get_hashes c.0 buf c.1 >>= λ h. ok ((s.0, h.0), h.1))
      (to_bytes 4 (length sids)) (id_bytes sids ++ tail_bytes tx_hashes)
      (unpack_from-Reads 4 (length sids) few)
      (then-Reads (get_short_ids (length sids))
        (λ ids buf off.
          unpack_from 4 buf off >>= λ c. get_hashes c.0 buf c.1 >>= λ h. ok ((ids, h.0), h.1))
        (id_bytes sids) (tail_bytes tx_hashes) (get_short_ids-Reads sids fit)
        (then-Reads (unpack_from 4)
          (λ count buf off. get_hashes count buf off >>= λ h. ok ((sids, h.0), h.1))
          (to_bytes 4 (length tx_hashes)) (hashes_bytes tx_hashes)
          (unpack_from-Reads 4 (length tx_hashes) few_hashes)
          (map-Reads (get_hashes (length tx_hashes)) (λ h. (sids, h)) (hashes_bytes tx_hashes)
            (get_hashes-Reads tx_hashes hashes_fit))))

unfoldable pub broadcast_bytes : Bytes → ℕ → Bytes → Bytes
broadcast_bytes hash num id = hash ++ (to_bytes 4 num ++ id)

pub put_broadcast-Writes :
    (hash : Bytes) (num : ℕ) (id : Bytes)
    → length hash ≡ sha256_hash_len
    → num < bound 4
    → Writes (put_broadcast hash num id) (broadcast_bytes hash num id)
unfolding put_broadcast broadcast_bytes
put_broadcast-Writes hash num id hash_len fits =
    then-Writes (put_hash hash) (λ buf off. pack_into 4 num buf off >>= λ r. pack_bytes id r.0 r.1)
      hash (to_bytes 4 num ++ id) (put_hash-Writes hash hash_len)
      (then-Writes (pack_into 4 num) (pack_bytes id) (to_bytes 4 num) id
        (pack_into-Writes 4 num fits) (pack_bytes-Writes id))
