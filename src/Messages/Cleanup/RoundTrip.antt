-- ===== src/Messages/Cleanup/RoundTrip.antt =====
-- A new clean-up message of abstract_cleanup_message.py, and what its methods read from it.
use mathlib.Core.Path.{subst}
use bxcommon.Messages.Cleanup.Fields.{
  Fits, broadcast_bytes, cleanup_bytes, tail_bytes, hashes_bytes, put_broadcast-Writes,
  put_cleanup-Writes, parse-Reads, length-hashes_bytes,
}
use bxcommon.Messages.Cleanup.{
  node_id_size_in_bytes, cleanup_payload_length, put_broadcast, init_broadcast, message_hash,
  network_num, source_id, put_cleanup, init_cleanup, parse, short_ids, transaction_hashes,
  source_id_offset, payload_start_offset,
}
use bxcommon.Messages.Message.Header.{
  IsType, header, length-header, framed, marked, length-marked, init_bloxroute-framed,
  unpack-framed,
}
use bxcommon.Messages.Message.{Message, bloxroute_message, starting_sequence_bytes, unpack}
use bxcommon.Serializers.Hash.{sha256_hash_len, get_hash, get_hash-Reads}
use bxcommon.Serializers.ShortIds.{id_bytes, length-id_bytes}
use bxcommon.Serializers.Wire.{
  to_bytes, length-to_bytes, bound, unpack_from, unpack_bytes, Reads, unpack_bytes-Reads,
  unpack_from-Reads,
}
use bxcommon.Prelude.Bytes.{Bytes}
use bxcommon.Prelude.Result.{Result, ok, ◌>>=◌, >>=_assoc}
use bxcommon.Prelude.{
  ℕ, ◌+◌, ◌*◌, ◌<◌, ◌≤◌, ◌≡◌, refl, sym, ap, ◌∙◌, List, ◌++◌, length, drop, arith, append_assoc,
  length-append, length-drop, replicate, length-replicate,
}

-- The part of the message before the fields.
start_of : Bytes → ℕ → Bytes
start_of t n = starting_sequence_bytes ++ header t n

length-start_of : (t : Bytes) (n : ℕ) → length (start_of t n) ≡ bloxroute_message.header_length
unfolding start_of
length-start_of t n =
    omega (arith, length-append starting_sequence_bytes (header t n), length-header t n)

length-broadcast_bytes :
    (hash : Bytes) (num : ℕ) (id : Bytes)
    → length hash ≡ sha256_hash_len
    → length id ≡ node_id_size_in_bytes
    → length (broadcast_bytes hash num id) ≡ 52
unfolding broadcast_bytes
length-broadcast_bytes hash num id h g = omega (
  arith,
  length-append hash (to_bytes 4 num ++ id),
  length-append (to_bytes 4 num) id,
  length-to_bytes 4 num,
  h,
  g,
)

length-cleanup_bytes :
    (sids : List ℕ) (tx_hashes : List Bytes)
    → length (hashes_bytes tx_hashes) ≡ length tx_hashes * sha256_hash_len
    → 52 + length (cleanup_bytes sids tx_hashes) + 1 ≡ cleanup_payload_length sids tx_hashes
unfolding cleanup_bytes tail_bytes
length-cleanup_bytes sids tx_hashes h = omega (
  arith,
  length-append (to_bytes 4 (length sids)) (id_bytes sids ++ tail_bytes tx_hashes),
  length-append (id_bytes sids) (tail_bytes tx_hashes),
  length-append (to_bytes 4 (length tx_hashes)) (hashes_bytes tx_hashes),
  length-to_bytes 4 (length sids),
  length-to_bytes 4 (length tx_hashes),
  length-id_bytes sids,
  h,
)

-- A message whose fields have been written.
record IsCleanup (t hash : Bytes) (num : ℕ) (id : Bytes) (sids : List ℕ) (tx_hashes : List Bytes)
    (m : Message) : Type 0 where
  rest : Bytes
  buffer :
      m.buf
      ≡ start_of t (cleanup_payload_length sids tx_hashes)
        ++ (broadcast_bytes hash num id ++ (cleanup_bytes sids tx_hashes ++ rest))

init_broadcast-start_of :
    (t : Bytes) (n : ℕ) (hash : Bytes) (num : ℕ) (id : Bytes)
    → length hash ≡ sha256_hash_len
    → num < bound 4
    → length id ≡ node_id_size_in_bytes
    → n < bound 4
    → 52 < n
    → let body : Bytes = marked (
        drop bloxroute_message.header_length (replicate (bloxroute_message.header_length + n) 0)) in
      init_broadcast t n hash num id
      ≡ ok (record {
        msg_type = t;
        payload_len = n;
        buf =
            (start_of t n ++ broadcast_bytes hash num id)
            ++ drop (length (broadcast_bytes hash num id)) body;
      })
unfolding init_broadcast start_of
init_broadcast-start_of t n hash num id hash_len num_fits id_len n_fits room =
    let zeros : Bytes = replicate (bloxroute_message.header_length + n) 0 in
    let body : Bytes = marked (drop bloxroute_message.header_length zeros) in
    let blank : length zeros ≡ bloxroute_message.header_length + n = length-replicate _ 0 in
    let size : length body ≡ n =
      length-marked (drop bloxroute_message.header_length zeros)
      ∙ omega (arith, length-drop bloxroute_message.header_length zeros, blank) in
    let made = init_bloxroute-framed t n zeros n_fits (omega (arith, blank)) in
    let written =
      put_broadcast-Writes hash num id hash_len num_fits (start_of t n) body
        (omega (arith, size, length-broadcast_bytes hash num id hash_len id_len)) in
    let starts : put_broadcast hash num id (framed starting_sequence_bytes t n body)
          bloxroute_message.header_length
        ≡ put_broadcast hash num id (start_of t n ++ body) (length (start_of t n)) =
      ap (put_broadcast hash num id (framed starting_sequence_bytes t n body))
        (sym (length-start_of t n)) in
    rw (made, starts, written) refl

init_cleanup-IsCleanup :
    (t hash : Bytes) (num : ℕ) (id : Bytes) (sids : List ℕ) (tx_hashes : List Bytes)
    → Fits hash num id sids tx_hashes
    → (m : Message) × (init_cleanup t hash num id sids tx_hashes ≡ ok m)
      × IsCleanup t hash num id sids tx_hashes m
unfolding init_cleanup
init_cleanup-IsCleanup t hash num id sids tx_hashes f =
    let n = cleanup_payload_length sids tx_hashes in
    let whole = length-cleanup_bytes sids tx_hashes (length-hashes_bytes tx_hashes f.hashes_fit) in
    let zeros : Bytes = replicate (bloxroute_message.header_length + n) 0 in
    let body : Bytes = marked (drop bloxroute_message.header_length zeros) in
    let fields = broadcast_bytes hash num id in
    let items = cleanup_bytes sids tx_hashes in
    let done = start_of t n ++ fields in
    let left : Bytes = drop (length fields) body in
    let made =
      init_broadcast-start_of t n hash num id f.hash_len f.num_fits f.id_len f.payload_fits
        (omega (arith, whole)) in
    let fields_len = length-broadcast_bytes hash num id f.hash_len f.id_len in
    let offset : length done ≡ payload_start_offset =
      omega (arith, length-append (start_of t n) fields, length-start_of t n, fields_len) in
    let blank : length zeros ≡ bloxroute_message.header_length + n = length-replicate _ 0 in
    let room : length items ≤ length left = omega (
      arith,
      whole,
      fields_len,
      blank,
      length-drop (length fields) body,
      length-marked (drop bloxroute_message.header_length zeros),
      length-drop bloxroute_message.header_length zeros,
    ) in
    let written =
      put_cleanup-Writes sids tx_hashes f.sids_fit f.few_sids f.hashes_fit f.few_hashes done left
        room in
    let placed : put_cleanup sids tx_hashes (done ++ left) payload_start_offset
        ≡ ok ((done ++ items) ++ drop (length items) left, length (done ++ items)) =
      ap (put_cleanup sids tx_hashes (done ++ left)) (sym offset) ∙ written in
    (
      record { msg_type = t; payload_len = n; buf = (done ++ items) ++ drop (length items) left },
      rw (made, placed) refl,
      record { rest = drop (length items) left; buffer = simp append_assoc },
    )

-- A field that stands at an offset of a buffer is read there.
field_read :
    {A : Type 0} (r : Bytes → ℕ → Result (A × ℕ)) (before xs after buf : Bytes) (a : A) (off : ℕ)
    → Reads r xs a
    → length before ≡ off
    → buf ≡ before ++ (xs ++ after)
    → (r buf off >>= λ s. ok s.0) ≡ ok a
field_read r before xs after buf a off h e b =
    ap (λ u. r u off >>= λ s. ok s.0) b
    ∙ ap (λ k. r (before ++ (xs ++ after)) k >>= λ s. ok s.0) (sym e)
    ∙ ap (λ x. x >>= λ s. ok s.0) (h before after)

-- What the methods of a message read.
pub record Reading (m : Message) (hash : Bytes) (num : ℕ) (id : Bytes) (sids : List ℕ)
    (tx_hashes : List Bytes) : Type 0 where
  pub hash_read : message_hash m ≡ ok hash
  pub num_read : network_num m ≡ ok num
  pub id_read : source_id m ≡ ok id
  pub sids_read : short_ids m ≡ ok sids
  pub hashes_read : transaction_hashes m ≡ ok tx_hashes

IsCleanup-Reading :
    (t hash : Bytes) (num : ℕ) (id : Bytes) (sids : List ℕ) (tx_hashes : List Bytes) (m : Message)
    → Fits hash num id sids tx_hashes
    → IsCleanup t hash num id sids tx_hashes m
    → Reading m hash num id sids tx_hashes
unfolding message_hash network_num source_id short_ids transaction_hashes broadcast_bytes
IsCleanup-Reading t hash num id sids tx_hashes m f c =
    let n = cleanup_payload_length sids tx_hashes in
    let start = start_of t n in
    let items = cleanup_bytes sids tx_hashes in
    let start_len = length-start_of t n in
    let num_bytes = to_bytes 4 num in
    let parsed =
      field_read parse (start ++ broadcast_bytes hash num id) items c.rest m.buf (sids, tx_hashes)
        payload_start_offset
        (parse-Reads sids tx_hashes f.sids_fit f.few_sids f.hashes_fit f.few_hashes)
        (omega (
          arith,
          start_len,
          length-append start (broadcast_bytes hash num id),
          length-broadcast_bytes hash num id f.hash_len f.id_len,
        ))
        (c.buffer ∙ simp append_assoc) in
    record {
      hash_read =
          field_read get_hash start hash ((num_bytes ++ id) ++ (items ++ c.rest)) m.buf hash
            bloxroute_message.header_length (get_hash-Reads hash f.hash_len) start_len
            (c.buffer ∙ simp append_assoc);
      num_read =
          field_read (unpack_from 4) (start ++ hash) num_bytes (id ++ (items ++ c.rest)) m.buf num
            (bloxroute_message.header_length + sha256_hash_len) (unpack_from-Reads 4 num f.num_fits)
            (omega (arith, start_len, length-append start hash, f.hash_len))
            (c.buffer ∙ simp append_assoc);
      id_read =
          field_read (unpack_bytes node_id_size_in_bytes) (start ++ (hash ++ num_bytes)) id
            (items ++ c.rest) m.buf id source_id_offset
            (subst (λ k. Reads (unpack_bytes k) id id) f.id_len (unpack_bytes-Reads id))
            (omega (
              arith,
              start_len,
              length-append start (hash ++ num_bytes),
              length-append hash num_bytes,
              length-to_bytes 4 num,
              f.hash_len,
            ))
            (c.buffer ∙ simp append_assoc);
      sids_read =
          sym (>>=_assoc (parse m.buf payload_start_offset) (λ s. ok s.0) (λ p. ok p.0))
          ∙ ap (λ r. r >>= λ p. ok p.0) parsed;
      hashes_read =
          sym (>>=_assoc (parse m.buf payload_start_offset) (λ s. ok s.0) (λ p. ok p.1))
          ∙ ap (λ r. r >>= λ p. ok p.1) parsed;
    }

-- A new clean-up message is made without an error from a hash, a number, a source id, short ids and
-- hashes of the right sizes; the message's type and the length of its payload, the fields of a
-- broadcast message, and all short ids and hashes, in order, are read from it.
pub init_cleanup-Reading :
    (t hash : Bytes) (num : ℕ) (id : Bytes) (sids : List ℕ) (tx_hashes : List Bytes)
    → IsType t
    → Fits hash num id sids tx_hashes
    → (m : Message) × (init_cleanup t hash num id sids tx_hashes ≡ ok m)
      × (unpack bloxroute_message m.buf ≡ ok (t, cleanup_payload_length sids tx_hashes))
      × Reading m hash num id sids tx_hashes
unfolding start_of
init_cleanup-Reading t hash num id sids tx_hashes typed f =
    let (m, run, c) = init_cleanup-IsCleanup t hash num id sids tx_hashes f in
    let size = cleanup_payload_length sids tx_hashes in
    (
      m,
      run,
      ap (unpack bloxroute_message) c.buffer
          ∙ unpack-framed bloxroute_message starting_sequence_bytes t size
              (broadcast_bytes hash num id ++ (cleanup_bytes sids tx_hashes ++ c.rest)) refl typed
              f.payload_fits,
      IsCleanup-Reading t hash num id sids tx_hashes m f c,
    )
