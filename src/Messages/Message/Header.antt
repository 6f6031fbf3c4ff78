-- ===== src/Messages/Message/Header.antt =====
-- The header of a message: what the constructor writes, and what `unpack` reads.
use Prim.Native.Nat.{bit_or}
use mathlib.Core.Path.{subst}
use bxcommon.Prelude.Bytes.{Bytes, drop-append_self, drop-drop}
use bxcommon.Prelude.Int.{pos}
use bxcommon.Prelude.Result.{ok, ◌>>=◌}
use bxcommon.Prelude.{
  ℕ, zero, suc, ◌+◌, ◌-◌, ◌≤◌, ◌<◌, ◌≡◌, refl, sym, ap, ◌∙◌, true, false, some, [], ◌∷◌, ◌++◌, ltb,
  leb, length, take, drop, replicate, arith, append_assoc, length-append, length-take, length-drop,
  take-append-drop,
}
use bxcommon.Serializers.ShortIds.{ul_int_size_in_bytes}
use bxcommon.Serializers.Wire.{
  bound, to_bytes, pack_into, unpack_from, put_slice, get_slice, Writes, Reads, put_slice-Writes,
  get_slice-Reads, pack_into-Writes, unpack_from-Reads, then-Writes, then-Reads, map-Reads,
}
use bxcommon.Messages.Message.{
  Message, MessageClass, bloxroute_message, padded, rstrip, put_header, pack_header, get_header,
  init_internal, init_bloxroute, last_byte, set_last, get_control_flags, set_control_flag, unpack,
  valid_flag, starting_sequence_bytes, starting_sequence_bytes_len, bx_hdr_common_off, msg_type_len,
}

-- A type that its twelve bytes give back: it is no longer, and does not end in a zero byte.
pub record IsType (msg_type : Bytes) : Type 0 where
  pub short : length msg_type ≤ msg_type_len
  pub stripped : rstrip msg_type ≡ msg_type

rstrip_zeros : (n : ℕ) → rstrip (replicate n 0) ≡ []
rstrip_zeros zero = refl
rstrip_zeros (suc n) = ground (arith, rstrip_zeros n)

rstrip-append_zeros : (xs : Bytes) (n : ℕ) → rstrip (xs ++ replicate n 0) ≡ rstrip xs
rstrip-append_zeros [] n = rstrip_zeros n
rstrip-append_zeros (x ∷ xs) n = rw (rstrip-append_zeros xs n)

take-replicate : (k m : ℕ) → k ≤ m → take {A = ℕ} k (replicate m 0) ≡ replicate k 0
take-replicate zero m h = refl
take-replicate (suc k) zero h = absurd (omega arith)
take-replicate (suc k) (suc m) h = ap (◌∷◌ 0) (take-replicate k m (omega arith))

take-append-replicate :
    (k m : ℕ) (xs : Bytes)
    → length xs ≤ k
    → k ≤ m + length xs
    → take k (xs ++ replicate m 0) ≡ xs ++ replicate (k - length xs) 0
take-append-replicate k m [] h g =
    take-replicate k m (omega arith) ∙ ap (λ n. replicate n 0) (omega arith)
take-append-replicate zero m (x ∷ xs) h g = absurd (omega arith)
take-append-replicate (suc k) m (x ∷ xs) h g = ap (◌∷◌ x) (
    take-append-replicate k m xs (omega arith) (omega arith)
    ∙ ap (λ n. xs ++ replicate n 0) (omega arith))

pub length-padded : (t : Bytes) → length (padded t) ≡ msg_type_len
length-padded t = omega (
  arith,
  length-take msg_type_len (t ++ replicate msg_type_len 0),
  length-append t (replicate msg_type_len 0),
)

pub rstrip-padded : (t : Bytes) → IsType t → rstrip (padded t) ≡ t
rstrip-padded t h =
    ap rstrip (take-append-replicate msg_type_len msg_type_len t h.short (omega arith))
    ∙ rstrip-append_zeros t (msg_type_len - length t)
    ∙ h.stripped

-- The sixteen bytes of type and length.
abbrev pub header : Bytes → ℕ → Bytes
header msg_type payload_len = padded msg_type ++ to_bytes ul_int_size_in_bytes payload_len

pub length-header : (t : Bytes) (n : ℕ) → length (header t n) ≡ bx_hdr_common_off
length-header t n =
    omega (arith, length-append (padded t) (to_bytes ul_int_size_in_bytes n), length-padded t)

put_header-Writes :
    (t : Bytes) (n : ℕ) → n < bound ul_int_size_in_bytes → Writes (put_header t n) (header t n)
unfolding put_header
put_header-Writes t n fits =
    then-Writes (put_slice (padded t)) (pack_into ul_int_size_in_bytes n) (padded t)
      (to_bytes ul_int_size_in_bytes n) (put_slice-Writes (padded t))
      (pack_into-Writes ul_int_size_in_bytes n fits)

get_header-Reads :
    (t : Bytes) (n : ℕ)
    → n < bound ul_int_size_in_bytes
    → Reads get_header (header t n) (padded t, n)
unfolding get_header
get_header-Reads t n fits =
    let command : Reads (get_slice msg_type_len) (padded t) (padded t) =
      subst (λ k. Reads (get_slice k) (padded t) (padded t)) (length-padded t)
        (get_slice-Reads (padded t)) in
    then-Reads (get_slice msg_type_len)
      (λ c buf offset. unpack_from ul_int_size_in_bytes buf offset >>= λ s. ok ((c, s.0), s.1))
      (padded t) (to_bytes ul_int_size_in_bytes n) command
      (map-Reads (unpack_from ul_int_size_in_bytes) (λ k. (padded t, k))
        (to_bytes ul_int_size_in_bytes n) (unpack_from-Reads ul_int_size_in_bytes n fits))

-- A buffer with a header: a start of the length that its class has, type and length, and the payload.
abbrev pub framed : Bytes → Bytes → ℕ → Bytes → Bytes
framed start msg_type payload_len payload = start ++ (header msg_type payload_len ++ payload)

pub unpack-framed :
    (cls : MessageClass) (start t : Bytes) (n : ℕ) (payload : Bytes)
    → length start ≡ cls.starting_bytes_len
    → IsType t
    → n < bound ul_int_size_in_bytes
    → unpack cls (framed start t n payload) ≡ ok (t, n)
unfolding unpack
unpack-framed cls start t n payload e h fits =
    let long : leb (cls.starting_bytes_len + bx_hdr_common_off) (length (framed start t n payload))
        ≡ true =
      ground (
        arith,
        e,
        length-header t n,
        length-append start (header t n ++ payload),
        length-append (header t n) payload,
      ) in
    let read = get_header-Reads t n fits start payload in
    rw long (
      ap (λ k. get_header (framed start t n payload) k >>= λ r. ok (rstrip r.0.0, r.0.1)) (sym e)
      ∙ ap (λ r. r >>= λ r. ok (rstrip r.0.0, r.0.1)) read
      ∙ ap (λ c. ok (c, n)) (rstrip-padded t h))

-- The payload with the valid flag set in its last byte.
abbrev pub marked : Bytes → Bytes
marked [] = []
marked (x ∷ []) = bit_or x valid_flag ∷ []
marked (x ∷ y ∷ xs) = x ∷ marked (y ∷ xs)

marked-append : (xs : Bytes) (y : ℕ) (ys : Bytes) → marked (xs ++ (y ∷ ys)) ≡ xs ++ marked (y ∷ ys)
marked-append [] y ys = refl
marked-append (x ∷ []) y ys = refl
marked-append (x ∷ z ∷ xs) y ys = ap (◌∷◌ x) (marked-append (z ∷ xs) y ys)

marked-framed : (xs ys : Bytes) → 0 < length ys → marked (xs ++ ys) ≡ xs ++ marked ys
marked-framed xs [] h = absurd (omega arith)
marked-framed xs (y ∷ ys) h = marked-append xs y ys

pub length-marked : (xs : Bytes) → length (marked xs) ≡ length xs
length-marked [] = refl
length-marked (x ∷ []) = refl
length-marked (x ∷ y ∷ xs) = ap suc (length-marked (y ∷ xs))

last-marked :
    (x : ℕ) (xs : Bytes)
    → (v : ℕ) × (last_byte (x ∷ xs) ≡ some v)
      × (set_last (bit_or v valid_flag) (x ∷ xs) ≡ marked (x ∷ xs))
last-marked x [] = (x, refl, refl)
last-marked x (y ∷ xs) = let (v, last, e) = last-marked y xs in (v, last, ap (◌∷◌ x) e)

set_control_flag-marked :
    (m : Message) (x : ℕ) (xs : Bytes)
    → m.buf ≡ x ∷ xs
    → set_control_flag valid_flag m ≡ ok (record m { buf = marked m.buf })
unfolding set_control_flag get_control_flags
set_control_flag-marked m x xs e =
    let (v, last, done) = last-marked x xs in
    let found : last_byte m.buf ≡ some v = ap last_byte e ∙ last in
    let written : set_last (bit_or v valid_flag) m.buf ≡ marked m.buf =
      ap (set_last (bit_or v valid_flag)) e ∙ done ∙ ap marked (sym e) in
    ground (arith, found, written)

-- The buffer of a new message.
pub init_bloxroute-framed :
    (t : Bytes) (n : ℕ) (buf : Bytes)
    → n < bound ul_int_size_in_bytes
    → bloxroute_message.header_length < length buf
    → init_bloxroute t (pos n) buf
      ≡ ok (record {
        msg_type = t;
        payload_len = n;
        buf =
            framed starting_sequence_bytes t n (marked (drop bloxroute_message.header_length buf));
      })
unfolding init_bloxroute init_internal pack_header
init_bloxroute-framed t n buf fits room =
    let start : Bytes = take starting_sequence_bytes_len buf in
    let later : Bytes = drop starting_sequence_bytes_len buf in
    let body : Bytes = drop bloxroute_message.header_length buf in
    let length_start : length start ≡ starting_sequence_bytes_len =
      omega (arith, length-take starting_sequence_bytes_len buf) in
    let short : ltb (length buf) bloxroute_message.header_length ≡ false = ground arith in
    let inside : leb (starting_sequence_bytes_len + bx_hdr_common_off) (length buf) ≡ true =
      ground arith in
    let packed : put_header t n buf starting_sequence_bytes_len
        ≡ ok ((start ++ header t n) ++ body, length (start ++ header t n)) =
      ap (λ b. put_header t n b starting_sequence_bytes_len)
        (sym (take-append-drop starting_sequence_bytes_len buf))
      ∙ ap (put_header t n (start ++ later)) (sym length_start)
      ∙ put_header-Writes t n fits start later
          (omega (arith, length-header t n, length-drop starting_sequence_bytes_len buf))
      ∙ ap (λ b. ok ((start ++ header t n) ++ b, length (start ++ header t n)))
          (ap (λ k. drop k later) (length-header t n)
            ∙ drop-drop starting_sequence_bytes_len bx_hdr_common_off buf) in
    let placed : drop starting_sequence_bytes_len ((start ++ header t n) ++ body)
        ≡ header t n ++ body =
      ap (drop starting_sequence_bytes_len) (append_assoc start (header t n) body)
      ∙ ap (λ k. drop k (start ++ (header t n ++ body))) (sym length_start)
      ∙ drop-append_self start (header t n ++ body) in
    let m : Message = record {
      msg_type = t;
      payload_len = n;
      buf = starting_sequence_bytes ++ (header t n ++ body);
    } in
    let flagged : marked m.buf ≡ framed starting_sequence_bytes t n (marked body) =
      marked-framed (starting_sequence_bytes ++ header t n) body
        (omega (arith, length-drop bloxroute_message.header_length buf)) in
    rw (short, inside, packed)
      (ap (λ b. set_control_flag valid_flag (record m { buf = starting_sequence_bytes ++ b }))
          placed
        ∙ set_control_flag-marked m 255 (254 ∷ 253 ∷ 252 ∷ (header t n ++ body)) refl
        ∙ ap (λ b. ok (record m { buf = b })) flagged)

-- A new message, of a type and a length that fit their fields (at most 12 bytes without trailing zeros,
-- below 2 ** 32), in a buffer with room for a payload raises nothing; its type and its payload's length
-- can be read from its bytes, which begin with the starting sequence, and behind the header the buffer
-- is as it was, but for the valid flag in the last byte.
pub unpack-init_bloxroute :
    (t : Bytes) (n : ℕ) (buf : Bytes)
    → IsType t
    → n < bound ul_int_size_in_bytes
    → bloxroute_message.header_length < length buf
    → (m : Message) × (init_bloxroute t (pos n) buf ≡ ok m)
      × (unpack bloxroute_message m.buf ≡ ok (t, n))
      × (take starting_sequence_bytes_len m.buf ≡ starting_sequence_bytes)
      × (drop bloxroute_message.header_length m.buf
          ≡ marked (drop bloxroute_message.header_length buf))
unpack-init_bloxroute t n buf h fits room =
    let body = marked (drop bloxroute_message.header_length buf) in
    (
      record { msg_type = t; payload_len = n; buf = framed starting_sequence_bytes t n body },
      init_bloxroute-framed t n buf fits room,
      unpack-framed bloxroute_message starting_sequence_bytes t n body refl h fits,
      refl,
      ap (λ k. drop k (header t n ++ body)) (sym (length-header t n))
          ∙ drop-append_self (header t n) body,
    )
