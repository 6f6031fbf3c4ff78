-- ===== src/Rlp/Ints.antt =====
-- `encode_int` and `decode_int` of rlp_utils.py.
use bxcommon.Rlp.BigEndian.{big_endian_to_int-int_to_big_endian, length-int_to_big_endian}
use bxcommon.Rlp.Prefix.{
  NotSingle, IsPrefix, prefix_of, moved, slice-behind, consume_length_prefix-moved,
}
use bxcommon.Rlp.{
  Kind, str, byte_length, int_to_big_endian, big_endian_to_int, from_big, get_length_prefix_str,
  is_single, encode_int, decode_int, consume_length_prefix,
}
use bxcommon.Serializers.Wire.{bound}
use bxcommon.Prelude.Bytes.{Bytes, slice, take-append_self}
use bxcommon.Prelude.Result.{ok, ◌>>=◌}
use bxcommon.Prelude.{
  ℕ, zero, suc, ◌+◌, ◌-◌, ◌*◌, ◌<◌, ◌≡◌, refl, sym, ap, ◌∙◌, false, [], ◌∷◌, ◌++◌, ltb, ◌==◌,
  length, if◌then◌else◌, arith, append_assoc, Bool-cases, inl, inr, length-append,
}

or_zero : (bs : Bytes) → (if length bs == 0 then 0 else from_big 0 bs) ≡ from_big 0 bs
unfolding from_big
or_zero [] = refl
or_zero (b ∷ bs) = ground arith

-- What `decode_int` makes of a prefix.
decode_int_at :
    (kind : Kind) (len end : ℕ) (before xs : Bytes)
    → consume_length_prefix xs 0 ≡ ok (kind, len, end)
    → decode_int (before ++ xs) (length before)
      ≡ ok (big_endian_to_int (slice end (end + len) xs), end + len)
unfolding decode_int big_endian_to_int from_big
decode_int_at kind len end before xs h =
    let consumed : consume_length_prefix (before ++ xs) (length before)
        ≡ ok (kind, len, length before + end) =
      consume_length_prefix-moved before xs ∙ ap (moved (length before)) h in
    let e : length before + end + len ≡ length before + (end + len) = omega arith in
    let f : length before + end - length before + len ≡ end + len = omega arith in
    rw (consumed, e, f, slice-behind before xs end (end + len))
      (ap (λ value. ok (value, end + len)) (or_zero (slice end (end + len) xs)))

-- What an encoded number is to be.
abbrev Decodes : ℕ → Bytes → Type 0
Decodes value s =
    (before after : Bytes)
    → decode_int (before ++ (s ++ after)) (length before) ≡ ok (value, length s)

single-Decodes : (b : ℕ) → b < 128 → Decodes b (b ∷ [])
unfolding consume_length_prefix big_endian_to_int from_big
single-Decodes b h before after =
    decode_int_at str 1 0 before (b ∷ after) (ground (arith, h)) ∙ ground arith

prefixed-Decodes :
    (s prefix : Bytes)
    → is_single s ≡ false
    → IsPrefix str (length s) prefix
    → Decodes (big_endian_to_int s) (prefix ++ s)
prefixed-Decodes s prefix h p before after =
    let sliced : slice (length prefix) (length prefix + length s) (prefix ++ (s ++ after)) ≡ s =
      slice_payload s prefix after in
    let consumed = p.consumed (s ++ after) (not_single s h) in
    let size : length (prefix ++ s) ≡ length prefix + length s = length-append prefix s in
    rw (append_assoc prefix s after, size)
      (decode_int_at str (length s) (length prefix) before (prefix ++ (s ++ after)) consumed
        ∙ ap (λ bs. ok (big_endian_to_int bs, length prefix + length s)) sliced)
  where
    not_single : (s : Bytes) → is_single s ≡ false → NotSingle str (length s) (s ++ after)
    not_single [] h = inl (ground arith)
    not_single (b ∷ []) h = inr (b, after, refl, ground (arith, h))
    not_single (b ∷ c ∷ bs) h = inl (ground arith)

    slice_payload :
        (s prefix after : Bytes)
        → slice (length prefix) (length prefix + length s) (prefix ++ (s ++ after)) ≡ s
    slice_payload s prefix after =
        let e : length prefix + 0 ≡ length prefix = omega arith in
        ap (λ k. slice k (length prefix + length s) (prefix ++ (s ++ after))) (sym e)
        ∙ (slice-behind prefix (s ++ after) 0 (length s) ∙ take-append_self s after)

prefixed_encodes :
    (s : Bytes)
    → length s < bound 8
    → is_single s ≡ false
    → (out : Bytes) × ((get_length_prefix_str (length s) >>= λ prefix. ok (prefix ++ s)) ≡ ok out)
      × Decodes (big_endian_to_int s) out
unfolding get_length_prefix_str
prefixed_encodes s h single =
    let (prefix, p) = prefix_of str (length s) h in
    (prefix ++ s, rw p.made refl, prefixed-Decodes s prefix single p)

encodes :
    (s : Bytes)
    → length s < bound 8
    → (out : Bytes) × ((if is_single s
          then ok s
          else (get_length_prefix_str (length s) >>= λ prefix. ok (prefix ++ s)))
        ≡ ok out)
      × Decodes (big_endian_to_int s) out
unfolding big_endian_to_int from_big
encodes [] h = prefixed_encodes [] h refl
encodes (b ∷ c ∷ bs) h = prefixed_encodes (b ∷ c ∷ bs) h refl
encodes (b ∷ []) h = elim (Bool-cases (ltb b 128)) [
  | inl low ↦
      let e : 256 * 0 + b ≡ b = omega arith in
      (b ∷ [], rw low refl, rw e (single-Decodes b (ground arith)))
  | inr high ↦ let (out, run, p) = prefixed_encodes (b ∷ []) h high in (out, rw high run, p)
]

-- Every number that `encode_int` can take, which is one of fewer than 256 ** 8 bytes, is encoded, and
-- decoded from its code, wherever that stands, with the number of bytes of the code.
pub decode_int-encode_int :
    (value : ℕ)
    → byte_length value < bound 8
    → (s : Bytes) × (encode_int value ≡ ok s)
      × ((before after : Bytes)
          → decode_int (before ++ (s ++ after)) (length before) ≡ ok (value, length s))
unfolding encode_int big_endian_to_int from_big
decode_int-encode_int zero h = encodes [] (omega arith)
decode_int-encode_int (suc n) h =
    let not_zero : (suc n == 0) ≡ false = ground arith in
    let s = int_to_big_endian (suc n) in
    let (out, run, p) = encodes s (omega (arith, length-int_to_big_endian (suc n), h)) in
    (
      out,
      rw not_zero run,
      λ before after.
          p before after
          ∙ ap (λ value. ok (value, length out)) (big_endian_to_int-int_to_big_endian (suc n)),
    )
