-- ===== src/Rlp/Prefix.antt =====
-- `consume_length_prefix` of rlp_utils.py reads what `get_length_prefix` makes, wherever it stands.
use bxcommon.Rlp.BigEndian.{
  big_endian_to_int-int_to_big_endian, int_to_big_endian-Headed, byte_length_le,
  byte_length_positive, length-int_to_big_endian,
}
use bxcommon.Rlp.{
  Kind, str, list, byte_length, int_to_big_endian, ascii_chr, get_length_prefix, consume_long,
  consume_short_string, consume_length_prefix, is_zero_at, byte_at,
}
use bxcommon.Serializers.Wire.{bound}
use bxcommon.Prelude.Bytes.{Bytes, slice, take-append_self}
use bxcommon.Prelude.Result.{Result, ok, err, index_error}
use bxcommon.Prelude.{
  ℕ, suc, ◌+◌, ◌-◌, ◌<◌, ◌≤◌, ◌≡◌, ◌⊎◌, refl, ap, ◌∙◌, false, none, some, [], ◌∷◌, ◌++◌, ltb, ◌==◌,
  length, get_elem?, arith, Bool-cases, inl, inr,
}

get_elem?-behind :
    (before xs : Bytes) (i : ℕ) → get_elem? (before ++ xs) (length before + i) ≡ get_elem? xs i
get_elem?-behind [] xs i = ap (get_elem? xs) (omega arith)
get_elem?-behind (b ∷ before) xs i =
    let e : suc (length before) + i ≡ suc (length before + i) = omega arith in
    rw e (get_elem?-behind before xs i)

is_zero_at-behind :
    (before xs : Bytes) (i : ℕ) → is_zero_at (before ++ xs) (length before + i) ≡ is_zero_at xs i
is_zero_at-behind before xs i =
    ap (λ o. elim o [ none ↦ false | some b ↦ b == 0 ]) (get_elem?-behind before xs i)

byte_at-behind :
    (before xs : Bytes) (i : ℕ) → byte_at (before ++ xs) (length before + i) ≡ byte_at xs i
byte_at-behind before xs i =
    ap (λ o. elim o [ none ↦ err index_error | some b ↦ ok b ]) (get_elem?-behind before xs i)

pub slice-behind :
    (before xs : Bytes) (i j : ℕ)
    → slice (length before + i) (length before + j) (before ++ xs) ≡ slice i j xs
slice-behind [] xs i j =
    let e : 0 + i ≡ i = omega arith in let f : 0 + j ≡ j = omega arith in rw (e, f) refl
slice-behind (b ∷ before) xs i j =
    let e : suc (length before) + i ≡ suc (length before + i) = omega arith in
    let f : suc (length before) + j ≡ suc (length before + j) = omega arith in
    rw (e, f) (slice-behind before xs i j)

-- What was read at 0, read so much further behind.
abbrev pub moved : ℕ → Result (Kind × ℕ × ℕ) → Result (Kind × ℕ × ℕ)
moved n (err e) = err e
moved n (ok (kind, len, end)) = ok (kind, len, n + end)

consume_long-moved :
    (kind : Kind) (n : ℕ) (before xs : Bytes)
    → consume_long kind n (before ++ xs) (length before)
      ≡ moved (length before) (consume_long kind n xs 0)
unfolding consume_long
consume_long-moved kind n before xs =
    let e : length before + 1 + n ≡ length before + (1 + n) = omega arith in
    let f : 0 + 1 + n ≡ 1 + n = omega arith in
    ground (arith, slice-behind before xs 1 (1 + n), is_zero_at-behind before xs 1, e, f)

consume_short_string-moved :
    (first_byte : ℕ) (before xs : Bytes)
    → consume_short_string first_byte (before ++ xs) (length before)
      ≡ moved (length before) (consume_short_string first_byte xs 0)
unfolding consume_short_string
consume_short_string-moved first_byte before xs = ground (arith, byte_at-behind before xs 1)

pub consume_length_prefix-moved :
    (before xs : Bytes)
    → consume_length_prefix (before ++ xs) (length before)
      ≡ moved (length before) (consume_length_prefix xs 0)
unfolding consume_length_prefix
consume_length_prefix-moved before [] = ground (arith, get_elem?-behind before [] 0)
consume_length_prefix-moved before (b ∷ xs) = ground (
  arith,
  get_elem?-behind before (b ∷ xs) 0,
  consume_short_string-moved b before (b ∷ xs),
  consume_long-moved str (b - 128 - 56 + 1) before (b ∷ xs),
  consume_long-moved list (b - 192 - 56 + 1) before (b ∷ xs),
)

-- The byte to which the length of a short string or list is added.
abbrev pub offset_of : Kind → ℕ
offset_of str = 128
offset_of list = 192

-- A string of one byte below 128 has no prefix.
abbrev pub NotSingle : Kind → ℕ → Bytes → Type 0
NotSingle list len payload = Unit {0}
NotSingle str len payload =
    ((len == 1) ≡ false) ⊎ ((b : ℕ) × (rest : Bytes) × (payload ≡ b ∷ rest) × (128 ≤ b))

-- What a prefix for a length is to be.
pub record IsPrefix (kind : Kind) (len : ℕ) (prefix : Bytes) : Type 0 where
  pub made : get_length_prefix len (offset_of kind) ≡ ok prefix
  pub not_empty : 0 < length prefix
  pub consumed :
      (payload : Bytes)
      → NotSingle kind len payload
      → consume_length_prefix (prefix ++ payload) 0 ≡ ok (kind, len, length prefix)

short_consumed :
    (kind : Kind) (len : ℕ) (payload : Bytes)
    → len < 56
    → NotSingle kind len payload
    → consume_length_prefix ((offset_of kind + len) ∷ payload) 0 ≡ ok (kind, len, 1)
unfolding consume_length_prefix consume_short_string
short_consumed list len payload h p = ground (arith, h)
short_consumed str len payload h (inl several) = ground (arith, h, several)
short_consumed str len payload h (inr (b, rest, e, high)) = rw e (ground (arith, h, high))

short_prefix : (kind : Kind) (len : ℕ) → len < 56 → IsPrefix kind len ((offset_of kind + len) ∷ [])
unfolding get_length_prefix ascii_chr
short_prefix kind len h = record {
  made = by_kind kind;
  not_empty = omega arith;
  consumed = λ payload p. short_consumed kind len payload h p;
}
  where
    by_kind :
        (kind : Kind) → get_length_prefix len (offset_of kind) ≡ ok ((offset_of kind + len) ∷ [])
    by_kind str = ground (arith, h)
    by_kind list = ground (arith, h)

slice_first :
    (c n : ℕ) (s payload : Bytes)
    → length s ≡ n
    → slice (0 + 1) (0 + 1 + n) (c ∷ (s ++ payload)) ≡ s
slice_first c n s payload h =
    let e : 0 + 1 + n ≡ suc (length s) = omega (arith, h) in rw e (take-append_self s payload)

long_consumed :
    (kind : Kind) (len c : ℕ) (payload : Bytes)
    → 56 ≤ len
    → consume_long kind (byte_length len) (c ∷ (int_to_big_endian len ++ payload)) 0
      ≡ ok (kind, len, suc (byte_length len))
unfolding consume_long
long_consumed kind len c payload h =
    let (b, rest, e, low, high) = int_to_big_endian-Headed len (omega arith) in
    let not_zero : is_zero_at (c ∷ (int_to_big_endian len ++ payload)) 1 ≡ false =
      rw e (ground (arith, low)) in
    ground (
      arith,
      not_zero,
      slice_first c (byte_length len) (int_to_big_endian len) payload
          (length-int_to_big_endian len),
      big_endian_to_int-int_to_big_endian len,
      h,
    )

long_prefix :
    (kind : Kind) (len : ℕ)
    → 56 ≤ len
    → len < bound 8
    → IsPrefix kind len ((offset_of kind + 56 - 1 + byte_length len) ∷ int_to_big_endian len)
unfolding get_length_prefix ascii_chr consume_length_prefix
long_prefix kind len h g =
    let n = byte_length len in
    let few = byte_length_le 7 len g in
    let some_ = byte_length_positive len in
    let size = length-int_to_big_endian len in
    record {
      made = by_kind kind few size;
      not_empty = omega arith;
      consumed = λ payload _. consumed kind payload few some_ size;
    }
  where
    by_kind :
        (kind : Kind)
        → byte_length len ≤ 8
        → length (int_to_big_endian len) ≡ byte_length len
        → get_length_prefix len (offset_of kind)
          ≡ ok ((offset_of kind + 56 - 1 + byte_length len) ∷ int_to_big_endian len)
    by_kind str few size = ground (arith, h, g, few, size)
    by_kind list few size = ground (arith, h, g, few, size)

    consumed :
        (kind : Kind) (payload : Bytes)
        → byte_length len ≤ 8
        → 0 < byte_length len
        → length (int_to_big_endian len) ≡ byte_length len
        → consume_length_prefix
            ((offset_of kind + 56 - 1 + byte_length len) ∷ (int_to_big_endian len ++ payload))
            0
          ≡ ok (kind, len, suc (length (int_to_big_endian len)))
    consumed str payload few some_ size =
        let e : 128 + 56 - 1 + byte_length len - 128 - 56 + 1 ≡ byte_length len = omega arith in
        ground (
          arith,
          few,
          some_,
          size,
          e,
          long_consumed str len (128 + 56 - 1 + byte_length len) payload h,
        )
    consumed list payload few some_ size =
        let e : 192 + 56 - 1 + byte_length len - 192 - 56 + 1 ≡ byte_length len = omega arith in
        ground (
          arith,
          few,
          some_,
          size,
          e,
          long_consumed list len (192 + 56 - 1 + byte_length len) payload h,
        )

pub prefix_of :
    (kind : Kind) (len : ℕ) → len < bound 8 → (prefix : Bytes) × IsPrefix kind len prefix
prefix_of kind len h = elim (Bool-cases (ltb len 56)) [
  | inl short ↦ (_, short_prefix kind len (ground arith))
  | inr long ↦ (_, long_prefix kind len (ground arith) h)
]

-- Every length below 256 ** 8 has a prefix, and in front of a payload, wherever both stand, the prefix is
-- read as the kind and the length that it was made for; of a string of length 1 the payload has to
-- begin with a byte of at least 128.
pub consume_length_prefix-get_length_prefix :
    (kind : Kind) (len : ℕ)
    → len < bound 8
    → (prefix : Bytes) × (get_length_prefix len (offset_of kind) ≡ ok prefix)
      × ((before payload : Bytes)
          → NotSingle kind len payload
          → consume_length_prefix (before ++ (prefix ++ payload)) (length before)
            ≡ ok (kind, len, length before + length prefix))
consume_length_prefix-get_length_prefix kind len h =
    let (prefix, p) = prefix_of kind len h in
    (
      prefix,
      p.made,
      λ before payload q.
          consume_length_prefix-moved before (prefix ++ payload)
          ∙ ap (moved (length before)) (p.consumed payload q),
    )
