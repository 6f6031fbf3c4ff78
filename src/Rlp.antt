-- ===== src/Rlp.antt =====
-- bxcommon/utils/blockchain_utils/eth/rlp_utils.py: lengths, integers and lists in Ethereum's recursive
-- length prefix encoding. A position is not negative, and what is read is a memoryview.
pub mod BigEndian
pub mod Prefix
pub mod Ints
pub mod Items
mod Tests
use bxcommon.Serializers.Wire.{bound}
use bxcommon.Prelude.Bytes.{Bytes, slice}
use bxcommon.Prelude.Result.{
  Result, ok, err, value_error, index_error, parse_error, assertion_error, ◌>>=◌,
}
use bxcommon.Prelude.{
  ℕ, zero, suc, ◌+◌, ◌-◌, ◌*◌, ◌/◌, ◌%◌, Bool, true, false, ◌&&◌, ◌||◌, Option, none, some, List,
  [], ◌∷◌, ◌++◌, ltb, ◌==◌, length, drop, get_elem?, if◌then◌else◌,
}

-- `value.bit_length()`, with fuel
unfoldable pub bits : ℕ → ℕ → ℕ
bits zero value = 0
bits (suc fuel) value = let rest = bits fuel (value / 2) in if value == 0 then 0 else suc rest

unfoldable pub bit_length : ℕ → ℕ
bit_length value = bits value value

-- `max(ceil(value.bit_length() / 8), 1)`
unfoldable pub byte_length : ℕ → ℕ
byte_length value = let length = (bit_length value + 7) / 8 in if ltb length 1 then 1 else length

-- `value.to_bytes(size, byteorder="big")`, for a value that fits
unfoldable pub to_big : ℕ → ℕ → Bytes
to_big zero value = []
to_big (suc size) value = to_big size (value / 256) ++ ((value % 256) ∷ [])

-- `int.from_bytes(value, byteorder="big")`, behind a number that was read before
unfoldable pub from_big : ℕ → Bytes → ℕ
from_big acc [] = acc
from_big acc (b ∷ bs) = from_big (256 * acc + b) bs

unfoldable pub int_to_big_endian : ℕ → Bytes
int_to_big_endian value = to_big (byte_length value) value

unfoldable pub big_endian_to_int : Bytes → ℕ
big_endian_to_int value = from_big 0 value

unfoldable pub ascii_chr : ℕ → Result Bytes
ascii_chr value = if ltb value 256 then ok (value ∷ []) else err value_error

unfoldable pub get_length_prefix : ℕ → ℕ → Result Bytes
get_length_prefix len offset =
    let length_string = int_to_big_endian len in
    if ltb len 56
    then ascii_chr (offset + len)
    else if ltb len (bound 8)
    then (ascii_chr (offset + 56 - 1 + length length_string) >>= λ c. ok (c ++ length_string))
    else err value_error

unfoldable pub get_length_prefix_str : ℕ → Result Bytes
get_length_prefix_str len = get_length_prefix len 128

unfoldable pub get_length_prefix_list : ℕ → Result Bytes
get_length_prefix_list len = get_length_prefix len 192

-- `len(s) == 1 and safe_ord(s[0]) < 128`
abbrev pub is_single : Bytes → Bool
is_single [] = false
is_single (b ∷ []) = ltb b 128
is_single (b ∷ c ∷ bs) = false

unfoldable pub encode_int : ℕ → Result Bytes
encode_int value =
    let s = if value == 0 then [] else int_to_big_endian value in
    if is_single s then ok s else (get_length_prefix_str (length s) >>= λ prefix. ok (prefix ++ s))

-- The Python types `str` and `list`, which stand for the kind of what follows.
pub data Kind : Type 0 where
  str list : Kind

-- `rlp[i]`
abbrev pub byte_at : Bytes → ℕ → Result ℕ
byte_at rlp i = elim (get_elem? rlp i) [ none ↦ err index_error | some b ↦ ok b ]

-- `rlp[i:i + 1] == b"\x00"`
abbrev pub is_zero_at : Bytes → ℕ → Bool
is_zero_at rlp i = elim (get_elem? rlp i) [ none ↦ false | some b ↦ b == 0 ]

-- The length of a long string or list, which has so many bytes itself.
unfoldable pub consume_long : Kind → ℕ → Bytes → ℕ → Result (Kind × ℕ × ℕ)
consume_long kind long_length rlp start =
    let len = big_endian_to_int (slice (start + 1) (start + 1 + long_length) rlp) in
    if is_zero_at rlp (start + 1)
    then err parse_error
    else if ltb len 56
    then err parse_error
    else ok (kind, len, start + 1 + long_length)

unfoldable pub consume_short_string : ℕ → Bytes → ℕ → Result (Kind × ℕ × ℕ)
consume_short_string first_byte rlp start =
    let short = ok (str, first_byte - 128, start + 1) in
    if first_byte - 128 == 1
    then (byte_at rlp (start + 1) >>= λ b. if ltb b 128 then err parse_error else short)
    else short

unfoldable pub consume_length_prefix : Bytes → ℕ → Result (Kind × ℕ × ℕ)
consume_length_prefix rlp start = byte_at rlp start >>= λ first_byte.
    if ltb first_byte 128
    then ok (str, 1, start)
    else if ltb first_byte (128 + 56)
    then consume_short_string first_byte rlp start
    else if ltb first_byte 192
    then consume_long str (first_byte - 128 - 56 + 1) rlp start
    else if ltb first_byte (192 + 56)
    then ok (list, first_byte - 192, start + 1)
    else consume_long list (first_byte - 192 - 56 + 1) rlp start

unfoldable pub decode_int : Bytes → ℕ → Result (ℕ × ℕ)
decode_int rlp start = consume_length_prefix rlp start >>= λ prefix.
    let (_, value_len, value_start) = prefix in
    let value_bytes = slice value_start (value_start + value_len) rlp in
    let value = if length value_bytes == 0 then 0 else big_endian_to_int value_bytes in
    ok (value, value_start - start + value_len)

unfoldable pub remove_length_prefix : Bytes → Result Bytes
remove_length_prefix item_bytes = consume_length_prefix item_bytes 0 >>= λ prefix.
    let (_, _, list_itm_start) = prefix in ok (drop list_itm_start item_bytes)

-- `remove_items_length_prefix` is set by the first string, and stays so.
abbrev pub removes_from : Kind → Bool → Bool
removes_from str remove = true
removes_from list remove = remove

unfoldable pub item_of : Bool → Bytes → Result Bytes
item_of remove item_bytes = if remove then remove_length_prefix item_bytes else ok item_bytes

-- The loop of `get_list_items_bytes`, with fuel: `none` means that it ran out.
unfoldable pub items_loop : ℕ → Bytes → ℕ → Bool → List Bytes → Option (Result (List Bytes × ℕ))
items_loop zero list_bytes offset remove result = none
items_loop (suc fuel) list_bytes offset remove result =
    if ltb offset (length list_bytes)
    then (elim (consume_length_prefix list_bytes offset) [
      | err e ↦ some (err e)
      | ok (kind, item_len, item_start) ↦
          let item_bytes = slice offset (item_start + item_len) list_bytes in
          elim (item_of (removes_from kind remove) item_bytes) [
            | err e ↦ some (err e)
            | ok item ↦
                items_loop fuel list_bytes (item_start + item_len) (removes_from kind remove)
                  (result ++ (item ∷ []))
          ]
    ])
    else some (ok (result, offset))

unfoldable pub get_list_items_bytes : Bytes → Bool → Option (Result (List Bytes))
get_list_items_bytes list_bytes remove =
    elim (items_loop (suc (length list_bytes)) list_bytes 0 remove []) [
      | none ↦ none
      | some (err e) ↦ some (err e)
      | some (ok (result, offset)) ↦
          some (if offset == length list_bytes then ok result else err assertion_error)
    ]

unfoldable pub get_first_list_field_items_bytes : Bytes → Bool → Option (Result (List Bytes))
get_first_list_field_items_bytes object_bytes remove = elim (remove_length_prefix object_bytes) [
  | err e ↦ some (err e)
  | ok list_bytes ↦ get_list_items_bytes list_bytes remove
]
