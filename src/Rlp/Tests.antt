-- ===== src/Rlp/Tests.antt =====
-- The theorems on the encoding at concrete numbers and lists.
use bxcommon.Rlp.Ints.{decode_int-encode_int}
use bxcommon.Rlp.Items.Ends.{get_list_items_bytes_ends}
use bxcommon.Rlp.Items.{encode_items, expected, get_list_items_bytes-encode_items}
use bxcommon.Rlp.Prefix.{NotSingle, offset_of, consume_length_prefix-get_length_prefix}
use bxcommon.Rlp.{
  bits, bit_length, byte_length, Kind, str, list, encode_int, decode_int, get_length_prefix,
  consume_length_prefix, get_list_items_bytes,
}
use bxcommon.Prelude.Bytes.{Bytes, joined}
use bxcommon.Prelude.Result.{Result, ok}
use bxcommon.Prelude.{◌+◌, ◌≡◌, true, false, some, List, [], ◌∷◌, ◌++◌, length, arith}

decode_int-encode_int_example :
    (s : Bytes) × (encode_int 1024 ≡ ok s)
    × ((before after : Bytes)
        → decode_int (before ++ (s ++ after)) (length before) ≡ ok (1024, length s))
unfolding byte_length bit_length bits
decode_int-encode_int_example = decode_int-encode_int 1024 (omega arith)

consume_length_prefix-get_length_prefix_example :
    (prefix : Bytes) × (get_length_prefix 1024 (offset_of list) ≡ ok prefix)
    × ((before payload : Bytes)
        → NotSingle list 1024 payload
        → consume_length_prefix (before ++ (prefix ++ payload)) (length before)
          ≡ ok (list, 1024, length before + length prefix))
consume_length_prefix-get_length_prefix_example =
    consume_length_prefix-get_length_prefix list 1024 (omega arith)

-- A list, a string of one byte, and a list again, which loses its prefix.
abbrev three_items : List (Kind × Bytes)
three_items = (list, 1 ∷ 2 ∷ []) ∷ (str, 200 ∷ []) ∷ (list, 3 ∷ []) ∷ []

get_list_items_bytes-encode_items_example :
    (codes : List Bytes) × (encode_items three_items ≡ ok codes)
    × (get_list_items_bytes (joined codes) false ≡ some (ok (expected false three_items codes)))
get_list_items_bytes-encode_items_example =
    get_list_items_bytes-encode_items false three_items
      (omega arith, (omega arith, (omega arith, tt)))

-- The length of the string goes beyond the end.
get_list_items_bytes_ends_example :
    (result : Result (List Bytes)) × (get_list_items_bytes (5 ∷ 130 ∷ 7 ∷ []) true ≡ some result)
get_list_items_bytes_ends_example = get_list_items_bytes_ends (5 ∷ 130 ∷ 7 ∷ []) true
