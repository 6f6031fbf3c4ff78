-- ===== src/Buffers/Input.antt =====
-- `InputBuffer` of bxcommon/utils/buffers/input_buffer.py: a deque of byte strings, read as one. The
-- children are about its methods. A piece has its bytes, and whether it is a bytearray: a memoryview or
-- bytes piece is copied before it grows. (That a bytearray piece is the caller's object, and grows in
-- place, is not modelled.)
pub mod Contents
pub mod Methods
pub mod Suffix
use bxcommon.Prelude.Bytes.{Bytes, joined, slice}
use bxcommon.Prelude.Int.{ℤ, pos, negsuc, ◌+ℤ◌, ◌-ℤ◌}
use bxcommon.Prelude.Result.{Result, ok, err, value_error, assertion_error, index_error, ◌>>=◌}
use bxcommon.Prelude.{
  suc, ℕ, zero, suc, ◌+◌, ◌-◌, min, Bool, true, false, ◌&&◌, ◌||◌, Option, none, some, List, [],
  ◌∷◌, ◌++◌, map, ltb, leb, ◌==◌, length, take, drop, if◌then◌else◌,
}

pub record Piece : Type 0 where
  pub is_bytearray : Bool
  pub bytes : Bytes

pub record InputBuffer : Type 0 where
  pub input_list : List Piece
  pub length : ℤ

unfoldable pub add_bytes : Piece → InputBuffer → InputBuffer
add_bytes piece b = record b {
  input_list = b.input_list ++ (piece ∷ []);
  length = b.length +ℤ pos (length piece.bytes);
}

-- The `while` loop of `_shrink_if_needed`: the head takes pieces until it is long enough.
unfoldable pub extend_head : ℕ → Bytes → List Piece → List Piece
extend_head end head [] = record { is_bytearray = true; bytes = head } ∷ []
extend_head end head (p ∷ ps) =
    let longer = extend_head end (head ++ p.bytes) ps in
    if ltb (length head) end then longer else record { is_bytearray = true; bytes = head } ∷ p ∷ ps

unfoldable pub shrink_if_needed : ℕ → Bool → InputBuffer → InputBuffer
shrink_if_needed end ensure_byte_array b = elim b.input_list [
  | [] ↦ b
  | head ∷ ps ↦
      if ltb (length head.bytes) end || ensure_byte_array
      then record b { input_list = extend_head end head.bytes ps }
      else b
]

unfoldable pub remove_bytes : ℤ → InputBuffer → Result (Bytes × InputBuffer)
remove_bytes (negsuc _) b = err value_error
remove_bytes (pos num_bytes) b =
    let b' = shrink_if_needed num_bytes true b in
    elim b'.input_list [
      | [] ↦ if num_bytes == 0 then ok ([], b') else err assertion_error
      | head ∷ ps ↦
          if ltb 0 num_bytes
          then ok (
            take num_bytes head.bytes,
            record b' {
              input_list = record head { bytes = drop num_bytes head.bytes } ∷ ps;
              length = b'.length -ℤ pos num_bytes;
            },
          )
          else ok ([], b')
    ]

-- `self.input_list[0]`
unfoldable pub first_piece : InputBuffer → Result Piece
first_piece b = elim b.input_list [ [] ↦ err index_error | p ∷ ps ↦ ok p ]

-- `peek_message` in a buffer of length `len`.
unfoldable pub peek_at : ℕ → ℕ → InputBuffer → Result (Bytes × InputBuffer)
peek_at bytes_to_peek len b =
    let n = if ltb len bytes_to_peek then len else bytes_to_peek in
    if n == 0
    then ok ([], b)
    else (let b' = shrink_if_needed n false b in do p ← first_piece b'; ok (p.bytes, b'))

-- A length below 0, which comes of removing too many bytes, is not 0 and needs no merging.
unfoldable pub peek_message : ℕ → InputBuffer → Result (Bytes × InputBuffer)
peek_message bytes_to_peek b = elim b.length [
  | pos len ↦ peek_at bytes_to_peek len b
  | negsuc _ ↦ do p ← first_piece b; ok (p.bytes, b)
]

-- `get_slice` in a buffer of length `len`.
unfoldable pub slice_at : ℕ → ℕ → ℕ → InputBuffer → Result (Piece × InputBuffer)
slice_at start end len b =
    if ltb len start
    then err value_error
    else (let b' = shrink_if_needed end false b in
        do p ← first_piece b'; ok (record p { bytes = slice start end p.bytes }, b'))

-- The bounds are positions; other bounds are `get_slice_before` and `get_slice_below`.
unfoldable pub get_slice : ℕ → ℕ → InputBuffer → Result (Piece × InputBuffer)
get_slice start end b = elim b.length [
  | pos len ↦ slice_at start end len b
  | negsuc _ ↦ err value_error
]

-- `input_list[0][-back:end]`, for `back` above 0: a negative start counts from the end of the first
-- piece, and is 0 where the piece is shorter.
unfoldable pub get_slice_before : ℕ → ℕ → InputBuffer → Result (Piece × InputBuffer)
get_slice_before back end b =
    let b' = shrink_if_needed end false b in
    do p ← first_piece b'; ok (record p { bytes = slice (length p.bytes - back) end p.bytes }, b')

-- `input_list[0][-back:-end]`
unfoldable pub get_slice_below : ℕ → ℕ → InputBuffer → Result (Piece × InputBuffer)
get_slice_below back end b = do
  p ← first_piece b
  ok (record p { bytes = slice (length p.bytes - back) (length p.bytes - end) p.bytes }, b)

-- `self.get_slice(self.length - len(suffix), self.length)`
unfoldable pub get_suffix : ℕ → InputBuffer → Result (Piece × InputBuffer)
get_suffix len b = elim b.length [
  | pos n ↦ if ltb n len then get_slice_before (len - n) n b else get_slice (n - len) n b
  | negsuc k ↦ get_slice_below (suc k + len) (suc k) b
]

-- The last piece, and the list with another last piece.
unfoldable pub last_piece : Piece → List Piece → Piece
last_piece p [] = p
last_piece p (q ∷ ps) = last_piece q ps

unfoldable pub replace_last : Piece → List Piece → List Piece
replace_last new [] = []
replace_last new (p ∷ []) = new ∷ []
replace_last new (p ∷ q ∷ ps) = p ∷ replace_last new (q ∷ ps)

abbrev pub same_bytes : Bytes → Bytes → Bool
same_bytes [] [] = true
same_bytes (x ∷ xs) (y ∷ ys) = (x == y) && same_bytes xs ys
same_bytes _ _ = false

-- `xs.endswith(suffix)`
abbrev pub ends_with : Bytes → Bytes → Bool
ends_with xs suffix =
    leb (length suffix) (length xs) && same_bytes (drop (length xs - length suffix) xs) suffix

-- A slice that is no bytearray is copied into one, and the copy becomes the last piece.
unfoldable pub ends_with_slice : Bytes → Piece → InputBuffer → Bool × InputBuffer
ends_with_slice suffix end_slice b = (
  ends_with end_slice.bytes suffix,
  (if end_slice.is_bytearray then b else record b {
    input_list = replace_last (record end_slice { is_bytearray = true }) b.input_list;
  }),
)

unfoldable pub endswith : Bytes → InputBuffer → Result (Bool × InputBuffer)
endswith suffix b = elim b.input_list [
  | [] ↦ ok (false, b)
  | p ∷ ps ↦
      let last = last_piece p ps in
      if ltb (length last.bytes) (length suffix)
      then (do (s, b') ← get_suffix (length suffix) b; ok (ends_with_slice suffix s b'))
      else ok (ends_with_slice suffix last b)
]

-- `__getitem__` on a slice whose step is none or 1. (Below 0 the length is less than any start.)
unfoldable pub get_item : Option ℕ → Option ℕ → InputBuffer → Result (Piece × InputBuffer)
get_item start stop b = elim b.length [
  | pos len ↦
      get_slice (elim start [ none ↦ 0 | some n ↦ n ]) (elim stop [ none ↦ len | some n ↦ n ]) b
  | negsuc _ ↦ err value_error
]
