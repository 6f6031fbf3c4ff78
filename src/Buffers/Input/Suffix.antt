-- ===== src/Buffers/Input/Suffix.antt =====
-- `endswith` of `InputBuffer`.
use bxcommon.Prelude.Int.{pos}
use bxcommon.Prelude.Bytes.{Bytes, slice, take-all, drop-append-ge}
use bxcommon.Prelude.Result.{ok}
use bxcommon.Prelude.{
  ◌+◌, ◌-◌, ◌≤◌, ◌<◌, ◌≡◌, refl, sym, ap, ◌∙◌, true, false, List, [], ◌∷◌, ◌++◌, ltb, length, take,
  drop, arith, length-drop, Bool-cases, inl, inr, append-nil, append_assoc, length-append,
  List-cases,
}
use bxcommon.Buffers.Input.Contents.{bytes_of, contents, IsCounted}
use bxcommon.Buffers.Input.Methods.{get_slice_lem}
use bxcommon.Buffers.Input.{
  Piece, InputBuffer, endswith, get_suffix, get_slice_before, first_piece, shrink_if_needed,
  last_piece, replace_last, ends_with, ends_with_slice,
}

last_split :
    (p : Piece) (ps : List Piece)
    → (front : Bytes) × (bytes_of (p ∷ ps) ≡ front ++ (last_piece p ps).bytes)
unfolding last_piece
last_split p [] = ([], append-nil p.bytes)
last_split p (q ∷ ps) =
    let (front, e) = last_split q ps in
    (
      p.bytes ++ front,
      ap (◌++◌ p.bytes) e ∙ sym (append_assoc p.bytes front (last_piece q ps).bytes),
    )

-- A suffix that is no longer than the last piece is looked for in it alone.
ends_with-append :
    (front last suffix : Bytes)
    → length suffix ≤ length last
    → ends_with (front ++ last) suffix ≡ ends_with last suffix
ends_with-append front last suffix h =
    let total = length-append front last in
    let skip : length (front ++ last) - length suffix - length front ≡ length last - length suffix =
      omega (arith, total) in
    let e : drop (length (front ++ last) - length suffix) (front ++ last)
        ≡ drop (length last - length suffix) last =
      drop-append-ge (length (front ++ last) - length suffix) front last (omega (arith, total))
      ∙ ap (λ k. drop k last) skip in
    ground (arith, e, total)

-- The end of the contents, as long as the suffix, ends with it as the contents do.
ends_with-drop :
    (xs suffix : Bytes)
    → length suffix ≤ length xs
    → ends_with (drop (length xs - length suffix) xs) suffix ≡ ends_with xs suffix
ends_with-drop xs suffix h =
    let end = drop (length xs - length suffix) xs in
    let l : length end ≡ length xs - (length xs - length suffix) =
      length-drop (length xs - length suffix) xs in
    let z : length end - length suffix ≡ 0 = omega (arith, l) in
    let e : drop (length end - length suffix) end ≡ end = ap (λ k. drop k end) z in
    ground (arith, e, l)

-- For a suffix that is not empty and no longer than the contents, `endswith` raises nothing, and its
-- answer is whether the contents end with the suffix, in however many pieces they are held.
pub endswith_answer :
    (suffix : Bytes) (b : InputBuffer)
    → IsCounted b
    → 0 < length suffix
    → length suffix ≤ length (contents b)
    → (b' : InputBuffer) × (endswith suffix b ≡ ok (ends_with (contents b) suffix, b'))
unfolding endswith ends_with_slice get_suffix
endswith_answer suffix b valid some_bytes h = elim (List-cases b.input_list) [
  | inl empty ↦ absurd (omega (arith, ap (λ ps. length (bytes_of ps)) empty))
  | inr (p, ps, e) ↦ elim (Bool-cases (ltb (length (last_piece p ps).bytes) (length suffix))) [
    | inr long ↦
        let (front, split) = last_split p ps in
        let answer : ends_with (contents b) suffix ≡ ends_with (last_piece p ps).bytes suffix =
          ap (λ xs. ends_with xs suffix) (ap bytes_of e ∙ split)
          ∙ ends_with-append front (last_piece p ps).bytes suffix (ground arith) in
        ((ends_with_slice suffix (last_piece p ps) b).1, ground (arith, e, long, answer))
    | inl short ↦
        let (s, b', run, bytes, same, len) =
          get_slice_lem (length (contents b) - length suffix) (length (contents b)) b valid
            (omega arith) (omega arith) (omega arith) in
        let whole : take (length (contents b)) (contents b) ≡ contents b =
          take-all (length (contents b)) (contents b) (omega arith) in
        let end : s.bytes ≡ drop (length (contents b) - length suffix) (contents b) =
          bytes ∙ ap (drop (length (contents b) - length suffix)) whole in
        let answer : ends_with s.bytes suffix ≡ ends_with (contents b) suffix =
          ap (λ xs. ends_with xs suffix) end ∙ ends_with-drop (contents b) suffix (omega arith) in
        let enough : ltb (length (contents b)) (length suffix) ≡ false = ground arith in
        ((ends_with_slice suffix s b').1, ground (arith, e, short, run, answer, enough, valid))
  ]
]

-- A buffer of one piece that is no bytearray.
abbrev pub one_piece : Bytes → InputBuffer
one_piece xs = record {
  input_list = record { is_bytearray = false; bytes = xs } ∷ [];
  length = pos (length xs);
}

-- Asked about a suffix that is longer than all it holds, though less than twice as long, a buffer of
-- a single piece that is no bytearray loses bytes: what it then holds is only the end of what it
-- held, shorter than its length says.
pub endswith_truncates :
    (xs suffix : Bytes)
    → length xs < length suffix
    → length suffix < length xs + length xs
    → (b' : InputBuffer) × (endswith suffix (one_piece xs) ≡ ok (false, b'))
      × (contents b' ≡ drop (length xs + length xs - length suffix) xs)
      × (b'.length ≡ pos (length xs))
      × (length (contents b') < length xs)
unfolding endswith get_suffix get_slice_before first_piece shrink_if_needed last_piece replace_last
    ends_with_slice
endswith_truncates xs suffix longer shorter =
    let n = length xs in
    let kept = drop (n + n - length suffix) xs in
    let whole : take n xs ≡ xs = take-all n xs (omega arith) in
    let start : n - (length suffix - n) ≡ n + n - length suffix = omega arith in
    let cut : slice (n - (length suffix - n)) n xs ≡ kept =
      ap (drop (n - (length suffix - n))) whole ∙ ap (λ k. drop k xs) start in
    let short : length kept ≡ n - (n + n - length suffix) =
      length-drop (n + n - length suffix) xs in
    (
      record { input_list = record { is_bytearray = true; bytes = kept } ∷ []; length = pos n },
      ground (arith, cut, short),
      append-nil kept,
      refl,
      omega (arith, ap length (append-nil kept), short),
    )
