-- ===== src/Buffers/Input/Methods.antt =====
-- The methods of `InputBuffer` that add bytes, look at them and take them.
use bxcommon.Prelude.Bytes.{slice, take-append-le, drop-append-le, take-append_self}
use bxcommon.Prelude.Int.{pos, ◌-ℤ◌}
use bxcommon.Prelude.Result.{ok}
use bxcommon.Prelude.{
  ℕ, zero, suc, ◌≤◌, ◌<◌, ◌≡◌, refl, sym, ap, ◌∙◌, min, true, false, [], ◌∷◌, ◌++◌, ltb, ◌==◌,
  length, take, drop, if◌then◌else◌, arith, append-nil, length-append, length-drop, Bool-cases, inl,
  inr,
}
use bxcommon.Buffers.Input.Contents.{
  bytes_of, contents, IsCounted, bytes_of-append, shrink-Reaches, shrink-length, shrink-contents,
}
use bxcommon.Buffers.Input.{
  peek_at, slice_at, Piece, InputBuffer, add_bytes, shrink_if_needed, remove_bytes, first_piece,
  peek_message, get_slice,
}

-- Adding a piece appends its bytes to the contents, and keeps the length that of the contents.
pub add_bytes-contents :
    (piece : Piece) (b : InputBuffer)
    → IsCounted b
    → (contents (add_bytes piece b) ≡ contents b ++ piece.bytes) × IsCounted (add_bytes piece b)
unfolding add_bytes
add_bytes-contents piece b valid =
    let e : bytes_of (b.input_list ++ (piece ∷ [])) ≡ contents b ++ piece.bytes =
      bytes_of-append b.input_list (piece ∷ []) ∙ ap (◌++◌ (contents b)) (append-nil piece.bytes) in
    (e, ground (arith, valid, ap length e, length-append (contents b) piece.bytes))

-- What `remove_bytes` gives for `n` bytes.
pub record Removed (n : ℕ) (b b' : InputBuffer) : Type 0 where
  pub left : contents b' ≡ drop n (contents b)
  pub counted : IsCounted b'

remove_none :
    (b : InputBuffer)
    → IsCounted b
    → (b' : InputBuffer) × (remove_bytes (pos 0) b ≡ ok ([], b')) × Removed 0 b b'
unfolding remove_bytes
remove_none b valid =
    let b' = shrink_if_needed 0 true b in
    (
      b',
      ground arith,
      record {
        left = shrink-contents 0 true b;
        counted =
            shrink-length 0 true b
            ∙ valid
            ∙ ap (λ xs. pos (length xs)) (sym (shrink-contents 0 true b));
      },
    )

remove_some :
    (n : ℕ) (b : InputBuffer)
    → IsCounted b
    → 0 < n
    → n ≤ length (contents b)
    → (b' : InputBuffer) × (remove_bytes (pos n) b ≡ ok (take n (contents b), b')) × Removed n b b'
unfolding remove_bytes
remove_some n b valid some_bytes h =
    let s = shrink_if_needed n true b in
    let r = shrink-Reaches n true b h (omega arith) in
    let first : take n r.head.bytes ≡ take n (contents b) =
      sym (take-append-le n r.head.bytes (bytes_of r.rest) r.enough) ∙ ap (take n) r.whole in
    let left : drop n r.head.bytes ++ bytes_of r.rest ≡ drop n (contents b) =
      sym (drop-append-le n r.head.bytes (bytes_of r.rest) r.enough) ∙ ap (drop n) r.whole in
    (
      record s {
        input_list = record (r.head) { bytes = drop n r.head.bytes } ∷ r.rest;
        length = s.length -ℤ pos n;
      },
      ground (arith, r.split, first),
      record {
        left = left;
        counted =
            ground
              (arith, shrink-length n true b, valid, ap length left, length-drop n (contents b));
      },
    )

-- Removing at most as many bytes as the buffer holds raises nothing: it returns the first bytes of
-- the contents, leaves the others, and keeps the length that of the contents.
pub remove_bytes_lem :
    (n : ℕ) (b : InputBuffer)
    → IsCounted b
    → n ≤ length (contents b)
    → (b' : InputBuffer) × (remove_bytes (pos n) b ≡ ok (take n (contents b), b')) × Removed n b b'
remove_bytes_lem zero b valid h = remove_none b valid
remove_bytes_lem (suc n) b valid h = remove_some (suc n) b valid (omega arith) h

-- A look at the buffer raises nothing: it returns the first bytes of the contents, at least as many
-- as were asked for or as there are, and changes neither the contents nor the length.
pub peek_message_lem :
    (n : ℕ) (b : InputBuffer)
    → IsCounted b
    → (k : ℕ) × (b' : InputBuffer) × (peek_message n b ≡ ok (take k (contents b), b'))
      × (min n (length (contents b)) ≤ k)
      × (contents b' ≡ contents b)
      × (b'.length ≡ b.length)
unfolding peek_message peek_at first_piece
peek_message_lem n b valid =
    let m = if ltb (length (contents b)) n then length (contents b) else n in
    elim (Bool-cases (m == 0)) [
      | inl nothing ↦ (0, b, ground (arith, nothing), ground arith, refl, refl)
      | inr something ↦
          let r = shrink-Reaches m false b (ground arith) (ground arith) in
          let e : r.head.bytes ≡ take (length r.head.bytes) (contents b) =
            sym (take-append_self r.head.bytes (bytes_of r.rest))
            ∙ ap (take (length r.head.bytes)) r.whole in
          (
            length r.head.bytes,
            shrink_if_needed m false b,
            ground (arith, r.split, e),
            ground (arith, r.enough),
            shrink-contents m false b,
            shrink-length m false b,
          )
    ]

-- A slice whose start lies in a buffer that is not empty raises nothing: it returns those bytes of
-- the contents, and changes neither the contents nor the length.
pub get_slice_lem :
    (start end : ℕ) (b : InputBuffer)
    → IsCounted b
    → 0 < length (contents b)
    → start ≤ length (contents b)
    → end ≤ length (contents b)
    → (p : Piece) × (b' : InputBuffer) × (get_slice start end b ≡ ok (p, b'))
      × (p.bytes ≡ slice start end (contents b))
      × (contents b' ≡ contents b)
      × (b'.length ≡ b.length)
unfolding get_slice slice_at first_piece
get_slice_lem start end b valid full hs he =
    let b' = shrink_if_needed end false b in
    let r = shrink-Reaches end false b he full in
    let e : slice start end r.head.bytes ≡ slice start end (contents b) =
      ap (drop start) (
        sym (take-append-le end r.head.bytes (bytes_of r.rest) r.enough) ∙ ap (take end) r.whole) in
    (
      record (r.head) { bytes = slice start end r.head.bytes },
      b',
      ground (arith, r.split),
      e,
      shrink-contents end false b,
      shrink-length end false b,
    )
