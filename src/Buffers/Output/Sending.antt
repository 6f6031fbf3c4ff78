-- ===== src/Buffers/Output/Sending.antt =====
-- `get_buffer` and `advance_buffer` of `OutputBuffer`.
use bxcommon.Prelude.Bytes.{drop-all, drop-append-le, take-append_self, drop-drop}
use bxcommon.Prelude.Int.{pos, ◌-ℤ◌}
use bxcommon.Prelude.Result.{ok}
use bxcommon.Prelude.{
  ℕ, ◌+◌, ◌≤◌, ◌≡◌, refl, sym, ap, ◌∙◌, List, [], ◌∷◌, ◌++◌, leb, ◌==◌, length, take, drop, arith,
  Bool-cases, Option-cases, List-cases, inl, inr, append_assoc, length-append, length-drop,
}
use bxcommon.Buffers.Input.{Piece}
use bxcommon.Buffers.Input.Contents.{bytes_of}
use bxcommon.Buffers.Output.Unsent.{
  held, unsent, IsPlaced, IsValid, age_of, flush-IsValid, requeued, requeued-IsValid,
}
use bxcommon.Buffers.Output.{
  OutputBuffer, flush, is_due, flush_if_due, first_bytes, get_buffer, advance_index, advance_buffer,
}

-- The first message's bytes from the index on are a prefix of what is unsent.
first_bytes-take :
    (b : OutputBuffer) → IsPlaced b → first_bytes b ≡ take (length (first_bytes b)) (unsent b)
unfolding first_bytes
first_bytes-take b v = elim (List-cases b.output_msgs) [
  | inl e ↦ ground (arith, e)
  | inr (p, ps, e) ↦
      let h : b.index ≤ length p.bytes = ground (arith, e, v.index_ok) in
      let first = drop b.index p.bytes in
      let whole : unsent b ≡ first ++ (bytes_of ps ++ held b) =
        ap (λ ms. drop b.index (bytes_of ms) ++ held b) e
        ∙ ap (λ xs. xs ++ held b) (drop-append-le b.index p.bytes (bytes_of ps) h)
        ∙ append_assoc first (bytes_of ps) (held b) in
      let start : take (length first) (unsent b) ≡ first =
        ap (take (length first)) whole ∙ take-append_self first (bytes_of ps ++ held b) in
      ground (arith, e, start)
]

flush_if_due-IsValid :
    (now : ℕ) (b : OutputBuffer)
    → IsValid b
    → (b' : OutputBuffer) × (flush_if_due now b ≡ ok b') × IsValid b' × (unsent b' ≡ unsent b)
unfolding flush_if_due is_due
flush_if_due-IsValid now b v =
    let stay : (flush_if_due now b ≡ ok b)
        → (b' : OutputBuffer) × (flush_if_due now b ≡ ok b') × IsValid b' × (unsent b' ≡ unsent b) =
      λ run. (b, run, v, refl) in
    elim (Bool-cases b.enable_buffering) [
      | inr off ↦ stay (ground (arith, off))
      | inl on ↦ elim (Option-cases b.last_bytearray) [
        | inl e ↦ stay (ground (arith, on, e))
        | inr (last, e) ↦
            let (created, age) = age_of b v.placed.held_ok last e in
            elim (Bool-cases (leb (created + b.max_hold_time) now)) [
              | inr young ↦ stay (ground (arith, on, e, age, young))
              | inl due ↦
                  let (v', same) = flush-IsValid b v in
                  (flush b, ground (arith, on, e, age, due), v', same)
            ]
      ]
    ]

-- `get_buffer` raises nothing, at any time. What it returns are first bytes of what is unsent, and
-- nothing that is unsent is lost.
pub get_buffer_lem :
    (now : ℕ) (b : OutputBuffer)
    → IsValid b
    → (k : ℕ) × (b' : OutputBuffer) × (get_buffer now b ≡ ok (take k (unsent b), b'))
      × IsValid b'
      × (unsent b' ≡ unsent b)
unfolding get_buffer
get_buffer_lem now b v =
    let (b', run, v', same) = flush_if_due-IsValid now b v in
    let k = length (first_bytes b') in
    let e : first_bytes b' ≡ take k (unsent b) = first_bytes-take b' v'.placed ∙ ap (take k) same in
    (k, b', ground (arith, run, e), v', same)

-- What a buffer with a first message has to send: that message's rest, and then the others.
pub unsent-split :
    (first : Piece) (rest : List Piece) (b : OutputBuffer)
    → IsValid b
    → b.output_msgs ≡ first ∷ rest
    → (b.index ≤ length first.bytes)
      × (unsent b ≡ drop b.index first.bytes ++ (bytes_of rest ++ held b))
unsent-split first rest b v e =
    let h : b.index ≤ length first.bytes = ground (arith, e, v.placed.index_ok) in
    (
      h,
      ap (λ ms. drop b.index (bytes_of ms) ++ held b) e
          ∙ ap (λ xs. xs ++ held b) (drop-append-le b.index first.bytes (bytes_of rest) h)
          ∙ append_assoc (drop b.index first.bytes) (bytes_of rest) (held b),
    )

-- Dropping from the first message's rest.
drop-unsent :
    (n : ℕ) (first : Piece) (rest : List Piece) (b : OutputBuffer)
    → IsValid b
    → b.output_msgs ≡ first ∷ rest
    → b.index + n ≤ length first.bytes
    → drop (b.index + n) first.bytes ++ (bytes_of rest ++ held b) ≡ drop n (unsent b)
drop-unsent n first rest b v e h =
    let later = bytes_of rest ++ held b in
    let (start, split) = unsent-split first rest b v e in
    sym (
      ap (drop n) split
      ∙ drop-append-le n (drop b.index first.bytes) later
          (omega (arith, length-drop b.index first.bytes))
      ∙ ap (λ xs. xs ++ later) (drop-drop b.index n first.bytes))

-- Advancing by bytes of the first message raises nothing: just those bytes leave the front of what
-- is unsent, and the buffer stays valid.
pub advance_buffer-IsValid :
    (n : ℕ) (first : Piece) (rest : List Piece) (b : OutputBuffer)
    → IsValid b
    → b.output_msgs ≡ first ∷ rest
    → b.index + n ≤ length first.bytes
    → (b' : OutputBuffer) × (advance_buffer (pos n) b ≡ ok b')
      × IsValid b'
      × (unsent b' ≡ drop n (unsent b))
unfolding advance_buffer advance_index
advance_buffer-IsValid n first rest b v e h =
    let left = drop-unsent n first rest b v e h in
    let later = bytes_of rest ++ held b in
    let fits : n ≤ length (unsent b) = omega (
      arith,
      ap length left,
      length-drop n (unsent b),
      h,
      length-append (drop (b.index + n) first.bytes) later,
      length-drop (b.index + n) first.bytes,
      ap length (unsent-split first rest b v e).1,
      length-append (drop b.index first.bytes) later,
      length-drop b.index first.bytes,
    ) in
    let len : b.length -ℤ pos n ≡ pos (length (drop n (unsent b))) =
      ground (arith, v.counted, length-drop n (unsent b), fits) in
    elim (Bool-cases (b.index + n == length first.bytes)) [
      | inl whole ↦
          let gone : drop (b.index + n) first.bytes ≡ [] =
            drop-all (b.index + n) first.bytes (ground arith) in
          let (v', moved) =
            requeued-IsValid b rest 0 (b.length -ℤ pos n) v (ground arith)
              (ap (λ xs. xs ++ later) (sym gone) ∙ left) len in
          (requeued b rest 0 (b.length -ℤ pos n), ground (arith, e, whole), v', moved)
      | inr part ↦
          let front = drop-append-le (b.index + n) first.bytes (bytes_of rest) h in
          let (v', moved) =
            requeued-IsValid b (first ∷ rest) (b.index + n) (b.length -ℤ pos n) v (ground arith)
              (ap (λ xs. xs ++ held b) front
                ∙ append_assoc (drop (b.index + n) first.bytes) (bytes_of rest) (held b)
                ∙ left)
              len in
          (
            requeued b (first ∷ rest) (b.index + n) (b.length -ℤ pos n),
            ground (arith, e, part),
            v',
            moved,
          )
    ]
