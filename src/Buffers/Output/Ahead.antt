-- ===== src/Buffers/Output/Ahead.antt =====
-- `prepend_msgbytes` and `safe_empty` of `OutputBuffer`.
use mathlib.Core.Path.{subst}
use bxcommon.Prelude.Int.{pos, ◌+ℤ◌, ◌-ℤ◌}
use bxcommon.Prelude.Bytes.{Bytes, drop-append-le}
use bxcommon.Prelude.Result.{ok}
use bxcommon.Prelude.{
  ◌≡◌, refl, sym, ap, ◌∙◌, true, false, ◌||◌, List, [], ◌∷◌, ◌++◌, ltb, ◌==◌, length, drop, arith,
  Bool-cases, List-cases, inl, inr, append-nil, append_assoc, length-append, length-drop,
}
use bxcommon.Buffers.Input.{Piece}
use bxcommon.Buffers.Input.Contents.{bytes_of}
use bxcommon.Buffers.Output.Unsent.{
  held, unsent, IsValid, flush-IsValid, flush-front, begun_bytes, requeued, requeued-IsValid,
  flush-Placed,
}
use bxcommon.Buffers.Output.Sending.{unsent-split}
use bxcommon.Buffers.Output.{
  OutputBuffer, buffer, flush, first_bytes, at_msg_boundary, prepend_msgbytes, empty_flushed,
  safe_empty,
}

prepend_first :
    (msg : Piece) (b : OutputBuffer)
    → IsValid b
    → b.index ≡ 0
    → IsValid (requeued b (msg ∷ b.output_msgs) 0 (b.length +ℤ pos (length msg.bytes)))
      × (unsent (requeued b (msg ∷ b.output_msgs) 0 (b.length +ℤ pos (length msg.bytes)))
          ≡ msg.bytes ++ unsent b)
prepend_first msg b v z =
    requeued-IsValid b (msg ∷ b.output_msgs) 0 (b.length +ℤ pos (length msg.bytes)) v refl
      (append_assoc msg.bytes (bytes_of b.output_msgs) (held b)
        ∙ ap (λ i. msg.bytes ++ (drop i (bytes_of b.output_msgs) ++ held b)) (sym z))
      (ground (arith, v.counted, length-append msg.bytes (unsent b)))

prepend_second :
    (msg prev : Piece) (rest : List Piece) (b : OutputBuffer)
    → IsValid b
    → b.output_msgs ≡ prev ∷ rest
    → IsValid (requeued b (prev ∷ msg ∷ rest) b.index (b.length +ℤ pos (length msg.bytes)))
      × (unsent (requeued b (prev ∷ msg ∷ rest) b.index (b.length +ℤ pos (length msg.bytes)))
          ≡ drop b.index prev.bytes ++ (msg.bytes ++ (bytes_of rest ++ held b)))
prepend_second msg prev rest b v e =
    let (h, split) = unsent-split prev rest b v e in
    let front = drop b.index prev.bytes in
    let later = bytes_of rest ++ held b in
    requeued-IsValid b (prev ∷ msg ∷ rest) b.index (b.length +ℤ pos (length msg.bytes)) v
      (ground (arith, e, v.placed.index_ok))
      (ap (λ xs. xs ++ held b) (drop-append-le b.index prev.bytes (msg.bytes ++ bytes_of rest) h)
        ∙ append_assoc front (msg.bytes ++ bytes_of rest) (held b)
        ∙ ap (◌++◌ front) (append_assoc msg.bytes (bytes_of rest) (held b)))
      (ground (
        arith,
        v.counted,
        ap length split,
        length-append front later,
        length-append front (msg.bytes ++ later),
        length-append msg.bytes later,
      ))

-- Prepending a bytearray or a memoryview raises nothing: its bytes go between the rest of the message
-- that is being sent and all that is to be sent after it, and the buffer stays valid.
pub prepend_msgbytes-IsValid :
    (msg : Piece) (b : OutputBuffer)
    → IsValid b
    → (b' : OutputBuffer) × (later : Bytes) × (prepend_msgbytes (buffer msg) b ≡ ok b')
      × IsValid b'
      × (unsent b ≡ begun_bytes b ++ later)
      × (unsent b' ≡ begun_bytes b ++ (msg.bytes ++ later))
unfolding prepend_msgbytes at_msg_boundary first_bytes
prepend_msgbytes-IsValid msg b v = elim (Bool-cases (b.index == 0)) [
  | inl fresh ↦
      let z : b.index ≡ 0 = ground arith in
      let (v', same) = prepend_first msg b v z in
      let nothing : begun_bytes b ≡ [] = ground (arith, fresh) in
      (
        requeued b (msg ∷ b.output_msgs) 0 (b.length +ℤ pos (length msg.bytes)),
        unsent b,
        ground (arith, fresh, z),
        v',
        ap (λ xs. xs ++ unsent b) (sym nothing),
        same ∙ ap (λ xs. xs ++ (msg.bytes ++ unsent b)) (sym nothing),
      )
  | inr begun ↦ elim (List-cases b.output_msgs) [
    | inl empty ↦ absurd (ground (arith, empty, v.placed.index_ok))
    | inr (prev, rest, e) ↦
        let (h, split) = unsent-split prev rest b v e in
        let later = bytes_of rest ++ held b in
        let (v', same) = prepend_second msg prev rest b v e in
        let front : drop b.index prev.bytes ≡ begun_bytes b = ground (arith, begun, e) in
        (
          requeued b (prev ∷ msg ∷ rest) b.index (b.length +ℤ pos (length msg.bytes)),
          later,
          ground (arith, begun, e),
          v',
          split ∙ ap (λ xs. xs ++ later) front,
          same ∙ ap (λ xs. xs ++ (msg.bytes ++ later)) front,
        )
  ]
]

empty_flushed-fresh : (f : OutputBuffer) → f.index ≡ 0 → empty_flushed f ≡ requeued f [] 0 (pos 0)
unfolding empty_flushed
empty_flushed-fresh f z = elim (List-cases f.output_msgs) [
  | inl e ↦ ground (arith, e, z)
  | inr (first, rest, e) ↦ ground (arith, e, z)
]

empty_flushed-begun :
    (first : Piece) (rest : List Piece) (f : OutputBuffer)
    → f.output_msgs ≡ first ∷ rest
    → (f.index == 0) ≡ false
    → empty_flushed f ≡ requeued f (first ∷ []) f.index (pos (length first.bytes) -ℤ pos f.index)
unfolding empty_flushed
empty_flushed-begun first rest f e begun = ground (arith, e, begun)

-- `safe_empty` leaves the rest of the message that is being sent, and nothing else.
pub safe_empty-IsValid :
    (b : OutputBuffer)
    → IsValid b
    → IsValid (safe_empty b) × (unsent (safe_empty b) ≡ begun_bytes b)
unfolding safe_empty at_msg_boundary first_bytes
safe_empty-IsValid b v =
    let f = flush b in
    let (v', kept) = flush-IsValid b v in
    let (p, nothing) = flush-Placed b v.placed in
    let (at, more, msgs) = flush-front b in
    let none_held : held f ≡ [] = ground (arith, nothing) in
    elim (Bool-cases (b.index == 0)) [
      | inl fresh ↦
          let z : f.index ≡ 0 = ground (arith, fresh, at) in
          let (w, same) = requeued-IsValid f [] 0 (pos 0) v' refl none_held refl in
          let run : safe_empty b ≡ requeued f [] 0 (pos 0) = empty_flushed-fresh f z in
          (subst IsValid (sym run) w, ap unsent run ∙ same ∙ ground (arith, fresh))
      | inr begun ↦ elim (List-cases b.output_msgs) [
        | inl empty ↦ absurd (ground (arith, empty, v.placed.index_ok))
        | inr (first, rest, e) ↦
            let front : drop b.index first.bytes ≡ begun_bytes b = ground (arith, begun, e) in
            let whole : drop f.index (first.bytes ++ []) ++ held f ≡ begun_bytes b =
              ap (◌++◌ (drop f.index (first.bytes ++ []))) none_held
              ∙ append-nil (drop f.index (first.bytes ++ []))
              ∙ ap (drop f.index) (append-nil first.bytes)
              ∙ ap (λ i. drop i first.bytes) at
              ∙ front in
            let len : pos (length first.bytes) -ℤ pos f.index ≡ pos (length (begun_bytes b)) =
              ground (arith, ap length front, length-drop b.index first.bytes, at) in
            let ok_index : ((f.index == 0) || ltb f.index (length first.bytes)) ≡ true =
              ground (arith, at, e, v.placed.index_ok) in
            let (w, same) =
              requeued-IsValid f (first ∷ []) f.index (pos (length first.bytes) -ℤ pos f.index) v'
                ok_index whole len in
            let run : safe_empty b
                ≡ requeued f (first ∷ []) f.index (pos (length first.bytes) -ℤ pos f.index) =
              empty_flushed-begun first (rest ++ more) f (msgs ∙ ap (λ ms. ms ++ more) e)
                (ground (arith, begun, at)) in
            (subst IsValid (sym run) w, ap unsent run ∙ same)
      ]
    ]
