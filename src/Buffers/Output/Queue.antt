-- ===== src/Buffers/Output/Queue.antt =====
-- `enqueue_msgbytes` of `OutputBuffer`.
use mathlib.Core.Path.{subst}
use bxcommon.Prelude.Int.{pos, ◌+ℤ◌}
use bxcommon.Prelude.Bytes.{assign_slice, Bytes, take-append_self}
use bxcommon.Prelude.Result.{ok}
use bxcommon.Prelude.{
  ℕ, zero, suc, ◌+◌, ◌≤◌, ◌≡◌, refl, sym, ap, ◌∙◌, true, some, [], ◌∷◌, ◌++◌, ltb, length, take,
  drop, replicate, arith, Bool-cases, Option-cases, inl, inr, append-nil, append_assoc,
  length-append, length-drop, length-replicate,
}
use bxcommon.Buffers.Input.{Piece}
use bxcommon.Buffers.Input.Contents.{bytes_of}
use bxcommon.Buffers.Output.Unsent.{
  held, unsent, IsHeld, IsPlaced, IsValid, not_held, Placed, push-Placed, flush-Placed,
  chain-Placed,
}
use bxcommon.Buffers.Output.{
  OutputBuffer, buffer, flush, push_message, hold, place, enqueue_msgbytes,
}

-- What lies before the written slice, and the slice.
take-assign_slice :
    (start : ℕ) (new xs : Bytes)
    → start ≤ length xs
    → take (start + length new) (assign_slice start (start + length new) new xs)
      ≡ take start xs ++ new
take-assign_slice zero new xs h =
    let e : 0 + length new ≡ length new = omega arith in
    rw e (take-append_self new (drop (length new) xs))
take-assign_slice (suc start) new [] h = absurd (omega arith)
take-assign_slice (suc start) new (x ∷ xs) h =
    let e : suc start + length new ≡ suc (start + length new) = omega arith in
    rw e (ap (◌∷◌ x) (take-assign_slice start new xs (omega arith)))

length-assign_slice :
    (start : ℕ) (new xs : Bytes)
    → start + length new ≤ length xs
    → length (assign_slice start (start + length new) new xs) ≡ length xs
length-assign_slice zero new xs h =
    let e : 0 + length new ≡ length new = omega arith in
    rw e (omega (arith, length-append new (drop (length new) xs), length-drop (length new) xs))
length-assign_slice (suc start) new [] h = absurd (omega arith)
length-assign_slice (suc start) new (x ∷ xs) h =
    let e : suc start + length new ≡ suc (start + length new) = omega arith in
    rw e (ap suc (length-assign_slice start new xs (omega arith)))

-- The array, new or old, with the message written into it.
abbrev gathered : ℕ → Bytes → Bytes → ℕ → OutputBuffer → OutputBuffer
gathered start msg last created b = record b {
  last_bytearray = some (assign_slice start (start + length msg) msg last);
  valid_len = start + length msg;
  last_bytearray_create_time = some created;
}

gathered-Placed :
    (start : ℕ) (msg last : Bytes) (created : ℕ) (b : OutputBuffer)
    → IsPlaced b
    → b.enable_buffering ≡ true
    → length last ≡ b.min_size
    → start + length msg ≤ b.min_size
    → held b ≡ take start last
    → Placed msg b (gathered start msg last created b)
gathered-Placed start msg last created b v on size fits before =
    let queue = drop b.index (bytes_of b.output_msgs) in
    record {
      placed = record {
        index_ok = v.index_ok;
        held_ok = (
          length-assign_slice start msg last (omega (arith, size)) ∙ size,
          fits,
          on,
          created,
          refl,
        );
      };
      moved =
          ap (◌++◌ queue) (
            take-assign_slice start msg last (omega (arith, size))
            ∙ ap (λ h. h ++ msg) (sym before))
          ∙ sym (append_assoc queue (held b) msg);
      uncounted = refl;
    }

then_flush : {b c : OutputBuffer} (msg : Bytes) → Placed msg b c → Placed msg b (flush c)
then_flush {b} {c} msg p =
    let (q, nothing) = flush-Placed c p.placed in
    subst (λ m. Placed m b (flush c)) (append-nil msg) (chain-Placed msg [] p q)

hold-Placed :
    (now : ℕ) (msg : Bytes) (b : OutputBuffer)
    → IsPlaced b
    → b.enable_buffering ≡ true
    → length msg + b.valid_len ≤ b.min_size
    → (b' : OutputBuffer) × (hold now msg b ≡ ok b') × Placed msg b b'
unfolding hold
hold-Placed now msg b v on fits = elim (Option-cases b.last_bytearray) [
  | inl e ↦
      let zeros = replicate b.min_size 0 in
      let start : 0 + length msg ≡ length msg = omega arith in
      (
        gathered 0 msg zeros now b,
        ground (arith, e, start),
        gathered-Placed 0 msg zeros now b v on (length-replicate b.min_size 0) (omega arith)
            (ground (arith, e)),
      )
  | inr (last, e) ↦
      let h : IsHeld (record b { last_bytearray = some last }) = ground (arith, e, v.held_ok) in
      let (size, fill, on', created, age) = h in
      let p =
        gathered-Placed b.valid_len msg last created b v on size (omega arith)
          (ground (arith, e)) in
      let b' = gathered b.valid_len msg last created b in
      elim (Bool-cases (ltb (created + b.max_hold_time) now)) [
        | inl due ↦ (flush b', ground (arith, e, age, due), then_flush msg p)
        | inr young ↦ (b', ground (arith, e, age, young), p)
      ]
]

place-Placed :
    (now : ℕ) (msg : Piece) (b : OutputBuffer)
    → IsPlaced b
    → (b' : OutputBuffer) × (place now msg b ≡ ok b') × Placed msg.bytes b b'
unfolding place
place-Placed now msg b v = elim (Bool-cases b.enable_buffering) [
  | inl on ↦ elim (Bool-cases (ltb b.min_size (length msg.bytes + b.valid_len))) [
    | inl large ↦
        let (p, nothing) = flush-Placed b v in
        (
          push_message msg (flush b),
          ground (arith, on, large),
          chain-Placed [] msg.bytes p (push-Placed msg (flush b) p.placed nothing),
        )
    | inr small ↦
        let (b', run, p) = hold-Placed now msg.bytes b v on (ground (arith, small)) in
        (b', ground (arith, on, small, run), p)
  ]
  | inr off ↦
      (push_message msg b, ground (arith, off), push-Placed msg b v (not_held b v.held_ok off))
]

-- Enqueueing a bytearray or a memoryview raises nothing, at any time: its bytes join the end of what
-- is unsent, whether they are held or not, and the buffer stays valid.
pub enqueue_msgbytes-IsValid :
    (now : ℕ) (msg : Piece) (b : OutputBuffer)
    → IsValid b
    → (b' : OutputBuffer) × (enqueue_msgbytes now (buffer msg) b ≡ ok b')
      × IsValid b'
      × (unsent b' ≡ unsent b ++ msg.bytes)
unfolding enqueue_msgbytes
enqueue_msgbytes-IsValid now msg b v =
    let (c, run, p) = place-Placed now msg b v.placed in
    (
      record c { length = c.length +ℤ pos (length msg.bytes) },
      ground (arith, run),
      record {
        placed = record { index_ok = p.placed.index_ok; held_ok = p.placed.held_ok };
        counted =
            ground (
              arith,
              p.uncounted,
              v.counted,
              ap length p.moved,
              length-append (unsent b) msg.bytes,
            );
      },
      p.moved,
    )
