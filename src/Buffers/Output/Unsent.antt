-- ===== src/Buffers/Output/Unsent.antt =====
-- The bytes that an `OutputBuffer` still has to send, and `flush`.
use mathlib.Core.Path.{subst}
use bxcommon.Prelude.Int.{ℤ, pos}
use bxcommon.Prelude.Bytes.{Bytes, drop-append-le}
use bxcommon.Prelude.{
  ℕ, ◌≤◌, ◌≡◌, refl, sym, ap, ◌∙◌, true, false, ◌||◌, none, some, List, [], ◌∷◌, ◌++◌, ltb, ◌==◌,
  length, take, drop, if◌then◌else◌, arith, Option-cases, List-cases, inl, inr, append-nil,
  append_assoc, length-append,
}
use bxcommon.Buffers.Input.{Piece}
use bxcommon.Buffers.Input.Contents.{bytes_of, bytes_of-append}
use bxcommon.Buffers.Output.{OutputBuffer, flush, first_bytes, at_msg_boundary, push_message}

-- The bytes gathered in the array.
abbrev pub held : OutputBuffer → Bytes
held b = elim b.last_bytearray [ none ↦ [] | some last ↦ take b.valid_len last ]

-- All that is still to be sent, in the order of sending.
abbrev pub unsent : OutputBuffer → Bytes
unsent b = drop b.index (bytes_of b.output_msgs) ++ held b

abbrev pub first_length : List Piece → ℕ
first_length [] = 0
first_length (p ∷ ps) = length p.bytes

-- The array is of its size, filled as far as `valid_len`, and of a known age.
abbrev pub IsHeld : OutputBuffer → Type 0
IsHeld b = elim b.last_bytearray [
  | none ↦ b.valid_len ≡ 0
  | some last ↦
      (length last ≡ b.min_size)
      × (b.valid_len ≤ b.min_size)
      × (b.enable_buffering ≡ true)
      × (created : ℕ) × (b.last_bytearray_create_time ≡ some created)
]

-- The index lies in the first message.
pub record IsPlaced (b : OutputBuffer) : Type 0 where
  pub index_ok : ((b.index == 0) || ltb b.index (first_length b.output_msgs)) ≡ true
  pub held_ok : IsHeld b

-- And the length is of what is unsent.
pub record IsValid (b : OutputBuffer) : Type 0 where
  pub placed : IsPlaced b
  pub counted : b.length ≡ pos (length (unsent b))

pub index_le : (b : OutputBuffer) → IsPlaced b → b.index ≤ length (bytes_of b.output_msgs)
index_le b v = elim (List-cases b.output_msgs) [
  | inl e ↦ ground (arith, e, v.index_ok)
  | inr (p, ps, e) ↦ ground (arith, e, v.index_ok, length-append p.bytes (bytes_of ps))
]

-- Messages put at the end are sent last.
append-unsent :
    (msgs new : List Piece) (index : ℕ)
    → index ≤ length (bytes_of msgs)
    → drop index (bytes_of (msgs ++ new)) ≡ drop index (bytes_of msgs) ++ bytes_of new
append-unsent msgs new index h =
    ap (drop index) (bytes_of-append msgs new)
    ∙ drop-append-le index (bytes_of msgs) (bytes_of new) h

pub first_length-append :
    (msgs new : List Piece) (index : ℕ)
    → ((index == 0) || ltb index (first_length msgs)) ≡ true
    → ((index == 0) || ltb index (first_length (msgs ++ new))) ≡ true
first_length-append [] new index h = ground arith
first_length-append (p ∷ ps) new index h = h

-- The buffer `b'` has the bytes `msg` behind those of `b`, and they are not yet counted.
pub record Placed (msg : Bytes) (b b' : OutputBuffer) : Type 0 where
  pub placed : IsPlaced b'
  pub moved : unsent b' ≡ unsent b ++ msg
  pub uncounted : b'.length ≡ b.length

pub same-Placed : (b : OutputBuffer) → IsPlaced b → Placed [] b b
same-Placed b v = record { placed = v; moved = sym (append-nil (unsent b)); uncounted = refl }

-- A message put in the deque while nothing is held.
pub push-Placed :
    (msg : Piece) (b : OutputBuffer)
    → IsPlaced b
    → b.last_bytearray ≡ none
    → Placed msg.bytes b (push_message msg b)
unfolding push_message
push-Placed msg b v e =
    let nothing : held b ≡ [] = ground (arith, e) in
    let queue = drop b.index (bytes_of b.output_msgs) in
    record {
      placed = record {
        index_ok = first_length-append b.output_msgs (msg ∷ []) b.index v.index_ok;
        held_ok = v.held_ok;
      };
      moved =
          ap (λ h. drop b.index (bytes_of (b.output_msgs ++ (msg ∷ []))) ++ h) nothing
          ∙ append-nil (drop b.index (bytes_of (b.output_msgs ++ (msg ∷ []))))
          ∙ append-unsent b.output_msgs (msg ∷ []) b.index (index_le b v)
          ∙ ap (◌++◌ queue) (append-nil msg.bytes)
          ∙ ap (λ h. h ++ msg.bytes) (sym (append-nil queue) ∙ ap (◌++◌ queue) (sym nothing));
      uncounted = refl;
    }

-- `flush` keeps what is unsent, and then nothing is held.
pub flush-Placed :
    (b : OutputBuffer) → IsPlaced b → Placed [] b (flush b) × ((flush b).last_bytearray ≡ none)
unfolding flush push_message
flush-Placed b v = elim (Option-cases b.last_bytearray) [
  | inl e ↦
      let same : flush b ≡ b = ground (arith, e) in
      (subst (Placed [] b) (sym same) (same-Placed b v), ground (arith, e))
  | inr (last, e) ↦
      let piece : Piece = record { is_bytearray = false; bytes = take b.valid_len last } in
      let emptied : OutputBuffer = record b {
        last_bytearray = none;
        last_bytearray_create_time = none;
        valid_len = 0;
      } in
      let pushed =
        push-Placed piece emptied (record { index_ok = v.index_ok; held_ok = refl }) refl in
      let run : flush b ≡ push_message piece emptied = ground (arith, e) in
      let queue = drop b.index (bytes_of b.output_msgs) in
      let whole : unsent emptied ++ piece.bytes ≡ unsent b ++ [] =
        ap (λ q. q ++ take b.valid_len last) (append-nil queue)
        ∙ ap (◌++◌ queue) (ground (arith, e))
        ∙ sym (append-nil (unsent b)) in
      (
        subst (Placed [] b) (sym run) (record {
          placed = pushed.placed;
          moved = pushed.moved ∙ whole;
          uncounted = pushed.uncounted;
        }),
        ground (arith, e),
      )
]

-- One step after another.
pub chain-Placed :
    {b c d : OutputBuffer} (xs ys : Bytes) → Placed xs b c → Placed ys c d → Placed (xs ++ ys) b d
chain-Placed {b = b} xs ys p q = record {
  placed = q.placed;
  moved = q.moved ∙ ap (λ u. u ++ ys) p.moved ∙ append_assoc (unsent b) xs ys;
  uncounted = q.uncounted ∙ p.uncounted;
}

-- Without buffering nothing is held.
pub not_held : (b : OutputBuffer) → IsHeld b → b.enable_buffering ≡ false → b.last_bytearray ≡ none
not_held b h off = elim (Option-cases b.last_bytearray) [
  | inl e ↦ e
  | inr (last, e) ↦
      let h' : IsHeld (record b { last_bytearray = some last }) = ground (arith, e, h) in
      absurd (ground (arith, h'.3, off))
]

-- What is held has a known age.
pub age_of :
    (b : OutputBuffer)
    → IsHeld b
    → (last : Bytes) → b.last_bytearray ≡ some last
    → (created : ℕ) × (b.last_bytearray_create_time ≡ some created)
age_of b h last e =
    let h' : IsHeld (record b { last_bytearray = some last }) = ground (arith, e, h) in (h'.3, h'.4)

-- Flushing keeps a buffer valid, and what it has to send.
pub flush-IsValid :
    (b : OutputBuffer) → IsValid b → IsValid (flush b) × (unsent (flush b) ≡ unsent b)
flush-IsValid b v =
    let (p, nothing) = flush-Placed b v.placed in
    let same = p.moved ∙ append-nil (unsent b) in
    (
      record {
        placed = p.placed;
        counted = p.uncounted ∙ v.counted ∙ ap (λ xs. pos (length xs)) (sym same);
      },
      same,
    )

-- The buffer with other messages in its deque, and what it then has to send.
abbrev pub requeued : OutputBuffer → List Piece → ℕ → ℤ → OutputBuffer
requeued b msgs index len = record b { output_msgs = msgs; index = index; length = len }

pub requeued-IsValid :
    (b : OutputBuffer) (msgs : List Piece) (index : ℕ) (len : ℤ) {sent : Bytes}
    → IsValid b
    → ((index == 0) || ltb index (first_length msgs)) ≡ true
    → drop index (bytes_of msgs) ++ held b ≡ sent
    → len ≡ pos (length sent)
    → IsValid (requeued b msgs index len) × (unsent (requeued b msgs index len) ≡ sent)
requeued-IsValid b msgs index len v index_ok moved counted = (
  record {
    placed = record { index_ok = index_ok; held_ok = v.placed.held_ok };
    counted = counted ∙ ap (λ xs. pos (length xs)) (sym moved);
  },
  moved,
)

-- Flushing keeps the index, and adds messages at the end.
pub flush-front :
    (b : OutputBuffer)
    → ((flush b).index ≡ b.index)
      × (more : List Piece) × ((flush b).output_msgs ≡ b.output_msgs ++ more)
unfolding flush
flush-front b = elim (Option-cases b.last_bytearray) [
  | inl e ↦ (ground (arith, e), [], ground (arith, e, append-nil b.output_msgs))
  | inr (last, e) ↦ (
    ground (arith, e),
    record { is_bytearray = false; bytes = take b.valid_len last } ∷ [],
    ground (arith, e),
  )
]

-- The rest of the message that is being sent.
abbrev pub begun_bytes : OutputBuffer → Bytes
begun_bytes b = if at_msg_boundary b then [] else first_bytes b
