-- ===== src/Buffers/Output.antt =====
-- `OutputBuffer` of bxcommon/utils/buffers/output_buffer.py: messages that wait to be sent, the small
-- ones gathered for a while in one array. The children are about its methods.
-- The memoryview `last_memview` is of `last_bytearray`, and has no field of its own.
pub mod Unsent
pub mod Queue
pub mod Sending
pub mod Ahead
use bxcommon.Prelude.Bytes.{Bytes, assign_slice}
use bxcommon.Prelude.Int.{ℤ, pos, negsuc, ◌+ℤ◌, ◌-ℤ◌}
use bxcommon.Prelude.Result.{
  Result, ok, err, value_error, type_error, index_error, attribute_error, ◌>>=◌,
}
use bxcommon.Prelude.{
  ℕ, ◌+◌, ◌-◌, Bool, true, false, not, ◌&&◌, ◌||◌, Option, none, some, List, [], ◌∷◌, ◌++◌, ltb,
  leb, ◌==◌, length, take, drop, if◌then◌else◌, replicate,
}
use bxcommon.Buffers.Input.{Piece}

pub record OutputBuffer : Type 0 where
  pub enable_buffering : Bool
  pub output_msgs : List Piece
  pub index : ℕ
  pub length : ℤ
  pub min_size : ℕ
  pub max_hold_time : ℕ
  pub last_bytearray : Option Bytes
  pub valid_len : ℕ
  pub last_bytearray_create_time : Option ℕ

-- What a caller may pass as message bytes.
pub data Chunk : Type 0 where
  -- a bytearray or a memoryview
  buffer : Piece → Chunk
  other : Chunk

unfoldable pub new_buffer : ℕ → ℕ → Bool → OutputBuffer
new_buffer min_size max_hold_time enable_buffering = record {
  enable_buffering = enable_buffering;
  output_msgs = [];
  index = 0;
  length = pos 0;
  min_size = min_size;
  max_hold_time = max_hold_time;
  last_bytearray = none;
  valid_len = 0;
  last_bytearray_create_time = none;
}

unfoldable pub flush : OutputBuffer → OutputBuffer
flush b = elim b.last_bytearray [
  | none ↦ b
  | some last ↦ record b {
    output_msgs =
        b.output_msgs ++ (record { is_bytearray = false; bytes = take b.valid_len last } ∷ []);
    last_bytearray_create_time = none;
    last_bytearray = none;
    valid_len = 0;
  }
]

-- The array is held for `max_hold_time` at `now`.
unfoldable pub is_due : ℕ → OutputBuffer → Result Bool
is_due now b = elim b.last_bytearray_create_time [
  | none ↦ err type_error
  | some created ↦ ok (leb (created + b.max_hold_time) now)
]

-- The `if` at the start of `get_buffer`.
unfoldable pub flush_if_due : ℕ → OutputBuffer → Result OutputBuffer
flush_if_due now b =
    if b.enable_buffering
    then (elim b.last_bytearray [
      | none ↦ ok b
      | some last ↦ do due ← is_due now b; ok (if due then flush b else b)
    ])
    else ok b

-- `memoryview(self.output_msgs[0])[self.index:]`
unfoldable pub first_bytes : OutputBuffer → Bytes
first_bytes b = elim b.output_msgs [ [] ↦ [] | first ∷ rest ↦ drop b.index first.bytes ]

unfoldable pub get_buffer : ℕ → OutputBuffer → Result (Bytes × OutputBuffer)
get_buffer now b = do b' ← flush_if_due now b; ok (first_bytes b', b')

-- The last lines of `advance_buffer`.
unfoldable pub advance_index : ℕ → Piece → List Piece → OutputBuffer → OutputBuffer
advance_index num_bytes first rest b =
    if b.index + num_bytes == length first.bytes
    then record b { output_msgs = rest; index = 0; length = b.length -ℤ pos num_bytes }
    else record b { index = b.index + num_bytes; length = b.length -ℤ pos num_bytes }

-- The message of the error takes `tobytes` of the first message, which a bytearray has not.
unfoldable pub advance_buffer : ℤ → OutputBuffer → Result OutputBuffer
advance_buffer (negsuc _) b = err value_error
advance_buffer (pos num_bytes) b = elim b.output_msgs [
  | [] ↦ if ltb 0 num_bytes then err value_error else err index_error
  | first ∷ rest ↦
      if ltb (length first.bytes) (b.index + num_bytes)
      then err (if first.is_bytearray then attribute_error else value_error)
      else ok (advance_index num_bytes first rest b)
]

unfoldable pub push_message : Piece → OutputBuffer → OutputBuffer
push_message msg b = record b { output_msgs = b.output_msgs ++ (msg ∷ []) }

-- The last `else` of `enqueue_msgbytes`: the bytes join the array.
unfoldable pub hold : ℕ → Bytes → OutputBuffer → Result OutputBuffer
hold now msg b = elim b.last_bytearray [
  | none ↦ ok (record b {
    last_bytearray = some (assign_slice 0 (length msg) msg (replicate b.min_size 0));
    valid_len = length msg;
    last_bytearray_create_time = some now;
  })
  | some last ↦ elim b.last_bytearray_create_time [
    | none ↦ err value_error
    | some created ↦
        let b' = record b {
          last_bytearray = some (assign_slice b.valid_len (b.valid_len + length msg) msg last);
          valid_len = b.valid_len + length msg;
        } in
        ok (if ltb (created + b.max_hold_time) now then flush b' else b')
  ]
]

unfoldable pub place : ℕ → Piece → OutputBuffer → Result OutputBuffer
place now msg b =
    if not b.enable_buffering
    then ok (push_message msg b)
    else (if ltb b.min_size (length msg.bytes + b.valid_len)
        then ok (push_message msg (flush b))
        else hold now msg.bytes b)

unfoldable pub enqueue_msgbytes : ℕ → Chunk → OutputBuffer → Result OutputBuffer
enqueue_msgbytes now other b = err value_error
enqueue_msgbytes now (buffer msg) b = do
  b' ← place now msg b
  ok (record b' { length = b'.length +ℤ pos (length msg.bytes) })

-- In front where no message is begun, else behind the first one. (An index above 0 with no message
-- is an error of the deque.)
unfoldable pub prepend_msgbytes : Chunk → OutputBuffer → Result OutputBuffer
prepend_msgbytes other b = err value_error
prepend_msgbytes (buffer msg) b =
    let longer = b.length +ℤ pos (length msg.bytes) in
    if b.index == 0
    then ok (record b { output_msgs = msg ∷ b.output_msgs; length = longer })
    else (elim b.output_msgs [
      | [] ↦ err index_error
      | prev_msg ∷ rest ↦ ok (record b { output_msgs = prev_msg ∷ msg ∷ rest; length = longer })
    ])

unfoldable pub has_more_bytes : OutputBuffer → Bool
has_more_bytes b = elim b.length [ pos n ↦ not (n == 0) | negsuc _ ↦ true ]

-- `at_msg_boundary`
unfoldable pub at_msg_boundary : OutputBuffer → Bool
at_msg_boundary b = b.index == 0

unfoldable pub empty_flushed : OutputBuffer → OutputBuffer
empty_flushed b = elim b.output_msgs [
  | [] ↦ record b { output_msgs = []; length = pos 0 }
  | first ∷ rest ↦
      if b.index == 0
      then record b { output_msgs = []; length = pos 0 }
      else record b { output_msgs = first ∷ []; length = pos (length first.bytes) -ℤ pos b.index }
]

unfoldable pub safe_empty : OutputBuffer → OutputBuffer
safe_empty b = empty_flushed (flush b)
