-- ===== src/Buffers/Tests.antt =====
-- The theorems of the buffers at concrete ones.
use bxcommon.Prelude.Bytes.{Bytes}
use bxcommon.Prelude.Int.{pos}
use bxcommon.Prelude.Result.{ok}
use bxcommon.Prelude.{ℕ, ◌-◌, ◌≡◌, refl, true, false, none, some, [], ◌∷◌, ◌++◌, take, drop, arith}
use bxcommon.Buffers.Input.{Piece, InputBuffer, remove_bytes, endswith, ends_with}
use bxcommon.Buffers.Input.Contents.{contents}
use bxcommon.Buffers.Input.Methods.{Removed, remove_bytes_lem}
use bxcommon.Buffers.Input.Suffix.{endswith_answer}
use bxcommon.Buffers.Output.{OutputBuffer, buffer, enqueue_msgbytes, advance_buffer}
use bxcommon.Buffers.Output.Unsent.{unsent, IsValid}
use bxcommon.Buffers.Output.Queue.{enqueue_msgbytes-IsValid}
use bxcommon.Buffers.Output.Sending.{advance_buffer-IsValid}
use bxcommon.Buffers.Tracker.{MessageTracker, MessageTrackerEntry, block_message, advance_bytes}
use bxcommon.Buffers.Tracker.Pending as Pending
use bxcommon.Buffers.Tracker.Pending.{pending, advance_bytes-IsValid, prepend_message_appends}

abbrev piece : Bytes → Piece
piece xs = record { is_bytearray = true; bytes = xs }

abbrev view : Bytes → Piece
view xs = record { is_bytearray = false; bytes = xs }

-- Five bytes in two pieces.
abbrev two_pieces : InputBuffer
two_pieces = record { input_list = piece (1 ∷ 2 ∷ []) ∷ view (3 ∷ 4 ∷ 5 ∷ []) ∷ []; length = pos 5 }

remove_bytes_lem_example :
    (b' : InputBuffer) × (remove_bytes (pos 3) two_pieces ≡ ok (take 3 (contents two_pieces), b'))
    × Removed 3 two_pieces b'
remove_bytes_lem_example = remove_bytes_lem 3 two_pieces refl (omega arith)

endswith_answer_example :
    (b' : InputBuffer) × (endswith (2 ∷ 3 ∷ 4 ∷ 5 ∷ []) two_pieces
      ≡ ok (ends_with (contents two_pieces) (2 ∷ 3 ∷ 4 ∷ 5 ∷ []), b'))
endswith_answer_example =
    endswith_answer (2 ∷ 3 ∷ 4 ∷ 5 ∷ []) two_pieces refl (omega arith) (omega arith)

-- A message of three bytes, one of them sent, and two bytes in the array, of four.
abbrev sending : OutputBuffer
sending = record {
  enable_buffering = true;
  output_msgs = view (1 ∷ 2 ∷ 3 ∷ []) ∷ [];
  index = 1;
  length = pos 4;
  min_size = 4;
  max_hold_time = 10;
  last_bytearray = some (7 ∷ 8 ∷ 0 ∷ 0 ∷ []);
  valid_len = 2;
  last_bytearray_create_time = some 100;
}

abbrev sending-IsValid : IsValid sending
sending-IsValid = record {
  placed = record { index_ok = refl; held_ok = (refl, omega arith, refl, 100, refl) };
  counted = refl;
}

enqueue_msgbytes-IsValid_example :
    (b' : OutputBuffer) × (enqueue_msgbytes 105 (buffer (view (9 ∷ []))) sending ≡ ok b')
    × IsValid b'
    × (unsent b' ≡ unsent sending ++ (9 ∷ []))
enqueue_msgbytes-IsValid_example =
    enqueue_msgbytes-IsValid 105 (view (9 ∷ [])) sending sending-IsValid

advance_buffer-IsValid_example :
    (b' : OutputBuffer) × (advance_buffer (pos 2) sending ≡ ok b')
    × IsValid b'
    × (unsent b' ≡ drop 2 (unsent sending))
advance_buffer-IsValid_example =
    advance_buffer-IsValid 2 (view (1 ∷ 2 ∷ 3 ∷ [])) [] sending sending-IsValid refl (omega arith)

abbrev entry : ℕ → ℕ → MessageTrackerEntry
entry sent len = record {
  message = some block_message;
  label = none;
  sent_bytes = sent;
  length = len;
  queued_time = 1;
  last_operation_time = 0;
}

-- Three messages, of which the first has two bytes left.
abbrev three_messages : MessageTracker
three_messages = record {
  messages = entry 1 3 ∷ entry 0 4 ∷ entry 0 5 ∷ [];
  is_working = true;
  bytes_remaining = pos 11;
}

abbrev three_messages-IsValid : Pending.IsValid three_messages
three_messages-IsValid = record {
  within = (omega arith, (omega arith, (omega arith, tt)));
  counted = refl;
}

abbrev fresh_messages : MessageTracker
fresh_messages = record {
  messages = entry 0 3 ∷ entry 0 4 ∷ [];
  is_working = true;
  bytes_remaining = pos 7;
}

advance_bytes-IsValid_example :
    Pending.IsValid (advance_bytes 9 (pos 4) three_messages)
    × (pending (advance_bytes 9 (pos 4) three_messages).messages
        ≡ pending three_messages.messages - 4)
advance_bytes-IsValid_example = advance_bytes-IsValid 9 4 three_messages three_messages-IsValid refl
