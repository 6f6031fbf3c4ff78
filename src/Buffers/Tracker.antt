-- ===== src/Buffers/Tracker.antt =====
-- `MessageTracker` of bxcommon/utils/buffers/message_tracker.py: which messages the bytes of an output
-- buffer belong to, and how many bytes of them are sent. The children are about its methods.
--
-- An entry's message is kept as its kind. The log lines are left out.
pub mod Pending
pub mod Emptied
use bxcommon.Prelude.Int.{ℤ, pos, negsuc, ◌+ℤ◌, ◌-ℤ◌}
use bxcommon.Prelude.Result.{Result, ok, err, index_error, ◌>>=◌}
use bxcommon.Prelude.{
  ℕ, suc, ◌+◌, ◌-◌, Bool, true, false, Option, none, some, List, [], ◌∷◌, ◌++◌, ltb, leb, ◌==◌,
  take, drop, if◌then◌else◌,
}

pub data MessageKind : Type 0 where
  block_message other_message : MessageKind

pub record MessageTrackerEntry : Type 0 where
  pub message : Option MessageKind
  pub label : Option ℕ
  pub sent_bytes : ℕ
  pub length : ℕ
  pub queued_time : ℕ
  pub last_operation_time : ℕ

pub record MessageTracker : Type 0 where
  pub messages : List MessageTrackerEntry
  pub is_working : Bool
  pub bytes_remaining : ℤ

unfoldable pub new_entry : ℕ → ℕ → Option MessageKind → Option ℕ → MessageTrackerEntry
new_entry now num_bytes message label = record {
  message = message;
  label = label;
  sent_bytes = 0;
  length = num_bytes;
  queued_time = now;
  last_operation_time = 0;
}

unfoldable pub is_sending_block_message : MessageTracker → Bool
is_sending_block_message t = elim t.messages [
  | [] ↦ false
  | entry ∷ _ ↦ elim entry.message [ some block_message ↦ true | _ ↦ false ]
]

-- The `while` loop of `advance_bytes`; `none` where the entries run out before the bytes. The test is
-- `bytes_left >= length - sent_bytes`, and a finished entry takes `length - sent_bytes` from the rest.
unfoldable pub send_bytes : ℕ → ℕ → List MessageTrackerEntry → Option (List MessageTrackerEntry)
send_bytes now bytes_left [] = if bytes_left == 0 then some [] else none
send_bytes now bytes_left (entry ∷ entries) =
    let later = send_bytes now (bytes_left + entry.sent_bytes - entry.length) entries in
    if bytes_left == 0
    then some (entry ∷ entries)
    else (if leb entry.length (bytes_left + entry.sent_bytes)
        then later
        else some (
            record entry { sent_bytes = entry.sent_bytes + bytes_left; last_operation_time = now }
            ∷ entries))

-- A count of bytes below 0 sends nothing.
unfoldable pub send_count : ℕ → ℤ → List MessageTrackerEntry → Option (List MessageTrackerEntry)
send_count now (pos n) entries = send_bytes now n entries
send_count now (negsuc _) entries = some entries

unfoldable pub advance_bytes : ℕ → ℤ → MessageTracker → MessageTracker
advance_bytes now num_bytes t =
    if t.is_working
    then (elim (send_count now num_bytes t.messages) [
      | some entries ↦ record t {
        messages = entries;
        bytes_remaining = t.bytes_remaining -ℤ num_bytes;
      }
      | none ↦ record t { messages = []; bytes_remaining = pos 0 }
    ])
    else t

unfoldable pub append_message :
    ℕ → ℕ → Option MessageKind → Option ℕ → MessageTracker → MessageTracker
append_message now num_bytes message label t =
    if t.is_working
    then record t {
      messages = t.messages ++ (new_entry now num_bytes message label ∷ []);
      bytes_remaining = t.bytes_remaining +ℤ pos num_bytes;
    }
    else t

-- Where no first message is in progress, the `else` branch appends at the end.
unfoldable pub place_before :
    MessageTrackerEntry → List MessageTrackerEntry → List MessageTrackerEntry
place_before new [] = new ∷ []
place_before new (first ∷ rest) =
    if first.sent_bytes == 0 then (first ∷ rest) ++ (new ∷ []) else first ∷ new ∷ rest

unfoldable pub prepend_message :
    ℕ → ℕ → Option MessageKind → Option ℕ → MessageTracker → MessageTracker
prepend_message now num_bytes message label t =
    if t.is_working
    then record t {
      messages = place_before (new_entry now num_bytes message label) t.messages;
      bytes_remaining = t.bytes_remaining +ℤ pos num_bytes;
    }
    else t

-- The first `while` loop of `empty_bytes`: how many entries stay. Past the last entry the deque raises.
-- The model is of entries that have sent no more than their length, so that the difference is not
-- below 0.
unfoldable pub count_skipped : ℕ → ℕ → List MessageTrackerEntry → Result ℕ
count_skipped bytes_skipped skip_bytes [] = err index_error
count_skipped bytes_skipped skip_bytes (entry ∷ entries) =
    let skipped = bytes_skipped + (entry.length - entry.sent_bytes) in
    let later = count_skipped skipped skip_bytes entries in
    if skipped == skip_bytes
    then ok 1
    else (if ltb skip_bytes skipped then ok 0 else (do index ← later; ok (suc index)))

-- The second loop takes the entries behind these off `bytes_remaining`, the last one first.
unfoldable pub take_off : ℤ → List MessageTrackerEntry → ℤ
take_off remaining [] = remaining
take_off remaining (entry ∷ entries) =
    take_off remaining entries -ℤ pos (entry.length - entry.sent_bytes)

unfoldable pub remove_from : ℕ → MessageTracker → MessageTracker
remove_from index t = record t {
  messages = take index t.messages;
  bytes_remaining = take_off t.bytes_remaining (drop index t.messages);
}

unfoldable pub empty_bytes : ℕ → MessageTracker → Result MessageTracker
empty_bytes skip_bytes t = elim t.messages [
  | [] ↦ ok t
  | _ ∷ _ ↦ do index ← count_skipped 0 skip_bytes t.messages; ok (remove_from index t)
]
