-- ===== src/Connections/Processing.antt =====
-- `AbstractConnection.process_message` of bxcommon/connections/abstract_connection.py, with the methods
-- that it calls: messages are taken off the input buffer, validated, read and handled.
--
-- A connection is its input buffer and its session: the attributes that the loop reads, and `app`,
-- what the handlers of a kind of connection work on. Handlers change the session and not the input
-- buffer. (The base class's `process_msg_type` does nothing, and has no counterpart.)
pub mod Body
pub mod Spec
pub mod Errors
pub mod Frame
pub mod Round
pub mod Partial
pub mod Ends
pub mod Stream
pub mod Bad
pub mod Bloxroute
pub mod Delivered
pub mod Built
mod Tests
use bxcommon.Buffers.Input.{InputBuffer, remove_bytes, peek_message, same_bytes}
use bxcommon.Messages.Message.{Message}
use bxcommon.Messages.Factory.{
  MessageFactory, get_message_header_preview, create_message_from_buffer,
}
use bxcommon.Prelude.Bytes.{Bytes}
use bxcommon.Prelude.Int.{ℤ, pos, negsuc}
use bxcommon.Prelude.Result.{Error, Result, ok, err, type_error}
use bxcommon.Prelude.{
  ℕ, zero, suc, ◌+◌, ◌*◌, Bool, true, false, ◌||◌, ◌&&◌, not, Option, none, some, List, [], ◌∷◌,
  ltb, leb, ◌==◌, if◌then◌else◌, min,
}

abbrev pub max_bad_messages : ℕ
max_bad_messages = 3

abbrev pub max_logged_bytes_len : ℕ
max_logged_bytes_len = 500 * 1024

-- `alive` and `should_retry` are those of the socket connection.
pub record Session (App : Type 0) : Type 0 where
  pub alive : Bool
  pub should_retry : Bool
  pub from_me : Bool
  pub established : Bool
  pub num_bad_messages : ℕ
  pub processing_message_index : ℕ
  pub app : App

pub record Connection (App : Type 0) : Type 0 where
  pub inputbuf : InputBuffer
  pub session : Session App

-- What a kind of connection gives: its factory and validator, the length of a header, the types of
-- messages that may come before the connection is established, and the handlers by type.
pub record Protocol (App : Type 0) : Type 0 where
  pub message_factory : MessageFactory
  pub validate : Bool → Option Bytes → ℕ → Option ℕ → InputBuffer → Result InputBuffer
  pub header_size : ℕ
  pub hello_messages : List Bytes
  pub message_handlers : Bytes → Option (Message → Session App → Result (Unit {0}) × Session App)

pub record ConnectionMessagePreview : Type 0 where
  pub is_full_message : Bool
  pub should_process : Bool
  pub command : Option Bytes
  pub payload_length : Option ℕ

-- How a round of the loop ends: the next one follows, the loop is left, or an exception leaves the
-- method.
pub data Flow : Type 0 where
  again stop : Flow
  raised : Error → Flow

abbrev pub contains_bytes : Bytes → List Bytes → Bool
contains_bytes t [] = false
contains_bytes t (u ∷ us) = same_bytes t u || contains_bytes t us

module _ {App : Type 0} where
  -- `mark_for_close` with no argument, and that of the socket connection.
  unfoldable pub mark_for_close : Session App → Session App
  mark_for_close s = if s.alive then record s { alive = false; should_retry = s.from_me } else s

  -- `_report_bad_message`
  unfoldable pub report_bad_message : Session App → Bool × Session App
  report_bad_message s =
      if s.num_bad_messages == max_bad_messages
      then (true, mark_for_close s)
      else (false, record s { num_bad_messages = s.num_bad_messages + 1 })

  -- The end of a handler of exceptions that lets the connection live, unless it had too many bad
  -- messages in a row.
  unfoldable pub count_bad_message : Connection App → Flow × Connection App
  count_bad_message c =
      let (closed, s) = report_bad_message c.session in
      if closed then (stop, record c { session = s }) else (
        again,
        record c {
          session = record s { processing_message_index = s.processing_message_index + 1 };
        },
      )

module _ {App : Type 0} (p : Protocol App) where
  -- A call gives its result and the connection, which it may have changed before it raised.
  unfoldable pub pre_process_msg : Connection App → Result ConnectionMessagePreview × Connection App
  pre_process_msg c = elim (get_message_header_preview p.message_factory c.inputbuf) [
    | err e ↦ (err e, c)
    | ok (preview, b) ↦ (
      ok (record {
        is_full_message = preview.is_full_message;
        should_process = true;
        command = preview.command;
        payload_length = preview.payload_length;
      }),
      record c { inputbuf = b },
    )
  ]

  unfoldable pub pop_next_bytes : Option ℕ → Connection App → Result Bytes × Connection App
  pop_next_bytes none c = (err type_error, c)
  pop_next_bytes (some payload_len) c =
      let msg_len = p.message_factory.base_message_type.header_length + payload_len in
      elim (remove_bytes (pos msg_len) c.inputbuf) [
        | err e ↦ (err e, c)
        | ok (bytes, b) ↦ (ok bytes, record c { inputbuf = b })
      ]

  unfoldable pub pop_next_message : Option ℕ → Connection App → Result Message × Connection App
  pop_next_message payload_len c =
      let (popped, c') = pop_next_bytes payload_len c in
      elim popped [
        | err e ↦ (err e, c')
        | ok bytes ↦ (create_message_from_buffer p.message_factory bytes, c')
      ]

  unfoldable pub clean_up_current_msg :
      Option ℕ → Bool → Connection App → Result (Unit {0}) × Connection App
  clean_up_current_msg payload_len false c = (ok tt, c)
  clean_up_current_msg none true c = (err type_error, c)
  clean_up_current_msg (some payload_len) true c =
      elim (remove_bytes (pos (p.header_size + payload_len)) c.inputbuf) [
        | err e ↦ (err e, c)
        | ok (_, b) ↦ (ok tt, record c { inputbuf = b })
      ]

  -- `_get_last_msg_bytes`, which is called to log the bytes of a message that could not be processed.
  unfoldable pub get_last_msg_bytes :
      Option ℕ → Bool → Connection App → Result (Unit {0}) × Connection App
  get_last_msg_bytes payload_len false c = (ok tt, c)
  get_last_msg_bytes none true c = (ok tt, c)
  get_last_msg_bytes (some payload_len) true c =
      elim (peek_message (min (p.header_size + payload_len) max_logged_bytes_len) c.inputbuf) [
        | err e ↦ (err e, c)
        | ok (_, b) ↦ (ok tt, record c { inputbuf = b })
      ]
