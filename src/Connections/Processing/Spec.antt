-- ===== src/Connections/Processing/Spec.antt =====
-- What the loop is to do with one whole message, as a function of its bytes and the session, and what
-- it relies on in a protocol.
use bxcommon.Buffers.Input.{InputBuffer}
use bxcommon.Buffers.Input.Contents.{contents, IsCounted}
use bxcommon.Connections.Processing.{
  Flow, again, stop, raised, Protocol, Session, mark_for_close, report_bad_message,
}
use bxcommon.Connections.Processing.Body.{
  pass, close, log_and_close, clean_up, clean_up_full, handling, is_hello,
}
use bxcommon.Messages.Message.{Message, bx_hdr_common_off}
use bxcommon.Messages.Factory.{create_message_from_buffer}
use bxcommon.Messages.Validator.Verdict.{SameContents}
use bxcommon.Prelude.Bytes.{Bytes}
use bxcommon.Prelude.Result.{Error, Result, ok, err, unauthorized_message_error, ◌>>=◌}
use bxcommon.Prelude.{
  ℕ, ◌+◌, ◌<◌, ◌≤◌, ◌≡◌, ◌≢◌, Bool, ◌&&◌, not, Option, none, some, if◌then◌else◌,
}

-- The validator's answer is one of the bytes, it keeps them, and it raises no
-- UnauthorizedMessageError; the loop cleans up as many bytes of a message as it takes off, and a header has room for
-- the type and the length.
pub record IsSound {App : Type 0} (p : Protocol App)
    (verdict : Bool → Option Bytes → ℕ → Option ℕ → Bytes → Result (Unit {0})) : Type 0 where
  pub header_sizes : p.header_size ≡ p.message_factory.base_message_type.header_length
  pub some_header : 0 < p.header_size
  pub header_fits :
      p.message_factory.base_message_type.starting_bytes_len + bx_hdr_common_off
      ≤ p.message_factory.base_message_type.header_length
  pub authorizes :
      (full : Bool) (msg_type : Option Bytes) (header_len : ℕ) (payload_len : Option ℕ)
      (all : Bytes)
      → verdict full msg_type header_len payload_len all ≢ err unauthorized_message_error
  pub validates :
      (full : Bool) (msg_type : Option Bytes) (header_len : ℕ) (payload_len : Option ℕ)
      (b : InputBuffer)
      → IsCounted b
      → (b' : InputBuffer) × (p.validate full msg_type header_len payload_len b
          ≡ (verdict full msg_type header_len payload_len (contents b) >>= λ _. ok b'))
        × SameContents b b'

module _ {App : Type 0} where
  abbrev pub finished : Session App → Session App
  finished s = record s {
    num_bad_messages = 0;
    processing_message_index = s.processing_message_index + 1;
  }

  -- One more bad message: the connection is closed at the fourth in a row.
  abbrev pub counted_bad : Session App → Flow × Session App
  counted_bad s =
      let (closed, s') = report_bad_message s in
      if closed
      then (stop, s')
      else (again, record s' { processing_message_index = s'.processing_message_index + 1 })

  -- An exception in a whole message.
  abbrev pub failed : Error → Session App → Flow × Session App
  failed e s = elim (handling e) [
    | pass ↦ (raised e, s)
    | close ↦ (stop, mark_for_close s)
    | log_and_close ↦ (stop, mark_for_close s)
    | clean_up ↦ counted_bad s
    | clean_up_full ↦ counted_bad s
  ]

module _ {App : Type 0} (p : Protocol App) where
  -- The handler of a message of this type.
  abbrev pub handled : Bytes → Message → Session App → Flow × Session App
  handled msg_type msg s = elim (p.message_handlers msg_type) [
    | none ↦ (again, finished s)
    | some handler ↦
        let (result, s') = handler msg s in
        elim result [ err e ↦ failed e s' | ok _ ↦ (again, finished s') ]
  ]

  -- A whole message of which the validator thinks `valid`.
  abbrev pub served : Result (Unit {0}) → Bytes → Bytes → Session App → Flow × Session App
  served valid msg_type bytes s = elim valid [
    | err e ↦ failed e s
    | ok _ ↦ elim (create_message_from_buffer p.message_factory bytes) [
      | err e ↦ failed e s
      | ok msg ↦
          if not s.established && not (is_hello p (some msg_type))
          then (stop, mark_for_close s)
          else handled msg_type msg s
    ]
  ]
