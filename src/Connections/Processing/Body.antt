-- ===== src/Connections/Processing/Body.antt =====
-- A round of the `while` loop of `process_message`, its handlers of exceptions, and the loop.
use bxcommon.Connections.Processing.{
  Connection, ConnectionMessagePreview, Flow, again, stop, raised, Protocol, contains_bytes,
  mark_for_close, pre_process_msg, pop_next_bytes, pop_next_message, clean_up_current_msg,
  get_last_msg_bytes, count_bad_message,
}
use bxcommon.Messages.Message.{Message}
use bxcommon.Prelude.Bytes.{Bytes}
use bxcommon.Prelude.Int.{ℤ, eqb_ℤ}
use bxcommon.Prelude.Result.{
  Error, Result, ok, err, payload_len_error, memory_error, unauthorized_message_error,
  non_version_message_error,
}
use bxcommon.Prelude.{ℕ, zero, suc, ◌+◌, Bool, false, ◌&&◌, not, Option, none, some, if◌then◌else◌}

-- How the `try` block ends without an exception: at its end, by `continue`, or by `break` or `return`.
pub data Exit : Type 0 where
  finish continue leave : Exit

-- How an exception is handled: it passes, the connection is closed (with or without a look at the
-- bytes), or the message is cleaned up, always or only if it was there as a whole.
pub data Handling : Type 0 where
  pass close log_and_close clean_up clean_up_full : Handling

unfoldable pub handling : Error → Handling
handling memory_error = pass
handling payload_len_error = close
handling non_version_message_error = log_and_close
handling unauthorized_message_error = clean_up
handling _ = clean_up_full

module _ {App : Type 0} where
  unfoldable pub close_connection : Connection App → Connection App
  close_connection c = record c { session = mark_for_close c.session }

  -- The `else` clause, and the last line of the loop.
  unfoldable pub finish_round : Connection App → Connection App
  finish_round c = record c {
    session = record (c.session) {
      num_bad_messages = 0;
      processing_message_index = c.session.processing_message_index + 1;
    };
  }

module _ {App : Type 0} (p : Protocol App) where
  unfoldable pub is_hello : Option Bytes → Bool
  is_hello none = false
  is_hello (some msg_type) = contains_bytes msg_type p.hello_messages

  unfoldable pub handle_message :
      Option Bytes → Message → Connection App → Result Exit × Connection App
  handle_message none msg c = (ok finish, c)
  handle_message (some msg_type) msg c = elim (p.message_handlers msg_type) [
    | none ↦ (ok finish, c)
    | some handler ↦
        let (result, s) = handler msg c.session in
        (elim result [ err e ↦ err e | ok _ ↦ ok finish ], record c { session = s })
  ]

  unfoldable pub process_full :
      Option Bytes → Option ℕ → Connection App → Result Exit × Connection App
  process_full msg_type payload_len c =
      let (popped, c') = pop_next_message p payload_len c in
      elim popped [
        | err e ↦ (err e, c')
        | ok msg ↦
            if not c'.session.established && not (is_hello msg_type)
            then (ok leave, close_connection c')
            else handle_message msg_type msg c'
      ]

  -- The `try` block from the preview on.
  unfoldable pub process_preview :
      ConnectionMessagePreview → Connection App → Result Exit × Connection App
  process_preview preview c =
      if not preview.should_process && preview.is_full_message
      then (let (popped, c') = pop_next_bytes p preview.payload_length c in
          (elim popped [ err e ↦ err e | ok _ ↦ ok continue ], c'))
      else elim (p.validate preview.is_full_message preview.command p.header_size
          preview.payload_length c.inputbuf) [
            | err e ↦ (err e, c)
            | ok b ↦
                if preview.is_full_message
                then process_full preview.command preview.payload_length (record c { inputbuf = b })
                else (ok leave, record c { inputbuf = b })
          ]

  -- A handler of exceptions from the line that logs the bytes on.
  unfoldable pub clean_up_round : Option ℕ → ℤ → Connection App → Flow × Connection App
  clean_up_round payload_len len_before c =
      let (cleaned, c') =
        clean_up_current_msg p payload_len (eqb_ℤ len_before c.inputbuf.length) c in
      elim cleaned [ err e ↦ (raised e, c') | ok _ ↦ count_bad_message c' ]

  unfoldable pub handle_error : Error → Bool → Option ℕ → ℤ → Connection App → Flow × Connection App
  handle_error e is_full_msg payload_len len_before c =
      let (logged, c') = get_last_msg_bytes p payload_len (eqb_ℤ len_before c.inputbuf.length) c in
      elim (handling e) [
        | close ↦ (stop, close_connection c)
        | log_and_close ↦ elim logged [
          | err e' ↦ (raised e', c')
          | ok _ ↦ (stop, close_connection c')
        ]
        | pass ↦ elim logged [ err e' ↦ (raised e', c') | ok _ ↦ (raised e, c') ]
        | clean_up ↦ elim logged [
          | err e' ↦ (raised e', c')
          | ok _ ↦ clean_up_round payload_len len_before c'
        ]
        | clean_up_full ↦ elim logged [
          | err e' ↦ (raised e', c')
          | ok _ ↦
              if is_full_msg
              then clean_up_round payload_len len_before c'
              else (stop, close_connection c')
        ]
      ]

  -- A round of the loop.
  unfoldable pub process_next : Connection App → Flow × Connection App
  process_next c =
      if not c.session.alive
      then (stop, c)
      else (let (previewed, c1) = pre_process_msg p c in
          elim previewed [
            | err e ↦ handle_error e false none c.inputbuf.length c1
            | ok preview ↦
                let (result, c2) = process_preview preview c1 in
                elim result [
                  | err e ↦
                      handle_error e preview.is_full_message preview.payload_length
                        c.inputbuf.length c2
                  | ok finish ↦ (again, finish_round c2)
                  | ok continue ↦ (again, c2)
                  | ok leave ↦ (stop, c2)
                ]
          ])

  -- The loop, with fuel: `none` means that it ran out.
  unfoldable pub process_loop : ℕ → Connection App → Option (Result (Unit {0}) × Connection App)
  process_loop zero c = none
  process_loop (suc fuel) c =
      let (flow, c') = process_next c in
      elim flow [
        | again ↦ process_loop fuel c'
        | stop ↦ some (ok tt, c')
        | raised e ↦ some (err e, c')
      ]

  unfoldable pub process_message : ℕ → Connection App → Option (Result (Unit {0}) × Connection App)
  process_message fuel c =
      process_loop fuel (record c { session = record (c.session) { processing_message_index = 0 } })
