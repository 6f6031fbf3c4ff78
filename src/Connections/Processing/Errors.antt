-- ===== src/Connections/Processing/Errors.antt =====
-- The handlers of exceptions, where a message was whole: its bytes are out of the buffer afterwards,
-- whether it was taken off before the exception or not.
use mathlib.Core.Path.{subst₂}
use bxcommon.Buffers.Input.{InputBuffer}
use bxcommon.Buffers.Input.Contents.{contents, IsCounted}
use bxcommon.Buffers.Input.Methods.{peek_message_lem, remove_bytes_lem}
use bxcommon.Connections.Processing.{
  Connection, Flow, again, Protocol, Session, report_bad_message, max_logged_bytes_len,
  clean_up_current_msg, get_last_msg_bytes, count_bad_message,
}
use bxcommon.Connections.Processing.Body.{
  Handling, pass, close, log_and_close, clean_up, clean_up_full, handling, close_connection,
  clean_up_round, handle_error,
}
use bxcommon.Connections.Processing.Spec.{failed, counted_bad}
use bxcommon.Messages.Validator.Verdict.{SameContents}
use bxcommon.Prelude.Bytes.{Bytes, drop-append_self}
use bxcommon.Prelude.Int.{ℤ, pos, eqb_ℤ}
use bxcommon.Prelude.Result.{Error, ok}
use bxcommon.Prelude.{
  ℕ, ◌+◌, ◌≡◌, refl, sym, ap, ◌∙◌, Bool, true, false, Option, none, some, ◌++◌, length, drop, min,
  arith, length-append, Bool-cases, inl, inr,
}

module _ {App : Type 0} (p : Protocol App) where
  pub get_last_msg_bytes_lem :
      (payload_len : Option ℕ) (in_buffer : Bool) (c : Connection App)
      → IsCounted c.inputbuf
      → (b : InputBuffer) × (get_last_msg_bytes p payload_len in_buffer c
          ≡ (ok tt, record c { inputbuf = b }))
        × SameContents c.inputbuf b
        × (b.length ≡ c.inputbuf.length)
  unfolding get_last_msg_bytes
  get_last_msg_bytes_lem payload_len false c valid =
      (c.inputbuf, refl, record { same = refl; counted = valid }, refl)
  get_last_msg_bytes_lem none true c valid =
      (c.inputbuf, refl, record { same = refl; counted = valid }, refl)
  get_last_msg_bytes_lem (some n) true c valid =
      let (k, b, run, _, same, len) =
        peek_message_lem (min (p.header_size + n) max_logged_bytes_len) c.inputbuf valid in
      (
        b,
        rw (run, get_last_msg_bytes),
        record { same = same; counted = len ∙ valid ∙ ap (λ xs. pos (length xs)) (sym same) },
        len,
      )

  -- Where the bytes of the message stand when an exception is handled.
  pub data Stands (n : ℕ) (bytes rest : Bytes) (len_before : ℤ) (b : InputBuffer) : Type 0 where
    present :
        contents b ≡ bytes ++ rest
        → length bytes ≡ p.header_size + n
        → len_before ≡ b.length
        → Stands n bytes rest len_before b
    gone : contents b ≡ rest → eqb_ℤ len_before b.length ≡ false → Stands n bytes rest len_before b

  eqb_ℤ_refl : (a : ℤ) → eqb_ℤ a a ≡ true
  eqb_ℤ_refl a = ground arith

  cleaned_up :
      {n : ℕ} {bytes rest : Bytes} {len_before : ℤ} (c : Connection App)
      → IsCounted c.inputbuf
      → Stands n bytes rest len_before c.inputbuf
      → (b : InputBuffer) × (clean_up_current_msg p (some n) (eqb_ℤ len_before c.inputbuf.length) c
          ≡ (ok tt, record c { inputbuf = b }))
        × IsCounted b
        × (contents b ≡ rest)
  unfolding clean_up_current_msg
  cleaned_up {n} {bytes} {rest} {len_before} c valid (present e size same) =
      let (b, run, removed) =
        remove_bytes_lem (p.header_size + n) c.inputbuf valid
          (omega (arith, ap length e, length-append bytes rest, size)) in
      let here : eqb_ℤ len_before c.inputbuf.length ≡ true =
        ap (λ l. eqb_ℤ l c.inputbuf.length) same ∙ eqb_ℤ_refl c.inputbuf.length in
      (
        b,
        rw (here, run, clean_up_current_msg),
        removed.counted,
        removed.left
            ∙ ap (λ k. drop k (contents c.inputbuf)) (sym size)
            ∙ ap (drop (length bytes)) e
            ∙ drop-append_self bytes rest,
      )
  cleaned_up {n} {bytes} {rest} c valid (gone e differs) = (c.inputbuf, rw differs, valid, e)

  -- What the handlers of exceptions end in, with the buffer.
  pub record Ended (outcome : Flow × Session App) (rest : Bytes) (end : Flow × Connection App)
      : Type 0 where
    pub left : InputBuffer
    pub flow : end.0 ≡ outcome.0
    pub ends : end.1 ≡ record { inputbuf = left; session = outcome.1 }
    pub counted : IsCounted left
    pub taken : outcome.0 ≡ again → contents left ≡ rest

  count_bad_message-Ended :
      (c : Connection App) (rest : Bytes)
      → IsCounted c.inputbuf
      → contents c.inputbuf ≡ rest
      → Ended (counted_bad c.session) rest (count_bad_message c)
  unfolding count_bad_message
  count_bad_message-Ended c rest valid e = elim (Bool-cases (report_bad_message c.session).0) [
    | inl closed ↦ record {
      left = c.inputbuf;
      flow = rw closed;
      ends = rw closed;
      counted = valid;
      taken = λ _. e;
    }
    | inr open_ ↦ record {
      left = c.inputbuf;
      flow = rw open_;
      ends = rw open_;
      counted = valid;
      taken = λ _. e;
    }
  ]

  clean_up_round-Ended :
      {n : ℕ} {bytes rest : Bytes} {len_before : ℤ} (c : Connection App)
      → IsCounted c.inputbuf
      → Stands n bytes rest len_before c.inputbuf
      → Ended (counted_bad c.session) rest (clean_up_round p (some n) len_before c)
  unfolding clean_up_round
  clean_up_round-Ended {n} {bytes} {rest} {len_before} c valid stands =
      let (b, run, counted, e) = cleaned_up c valid stands in
      let e' : clean_up_round p (some n) len_before c
          ≡ count_bad_message (record c { inputbuf = b }) =
        ground (arith, run) in
      rw e' (count_bad_message-Ended (record c { inputbuf = b }) rest counted e)

  keep-Stands :
      {n : ℕ} {bytes rest : Bytes} {len_before : ℤ} {b b' : InputBuffer}
      → SameContents b b'
      → b'.length ≡ b.length
      → Stands n bytes rest len_before b
      → Stands n bytes rest len_before b'
  keep-Stands {len_before = len_before} same len (present e size at) =
      present (same.same ∙ e) size (at ∙ sym len)
  keep-Stands {len_before = len_before} same len (gone e differs) =
      gone (same.same ∙ e) (ap (eqb_ℤ len_before) len ∙ differs)

  by_handling :
      {n : ℕ} {bytes rest : Bytes} {len_before : ℤ} (e : Error) (c : Connection App)
      (b : InputBuffer) (h : Handling)
      → handling e ≡ h
      → get_last_msg_bytes p (some n) (eqb_ℤ len_before c.inputbuf.length) c
        ≡ (ok tt, record c { inputbuf = b })
      → IsCounted c.inputbuf
      → IsCounted b
      → Stands n bytes rest len_before b
      → Ended (failed e c.session) rest (handle_error p e true (some n) len_before c)
  unfolding handle_error close_connection
  by_handling e c b pass q run valid counted stands = record {
    left = b;
    flow = ground (arith, q, run);
    ends = ground (arith, q, run);
    counted = counted;
    taken = λ r. ground (arith, q, r);
  }
  by_handling e c b close q run valid counted stands = record {
    left = c.inputbuf;
    flow = ground (arith, q, run);
    ends = ground (arith, q, run);
    counted = valid;
    taken = λ r. ground (arith, q, r);
  }
  by_handling e c b log_and_close q run valid counted stands = record {
    left = b;
    flow = ground (arith, q, run);
    ends = ground (arith, q, run);
    counted = counted;
    taken = λ r. ground (arith, q, r);
  }
  by_handling {n} {bytes} {rest} {len_before} e c b clean_up q run valid counted stands =
      let fails : failed e c.session ≡ counted_bad c.session = ground (arith, q) in
      let ends : handle_error p e true (some n) len_before c
          ≡ clean_up_round p (some n) len_before (record c { inputbuf = b }) =
        ground (arith, q, run) in
      subst₂ (λ o end. Ended o rest end) (sym fails) (sym ends)
        (clean_up_round-Ended (record c { inputbuf = b }) counted stands)
  by_handling {n} {bytes} {rest} {len_before} e c b clean_up_full q run valid counted stands =
      let fails : failed e c.session ≡ counted_bad c.session = ground (arith, q) in
      let ends : handle_error p e true (some n) len_before c
          ≡ clean_up_round p (some n) len_before (record c { inputbuf = b }) =
        ground (arith, q, run) in
      subst₂ (λ o end. Ended o rest end) (sym fails) (sym ends)
        (clean_up_round-Ended (record c { inputbuf = b }) counted stands)

  -- An exception in a whole message: the connection ends as `failed` says.
  pub handle_error-Ended :
      {n : ℕ} {bytes rest : Bytes} {len_before : ℤ} (e : Error) (c : Connection App)
      → IsCounted c.inputbuf
      → Stands n bytes rest len_before c.inputbuf
      → Ended (failed e c.session) rest (handle_error p e true (some n) len_before c)
  handle_error-Ended {n} {bytes} {rest} {len_before} e c valid stands =
      let (b, run, same, len) =
        get_last_msg_bytes_lem (some n) (eqb_ℤ len_before c.inputbuf.length) c valid in
      by_handling e c b (handling e) refl run valid same.counted (keep-Stands same len stands)
