-- ===== src/Connections/Processing/Partial.antt =====
-- A round of the loop where no whole message is in the buffer, and the end of the loop.
use bxcommon.Buffers.Input.{InputBuffer}
use bxcommon.Buffers.Input.Contents.{contents, IsCounted}
use bxcommon.Connections.Processing.{Connection, again, stop, Protocol, pre_process_msg}
use bxcommon.Connections.Processing.Body.{
  clean_up, handling, handle_error, process_preview, process_next,
}
use bxcommon.Connections.Processing.Errors.{get_last_msg_bytes_lem}
use bxcommon.Connections.Processing.Frame.{Begins}
use bxcommon.Connections.Processing.Spec.{IsSound}
use bxcommon.Messages.Factory.Framed.{preview_header, preview_short}
use bxcommon.Messages.Message.{
  MessageClass, unpack, get_header, bx_hdr_common_off, msg_type_len, rstrip,
}
use bxcommon.Messages.Validator.Verdict.{SameContents}
use bxcommon.Serializers.ShortIds.{ul_int_size_in_bytes}
use bxcommon.Serializers.Wire.{from_bytes, unpack_from, get_slice}
use bxcommon.Prelude.Bytes.{Bytes, slice}
use bxcommon.Prelude.Int.{ℤ, eqb_ℤ}
use bxcommon.Prelude.Result.{Error, Result, ok, err, unauthorized_message_error, ◌>>=◌}
use bxcommon.Prelude.{
  ℕ, ◌+◌, ◌<◌, ◌≤◌, ◌≡◌, ◌≢◌, refl, sym, ap, ◌∙◌, Bool, true, false, Option, none, some, length,
  take, drop, arith, length-take, take-append-drop, leb, ltb, Bool-cases, inl, inr,
}

-- A buffer that is long enough has a header.
unpack_total :
    (cls : MessageClass) (buf : Bytes)
    → cls.starting_bytes_len + bx_hdr_common_off ≤ length buf
    → (t : Bytes) × (n : ℕ) × (unpack cls buf ≡ ok (t, n))
unfolding unpack get_header get_slice unpack_from
unpack_total cls buf h =
    let start = cls.starting_bytes_len in
    (
      rstrip (slice start (start + msg_type_len) buf),
      from_bytes (slice (start + msg_type_len) (start + msg_type_len + ul_int_size_in_bytes) buf),
      ground arith,
    )

-- Only one kind of errors is cleaned up where the message is not whole.
clean_up_error : (e : Error) → handling e ≡ clean_up → e ≡ unauthorized_message_error
unfolding handling
clean_up_error unauthorized_message_error h = refl
clean_up_error _ h = ground arith

module _ {App : Type 0} (p : Protocol App) where
  -- What is known of a message that is not whole: nothing, or its type and length.
  pub data Glimpse (all : Bytes) : Option Bytes → Option ℕ → Type 0 where
    short : length all < p.message_factory.base_message_type.header_length → Glimpse all none none
    header_only :
        {t : Bytes} {n : ℕ}
        → unpack p.message_factory.base_message_type
            (take p.message_factory.base_message_type.header_length all)
          ≡ ok (t, n)
        → Glimpse all (some t) (some n)

module _ {App : Type 0} (p : Protocol App)
    {verdict : Bool → Option Bytes → ℕ → Option ℕ → Bytes → Result (Unit {0})}
    (sound : IsSound p verdict) where
  -- What a look at the buffer shows: a whole message, or a preview that is none.
  pub data Seen (c : Connection App) : Type 0 where
    whole :
        (t : Bytes) (n : ℕ) (bytes rest : Bytes)
        → Begins p t n bytes rest (contents c.inputbuf)
        → Seen c
    partial :
        (command : Option Bytes) (payload_length : Option ℕ) (b : InputBuffer)
        → pre_process_msg p c ≡ (
          ok (record {
            is_full_message = false;
            should_process = true;
            command = command;
            payload_length = payload_length;
          }),
          record c { inputbuf = b },
        )
        → contents b ≡ contents c.inputbuf
        → IsCounted b
        → Glimpse p (contents c.inputbuf) command payload_length
        → Seen c

  pub look : (c : Connection App) → IsCounted c.inputbuf → Seen c
  unfolding pre_process_msg
  look c valid =
      let h = p.message_factory.base_message_type.header_length in
      let all = contents c.inputbuf in
      elim (Bool-cases (ltb (length all) h)) [
        | inl few ↦
            partial none none c.inputbuf
              (ground (arith, preview_short p.message_factory c.inputbuf valid (ground arith))) refl
              valid (short (ground arith))
        | inr long ↦
            let (t, n, unpacked) =
              unpack_total p.message_factory.base_message_type (take h all)
                (ground (arith, length-take h all, sound.header_fits, long)) in
            elim (Bool-cases (leb (n + h) (length all))) [
              | inl full ↦ whole t n (take (h + n) all) (drop (h + n) all) (record {
                whole = sym (take-append-drop (h + n) all);
                size = ground (arith, length-take (h + n) all, sound.header_sizes, full);
                unpacked = unpacked;
              })
              | inr more ↦
                  let (b, run, same, counted) =
                    preview_header p.message_factory c.inputbuf t n valid
                      (omega (arith, sound.header_sizes, sound.some_header)) (ground (arith, long))
                      unpacked in
                  partial (some t) (some n) b (ground (arith, run, more)) same counted
                    (header_only unpacked)
            ]
      ]

  not_again :
      (e : Error) (payload_len : Option ℕ) (len_before : ℤ) (c : Connection App)
      → IsCounted c.inputbuf
      → e ≢ unauthorized_message_error
      → (handle_error p e false payload_len len_before c).0 ≢ again
  unfolding handle_error
  not_again e payload_len len_before c valid h =
      let (b, run, same, len) =
        get_last_msg_bytes_lem p payload_len (eqb_ℤ len_before c.inputbuf.length) c valid in
      ground (arith, run, clean_up_error e)

  -- A round without a whole message ends the loop; it waits for more bytes, with the session as it was
  -- and the contents, where the validator has no objection.
  pub process_next_partial :
      (command : Option Bytes) (payload_length : Option ℕ) (c : Connection App) (b : InputBuffer)
      → c.session.alive ≡ true
      → IsCounted c.inputbuf
      → pre_process_msg p c ≡ (
        ok (record {
          is_full_message = false;
          should_process = true;
          command = command;
          payload_length = payload_length;
        }),
        record c { inputbuf = b },
      )
      → contents b ≡ contents c.inputbuf
      → IsCounted b
      → ((process_next p c).0 ≢ again)
        × (verdict false command p.header_size payload_length (contents c.inputbuf) ≡ ok tt
            → (b' : InputBuffer) × (process_next p c ≡ (stop, record c { inputbuf = b' }))
              × SameContents c.inputbuf b')
  unfolding process_next process_preview
  process_next_partial command payload_length c b alive valid run same counted =
      let (b1, validated, same1) =
        sound.validates false command p.header_size payload_length b counted in
      let validated' =
        validated
        ∙ ap (λ all. verdict false command p.header_size payload_length all >>= λ _. ok b1) same in
      by_verdict b1 same1 (verdict false command p.header_size payload_length (contents c.inputbuf))
        refl validated'
    where
      by_verdict :
          (b1 : InputBuffer)
          → SameContents b b1
          → (v : Result (Unit {0}))
          → verdict false command p.header_size payload_length (contents c.inputbuf) ≡ v
          → p.validate false command p.header_size payload_length b ≡ (v >>= λ _. ok b1)
          → ((process_next p c).0 ≢ again)
            × (v ≡ ok tt
                → (b' : InputBuffer) × (process_next p c ≡ (stop, record c { inputbuf = b' }))
                  × SameContents c.inputbuf b')
      by_verdict b1 same1 (err e) q r =
          let ends : process_next p c
              ≡ handle_error p e false payload_length c.inputbuf.length
                  (record c { inputbuf = b }) =
            ground (arith, alive, run, r) in
          let stays =
            not_again e payload_length c.inputbuf.length (record c { inputbuf = b }) counted
              (λ u.
                sound.authorizes false command p.header_size payload_length (contents c.inputbuf)
                  (q ∙ ap err u)) in
          (λ a. stays (sym (ap (λ o. o.0) ends) ∙ a), λ o. absurd (ground (arith, o)))
      by_verdict b1 same1 (ok _) q r =
          let ends : process_next p c ≡ (stop, record c { inputbuf = b1 }) =
            ground (arith, alive, run, r) in
          (
            λ a. ground (arith, ends, a),
            λ _. (b1, ends, record { same = same1.same ∙ same; counted = same1.counted }),
          )
