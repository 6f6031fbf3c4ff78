-- ===== src/Connections/Processing/Round.antt =====
-- A round of the loop with a whole message in front of the buffer.
use mathlib.Core.Path.{subst}
use bxcommon.Buffers.Input.{InputBuffer}
use bxcommon.Buffers.Input.Contents.{contents, IsCounted}
use bxcommon.Connections.Processing.{
  Connection, again, stop, Protocol, Session, mark_for_close, pre_process_msg, pop_next_message,
}
use bxcommon.Connections.Processing.Body.{
  Exit, finish, leave, close_connection, finish_round, handle_error, handle_message, process_full,
  process_preview, process_next, is_hello,
}
use bxcommon.Connections.Processing.Errors.{Ended, Stands, present, gone, handle_error-Ended}
use bxcommon.Connections.Processing.Spec.{IsSound, failed, finished, handled, served}
use bxcommon.Messages.Factory.{create_message_from_buffer}
use bxcommon.Messages.Message.{Message}
use bxcommon.Messages.Validator.Verdict.{SameContents}
use bxcommon.Prelude.Bytes.{Bytes}
use bxcommon.Prelude.Int.{eqb_ℤ}
use bxcommon.Prelude.Result.{Error, Result, ok, err, ◌>>=◌}
use bxcommon.Prelude.{
  ℕ, ◌≡◌, refl, sym, ap, ◌∙◌, Bool, true, false, not, ◌&&◌, Option, none, some, length,
  if◌then◌else◌, arith, length-append, Bool-cases, inl, inr,
}
use bxcommon.Connections.Processing.Frame.{Begins, full_preview, previewed, popped_message}

module _ {App : Type 0} (p : Protocol App)
    {verdict : Bool → Option Bytes → ℕ → Option ℕ → Bytes → Result (Unit {0})}
    (sound : IsSound p verdict) where
  -- Where the `try` block has changed the connection to `c2`, and has ended.
  record Reached (t : Bytes) (n : ℕ) (c c2 : Connection App) (result : Result Exit) : Type 0 where
    first : Connection App
    pre : pre_process_msg p c ≡ (ok (full_preview p sound t n), first)
    ran : process_preview p (full_preview p sound t n) first ≡ (result, c2)

  failing :
      (t : Bytes) (n : ℕ) (bytes rest : Bytes) (c c2 : Connection App) (e : Error)
      → c.session.alive ≡ true
      → Reached t n c c2 (err e)
      → IsCounted c2.inputbuf
      → Stands p n bytes rest c.inputbuf.length c2.inputbuf
      → Ended p (failed e c2.session) rest (process_next p c)
  unfolding process_next
  failing t n bytes rest c c2 e alive r valid stands =
      let run : process_next p c ≡ handle_error p e true (some n) c.inputbuf.length c2 =
        ground (arith, alive, r.pre, r.ran) in
      rw run (handle_error-Ended p e c2 valid stands)

  exiting :
      (t : Bytes) (n : ℕ) (c c2 : Connection App) (rest : Bytes)
      → c.session.alive ≡ true
      → Reached t n c c2 (ok finish)
      → IsCounted c2.inputbuf
      → contents c2.inputbuf ≡ rest
      → Ended p (again, finished c2.session) rest (process_next p c)
  unfolding process_next finish_round
  exiting t n c c2 rest alive r valid left = record {
    left = c2.inputbuf;
    flow = ground (arith, alive, r.pre, r.ran);
    ends = ground (arith, alive, r.pre, r.ran);
    counted = valid;
    taken = λ _. left;
  }

  leaving :
      (t : Bytes) (n : ℕ) (c c2 : Connection App) (rest : Bytes)
      → c.session.alive ≡ true
      → Reached t n c c2 (ok leave)
      → IsCounted c2.inputbuf
      → contents c2.inputbuf ≡ rest
      → Ended p (stop, c2.session) rest (process_next p c)
  unfolding process_next
  leaving t n c c2 rest alive r valid left = record {
    left = c2.inputbuf;
    flow = ground (arith, alive, r.pre, r.ran);
    ends = ground (arith, alive, r.pre, r.ran);
    counted = valid;
    taken = λ _. left;
  }

  -- The message is off the buffer, which is now `b`, and is handled.
  handled-Ended :
      (t : Bytes) (n : ℕ) (bytes rest : Bytes) (c : Connection App) (b : InputBuffer)
      (msg : Message)
      → c.session.alive ≡ true
      → ((result : Result Exit) (c2 : Connection App)
          → handle_message p (some t) msg (record c { inputbuf = b }) ≡ (result, c2)
          → Reached t n c c2 result)
      → IsCounted b
      → Stands p n bytes rest c.inputbuf.length b
      → contents b ≡ rest
      → Ended p (handled p t msg c.session) rest (process_next p c)
  unfolding handle_message
  handled-Ended t n bytes rest c b msg alive reached valid stands left =
      by_handler (p.message_handlers t) refl
    where
      by_result :
          (handler : Message → Session App → Result (Unit {0}) × Session App)
          → p.message_handlers t ≡ some handler
          → (r : Result (Unit {0})) (s' : Session App) → handler msg c.session ≡ (r, s')
          → Ended p
              (elim r [ err e ↦ failed e s' | ok _ ↦ (again, finished s') ])
              rest
              (process_next p c)
      by_result handler e (err raised_) s' q =
          let c2 : Connection App = record { inputbuf = b; session = s' } in
          failing t n bytes rest c c2 raised_ alive
            (reached (err raised_) c2 (ground (arith, e, q))) valid stands
      by_result handler e (ok _) s' q =
          let c2 : Connection App = record { inputbuf = b; session = s' } in
          exiting t n c c2 rest alive (reached (ok finish) c2 (ground (arith, e, q))) valid left

      by_handler :
          (o : Option (Message → Session App → Result (Unit {0}) × Session App))
          → p.message_handlers t ≡ o
          → Ended p
              (elim o [
                | none ↦ (again, finished c.session)
                | some handler ↦
                    let (result, s') = handler msg c.session in
                    elim result [ err e ↦ failed e s' | ok _ ↦ (again, finished s') ]
              ])
              rest
              (process_next p c)
      by_handler none e =
          exiting t n c (record c { inputbuf = b }) rest alive
            (reached (ok finish) (record c { inputbuf = b }) (ground (arith, e))) valid left
      by_handler (some handler) e =
          by_result handler e (handler msg c.session).0 (handler msg c.session).1 refl

  -- The validator has let the message pass, and left the buffer `b1`.
  passed-Ended :
      (t : Bytes) (n : ℕ) (bytes rest : Bytes) (c : Connection App) (b1 : InputBuffer)
      → c.session.alive ≡ true
      → IsCounted c.inputbuf
      → IsCounted b1
      → Begins p t n bytes rest (contents b1)
      → contents b1 ≡ contents c.inputbuf
      → ((result : Result Exit) (c2 : Connection App)
          → process_full p (some t) (some n) (record c { inputbuf = b1 }) ≡ (result, c2)
          → Reached t n c c2 result)
      → Ended p (served p (ok tt) t bytes c.session) rest (process_next p c)
  unfolding process_full close_connection
  passed-Ended t n bytes rest c b1 alive valid valid1 begins same reached =
      let (b, run, left, counted) =
        popped_message p sound t n bytes rest (record c { inputbuf = b1 }) valid1 begins in
      let shorter : eqb_ℤ c.inputbuf.length b.length ≡ false = ground (
        arith,
        valid,
        counted,
        ap length left,
        ap length same,
        ap length begins.whole,
        length-append bytes rest,
        begins.size,
        sound.some_header,
      ) in
      by_message b run left counted (gone left shorter)
        (create_message_from_buffer p.message_factory bytes) refl
    where
      by_message :
          (b : InputBuffer)
          → pop_next_message p (some n) (record c { inputbuf = b1 })
            ≡ (create_message_from_buffer p.message_factory bytes, record c { inputbuf = b })
          → contents b ≡ rest
          → IsCounted b
          → Stands p n bytes rest c.inputbuf.length b
          → (created : Result Message)
          → create_message_from_buffer p.message_factory bytes ≡ created
          → Ended p
              (elim created [
                | err e ↦ failed e c.session
                | ok msg ↦
                    if not c.session.established && not (is_hello p (some t))
                    then (stop, mark_for_close c.session)
                    else handled p t msg c.session
              ])
              rest
              (process_next p c)
      by_message b run left counted stands (err e) q =
          failing t n bytes rest c (record c { inputbuf = b }) e alive
            (reached (err e) (record c { inputbuf = b }) (ground (arith, run, q))) counted stands
      by_message b run left counted stands (ok msg) q =
          elim (Bool-cases (not c.session.established && not (is_hello p (some t)))) [
            | inl early ↦
                let c2 : Connection App = record {
                  inputbuf = b;
                  session = mark_for_close c.session;
                } in
                rw early (
                  leaving t n c c2 rest alive
                    (reached (ok leave) c2 (ground (arith, run, q, early))) counted left)
            | inr fine ↦ rw fine (
                handled-Ended t n bytes rest c b msg alive
                  (λ result c2 h. reached result c2 (ground (arith, run, q, fine, h))) counted
                  stands left)
          ]

  -- A round with a whole message in front of the buffer, while the connection is alive: the session
  -- and the flow are those of `served`, and where the loop goes on the message is off the buffer.
  pub process_next_full :
      (t : Bytes) (n : ℕ) (bytes rest : Bytes) (c : Connection App)
      → c.session.alive ≡ true
      → IsCounted c.inputbuf
      → Begins p t n bytes rest (contents c.inputbuf)
      → Ended p
          (served p
            (verdict true (some t) p.header_size (some n) (contents c.inputbuf))
            t
            bytes
            c.session)
          rest
          (process_next p c)
  unfolding process_preview
  process_next_full t n bytes rest c alive valid begins =
      let (b, run, same, counted) = previewed p sound t n bytes rest c valid begins in
      let (b1, validated, same1) = sound.validates true (some t) p.header_size (some n) b counted in
      let validated' =
        validated
        ∙ ap (λ all. verdict true (some t) p.header_size (some n) all >>= λ _. ok b1) same in
      by_verdict b run same counted b1 same1
        (verdict true (some t) p.header_size (some n) (contents c.inputbuf)) validated'
    where
      by_verdict :
          (b : InputBuffer)
          → pre_process_msg p c ≡ (ok (full_preview p sound t n), record c { inputbuf = b })
          → contents b ≡ contents c.inputbuf
          → IsCounted b
          → (b1 : InputBuffer) → SameContents b b1
          → (valid_msg : Result (Unit {0}))
          → p.validate true (some t) p.header_size (some n) b ≡ (valid_msg >>= λ _. ok b1)
          → Ended p (served p valid_msg t bytes c.session) rest (process_next p c)
      by_verdict b run same counted b1 same1 (err e) q =
          failing t n bytes rest c (record c { inputbuf = b }) e alive
            (record { first = record c { inputbuf = b }; pre = run; ran = ground (arith, q) })
            counted
            (present (same ∙ begins.whole) begins.size
              (ground (arith, valid, counted, ap length same)))
      by_verdict b run same counted b1 same1 (ok _) q =
          passed-Ended t n bytes rest c b1 alive valid same1.counted
            (subst (Begins p t n bytes rest) (sym (same1.same ∙ same)) begins) (same1.same ∙ same)
            (λ result c2 h. record {
              first = record c { inputbuf = b };
              pre = run;
              ran = ground (arith, q, h);
            })
