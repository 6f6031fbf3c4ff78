-- ===== src/Connections/Processing/Bad.antt =====
-- Messages that cannot be processed, one after another.
use bxcommon.Connections.Processing.{
  Connection, again, stop, Protocol, Session, mark_for_close, report_bad_message, max_bad_messages,
}
use bxcommon.Connections.Processing.Spec.{served, counted_bad, IsSound}
use bxcommon.Connections.Processing.Stream.{
  Packet, stream, serve_all, AreWhole, IsWaiting, call_result, process_loop-stream,
}
use bxcommon.Connections.Processing.Body.{process_loop}
use bxcommon.Buffers.Input.Contents.{contents, IsCounted}
use bxcommon.Prelude.Bytes.{Bytes}
use bxcommon.Prelude.Result.{Result, ok}
use bxcommon.Prelude.{
  ℕ, ◌+◌, ◌≤◌, ◌<◌, ◌≡◌, ap, ◌∙◌, Bool, true, false, Option, some, List, [], ◌∷◌, ◌++◌, length,
  arith,
}

module _ {App : Type 0} (p : Protocol App)
    (verdict : Bool → Option Bytes → ℕ → Option ℕ → Bytes → Result (Unit {0})) where
  -- Each packet is one that the connection counts as bad, in any session.
  abbrev pub AreBad : List Packet → Bytes → Type 0
  AreBad [] tail = Unit {0}
  AreBad (q ∷ ps) tail =
      ((s : Session App)
        → served p
            (verdict true (some q.msg_type) p.header_size (some q.payload_len)
              (q.bytes ++ stream ps tail))
            q.msg_type q.bytes s
          ≡ counted_bad s)
      × AreBad ps tail

  -- As many bad messages in a row as the limit allows are passed over, and counted.
  pub serve_all_bad :
      (ps : List Packet) (tail : Bytes) (s : Session App)
      → AreBad ps tail
      → s.alive ≡ true
      → s.num_bad_messages + length ps ≤ max_bad_messages
      → serve_all p verdict ps tail s ≡ (
        again,
        record s {
          num_bad_messages = s.num_bad_messages + length ps;
          processing_message_index = s.processing_message_index + length ps;
        },
      )
  unfolding serve_all report_bad_message
  serve_all_bad [] tail s bad alive h = ground arith
  serve_all_bad (q ∷ ps) tail s bad alive h =
      let s' = record s {
        num_bad_messages = s.num_bad_messages + 1;
        processing_message_index = s.processing_message_index + 1;
      } in
      ground (arith, bad.0 s, alive, h, serve_all_bad ps tail s' bad.1 alive (omega arith))

  -- With one more, whatever comes behind, the loop ends and the connection is closed.
  pub serve_all_too_bad :
      (ps : List Packet) (q : Packet) (more : List Packet) (tail : Bytes) (s : Session App)
      → AreBad (ps ++ (q ∷ more)) tail
      → s.alive ≡ true
      → s.num_bad_messages + length ps ≡ max_bad_messages
      → ((serve_all p verdict (ps ++ (q ∷ more)) tail s).0 ≡ stop)
        × ((serve_all p verdict (ps ++ (q ∷ more)) tail s).1.alive ≡ false)
        × ((serve_all p verdict (ps ++ (q ∷ more)) tail s).1.should_retry ≡ s.from_me)
  unfolding serve_all report_bad_message mark_for_close
  serve_all_too_bad [] q more tail s bad alive h = ground (arith, bad.0 s, alive, h)
  serve_all_too_bad (o ∷ ps) q more tail s bad alive h =
      let s' = record s {
        num_bad_messages = s.num_bad_messages + 1;
        processing_message_index = s.processing_message_index + 1;
      } in
      let later = serve_all_too_bad ps q more tail s' bad.1 alive (omega arith) in
      ground (arith, bad.0 s, alive, h, later)

  -- A buffer of whole messages that are all bad: where the count of those in a row exceeds the limit,
  -- the loop ends without an exception, and the connection is closed.
  pub process_loop_bad :
      (fuel : ℕ) (ps : List Packet) (q : Packet) (more : List Packet) (tail : Bytes)
      (c : Connection App)
      → IsSound p verdict
      → length (ps ++ (q ∷ more)) < fuel
      → IsCounted c.inputbuf
      → contents c.inputbuf ≡ stream (ps ++ (q ∷ more)) tail
      → AreWhole p verdict (ps ++ (q ∷ more)) tail
      → IsWaiting p verdict tail
      → AreBad (ps ++ (q ∷ more)) tail
      → c.session.alive ≡ true
      → c.session.num_bad_messages + length ps ≡ max_bad_messages
      → (c' : Connection App) × (process_loop p fuel c ≡ some (ok tt, c'))
        × (c'.session.alive ≡ false)
        × (c'.session.should_retry ≡ c.session.from_me)
  process_loop_bad fuel ps q more tail c sound enough valid e are waiting bad alive h =
      let all = ps ++ (q ∷ more) in
      let (b, run, _) =
        process_loop-stream p verdict sound fuel all tail c enough valid e are waiting in
      let (stops, dead, retry) = serve_all_too_bad ps q more tail c.session bad alive h in
      (
        record { inputbuf = b; session = (serve_all p verdict all tail c.session).1 },
        run
            ∙ ap
                (λ f. some (
                  call_result p verdict f,
                  record { inputbuf = b; session = (serve_all p verdict all tail c.session).1 },
                ))
                stops,
        dead,
        retry,
      )
