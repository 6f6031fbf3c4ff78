-- ===== src/Connections/Processing/Built.antt =====
-- From the constructor of a message to its handler: new messages in the input buffer of a connection.
use mathlib.Core.Path.{subst}
use bxcommon.Connections.Processing.{Connection, Flow, again, stop, raised, Protocol, Session}
use bxcommon.Connections.Processing.Partial.{Glimpse, short, header_only}
use bxcommon.Connections.Processing.Delivered.{IsKnown, new_message, answer, served-answer}
use bxcommon.Connections.Processing.Spec.{served}
use bxcommon.Connections.Processing.Stream.{
  Packet, stream, AreWhole, IsWaiting, serve_all, Delivers, process_loop-stream,
}
use bxcommon.Connections.Processing.Body.{process_loop}
use bxcommon.Buffers.Input.Contents.{contents, IsCounted}
use bxcommon.Connections.Processing.Bloxroute.{bloxroute_protocol, bloxroute-IsSound}
use bxcommon.Connections.Processing.Frame.{Begins}
use bxcommon.Messages.Message.{Message, bloxroute_message, starting_sequence_bytes, unpack}
use bxcommon.Messages.Message.Header.{unpack-framed}
use bxcommon.Messages.Validator.{BloxrouteMessageValidator, first_validating_version}
use bxcommon.Messages.Validator.Verdict.{verdict}
use bxcommon.Prelude.Bytes.{Bytes}
use bxcommon.Prelude.Result.{Result, ok}
use bxcommon.Prelude.{
  fun_ext, ℕ, suc, ◌<◌, ◌≡◌, refl, ap, ◌∙◌, false, Option, List, [], ◌∷◌, ◌++◌, leb, length,
  if◌then◌else◌, arith, length-append, Bool-cases, inl, inr,
}
use bxcommon.Messages.Validator.Built.{
  IsBuildable, built, three_ok, no_length, front, length-built, built-verdict,
}

module _ {App : Type 0} (v : BloxrouteMessageValidator)
    (classes : List (Bytes × (Bytes → Result Message))) (hello_messages : List Bytes)
    (handlers : Bytes → Option (Message → Session App → Result (Unit {0}) × Session App)) where
  pub built-Begins :
      (t payload rest : Bytes)
      → IsBuildable v.size_validation_settings t payload
      → Begins
          (bloxroute_protocol {App = App} v classes hello_messages handlers)
          t
          (length payload)
          (built t payload)
          rest
          (built t payload ++ rest)
  built-Begins t payload rest h = record {
    whole = refl;
    size = length-built t payload;
    unpacked =
        ap (unpack bloxroute_message) (front t payload rest)
        ∙ unpack-framed bloxroute_message starting_sequence_bytes t (length payload) [] refl
            h.is_type h.fits;
  }

module _ {App : Type 0} (v : BloxrouteMessageValidator)
    (classes : List (Bytes × (Bytes → Result Message))) (hello_messages : List Bytes)
    (handlers : Bytes → Option (Message → Session App → Result (Unit {0}) × Session App)) where
  abbrev protocol : Protocol App
  protocol = bloxroute_protocol v classes hello_messages handlers

  -- Messages by type and payload, each answered in its turn, as long as the connection is alive and
  -- open.
  unfoldable pub deliver_all : List (Bytes × Bytes) → Session App → Flow × Session App
  deliver_all [] s = (again, s)
  deliver_all ((t, payload) ∷ ms) s =
      let (flow, s') = answer v classes hello_messages handlers t (new_message t payload) s in
      let later = deliver_all ms s' in
      if s.alive
      then elim flow [ again ↦ later | stop ↦ (stop, s') | raised e ↦ (raised e, s') ]
      else (stop, s)

  abbrev pub AreBuildable : List (Bytes × Bytes) → Type 0
  AreBuildable [] = Unit {0}
  AreBuildable ((t, payload) ∷ ms) =
      IsBuildable v.size_validation_settings t payload × AreBuildable ms

  abbrev pub AreKnown : List (Bytes × Bytes) → Type 0
  AreKnown [] = Unit {0}
  AreKnown ((t, payload) ∷ ms) = IsKnown classes t payload × AreKnown ms

  abbrev pub packets : List (Bytes × Bytes) → List Packet
  packets [] = []
  packets ((t, payload) ∷ ms) =
      record { msg_type = t; payload_len = length payload; bytes = built t payload } ∷ packets ms

  length-packets : (ms : List (Bytes × Bytes)) → length (packets ms) ≡ length ms
  length-packets [] = refl
  length-packets ((t, payload) ∷ ms) = ap suc (length-packets ms)

  pub packets-AreWhole :
      (ms : List (Bytes × Bytes)) → AreBuildable ms → AreWhole protocol (verdict v) (packets ms) []
  packets-AreWhole [] h = tt
  packets-AreWhole ((t, payload) ∷ ms) h = (
    built-Begins v classes hello_messages handlers t payload (stream (packets ms) []) h.0,
    packets-AreWhole ms h.1,
  )

  -- What comes behind a message that was served, in a session that was `s`.
  abbrev continued :
      Session App → Flow × Session App → (Session App → Flow × Session App) → Flow × Session App
  continued s outcome later =
      if s.alive
      then elim (outcome.0) [
        | again ↦ later outcome.1
        | stop ↦ (stop, outcome.1)
        | raised e ↦ (raised e, outcome.1)
      ]
      else (stop, s)

  serve_all-packets :
      (ms : List (Bytes × Bytes)) (s : Session App)
      → AreBuildable ms
      → AreKnown ms
      → serve_all protocol (verdict v) (packets ms) [] s ≡ deliver_all ms s
  unfolding serve_all deliver_all
  serve_all-packets [] s h k = refl
  serve_all-packets ((t, payload) ∷ ms) s h k =
      ap
        (λ valid.
          continued s (served protocol valid t (built t payload) s)
            (λ s'. serve_all protocol (verdict v) (packets ms) [] s'))
        (built-verdict v t payload (stream (packets ms) []) h.0)
      ∙ ap
          (λ outcome. continued s outcome (λ s'. serve_all protocol (verdict v) (packets ms) [] s'))
          (served-answer v classes hello_messages handlers t payload s h.0 k.0)
      ∙ ap (continued s (answer v classes hello_messages handlers t (new_message t payload) s))
          (fun_ext (λ s'. serve_all-packets ms s' h.1 k.1))

  empty_verdict :
      (command : Option Bytes) (payload_length : Option ℕ)
      → Glimpse protocol [] command payload_length
      → verdict v false command bloxroute_message.header_length payload_length [] ≡ ok tt
  unfolding unpack
  empty_verdict _ _ (short h) =
      elim (Bool-cases (leb first_validating_version v.connection_protocol_version)) [
        | inl on ↦ rw on (three_ok refl (no_length v.size_validation_settings) refl)
        | inr off ↦ rw off (three_ok refl (no_length v.size_validation_settings) refl)
      ]
  empty_verdict _ _ (header_only u) = absurd (ground (arith, u))

  pub nothing-IsWaiting : IsWaiting protocol (verdict v) []
  nothing-IsWaiting = record {
    no_message =
        λ t n bytes rest b. omega (arith, b.size, ap length b.whole, length-append bytes rest);
    no_objection = empty_verdict;
  }

  -- A buffer that holds new messages, however it is cut in pieces, each of a type that the factory
  -- knows, with a class that takes its buffer and keeps it: the loop ends, and in order, as long as the
  -- connection is alive and open, the handler of each type is called with the type, the payload's
  -- length and the bytes of its message, where the connection is established or the message is a
  -- handshake; a message that is none closes it before. The buffer is empty where all were read.
  pub process_loop_built :
      (fuel : ℕ) (ms : List (Bytes × Bytes)) (c : Connection App)
      → length ms < fuel
      → IsCounted c.inputbuf
      → contents c.inputbuf ≡ stream (packets ms) []
      → AreBuildable ms
      → AreKnown ms
      → Delivers protocol (verdict v) [] (deliver_all ms c.session) (process_loop protocol fuel c)
  process_loop_built fuel ms c enough valid e h k =
      subst (λ o. Delivers protocol (verdict v) [] o (process_loop protocol fuel c))
        (serve_all-packets ms c.session h k)
        (process_loop-stream protocol (verdict v)
          (bloxroute-IsSound v classes hello_messages handlers) fuel (packets ms) [] c
          (omega (arith, length-packets ms)) valid e (packets-AreWhole ms h) nothing-IsWaiting)
