-- ===== src/Connections/Processing/Delivered.antt =====
-- What the loop is to do with new messages, written on their types and payloads: which handler is called
-- with which message, and what comes of an exception in it. A class is taken to keep the buffer that it
-- is called with, as all of bxcommon/messages do.
use bxcommon.Buffers.Input.{same_bytes}
use bxcommon.Connections.Processing.{
  Flow, again, stop, raised, Session, contains_bytes, mark_for_close, report_bad_message,
}
use bxcommon.Connections.Processing.Bloxroute.{bloxroute_protocol}
use bxcommon.Connections.Processing.Body.{handling, is_hello}
use bxcommon.Connections.Processing.Spec.{finished, failed, served}
use bxcommon.Messages.Factory.{MessageFactory, class_of, create_message, create_message_from_buffer}
use bxcommon.Messages.Message.{
  Message, bloxroute_message, starting_sequence_bytes, unpack, validate_payload, initialize_class,
}
use bxcommon.Messages.Message.Header.{marked, unpack-framed}
use bxcommon.Messages.Validator.Built.{IsBuildable, built, length-built}
use bxcommon.Messages.Validator.Verdict.{same_bytes_refl}
use bxcommon.Messages.Validator.{BloxrouteMessageValidator, MessageSizeValidationSettings}
use bxcommon.Prelude.Bytes.{Bytes}
use bxcommon.Prelude.Result.{
  Error, Result, ok, err, memory_error, payload_len_error, non_version_message_error,
}
use bxcommon.Prelude.{
  fun_ext, ◌+◌, ◌≡◌, ◌⊎◌, refl, sym, ap, ◌∙◌, Bool, true, false, ◌||◌, ◌&&◌, not, Option, none,
  some, List, [], ◌∷◌, ltb, ◌==◌, length, if◌then◌else◌, arith, inl, inr,
}

-- The class of the first entry of this type.
abbrev pub Maps :
    Bytes → (Bytes → Result Message) → List (Bytes × (Bytes → Result Message)) → Type 0
Maps t cls [] = ⊥
Maps t cls ((name, first) ∷ rest) =
    ((t ≡ name) × (first ≡ cls)) ⊎ ((same_bytes t name ≡ false) × Maps t cls rest)

Maps-class_of :
    (t : Bytes) (cls : Bytes → Result Message) (classes : List (Bytes × (Bytes → Result Message)))
    → Maps t cls classes
    → class_of t classes ≡ some cls
Maps-class_of t cls [] h = absurd h
Maps-class_of t cls ((name, first) ∷ rest) (inl (same, is)) =
    let equal : same_bytes t name ≡ true = ap (same_bytes t) (sym same) ∙ same_bytes_refl t in
    rw equal (ap some is)
Maps-class_of t cls ((name, first) ∷ rest) (inr (other, later)) =
    rw other (Maps-class_of t cls rest later)

abbrev pub new_message : Bytes → Bytes → Message
new_message t payload = record { msg_type = t; payload_len = length payload; buf = built t payload }

-- A type that the factory knows, with a class that makes a message of this buffer.
pub record IsKnown (classes : List (Bytes × (Bytes → Result Message))) (t payload : Bytes)
    : Type 0 where
  pub cls : Bytes → Result Message
  pub made : Message
  pub maps : Maps t cls classes
  pub makes : cls (built t payload) ≡ ok made
  pub keeps : made.buf ≡ built t payload

abbrev bloxroute_factory : List (Bytes × (Bytes → Result Message)) → MessageFactory
bloxroute_factory classes = record {
  base_message_type = bloxroute_message;
  message_type_mapping = classes;
}

created :
    (classes : List (Bytes × (Bytes → Result Message)))
    (settings : Option MessageSizeValidationSettings) (t payload : Bytes)
    → IsBuildable settings t payload
    → IsKnown classes t payload
    → create_message_from_buffer (bloxroute_factory classes) (built t payload)
      ≡ ok (new_message t payload)
unfolding create_message_from_buffer create_message initialize_class validate_payload
created classes settings t payload b k =
    let size = length-built t payload in
    let long : ltb (length (built t payload)) 20 ≡ false = ground (arith, size) in
    let exact : ((length payload + 20) == length (built t payload)) ≡ true = ground (arith, size) in
    let read : unpack bloxroute_message (built t payload) ≡ ok (t, length payload) =
      unpack-framed bloxroute_message starting_sequence_bytes t (length payload) (marked payload)
        refl b.is_type b.fits in
    rw (long, read, exact, Maps-class_of t k.cls classes k.maps, k.makes, k.keeps)

module _ {App : Type 0} where
  abbrev closed : Session App → Session App
  closed s = if s.alive then record s { alive = false; should_retry = s.from_me } else s

  -- An exception of a handler: the fourth message in a row that raises closes the connection.
  unfoldable pub after_error : Error → Session App → Flow × Session App
  after_error memory_error s = (raised memory_error, s)
  after_error payload_len_error s = (stop, closed s)
  after_error non_version_message_error s = (stop, closed s)
  after_error e s = if s.num_bad_messages == 3 then (stop, closed s) else (
    again,
    record s {
      num_bad_messages = s.num_bad_messages + 1;
      processing_message_index = s.processing_message_index + 1;
    },
  )

  failed-after_error : (e : Error) (s : Session App) → failed e s ≡ after_error e s
  unfolding after_error handling mark_for_close report_bad_message
  failed-after_error e s = ground arith

module _ {App : Type 0} (v : BloxrouteMessageValidator)
    (classes : List (Bytes × (Bytes → Result Message))) (hello_messages : List Bytes)
    (handlers : Bytes → Option (Message → Session App → Result (Unit {0}) × Session App)) where
  abbrev among : Bytes → List Bytes → Bool
  among t [] = false
  among t (u ∷ us) = same_bytes t u || among t us

  among-contains_bytes : (t : Bytes) (us : List Bytes) → contains_bytes t us ≡ among t us
  among-contains_bytes t [] = refl
  among-contains_bytes t (u ∷ us) = ap (◌||◌ (same_bytes t u)) (among-contains_bytes t us)

  abbrev handle :
      (Error → Session App → Flow × Session App)
      → Bytes
      → Message
      → Session App
      → Flow × Session App
  handle on_error t msg s = elim (handlers t) [
    | none ↦ (again, finished s)
    | some handler ↦
        let (result, s') = handler msg s in
        elim result [ err e ↦ on_error e s' | ok _ ↦ (again, finished s') ]
  ]

  -- Before the connection is established a message that is no handshake closes it; otherwise the
  -- handler of its type is called.
  abbrev pub answer : Bytes → Message → Session App → Flow × Session App
  answer t msg s =
      if not s.established && not (among t hello_messages)
      then (stop, closed s)
      else handle after_error t msg s

  -- What `served` does with the message that it made.
  abbrev continued : Bytes → Session App → Result Message → Flow × Session App
  continued t s created_message = elim created_message [
    | err e ↦ failed e s
    | ok msg ↦
        if not s.established && not (contains_bytes t hello_messages)
        then (stop, mark_for_close s)
        else handle failed t msg s
  ]

  pub served-answer :
      (t payload : Bytes) (s : Session App)
      → IsBuildable v.size_validation_settings t payload
      → IsKnown classes t payload
      → served (bloxroute_protocol v classes hello_messages handlers) (ok tt) t (built t payload) s
        ≡ answer t (new_message t payload) s
  unfolding is_hello mark_for_close
  served-answer t payload s b k =
      ap (continued t s) (created classes v.size_validation_settings t payload b k)
      ∙ ap
          (λ hello.
            if not s.established && not hello
            then (stop, closed s)
            else handle failed t (new_message t payload) s)
          (among-contains_bytes t hello_messages)
      ∙ ap
          (λ on_error.
            if not s.established && not (among t hello_messages)
            then (stop, closed s)
            else handle on_error t (new_message t payload) s)
          (fun_ext (λ e. fun_ext (λ s'. failed-after_error e s')))
