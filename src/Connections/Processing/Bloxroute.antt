-- ===== src/Connections/Processing/Bloxroute.antt =====
-- A connection of bloXroute messages: the base class with `BloxrouteMessageValidator` and a factory
-- whose base type is `AbstractBloxrouteMessage`, as the internal connections have them.
use bxcommon.Connections.Processing.{Protocol, Session}
use bxcommon.Connections.Processing.Spec.{IsSound}
use bxcommon.Messages.Message.{Message, bloxroute_message}
use bxcommon.Messages.Validator.{
  BloxrouteMessageValidator, MessageSizeValidationSettings, validate, first_validating_version,
}
use bxcommon.Messages.Validator.Verdict.{
  verdict, validate-verdict, starting_verdict, length_verdict, flags_verdict,
}
use bxcommon.Prelude.Bytes.{Bytes}
use bxcommon.Prelude.Result.{Result, ok, err, ◌>>=◌, unauthorized_message_error}
use bxcommon.Prelude.{
  ℕ, ◌≢◌, inl, inr, refl, Bool, true, false, Option, none, some, List, leb, arith, Bool-cases,
}

module _ {App : Type 0} (v : BloxrouteMessageValidator)
    (classes : List (Bytes × (Bytes → Result Message))) (hello_messages : List Bytes)
    (handlers : Bytes → Option (Message → Session App → Result (Unit {0}) × Session App)) where
  abbrev pub bloxroute_protocol : Protocol App
  bloxroute_protocol = record {
    message_factory = record {
      base_message_type = bloxroute_message;
      message_type_mapping = classes;
    };
    validate = validate v;
    header_size = bloxroute_message.header_length;
    hello_messages = hello_messages;
    message_handlers = handlers;
  }

starting-authorizes : (all : Bytes) → starting_verdict all ≢ err unauthorized_message_error
starting-authorizes all = ground arith

flags-authorizes :
    (full : Bool) (header_len : ℕ) (payload_len : Option ℕ) (all : Bytes)
    → flags_verdict full header_len payload_len all ≢ err unauthorized_message_error
flags-authorizes false header_len payload_len all = ground arith
flags-authorizes true header_len none all = ground arith
flags-authorizes true header_len (some n) all = ground arith

length-authorizes :
    (settings : Option MessageSizeValidationSettings) (msg_type : Option Bytes)
    (payload_len : Option ℕ)
    → length_verdict settings msg_type payload_len ≢ err unauthorized_message_error
length-authorizes none msg_type payload_len = ground arith
length-authorizes (some s) none payload_len = ground arith
length-authorizes (some s) (some t) none = ground arith
length-authorizes (some s) (some t) (some n) = ground arith

bind-authorizes :
    (a b : Result (Unit {0}))
    → a ≢ err unauthorized_message_error
    → b ≢ err unauthorized_message_error
    → (a >>= λ _. b) ≢ err unauthorized_message_error
bind-authorizes (err e) b h k = h
bind-authorizes (ok _) b h k = k

verdict-authorizes :
    (v : BloxrouteMessageValidator) (full : Bool) (msg_type : Option Bytes) (header_len : ℕ)
    (payload_len : Option ℕ) (all : Bytes)
    → verdict v full msg_type header_len payload_len all ≢ err unauthorized_message_error
verdict-authorizes v full msg_type header_len payload_len all =
    let length_check = length_verdict v.size_validation_settings msg_type payload_len in
    let lengths = length-authorizes v.size_validation_settings msg_type payload_len in
    elim (Bool-cases (leb first_validating_version v.connection_protocol_version)) [
      | inl on ↦ rw on (
          bind-authorizes (starting_verdict all) _ (starting-authorizes all) (
            bind-authorizes length_check (flags_verdict full header_len payload_len all) lengths
              (flags-authorizes full header_len payload_len all)))
      | inr off ↦ rw off (bind-authorizes length_check (ok tt) lengths (λ h. ground (arith, h)))
    ]

module _ {App : Type 0} (v : BloxrouteMessageValidator)
    (classes : List (Bytes × (Bytes → Result Message))) (hello_messages : List Bytes)
    (handlers : Bytes → Option (Message → Session App → Result (Unit {0}) × Session App)) where
  -- Such a protocol is as the loop requires.
  pub bloxroute-IsSound : IsSound (bloxroute_protocol v classes hello_messages handlers) (verdict v)
  bloxroute-IsSound = record {
    header_sizes = refl;
    some_header = omega arith;
    header_fits = omega arith;
    authorizes = verdict-authorizes v;
    validates = validate-verdict v;
  }
