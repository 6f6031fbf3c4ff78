-- ===== src/Connections/Processing/Tests.antt =====
-- The theorems on the loop at concrete connections.
use bxcommon.Connections.Processing.{Connection, Protocol, Session}
use bxcommon.Connections.Processing.Bad.{AreBad, process_loop_bad}
use bxcommon.Connections.Processing.Bloxroute.{bloxroute_protocol, bloxroute-IsSound}
use bxcommon.Connections.Processing.Body.{process_loop, process_message, handling}
use bxcommon.Connections.Processing.Built.{
  packets, deliver_all, AreBuildable, AreKnown, process_loop_built, packets-AreWhole,
  nothing-IsWaiting,
}
use bxcommon.Connections.Processing.Ends.{process_message_ends}
use bxcommon.Connections.Processing.Stream.{
  Packet, stream, Delivers, serve_all, process_loop-stream,
}
use bxcommon.Messages.Factory.{create_message_from_buffer, create_message}
use bxcommon.Messages.Message.{Message, unpack, validate_payload, get_header}
use bxcommon.Messages.Validator.{BloxrouteMessageValidator}
use bxcommon.Messages.Validator.Built.{built}
use bxcommon.Messages.Validator.Verdict.{verdict}
use bxcommon.Serializers.Wire.{get_slice, unpack_from}
use bxcommon.Prelude.Bytes.{Bytes}
use bxcommon.Prelude.Int.{pos}
use bxcommon.Prelude.Result.{Result, ok}
use bxcommon.Prelude.{
  ℕ, ◌+◌, ◌≡◌, refl, true, false, inl, Option, none, some, List, [], ◌∷◌, length, take, drop, arith,
}

-- "ping", the one type that the factory knows.
abbrev ping : Bytes
ping = 112 ∷ 105 ∷ 110 ∷ 103 ∷ []

abbrev ping_class : Bytes → Result Message
ping_class buf = ok (record { msg_type = []; payload_len = 0; buf = buf })

abbrev validator : BloxrouteMessageValidator
validator = record { size_validation_settings = none; connection_protocol_version = 22 }

-- A handler that counts.
abbrev count_ping : Bytes → Option (Message → Session ℕ → Result (Unit {0}) × Session ℕ)
count_ping msg_type = some (λ msg s. (ok tt, record s { app = s.app + 1 }))

abbrev pings : Protocol ℕ
pings = bloxroute_protocol validator ((ping, ping_class) ∷ []) (ping ∷ []) count_ping

abbrev session : Session ℕ
session = record {
  alive = true;
  should_retry = false;
  from_me = true;
  established = false;
  num_bad_messages = 2;
  processing_message_index = 0;
  app = 0;
}

abbrev two_pings : List (Bytes × Bytes)
two_pings = (ping, 7 ∷ 0 ∷ []) ∷ (ping, 9 ∷ 8 ∷ 0 ∷ []) ∷ []

abbrev all_bytes : Bytes
all_bytes = stream (packets validator ((ping, ping_class) ∷ []) (ping ∷ []) count_ping two_pings) []

-- The bytes of both, in two pieces.
abbrev connection : Connection ℕ
connection = record {
  inputbuf = record {
    input_list =
        record { is_bytearray = true; bytes = take 30 all_bytes }
        ∷ record { is_bytearray = true; bytes = drop 30 all_bytes }
        ∷ [];
    length = pos 45;
  };
  session = session;
}

two_pings-AreBuildable :
    AreBuildable validator ((ping, ping_class) ∷ []) (ping ∷ []) count_ping two_pings
two_pings-AreBuildable = (
  record {
    is_type = record { short = omega arith; stripped = refl };
    some_payload = omega arith;
    bytes = omega arith;
    fits = omega arith;
    within = refl;
  },
  (
    record {
      is_type = record { short = omega arith; stripped = refl };
      some_payload = omega arith;
      bytes = omega arith;
      fits = omega arith;
      within = refl;
    },
    tt,
  ),
)

two_pings-AreKnown : AreKnown validator ((ping, ping_class) ∷ []) (ping ∷ []) count_ping two_pings
two_pings-AreKnown = (
  record {
    cls = ping_class;
    made = record { msg_type = []; payload_len = 0; buf = built ping (7 ∷ 0 ∷ []) };
    maps = inl (refl, refl);
    makes = refl;
    keeps = refl;
  },
  (
    record {
      cls = ping_class;
      made = record { msg_type = []; payload_len = 0; buf = built ping (9 ∷ 8 ∷ 0 ∷ []) };
      maps = inl (refl, refl);
      makes = refl;
      keeps = refl;
    },
    tt,
  ),
)

process_loop_built_example :
    Delivers pings
      (verdict validator)
      []
      (deliver_all validator ((ping, ping_class) ∷ []) (ping ∷ []) count_ping two_pings session)
      (process_loop pings 5 connection)
process_loop_built_example =
    process_loop_built validator ((ping, ping_class) ∷ []) (ping ∷ []) count_ping 5 two_pings
      connection (omega arith) refl refl two_pings-AreBuildable two_pings-AreKnown

process_message_ends_example :
    (r : Result (Unit {0}) × Connection ℕ) × (process_message pings 46 connection ≡ some r)
process_message_ends_example =
    process_message_ends pings
      (bloxroute-IsSound validator ((ping, ping_class) ∷ []) (ping ∷ []) count_ping) connection refl

process_loop-stream_example :
    Delivers pings
      (verdict validator)
      []
      (serve_all pings
        (verdict validator)
        (packets validator ((ping, ping_class) ∷ []) (ping ∷ []) count_ping two_pings)
        []
        session)
      (process_loop pings 5 connection)
process_loop-stream_example =
    process_loop-stream pings (verdict validator)
      (bloxroute-IsSound validator ((ping, ping_class) ∷ []) (ping ∷ []) count_ping) 5
      (packets validator ((ping, ping_class) ∷ []) (ping ∷ []) count_ping two_pings) [] connection
      (omega arith) refl refl
      (packets-AreWhole validator ((ping, ping_class) ∷ []) (ping ∷ []) count_ping two_pings
        two_pings-AreBuildable)
      (nothing-IsWaiting validator ((ping, ping_class) ∷ []) (ping ∷ []) count_ping)

-- A factory that knows no type: the messages are bad, the second as the fourth in a row.
abbrev unknowing : Protocol ℕ
unknowing = bloxroute_protocol validator [] (ping ∷ []) count_ping

abbrev bad_packet : Bytes → Packet
bad_packet payload = record {
  msg_type = ping;
  payload_len = length payload;
  bytes = built ping payload;
}

two_pings-AreBad :
    AreBad unknowing
      (verdict validator)
      (bad_packet (7 ∷ 0 ∷ []) ∷ bad_packet (9 ∷ 8 ∷ 0 ∷ []) ∷ [])
      []
unfolding create_message_from_buffer create_message unpack validate_payload get_header handling
    get_slice unpack_from
two_pings-AreBad = (λ s. refl, (λ s. refl, tt))

process_loop_bad_example :
    (c' : Connection ℕ) × (process_loop unknowing 5 connection ≡ some (ok tt, c'))
    × (c'.session.alive ≡ false)
    × (c'.session.should_retry ≡ true)
process_loop_bad_example =
    process_loop_bad unknowing (verdict validator) 5 (bad_packet (7 ∷ 0 ∷ []) ∷ [])
      (bad_packet (9 ∷ 8 ∷ 0 ∷ [])) [] [] connection
      (bloxroute-IsSound validator [] (ping ∷ []) count_ping) (omega arith) refl refl
      (packets-AreWhole validator [] (ping ∷ []) count_ping two_pings two_pings-AreBuildable)
      (nothing-IsWaiting validator [] (ping ∷ []) count_ping) two_pings-AreBad refl refl
