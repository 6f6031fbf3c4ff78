-- ===== src/Messages/Tests.antt =====
-- The theorems on messages at concrete messages.
use bxcommon.Buffers.Input.{InputBuffer}
use bxcommon.Buffers.Input.Contents.{contents}
use bxcommon.Messages.Cleanup.Fields.{Fits}
use bxcommon.Messages.Cleanup.RoundTrip.{Reading, init_cleanup-Reading}
use bxcommon.Messages.Cleanup.{init_cleanup}
use bxcommon.Messages.Message.{
  Message, bloxroute_message, init_bloxroute, unpack, starting_sequence_bytes,
  starting_sequence_bytes_len,
}
use bxcommon.Messages.Message.Header.{IsType, marked, unpack-init_bloxroute}
use bxcommon.Messages.Validator.{
  BloxrouteMessageValidator, validate, transaction, transaction_cleanup, max_payload_len,
}
use bxcommon.Messages.Validator.Verdict.{SameContents, verdict, validate-verdict}
use bxcommon.Prelude.Bytes.{Bytes}
use bxcommon.Prelude.Int.{pos}
use bxcommon.Prelude.Result.{ok, err, ◌>>=◌, message_validation_error}
use bxcommon.Prelude.{◌≡◌, refl, true, false, some, [], ◌∷◌, ◌++◌, take, drop, replicate, arith}

abbrev empty_buffer : Bytes
empty_buffer = replicate 23 0

transaction-IsType : IsType transaction
transaction-IsType = record { short = omega arith; stripped = refl }

unpack-init_bloxroute_example :
    (m : Message) × (init_bloxroute transaction (pos 3) empty_buffer ≡ ok m)
    × (unpack bloxroute_message m.buf ≡ ok (transaction, 3))
    × (take starting_sequence_bytes_len m.buf ≡ starting_sequence_bytes)
    × (drop bloxroute_message.header_length m.buf
        ≡ marked (drop bloxroute_message.header_length empty_buffer))
unpack-init_bloxroute_example =
    unpack-init_bloxroute transaction 3 empty_buffer transaction-IsType (omega arith) (omega arith)

abbrev validator : BloxrouteMessageValidator
validator = record {
  size_validation_settings = some (record { max_block_size_bytes = 9; max_tx_size_bytes = 2 });
  connection_protocol_version = 22;
}

-- A transaction message of three bytes, in two pieces.
abbrev received : InputBuffer
received = record {
  input_list =
      record { is_bytearray = false; bytes = 255 ∷ 254 ∷ 253 ∷ [] }
      ∷ record {
        is_bytearray = true;
        bytes = (252 ∷ 116 ∷ 120 ∷ []) ++ (replicate 10 0 ++ (3 ∷ 0 ∷ 0 ∷ 0 ∷ 5 ∷ 6 ∷ 1 ∷ []));
      }
      ∷ [];
  length = pos 23;
}

validate-verdict_example :
    (b' : InputBuffer) × (validate validator true (some transaction) 20 (some 3) received
      ≡ (verdict validator true (some transaction) 20 (some 3) (contents received) >>= λ _. ok b'))
    × SameContents received b'
validate-verdict_example =
    validate-verdict validator true (some transaction) 20 (some 3) received refl

-- The payload is over the limit for transactions.
too_long :
    verdict validator true (some transaction) 20 (some 3) (contents received)
    ≡ err message_validation_error
unfolding max_payload_len
too_long = refl

-- A clean-up message of two short ids and one hash.
abbrev some_hash : Bytes
some_hash = replicate 32 7

abbrev node_id : Bytes
node_id = replicate 16 9

cleanup-Fits : Fits some_hash 5 node_id (11 ∷ 12 ∷ []) (some_hash ∷ [])
cleanup-Fits = record {
  hash_len = refl;
  num_fits = omega arith;
  id_len = refl;
  sids_fit = (omega arith, (omega arith, tt));
  few_sids = omega arith;
  hashes_fit = (refl, tt);
  few_hashes = omega arith;
  payload_fits = omega arith;
}

init_cleanup-Reading_example :
    (m : Message) × (init_cleanup transaction_cleanup some_hash 5 node_id
        (11 ∷ 12 ∷ [])
        (some_hash ∷ [])
      ≡ ok m)
    × (unpack bloxroute_message m.buf ≡ ok (transaction_cleanup, 101))
    × Reading m some_hash 5 node_id (11 ∷ 12 ∷ []) (some_hash ∷ [])
init_cleanup-Reading_example =
    init_cleanup-Reading transaction_cleanup some_hash 5 node_id (11 ∷ 12 ∷ []) (some_hash ∷ [])
      (record { short = omega arith; stripped = refl }) cleanup-Fits
