-- ===== src/Connections/Broadcast.antt =====
-- `BroadcastService` of bxcommon/services/broadcast_service.py, and what it calls of
-- bxcommon/connections/abstract_connection.py. A connection is a number, and `Peers` has what its socket
-- and its output buffer are. Whether a message is for a connection, which subclasses say, and the send
-- of the socket, which takes bytes from the output buffer, are parameters.
pub mod Recipients
pub mod Outgoing
use bxcommon.Buffers.Input.{Piece}
use bxcommon.Buffers.Output.{OutputBuffer, buffer, enqueue_msgbytes, prepend_msgbytes}
use bxcommon.Connections.Pool.Queries.{get_by_connection_types}
use bxcommon.Connections.Pool.{ConnectionPool}
use bxcommon.Prelude.Bytes.{Bytes}
use bxcommon.Prelude.Result.{Result, ok, ◌>>=◌}
use bxcommon.Prelude.{
  ℕ, Bool, true, false, not, ◌&&◌, Option, none, some, List, [], ◌∷◌, ◌==◌, if◌then◌else◌,
}

pub record Peer : Type 0 where
  pub alive : Bool
  pub established : Bool
  pub outputbuf : OutputBuffer
  pub sent : Bytes

abbrev pub Peers : Type 0
Peers = ℕ → Peer

pub record BroadcastOptions : Type 0 where
  pub broadcasting_connection : Option ℕ
  pub prepend_to_queue : Bool
  pub connection_types : List ℕ

-- `is_active`
abbrev pub is_active : Peer → Bool
is_active p = p.established && p.alive

abbrev pub put_peer : ℕ → Peer → Peers → Peers
put_peer conn p peers other = if other == conn then p else peers other

abbrev pub is_broadcaster : ℕ → Option ℕ → Bool
is_broadcaster conn none = false
is_broadcaster conn (some other) = conn == other

module _ (send : Peer → Peer) (should_broadcast : Piece → ℕ → BroadcastOptions → Bool) where
  unfoldable pub enqueue_msg_bytes : ℕ → Piece → Bool → Peer → Result Peer
  enqueue_msg_bytes now msg_bytes prepend p =
      if not p.alive
      then ok p
      else ((if prepend
            then prepend_msgbytes (buffer msg_bytes) p.outputbuf
            else enqueue_msgbytes now (buffer msg_bytes) p.outputbuf)
          >>= λ b. ok (send (record p { outputbuf = b })))

  unfoldable pub for_broadcast : Piece → BroadcastOptions → List ℕ → List ℕ
  for_broadcast message options [] = []
  for_broadcast message options (conn ∷ conns) =
      let later = for_broadcast message options conns in
      if should_broadcast message conn options
        && not (is_broadcaster conn options.broadcasting_connection)
      then conn ∷ later
      else later

  unfoldable pub get_connections_for_broadcast : Piece → BroadcastOptions → ConnectionPool → List ℕ
  get_connections_for_broadcast message options pool =
      for_broadcast message options (get_by_connection_types options.connection_types pool)

  unfoldable pub broadcast_to_connections :
      ℕ → Piece → BroadcastOptions → List ℕ → Peers → Result (List ℕ × Peers)
  broadcast_to_connections now message options [] peers = ok ([], peers)
  broadcast_to_connections now message options (conn ∷ conns) peers =
      let passed = broadcast_to_connections now message options conns peers in
      let reached = enqueue_msg_bytes now message options.prepend_to_queue (peers conn) >>= λ p.
      broadcast_to_connections now message options conns (put_peer conn p peers) >>= λ done.
      ok (conn ∷ done.0, done.1) in
      if is_active (peers conn) then reached else passed

  unfoldable pub broadcast :
      ℕ → Piece → BroadcastOptions → ConnectionPool → Peers → Result (List ℕ × Peers)
  broadcast now message options pool peers =
      broadcast_to_connections now message options
        (get_connections_for_broadcast message options pool) peers
