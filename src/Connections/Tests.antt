-- ===== src/Connections/Tests.antt =====
-- The theorems of the connection pool at a concrete pool.
use bxcommon.Prelude.Dict.{lookup}
use bxcommon.Prelude.Int.{pos}
use bxcommon.Prelude.Result.{ok, ◌>>=◌}
use bxcommon.Prelude.{
  ℕ, ◌≡◌, ◌≢◌, refl, Bool, true, false, not, Option, none, some, inl, List, [], ◌∷◌, ◌==◌,
}
use bxcommon.Buffers.Input.{Piece}
use bxcommon.Buffers.Output.Unsent.{IsValid}
use bxcommon.Buffers.Output.{OutputBuffer}
use bxcommon.Connections.Broadcast.Outgoing.{KeepsBytes, Broadcasted, broadcast-Reached}
use bxcommon.Connections.Broadcast.{Peer, Peers, BroadcastOptions, broadcast}
use bxcommon.Connections.Pool.{
  Heap, ConnectionPool, new_pool, add, delete, set_fileno, delete_ipport, delete_connection_type,
  decrement_count, delete_node_id, is_one, ipport,
}
use bxcommon.Connections.Pool.Queries.{
  get_by_fileno, get_by_ipport, get_by_connection_types, conns_of_types, matches,
}
use bxcommon.Connections.Pool.Grown.{IsSized, grown}
use bxcommon.Connections.Pool.Added.{add_lem}
use bxcommon.Connections.Pool.Deleted.{Ready, delete-add}

-- Connections of one ip, each with the file number and the port of its own number, and the same node id.
abbrev heap : Heap
heap conn = record {
  file_no = conn;
  peer_ip = 9;
  peer_port = conn;
  peer_id = some 4;
  connection_type = 2;
  network_num = 5;
}

new_pool-IsSized : IsSized new_pool
unfolding new_pool
new_pool-IsSized = refl

new_pool_free : lookup (ipport 9 250) new_pool.by_ipport ≡ none
unfolding new_pool
new_pool_free = refl

add_lem_example :
    (pool' : ConnectionPool) × (add heap 250 9 250 250 new_pool ≡ ok pool')
    × IsSized pool'
    × (get_by_fileno 250 pool' ≡ ok (some 250))
    × ((j : ℕ) → j ≢ 250 → get_by_fileno j pool' ≡ get_by_fileno j new_pool)
    × ((node_id : Option ℕ) → get_by_ipport 9 250 node_id pool' ≡ ok 250)
add_lem_example = add_lem heap 250 9 250 250 new_pool new_pool-IsSized new_pool_free

new_pool-Ready : Ready heap 250 new_pool
unfolding new_pool get_by_fileno
new_pool-Ready = record {
  sized = refl;
  free = refl;
  vacant = refl;
  kinds = inl refl;
  counts = inl refl;
  unindexed = λ id e. refl;
}

delete-add_example :
    (n : ℕ) × ((add heap 250 9 250 250 new_pool >>= delete heap 250) ≡ ok (grown n new_pool))
delete-add_example = delete-add heap 250 new_pool new_pool-Ready

-- Connections 3 and 5 have come, and the node id is indexed for 5.
abbrev two_conns : ConnectionPool
two_conns = record {
  by_fileno = none ∷ none ∷ none ∷ some 3 ∷ none ∷ some 5 ∷ [];
  by_ipport = (ipport 9 3, 3) ∷ (ipport 9 5, 5) ∷ [];
  by_connection_type = (2, 3 ∷ 5 ∷ []) ∷ [];
  by_node_id = (4, 5) ∷ [];
  len_fileno = 6;
  count_conn_by_ip = (9, pos 2) ∷ [];
}

-- Without 3.
abbrev one_conn : ConnectionPool
one_conn = record {
  by_fileno = none ∷ none ∷ none ∷ none ∷ none ∷ some 5 ∷ [];
  by_ipport = (ipport 9 5, 5) ∷ [];
  by_connection_type = (2, 5 ∷ []) ∷ [];
  by_node_id = [];
  len_fileno = 6;
  count_conn_by_ip = (9, pos 1) ∷ [];
}

delete_three : delete heap 3 two_conns ≡ ok one_conn
unfolding delete set_fileno delete_ipport delete_connection_type decrement_count is_one
    delete_node_id
delete_three = refl

-- Connections 3 and 5 are of types 2 and 4, and 7 of type 4; the socket takes its bytes later.
abbrev three_conns : ConnectionPool
three_conns = record {
  by_fileno = none ∷ none ∷ none ∷ some 3 ∷ none ∷ some 5 ∷ none ∷ some 7 ∷ [];
  by_ipport = [];
  by_connection_type = (2, 3 ∷ []) ∷ (4, 5 ∷ 7 ∷ []) ∷ [];
  by_node_id = [];
  len_fileno = 8;
  count_conn_by_ip = [];
}

abbrev no_bytes : OutputBuffer
no_bytes = record {
  enable_buffering = false;
  output_msgs = [];
  index = 0;
  length = pos 0;
  min_size = 10;
  max_hold_time = 5;
  last_bytearray = none;
  valid_len = 0;
  last_bytearray_create_time = none;
}

no_bytes-IsValid : IsValid no_bytes
no_bytes-IsValid = record { placed = record { index_ok = refl; held_ok = refl }; counted = refl }

-- All connections but 5 are active, and nothing waits.
abbrev some_peers : Peers
some_peers conn = record {
  alive = not (conn == 5);
  established = true;
  outputbuf = no_bytes;
  sent = [];
}

abbrev to_all : Piece → ℕ → BroadcastOptions → Bool
to_all message conn options = true

abbrev later : Peer → Peer
later p = p

later-KeepsBytes : KeepsBytes later
later-KeepsBytes = record { valid = λ p v. v; moved = λ p v. refl }

abbrev from_seven : BroadcastOptions
from_seven = record {
  broadcasting_connection = some 7;
  prepend_to_queue = false;
  connection_types = 6 ∷ [];
}

abbrev hello : Piece
hello = record { is_bytearray = true; bytes = 1 ∷ 2 ∷ [] }

broadcast-Reached_example :
    (reached : List ℕ) × (peers' : Peers) × (broadcast later to_all 0 hello from_seven three_conns
        some_peers
      ≡ ok (reached, peers'))
    × Broadcasted later to_all later-KeepsBytes hello from_seven three_conns some_peers reached
        peers'
unfolding get_by_connection_types conns_of_types matches
broadcast-Reached_example =
    broadcast-Reached later to_all later-KeepsBytes 0 hello from_seven three_conns some_peers refl
      (refl, (refl, (refl, tt))) (λ c. no_bytes-IsValid)
