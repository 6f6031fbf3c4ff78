-- ===== src/Connections/Pool.antt =====
-- `ConnectionPool` of bxcommon/connections/connection_pool.py. A connection is the number of an object,
-- whose attributes the heap has. An (ip, port) pair is one number, for a port is below 2 ^ 16. The
-- metrics and the memory statistics are left out. The children are about its methods.
pub mod Queries
pub mod Grown
pub mod Added
pub mod Deleted
use Prim.Native.Nat.{bit_and}
use bxcommon.Prelude.Dict.{Dict, lookup, insert, erase, contains, get_or}
use bxcommon.Prelude.Int.{ℤ, pos, negsuc, ◌+ℤ◌, ◌-ℤ◌}
use bxcommon.Prelude.Result.{
  Result, ok, err, key_error, value_error, index_error, assertion_error, ◌>>=◌,
}
use bxcommon.Prelude.Sets.{elem, discard}
use bxcommon.Prelude.{
  ℕ, zero, suc, ◌+◌, ◌*◌, Bool, true, false, not, ◌&&◌, ◌||◌, Option, none, some, List, [], ◌∷◌,
  ◌++◌, ltb, leb, ◌==◌, length, replicate, set, get_elem?, if◌then◌else◌,
}

-- The peer id is a number that stands for a string; 0 is the empty string.
pub record Connection : Type 0 where
  pub file_no : ℕ
  pub peer_ip : ℕ
  pub peer_port : ℕ
  pub peer_id : Option ℕ
  pub connection_type : ℕ
  pub network_num : ℕ

abbrev pub Heap : Type 0
Heap = ℕ → Connection

pub record ConnectionPool : Type 0 where
  pub by_fileno : List (Option ℕ)
  pub by_ipport : Dict ℕ
  pub by_connection_type : Dict (List ℕ)
  pub by_node_id : Dict ℕ
  pub len_fileno : ℕ
  pub count_conn_by_ip : Dict ℤ

abbrev pub initial_fileno : ℕ
initial_fileno = 100

unfoldable pub new_pool : ConnectionPool
new_pool = record {
  by_fileno = replicate initial_fileno none;
  by_ipport = [];
  by_connection_type = [];
  by_node_id = [];
  len_fileno = initial_fileno;
  count_conn_by_ip = [];
}

abbrev pub ipport : ℕ → ℕ → ℕ
ipport ip port = ip * 65536 + port

-- The `while` loop of `add`, with fuel.
unfoldable pub extend_fileno : ℕ → ℕ → ConnectionPool → ConnectionPool
extend_fileno zero fileno pool = pool
extend_fileno (suc fuel) fileno pool =
    let longer = extend_fileno fuel fileno (record pool {
      by_fileno = pool.by_fileno ++ replicate initial_fileno none;
      len_fileno = pool.len_fileno + initial_fileno;
    }) in
    if leb pool.len_fileno fileno then longer else pool

-- `self.by_fileno[fileno] = entry`
unfoldable pub set_fileno : ℕ → Option ℕ → ConnectionPool → Result ConnectionPool
set_fileno fileno entry pool =
    if ltb fileno (length pool.by_fileno)
    then ok (record pool { by_fileno = set pool.by_fileno fileno entry })
    else err index_error

-- The last three lines of `add`; a missing type has no connections, a missing ip none.
unfoldable pub index_conn : Heap → ℕ → ℕ → ℕ → ConnectionPool → ConnectionPool
index_conn heap ip port conn pool =
    let kind = (heap conn).connection_type in
    record pool {
      by_ipport = insert (ipport ip port) conn pool.by_ipport;
      by_connection_type =
          insert kind (get_or [] (lookup kind pool.by_connection_type) ++ (conn ∷ []))
            pool.by_connection_type;
      count_conn_by_ip =
          insert ip (get_or (pos 0) (lookup ip pool.count_conn_by_ip) +ℤ pos 1)
            pool.count_conn_by_ip;
    }

-- Each round of the loop makes the list longer, so `fileno + 1` rounds are enough.
unfoldable pub add : Heap → ℕ → ℕ → ℕ → ℕ → ConnectionPool → Result ConnectionPool
add heap fileno ip port conn pool =
    if contains (ipport ip port) pool.by_ipport then err assertion_error else (do
      pool' ← set_fileno fileno (some conn) (extend_fileno (suc fileno) fileno pool)
      ok (index_conn heap ip port conn pool'))

unfoldable pub update_port : Heap → ℕ → ℕ → ℕ → ConnectionPool → ConnectionPool
update_port heap old_port new_port conn pool =
    let ip = (heap conn).peer_ip in
    record pool {
      by_ipport = insert (ipport ip new_port) conn (erase (ipport ip old_port) pool.by_ipport);
    }

unfoldable pub index_conn_node_id : ℕ → ℕ → ConnectionPool → ConnectionPool
index_conn_node_id node_id conn pool = record pool {
  by_node_id = insert node_id conn pool.by_node_id;
}

-- The parts of `delete`: the address, unless another connection has it,
unfoldable pub delete_ipport : Heap → ℕ → ConnectionPool → ConnectionPool
delete_ipport heap conn pool =
    let key = ipport (heap conn).peer_ip (heap conn).peer_port in
    elim (lookup key pool.by_ipport) [
      | none ↦ pool
      | some other ↦
          if (heap other).file_no == (heap conn).file_no
          then record pool { by_ipport = erase key pool.by_ipport }
          else pool
    ]

-- the list of its type,
unfoldable pub delete_connection_type : Heap → ℕ → ConnectionPool → Result ConnectionPool
delete_connection_type heap conn pool =
    let kind = (heap conn).connection_type in
    elim (lookup kind pool.by_connection_type) [
      | none ↦ ok pool
      | some conns ↦
          if length conns == 1
          then ok (record pool { by_connection_type = erase kind pool.by_connection_type })
          else (if elem conn conns
              then ok (record pool {
                by_connection_type = insert kind (discard conn conns) pool.by_connection_type;
              })
              else err value_error)
    ]

unfoldable pub is_one : ℤ → Bool
is_one (pos n) = n == 1
is_one (negsuc _) = false

-- the count of its ip,
unfoldable pub decrement_count : Heap → ℕ → ConnectionPool → ConnectionPool
decrement_count heap conn pool =
    let ip = (heap conn).peer_ip in
    let count = get_or (pos 0) (lookup ip pool.count_conn_by_ip) in
    if is_one count
    then record pool { count_conn_by_ip = erase ip pool.count_conn_by_ip }
    else record pool { count_conn_by_ip = insert ip (count -ℤ pos 1) pool.count_conn_by_ip }

-- and the node id.
unfoldable pub delete_node_id : Heap → ℕ → ConnectionPool → ConnectionPool
delete_node_id heap conn pool = elim (heap conn).peer_id [
  | none ↦ pool
  | some peer_id ↦
      if peer_id == 0 then pool else record pool { by_node_id = erase peer_id pool.by_node_id }
]

unfoldable pub delete : Heap → ℕ → ConnectionPool → Result ConnectionPool
delete heap conn pool = do
  pool1 ← set_fileno (heap conn).file_no none pool
  pool2 ← delete_connection_type heap conn (delete_ipport heap conn pool1)
  ok (delete_node_id heap conn (decrement_count heap conn pool2))

-- `conn.CONNECTION_TYPE = connection_type`
unfoldable pub set_connection_type : ℕ → ℕ → Heap → Heap
set_connection_type conn kind heap other =
    if other == conn then record (heap other) { connection_type = kind } else heap other

unfoldable pub update_connection_type :
    ℕ → ℕ → Heap → ConnectionPool → Result (Heap × ConnectionPool)
update_connection_type conn kind heap pool = do
  pool1 ← delete heap conn pool
  let heap' = set_connection_type conn kind heap
  pool2 ← add heap' (heap' conn).file_no (heap' conn).peer_ip (heap' conn).peer_port conn pool1
  elim (heap' conn).peer_id [
    | none ↦ err assertion_error
    | some peer_id ↦ ok (heap', index_conn_node_id peer_id conn pool2)
  ]
