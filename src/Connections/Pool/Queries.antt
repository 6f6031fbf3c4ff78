-- ===== src/Connections/Pool/Queries.antt =====
-- The look-ups of `ConnectionPool`.
use bxcommon.Connections.Pool.{Heap, ConnectionPool, ipport}
use Prim.Native.Nat.{bit_and}
use bxcommon.Prelude.Dict.{Dict, lookup, contains}
use bxcommon.Prelude.Result.{Result, ok, err, key_error, index_error}
use bxcommon.Prelude.{
  ℕ, suc, Bool, true, false, not, ◌||◌, Option, none, some, List, [], ◌∷◌, ◌++◌, leb, ◌==◌, length,
  get_elem?, if◌then◌else◌,
}

unfoldable pub has_connection : Option ℕ → Option ℕ → Option ℕ → ConnectionPool → Bool
has_connection ip port node_id pool =
    let indexed : Bool = elim node_id [ none ↦ false | some n ↦ contains n pool.by_node_id ] in
    let there : Bool = elim ip [
      | none ↦ false
      | some i ↦ elim port [ none ↦ false | some p ↦ contains (ipport i p) pool.by_ipport ]
    ] in
    if indexed then true else there

unfoldable pub get_by_ipport : ℕ → ℕ → Option ℕ → ConnectionPool → Result ℕ
get_by_ipport ip port node_id pool = elim (lookup (ipport ip port) pool.by_ipport) [
  | some conn ↦ ok conn
  | none ↦ elim node_id [
    | none ↦ err key_error
    | some n ↦ elim (lookup n pool.by_node_id) [ some conn ↦ ok conn | none ↦ err key_error ]
  ]
]

-- An index out of range, below `len_fileno`, is an error of the list.
unfoldable pub get_by_fileno : ℕ → ConnectionPool → Result (Option ℕ)
get_by_fileno fileno pool =
    if leb pool.len_fileno fileno
    then ok none
    else (elim (get_elem? pool.by_fileno fileno) [ some entry ↦ ok entry | none ↦ err index_error ])

unfoldable pub get_by_node_id : ℕ → ConnectionPool → Result ℕ
get_by_node_id node_id pool = elim (lookup node_id pool.by_node_id) [
  | some conn ↦ ok conn
  | none ↦ err key_error
]

-- `any(connection_type & matching_type for matching_type in connection_types)`
unfoldable pub matches : ℕ → List ℕ → Bool
matches kind [] = false
matches kind (matching ∷ kinds) = not (bit_and kind matching == 0) || matches kind kinds

unfoldable pub conns_of_types : List ℕ → Dict (List ℕ) → List ℕ
conns_of_types kinds [] = []
conns_of_types kinds ((kind, conns) ∷ rest) =
    let later = conns_of_types kinds rest in if matches kind kinds then conns ++ later else later

unfoldable pub get_by_connection_types : List ℕ → ConnectionPool → List ℕ
get_by_connection_types kinds pool = conns_of_types kinds pool.by_connection_type

unfoldable pub of_network : Heap → ℕ → List ℕ → List ℕ
of_network heap network_num [] = []
of_network heap network_num (conn ∷ conns) =
    let later = of_network heap network_num conns in
    if (heap conn).network_num == network_num then conn ∷ later else later

-- The types `ConnectionType.GATEWAY` and `ConnectionType.RELAY_PROXY`.
unfoldable pub get_connection_by_network_num : Heap → ℕ → ConnectionPool → List ℕ
get_connection_by_network_num heap network_num pool =
    of_network heap network_num (get_by_connection_types (72 ∷ 128 ∷ []) pool)

unfoldable pub items_from : ℕ → List (Option ℕ) → List (ℕ × ℕ)
items_from fileno [] = []
items_from fileno (none ∷ rest) = items_from (suc fileno) rest
items_from fileno (some conn ∷ rest) = (fileno, conn) ∷ items_from (suc fileno) rest

unfoldable pub items : ConnectionPool → List (ℕ × ℕ)
items pool = items_from 0 pool.by_fileno

-- `len(pool)`
unfoldable pub count : ConnectionPool → ℕ
count pool = length pool.by_ipport
