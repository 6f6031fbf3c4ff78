-- ===== src/Connections/Pool/Deleted.antt =====
-- `delete` of `ConnectionPool`, of a connection that was added and of others.
use bxcommon.Connections.Pool.Added.{added, add_run}
use bxcommon.Connections.Pool.Grown.{IsSized, grown, grown-IsSized, get_by_fileno-grown}
use bxcommon.Prelude.Dict.{
  Dict, lookup, insert, erase, get_or, lookup-insert, erase-insert, insert-insert, insert-lookup,
  erase_absent, lookup-erase,
}
use bxcommon.Prelude.Int.{ℤ, pos, ◌+ℤ◌}
use bxcommon.Prelude.Result.{>>=-eq-ok, ok, err, key_error, ◌>>=◌}
use bxcommon.Prelude.Sets.{elem, discard}
use bxcommon.Prelude.{
  ℕ, suc, ◌<◌, ◌≡◌, ◌≢◌, ◌⊎◌, refl, ap, ◌∙◌, true, false, none, some, List, [], ◌∷◌, ◌++◌, ltb,
  ◌==◌, length, set, get_elem?, arith, Option-cases, inl, inr, length-append, length-set, set-set,
  set-get_elem?,
}
use bxcommon.Connections.Pool.{
  Heap, ConnectionPool, ipport, set_fileno, index_conn, add, delete_ipport, delete_connection_type,
  is_one, decrement_count, delete_node_id, delete,
}
use bxcommon.Connections.Pool.Queries.{get_by_fileno, get_by_node_id}

-- What a pool has before a connection comes: a free address, an empty entry for its file number, no
-- empty list of its type and the connection not in it, a count that is missing or above 0, and its
-- node id not indexed.
pub record Ready (heap : Heap) (conn : ℕ) (pool : ConnectionPool) : Type 0 where
  pub sized : IsSized pool
  pub free : lookup (ipport (heap conn).peer_ip (heap conn).peer_port) pool.by_ipport ≡ none
  pub vacant : get_by_fileno (heap conn).file_no pool ≡ ok none
  pub kinds :
      (lookup (heap conn).connection_type pool.by_connection_type ≡ none)
      ⊎ ((first : ℕ) × (conns : List ℕ) × (lookup
              (heap conn).connection_type
              pool.by_connection_type
            ≡ some (first ∷ conns))
          × (elem conn (first ∷ conns) ≡ false))
  pub counts :
      (lookup (heap conn).peer_ip pool.count_conn_by_ip ≡ none)
      ⊎ ((n : ℕ) × (lookup (heap conn).peer_ip pool.count_conn_by_ip ≡ some (pos (suc n))))
  pub unindexed : (id : ℕ) → (heap conn).peer_id ≡ some id → lookup id pool.by_node_id ≡ none

discard-snoc : (x : ℕ) (xs : List ℕ) → elem x xs ≡ false → discard x (xs ++ (x ∷ [])) ≡ xs
discard-snoc x [] h = ground arith
discard-snoc x (y ∷ xs) h = ground (arith, discard-snoc x xs)

elem-snoc : (x : ℕ) (xs : List ℕ) → elem x (xs ++ (x ∷ [])) ≡ true
elem-snoc x [] = ground arith
elem-snoc x (y ∷ xs) = ground (arith, elem-snoc x xs)

-- The list of the type, after the connection came and went.
delete_connection_type-added :
    (heap : Heap) (conn : ℕ) (kinds : Dict (List ℕ)) (pool : ConnectionPool)
    → (lookup (heap conn).connection_type kinds ≡ none)
      ⊎ ((first : ℕ) × (conns : List ℕ) × (lookup (heap conn).connection_type kinds
            ≡ some (first ∷ conns))
          × (elem conn (first ∷ conns) ≡ false))
    → pool.by_connection_type
      ≡ insert
          (heap conn).connection_type
          (get_or [] (lookup (heap conn).connection_type kinds) ++ (conn ∷ []))
          kinds
    → delete_connection_type heap conn pool ≡ ok (record pool { by_connection_type = kinds })
unfolding delete_connection_type
delete_connection_type-added heap conn kinds pool cases e =
    let kind = (heap conn).connection_type in
    let conns' = get_or [] (lookup kind kinds) ++ (conn ∷ []) in
    let there : lookup kind pool.by_connection_type ≡ some conns' =
      ap (lookup kind) e ∙ ground (arith, lookup-insert kind kind conns' kinds) in
    elim cases [
      | inl missing ↦
          let gone : erase kind pool.by_connection_type ≡ kinds =
            ap (erase kind) e ∙ erase-insert kind conns' kinds missing in
          ground (arith, there, missing, gone)
      | inr (first, conns, here, apart) ↦
          let len : (suc (length (conns ++ (conn ∷ []))) == 1) ≡ false =
            ground (arith, length-append conns (conn ∷ [])) in
          let back : insert kind (first ∷ conns) pool.by_connection_type ≡ kinds =
            ap (insert kind (first ∷ conns)) e
            ∙ insert-insert kind conns' (first ∷ conns) kinds
            ∙ insert-lookup kind (first ∷ conns) kinds here in
          let without = discard-snoc conn (first ∷ conns) apart in
          let within = elem-snoc conn (first ∷ conns) in
          ground (arith, there, here, len, back, without, within)
    ]

decrement_count-added :
    (heap : Heap) (conn : ℕ) (counts : Dict ℤ) (pool : ConnectionPool)
    → (lookup (heap conn).peer_ip counts ≡ none)
      ⊎ ((n : ℕ) × (lookup (heap conn).peer_ip counts ≡ some (pos (suc n))))
    → pool.count_conn_by_ip
      ≡ insert
          (heap conn).peer_ip
          (get_or (pos 0) (lookup (heap conn).peer_ip counts) +ℤ pos 1)
          counts
    → decrement_count heap conn pool ≡ record pool { count_conn_by_ip = counts }
unfolding decrement_count is_one
decrement_count-added heap conn counts pool cases e =
    let ip = (heap conn).peer_ip in
    let c = get_or (pos 0) (lookup ip counts) +ℤ pos 1 in
    let there : lookup ip pool.count_conn_by_ip ≡ some c =
      ap (lookup ip) e ∙ ground (arith, lookup-insert ip ip c counts) in
    elim cases [
      | inl missing ↦
          let gone : erase ip pool.count_conn_by_ip ≡ counts =
            ap (erase ip) e ∙ erase-insert ip c counts missing in
          ground (arith, there, missing, gone)
      | inr (n, here) ↦
          let back : insert ip (pos (suc n)) pool.count_conn_by_ip ≡ counts =
            ap (insert ip (pos (suc n))) e
            ∙ insert-insert ip c (pos (suc n)) counts
            ∙ insert-lookup ip (pos (suc n)) counts here in
          ground (arith, there, here, back)
    ]

delete_node_id-absent :
    (heap : Heap) (conn : ℕ) (pool : ConnectionPool)
    → ((id : ℕ) → (heap conn).peer_id ≡ some id → lookup id pool.by_node_id ≡ none)
    → delete_node_id heap conn pool ≡ pool
unfolding delete_node_id
delete_node_id-absent heap conn pool h = elim (Option-cases (heap conn).peer_id) [
  | inl e ↦ rw (delete_node_id, e) refl
  | inr (id, e) ↦
      let same : erase id pool.by_node_id ≡ pool.by_node_id =
        erase_absent id pool.by_node_id (h id e) in
      ground (arith, e, same)
]

vacant_entry :
    (fileno : ℕ) (pool : ConnectionPool)
    → get_by_fileno fileno pool ≡ ok none
    → fileno < pool.len_fileno
    → get_elem? pool.by_fileno fileno ≡ some none
unfolding get_by_fileno
vacant_entry fileno pool vacant inside = elim (Option-cases (get_elem? pool.by_fileno fileno)) [
  | inl e ↦ absurd (ground (arith, e, vacant))
  | inr (entry, e) ↦ ground (arith, e, vacant)
]

-- The entry of the file number is empty again.
set_fileno-added :
    (heap : Heap) (fileno ip port conn : ℕ) (pool : ConnectionPool)
    → IsSized pool
    → fileno < pool.len_fileno
    → get_by_fileno fileno pool ≡ ok none
    → set_fileno fileno none (added heap fileno ip port conn pool)
      ≡ ok (index_conn heap ip port conn pool)
unfolding set_fileno index_conn
set_fileno-added heap fileno ip port conn pool sized inside vacant =
    let entries = pool.by_fileno in
    let fits : ltb fileno (length (set entries fileno (some conn))) ≡ true =
      ground (arith, length-set entries fileno (some conn), sized, inside) in
    let same : set (set entries fileno (some conn)) fileno none ≡ entries =
      set-set entries fileno (some conn) none
      ∙ set-get_elem? entries fileno none (vacant_entry fileno pool vacant inside) in
    rw (fits, same) refl

-- The address is free again.
delete_ipport-added :
    (heap : Heap) (conn : ℕ) (pool : ConnectionPool)
    → lookup (ipport (heap conn).peer_ip (heap conn).peer_port) pool.by_ipport ≡ none
    → delete_ipport heap conn (index_conn heap (heap conn).peer_ip (heap conn).peer_port conn pool)
      ≡ record (index_conn heap (heap conn).peer_ip (heap conn).peer_port conn pool) {
        by_ipport = pool.by_ipport;
      }
unfolding delete_ipport index_conn
delete_ipport-added heap conn pool free =
    let key = ipport (heap conn).peer_ip (heap conn).peer_port in
    let found : lookup key (insert key conn pool.by_ipport) ≡ some conn =
      ground (arith, lookup-insert key key conn pool.by_ipport) in
    let gone = erase-insert key conn pool.by_ipport free in
    let own : ((heap conn).file_no == (heap conn).file_no) ≡ true = ground arith in
    rw (delete_ipport, found, own, gone) refl

-- A connection that comes to a pool that is ready for it, and is deleted, leaves the pool as it was,
-- but for empty entries at the end of the list by file number.
pub delete-add :
    (heap : Heap) (conn : ℕ) (pool : ConnectionPool)
    → Ready heap conn pool
    → (n : ℕ) × ((add heap (heap conn).file_no (heap conn).peer_ip (heap conn).peer_port conn pool
          >>= delete heap conn)
        ≡ ok (grown n pool))
unfolding delete index_conn
delete-add heap conn pool r =
    let c = heap conn in
    let (n, run, room) = add_run heap c.file_no c.peer_ip c.peer_port conn pool r.sized r.free in
    let g = grown n pool in
    let vacant = get_by_fileno-grown n c.file_no pool r.sized ∙ r.vacant in
    let indexed = index_conn heap c.peer_ip c.peer_port conn g in
    let p1 : ConnectionPool = record indexed { by_ipport = pool.by_ipport } in
    let p2 : ConnectionPool = record p1 { by_connection_type = pool.by_connection_type } in
    let first =
      set_fileno-added heap c.file_no c.peer_ip c.peer_port conn g (grown-IsSized n pool r.sized)
        room vacant in
    let second = delete_ipport-added heap conn g r.free in
    let third = delete_connection_type-added heap conn pool.by_connection_type p1 r.kinds refl in
    let fourth = decrement_count-added heap conn pool.count_conn_by_ip p2 r.counts refl in
    let last = delete_node_id-absent heap conn g r.unindexed in
    (
      n,
      ap (λ a. a >>= delete heap conn) run
          ∙ ap
              (λ a. a >>= λ q. delete_connection_type heap conn (delete_ipport heap conn q) >>= λ t.
                ok (delete_node_id heap conn (decrement_count heap conn t)))
              first
          ∙ ap
              (λ q. delete_connection_type heap conn q >>= λ t.
                ok (delete_node_id heap conn (decrement_count heap conn t)))
              second
          ∙ ap (λ a. a >>= λ t. ok (delete_node_id heap conn (decrement_count heap conn t))) third
          ∙ ap (λ t. ok (delete_node_id heap conn t)) fourth
          ∙ ap ok last,
    )

-- After a delete that raises nothing, the node id of the connection is not indexed, even if it was
-- indexed for another connection.
pub delete_unindexes :
    (heap : Heap) (conn id : ℕ) (pool pool' : ConnectionPool)
    → (heap conn).peer_id ≡ some id
    → id ≢ 0
    → delete heap conn pool ≡ ok pool'
    → get_by_node_id id pool' ≡ err key_error
unfolding delete delete_node_id get_by_node_id
delete_unindexes heap conn id pool pool' e some_id run =
    let (p1, _, run1) =
      >>=-eq-ok (set_fileno (heap conn).file_no none pool)
        (λ p. delete_connection_type heap conn (delete_ipport heap conn p) >>= λ q.
          ok (delete_node_id heap conn (decrement_count heap conn q)))
        run in
    let (p2, _, run2) =
      >>=-eq-ok (delete_connection_type heap conn (delete_ipport heap conn p1))
        (λ q. ok (delete_node_id heap conn (decrement_count heap conn q))) run1 in
    let d = decrement_count heap conn p2 in
    let gone : lookup id (erase id d.by_node_id) ≡ none =
      ground (arith, lookup-erase id id d.by_node_id) in
    ground (arith, run2, e, some_id, gone)
