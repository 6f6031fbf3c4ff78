-- ===== src/Connections/Pool/Added.antt =====
-- `add` of `ConnectionPool`.
use bxcommon.Connections.Pool.Grown.{
  IsSized, grown, grown-IsSized, extend_fileno-grown, get_by_fileno-grown,
}
use bxcommon.Prelude.Dict.{lookup, insert, contains, lookup-insert}
use bxcommon.Prelude.Result.{ok}
use bxcommon.Prelude.{
  ℕ, suc, ◌+◌, ◌<◌, ◌≡◌, ◌≢◌, refl, sym, ◌∙◌, true, false, Option, none, some, ltb, leb, length,
  set, arith, length-set, get_elem?-set_self, get_elem?-set_ne,
}
use bxcommon.Connections.Pool.{Heap, ConnectionPool, ipport, set_fileno, index_conn, add}
use bxcommon.Connections.Pool.Queries.{get_by_fileno, get_by_ipport}

-- The pool that `add` makes, once there is room.
abbrev pub added : Heap → ℕ → ℕ → ℕ → ℕ → ConnectionPool → ConnectionPool
added heap fileno ip port conn pool =
    index_conn heap ip port conn (record pool { by_fileno = set pool.by_fileno fileno (some conn) })

pub add_run :
    (heap : Heap) (fileno ip port conn : ℕ) (pool : ConnectionPool)
    → IsSized pool
    → lookup (ipport ip port) pool.by_ipport ≡ none
    → (n : ℕ) × (add heap fileno ip port conn pool
        ≡ ok (added heap fileno ip port conn (grown n pool)))
      × (fileno < pool.len_fileno + n)
unfolding add set_fileno
add_run heap fileno ip port conn pool sized free =
    let (n, run, room) = extend_fileno-grown (suc fileno) fileno pool (omega arith) in
    let fits : ltb fileno (length (grown n pool).by_fileno) ≡ true =
      ground (arith, grown-IsSized n pool sized, room) in
    let absent : contains (ipport ip port) pool.by_ipport ≡ false = ground (arith, free) in
    (n, rw (absent, run, fits) refl, room)

-- Adding a connection under a free address raises nothing, whatever its file number: the connection is
-- then found by its file number and by its address, whatever node id is asked for, and every other
-- file number has the connection that it had.
pub add_lem :
    (heap : Heap) (fileno ip port conn : ℕ) (pool : ConnectionPool)
    → IsSized pool
    → lookup (ipport ip port) pool.by_ipport ≡ none
    → (pool' : ConnectionPool) × (add heap fileno ip port conn pool ≡ ok pool')
      × IsSized pool'
      × (get_by_fileno fileno pool' ≡ ok (some conn))
      × ((j : ℕ) → j ≢ fileno → get_by_fileno j pool' ≡ get_by_fileno j pool)
      × ((node_id : Option ℕ) → get_by_ipport ip port node_id pool' ≡ ok conn)
unfolding index_conn get_by_fileno get_by_ipport
add_lem heap fileno ip port conn pool sized free =
    let (n, run, room) = add_run heap fileno ip port conn pool sized free in
    let larger = grown n pool in
    let sized' = grown-IsSized n pool sized in
    let inside : leb larger.len_fileno fileno ≡ false = ground (arith, room) in
    let here =
      get_elem?-set_self larger.by_fileno fileno (some conn) (omega (arith, sized', room)) in
    let there = lookup-insert (ipport ip port) (ipport ip port) conn pool.by_ipport in
    let found : lookup (ipport ip port) (insert (ipport ip port) conn pool.by_ipport) ≡ some conn =
      ground (arith, there) in
    (
      added heap fileno ip port conn larger,
      run,
      length-set larger.by_fileno fileno (some conn) ∙ sized',
      rw (inside, here) refl,
      λ j other.
          (let kept = get_elem?-set_ne larger.by_fileno (some conn) (λ e. other (sym e)) in
            rw kept (get_by_fileno-grown n j pool sized)),
      λ node_id. rw (get_by_ipport, found) refl,
    )
