-- ===== src/Connections/Broadcast/Outgoing.antt =====
-- What every connection has to send after a broadcast of broadcast_service.py.
use mathlib.Core.Path.{subst}
use bxcommon.Buffers.Input.{Piece}
use bxcommon.Buffers.Output.Queue.{enqueue_msgbytes-IsValid}
use bxcommon.Buffers.Output.Unsent.{IsValid, unsent}
use bxcommon.Connections.Broadcast.Recipients.{
  recipients, recipients-put_peer, recipients-IsSetList, elem-recipients, elem-recipients_active,
  elem-conns_of_types, sent_by, addressed, for_broadcast-IsSetList, elem-for_broadcast_passed,
}
use bxcommon.Connections.Broadcast.{
  Peer, Peers, BroadcastOptions, is_active, put_peer, enqueue_msg_bytes, for_broadcast,
  get_connections_for_broadcast, broadcast_to_connections, broadcast,
}
use bxcommon.Connections.Pool.Queries.{get_by_connection_types}
use bxcommon.Connections.Pool.{ConnectionPool}
use bxcommon.Prelude.Bytes.{Bytes}
use bxcommon.Prelude.Result.{ok}
use bxcommon.Prelude.Sets.{elem, IsSetList}
use bxcommon.Prelude.{
  ℕ, ◌≡◌, ◌⊎◌, refl, sym, ap, ◌∙◌, Bool, true, false, ◌||◌, ◌&&◌, not, List, [], ◌∷◌, ◌++◌, ◌==◌,
  if◌then◌else◌, arith, append_assoc, append-nil, Bool-cases, inl, inr,
}

-- What a peer has been sent, and what is to be sent to it.
abbrev pub outgoing : Peer → Bytes
outgoing p = p.sent ++ unsent p.outputbuf

-- The socket moves bytes from the output buffer to what is sent, in order.
pub record KeepsBytes (send : Peer → Peer) : Type 0 where
  pub valid : (p : Peer) → IsValid p.outputbuf → IsValid (send p).outputbuf
  pub moved : (p : Peer) → IsValid p.outputbuf → outgoing (send p) ≡ outgoing p

module _ (send : Peer → Peer) (should_broadcast : Piece → ℕ → BroadcastOptions → Bool)
    (keeps : KeepsBytes send) where
  enqueue_msg_bytes-outgoing :
      (now : ℕ) (msg : Piece) (p : Peer)
      → p.alive ≡ true
      → IsValid p.outputbuf
      → (p' : Peer) × (enqueue_msg_bytes send should_broadcast now msg false p ≡ ok p')
        × IsValid p'.outputbuf
        × (outgoing p' ≡ outgoing p ++ msg.bytes)
  unfolding enqueue_msg_bytes
  enqueue_msg_bytes-outgoing now msg p alive v =
      let (b, run, v', moved) = enqueue_msgbytes-IsValid now msg p.outputbuf v in
      let queued : Peer = record p { outputbuf = b } in
      (
        send queued,
        rw (alive, run) refl,
        keeps.valid queued v',
        keeps.moved queued v'
            ∙ (ap (◌++◌ p.sent) moved ∙ sym (append_assoc p.sent (unsent p.outputbuf) msg.bytes)),
      )

  -- What the bytes of every connection are to be.
  abbrev Reached : Piece → List ℕ → Peers → Peers → Type 0
  Reached msg reached peers peers' =
      (c : ℕ)
      → IsValid (peers' c).outputbuf
        × (outgoing (peers' c) ≡ outgoing (peers c) ++ (if elem c reached then msg.bytes else []))

  put_peer-IsValid :
      (conn : ℕ) (p : Peer) (peers : Peers)
      → IsValid p.outputbuf
      → ((c : ℕ) → IsValid (peers c).outputbuf)
      → (c : ℕ) → IsValid (put_peer conn p peers c).outputbuf
  put_peer-IsValid conn p peers v' v c = elim (Bool-cases (c == conn)) [
    | inl same ↦ rw same v'
    | inr other ↦ rw other (v c)
  ]

  first-Reached :
      (msg : Piece) (conn : ℕ) (p : Peer) (reached : List ℕ) (peers peers' : Peers)
      → outgoing p ≡ outgoing (peers conn) ++ msg.bytes
      → elem conn reached ≡ false
      → Reached msg reached (put_peer conn p peers) peers'
      → Reached msg (conn ∷ reached) peers peers'
  first-Reached msg conn p reached peers peers' moved out done c =
      ((done c).0, by_conn (Bool-cases (c == conn)))
    where
      by_conn :
          ((c == conn) ≡ true) ⊎ ((c == conn) ≡ false)
          → outgoing (peers' c)
            ≡ outgoing (peers c) ++ (if (c == conn) || elem c reached then msg.bytes else [])
      by_conn (inr other) =
          let e = (done c).1 in
          let kept : put_peer conn p peers c ≡ peers c = rw other refl in
          rw other (e ∙ ap (λ q. outgoing q ++ (if elem c reached then msg.bytes else [])) kept)
      by_conn (inl same) =
          let at_conn : c ≡ conn = ground (arith, same) in
          let e = (done c).1 in
          let set_ : put_peer conn p peers c ≡ p = rw same refl in
          let quiet : elem c reached ≡ false = ap (λ x. elem x reached) at_conn ∙ out in
          rw same (
            e
            ∙ ap (λ b. outgoing (put_peer conn p peers c) ++ (if b then msg.bytes else [])) quiet
            ∙ append-nil (outgoing (put_peer conn p peers c))
            ∙ ap outgoing set_
            ∙ moved
            ∙ ap (λ x. outgoing (peers x) ++ msg.bytes) (sym at_conn))

  broadcast_to_connections-Reached :
      (now : ℕ) (msg : Piece) (options : BroadcastOptions) (conns : List ℕ) (peers : Peers)
      → options.prepend_to_queue ≡ false
      → IsSetList conns
      → ((c : ℕ) → IsValid (peers c).outputbuf)
      → (peers' : Peers) × (broadcast_to_connections send should_broadcast now msg options conns
            peers
          ≡ ok (recipients conns peers, peers'))
        × Reached msg (recipients conns peers) peers peers'
  unfolding broadcast_to_connections
  broadcast_to_connections-Reached now msg options [] peers o s v =
      (peers, refl, λ c. (v c, sym (append-nil (outgoing (peers c)))))
  broadcast_to_connections-Reached now msg options (conn ∷ conns) peers o s v =
      elim (Bool-cases (is_active (peers conn))) [
        | inr passive ↦
            let (peers', run, done) =
              broadcast_to_connections-Reached now msg options conns peers o s.1 v in
            (peers', simp (passive, run), simp passive done)
        | inl active ↦
            let (p, run, v', moved) =
              enqueue_msg_bytes-outgoing now msg (peers conn) (ground (arith, active)) (v conn) in
            let (peers', again, done) =
              broadcast_to_connections-Reached now msg options conns (put_peer conn p peers) o s.1
                (put_peer-IsValid conn p peers v' v) in
            let same = recipients-put_peer conn p conns peers s.0 in
            (
              peers',
              simp (active, o, run, again, same),
              simp active (
                  first-Reached msg conn p (recipients conns peers) peers peers' moved
                    (elem-recipients conn conns peers s.0)
                    (subst (λ r. Reached msg r (put_peer conn p peers) peers') same done)),
            )
      ]

  -- Where a message has gone: to whom it is addressed, once, and to nobody else.
  pub record Broadcasted (msg : Piece) (options : BroadcastOptions) (pool : ConnectionPool)
      (peers : Peers) (reached : List ℕ) (peers' : Peers) : Type 0 where
    pub once : IsSetList reached
    pub named : (c : ℕ) → elem c reached ≡ addressed should_broadcast msg options pool peers c
    pub valid : (c : ℕ) → IsValid (peers' c).outputbuf
    pub bytes :
        (c : ℕ)
        → outgoing (peers' c)
          ≡ outgoing (peers c)
            ++ (if addressed should_broadcast msg options pool peers c then msg.bytes else [])

  -- A broadcast at the end of the queues, with a pool that has every connection of the types once and
  -- valid output buffers, raises nothing. It gives, each once, the connections that the pool has under
  -- a type which shares a bit with one that is asked for, that should_broadcast lets pass, that are
  -- not the sender, and that are established and alive. The bytes of the message come at the end of
  -- what each of them has been sent or is to be sent; for every other connection that stays as it was.
  pub broadcast-Reached :
      (now : ℕ) (msg : Piece) (options : BroadcastOptions) (pool : ConnectionPool) (peers : Peers)
      → options.prepend_to_queue ≡ false
      → IsSetList (get_by_connection_types options.connection_types pool)
      → ((c : ℕ) → IsValid (peers c).outputbuf)
      → (reached : List ℕ) × (peers' : Peers) × (broadcast send should_broadcast now msg options
            pool peers
          ≡ ok (reached, peers'))
        × Broadcasted msg options pool peers reached peers'
  unfolding broadcast get_connections_for_broadcast get_by_connection_types
  broadcast-Reached now msg options pool peers o s v =
      let kinds = options.connection_types in
      let conns = get_by_connection_types kinds pool in
      let passed = for_broadcast send should_broadcast msg options conns in
      let passed_once = for_broadcast-IsSetList send should_broadcast msg options conns s in
      let (peers', run, done) =
        broadcast_to_connections-Reached now msg options passed peers o passed_once v in
      let who : (c : ℕ)
          → elem c (recipients passed peers) ≡ addressed should_broadcast msg options pool peers c =
        λ c.
          elem-recipients_active c passed peers
          ∙ ap (λ b. b && is_active (peers c))
              (elem-for_broadcast_passed send should_broadcast c msg options conns
                ∙ ap
                    (λ b.
                      b
                      && (should_broadcast msg c options
                          && not (sent_by options.broadcasting_connection c)))
                    (elem-conns_of_types c kinds pool.by_connection_type)) in
      (
        recipients passed peers,
        peers',
        run,
        record {
          once = recipients-IsSetList passed peers passed_once;
          named = who;
          valid = λ c. (done c).0;
          bytes = λ c.
              (done c).1 ∙ ap (λ b. outgoing (peers c) ++ (if b then msg.bytes else [])) (who c);
        },
      )
