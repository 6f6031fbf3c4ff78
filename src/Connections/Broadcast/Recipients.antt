-- ===== src/Connections/Broadcast/Recipients.antt =====
-- The connections that a broadcast of broadcast_service.py goes to, written on the pool, and the lists
-- that the service goes through.
use Prim.Native.Nat.{bit_and}
use bxcommon.Buffers.Input.{Piece}
use bxcommon.Connections.Broadcast.{
  Peer, Peers, BroadcastOptions, is_active, is_broadcaster, put_peer, for_broadcast,
}
use bxcommon.Connections.Pool.Queries.{conns_of_types, matches}
use bxcommon.Connections.Pool.{ConnectionPool}
use bxcommon.Prelude.Dict.{Dict}
use bxcommon.Prelude.Sets.{elem, elem-append, IsSetList}
use bxcommon.Prelude.{
  ℕ, ◌≡◌, refl, ap, Bool, false, ◌||◌, ◌&&◌, not, Option, none, some, List, [], ◌∷◌, ◌==◌,
  if◌then◌else◌, arith, Bool-cases, inl, inr,
}

abbrev pub recipients : List ℕ → Peers → List ℕ
recipients [] peers = []
recipients (conn ∷ conns) peers =
    let later = recipients conns peers in if is_active (peers conn) then conn ∷ later else later

pub elem-recipients :
    (c : ℕ) (conns : List ℕ) (peers : Peers)
    → elem c conns ≡ false
    → elem c (recipients conns peers) ≡ false
elem-recipients c [] peers h = refl
elem-recipients c (conn ∷ conns) peers h = ground (arith, h, elem-recipients c conns peers)

pub recipients-IsSetList :
    (conns : List ℕ) (peers : Peers) → IsSetList conns → IsSetList (recipients conns peers)
recipients-IsSetList [] peers s = tt
recipients-IsSetList (conn ∷ conns) peers s =
    ground (arith, elem-recipients conn conns peers s.0, recipients-IsSetList conns peers s.1)

-- A test of the first is passed on to what is equal to it.
elem_filtered :
    (c conn : ℕ) (test : ℕ → Bool) (found : Bool)
    → (if test conn then (c == conn) || (found && test c) else found && test c)
      ≡ (((c == conn) || found) && test c)
elem_filtered c conn test found = elim (Bool-cases (c == conn)) [
  | inl same ↦
      let e : test conn ≡ test c = ap test (ground (arith, same)) in rw (e, same) (ground arith)
  | inr other ↦ rw other (ground arith)
]

pub elem-recipients_active :
    (c : ℕ) (conns : List ℕ) (peers : Peers)
    → elem c (recipients conns peers) ≡ (elem c conns && is_active (peers c))
elem-recipients_active c [] peers = refl
elem-recipients_active c (conn ∷ conns) peers = ground (
  arith,
  elem-recipients_active c conns peers,
  elem_filtered c conn (λ x. is_active (peers x)) (elem c conns),
)

abbrev pub any_shared : ℕ → List ℕ → Bool
any_shared kind [] = false
any_shared kind (other ∷ others) = not (bit_and kind other == 0) || any_shared kind others

-- A connection under one of the types, which share a bit with a type that is asked for.
abbrev pub of_types : ℕ → List ℕ → Dict (List ℕ) → Bool
of_types c kinds [] = false
of_types c kinds ((kind, conns) ∷ rest) =
    (any_shared kind kinds && elem c conns) || of_types c kinds rest

matches-any_shared : (kind : ℕ) (kinds : List ℕ) → matches kind kinds ≡ any_shared kind kinds
unfolding matches
matches-any_shared kind [] = refl
matches-any_shared kind (other ∷ others) =
    ap (◌||◌ (not (bit_and kind other == 0))) (matches-any_shared kind others)

pub elem-conns_of_types :
    (c : ℕ) (kinds : List ℕ) (d : Dict (List ℕ))
    → elem c (conns_of_types kinds d) ≡ of_types c kinds d
unfolding conns_of_types
elem-conns_of_types c kinds [] = refl
elem-conns_of_types c kinds ((kind, conns) ∷ rest) = ground (
  arith,
  elem-conns_of_types c kinds rest,
  matches-any_shared kind kinds,
  elem-append c conns (conns_of_types kinds rest),
)

abbrev pub sent_by : Option ℕ → ℕ → Bool
sent_by none c = false
sent_by (some sender) c = c == sender

-- The connections that a message goes to, of those of a pool.
abbrev pub addressed :
    (Piece → ℕ → BroadcastOptions → Bool)
    → Piece
    → BroadcastOptions
    → ConnectionPool
    → Peers
    → ℕ
    → Bool
addressed should_broadcast msg options pool peers c =
    of_types c options.connection_types pool.by_connection_type
    && (should_broadcast msg c options && not (sent_by options.broadcasting_connection c))
    && ((peers c).established && (peers c).alive)

pub recipients-put_peer :
    (conn : ℕ) (p : Peer) (conns : List ℕ) (peers : Peers)
    → elem conn conns ≡ false
    → recipients conns (put_peer conn p peers) ≡ recipients conns peers
recipients-put_peer conn p [] peers h = refl
recipients-put_peer conn p (c ∷ conns) peers h =
    let other : (c == conn) ≡ false = ground (arith, h) in
    rw (other, recipients-put_peer conn p conns peers (ground (arith, h))) refl

module _ (send : Peer → Peer) (should_broadcast : Piece → ℕ → BroadcastOptions → Bool) where
  elem-for_broadcast :
      (c : ℕ) (msg : Piece) (options : BroadcastOptions) (conns : List ℕ)
      → elem c conns ≡ false
      → elem c (for_broadcast send should_broadcast msg options conns) ≡ false
  unfolding for_broadcast
  elem-for_broadcast c msg options [] h = refl
  elem-for_broadcast c msg options (conn ∷ conns) h =
      ground (arith, h, elem-for_broadcast c msg options conns)

  pub for_broadcast-IsSetList :
      (msg : Piece) (options : BroadcastOptions) (conns : List ℕ)
      → IsSetList conns
      → IsSetList (for_broadcast send should_broadcast msg options conns)
  unfolding for_broadcast
  for_broadcast-IsSetList msg options [] s = tt
  for_broadcast-IsSetList msg options (conn ∷ conns) s = ground (
    arith,
    elem-for_broadcast conn msg options conns s.0,
    for_broadcast-IsSetList msg options conns s.1,
  )

  pub elem-for_broadcast_passed :
      (c : ℕ) (msg : Piece) (options : BroadcastOptions) (conns : List ℕ)
      → elem c (for_broadcast send should_broadcast msg options conns) ≡ (
          elem c conns
          && (should_broadcast msg c options && not (sent_by options.broadcasting_connection c)))
  unfolding for_broadcast
  elem-for_broadcast_passed c msg options [] = refl
  elem-for_broadcast_passed c msg options (conn ∷ conns) = ground (
    arith,
    elem-for_broadcast_passed c msg options conns,
    elem_filtered c conn
        (λ x.
          should_broadcast msg x options && not (is_broadcaster x options.broadcasting_connection))
        (elem c conns),
  )
