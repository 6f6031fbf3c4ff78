-- ===== src/Connections/Processing/Stream.antt =====
-- The loop over a buffer that holds messages, one behind the other, and then the beginning of another
-- at most.
use mathlib.Core.Path.{subst, subst₂}
use bxcommon.Buffers.Input.{InputBuffer}
use bxcommon.Buffers.Input.Contents.{contents, IsCounted}
use bxcommon.Connections.Processing.{Connection, Flow, again, stop, raised, Protocol, Session}
use bxcommon.Connections.Processing.Body.{process_next, process_loop}
use bxcommon.Connections.Processing.Errors.{Ended}
use bxcommon.Connections.Processing.Frame.{Begins}
use bxcommon.Connections.Processing.Round.{process_next_full}
use bxcommon.Connections.Processing.Partial.{Glimpse, whole, partial, look, process_next_partial}
use bxcommon.Connections.Processing.Spec.{IsSound, served}
use bxcommon.Prelude.Bytes.{Bytes}
use bxcommon.Prelude.Result.{Result, ok, err}
use bxcommon.Prelude.{
  ℕ, zero, suc, ◌<◌, ◌≡◌, refl, sym, ap, ◌∙◌, Bool, true, false, Option, some, List, [], ◌∷◌, ◌++◌,
  length, if◌then◌else◌, arith, Bool-cases, inl, inr,
}

pub record Packet : Type 0 where
  pub msg_type : Bytes
  pub payload_len : ℕ
  pub bytes : Bytes

-- The bytes of packets before those of `tail`.
abbrev pub stream : List Packet → Bytes → Bytes
stream [] tail = tail
stream (q ∷ ps) tail = q.bytes ++ stream ps tail

module _ {App : Type 0} (p : Protocol App)
    (verdict : Bool → Option Bytes → ℕ → Option ℕ → Bytes → Result (Unit {0})) where
  -- Each packet is a whole message.
  abbrev pub AreWhole : List Packet → Bytes → Type 0
  AreWhole [] tail = Unit {0}
  AreWhole (q ∷ ps) tail =
      Begins p q.msg_type q.payload_len q.bytes (stream ps tail) (stream (q ∷ ps) tail)
      × AreWhole ps tail

  -- No whole message, and none that the validator objects to.
  pub record IsWaiting (tail : Bytes) : Type 0 where
    pub no_message : (t : Bytes) (n : ℕ) (bytes rest : Bytes) → Begins p t n bytes rest tail → ⊥
    pub no_objection :
        (command : Option Bytes) (payload_length : Option ℕ)
        → Glimpse p tail command payload_length
        → verdict false command p.header_size payload_length tail ≡ ok tt

  -- The packets are served in their order, each once, as long as the connection is alive and open.
  unfoldable pub serve_all : List Packet → Bytes → Session App → Flow × Session App
  serve_all [] tail s = (again, s)
  serve_all (q ∷ ps) tail s =
      let (flow, s') =
        served p
          (verdict true (some q.msg_type) p.header_size (some q.payload_len)
            (q.bytes ++ stream ps tail))
          q.msg_type q.bytes s in
      let later = serve_all ps tail s' in
      if s.alive
      then elim flow [ again ↦ later | stop ↦ (stop, s') | raised e ↦ (raised e, s') ]
      else (stop, s)

  -- How the call ends for a flow.
  abbrev pub call_result : Flow → Result (Unit {0})
  call_result again = ok tt
  call_result stop = ok tt
  call_result (raised e) = err e

  -- The loop ended with this flow and session, and left `tail` if it went through.
  abbrev pub Delivers :
      Bytes → Flow × Session App → Option (Result (Unit {0}) × Connection App) → Type 0
  Delivers tail outcome end =
      (b : InputBuffer) × (end
        ≡ some (call_result outcome.0, record { inputbuf = b; session = outcome.1 }))
      × (outcome.0 ≡ again → contents b ≡ tail)

  module _ (sound : IsSound p verdict) where
    ends_dead : (c : Connection App) → c.session.alive ≡ false → process_next p c ≡ (stop, c)
    unfolding process_next
    ends_dead c dead = ground (arith, dead)

    waits :
        (tail : Bytes) (c : Connection App)
        → IsCounted c.inputbuf
        → contents c.inputbuf ≡ tail
        → IsWaiting tail
        → (b : InputBuffer) × (process_next p c ≡ (stop, record c { inputbuf = b }))
          × (contents b ≡ tail)
    waits tail c valid e waiting = elim (Bool-cases c.session.alive) [
      | inr dead ↦ (c.inputbuf, ends_dead c dead, e)
      | inl alive ↦ elim (look p sound c valid) [
        | whole t n bytes rest begins ↦
            absurd (waiting.no_message t n bytes rest (subst (Begins p t n bytes rest) e begins))
        | partial command payload_length b run same counted glimpse ↦
            let (b', end, kept) =
              (process_next_partial p sound command payload_length c b alive valid run same
                  counted).1
                (ap (verdict false command p.header_size payload_length) e
                  ∙ waiting.no_objection command payload_length
                      (subst (λ all. Glimpse p all command payload_length) e glimpse)) in
            (b', end, kept.same ∙ e)
      ]
    ]

    -- A buffer of whole messages and a tail that is not one, to which the validator has no objection: the
    -- loop serves the messages in order, each once, as long as the connection is alive and open, and
    -- leaves the tail where it went through.
    pub process_loop-stream :
        (fuel : ℕ) (ps : List Packet) (tail : Bytes) (c : Connection App)
        → length ps < fuel
        → IsCounted c.inputbuf
        → contents c.inputbuf ≡ stream ps tail
        → AreWhole ps tail
        → IsWaiting tail
        → Delivers tail (serve_all ps tail c.session) (process_loop p fuel c)
    unfolding process_loop serve_all
    process_loop-stream zero ps tail c h valid e are waiting = absurd (omega arith)
    process_loop-stream (suc fuel) [] tail c h valid e are waiting =
        let (b, run, left) = waits tail c valid e waiting in (b, ground (arith, run), λ _. left)
    process_loop-stream (suc fuel) (q ∷ ps) tail c h valid e are waiting =
        by_alive c.session.alive refl
          (λ c' v e'. process_loop-stream fuel ps tail c' (omega arith) v e' are.1 waiting)
      where
        by_flow :
            (r : Ended p
              (served p
                (verdict true
                  (some q.msg_type)
                  p.header_size
                  (some q.payload_len)
                  (q.bytes ++ stream ps tail))
                q.msg_type
                q.bytes
                c.session)
              (stream ps tail)
              (process_next p c))
            → ((c' : Connection App)
                → IsCounted c'.inputbuf
                → contents c'.inputbuf ≡ stream ps tail
                → Delivers tail (serve_all ps tail c'.session) (process_loop p fuel c'))
            → (o : Flow × Session App) → (f : Flow) → o.0 ≡ f
            → process_next p c ≡ (o.0, record { inputbuf = r.left; session = o.1 })
            → (o.0 ≡ again → contents r.left ≡ stream ps tail)
            → Delivers tail
                (elim f [
                  | again ↦ serve_all ps tail o.1
                  | stop ↦ (stop, o.1)
                  | raised e ↦ (raised e, o.1)
                ])
                (elim f [
                  | again ↦ process_loop p fuel (record { inputbuf = r.left; session = o.1 })
                  | stop ↦ some (ok tt, record { inputbuf = r.left; session = o.1 })
                  | raised e ↦ some (err e, record { inputbuf = r.left; session = o.1 })
                ])
        by_flow r later o again q run left =
            later (record { inputbuf = r.left; session = o.1 }) r.counted (left q)
        by_flow r later o stop q run left = (r.left, refl, λ a. ground (arith, a))
        by_flow r later o (raised x) q run left = (r.left, refl, λ a. ground (arith, a))

        by_alive :
            (living : Bool)
            → c.session.alive ≡ living
            → ((c' : Connection App)
                → IsCounted c'.inputbuf
                → contents c'.inputbuf ≡ stream ps tail
                → Delivers tail (serve_all ps tail c'.session) (process_loop p fuel c'))
            → Delivers tail (serve_all (q ∷ ps) tail c.session) (process_loop p (suc fuel) c)
        by_alive false dead later =
            let end = ends_dead c dead in
            rw (dead, serve_all) (c.inputbuf, ground (arith, end), λ a. ground (arith, a))
        by_alive true alive later =
            let o : Flow × Session App =
              served p
                (verdict true (some q.msg_type) p.header_size (some q.payload_len)
                  (q.bytes ++ stream ps tail))
                q.msg_type q.bytes c.session in
            let begins =
              subst (Begins p q.msg_type q.payload_len q.bytes (stream ps tail)) (sym e) are.0 in
            let r =
              subst
                (λ all.
                  Ended p
                    (served p
                      (verdict true (some q.msg_type) p.header_size (some q.payload_len) all)
                      q.msg_type q.bytes c.session)
                    (stream ps tail) (process_next p c))
                e
                (process_next_full p sound q.msg_type q.payload_len q.bytes (stream ps tail) c alive
                  valid begins) in
            let end : Connection App = record { inputbuf = r.left; session = o.1 } in
            let run : process_next p c ≡ (o.0, end) = λ i. (r.flow i, r.ends i) in
            let serves : serve_all (q ∷ ps) tail c.session ≡ (elim o.0 [
              | again ↦ serve_all ps tail o.1
              | stop ↦ (stop, o.1)
              | raised x ↦ (raised x, o.1)
            ]) =
              ground (arith, alive) in
            let loops : process_loop p (suc fuel) c ≡ (elim o.0 [
              | again ↦ process_loop p fuel end
              | stop ↦ some (ok tt, end)
              | raised x ↦ some (err x, end)
            ]) =
              ground (arith, run) in
            subst₂ (Delivers tail) (sym serves) (sym loops) (by_flow r later o o.0 refl run r.taken)
