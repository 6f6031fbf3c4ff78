-- ===== src/Connections/Processing/Ends.antt =====
-- The loop comes to an end.
use bxcommon.Buffers.Input.Contents.{contents, IsCounted}
use bxcommon.Connections.Processing.{Connection, Flow, again, stop, raised, Protocol}
use bxcommon.Connections.Processing.Body.{process_next, process_loop, process_message}
use bxcommon.Connections.Processing.Round.{process_next_full}
use bxcommon.Connections.Processing.Spec.{IsSound}
use bxcommon.Prelude.Bytes.{Bytes}
use bxcommon.Prelude.Result.{Result, ok, err}
use bxcommon.Prelude.{
  ℕ, zero, suc, ◌<◌, ◌≡◌, refl, sym, ap, ◌∙◌, Bool, Option, some, length, arith, length-append,
  Bool-cases, inl, inr,
}
use bxcommon.Connections.Processing.Partial.{whole, partial, look, process_next_partial}

module _ {App : Type 0} (p : Protocol App)
    {verdict : Bool → Option Bytes → ℕ → Option ℕ → Bytes → Result (Unit {0})}
    (sound : IsSound p verdict) where
  -- A round after which the loop goes on takes bytes off the buffer.
  pub process_next_shrinks :
      (c : Connection App)
      → IsCounted c.inputbuf
      → (process_next p c).0 ≡ again
      → IsCounted (process_next p c).1.inputbuf
        × (length (contents (process_next p c).1.inputbuf) < length (contents c.inputbuf))
  unfolding process_next
  process_next_shrinks c valid on = elim (Bool-cases c.session.alive) [
    | inr dead ↦ ground (arith, dead, on)
    | inl alive ↦ elim (look p sound c valid) [
      | whole t n bytes rest begins ↦
          let r = process_next_full p sound t n bytes rest c alive valid begins in
          let left = r.taken (sym r.flow ∙ on) in
          (
            ground (arith, r.ends, r.counted),
            omega (
              arith,
              ap (λ (d : Connection App). length (contents d.inputbuf)) r.ends,
              ap length left,
              ap length begins.whole,
              length-append bytes rest,
              begins.size,
              sound.some_header,
            ),
          )
      | partial command payload_length b run same counted _ ↦ absurd (
          (process_next_partial p sound command payload_length c b alive valid run same counted).0
            on)
    ]
  ]

  -- The loop ends, whatever the buffer holds: more rounds than it has bytes are enough.
  pub process_loop_ends :
      (fuel : ℕ) (c : Connection App)
      → IsCounted c.inputbuf
      → length (contents c.inputbuf) < fuel
      → (r : Result (Unit {0}) × Connection App) × (process_loop p fuel c ≡ some r)
  unfolding process_loop
  process_loop_ends zero c valid h = absurd (omega arith)
  process_loop_ends (suc fuel) c valid h =
      by_flow (process_next p c).0 refl
        (λ valid' shorter. process_loop_ends fuel (process_next p c).1 valid' shorter)
    where
      by_flow :
          (f : Flow)
          → (process_next p c).0 ≡ f
          → (IsCounted (process_next p c).1.inputbuf
              → length (contents (process_next p c).1.inputbuf) < fuel
              → (r : Result (Unit {0}) × Connection App) × (process_loop p fuel (process_next p c).1
                  ≡ some r))
          → (r : Result (Unit {0}) × Connection App) × ((elim f [
            | again ↦ process_loop p fuel (process_next p c).1
            | stop ↦ some (ok tt, (process_next p c).1)
            | raised e ↦ some (err e, (process_next p c).1)
          ])
              ≡ some r)
      by_flow again e rest =
          let (valid', shorter) = process_next_shrinks c valid e in rest valid' (omega arith)
      by_flow stop e rest = ((ok tt, (process_next p c).1), refl)
      by_flow (raised e) _ rest = ((err e, (process_next p c).1), refl)

  pub process_message_ends :
      (c : Connection App)
      → IsCounted c.inputbuf
      → (r : Result (Unit {0}) × Connection App) × (process_message p
            (suc (length (contents c.inputbuf)))
            c
          ≡ some r)
  unfolding process_message
  process_message_ends c valid =
      process_loop_ends (suc (length (contents c.inputbuf)))
        (record c { session = record (c.session) { processing_message_index = 0 } }) valid
        (omega arith)
