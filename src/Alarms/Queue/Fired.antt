-- ===== src/Alarms/Queue/Fired.antt =====
-- `fire_alarms`, where the functions that are called leave the queue alone and are scheduled by
-- `register_alarm`.
use bxcommon.Alarms.Queue.Due.{
  due, not_due, AllDue, AllLater, NotApprox, due-split, due-AllDue, ordered_later, not_due-AllLater,
  push-behind, push-AllLater,
}
use mathlib.Core.Path.{subst}
use bxcommon.Alarms.Queue.Heapq.{AlarmId}
use bxcommon.Alarms.Queue.{
  AlarmQueue, Calls, push, cleanup_if_approx, reschedule, after_fire, fire_loop, fire_alarms,
  fire_ready_alarms, time_to_next_alarm,
}
use bxcommon.Alarms.Queue.Ordered.{IsOrdered}
use bxcommon.Prelude.Dict.{lookup}
use bxcommon.Prelude.Int.{ℤ, pos, negsuc, sub_ℕ, ltb_ℤ}
use bxcommon.Prelude.Result.{Result, ok, err}
use bxcommon.Prelude.{
  ℕ, zero, suc, ◌+◌, ◌<◌, ◌≡◌, refl, sym, ap, false, Option, none, some, List, [], ◌∷◌, ◌++◌, ltb,
  length, if◌then◌else◌, arith, Bool-cases, inl, inr, length-append,
}

module _ {World : Type 0} (quiet : ℕ → ℕ → World → Result (Option ℤ) × World) where
  -- A call that leaves the queue alone.
  abbrev pub quiet_call : Calls World
  quiet_call fn args q w = let (result, w') = quiet fn args w in (result, q, w')

  -- Where an alarm comes after its call: behind, at a later time, or nowhere.
  unfoldable pub settled_one : ℕ → AlarmId → Result (Option ℤ) → List AlarmId → List AlarmId
  settled_one now a (err e) back = back
  settled_one now a (ok none) back = back
  settled_one now a (ok (some (negsuc _))) back = back
  settled_one now a (ok (some (pos next_delay))) back =
      if ltb 0 next_delay then push (record a { fire_time = now + next_delay }) back else back

  -- The active ones of these alarms are fired in turn, each once.
  unfoldable pub settled : ℕ → List AlarmId → List AlarmId → World → List AlarmId × World
  settled now [] back w = (back, w)
  settled now (a ∷ rest) back w =
      let (result, w') = quiet a.fn a.args w in
      let fired = settled now rest (settled_one now a result back) w' in
      let passed = settled now rest back w in if a.is_active then fired else passed

  settled_one-AllLater :
      (now : ℕ) (a : AlarmId) (result : Result (Option ℤ)) (back : List AlarmId)
      → AllLater now back
      → AllLater now (settled_one now a result back)
  unfolding settled_one
  settled_one-AllLater now a (err e) back l = l
  settled_one-AllLater now a (ok none) back l = l
  settled_one-AllLater now a (ok (some (negsuc _))) back l = l
  settled_one-AllLater now a (ok (some (pos n))) back l = elim (Bool-cases (ltb 0 n)) [
    | inl again_ ↦
        rw again_ (push-AllLater now (record a { fire_time = now + n }) back (ground arith) l)
    | inr once ↦ rw once l
  ]

  settled-AllLater :
      (now : ℕ) (front back : List AlarmId) (w : World)
      → AllLater now back
      → AllLater now (settled now front back w).0
  unfolding settled
  settled-AllLater now [] back w l = l
  settled-AllLater now (a ∷ rest) back w l = elim (Bool-cases a.is_active) [
    | inl on ↦
        let (result, w') = quiet a.fn a.args w in
        simp on (
          settled-AllLater now rest (settled_one now a result back) w'
            (settled_one-AllLater now a result back l))
    | inr off ↦ simp off (settled-AllLater now rest back w l)
  ]

  after_fire-settled :
      (now : ℕ) (a : AlarmId) (result : Result (Option ℤ)) (q : AlarmQueue)
      (front back : List AlarmId)
      → q.alarms ≡ front ++ back
      → AllDue now front
      → lookup a.fn q.approx_alarms_scheduled ≡ none
      → after_fire now a result q
        ≡ (ok tt, record q { alarms = front ++ settled_one now a result back })
  unfolding after_fire cleanup_if_approx reschedule settled_one
  after_fire-settled now a (err e) q front back s d h = ground (arith, s, h)
  after_fire-settled now a (ok none) q front back s d h = ground (arith, s, h)
  after_fire-settled now a (ok (some (negsuc _))) q front back s d h = ground (arith, s, h)
  after_fire-settled now a (ok (some (pos n))) q front back s d h =
      let later = record a { fire_time = now + n } in
      elim (Bool-cases (ltb 0 n)) [
        | inl again_ ↦
            ground (arith, s, h, again_, push-behind now later front back d (ground arith))
        | inr once ↦ ground (arith, s, h, once)
      ]

  fire_loop-settled :
      (fuel now : ℕ) (front back : List AlarmId) (q : AlarmQueue) (w : World)
      → q.alarms ≡ front ++ back
      → AllDue now front
      → AllLater now back
      → NotApprox q front
      → length front < fuel
      → fire_loop quiet_call fuel now q w
        ≡ some (
          ok tt,
          record q { alarms = (settled now front back w).0 },
          (settled now front back w).1,
        )
  unfolding fire_loop settled
  fire_loop-settled zero now front back q w s d l n h = absurd (omega arith)
  fire_loop-settled (suc fuel) now [] [] q w s d l n h = ground (arith, s)
  fire_loop-settled (suc fuel) now [] (b ∷ back) q w s d l n h = ground (arith, s, l.0)
  fire_loop-settled (suc fuel) now (a ∷ rest) back q w s d l n h =
      let (result, w') = quiet a.fn a.args w in
      let popped = record q { alarms = rest ++ back } in
      let after = after_fire-settled now a result popped rest back refl d.1 n.0 in
      elim (Bool-cases a.is_active) [
        | inl on ↦
            let back' = settled_one now a result back in
            ground (
              arith,
              s,
              d.0,
              on,
              after,
              fire_loop-settled fuel now rest back' (record q { alarms = rest ++ back' }) w' refl
                  d.1 (settled_one-AllLater now a result back l) n.1 (omega arith),
            )
        | inr off ↦ ground (
          arith,
          s,
          d.0,
          off,
          fire_loop-settled fuel now rest back popped w refl d.1 l n.1 (omega arith),
        )
      ]

  -- Where the functions that are called leave the queue alone, the alarms are in order, and no alarm
  -- that is due has a function of approximate alarms: in one call every active alarm that is due is
  -- fired once, in the order of their times and, at one time, of their registration; one that returns
  -- a delay above 0 is scheduled anew, and the alarms that are left are those that were not due and
  -- the ones scheduled anew, all of later times.
  pub fire_alarms-settled :
      (now : ℕ) (q : AlarmQueue) (w : World)
      → IsOrdered q.alarms
      → NotApprox q (due now q.alarms)
      → (q' : AlarmQueue) × (w' : World) × (fire_alarms quiet_call (suc (length q.alarms)) now q w
          ≡ some (ok tt, q', w'))
        × ((q'.alarms, w') ≡ settled now (due now q.alarms) (not_due now q.alarms) w)
        × AllLater now q'.alarms
  unfolding fire_alarms
  fire_alarms-settled now q w o n =
      let front = due now q.alarms in
      let back = not_due now q.alarms in
      let later = not_due-AllLater now q.alarms o in
      let split = due-split now q.alarms in
      (
        record q { alarms = (settled now front back w).0 },
        (settled now front back w).1,
        fire_loop-settled (suc (length q.alarms)) now front back q w (sym split)
            (due-AllDue now q.alarms) later n
            (omega (arith, ap length split, length-append front back)),
        refl,
        settled-AllLater now front back w later,
      )

  -- Under the same conditions, and at one time `now` throughout: `fire_ready_alarms` ends after one
  -- round of `fire_alarms` at most, and gives none, or a time until the next alarm that is above 0.
  pub fire_ready_alarms_ends :
      (now : ℕ) (q : AlarmQueue) (w : World)
      → IsOrdered q.alarms
      → NotApprox q (due now q.alarms)
      → (time : Option ℤ) × (q' : AlarmQueue) × (w' : World) × (fire_ready_alarms quiet_call 2
            (suc (length q.alarms))
            now
            q
            w
          ≡ some (ok time, q', w'))
        × (time ≡ time_to_next_alarm now q')
        × AllLater now q'.alarms
  unfolding fire_ready_alarms time_to_next_alarm
  fire_ready_alarms_ends now q w o n =
      let (q', w', run, _, later) = fire_alarms-settled now q w o n in
      by_alarms q.alarms refl q' w' run later q'.alarms refl
    where
      by_left :
          (left : List AlarmId)
          → (q' : AlarmQueue) (w' : World) → q'.alarms ≡ left
          → fire_alarms quiet_call (suc (length q.alarms)) now q w ≡ some (ok tt, q', w')
          → AllLater now q'.alarms
          → (a : AlarmId) (rest : List AlarmId) → q.alarms ≡ a ∷ rest
          → ltb_ℤ (pos 0) (sub_ℕ a.fire_time now) ≡ false
          → (time : Option ℤ) × (q' : AlarmQueue) × (w' : World) × (fire_ready_alarms quiet_call 2
                (suc (length q.alarms))
                now
                q
                w
              ≡ some (ok time, q', w'))
            × (time ≡ time_to_next_alarm now q')
            × AllLater now q'.alarms
      by_left [] q' w' f run later a rest e old =
          (none, q', w', ground (arith, e, old, run, f), ground (arith, f), later)
      by_left (b ∷ more) q' w' f run later a rest e old =
          let first : AllLater now (b ∷ more) = subst (AllLater now) f later in
          (
            some (sub_ℕ b.fire_time now),
            q',
            w',
            ground (arith, e, old, run, f, first.0),
            ground (arith, f),
            later,
          )

      by_alarms :
          (first : List AlarmId)
          → q.alarms ≡ first
          → (q' : AlarmQueue) (w' : World)
          → fire_alarms quiet_call (suc (length q.alarms)) now q w ≡ some (ok tt, q', w')
          → AllLater now q'.alarms
          → (left : List AlarmId) → q'.alarms ≡ left
          → (time : Option ℤ) × (q' : AlarmQueue) × (w' : World) × (fire_ready_alarms quiet_call 2
                (suc (length q.alarms))
                now
                q
                w
              ≡ some (ok time, q', w'))
            × (time ≡ time_to_next_alarm now q')
            × AllLater now q'.alarms
      by_alarms [] e q' w' run later left f =
          (none, q, w, ground (arith, e), ground (arith, e), subst (AllLater now) (sym e) tt)
      by_alarms (a ∷ rest) e q' w' run later left f =
          elim (Bool-cases (ltb_ℤ (pos 0) (sub_ℕ a.fire_time now))) [
            | inl young ↦ (
              some (sub_ℕ a.fire_time now),
              q,
              w,
              ground (arith, e, young),
              ground (arith, e),
              subst (AllLater now) (sym e)
                  (ordered_later now a rest (subst IsOrdered e o) (ground arith)),
            )
            | inr old ↦ by_left left q' w' f run later a rest e old
          ]
