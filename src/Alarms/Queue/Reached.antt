-- ===== src/Alarms/Queue/Reached.antt =====
-- The queue of alarms under its methods, with the alarms whose functions are running: those that
-- `fire_alarms` has popped, the innermost call first.
use mathlib.Core.Path.{subst}
use bxcommon.Alarms.Queue.Heapq.{AlarmId}
use bxcommon.Alarms.Queue.Kept.{
  IsKept, push-IsKept, over-IsKept, again-IsKept, unregister-IsKept, tail-IsKept, popped-IsKept,
}
use bxcommon.Alarms.Queue.Ordered.{has, IsOnce, IsRanked}
use bxcommon.Alarms.Queue.{
  AlarmQueue, new_alarm_queue, schedule, schedule_approx, schedule_in, any_in_range,
  unregister_alarm, pop_and_cleanup_approx_alarm, cleanup_if_approx, reschedule, after_fire,
}
use bxcommon.Prelude.Int.{ℤ, pos, negsuc, sub_ℕ}
use bxcommon.Prelude.Result.{Result, ok, err}
use bxcommon.Prelude.{
  ℕ, ◌+◌, ◌≡◌, refl, sym, false, Option, none, some, List, [], ◌∷◌, ltb, arith, Bool-cases, inl,
  inr,
}

-- Registrations, cancellations, an alarm that is passed over, and the two parts of firing one: it is
-- popped and its function called, and the call ends.
pub data Step : AlarmQueue → List AlarmId → AlarmQueue → List AlarmId → Type 0 where
  registered :
      (now fire_delay fn args : ℕ) (q : AlarmQueue) (running : List AlarmId)
      → Step q running (schedule now fire_delay fn args q).1 running
  approximated :
      (now fire_delay slop fn args : ℕ) (q : AlarmQueue) (running : List AlarmId)
      → Step q running (schedule_approx now fire_delay slop fn args q) running
  unregistered :
      (count : ℕ) (q : AlarmQueue) (running : List AlarmId)
      → Step q running (unregister_alarm count q) running
  passed :
      (a : AlarmId) (rest : List AlarmId) (q : AlarmQueue) (running : List AlarmId)
      → q.alarms ≡ a ∷ rest
      → Step q running (record q { alarms = rest }) running
  popped :
      (a : AlarmId) (rest : List AlarmId) (q : AlarmQueue) (running : List AlarmId)
      → q.alarms ≡ a ∷ rest
      → Step q running (record q { alarms = rest }) (a ∷ running)
  called :
      (now : ℕ) (a : AlarmId) (result : Result (Option ℤ)) (q : AlarmQueue) (running : List AlarmId)
      → Step q (a ∷ running) (after_fire now a result q).1 running

pub data Reach : AlarmQueue → List AlarmId → Type 0 where
  new : Reach new_alarm_queue []
  next :
      {q r : AlarmQueue} {running running' : List AlarmId}
      → Reach q running
      → Step q running r running'
      → Reach r running'

abbrev IsKeptQueue : AlarmQueue → List AlarmId → Type 0
IsKeptQueue q running = IsKept q.uniq_count q.alarms running

schedule-IsKept :
    (now fire_delay fn args : ℕ) (q : AlarmQueue) (running : List AlarmId)
    → IsKeptQueue q running
    → IsKeptQueue (schedule now fire_delay fn args q).1 running
unfolding schedule
schedule-IsKept now fire_delay fn args q running h =
    push-IsKept q.uniq_count _ q.alarms running h refl

schedule_in-IsKept :
    (known : Option (List AlarmId)) (now fire_delay slop fn args : ℕ) (q : AlarmQueue)
    (running : List AlarmId)
    → IsKeptQueue q running
    → IsKeptQueue (schedule_in known now fire_delay slop fn args q) running
unfolding schedule_in
schedule_in-IsKept none now fire_delay slop fn args q running h =
    schedule-IsKept now fire_delay fn args q running h
schedule_in-IsKept (some heap) now fire_delay slop fn args q running h =
    elim (Bool-cases
      (any_in_range (sub_ℕ (fire_delay + now) slop) (pos (fire_delay + now + slop)) heap)) [
        | inl near ↦ simp near h
        | inr far ↦ simp far (schedule-IsKept now fire_delay fn args q running h)
      ]

cleanup-IsKept :
    (a : AlarmId) (q : AlarmQueue) (running : List AlarmId)
    → IsKeptQueue q (a ∷ running)
    → IsKeptQueue (cleanup_if_approx a q).1 running
unfolding cleanup_if_approx pop_and_cleanup_approx_alarm
cleanup-IsKept a q running h =
    let (alarms, count) = same a q in
    subst (λ n. IsKept n (cleanup_if_approx a q).1.alarms running) (sym count)
      (subst (λ xs. IsKept q.uniq_count xs running) (sym alarms)
        (over-IsKept q.uniq_count a q.alarms running h))
  where
    same :
        (a : AlarmId) (q : AlarmQueue)
        → ((cleanup_if_approx a q).1.alarms ≡ q.alarms)
          × ((cleanup_if_approx a q).1.uniq_count ≡ q.uniq_count)
    same a q = ground arith

after_fire-IsKept :
    (now : ℕ) (a : AlarmId) (result : Result (Option ℤ)) (q : AlarmQueue) (running : List AlarmId)
    → IsKeptQueue q (a ∷ running)
    → IsKeptQueue (after_fire now a result q).1 running
unfolding after_fire reschedule
after_fire-IsKept now a (err e) q running h = cleanup-IsKept a q running h
after_fire-IsKept now a (ok none) q running h = cleanup-IsKept a q running h
after_fire-IsKept now a (ok (some (negsuc _))) q running h = cleanup-IsKept a q running h
after_fire-IsKept now a (ok (some (pos n))) q running h = elim (Bool-cases (ltb 0 n)) [
  | inl again ↦ rw again (again-IsKept q.uniq_count (now + n) a q.alarms running h)
  | inr once ↦ rw once (cleanup-IsKept a q running h)
]

Step-IsKept :
    {q r : AlarmQueue} {running running' : List AlarmId}
    → Step q running r running'
    → IsKeptQueue q running
    → IsKeptQueue r running'
unfolding schedule_approx unregister_alarm
Step-IsKept (registered now fire_delay fn args q running) h =
    schedule-IsKept now fire_delay fn args q running h
Step-IsKept (approximated now fire_delay slop fn args q running) h =
    schedule_in-IsKept _ now fire_delay slop fn args q running h
Step-IsKept (unregistered count q running) h =
    unregister-IsKept q.uniq_count count q.alarms running h
Step-IsKept (passed a rest q running e) h =
    tail-IsKept q.uniq_count a rest running (subst (λ xs. IsKept q.uniq_count xs running) e h)
Step-IsKept (popped a rest q running e) h =
    popped-IsKept q.uniq_count a rest running (subst (λ xs. IsKept q.uniq_count xs running) e h)
Step-IsKept (called now a result q running) h = after_fire-IsKept now a result q running h

Reach-IsKept : {q : AlarmQueue} {running : List AlarmId} → Reach q running → IsKeptQueue q running
Reach-IsKept new = record {
  once = tt;
  ranked = tt;
  running_once = tt;
  apart = λ k r. refl;
  free = λ k le. refl;
  running_free = λ k le. refl;
}
Reach-IsKept (next r s) = Step-IsKept s (Reach-IsKept r)

-- However a queue was reached from a new one, also in the middle of calls of alarms, no two of its
-- alarms have one count and the count of the next registration is free; each alarm goes strictly
-- before all that stand behind it, so that the first one is the least.
pub Reach-IsRanked :
    {q : AlarmQueue} {running : List AlarmId}
    → Reach q running
    → IsRanked q.alarms × IsOnce q.alarms × (has q.uniq_count q.alarms ≡ false)
Reach-IsRanked {q} r =
    let h = Reach-IsKept r in (h.ranked, h.once, h.free q.uniq_count (omega arith))
