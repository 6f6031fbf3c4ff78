-- ===== src/Alarms/Tests.antt =====
-- The theorems on alarms and on the containers that use them, at concrete ones.
use mathlib.Core.Path.{subst}
use bxcommon.Alarms.Dict.Cleanup.{Cleaned, cleanup-Cleaned}
use bxcommon.Alarms.Dict.Scheduled.{AllStand, IsScheduled, IsLinked, add-IsScheduled}
use bxcommon.Alarms.Dict.Valid.{IsValid, set_item_lem}
use bxcommon.Alarms.Dict.{ExpiringDict, add, set_item, cleanup}
use bxcommon.Alarms.Queue.Due.{AllLater, due, not_due}
use bxcommon.Alarms.Queue.Fired.{settled, quiet_call, fire_alarms-settled, fire_ready_alarms_ends}
use bxcommon.Alarms.Queue.Heapq.{AlarmId, heappush}
use bxcommon.Alarms.Queue.Heapq.Heaped.{IsHeaped}
use bxcommon.Alarms.Queue.Ordered.{has, IsOnce, IsRanked}
use bxcommon.Alarms.Queue.Represented.{Represents, Pops, Reach-Represents}
use bxcommon.Alarms.Queue.Reached.{Reach, registered, approximated, popped, called, new, next}
use bxcommon.Alarms.Queue.{
  AlarmQueue, new_alarm_queue, push, fire_alarms, fire_ready_alarms, time_to_next_alarm, schedule,
  schedule_in, schedule_approx, after_fire, reschedule,
}
use bxcommon.Prelude.Dict.{lookup}
use bxcommon.Prelude.Int.{ℤ, pos}
use bxcommon.Prelude.Result.{Result, ok}
use bxcommon.Prelude.{
  ℕ, zero, suc, ◌+◌, ◌≡◌, refl, inl, inr, Bool, true, false, Option, none, some, List, [], ◌∷◌,
  length, arith,
}

abbrev alarm : ℕ → ℕ → ℕ → Bool → AlarmId
alarm fire_time count fn is_active = record {
  fire_time = fire_time;
  count = count;
  fn = fn;
  args = 0;
  is_active = is_active;
}

-- At time 10 the first three are due, of which one was cancelled.
abbrev four_alarms : AlarmQueue
four_alarms = record {
  alarms = alarm 5 1 1 true ∷ alarm 5 2 2 false ∷ alarm 9 0 3 true ∷ alarm 14 3 1 true ∷ [];
  uniq_count = 4;
  approx_alarms_scheduled = [];
}

-- Function 1 is to be called again 3 ticks later, and the others are not; all are recorded.
abbrev log_call : ℕ → ℕ → List ℕ → Result (Option ℤ) × List ℕ
log_call (suc zero) args log = (ok (some (pos 3)), 1 ∷ log)
log_call fn args log = (ok none, fn ∷ log)

fire_alarms-settled_example :
    (q' : AlarmQueue) × (log : List ℕ) × (fire_alarms
        (quiet_call log_call)
        (suc (length four_alarms.alarms))
        10
        four_alarms
        []
      ≡ some (ok tt, q', log))
    × ((q'.alarms, log)
        ≡ settled log_call 10 (due 10 four_alarms.alarms) (not_due 10 four_alarms.alarms) [])
    × AllLater 10 q'.alarms
unfolding due
fire_alarms-settled_example =
    fire_alarms-settled log_call 10 four_alarms [] (refl, (refl, (refl, (tt, tt))))
      (refl, (refl, (refl, tt)))

fire_ready_alarms_ends_example :
    (time : Option ℤ) × (q' : AlarmQueue) × (log : List ℕ) × (fire_ready_alarms
        (quiet_call log_call)
        2
        (suc (length four_alarms.alarms))
        10
        four_alarms
        []
      ≡ some (ok time, q', log))
    × (time ≡ time_to_next_alarm 10 q')
    × AllLater 10 q'.alarms
unfolding due
fire_ready_alarms_ends_example =
    fire_ready_alarms_ends log_call 10 four_alarms [] (refl, (refl, (refl, (tt, tt))))
      (refl, (refl, (refl, tt)))

-- Three alarms, the latest of which is registered first; the earliest is fired, to be called again.
abbrev one_registered : AlarmQueue
one_registered = (schedule 0 9 1 0 new_alarm_queue).1

abbrev two_registered : AlarmQueue
two_registered = schedule_approx 1 2 1 7 0 one_registered

abbrev three_registered : AlarmQueue
three_registered = (schedule 1 5 2 0 two_registered).1

abbrev early_alarm : AlarmId
early_alarm = alarm 3 1 7 true

abbrev one_running : AlarmQueue
one_running = record three_registered { alarms = alarm 6 2 2 true ∷ alarm 9 0 1 true ∷ [] }

abbrev fired : AlarmQueue
fired = (after_fire 3 early_alarm (ok (some (pos 4))) one_running).1

fired-Reach : Reach fired []
unfolding schedule schedule_approx schedule_in push
fired-Reach =
    next
      (next
        (next
          (next (next new (registered 0 9 1 0 new_alarm_queue []))
            (approximated 1 2 1 7 0 one_registered []))
          (registered 1 5 2 0 two_registered []))
        (popped early_alarm (alarm 6 2 2 true ∷ alarm 9 0 1 true ∷ []) three_registered [] refl))
      (called 3 early_alarm (ok (some (pos 4))) one_running [])

-- The alarms in another order than that of their times.
abbrev fired_heap : List AlarmId
fired_heap = alarm 6 2 2 true ∷ alarm 9 0 1 true ∷ alarm 7 1 7 true ∷ []

fired_heap-Represents : Represents fired_heap fired.alarms
unfolding schedule schedule_approx schedule_in push after_fire reschedule
fired_heap-Represents = record { order = in_order; same = λ test. omega arith }
  where
    in_order : IsHeaped fired_heap
    in_order d zero p l = absurd (omega arith)
    in_order d (suc zero) p l = refl
    in_order d (suc (suc zero)) p l = refl
    in_order d (suc (suc (suc i))) p l = absurd (omega arith)

Reach-Represents_example :
    (IsRanked fired.alarms × IsOnce fired.alarms × (has fired.uniq_count fired.alarms ≡ false))
    × ((a : AlarmId) → Represents (heappush fired_heap a) (push a fired.alarms))
    × Pops fired_heap fired.alarms
Reach-Represents_example = Reach-Represents fired_heap fired-Reach fired_heap-Represents

-- Keys 1 and 2 of times 5 and 20, kept for 10 ticks.
abbrev two_keys : ExpiringDict ℕ
two_keys = record {
  contents = (1, 100) ∷ (2, 200) ∷ [];
  expiration_queue = record { time_to_live_sec = 10; queue = (1, 5) ∷ (2, 20) ∷ [] };
  expiration_time = 10;
  cleanup_fn = 7;
}

two_keys-IsValid : (now : ℕ) → IsValid (20 + now) two_keys
two_keys-IsValid now = record {
  same_keys = λ k. ground arith;
  distinct = (refl, (refl, tt));
  chronological = omega arith;
  until = (omega arith, (omega arith, tt));
  same_time = refl;
}

cleanup-Cleaned_example :
    (d' : ExpiringDict ℕ) × (cleanup 21 two_keys ≡ ok (0, d')) × Cleaned 21 two_keys d'
cleanup-Cleaned_example = cleanup-Cleaned 21 two_keys (two_keys-IsValid 1)

set_item_lem_example :
    (d' : ExpiringDict ℕ) × (alarms' : AlarmQueue) × (set_item 22 3 300 two_keys four_alarms
      ≡ ok (d', alarms'))
    × IsValid 22 d'
set_item_lem_example = set_item_lem 22 3 300 two_keys four_alarms (two_keys-IsValid 2)

-- A clean-up of the keys is scheduled for time 40, behind an alarm of another function.
abbrev one_cleanup : AlarmQueue
one_cleanup = record {
  alarms = alarm 14 3 1 true ∷ alarm 40 4 7 true ∷ [];
  uniq_count = 5;
  approx_alarms_scheduled = (7, alarm 40 4 7 true ∷ []) ∷ [];
}

one_cleanup-IsLinked : IsLinked 7 one_cleanup
one_cleanup-IsLinked heap e =
    let same : alarm 40 4 7 true ∷ [] ≡ heap = ground (arith, e) in
    subst (AllStand 7 one_cleanup.alarms) same (inr (inl (refl, refl, refl)), tt)

add-IsScheduled_example :
    (d' : ExpiringDict ℕ) × (alarms' : AlarmQueue) × (add 22 3 300 two_keys one_cleanup
      ≡ ok (d', alarms'))
    × (lookup 3 d'.contents ≡ some 300)
    × IsScheduled 7 32 52 alarms'
    × IsLinked 7 alarms'
add-IsScheduled_example = add-IsScheduled 22 3 300 two_keys one_cleanup one_cleanup-IsLinked
