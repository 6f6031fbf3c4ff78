-- ===== src/Alarms/Queue.antt =====
-- `AlarmQueue` of bxcommon/utils/alarm_queue.py. A function and its arguments are numbers; what a call
-- of one does is a parameter. An `AlarmId` has its count for its identity, and the attributes of its
-- alarm. The heap `alarms` is the sorted list of its elements, of which the code reads and pops only the
-- first (Represented relates it to the heaps of heapq); the heaps of approximate alarms, whose elements
-- change in place, are lists as heapq has them.
-- (What is not modelled: an alarm that unregisters itself while it is fired, names, logs, the lock.)
pub mod Heapq
pub mod Ordered
pub mod Kept
pub mod Reached
pub mod Represented
pub mod Due
pub mod Fired
use bxcommon.Alarms.Queue.Heapq.{AlarmId, before, heappush, heappop}
use bxcommon.Prelude.Dict.{Dict, lookup, insert, erase, contains}
use bxcommon.Prelude.Int.{ℤ, pos, negsuc, sub_ℕ, ltb_ℤ}
use bxcommon.Prelude.Result.{
  Error, Result, ok, err, value_error, key_error, index_error, assertion_error,
}
use bxcommon.Prelude.{
  ℕ, zero, suc, ◌+◌, ◌-◌, Bool, true, false, ◌&&◌, ◌||◌, not, Option, none, some, List, [], ◌∷◌,
  map, ltb, leb, ◌==◌, if◌then◌else◌,
}

pub record AlarmQueue : Type 0 where
  pub alarms : List AlarmId
  pub uniq_count : ℕ
  pub approx_alarms_scheduled : Dict (List AlarmId)

abbrev pub new_alarm_queue : AlarmQueue
new_alarm_queue = record { alarms = []; uniq_count = 0; approx_alarms_scheduled = [] }

-- `heappush(self.alarms, alarm_id)`
unfoldable pub push : AlarmId → List AlarmId → List AlarmId
push a [] = a ∷ []
push a (b ∷ rest) = let below = push a rest in if before a b then a ∷ b ∷ rest else b ∷ below

-- The end of `register_alarm`, for a delay that is not negative.
unfoldable pub schedule : ℕ → ℕ → ℕ → ℕ → AlarmQueue → AlarmId × AlarmQueue
schedule now fire_delay fn args q =
    let a : AlarmId = record {
      fire_time = now + fire_delay;
      count = q.uniq_count;
      fn = fn;
      args = args;
      is_active = true;
    } in
    (a, record q { alarms = push a q.alarms; uniq_count = q.uniq_count + 1 })

-- Whether one of the scheduled alarms lies in the range; the early end may be below 0.
unfoldable pub any_in_range : ℤ → ℤ → List AlarmId → Bool
any_in_range early_time late_time [] = false
any_in_range early_time late_time (a ∷ rest) =
    (not (ltb_ℤ (pos a.fire_time) early_time) && not (ltb_ℤ late_time (pos a.fire_time)))
    || any_in_range early_time late_time rest

-- The two branches of `register_approx_alarm`, by the heap of the function.
unfoldable pub schedule_in : Option (List AlarmId) → ℕ → ℕ → ℕ → ℕ → ℕ → AlarmQueue → AlarmQueue
schedule_in none now fire_delay slop fn args q =
    let (a, q') = schedule now fire_delay fn args q in
    record q' { approx_alarms_scheduled = insert fn (heappush [] a) q'.approx_alarms_scheduled }
schedule_in (some heap) now fire_delay slop fn args q =
    let early_time = sub_ℕ (fire_delay + now) slop in
    let late_time = pos (fire_delay + now + slop) in
    let (a, q') = schedule now fire_delay fn args q in
    if any_in_range early_time late_time heap then q else record q' {
      approx_alarms_scheduled = insert fn (heappush heap a) q'.approx_alarms_scheduled;
    }

unfoldable pub schedule_approx : ℕ → ℕ → ℕ → ℕ → ℕ → AlarmQueue → AlarmQueue
schedule_approx now fire_delay slop fn args q =
    schedule_in (lookup fn q.approx_alarms_scheduled) now fire_delay slop fn args q

unfoldable pub register_approx_alarm : ℕ → ℤ → ℤ → ℕ → ℕ → AlarmQueue → Result AlarmQueue
register_approx_alarm now (negsuc _) slop fn args q = err value_error
register_approx_alarm now (pos fire_delay) (negsuc _) fn args q = err value_error
register_approx_alarm now (pos fire_delay) (pos slop) fn args q =
    ok (schedule_approx now fire_delay slop fn args q)

-- The `while` loop of `unregister_alarm`.
unfoldable pub drop_inactive : List AlarmId → List AlarmId
drop_inactive [] = []
drop_inactive (a ∷ rest) = let below = drop_inactive rest in if a.is_active then a ∷ rest else below

unfoldable pub deactivate : ℕ → List AlarmId → List AlarmId
deactivate count = map (λ a. if a.count == count then record a { is_active = false } else a)

unfoldable pub unregister_alarm : ℕ → AlarmQueue → AlarmQueue
unregister_alarm count q = record q { alarms = drop_inactive (deactivate count q.alarms) }

unfoldable pub time_to_next_alarm : ℕ → AlarmQueue → Option ℤ
time_to_next_alarm now q = elim q.alarms [ [] ↦ none | a ∷ _ ↦ some (sub_ℕ a.fire_time now) ]

unfoldable pub pop_and_cleanup_approx_alarm : AlarmId → AlarmQueue → Result (Unit {0}) × AlarmQueue
pop_and_cleanup_approx_alarm a q = elim (lookup a.fn q.approx_alarms_scheduled) [
  | none ↦ (err key_error, q)
  | some [] ↦ (err index_error, q)
  | some (first ∷ rest) ↦
      if first.count == a.count
      then (
        ok tt,
        record q {
          approx_alarms_scheduled = elim (heappop first rest) [
            | [] ↦ erase a.fn q.approx_alarms_scheduled
            | left ∷ more ↦ insert a.fn (left ∷ more) q.approx_alarms_scheduled
          ];
        },
      )
      else (err assertion_error, q)
]

unfoldable pub cleanup_if_approx : AlarmId → AlarmQueue → Result (Unit {0}) × AlarmQueue
cleanup_if_approx a q =
    let cleaned = pop_and_cleanup_approx_alarm a q in
    if contains a.fn q.approx_alarms_scheduled then cleaned else (ok tt, q)

-- The time of an alarm changes in place, also where it is scheduled as an approximate one.
unfoldable pub retime : ℕ → ℕ → List AlarmId → List AlarmId
retime count fire_time =
    map (λ a. if a.count == count then record a { fire_time = fire_time } else a)

unfoldable pub reschedule : ℕ → AlarmId → AlarmQueue → AlarmQueue
reschedule fire_time a q = record q {
  alarms = push (record a { fire_time = fire_time }) q.alarms;
  approx_alarms_scheduled = elim (lookup a.fn q.approx_alarms_scheduled) [
    | none ↦ q.approx_alarms_scheduled
    | some heap ↦ insert a.fn (retime a.count fire_time heap) q.approx_alarms_scheduled
  ];
}

-- What `fire_alarms` does after a call, which raised or gave the next delay.
unfoldable pub after_fire :
    ℕ → AlarmId → Result (Option ℤ) → AlarmQueue → Result (Unit {0}) × AlarmQueue
after_fire now a (err e) q = cleanup_if_approx a q
after_fire now a (ok none) q = cleanup_if_approx a q
after_fire now a (ok (some (negsuc _))) q = cleanup_if_approx a q
after_fire now a (ok (some (pos next_delay))) q =
    if ltb 0 next_delay then (ok tt, reschedule (now + next_delay) a q) else cleanup_if_approx a q

-- A call of a function with its arguments works on the queue and on what else there is.
abbrev pub Calls : Type 0 → Type 0
Calls World = ℕ → ℕ → AlarmQueue → World → Result (Option ℤ) × AlarmQueue × World

module _ {World : Type 0} (call : Calls World) where
  unfoldable pub register_alarm :
      ℕ → ℤ → ℕ → ℕ → Bool → AlarmQueue → World → Result (AlarmId × AlarmQueue × World)
  register_alarm now (negsuc _) fn args fire_immediately q w = err value_error
  register_alarm now (pos fire_delay) fn args fire_immediately q w =
      let (a, q') = schedule now fire_delay fn args q in
      let (fired, q1, w1) = call fn args q w in
      if fire_immediately && (fire_delay == 0)
      then (elim fired [ err e ↦ err e | ok _ ↦ ok (a, q1, w1) ])
      else ok (a, q', w)

  -- The `while` loop of `fire_alarms`, with fuel: `none` means that it ran out.
  unfoldable pub fire_loop :
      ℕ → ℕ → AlarmQueue → World → Option (Result (Unit {0}) × AlarmQueue × World)
  fire_loop zero now q w = none
  fire_loop (suc fuel) now q w = elim q.alarms [
    | [] ↦ some (ok tt, q, w)
    | a ∷ rest ↦ elim (leb a.fire_time now) [
      | false ↦ some (ok tt, q, w)
      | true ↦ elim a.is_active [
        | false ↦ fire_loop fuel now (record q { alarms = rest }) w
        | true ↦
            let (result, q1, w1) = call a.fn a.args (record q { alarms = rest }) w in
            let (done, q2) = after_fire now a result q1 in
            elim done [ err e ↦ some (err e, q2, w1) | ok _ ↦ fire_loop fuel now q2 w1 ]
      ]
    ]
  ]

  -- `fire_alarms`: without alarms the loop does nothing.
  unfoldable pub fire_alarms :
      ℕ → ℕ → AlarmQueue → World → Option (Result (Unit {0}) × AlarmQueue × World)
  fire_alarms fuel now q w = fire_loop fuel now q w

  -- The `while` loop of `fire_ready_alarms`, with fuel for its rounds and for each call.
  unfoldable pub fire_ready_alarms :
      ℕ → ℕ → ℕ → AlarmQueue → World → Option (Result (Option ℤ) × AlarmQueue × World)
  fire_ready_alarms zero fuel now q w = none
  fire_ready_alarms (suc rounds) fuel now q w = elim (time_to_next_alarm now q) [
    | none ↦ some (ok none, q, w)
    | some time ↦ elim (ltb_ℤ (pos 0) time) [
      | true ↦ some (ok (some time), q, w)
      | false ↦ elim (fire_alarms fuel now q w) [
        | none ↦ none
        | some (err e, q', w') ↦ some (err e, q', w')
        | some (ok _, q', w') ↦ fire_ready_alarms rounds fuel now q' w'
      ]
    ]
  ]
