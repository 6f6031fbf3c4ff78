-- ===== src/Alarms/Dict/Scheduled.antt =====
-- The clean-up that `add` of bxcommon/utils/expiring_dict.py schedules, among the alarms that
-- `fire_alarms` goes through.
use mathlib.Core.Path.{subst}
use bxcommon.Alarms.Dict.{ExpiringDict, add, no_args}
use bxcommon.Alarms.Queue.Heapq.{AlarmId, before, siftdown, heappush}
use bxcommon.Alarms.Queue.{
  AlarmQueue, push, schedule_in, schedule, schedule_approx, register_approx_alarm, any_in_range,
}
use bxcommon.Prelude.Dict.{lookup, insert, lookup-insert}
use bxcommon.Prelude.Int.{pos, sub_ℕ, ltb_ℤ}
use bxcommon.Prelude.Result.{ok}
use bxcommon.Prelude.{
  ℕ, zero, suc, ◌+◌, ◌*◌, ◌-◌, ◌/◌, ◌≤◌, ◌≡◌, ◌⊎◌, refl, sym, ap, ◌∙◌, true, ◌&&◌, ◌||◌, not,
  Option, none, some, List, [], ◌∷◌, ◌++◌, ◌==◌, length, set, get_or, arith, Bool-cases, inl, inr,
}

-- An active alarm of this function and time stands among the alarms.
abbrev pub Stands : ℕ → ℕ → List AlarmId → Type 0
Stands fn time [] = ⊥
Stands fn time (a ∷ alarms) =
    ((a.fn ≡ fn) × (a.is_active ≡ true) × (a.fire_time ≡ time)) ⊎ Stands fn time alarms

Stands-push :
    (fn time : ℕ) (a : AlarmId) (alarms : List AlarmId)
    → Stands fn time alarms
    → Stands fn time (push a alarms)
unfolding push
Stands-push fn time a [] h = absurd h
Stands-push fn time a (b ∷ alarms) h = elim (Bool-cases (before a b)) [
  | inl first ↦ rw first (inr h)
  | inr later ↦
      rw later
        (elim h [ inl here ↦ inl here | inr below ↦ inr (Stands-push fn time a alarms below) ])
]

pushed-Stands :
    (a : AlarmId) (alarms : List AlarmId)
    → a.is_active ≡ true
    → Stands a.fn a.fire_time (push a alarms)
unfolding push
pushed-Stands a [] on = inl (refl, on, refl)
pushed-Stands a (b ∷ alarms) on = elim (Bool-cases (before a b)) [
  | inl first ↦ rw first (inl (refl, on, refl))
  | inr later ↦ rw later (inr (pushed-Stands a alarms on))
]

-- Every entry of a heap of approximate alarms stands so.
abbrev pub AllStand : ℕ → List AlarmId → List AlarmId → Type 0
AllStand fn alarms [] = Unit {0}
AllStand fn alarms (e ∷ heap) = Stands fn e.fire_time alarms × AllStand fn alarms heap

AllStand-push :
    (fn : ℕ) (a : AlarmId) (alarms heap : List AlarmId)
    → AllStand fn alarms heap
    → AllStand fn (push a alarms) heap
AllStand-push fn a alarms [] h = tt
AllStand-push fn a alarms (e ∷ heap) h =
    (Stands-push fn e.fire_time a alarms h.0, AllStand-push fn a alarms heap h.1)

set-AllStand :
    (fn : ℕ) (alarms heap : List AlarmId) (i : ℕ) (a : AlarmId)
    → Stands fn a.fire_time alarms
    → AllStand fn alarms heap
    → AllStand fn alarms (set heap i a)
set-AllStand fn alarms [] i a s h = tt
set-AllStand fn alarms (e ∷ heap) zero a s h = (s, h.1)
set-AllStand fn alarms (e ∷ heap) (suc i) a s h = (h.0, set-AllStand fn alarms heap i a s h.1)

get_or-Stands :
    (fn : ℕ) (alarms heap : List AlarmId) (i : ℕ) (a : AlarmId)
    → Stands fn a.fire_time alarms
    → AllStand fn alarms heap
    → Stands fn (get_or heap i a).fire_time alarms
get_or-Stands fn alarms [] i a s h = s
get_or-Stands fn alarms (e ∷ heap) zero a s h = h.0
get_or-Stands fn alarms (e ∷ heap) (suc i) a s h = get_or-Stands fn alarms heap i a s h.1

siftdown-AllStand :
    (fn : ℕ) (alarms : List AlarmId) (fuel i : ℕ) (a : AlarmId) (heap : List AlarmId)
    → Stands fn a.fire_time alarms
    → AllStand fn alarms heap
    → AllStand fn alarms (siftdown fuel a i heap)
unfolding siftdown
siftdown-AllStand fn alarms zero i a heap s h = set-AllStand fn alarms heap i a s h
siftdown-AllStand fn alarms (suc fuel) i a heap s h =
    let parent = get_or heap ((i - 1) / 2) a in
    elim (Bool-cases ((i == 0) || not (before a parent))) [
      | inl stop ↦ simp stop (set-AllStand fn alarms heap i a s h)
      | inr up ↦ simp up (
          siftdown-AllStand fn alarms fuel ((i - 1) / 2) a (set heap i parent) s (
            set-AllStand fn alarms heap i parent (get_or-Stands fn alarms heap ((i - 1) / 2) a s h)
              h))
    ]

snoc-AllStand :
    (fn : ℕ) (alarms heap : List AlarmId) (a : AlarmId)
    → Stands fn a.fire_time alarms
    → AllStand fn alarms heap
    → AllStand fn alarms (heap ++ (a ∷ []))
snoc-AllStand fn alarms [] a s h = (s, tt)
snoc-AllStand fn alarms (e ∷ heap) a s h = (h.0, snoc-AllStand fn alarms heap a s h.1)

heappush-AllStand :
    (fn : ℕ) (alarms heap : List AlarmId) (a : AlarmId)
    → Stands fn a.fire_time alarms
    → AllStand fn alarms heap
    → AllStand fn alarms (heappush heap a)
unfolding heappush
heappush-AllStand fn alarms heap a s h =
    siftdown-AllStand fn alarms (suc (length heap)) (length heap) a (heap ++ (a ∷ [])) s
      (snoc-AllStand fn alarms heap a s h)

-- The approximate alarms that a queue keeps of a function stand among its alarms.
abbrev pub IsLinked : ℕ → AlarmQueue → Type 0
IsLinked fn q =
    (heap : List AlarmId)
    → lookup fn q.approx_alarms_scheduled ≡ some heap
    → AllStand fn q.alarms heap

-- An active alarm of `fn` with a time from `early` to `late` stands among the alarms.
abbrev pub IsScheduled : ℕ → ℕ → ℕ → AlarmQueue → Type 0
IsScheduled fn early late q = (time : ℕ) × (early ≤ time) × (time ≤ late) × Stands fn time q.alarms

any_in_range-Stands :
    (fn early late : ℕ) (alarms heap : List AlarmId)
    → any_in_range (pos early) (pos late) heap ≡ true
    → AllStand fn alarms heap
    → (time : ℕ) × (early ≤ time) × (time ≤ late) × Stands fn time alarms
unfolding any_in_range
any_in_range-Stands fn early late alarms [] r h = absurd (ground (arith, r))
any_in_range-Stands fn early late alarms (e ∷ heap) r h =
    let inside =
      not (ltb_ℤ (pos e.fire_time) (pos early)) && not (ltb_ℤ (pos late) (pos e.fire_time)) in
    elim (Bool-cases inside) [
      | inl here ↦ (e.fire_time, ground (arith, here), ground (arith, here), h.0)
      | inr out ↦ any_in_range-Stands fn early late alarms heap (ground (arith, r, out)) h.1
    ]

insert-IsLinked :
    (fn : ℕ) (heap : List AlarmId) (q : AlarmQueue)
    → AllStand fn q.alarms heap
    → IsLinked fn (record q { approx_alarms_scheduled = insert fn heap q.approx_alarms_scheduled })
insert-IsLinked fn heap q h other e =
    let same : heap ≡ other =
      ground (arith, e, lookup-insert fn fn heap q.approx_alarms_scheduled) in
    subst (AllStand fn q.alarms) same h

module _ (now delay slop fn args : ℕ) (q : AlarmQueue) (within : slop ≤ delay) where
  abbrev early : ℕ
  early = delay + now - slop

  abbrev late : ℕ
  late = delay + now + slop

  schedule_in-IsScheduled :
      (known : Option (List AlarmId))
      → lookup fn q.approx_alarms_scheduled ≡ known
      → IsLinked fn q
      → IsScheduled fn early late (schedule_in known now delay slop fn args q)
        × IsLinked fn (schedule_in known now delay slop fn args q)
  unfolding schedule_in schedule
  schedule_in-IsScheduled none e h =
      let (a, q') = schedule now delay fn args q in
      let new = pushed-Stands a q.alarms refl in
      (
        (now + delay, omega (arith, within), omega arith, new),
        insert-IsLinked fn (heappush [] a) q' (heappush-AllStand fn q'.alarms [] a new tt),
      )
  schedule_in-IsScheduled (some heap) e h =
      let (a, q') = schedule now delay fn args q in
      let new = pushed-Stands a q.alarms refl in
      let from : sub_ℕ (delay + now) slop ≡ pos early = ground (arith, within) in
      elim (Bool-cases (any_in_range (sub_ℕ (delay + now) slop) (pos (delay + now + slop)) heap)) [
        | inl near ↦ simp near (
          any_in_range-Stands fn early late q.alarms heap
              (ap (λ t. any_in_range t (pos late) heap) (sym from) ∙ near) (h heap e),
          h,
        )
        | inr far ↦ simp far (
          (now + delay, omega (arith, within), omega arith, new),
          insert-IsLinked fn (heappush heap a) q' (
              heappush-AllStand fn q'.alarms heap a new
                (AllStand-push fn a q.alarms heap (h heap e))),
        )
      ]

-- `add`, with alarms among which those stand that the queue keeps as approximate ones of the clean-up,
-- raises nothing. The key has the value from then on, an active alarm of the clean-up stands among the
-- alarms, of a time from one to three expiration times later, and the approximate ones still stand
-- there.
pub add-IsScheduled :
    {V : Type 0} (now key : ℕ) (value : V) (d : ExpiringDict V) (alarms : AlarmQueue)
    → IsLinked d.cleanup_fn alarms
    → (d' : ExpiringDict V) × (alarms' : AlarmQueue) × (add now key value d alarms
        ≡ ok (d', alarms'))
      × (lookup key d'.contents ≡ some value)
      × IsScheduled d.cleanup_fn (now + d.expiration_time) (now + 3 * d.expiration_time) alarms'
      × IsLinked d.cleanup_fn alarms'
unfolding add register_approx_alarm schedule_approx
add-IsScheduled now key value d alarms linked =
    let time = d.expiration_time in
    let known = lookup d.cleanup_fn alarms.approx_alarms_scheduled in
    let ((at, from, until, stands), linked') =
      schedule_in-IsScheduled now (time * 2) time d.cleanup_fn no_args alarms (omega arith) known
        refl linked in
    (
      _,
      _,
      refl,
      ground (arith, lookup-insert key key value d.contents),
      (at, omega (arith, from), omega (arith, until), stands),
      linked',
    )
