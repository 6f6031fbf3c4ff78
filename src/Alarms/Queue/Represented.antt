-- ===== src/Alarms/Queue/Represented.antt =====
-- A heap of heapq and the sorted list that stands for it.
use bxcommon.Alarms.Queue.Heapq.{AlarmId, before, heappush, heappop}
use bxcommon.Alarms.Queue.Heapq.Heaped.{
  IsHeaped, root_least, heappush-IsHeaped, tally-heappush, heappop-IsHeaped,
}
use bxcommon.Alarms.Queue.Heapq.Tally.{one_if, tally}
use bxcommon.Alarms.Queue.Ordered.{has, IsOnce, IsFirst, IsRanked}
use bxcommon.Alarms.Queue.Reached.{Reach, Reach-IsRanked}
use bxcommon.Alarms.Queue.{AlarmQueue, push}
use bxcommon.Prelude.{
  ℕ, suc, ◌+◌, ◌<◌, ◌≡◌, refl, sym, ap, ◌∙◌, Bool, true, false, ◌&&◌, List, [], ◌∷◌, ◌==◌, length,
  get_or, arith, Bool-cases, inl, inr,
}

unfoldable same_flag : Bool → Bool → Bool
same_flag true b = b
same_flag false true = false
same_flag false false = true

unfoldable same_alarm : AlarmId → AlarmId → Bool
same_alarm a b =
    (a.fire_time == b.fire_time)
    && ((a.count == b.count)
        && ((a.fn == b.fn) && ((a.args == b.args) && same_flag a.is_active b.is_active)))

same_flag_sound : (b c : Bool) → same_flag b c ≡ true → b ≡ c
unfolding same_flag
same_flag_sound true c h = sym h
same_flag_sound false true h = h
same_flag_sound false false h = refl

same_flag_refl : (b : Bool) → same_flag b b ≡ true
unfolding same_flag
same_flag_refl true = refl
same_flag_refl false = refl

same_alarm_refl : (a : AlarmId) → same_alarm a a ≡ true
unfolding same_alarm
same_alarm_refl a = ground (arith, same_flag_refl a.is_active)

same_alarm_sound : (a b : AlarmId) → same_alarm a b ≡ true → a ≡ b
unfolding same_alarm
same_alarm_sound a b h =
    let time : a.fire_time ≡ b.fire_time = ground (arith, h) in
    let count : a.count ≡ b.count = ground (arith, h) in
    let fn : a.fn ≡ b.fn = ground (arith, h) in
    let args : a.args ≡ b.args = ground (arith, h) in
    let active : a.is_active ≡ b.is_active =
      same_flag_sound a.is_active b.is_active (ground (arith, h)) in
    ap (λ x. record a { fire_time = x }) time
    ∙ ap (λ x. record a { fire_time = b.fire_time; count = x }) count
    ∙ ap (λ x. record a { fire_time = b.fire_time; count = b.count; fn = x }) fn
    ∙ ap (λ x. record a { fire_time = b.fire_time; count = b.count; fn = b.fn; args = x }) args
    ∙ ap (λ x. record b { is_active = x }) active

-- A heap of these alarms: as many of its elements pass any test.
pub record Represents (heap alarms : List AlarmId) : Type 0 where
  pub order : IsHeaped heap
  pub same : (test : AlarmId → Bool) → tally test heap ≡ tally test alarms

tally-push :
    (test : AlarmId → Bool) (a : AlarmId) (alarms : List AlarmId)
    → tally test (push a alarms) ≡ tally test alarms + one_if (test a)
unfolding push
tally-push test a [] = omega arith
tally-push test a (b ∷ rest) = elim (Bool-cases (before a b)) [
  | inl first ↦ rw first (omega arith)
  | inr later ↦ rw later (omega (arith, tally-push test a rest))
]

heappush-Represents :
    (heap alarms : List AlarmId) (a : AlarmId)
    → Represents heap alarms
    → Represents (heappush heap a) (push a alarms)
heappush-Represents heap alarms a r = record {
  order = heappush-IsHeaped heap a r.order;
  same = λ test. omega (arith, tally-heappush test heap a, tally-push test a alarms, r.same test);
}

tally_none :
    (test : AlarmId → Bool) (d : AlarmId) (heap : List AlarmId)
    → ((i : ℕ) → i < length heap → test (get_or heap i d) ≡ false)
    → tally test heap ≡ 0
tally_none test d [] h = refl
tally_none test d (a ∷ heap) h =
    let first : one_if (test a) ≡ 0 = ap one_if (h 0 (omega arith)) in
    omega (arith, first, tally_none test d heap (λ i l. h (suc i) (omega (arith, l))))

not_behind :
    (first b : AlarmId) (rest : List AlarmId)
    → before b first ≡ false
    → IsFirst b rest
    → tally (same_alarm first) rest ≡ 0
not_behind first b [] h f = refl
not_behind first b (c ∷ rest) h f = elim (Bool-cases (same_alarm first c)) [
  | inl same ↦
      let e : before b first ≡ true = ap (before b) (same_alarm_sound first c same) ∙ f.0 in
      absurd (ground (arith, h, e))
  | inr other ↦ omega (arith, ap one_if other, not_behind first b rest h f.1)
]

-- The root of a heap is the first of the list.
root_first :
    (first b : AlarmId) (more rest : List AlarmId)
    → Represents (first ∷ more) (b ∷ rest)
    → IsFirst b rest
    → first ≡ b
root_first first b more rest r f =
    let least : tally (λ x. before x first) (first ∷ more) ≡ 0 =
      tally_none (λ x. before x first) first (first ∷ more)
        (λ i l. root_least first (first ∷ more) i r.order l) in
    let after : before b first ≡ false = elim (Bool-cases (before b first)) [
      | inl sooner ↦ absurd (omega (arith, least, r.same (λ x. before x first), ap one_if sooner))
      | inr later ↦ later
    ] in
    elim (Bool-cases (same_alarm first b)) [
      | inl same ↦ same_alarm_sound first b same
      | inr other ↦ absurd (
          omega (
            arith,
            r.same (same_alarm first),
            ap one_if other,
            ap one_if (same_alarm_refl first),
            not_behind first b rest after f,
          ))
    ]

-- What is popped of a heap: the first alarm, and a heap of the others is left.
abbrev pub Pops : List AlarmId → List AlarmId → Type 0
Pops [] alarms = alarms ≡ []
Pops (first ∷ more) alarms =
    (rest : List AlarmId) × (alarms ≡ first ∷ rest) × Represents (heappop first more) rest

heappop-Represents :
    (heap alarms : List AlarmId) → IsRanked alarms → Represents heap alarms → Pops heap alarms
heappop-Represents [] [] k r = refl
heappop-Represents [] (b ∷ rest) k r = absurd (omega (arith, r.same (λ x. true)))
heappop-Represents (first ∷ more) [] k r = absurd (omega (arith, r.same (λ x. true)))
heappop-Represents (first ∷ more) (b ∷ rest) k r =
    let e = root_first first b more rest r k.0 in
    let (order, left) = heappop-IsHeaped first more r.order in
    (
      rest,
      ap (λ x. x ∷ rest) (sym e),
      record {
        order = order;
        same = λ test. omega (arith, left test, r.same test, ap (λ x. one_if (test x)) e);
      },
    )

-- However a queue was reached from a new one, also in the middle of calls of alarms, no two of its
-- alarms have one count and the count of the next registration is free; each alarm goes strictly
-- before all that stand behind it. And whatever heap of these alarms heapq has: heappush makes a heap
-- of what `push` makes of the list, and the first element of the heap is the first alarm, behind which
-- heappop leaves a heap of the others; the heap is empty where the list is.
pub Reach-Represents :
    {q : AlarmQueue} {running : List AlarmId} (heap : List AlarmId)
    → Reach q running
    → Represents heap q.alarms
    → (IsRanked q.alarms × IsOnce q.alarms × (has q.uniq_count q.alarms ≡ false))
      × ((a : AlarmId) → Represents (heappush heap a) (push a q.alarms))
      × Pops heap q.alarms
Reach-Represents {q} heap reached r =
    let (ranked, once, free) = Reach-IsRanked reached in
    (
      (ranked, once, free),
      λ a. heappush-Represents heap q.alarms a r,
      heappop-Represents heap q.alarms ranked r,
    )
