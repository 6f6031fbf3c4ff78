-- ===== src/Alarms/Queue/Due.antt =====
-- The alarms of a queue that are due, and those that are not.
use bxcommon.Alarms.Queue.Heapq.{AlarmId}
use bxcommon.Alarms.Queue.{AlarmQueue, push}
use bxcommon.Alarms.Queue.Ordered.{IsOrdered}
use bxcommon.Prelude.Dict.{lookup}
use bxcommon.Prelude.{
  ℕ, ◌<◌, ◌≤◌, ◌≡◌, refl, none, List, [], ◌∷◌, ◌++◌, leb, if◌then◌else◌, arith, Bool-cases, inl,
  inr,
}

-- The alarms of the front that are due, and the others.
unfoldable pub due : ℕ → List AlarmId → List AlarmId
due now [] = []
due now (a ∷ rest) = let below = due now rest in if leb a.fire_time now then a ∷ below else []

unfoldable pub not_due : ℕ → List AlarmId → List AlarmId
not_due now [] = []
not_due now (a ∷ rest) =
    let below = not_due now rest in if leb a.fire_time now then below else a ∷ rest

abbrev pub AllDue : ℕ → List AlarmId → Type 0
AllDue now [] = Unit {0}
AllDue now (a ∷ rest) = (a.fire_time ≤ now) × AllDue now rest

abbrev pub AllLater : ℕ → List AlarmId → Type 0
AllLater now [] = Unit {0}
AllLater now (a ∷ rest) = (now < a.fire_time) × AllLater now rest

-- The functions of these alarms are not those of approximate ones.
abbrev pub NotApprox : AlarmQueue → List AlarmId → Type 0
NotApprox q [] = Unit {0}
NotApprox q (a ∷ rest) = (lookup a.fn q.approx_alarms_scheduled ≡ none) × NotApprox q rest

pub due-split : (now : ℕ) (alarms : List AlarmId) → due now alarms ++ not_due now alarms ≡ alarms
unfolding due not_due
due-split now [] = refl
due-split now (a ∷ rest) = ground (arith, due-split now rest)

pub due-AllDue : (now : ℕ) (alarms : List AlarmId) → AllDue now (due now alarms)
unfolding due
due-AllDue now [] = tt
due-AllDue now (a ∷ rest) = ground (arith, due-AllDue now rest)

pub ordered_later :
    (now : ℕ) (a : AlarmId) (rest : List AlarmId)
    → IsOrdered (a ∷ rest)
    → now < a.fire_time
    → AllLater now (a ∷ rest)
ordered_later now a [] o h = (h, tt)
ordered_later now a (b ∷ rest) o h = (h, ordered_later now b rest o.1 (ground (arith, o.0)))

pub not_due-AllLater :
    (now : ℕ) (alarms : List AlarmId) → IsOrdered alarms → AllLater now (not_due now alarms)
unfolding not_due
not_due-AllLater now [] o = tt
not_due-AllLater now (a ∷ rest) o = elim (Bool-cases (leb a.fire_time now)) [
  | inl old ↦ rw old (not_due-AllLater now rest o.1)
  | inr young ↦ rw young (ordered_later now a rest o (ground arith))
]

pub push-behind :
    (now : ℕ) (a : AlarmId) (front back : List AlarmId)
    → AllDue now front
    → now < a.fire_time
    → push a (front ++ back) ≡ front ++ push a back
unfolding push
push-behind now a [] back d h = refl
push-behind now a (b ∷ front) back d h = ground (arith, push-behind now a front back d.1, d.0, h)

pub push-AllLater :
    (now : ℕ) (a : AlarmId) (back : List AlarmId)
    → now < a.fire_time
    → AllLater now back
    → AllLater now (push a back)
unfolding push
push-AllLater now a [] h l = (h, tt)
push-AllLater now a (b ∷ back) h l = ground (arith, push-AllLater now a back h l.1, l.0, h)
