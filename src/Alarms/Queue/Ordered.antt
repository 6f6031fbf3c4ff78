-- ===== src/Alarms/Queue/Ordered.antt =====
-- The counts and the order of the alarms under the methods of the queue.
use bxcommon.Alarms.Queue.Heapq.{AlarmId, before}
use bxcommon.Alarms.Queue.{push, drop_inactive, deactivate}
use bxcommon.Prelude.{
  ℕ, ◌==◌, ◌≡◌, refl, Bool, true, false, ◌||◌, List, [], ◌∷◌, if◌then◌else◌, arith, Bool-cases, inl,
  inr,
}

-- The first of these is not before `a`.
abbrev pub FollowedBy : AlarmId → List AlarmId → Type 0
FollowedBy a [] = Unit {0}
FollowedBy a (b ∷ rest) = before b a ≡ false

-- The list that stands for the heap is in the order of the alarms.
abbrev pub IsOrdered : List AlarmId → Type 0
IsOrdered [] = Unit {0}
IsOrdered (a ∷ rest) = FollowedBy a rest × IsOrdered rest

-- An alarm of this count is there.
abbrev pub has : ℕ → List AlarmId → Bool
has k [] = false
has k (a ∷ rest) = (a.count == k) || has k rest

-- No two alarms have one count.
abbrev pub IsOnce : List AlarmId → Type 0
IsOnce [] = Unit {0}
IsOnce (a ∷ rest) = (has a.count rest ≡ false) × IsOnce rest

-- `a` is before all of these.
abbrev pub IsFirst : AlarmId → List AlarmId → Type 0
IsFirst a [] = Unit {0}
IsFirst a (b ∷ rest) = (before a b ≡ true) × IsFirst a rest

-- Each alarm is before all that stand behind it.
abbrev pub IsRanked : List AlarmId → Type 0
IsRanked [] = Unit {0}
IsRanked (a ∷ rest) = IsFirst a rest × IsRanked rest

pub has-push :
    (k : ℕ) (a : AlarmId) (alarms : List AlarmId)
    → has k (push a alarms) ≡ ((a.count == k) || has k alarms)
unfolding push
has-push k a [] = refl
has-push k a (b ∷ rest) = ground (arith, has-push k a rest)

pub push-IsOnce :
    (a : AlarmId) (alarms : List AlarmId)
    → has a.count alarms ≡ false
    → IsOnce alarms
    → IsOnce (push a alarms)
unfolding push
push-IsOnce a [] h o = (refl, tt)
push-IsOnce a (b ∷ rest) h o = elim (Bool-cases (before a b)) [
  | inl first ↦ rw first (h, o)
  | inr later ↦
      rw later (
        ground (arith, has-push b.count a rest, h, o.0),
        push-IsOnce a rest (ground (arith, h)) o.1,
      )
]

push-IsFirst :
    (a b : AlarmId) (alarms : List AlarmId)
    → before b a ≡ true
    → IsFirst b alarms
    → IsFirst b (push a alarms)
unfolding push
push-IsFirst a b [] h f = (h, tt)
push-IsFirst a b (c ∷ rest) h f = elim (Bool-cases (before a c)) [
  | inl first ↦ rw first (h, f)
  | inr later ↦ rw later (f.0, push-IsFirst a b rest h f.1)
]

before-IsFirst :
    (a b : AlarmId) (alarms : List AlarmId)
    → before a b ≡ true
    → IsFirst b alarms
    → IsFirst a alarms
before-IsFirst a b [] h f = tt
before-IsFirst a b (c ∷ rest) h f = (ground (arith, h, f.0), before-IsFirst a b rest h f.1)

pub push-IsRanked :
    (a : AlarmId) (alarms : List AlarmId)
    → has a.count alarms ≡ false
    → IsRanked alarms
    → IsRanked (push a alarms)
unfolding push
push-IsRanked a [] h r = (tt, tt)
push-IsRanked a (b ∷ rest) h r = elim (Bool-cases (before a b)) [
  | inl first ↦ rw first ((first, before-IsFirst a b rest first r.0), r)
  | inr later ↦
      let behind : before b a ≡ true = ground (arith, later, h) in
      rw later (push-IsFirst a b rest behind r.0, push-IsRanked a rest (ground (arith, h)) r.1)
]

pub has-deactivate :
    (k count : ℕ) (alarms : List AlarmId) → has k (deactivate count alarms) ≡ has k alarms
unfolding deactivate
has-deactivate k count [] = refl
has-deactivate k count (a ∷ rest) = ground (arith, has-deactivate k count rest)

pub deactivate-IsOnce :
    (count : ℕ) (alarms : List AlarmId) → IsOnce alarms → IsOnce (deactivate count alarms)
unfolding deactivate
deactivate-IsOnce count [] o = tt
deactivate-IsOnce count (a ∷ rest) o =
    ground (arith, has-deactivate a.count count rest, o.0, deactivate-IsOnce count rest o.1)

deactivate-IsFirst :
    (count : ℕ) (a a' : AlarmId) (alarms : List AlarmId)
    → a'.fire_time ≡ a.fire_time
    → a'.count ≡ a.count
    → IsFirst a alarms
    → IsFirst a' (deactivate count alarms)
unfolding deactivate
deactivate-IsFirst count a a' [] e f h = tt
deactivate-IsFirst count a a' (b ∷ rest) e f h =
    (ground (arith, e, f, h.0), deactivate-IsFirst count a a' rest e f h.1)

pub deactivate-IsRanked :
    (count : ℕ) (alarms : List AlarmId) → IsRanked alarms → IsRanked (deactivate count alarms)
unfolding deactivate
deactivate-IsRanked count [] r = tt
deactivate-IsRanked count (a ∷ rest) r =
    let a' = if a.count == count then record a { is_active = false } else a in
    (
      deactivate-IsFirst count a a' rest (ground arith) (ground arith) r.0,
      deactivate-IsRanked count rest r.1,
    )

pub has-drop_inactive :
    (k : ℕ) (alarms : List AlarmId) → has k alarms ≡ false → has k (drop_inactive alarms) ≡ false
unfolding drop_inactive
has-drop_inactive k [] h = refl
has-drop_inactive k (a ∷ rest) h = ground (arith, h, has-drop_inactive k rest)

pub drop_inactive-IsOnce : (alarms : List AlarmId) → IsOnce alarms → IsOnce (drop_inactive alarms)
unfolding drop_inactive
drop_inactive-IsOnce [] o = tt
drop_inactive-IsOnce (a ∷ rest) o = elim (Bool-cases a.is_active) [
  | inl on ↦ simp on o
  | inr off ↦ simp off (drop_inactive-IsOnce rest o.1)
]

pub drop_inactive-IsRanked :
    (alarms : List AlarmId) → IsRanked alarms → IsRanked (drop_inactive alarms)
unfolding drop_inactive
drop_inactive-IsRanked [] r = tt
drop_inactive-IsRanked (a ∷ rest) r = elim (Bool-cases a.is_active) [
  | inl on ↦ simp on r
  | inr off ↦ simp off (drop_inactive-IsRanked rest r.1)
]

-- Of alarms in this order the first is not after any other.
pub IsRanked-IsOrdered : (alarms : List AlarmId) → IsRanked alarms → IsOrdered alarms
IsRanked-IsOrdered [] r = tt
IsRanked-IsOrdered (a ∷ []) r = (tt, tt)
IsRanked-IsOrdered (a ∷ b ∷ rest) r = (ground (arith, r.0.0), IsRanked-IsOrdered (b ∷ rest) r.1)
