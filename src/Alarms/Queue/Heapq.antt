-- ===== src/Alarms/Queue/Heapq.antt =====
-- `heappush` and `heappop` of Python's heapq, on alarms.
pub mod Tally
pub mod Sift
pub mod Sunk
pub mod Heaped
use bxcommon.Prelude.{
  ℕ, zero, suc, ◌+◌, ◌-◌, ◌*◌, ◌/◌, Bool, ◌&&◌, ◌||◌, not, List, [], ◌∷◌, ◌++◌, ltb, ◌==◌, length,
  set, get_or, if◌then◌else◌,
}

pub record AlarmId : Type 0 where
  pub fire_time : ℕ
  pub count : ℕ
  pub fn : ℕ
  pub args : ℕ
  pub is_active : Bool

-- `AlarmId.__lt__`
abbrev pub before : AlarmId → AlarmId → Bool
before a b = ltb a.fire_time b.fire_time || ((a.fire_time == b.fire_time) && ltb a.count b.count)

-- `_siftdown`: the new item goes up from `pos` until its parent is no greater.
unfoldable pub siftdown : ℕ → AlarmId → ℕ → List AlarmId → List AlarmId
siftdown zero new pos heap = set heap pos new
siftdown (suc fuel) new pos heap =
    let parent_pos = (pos - 1) / 2 in
    let parent = get_or heap parent_pos new in
    let higher = siftdown fuel new parent_pos (set heap pos parent) in
    if (pos == 0) || not (before new parent) then set heap pos new else higher

-- The first loop of `_siftup`: the smaller child comes up, until there is none.
unfoldable pub siftup : ℕ → AlarmId → ℕ → List AlarmId → ℕ × List AlarmId
siftup zero new pos heap = (pos, heap)
siftup (suc fuel) new pos heap =
    let child = 2 * pos + 1 in
    let left = get_or heap child new in
    let right = get_or heap (child + 1) new in
    let smaller =
      if ltb (child + 1) (length heap) && not (before left right) then child + 1 else child in
    let lower = siftup fuel new smaller (set heap pos (get_or heap smaller new)) in
    if ltb child (length heap) then lower else (pos, heap)

unfoldable pub heappush : List AlarmId → AlarmId → List AlarmId
heappush heap a = siftdown (suc (length heap)) a (length heap) (heap ++ (a ∷ []))

-- The last of a list that is not empty, and the others.
unfoldable pub split_last : AlarmId → List AlarmId → List AlarmId × AlarmId
split_last a [] = ([], a)
split_last a (b ∷ rest) = let (front, last) = split_last b rest in (a ∷ front, last)

-- What `heappop` leaves of a heap.
unfoldable pub heappop : AlarmId → List AlarmId → List AlarmId
heappop first [] = []
heappop first (a ∷ rest) =
    let (front, last) = split_last a rest in
    let (pos, heap) = siftup (suc (length front)) last 0 (last ∷ front) in
    siftdown (suc (length heap)) last pos (set heap pos last)
