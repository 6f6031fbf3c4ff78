-- ===== src/Collections/PriorityQueue.antt =====
-- `PriorityQueue` of bxcommon/utils/collections/priority_queue.py: objects sorted by a priority that is
-- asked for when the queue is updated. Objects are numbers; a priority is a number.
pub mod Sorted
pub mod Popped
use bxcommon.Prelude.Result.{Result, ok, err, key_error, value_error, ◌>>=◌}
use bxcommon.Prelude.Dict.{Dict, lookup, insert, erase, contains}
use bxcommon.Prelude.{
  ℕ, ◌+◌, ◌-◌, ◌≤◌, ◌≡◌, ◌≢◌, refl, sym, ap, ◌∙◌, Bool, true, false, not, Option, none, some, List,
  [], ◌∷◌, ◌++◌, ltb, leb, ◌==◌, length, if◌then◌else◌, arith, Bool-cases, Option-cases, List-cases,
  inl, inr,
}

pub record ObjectPriority : Type 0 where
  pub priority_of : ℕ → ℕ
  pub obj : ℕ

unfoldable pub get_priority : ObjectPriority → ℕ
get_priority item = item.priority_of item.obj

pub record PriorityQueue : Type 0 where
  pub items_dict : Dict ObjectPriority
  pub items_tracker : Dict ObjectPriority
  pub is_reversed : Bool

unfoldable pub add : ObjectPriority → PriorityQueue → Result PriorityQueue
add item q =
    if contains item.obj q.items_tracker
    then err value_error
    else ok (record q {
      items_tracker = insert item.obj item q.items_tracker;
      items_dict = insert item.obj item q.items_dict;
    })

unfoldable pub push : ℕ → PriorityQueue → Result PriorityQueue
push obj q = elim (lookup obj q.items_tracker) [
  | none ↦ err value_error
  | some item ↦ ok (
      if contains obj q.items_dict
      then q
      else record q { items_dict = insert obj item q.items_dict })
]

-- Both deletions, of which the first that finds no key ends the `try`.
unfoldable pub remove : ℕ → PriorityQueue → PriorityQueue
remove obj q =
    if contains obj q.items_tracker
    then record q { items_tracker = erase obj q.items_tracker; items_dict = erase obj q.items_dict }
    else q

-- `dict.popitem`: the last entry.
unfoldable pub pop_last : Dict ObjectPriority → Option (ℕ × Dict ObjectPriority)
pop_last [] = none
pop_last ((obj, item) ∷ []) = some (obj, [])
pop_last ((obj, item) ∷ next ∷ rest) = elim (pop_last (next ∷ rest)) [
  | none ↦ none
  | some (last, front) ↦ some (last, (obj, item) ∷ front)
]

unfoldable pub pop : PriorityQueue → Result (ℕ × PriorityQueue)
pop q = elim (pop_last q.items_dict) [
  | none ↦ err key_error
  | some (obj, rest) ↦ ok (obj, record q { items_dict = rest })
]

unfoldable pub try_remove_from_queue : ℕ → PriorityQueue → Result PriorityQueue
try_remove_from_queue obj q =
    if contains obj q.items_tracker
    then ok (record q { items_dict = erase obj q.items_dict })
    else err value_error

-- An item goes before another: by priority, downwards where the order is reversed; equal ones keep
-- their order.
unfoldable pub goes_before : Bool → ObjectPriority → ObjectPriority → Bool
goes_before reversed item other =
    if reversed
    then leb (get_priority other) (get_priority item)
    else leb (get_priority item) (get_priority other)

-- `sorted(items, key=..., reverse=...)`
unfoldable pub place_sorted : Bool → ObjectPriority → List ObjectPriority → List ObjectPriority
place_sorted reversed item [] = item ∷ []
place_sorted reversed item (other ∷ rest) =
    let later = place_sorted reversed item rest in
    if goes_before reversed item other then item ∷ other ∷ rest else other ∷ later

unfoldable pub sorted_items : Bool → Dict ObjectPriority → List ObjectPriority
sorted_items reversed [] = []
sorted_items reversed ((obj, item) ∷ rest) = place_sorted reversed item (sorted_items reversed rest)

-- `for item in sorted_items: new_items_dict[item.get_object()] = item`
unfoldable pub collect : List ObjectPriority → Dict ObjectPriority → Dict ObjectPriority
collect [] d = d
collect (item ∷ items) d = collect items (insert item.obj item d)

unfoldable pub update_priority : PriorityQueue → PriorityQueue
update_priority q = record q { items_dict = collect (sorted_items q.is_reversed q.items_dict) [] }
