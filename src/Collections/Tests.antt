-- ===== src/Collections/Tests.antt =====
-- The theorems of the collections at concrete ones.
use bxcommon.Prelude.Dict.{insert}
use bxcommon.Prelude.Dict as Dict
use bxcommon.Prelude.Result.{ok}
use bxcommon.Prelude.{◌≡◌, refl, [], ◌∷◌, ◌++◌, ℕ, newest, ◌-◌, true, if◌then◌else◌, arith}
use bxcommon.Collections.LimitedSet.{LimitedSizeSet, contains, add_item, IsValid, add_item-IsValid}
use bxcommon.Collections.PriorityQueue.Popped as Popping
use bxcommon.Collections.PriorityQueue.Popped.{Popped, pop-update_priority}
use bxcommon.Collections.PriorityQueue.{ObjectPriority, PriorityQueue, pop, update_priority}
use bxcommon.Collections.LimitedDict as LimitedDict
use bxcommon.Collections.LimitedDict.{
  LimitedSizeDict, new_dict, add, set_item, set_item-IsValid, set_item_twice,
}

abbrev full_set : LimitedSizeSet
full_set = record { contents = 5 ∷ 6 ∷ []; item_tracker = 5 ∷ 6 ∷ []; max_size = 2 }

abbrev full_set-IsValid : IsValid full_set
full_set-IsValid = record { tracked = refl; once = (refl, (refl, tt)); limited = omega arith }

add_item-IsValid_example :
    (s' : LimitedSizeSet) × (add_item 7 full_set ≡ ok s')
    × IsValid s'
    × (s'.contents ≡ (if contains 7 full_set then 5 ∷ 6 ∷ [] else newest 2 (5 ∷ 6 ∷ 7 ∷ [])))
add_item-IsValid_example = add_item-IsValid 7 full_set full_set-IsValid (omega arith)

abbrev full_dict : LimitedSizeDict
full_dict = record { contents = (5, 50) ∷ (6, 60) ∷ []; key_tracker = 5 ∷ 6 ∷ []; max_size = 2 }

abbrev full_dict-IsValid : LimitedDict.IsValid full_dict
full_dict-IsValid = record { tracked = refl; once = (refl, (refl, tt)); limited = omega arith }

set_item-IsValid_example :
    (d' : LimitedSizeDict) × (set_item 7 70 full_dict ≡ ok d')
    × LimitedDict.IsValid d'
    × (d'.contents ≡ (
        if Dict.contains 7 full_dict.contents
        then insert 7 70 full_dict.contents
        else newest 2 (full_dict.contents ++ ((7, 70) ∷ []))))
set_item-IsValid_example = set_item-IsValid 7 70 full_dict full_dict-IsValid (omega arith)

abbrev ranked : ℕ → ObjectPriority
ranked obj = record { priority_of = λ x. 10 - x; obj = obj }

-- Objects 3, 7 and 5, of priorities 7, 3 and 5.
abbrev three_objects : PriorityQueue
three_objects = record {
  items_dict = (3, ranked 3) ∷ (7, ranked 7) ∷ (5, ranked 5) ∷ [];
  items_tracker = (3, ranked 3) ∷ (7, ranked 7) ∷ (5, ranked 5) ∷ [];
  is_reversed = true;
}

abbrev three_objects-IsValid : Popping.IsValid three_objects
three_objects-IsValid = record {
  keyed = (refl, (refl, (refl, tt)));
  once = (refl, (refl, (refl, tt)));
}

pop-update_priority_example :
    (first : ℕ) × (q' : PriorityQueue) × (pop (update_priority three_objects) ≡ ok (first, q'))
    × Popped three_objects first q'
pop-update_priority_example =
    pop-update_priority three_objects 3 (ranked 3) three_objects-IsValid refl
