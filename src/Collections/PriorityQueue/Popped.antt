-- ===== src/Collections/PriorityQueue/Popped.antt =====
-- `update_priority` and `pop` of `PriorityQueue`.
use mathlib.Core.Path.{subst}
use bxcommon.Prelude.Result.{ok}
use bxcommon.Prelude.Dict.{Dict, lookup, insert, IsDistinct}
use bxcommon.Prelude.{
  ℕ, ◌≤◌, ◌≡◌, refl, sym, ap, ◌∙◌, Bool, true, false, none, some, List, [], ◌∷◌, ◌++◌, ◌==◌,
  if◌then◌else◌, arith, Bool-cases, Option-cases, List-cases, inl, inr, append_assoc, append-nil,
}
use bxcommon.Collections.PriorityQueue.Sorted.{
  entries, IsKeyed, AllAfter, IsSorted, goes_before_refl, sorted_items-IsSorted,
  lookup-sorted_items, sorted_items-IsDistinct,
}
use bxcommon.Collections.PriorityQueue.{
  ObjectPriority, PriorityQueue, pop_last, pop, get_priority, goes_before, sorted_items, collect,
  update_priority,
}

insert_new :
    (k : ℕ) (v : ObjectPriority) (d : Dict ObjectPriority)
    → lookup k d ≡ none
    → insert k v d ≡ d ++ ((k, v) ∷ [])
insert_new k v [] h = refl
insert_new k v ((i, w) ∷ d) h = ground (arith, insert_new k v d)

lookup-append :
    (j : ℕ) (c d : Dict ObjectPriority)
    → lookup j (c ++ d) ≡ (elim (lookup j c) [ some v ↦ some v | none ↦ lookup j d ])
lookup-append j [] d = refl
lookup-append j ((i, w) ∷ c) d = ground (arith, lookup-append j c d)

absent_before :
    (k : ℕ) (v : ObjectPriority) (d rest : Dict ObjectPriority)
    → IsDistinct (d ++ ((k, v) ∷ rest))
    → lookup k d ≡ none
absent_before k v [] rest h = refl
absent_before k v ((i, w) ∷ d) rest h =
    let i_absent = h.0 in
    ground (arith, absent_before k v d rest h.1, i_absent, lookup-append i d ((k, v) ∷ rest))

-- Items of different objects, none of them there yet, are put behind the others.
collect-entries :
    (items : List ObjectPriority) (d : Dict ObjectPriority)
    → IsDistinct (d ++ entries items)
    → collect items d ≡ d ++ entries items
unfolding collect
collect-entries [] d once = sym (append-nil d)
collect-entries (item ∷ items) d once =
    let first = insert_new item.obj item d (absent_before item.obj item d (entries items) once) in
    let regroup = append_assoc d ((item.obj, item) ∷ []) (entries items) in
    ap (collect items) first
    ∙ collect-entries items (d ++ ((item.obj, item) ∷ [])) (subst IsDistinct (sym regroup) once)
    ∙ regroup

pop_last-entries :
    (item : ObjectPriority) (items : List ObjectPriority)
    → (last : ObjectPriority) × (front : List ObjectPriority) × (pop_last (entries (item ∷ items))
        ≡ some (last.obj, entries front))
      × (item ∷ items ≡ front ++ (last ∷ []))
unfolding pop_last
pop_last-entries item [] = (item, [], refl, refl)
pop_last-entries item (next ∷ items) =
    let (last, front, run, split) = pop_last-entries next items in
    (last, item ∷ front, rw run refl, ap (◌∷◌ item) split)

entries-append : (xs ys : List ObjectPriority) → entries (xs ++ ys) ≡ entries xs ++ entries ys
entries-append [] ys = refl
entries-append (x ∷ xs) ys = ap (◌∷◌ (x.obj, x)) (entries-append xs ys)

AllAfter-last :
    (r : Bool) (a last : ObjectPriority) (front : List ObjectPriority)
    → AllAfter r a (front ++ (last ∷ []))
    → goes_before r a last ≡ true
AllAfter-last r a last [] h = h.0
AllAfter-last r a last (b ∷ front) h = AllAfter-last r a last front h.1

-- Every item of a sorted list goes before the last.
last_of_sorted :
    (r : Bool) (last : ObjectPriority) (front : List ObjectPriority) (j : ℕ) (item : ObjectPriority)
    → IsSorted r (front ++ (last ∷ []))
    → lookup j (entries (front ++ (last ∷ []))) ≡ some item
    → goes_before r item last ≡ true
last_of_sorted r last [] j item h found = elim (Bool-cases (j == last.obj)) [
  | inl same ↦
      let e : last ≡ item = ground (arith, same, found) in
      ap (λ x. goes_before r x last) (sym e) ∙ goes_before_refl r last
  | inr other ↦ absurd (ground (arith, other, found))
]
last_of_sorted r last (b ∷ front) j item h found = elim (Bool-cases (j == b.obj)) [
  | inl same ↦
      let e : b ≡ item = ground (arith, same, found) in
      ap (λ x. goes_before r x last) (sym e) ∙ AllAfter-last r b last front h.0
  | inr other ↦ last_of_sorted r last front j item h.1 (ground (arith, other, found))
]

-- A queue has each object once, and its item under it.
pub record IsValid (q : PriorityQueue) : Type 0 where
  pub keyed : IsKeyed q.items_dict
  pub once : IsDistinct q.items_dict

-- The priority of the object that is taken, and that of another: the least where the order is reversed.
abbrev pub IsExtreme : Bool → ℕ → ℕ → Type 0
IsExtreme true taken other = taken ≤ other
IsExtreme false taken other = other ≤ taken

goes_before-IsExtreme :
    (r : Bool) (other item : ObjectPriority)
    → goes_before r other item ≡ true
    → IsExtreme r (item.priority_of item.obj) (other.priority_of other.obj)
unfolding goes_before get_priority
goes_before-IsExtreme true other item h = ground (arith, h)
goes_before-IsExtreme false other item h = ground (arith, h)

-- What `pop` gives: an object of the queue of extreme priority, and the queue without it.
pub record Popped (q : PriorityQueue) (obj : ℕ) (q' : PriorityQueue) : Type 0 where
  pub item : ObjectPriority
  pub from_queue : lookup obj q.items_dict ≡ some item
  pub extreme :
      (j : ℕ) (other : ObjectPriority)
      → lookup j q.items_dict ≡ some other
      → IsExtreme q.is_reversed (item.priority_of item.obj) (other.priority_of other.obj)
  pub left : (j : ℕ) → lookup j q'.items_dict ≡ (if j == obj then none else lookup j q.items_dict)

-- The entries of a queue after an update: those of the sorted items.
update-entries :
    (q : PriorityQueue)
    → IsValid q
    → update_priority q
      ≡ record q { items_dict = entries (sorted_items q.is_reversed q.items_dict) }
unfolding update_priority
update-entries q v =
    ap (λ d. record q { items_dict = d })
      (collect-entries (sorted_items q.is_reversed q.items_dict) []
        (sorted_items-IsDistinct q.is_reversed q.items_dict v.keyed v.once))

last-Popped :
    (q : PriorityQueue) (items : List ObjectPriority) (last : ObjectPriority)
    (front : List ObjectPriority)
    → ((j : ℕ) → lookup j (entries items) ≡ lookup j q.items_dict)
    → items ≡ front ++ (last ∷ [])
    → IsSorted q.is_reversed items
    → IsDistinct (entries items)
    → Popped q last.obj (record q { items_dict = entries front })
last-Popped q items last front same split in_order once =
    let end = (last.obj, last) ∷ [] in
    let all : entries items ≡ entries front ++ end =
      ap entries split ∙ entries-append front (last ∷ []) in
    let absent : lookup last.obj (entries front) ≡ none =
      absent_before last.obj last (entries front) [] (subst IsDistinct all once) in
    let at : (j : ℕ) → lookup j (entries front ++ end) ≡ lookup j q.items_dict =
      λ j. ap (lookup j) (sym all) ∙ same j in
    record {
      item = last;
      from_queue = ground (arith, at last.obj, lookup-append last.obj (entries front) end, absent);
      extreme = λ j other found. goes_before-IsExtreme q.is_reversed other last (
          last_of_sorted q.is_reversed last front j other
            (subst (IsSorted q.is_reversed) split in_order)
            (ap (λ ys. lookup j (entries ys)) (sym split) ∙ same j ∙ found));
      left = λ j. elim (Option-cases (lookup j (entries front))) [
        | inl out ↦ ground (arith, at j, lookup-append j (entries front) end, absent, out)
        | inr (w, kept) ↦ ground (arith, at j, lookup-append j (entries front) end, absent, kept)
      ];
    }

-- After an update a valid queue that is not empty gives out an object whose priority is at most that of
-- every other where its order is reversed, and at least that of every other where it is not, and keeps
-- the others.
pub pop-update_priority :
    (q : PriorityQueue) (obj : ℕ) (item : ObjectPriority)
    → IsValid q
    → lookup obj q.items_dict ≡ some item
    → (first : ℕ) × (q' : PriorityQueue) × (pop (update_priority q) ≡ ok (first, q'))
      × Popped q first q'
unfolding pop
pop-update_priority q obj item v some_item =
    let r = q.is_reversed in
    let items = sorted_items r q.items_dict in
    let same : (j : ℕ) → lookup j (entries items) ≡ lookup j q.items_dict =
      λ j. lookup-sorted_items r q.items_dict j v.keyed v.once in
    elim (List-cases items) [
      | inl empty ↦
          absurd (ground (arith, ap (λ xs. lookup obj (entries xs)) empty, same obj, some_item))
      | inr (x, xs, e) ↦
          let (last, front, run, split) = pop_last-entries x xs in
          let popped : pop_last (entries items) ≡ some (last.obj, entries front) =
            ap (λ ys. pop_last (entries ys)) e ∙ run in
          let q' : PriorityQueue = record q { items_dict = entries front } in
          let run' : pop (record q { items_dict = entries items }) ≡ ok (last.obj, q') =
            rw (pop, popped) refl in
          (
            last.obj,
            q',
            ap pop (update-entries q v) ∙ run',
            last-Popped q items last front same (e ∙ split) (sorted_items-IsSorted r q.items_dict)
                (sorted_items-IsDistinct r q.items_dict v.keyed v.once),
          )
    ]
