-- ===== src/Collections/PriorityQueue/Sorted.antt =====
-- The sorting of the items of a priority queue.
use bxcommon.Prelude.Dict.{Dict, lookup, IsDistinct}
use bxcommon.Prelude.{
  ℕ, ◌≡◌, refl, ap, ◌∙◌, Bool, true, false, none, some, List, [], ◌∷◌, ◌==◌, if◌then◌else◌, arith,
  Bool-cases, inl, inr,
}
use bxcommon.Collections.PriorityQueue.{ObjectPriority, goes_before, place_sorted, sorted_items}

-- The entries of items.
abbrev pub entries : List ObjectPriority → Dict ObjectPriority
entries [] = []
entries (item ∷ items) = (item.obj, item) ∷ entries items

-- Each item stands under its own object.
abbrev pub IsKeyed : Dict ObjectPriority → Type 0
IsKeyed [] = Unit
IsKeyed ((obj, item) ∷ d) = (item.obj ≡ obj) × IsKeyed d

abbrev pub AllAfter : Bool → ObjectPriority → List ObjectPriority → Type 0
AllAfter reversed item [] = Unit
AllAfter reversed item (other ∷ items) =
    (goes_before reversed item other ≡ true) × AllAfter reversed item items

abbrev pub IsSorted : Bool → List ObjectPriority → Type 0
IsSorted reversed [] = Unit
IsSorted reversed (item ∷ items) = AllAfter reversed item items × IsSorted reversed items

goes_before_trans :
    (r : Bool) (a b c : ObjectPriority)
    → goes_before r a b ≡ true
    → goes_before r b c ≡ true
    → goes_before r a c ≡ true
unfolding goes_before
goes_before_trans true a b c h k = ground arith
goes_before_trans false a b c h k = ground arith

pub goes_before_refl : (r : Bool) (a : ObjectPriority) → goes_before r a a ≡ true
unfolding goes_before
goes_before_refl true a = ground arith
goes_before_refl false a = ground arith

goes_before_total :
    (r : Bool) (a b : ObjectPriority) → goes_before r a b ≡ false → goes_before r b a ≡ true
unfolding goes_before
goes_before_total true a b h = ground arith
goes_before_total false a b h = ground arith

AllAfter-goes_before :
    (r : Bool) (a b : ObjectPriority) (items : List ObjectPriority)
    → goes_before r a b ≡ true
    → AllAfter r b items
    → AllAfter r a items
AllAfter-goes_before r a b [] h k = tt
AllAfter-goes_before r a b (c ∷ items) h k =
    (goes_before_trans r a b c h k.0, AllAfter-goes_before r a b items h k.1)

AllAfter-place_sorted :
    (r : Bool) (a item : ObjectPriority) (items : List ObjectPriority)
    → goes_before r a item ≡ true
    → AllAfter r a items
    → AllAfter r a (place_sorted r item items)
unfolding place_sorted
AllAfter-place_sorted r a item [] h k = (h, tt)
AllAfter-place_sorted r a item (b ∷ items) h k = elim (Bool-cases (goes_before r item b)) [
  | inl first ↦ rw first (h, k)
  | inr later ↦ rw later (k.0, AllAfter-place_sorted r a item items h k.1)
]

place_sorted-IsSorted :
    (r : Bool) (item : ObjectPriority) (items : List ObjectPriority)
    → IsSorted r items
    → IsSorted r (place_sorted r item items)
unfolding place_sorted
place_sorted-IsSorted r item [] h = (tt, tt)
place_sorted-IsSorted r item (b ∷ items) h = elim (Bool-cases (goes_before r item b)) [
  | inl first ↦ rw first ((first, AllAfter-goes_before r item b items first h.0), h)
  | inr later ↦ rw later (
    AllAfter-place_sorted r b item items (goes_before_total r item b later) h.0,
    place_sorted-IsSorted r item items h.1,
  )
]

pub sorted_items-IsSorted : (r : Bool) (d : Dict ObjectPriority) → IsSorted r (sorted_items r d)
unfolding sorted_items
sorted_items-IsSorted r [] = tt
sorted_items-IsSorted r ((obj, item) ∷ d) =
    place_sorted-IsSorted r item (sorted_items r d) (sorted_items-IsSorted r d)

lookup-place_sorted :
    (r : Bool) (item : ObjectPriority) (items : List ObjectPriority) (j : ℕ)
    → lookup item.obj (entries items) ≡ none
    → lookup j (entries (place_sorted r item items))
      ≡ (if j == item.obj then some item else lookup j (entries items))
unfolding place_sorted
lookup-place_sorted r item [] j h = refl
lookup-place_sorted r item (b ∷ items) j h = elim (Bool-cases (goes_before r item b)) [
  | inl first ↦ rw first refl
  | inr later ↦ rw later (ground (arith, lookup-place_sorted r item items j))
]

place_sorted-IsDistinct :
    (r : Bool) (item : ObjectPriority) (items : List ObjectPriority)
    → lookup item.obj (entries items) ≡ none
    → IsDistinct (entries items)
    → IsDistinct (entries (place_sorted r item items))
unfolding place_sorted
place_sorted-IsDistinct r item [] h k = (refl, tt)
place_sorted-IsDistinct r item (b ∷ items) h k = elim (Bool-cases (goes_before r item b)) [
  | inl first ↦ rw first (h, k)
  | inr later ↦ rw later (
    ground (arith, lookup-place_sorted r item items b.obj, k.0, h),
    place_sorted-IsDistinct r item items (ground (arith, h)) k.1,
  )
]

pub lookup-sorted_items :
    (r : Bool) (d : Dict ObjectPriority) (j : ℕ)
    → IsKeyed d
    → IsDistinct d
    → lookup j (entries (sorted_items r d)) ≡ lookup j d
unfolding sorted_items
lookup-sorted_items r [] j keyed once = refl
lookup-sorted_items r ((obj, item) ∷ d) j keyed once =
    let absent : lookup item.obj (entries (sorted_items r d)) ≡ none =
      lookup-sorted_items r d item.obj keyed.1 once.1 ∙ ap (λ k. lookup k d) keyed.0 ∙ once.0 in
    ground (
      arith,
      lookup-place_sorted r item (sorted_items r d) j absent,
      keyed.0,
      lookup-sorted_items r d j keyed.1 once.1,
    )

pub sorted_items-IsDistinct :
    (r : Bool) (d : Dict ObjectPriority)
    → IsKeyed d
    → IsDistinct d
    → IsDistinct (entries (sorted_items r d))
unfolding sorted_items
sorted_items-IsDistinct r [] keyed once = tt
sorted_items-IsDistinct r ((obj, item) ∷ d) keyed once =
    place_sorted-IsDistinct r item (sorted_items r d)
      (lookup-sorted_items r d item.obj keyed.1 once.1 ∙ ap (λ k. lookup k d) keyed.0 ∙ once.0)
      (sorted_items-IsDistinct r d keyed.1 once.1)
