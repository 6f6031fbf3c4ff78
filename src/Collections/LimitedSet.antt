-- ===== src/Collections/LimitedSet.antt =====
-- `LimitedSizeSet` of bxcommon/utils/limited_size_set.py: a set of a limited size, whose items are tracked in
-- the order of their coming.
use mathlib.Core.Path.{subst}
use bxcommon.Prelude.Result.{Result, ok, err, key_error, value_error, index_error, ◌>>=◌}
use bxcommon.Prelude.Sets.{elem, add, discard, IsSetList, add-IsSetList}
use bxcommon.Prelude.{
  ℕ, suc, ◌-◌, ◌≤◌, ◌<◌, ◌≡◌, refl, sym, ap, ◌∙◌, Bool, true, false, List, [], ◌∷◌, ◌++◌, ltb, ◌==◌,
  length, drop, newest, if◌then◌else◌, arith, length-append, Bool-cases, List-cases, inl, inr,
}

pub record LimitedSizeSet : Type 0 where
  pub contents : List ℕ
  pub item_tracker : List ℕ
  pub max_size : ℕ

unfoldable pub new_set : ℕ → LimitedSizeSet
new_set max_size = record { contents = []; item_tracker = []; max_size = max_size }

-- `__contains__`
unfoldable pub contains : ℕ → LimitedSizeSet → Bool
contains item s = elem item s.contents

-- `set.remove`, and `deque.remove`
unfoldable pub remove_from_set : ℕ → List ℕ → Result (List ℕ)
remove_from_set value contents =
    if elem value contents then ok (discard value contents) else err key_error

unfoldable pub remove : ℕ → LimitedSizeSet → Result LimitedSizeSet
remove value s = do
  contents ← remove_from_set value s.contents
  (if elem value s.item_tracker
      then ok (record s { contents = contents; item_tracker = discard value s.item_tracker })
      else err value_error)

-- The loop of `_make_room_for_new_item`: the contents and the tracker that it leaves.
unfoldable pub make_room : ℕ → List ℕ → List ℕ → Result (List ℕ × List ℕ)
make_room max_size contents [] =
    if ltb max_size (length contents) then err index_error else ok (contents, [])
make_room max_size contents (key ∷ tracker) =
    let later : Result (List ℕ × List ℕ) =
      remove_from_set key contents >>= λ rest. make_room max_size rest tracker in
    if ltb max_size (length contents) then later else ok (contents, key ∷ tracker)

unfoldable pub add_item : ℕ → LimitedSizeSet → Result LimitedSizeSet
add_item value s =
    let added = add value s.contents in
    if length added == length s.item_tracker then ok (record s { contents = added }) else (do
      (contents, tracker) ← make_room s.max_size added s.item_tracker
      ok (record s { contents = contents; item_tracker = tracker ++ (value ∷ []) }))

-- The tracker has the items in the order of their coming, each once, and no more than the limit.
pub record IsValid (s : LimitedSizeSet) : Type 0 where
  pub tracked : s.contents ≡ s.item_tracker
  pub once : IsSetList s.item_tracker
  pub limited : length s.item_tracker ≤ s.max_size

make_room_fine :
    (max : ℕ) (contents tracker : List ℕ)
    → length contents ≤ max
    → make_room max contents tracker ≡ ok (contents, tracker)
unfolding make_room
make_room_fine max contents [] h = ground arith
make_room_fine max contents (key ∷ tracker) h = ground arith

make_room_full :
    (max key : ℕ) (tracker : List ℕ) (value : ℕ)
    → suc (length tracker) ≡ max
    → make_room max ((key ∷ tracker) ++ (value ∷ [])) (key ∷ tracker)
      ≡ ok (tracker ++ (value ∷ []), tracker)
unfolding make_room remove_from_set
make_room_full max key tracker value full =
    let len = length-append tracker (value ∷ []) in
    let rest = make_room_fine max (tracker ++ (value ∷ [])) tracker (omega (arith, len)) in
    let more : ltb max (suc (length (tracker ++ (value ∷ [])))) ≡ true = ground (arith, len) in
    ground (arith, rest, more)

new-IsSetList :
    (value : ℕ) (items : List ℕ)
    → IsSetList items
    → elem value items ≡ false
    → IsSetList (items ++ (value ∷ []))
new-IsSetList value items once new =
    subst IsSetList (ground (arith, new)) (add-IsSetList value items once)

-- Adding an item to a valid set of a limit above 0 raises nothing and leaves a valid set. An item that
-- is there changes nothing; a new one comes in, behind the others, of which the oldest goes where the
-- limit is reached.
pub add_item-IsValid :
    (value : ℕ) (s : LimitedSizeSet)
    → IsValid s
    → 0 < s.max_size
    → (s' : LimitedSizeSet) × (add_item value s ≡ ok s')
      × IsValid s'
      × (s'.contents ≡ (
          if contains value s then s.contents else newest s.max_size (s.contents ++ (value ∷ []))))
unfolding add_item contains
add_item-IsValid value s v some_room =
    let items = s.item_tracker in
    let more = length-append items (value ∷ []) in
    elim (Bool-cases (elem value items)) [
      | inl old ↦ (s, ground (arith, old, v.tracked), v, ground (arith, old, v.tracked))
      | inr new ↦ elim (Bool-cases (ltb (length items) s.max_size)) [
        | inl fits ↦
            let fine =
              make_room_fine s.max_size (items ++ (value ∷ [])) items
                (ground (arith, more, fits)) in
            let skip : length (items ++ (value ∷ [])) - s.max_size ≡ 0 =
              ground (arith, more, fits) in
            let all : items ++ (value ∷ []) ≡ newest s.max_size (items ++ (value ∷ [])) =
              ap (λ n. drop n (items ++ (value ∷ []))) (sym skip) in
            (
              record s { contents = items ++ (value ∷ []); item_tracker = items ++ (value ∷ []) },
              ground (arith, new, v.tracked, fine, more),
              record {
                tracked = refl;
                once = new-IsSetList value items v.once new;
                limited = ground (arith, more, fits);
              },
              ground (arith, new, v.tracked, all),
            )
        | inr full ↦ elim (List-cases items) [
          | inl empty ↦ absurd (ground (arith, empty, some_room, full))
          | inr (key, rest, e) ↦
              let size : suc (length rest) ≡ s.max_size = ground (arith, e, v.limited, full) in
              let kept = make_room_full s.max_size key rest value size in
              let skip : length (items ++ (value ∷ [])) - s.max_size ≡ 1 =
                ground (arith, more, e, size) in
              let left : rest ++ (value ∷ []) ≡ newest s.max_size (items ++ (value ∷ [])) =
                ap (λ xs. drop 1 (xs ++ (value ∷ []))) (sym e)
                ∙ ap (λ n. drop n (items ++ (value ∷ []))) (sym skip) in
              (
                record s { contents = rest ++ (value ∷ []); item_tracker = rest ++ (value ∷ []) },
                ground (arith, new, v.tracked, e, kept, more),
                record {
                  tracked = refl;
                  once =
                      new-IsSetList value rest (ground (arith, e, v.once)) (ground (arith, e, new));
                  limited = ground (arith, size, length-append rest (value ∷ []));
                },
                ground (arith, new, v.tracked, left),
              )
        ]
      ]
    ]
