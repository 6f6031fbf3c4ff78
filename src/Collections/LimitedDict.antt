-- ===== src/Collections/LimitedDict.antt =====
-- `LimitedSizeDict` of bxcommon/utils/limited_size_dict.py: a dict of a limited size, whose keys are tracked
-- in the order of their coming.
use mathlib.Core.Path.{subst}
use bxcommon.Prelude.Result.{Result, ok, err, key_error, value_error, index_error, ◌>>=◌}
use bxcommon.Prelude.Dict.{
  Dict, lookup, insert, erase, contains, IsDistinct, insert-IsDistinct, erase_absent,
}
use bxcommon.Prelude.Sets.{elem, discard}
use bxcommon.Prelude.{
  ℕ, suc, ◌+◌, ◌-◌, ◌≤◌, ◌<◌, ◌≡◌, ◌≢◌, refl, sym, ap, ◌∙◌, Option, none, some, List, [], ◌∷◌, ◌++◌,
  ltb, leb, length, drop, newest, if◌then◌else◌, arith, length-append, Bool-cases, Option-cases,
  List-cases, inl, inr,
}

-- Values are numbers that stand for objects.
pub record LimitedSizeDict : Type 0 where
  pub contents : Dict ℕ
  pub key_tracker : List ℕ
  pub max_size : ℕ

unfoldable pub new_dict : ℕ → LimitedSizeDict
new_dict max_size = record { contents = []; key_tracker = []; max_size = max_size }

-- `del contents[key]`
unfoldable pub delete_key : ℕ → Dict ℕ → Result (Dict ℕ)
delete_key key contents = if contains key contents then ok (erase key contents) else err key_error

-- The loop of `_make_room_for_new_item`.
unfoldable pub make_room : ℕ → Dict ℕ → List ℕ → Result (Dict ℕ × List ℕ)
make_room max_size contents [] = if leb max_size 0 then err index_error else ok (contents, [])
make_room max_size contents (key ∷ tracker) =
    let later : Result (Dict ℕ × List ℕ) =
      delete_key key contents >>= λ rest. make_room max_size rest tracker in
    if leb max_size (length (key ∷ tracker)) then later else ok (contents, key ∷ tracker)

unfoldable pub add : ℕ → ℕ → LimitedSizeDict → Result LimitedSizeDict
add key value d = do
  (contents, tracker) ← make_room d.max_size d.contents d.key_tracker
  ok (record d { contents = insert key value contents; key_tracker = tracker ++ (key ∷ []) })

-- `__setitem__`
unfoldable pub set_item : ℕ → ℕ → LimitedSizeDict → Result LimitedSizeDict
set_item key value d =
    if contains key d.contents
    then ok (record d { contents = insert key value d.contents })
    else add key value d

-- `__delitem__`
unfoldable pub delete_item : ℕ → LimitedSizeDict → Result LimitedSizeDict
delete_item key d = do
  contents ← delete_key key d.contents
  (if elem key d.key_tracker
      then ok (record d { contents = contents; key_tracker = discard key d.key_tracker })
      else err value_error)

-- `get`, with its default
unfoldable pub get : ℕ → Option ℕ → LimitedSizeDict → Option ℕ
get key default d = elim (lookup key d.contents) [ some value ↦ some value | none ↦ default ]

-- `__getitem__`
unfoldable pub get_item : ℕ → LimitedSizeDict → Result ℕ
get_item key d = elim (lookup key d.contents) [ some value ↦ ok value | none ↦ err key_error ]

abbrev pub keys : Dict ℕ → List ℕ
keys [] = []
keys ((key, value) ∷ d) = key ∷ keys d

-- The tracker has the keys in the order of their coming, each once, and no more than the limit.
pub record IsValid (d : LimitedSizeDict) : Type 0 where
  pub tracked : keys d.contents ≡ d.key_tracker
  pub once : IsDistinct d.contents
  pub limited : length d.key_tracker ≤ d.max_size

make_room_fine :
    (max : ℕ) (contents : Dict ℕ) (tracker : List ℕ)
    → length tracker < max
    → make_room max contents tracker ≡ ok (contents, tracker)
unfolding make_room
make_room_fine max contents [] h = ground arith
make_room_fine max contents (key ∷ tracker) h = ground arith

make_room_full :
    (max key value : ℕ) (contents : Dict ℕ) (tracker : List ℕ)
    → IsDistinct ((key, value) ∷ contents)
    → suc (length tracker) ≡ max
    → make_room max ((key, value) ∷ contents) (key ∷ tracker) ≡ ok (contents, tracker)
unfolding make_room delete_key
make_room_full max key value contents tracker once full =
    let rest = make_room_fine max contents tracker (omega arith) in
    let gone : erase key contents ≡ contents = erase_absent key contents once.0 in
    ground (arith, rest, gone)

keys-append : (c d : Dict ℕ) → keys (c ++ d) ≡ keys c ++ keys d
keys-append [] d = refl
keys-append ((k, v) ∷ c) d = ap (◌∷◌ k) (keys-append c d)

insert_new :
    (key value : ℕ) (d : Dict ℕ)
    → lookup key d ≡ none
    → insert key value d ≡ d ++ ((key, value) ∷ [])
insert_new key value [] h = refl
insert_new key value ((k, v) ∷ d) h = ground (arith, insert_new key value d)

insert_old :
    (key value old : ℕ) (d : Dict ℕ) → lookup key d ≡ some old → keys (insert key value d) ≡ keys d
insert_old key value old [] h = cc
insert_old key value old ((k, v) ∷ d) h = ground (arith, insert_old key value old d)

length-keys : (d : Dict ℕ) → length (keys d) ≡ length d
length-keys [] = refl
length-keys ((k, v) ∷ d) = ap suc (length-keys d)

snoc-IsDistinct :
    (key value : ℕ) (d : Dict ℕ)
    → IsDistinct d
    → lookup key d ≡ none
    → IsDistinct (d ++ ((key, value) ∷ []))
snoc-IsDistinct key value d once new =
    subst IsDistinct (insert_new key value d new) (insert-IsDistinct key value d once)

-- The dict with these contents, all tracked.
abbrev tracking : LimitedSizeDict → Dict ℕ → LimitedSizeDict
tracking d contents = record d { contents = contents; key_tracker = keys contents }

tracking-IsValid :
    (d : LimitedSizeDict) (contents : Dict ℕ)
    → IsDistinct contents
    → length contents ≤ d.max_size
    → IsValid (tracking d contents)
tracking-IsValid d contents once limited = record {
  tracked = refl;
  once = once;
  limited = omega (arith, length-keys contents);
}

-- Setting a key in a valid dict of a limit above 0 raises nothing and leaves a valid dict. A key that
-- is there keeps its place and gets the value; a new one comes in with it, behind the others, of
-- which the oldest goes where the limit is reached.
pub set_item-IsValid :
    (key value : ℕ) (d : LimitedSizeDict)
    → IsValid d
    → 0 < d.max_size
    → (d' : LimitedSizeDict) × (set_item key value d ≡ ok d')
      × IsValid d'
      × (d'.contents ≡ (
          if contains key d.contents
          then insert key value d.contents
          else newest d.max_size (d.contents ++ ((key, value) ∷ []))))
unfolding set_item add
set_item-IsValid key value d v some_room =
    let items = d.contents in
    let new_item : Dict ℕ = (key, value) ∷ [] in
    let count = length-keys items in
    let size : length d.key_tracker ≡ length items = ground (arith, v.tracked, count) in
    let more : length (items ++ new_item) ≡ length items + 1 = length-append items new_item in
    elim (Option-cases (lookup key items)) [
      | inr (old, here) ↦
          let kept = insert_old key value old items here in
          (
            record d { contents = insert key value items },
            ground (arith, here),
            record {
              tracked = kept ∙ v.tracked;
              once = insert-IsDistinct key value items v.once;
              limited = v.limited;
            },
            ground (arith, here),
          )
      | inl new ↦ elim (Bool-cases (ltb (length items) d.max_size)) [
        | inl fits ↦
            let fine = make_room_fine d.max_size items d.key_tracker (ground (arith, size, fits)) in
            let ends = insert_new key value items new in
            let tracked : d.key_tracker ++ (key ∷ []) ≡ keys (items ++ new_item) =
              ap (λ t. t ++ (key ∷ [])) (sym v.tracked) ∙ sym (keys-append items new_item) in
            let skip : length (items ++ new_item) - d.max_size ≡ 0 = ground (arith, more, fits) in
            let all : items ++ new_item ≡ newest d.max_size (items ++ new_item) =
              ap (λ n. drop n (items ++ new_item)) (sym skip) in
            (
              tracking d (items ++ new_item),
              ground (arith, new, fine, ends, tracked),
              tracking-IsValid d (items ++ new_item) (snoc-IsDistinct key value items v.once new)
                  (ground (arith, more, fits)),
              ground (arith, new, all),
            )
        | inr full ↦ elim (List-cases items) [
          | inl empty ↦ absurd (ground (arith, empty, some_room, full))
          | inr ((first, old), rest, e) ↦
              let once' : IsDistinct ((first, old) ∷ rest) = subst IsDistinct e v.once in
              let len : suc (length rest) ≡ d.max_size = ground (arith, e, full, size, v.limited) in
              let tracker : d.key_tracker ≡ first ∷ keys rest = sym v.tracked ∙ ap keys e in
              let room =
                make_room_full d.max_size first old rest (keys rest) once'
                  (omega (arith, len, length-keys rest)) in
              let new' : lookup key rest ≡ none = ground (arith, e, new) in
              let ends = insert_new key value rest new' in
              let tracked : keys rest ++ (key ∷ []) ≡ keys (rest ++ new_item) =
                sym (keys-append rest new_item) in
              let skip : length (items ++ new_item) - d.max_size ≡ 1 =
                ground (arith, more, e, len) in
              let left : rest ++ new_item ≡ newest d.max_size (items ++ new_item) =
                ap (λ xs. drop 1 (xs ++ new_item)) (sym e)
                ∙ ap (λ n. drop n (items ++ new_item)) (sym skip) in
              (
                tracking d (rest ++ new_item),
                ground (arith, new, e, tracker, room, ends, tracked),
                tracking-IsValid d (rest ++ new_item) (snoc-IsDistinct key value rest once'.1 new')
                    (omega (arith, len, length-append rest new_item)),
                ground (arith, new, left),
              )
        ]
      ]
    ]

-- Where the oldest key has come twice by `add`, and the dict is full, a further key raises a KeyError,
-- for the key is no longer there when it is to go the second time.
pub set_item_twice :
    (first second third value w u t : ℕ)
    → first ≢ second
    → first ≢ third
    → second ≢ third
    → (add first value (new_dict 2) >>= add first w >>= set_item second u >>= set_item third t)
      ≡ err key_error
unfolding add set_item new_dict make_room delete_key
set_item_twice first second third value w u t a b c = ground arith
