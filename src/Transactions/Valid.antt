-- ===== src/Transactions/Valid.antt =====
-- The invariant of `TransactionService`, on its core, and the changes of the core.
use bxcommon.Prelude.Dict.{
  Dict, lookup, insert, erase, get_or, IsDistinct, lookup-insert, lookup-erase, erase_absent,
  insert-IsDistinct, erase-IsDistinct,
}
use bxcommon.Prelude.Int.{pos, ◌+ℤ◌, ◌-ℤ◌}
use bxcommon.Prelude.Sets.{
  elem, add, discard, IsSetList, elem-add, elem-discard_ne, length-discard, add-ne-nil,
  add-IsSetList, discard-IsSetList,
}
use mathlib.Core.Path.{subst}
use bxcommon.Prelude.{
  Bool-cases, ℕ, ◌+◌, ◌≡◌, ◌≢◌, ap, true, false, some, List, [], ◌∷◌, ◌==◌, length, arith, inl, inr,
  Option-cases,
}
use bxcommon.Transactions.Core.{Core, drop_core}
use bxcommon.Transactions.State.{Bytes}

-- The number of bytes of all contents.
abbrev pub size : Dict Bytes → ℕ
size [] = 0
size ((_, b) ∷ d) = length b + size d

abbrev pub ids_at : Core → ℕ → List ℕ
ids_at c key = get_or [] (lookup key c.ids)

-- A set of short ids is not empty, and holds none twice.
abbrev pub GoodSet : List ℕ → Type 0
GoodSet sids = (sids ≢ []) × IsSetList sids

abbrev pub AllGood : Dict (List ℕ) → Type 0
AllGood ids = (key : ℕ) (sids : List ℕ) → lookup key ids ≡ some sids → GoodSet sids

pub record IsValid (c : Core) : Type 0 where
  -- a short id that is mapped to a key is in the key's set
  pub linked : (sid key : ℕ) → lookup sid c.keys ≡ some key → elem sid (ids_at c key) ≡ true
  -- no key has an empty set
  pub sets : AllGood c.ids
  pub distinct : IsDistinct c.contents
  -- the running total is the size of the stored contents
  pub counted : c.total ≡ pos (size c.contents)

AllGood-insert :
    (key : ℕ) (new : List ℕ) (ids : Dict (List ℕ))
    → AllGood ids
    → GoodSet new
    → AllGood (insert key new ids)
AllGood-insert key new ids all good k sids e = elim (Bool-cases (k == key)) [
  | inl same ↦
      let q : new ≡ sids = ground (arith, lookup-insert key k new ids) in subst GoodSet q good
  | inr other ↦ all k sids (ground (arith, lookup-insert key k new ids))
]

AllGood-erase : (key : ℕ) (ids : Dict (List ℕ)) → AllGood ids → AllGood (erase key ids)
AllGood-erase key ids all k sids e = all k sids (ground (arith, lookup-erase key k ids))

add-GoodSet : (sid : ℕ) (sids : List ℕ) → IsSetList sids → GoodSet (add sid sids)
add-GoodSet sid sids h = (add-ne-nil sid sids, add-IsSetList sid sids h)

ids_at-IsSetList : (c : Core) (key : ℕ) → IsValid c → IsSetList (ids_at c key)
ids_at-IsSetList c key v = elim (Option-cases (lookup key c.ids)) [
  | inl missing ↦ rw missing tt
  | inr (sids, found) ↦ rw found ((v.sets key sids found).1)
]

discard-GoodSet :
    (sid : ℕ) (sids : List ℕ)
    → GoodSet sids
    → elem sid sids ≡ true
    → length sids ≢ 1
    → GoodSet (discard sid sids)
discard-GoodSet sid sids good is_in many = (
  λ e. many (omega (arith, length-discard sid sids is_in, ap length e)),
  discard-IsSetList sid sids good.1,
)

size-insert :
    (k : ℕ) (v : Bytes) (d : Dict Bytes)
    → size (insert k v d) + length (get_or [] (lookup k d)) ≡ size d + length v
size-insert k v [] = omega arith
size-insert k v ((j, w) ∷ d) = ground (arith, size-insert k v d)

size-erase :
    (k : ℕ) (d : Dict Bytes)
    → IsDistinct d
    → size (erase k d) + length (get_or [] (lookup k d)) ≡ size d
size-erase k [] h = omega arith
size-erase k ((j, w) ∷ d) h = ground (arith, size-erase k d h.1, erase_absent k d)

pub drop-IsValid : (key : ℕ) (c : Core) → IsValid c → IsValid (drop_core key c)
drop-IsValid key c v = elim (Option-cases (lookup key c.contents)) [
  | inl missing ↦ rw (missing, drop_core) v
  | inr (b, found) ↦
      rw (found, drop_core)
        (record {
          linked = v.linked;
          sets = v.sets;
          distinct = erase-IsDistinct key c.contents v.distinct;
          counted = ground (arith, v.counted, size-erase key c.contents v.distinct);
        })
]

-- Storing contents with the length of what they replace.
pub store-IsValid :
    (key : ℕ) (b : Bytes) (c : Core)
    → IsValid c
    → IsValid (record c {
      contents = insert key b c.contents;
      total = c.total +ℤ pos (length b) -ℤ pos (length (get_or [] (lookup key c.contents)));
    })
store-IsValid key b c v = record {
  linked = v.linked;
  sets = v.sets;
  distinct = insert-IsDistinct key b c.contents v.distinct;
  counted = ground (arith, v.counted, size-insert key b c.contents);
}

pub assign-IsValid :
    (key sid : ℕ) (c : Core)
    → IsValid c
    → IsValid
        (record c { ids = insert key (add sid (ids_at c key)) c.ids; keys = insert sid key c.keys })
assign-IsValid key sid c v = record {
  linked = λ j k e. ground (
    arith,
    v.linked j k,
    lookup-insert sid j key c.keys,
    lookup-insert key k (add sid (ids_at c key)) c.ids,
    elem-add sid j (ids_at c key),
  );
  sets =
      AllGood-insert key (add sid (ids_at c key)) c.ids v.sets
        (add-GoodSet sid (ids_at c key) (ids_at-IsSetList c key v));
  distinct = v.distinct;
  counted = v.counted;
}

-- Dropping a key with all of its short ids.
pub unmap-IsValid :
    (key : ℕ) (sids : List ℕ) (c c' : Core)
    → IsValid c
    → lookup key c.ids ≡ some sids
    → ((j k : ℕ) → lookup j c'.keys ≡ some k → (elem j sids ≡ false) × (lookup j c.keys ≡ some k))
    → c'.contents ≡ c.contents
    → c'.total ≡ c.total
    → c'.ids ≡ erase key c.ids
    → IsValid c'
unmap-IsValid key sids c c' v found keys same same_total ids = record {
  linked = λ j k e.
      let (gone, was) = keys j k e in
      ground (arith, v.linked j k was, ap (lookup k) ids, lookup-erase key k c.ids);
  sets = rw ids (AllGood-erase key c.ids v.sets);
  distinct = rw same v.distinct;
  counted = rw (same, same_total) v.counted;
}

-- Dropping one of several short ids of a key.
pub discard-IsValid :
    (key sid : ℕ) (sids : List ℕ) (c : Core)
    → IsValid c
    → lookup sid c.keys ≡ some key
    → lookup key c.ids ≡ some sids
    → length sids ≢ 1
    → IsValid (record c { ids = insert key (discard sid sids) c.ids; keys = erase sid c.keys })
discard-IsValid key sid sids c v mapped found many = record {
  linked = λ j k e. ground (
    arith,
    v.linked j k,
    lookup-erase sid j c.keys,
    elem-discard_ne sid j sids,
    lookup-insert key k (discard sid sids) c.ids,
  );
  sets = AllGood-insert key (discard sid sids) c.ids v.sets (
      discard-GoodSet sid sids (v.sets key sids found) (ground (arith, v.linked sid key mapped))
        many);
  distinct = v.distinct;
  counted = v.counted;
}

-- The assignment queue is no part of the invariant.
pub requeue-IsValid : (q : Dict ℕ) (c : Core) → IsValid c → IsValid (record c { queue = q })
requeue-IsValid q c v = record {
  linked = v.linked;
  sets = v.sets;
  distinct = v.distinct;
  counted = v.counted;
}
