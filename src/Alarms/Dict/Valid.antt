-- ===== src/Alarms/Dict/Valid.antt =====
-- The two parts of an `ExpiringDict` under its methods.
use bxcommon.Alarms.Dict.{ExpiringDict, add, set_item, del_item}
use bxcommon.Alarms.Queue.{AlarmQueue, register_approx_alarm}
use bxcommon.Expiration.Defs.{ExpirationQueue}
use bxcommon.Expiration.Defs
use bxcommon.Expiration.Order.{IsChronological}
use bxcommon.Prelude.Dict.{
  Dict, lookup, insert, erase, contains, IsDistinct, insert-IsDistinct, erase-IsDistinct,
  lookup-insert, lookup-erase,
}
use bxcommon.Prelude.Result.{ok}
use bxcommon.Prelude.{
  ℕ, ◌≤◌, ◌≡◌, refl, sym, ap, ◌∙◌, true, false, none, [], ◌∷◌, ◌==◌, if◌then◌else◌, arith,
  Bool-cases, inl, inr,
}

-- No entry is of a time after `now`.
abbrev pub AllUntil : ℕ → Dict ℕ → Type 0
AllUntil now [] = Unit {0}
AllUntil now ((_, t) ∷ rest) = (t ≤ now) × AllUntil now rest

-- The keys are those of the queue, whose times never fall and are not after `now`.
pub record IsValid {V : Type 0} (now : ℕ) (d : ExpiringDict V) : Type 0 where
  pub same_keys : (k : ℕ) → contains k d.contents ≡ contains k d.expiration_queue.queue
  pub distinct : IsDistinct d.expiration_queue.queue
  pub chronological : IsChronological 0 d.expiration_queue.queue
  pub until : AllUntil now d.expiration_queue.queue
  pub same_time : d.expiration_queue.time_to_live_sec ≡ d.expiration_time

pub IsChronological-lower :
    (low mid : ℕ) (d : Dict ℕ) → low ≤ mid → IsChronological mid d → IsChronological low d
IsChronological-lower low mid [] h c = tt
IsChronological-lower low mid ((k, t) ∷ d) h c = (omega (arith, h, c.0), c.1)

pub AllUntil-later : (now later : ℕ) (d : Dict ℕ) → now ≤ later → AllUntil now d → AllUntil later d
AllUntil-later now later [] h u = tt
AllUntil-later now later ((k, t) ∷ d) h u =
    (omega (arith, h, u.0), AllUntil-later now later d h u.1)

insert-AllUntil : (now k : ℕ) (d : Dict ℕ) → AllUntil now d → AllUntil now (insert k now d)
insert-AllUntil now k [] u = (omega arith, tt)
insert-AllUntil now k ((j, t) ∷ d) u = ground (arith, u.0, u.1, insert-AllUntil now k d u.1)

insert-IsChronological :
    (now low k : ℕ) (d : Dict ℕ)
    → lookup k d ≡ none
    → low ≤ now
    → AllUntil now d
    → IsChronological low d
    → IsChronological low (insert k now d)
insert-IsChronological now low k [] m h u c = (h, tt)
insert-IsChronological now low k ((j, t) ∷ d) m h u c = elim (Bool-cases (k == j)) [
  | inl same ↦ absurd (ground (arith, same, m))
  | inr other ↦
      rw other (c.0, insert-IsChronological now t k d (ground (arith, other, m)) u.0 u.1 c.1)
]

erase-AllUntil : (now k : ℕ) (d : Dict ℕ) → AllUntil now d → AllUntil now (erase k d)
erase-AllUntil now k [] u = tt
erase-AllUntil now k ((j, t) ∷ d) u = elim (Bool-cases (k == j)) [
  | inl same ↦ rw same (erase-AllUntil now k d u.1)
  | inr other ↦ rw other (u.0, erase-AllUntil now k d u.1)
]

erase-IsChronological :
    (low k : ℕ) (d : Dict ℕ) → IsChronological low d → IsChronological low (erase k d)
erase-IsChronological low k [] c = tt
erase-IsChronological low k ((j, t) ∷ d) c = elim (Bool-cases (k == j)) [
  | inl same ↦
      rw same (IsChronological-lower low t (erase k d) c.0 (erase-IsChronological t k d c.1))
  | inr other ↦ rw other (c.0, erase-IsChronological t k d c.1)
]

contains-insert :
    {V : Type 0} (k j : ℕ) (v : V) (d : Dict V)
    → contains j (insert k v d) ≡ (if j == k then true else contains j d)
contains-insert k j v d = ground (arith, lookup-insert k j v d)

pub contains-erase :
    {V : Type 0} (k j : ℕ) (d : Dict V)
    → contains j (erase k d) ≡ (if j == k then false else contains j d)
contains-erase k j d = ground (arith, lookup-erase k j d)

absent : {V : Type 0} (k : ℕ) (d : Dict V) → contains k d ≡ false → lookup k d ≡ none
absent k d h = ground (arith, h)

module _ {V : Type 0} where
  -- `add` of a new key puts it at the end of the queue.
  pub add-IsValid :
      (now key : ℕ) (value : V) (d : ExpiringDict V) (alarms : AlarmQueue)
      → IsValid now d
      → contains key d.contents ≡ false
      → (d' : ExpiringDict V) × (alarms' : AlarmQueue) × (add now key value d alarms
          ≡ ok (d', alarms'))
        × IsValid now d'
  unfolding add register_approx_alarm Defs.add
  add-IsValid now key value d alarms v new =
      let queue = d.expiration_queue.queue in
      (
        _,
        _,
        refl,
        record {
          same_keys = λ k.
              contains-insert key k value d.contents
              ∙ (ap (λ b. if k == key then true else b) (v.same_keys k)
                  ∙ sym (contains-insert key k now queue));
          distinct = insert-IsDistinct key now queue v.distinct;
          chronological =
              insert-IsChronological now 0 key queue
                (absent key queue (sym (v.same_keys key) ∙ new)) (omega arith) v.until
                v.chronological;
          until = insert-AllUntil now key queue v.until;
          same_time = v.same_time;
        },
      )

  pub set_item_lem :
      (now key : ℕ) (value : V) (d : ExpiringDict V) (alarms : AlarmQueue)
      → IsValid now d
      → (d' : ExpiringDict V) × (alarms' : AlarmQueue) × (set_item now key value d alarms
          ≡ ok (d', alarms'))
        × IsValid now d'
  unfolding set_item
  set_item_lem now key value d alarms v = elim (Bool-cases (contains key d.contents)) [
    | inr new ↦
        let (d', alarms', run, v') = add-IsValid now key value d alarms v new in
        (d', alarms', rw new run, v')
    | inl old ↦ (
      record d { contents = insert key value d.contents },
      alarms,
      rw old refl,
      record {
        same_keys = λ k. ground (arith, contains-insert key k value d.contents, old, v.same_keys k);
        distinct = v.distinct;
        chronological = v.chronological;
        until = v.until;
        same_time = v.same_time;
      },
    )
  ]

  pub del_item-IsValid :
      (now key : ℕ) (d : ExpiringDict V)
      → IsValid now d
      → contains key d.contents ≡ true
      → (d' : ExpiringDict V) × (del_item key d ≡ ok d') × IsValid now d'
  unfolding del_item Defs.remove
  del_item-IsValid now key d v there =
      let queue = d.expiration_queue.queue in
      (
        record d {
          contents = erase key d.contents;
          expiration_queue = Defs.remove key d.expiration_queue;
        },
        rw there refl,
        record {
          same_keys = λ k.
              contains-erase key k d.contents
              ∙ (ap (λ b. if k == key then false else b) (v.same_keys k)
                  ∙ sym (contains-erase key k queue));
          distinct = erase-IsDistinct key queue v.distinct;
          chronological = erase-IsChronological 0 key queue v.chronological;
          until = erase-AllUntil now key queue v.until;
          same_time = v.same_time;
        },
      )
