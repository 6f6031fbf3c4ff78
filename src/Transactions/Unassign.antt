-- ===== src/Transactions/Unassign.antt =====
-- `remove_sid_by_key` of `TransactionService`, on a valid service and on others.
use mathlib.Core.Path.{subst}
use bxcommon.Prelude.Dict.{lookup, erase, contains, get_or, lookup-insert, lookup-erase}
use bxcommon.Prelude.Result.{ok, err, key_error}
use bxcommon.Prelude.Sets.{elem, add, IsSetList, elem-add}
use bxcommon.Prelude.{
  ℕ, ◌≡◌, ◌≢◌, refl, sym, ◌∙◌, ap, true, false, none, some, List, [], ◌∷◌, ◌==◌, if◌then◌else◌,
  arith, inl, inr, Option-cases, Bool-cases,
}
use bxcommon.Transactions.Assign.{
  assign_short_id_by_key, assign_short_id_base_by_key, note_without_content, map_short_id,
  note_assigned, short_ids_at,
}
use bxcommon.Transactions.Core.{Core, core, unmap, unmap-Unmapped}
use bxcommon.Transactions.Removal.{remove_sid_by_key, unassign_short_ids, dequeue}
use bxcommon.Transactions.State.{Service, null_tx_sid, TransactionKey}
use bxcommon.Transactions.Valid.{IsValid, ids_at, unmap-IsValid}

-- Every short id that a key lists resolves to that key.
abbrev pub IsExact : Core → Type 0
IsExact c = (sid key : ℕ) → elem sid (ids_at c key) ≡ true → lookup sid c.keys ≡ some key

-- One round of the loop, its test passed.
abbrev unassigned : ℕ → Service → Service
unassigned sid s =
    dequeue sid (record s { short_id_to_tx_cache_key = erase sid s.short_id_to_tx_cache_key })

unassign-core :
    (sids : List ℕ) (s s' : Service)
    → unassign_short_ids sids s ≡ ok s'
    → core s' ≡ unmap sids (core s)
unfolding unassign_short_ids dequeue
unassign-core [] s s' e = ground arith
unassign-core (sid ∷ sids) s s' e = elim (Bool-cases (contains sid s.short_id_to_tx_cache_key)) [
  | inr missing ↦ absurd (ground arith)
  | inl there ↦ unassign-core sids (unassigned sid s) s' (ground arith)
]

unassign-total :
    (key : ℕ) (sids : List ℕ) (s : Service)
    → IsSetList sids
    → ((sid : ℕ) → elem sid sids ≡ true → lookup sid s.short_id_to_tx_cache_key ≡ some key)
    → (s' : Service) × (unassign_short_ids sids s ≡ ok s')
unfolding unassign_short_ids dequeue
unassign-total key [] s d all = (s, refl)
unassign-total key (sid ∷ sids) s d all =
    let here : lookup sid s.short_id_to_tx_cache_key ≡ some key = all sid (ground arith) in
    let (s', run) =
      unassign-total key sids (unassigned sid s) d.1
        (λ j h. ground (arith, all j, lookup-erase sid j s.short_id_to_tx_cache_key)) in
    (s', ground arith)

-- A short id of the list that resolves to nothing stops the loop.
unassign-raises :
    (lost : ℕ) (sids : List ℕ) (s : Service)
    → elem lost sids ≡ true
    → lookup lost s.short_id_to_tx_cache_key ≡ none
    → unassign_short_ids sids s ≡ err key_error
unfolding unassign_short_ids dequeue
unassign-raises lost [] s h e = cc
unassign-raises lost (sid ∷ sids) s h e = ground (
  arith,
  unassign-raises lost sids (unassigned sid s),
  lookup-erase sid lost s.short_id_to_tx_cache_key,
)

abbrev without_key : ℕ → Service → Service
without_key key s = record s { tx_cache_key_to_short_ids = erase key s.tx_cache_key_to_short_ids }

-- Where `remove_sid_by_key` returns, a valid service stays valid.
pub remove_sid_by_key_keeps :
    (tx : TransactionKey) (s s' : Service)
    → IsValid (core s)
    → remove_sid_by_key tx s ≡ ok s'
    → IsValid (core s')
unfolding remove_sid_by_key
remove_sid_by_key_keeps tx s s' v e =
    let key = tx.transaction_cache_key in
    elim (Bool-cases (contains key s.tx_cache_key_to_contents)) [
      | inl full ↦ let same : s ≡ s' = ground arith in subst (λ t. IsValid (core t)) same v
      | inr empty ↦ elim (Option-cases (lookup key s.tx_cache_key_to_short_ids)) [
        | inl none_listed ↦ let same : s ≡ s' = ground arith in subst (λ t. IsValid (core t)) same v
        | inr (sids, found) ↦
            let s1 = without_key key s in
            let u = unmap-Unmapped sids (core s1) in
            let e' : core s' ≡ unmap sids (core s1) = unassign-core sids s1 s' (ground arith) in
            subst IsValid (sym e') (
              unmap-IsValid key sids (core s) (unmap sids (core s1)) v found
                (λ j k h. ground (arith, u.mapped j)) u.same_contents u.same_total u.same_ids)
      ]
    ]

-- On a valid service in which every listed short id resolves to the key that lists it,
-- `remove_sid_by_key` raises nothing.
pub remove_sid_by_key_total :
    (tx : TransactionKey) (s : Service)
    → IsValid (core s)
    → IsExact (core s)
    → (s' : Service) × (remove_sid_by_key tx s ≡ ok s')
unfolding remove_sid_by_key
remove_sid_by_key_total tx s v exact =
    let key = tx.transaction_cache_key in
    elim (Bool-cases (contains key s.tx_cache_key_to_contents)) [
      | inl full ↦ (s, rw full)
      | inr empty ↦ elim (Option-cases (lookup key s.tx_cache_key_to_short_ids)) [
        | inl none_listed ↦ (s, ground arith)
        | inr (sids, found) ↦
            let (s', run) =
              unassign-total key sids (without_key key s) ((v.sets key sids found).1)
                (λ j h. exact j key (ground arith)) in
            (s', ground arith)
      ]
    ]

remove_sid_by_key_raises :
    (tx : TransactionKey) (s : Service) (lost : ℕ)
    → contains tx.transaction_cache_key s.tx_cache_key_to_contents ≡ false
    → elem lost (ids_at (core s) tx.transaction_cache_key) ≡ true
    → lookup lost s.short_id_to_tx_cache_key ≡ none
    → remove_sid_by_key tx s ≡ err key_error
unfolding remove_sid_by_key
remove_sid_by_key_raises tx s lost empty listed gone =
    let key = tx.transaction_cache_key in
    elim (Option-cases (lookup key s.tx_cache_key_to_short_ids)) [
      | inl none_listed ↦ absurd (ground arith)
      | inr (sids, found) ↦ ground (arith, unassign-raises lost sids (without_key key s))
    ]

-- What `remove_sid_by_key` leaves, where it returns and the transaction has no contents.
removed_parts :
    (tx : TransactionKey) (s s' : Service)
    → contains tx.transaction_cache_key s.tx_cache_key_to_contents ≡ false
    → remove_sid_by_key tx s ≡ ok s'
    → (s'.tx_cache_key_to_contents ≡ s.tx_cache_key_to_contents)
      × ((k : ℕ) → k ≢ tx.transaction_cache_key → ids_at (core s') k ≡ ids_at (core s) k)
      × ((j : ℕ)
          → elem j (ids_at (core s) tx.transaction_cache_key) ≡ true
          → lookup j s'.short_id_to_tx_cache_key ≡ none)
unfolding remove_sid_by_key
removed_parts tx s s' empty e =
    let key = tx.transaction_cache_key in
    elim (Option-cases (lookup key s.tx_cache_key_to_short_ids)) [
      | inl none_listed ↦
          let same : s ≡ s' = ground arith in
          subst
            (λ t.
              (t.tx_cache_key_to_contents ≡ s.tx_cache_key_to_contents)
              × ((k : ℕ) → k ≢ key → ids_at (core t) k ≡ ids_at (core s) k)
              × ((j : ℕ)
                  → elem j (ids_at (core s) key) ≡ true
                  → lookup j t.short_id_to_tx_cache_key ≡ none))
            same (refl, λ k h. refl, λ j h. absurd (ground arith))
      | inr (sids, found) ↦
          let s1 = without_key key s in
          let u = unmap-Unmapped sids (core s1) in
          let e' : core s' ≡ unmap sids (core s1) = unassign-core sids s1 s' (ground arith) in
          (
            ap (λ (c : Core). c.contents) e' ∙ u.same_contents,
            λ k h.
                ap (λ (c : Core). ids_at c k) e'
                ∙ ap (λ d. get_or [] (lookup k d)) u.same_ids
                ∙ ground (arith, lookup-erase key k s.tx_cache_key_to_short_ids),
            λ j h. ap (λ (c : Core). lookup j c.keys) e' ∙ (u.mapped j ∙ ground arith),
          )
    ]

assigned_parts :
    (now : ℕ) (tx : TransactionKey) (sid : ℕ) (s : Service)
    → sid ≢ null_tx_sid
    → let key = tx.transaction_cache_key in
      let s' = assign_short_id_by_key now tx sid s in
      (s'.tx_cache_key_to_contents ≡ s.tx_cache_key_to_contents)
      × ((k : ℕ)
          → ids_at (core s') k
            ≡ (if k == key then add sid (ids_at (core s) key) else ids_at (core s) k))
unfolding assign_short_id_by_key assign_short_id_base_by_key note_without_content map_short_id
    note_assigned short_ids_at
assigned_parts now tx sid s real =
    let key = tx.transaction_cache_key in
    let new = add sid (ids_at (core s) key) in
    elim (Bool-cases (contains key s.tx_cache_key_to_contents)) [
      | inl old ↦
          (ground arith, λ k. ground (arith, lookup-insert key k new s.tx_cache_key_to_short_ids))
      | inr fresh ↦
          (ground arith, λ k. ground (arith, lookup-insert key k new s.tx_cache_key_to_short_ids))
    ]

-- Two transactions without contents that were assigned the same short id, one after the other: if
-- the short ids of the first are removed, those of the second cannot be, for `remove_sid_by_key`
-- raises.
pub remove_sid_by_key_reassigned :
    (now : ℕ) (tx1 tx2 : TransactionKey) (sid : ℕ) (s s' : Service)
    → sid ≢ null_tx_sid
    → tx1.transaction_cache_key ≢ tx2.transaction_cache_key
    → contains tx1.transaction_cache_key s.tx_cache_key_to_contents ≡ false
    → contains tx2.transaction_cache_key s.tx_cache_key_to_contents ≡ false
    → remove_sid_by_key tx1
        (assign_short_id_by_key now tx2 sid (assign_short_id_by_key now tx1 sid s))
      ≡ ok s'
    → remove_sid_by_key tx2 s' ≡ err key_error
remove_sid_by_key_reassigned now tx1 tx2 sid s s' real apart empty1 empty2 e =
    let key1 = tx1.transaction_cache_key in
    let key2 = tx2.transaction_cache_key in
    let s1 = assign_short_id_by_key now tx1 sid s in
    let s2 = assign_short_id_by_key now tx2 sid s1 in
    let (c1, at1) = assigned_parts now tx1 sid s real in
    let (c2, at2) = assigned_parts now tx2 sid s1 real in
    let (c3, at3, gone) = removed_parts tx1 s2 s' (rw (c2, c1) empty1) e in
    let in1 : elem sid (ids_at (core s2) key1) ≡ true =
      ground (arith, at2 key1, at1 key1, elem-add sid sid (ids_at (core s) key1)) in
    let in2 : elem sid (ids_at (core s') key2) ≡ true =
      ground (arith, at3 key2, at2 key2, elem-add sid sid (ids_at (core s1) key2)) in
    remove_sid_by_key_raises tx2 s' sid (rw (c3, c2, c1) empty2) in2 (gone sid in1)
