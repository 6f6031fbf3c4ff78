-- ===== src/Transactions/Storing.antt =====
-- Storing contents and assigning short ids on a valid service.
use bxcommon.Prelude.Dict.{lookup, insert, contains, get_or, lookup-insert}
use bxcommon.Prelude.Result.{ok}
use bxcommon.Prelude.Sets.{elem, add, elem-add}
use bxcommon.Prelude.{
  ℕ, ◌≤◌, ◌≡◌, ◌≢◌, refl, ◌∙◌, ap, Bool, true, false, none, some, [], ◌==◌, length, if◌then◌else◌,
  arith, inl, inr, Bool-cases,
}
use bxcommon.Transactions.Assign.{
  assign_short_id_by_key, assign_short_id_base_by_key, map_short_id, short_ids_at,
  note_without_content, note_assigned, is_exceeding_memory_limit, memory_limit_clean_up,
  put_contents, note_without_short_id, store_contents, set_transaction_contents_base_by_key,
  set_transaction_contents_by_key,
}
use bxcommon.Transactions.Memory.{memory_limit_clean_up-Fits}
use bxcommon.Transactions.Core.{core}
use bxcommon.Transactions.State.{Service, Options, TransactionKey, Bytes, null_tx_sid}
use bxcommon.Transactions.Valid.{IsValid, size, assign-IsValid, store-IsValid, requeue-IsValid}

put_contents-IsValid :
    (now : ℕ) (tx : TransactionKey) (contents : Bytes) (has_short_id : Bool) (s : Service)
    → IsValid (core s)
    → let previous =
        length (get_or [] (lookup tx.transaction_cache_key s.tx_cache_key_to_contents)) in
      IsValid (core (put_contents now tx has_short_id previous true (some contents) none s))
unfolding put_contents store_contents note_without_short_id
put_contents-IsValid now tx contents true s v =
    store-IsValid tx.transaction_cache_key contents (core s) v
put_contents-IsValid now tx contents false s v =
    store-IsValid tx.transaction_cache_key contents (core s) v

put_contents-limit :
    (now : ℕ) (tx : TransactionKey) (contents : Bytes) (has_short_id : Bool) (previous : ℕ)
    (s : Service)
    → (put_contents now tx has_short_id previous true (some contents) none s).opts ≡ s.opts
unfolding put_contents store_contents note_without_short_id
put_contents-limit now tx contents true previous s = refl
put_contents-limit now tx contents false previous s = refl

-- Storing contents in a valid service raises nothing, and leaves a valid service whose contents
-- take no more bytes than the memory limit, however much was stored before.
pub set_transaction_contents_fits :
    (now : ℕ) (tx : TransactionKey) (contents : Bytes) (s : Service)
    → IsValid (core s)
    → (s' : Service) × (set_transaction_contents_by_key now tx contents s ≡ ok s')
      × IsValid (core s')
      × (size s'.tx_cache_key_to_contents ≤ s.opts.tx_content_memory_limit)
unfolding set_transaction_contents_by_key set_transaction_contents_base_by_key
set_transaction_contents_fits now tx contents s v =
    let key = tx.transaction_cache_key in
    let has_short_id = contains key s.tx_cache_key_to_short_ids in
    let previous = length (get_or [] (lookup key s.tx_cache_key_to_contents)) in
    let (s', run, f) =
      memory_limit_clean_up-Fits now
        (put_contents now tx has_short_id previous true (some contents) none s)
        (put_contents-IsValid now tx contents has_short_id s v) in
    (
      s',
      run,
      f.valid,
      omega (
        arith,
        f.within,
        ap (λ (o : Options). o.tx_content_memory_limit)
            (put_contents-limit now tx contents has_short_id previous s),
      ),
    )

stored_when_below :
    (now : ℕ) (tx : TransactionKey) (contents : Bytes) (has_short_id : Bool) (s : Service)
    → IsValid (core s)
    → let key = tx.transaction_cache_key in
      size (insert key contents s.tx_cache_key_to_contents) ≤ s.opts.tx_content_memory_limit
      → let previous = length (get_or [] (lookup key s.tx_cache_key_to_contents)) in
        let s' = put_contents now tx has_short_id previous true (some contents) none s in
        (memory_limit_clean_up now s' ≡ ok s')
        × (s'.tx_cache_key_to_contents ≡ insert key contents s.tx_cache_key_to_contents)
unfolding put_contents store_contents note_without_short_id memory_limit_clean_up
    is_exceeding_memory_limit
stored_when_below now tx contents true s v room =
    ground (arith, (put_contents-IsValid now tx contents true s v).counted)
stored_when_below now tx contents false s v room =
    ground (arith, (put_contents-IsValid now tx contents false s v).counted)

-- Where the contents fit the memory limit beside what is stored, storing them in a valid service
-- succeeds, removes nothing else, and a look-up finds them.
pub set_transaction_contents_stored :
    (now : ℕ) (tx : TransactionKey) (contents : Bytes) (s : Service)
    → IsValid (core s)
    → size (insert tx.transaction_cache_key contents s.tx_cache_key_to_contents)
      ≤ s.opts.tx_content_memory_limit
    → (s' : Service) × (set_transaction_contents_by_key now tx contents s ≡ ok s')
      × ((k : ℕ)
          → lookup k s'.tx_cache_key_to_contents ≡ (
              if k == tx.transaction_cache_key
              then some contents
              else lookup k s.tx_cache_key_to_contents))
unfolding set_transaction_contents_by_key set_transaction_contents_base_by_key
set_transaction_contents_stored now tx contents s v room =
    let key = tx.transaction_cache_key in
    let has_short_id = contains key s.tx_cache_key_to_short_ids in
    let previous = length (get_or [] (lookup key s.tx_cache_key_to_contents)) in
    let (run, stored) = stored_when_below now tx contents has_short_id s v room in
    (
      put_contents now tx has_short_id previous true (some contents) none s,
      run,
      λ k. ap (lookup k) stored ∙ lookup-insert key k contents s.tx_cache_key_to_contents,
    )

real-IsValid :
    (now : ℕ) (tx : TransactionKey) (sid : ℕ) (has_contents to_assign : Bool) (s : Service)
    → IsValid (core s)
    → (sid == null_tx_sid) ≡ false
    → IsValid (core (assign_short_id_base_by_key now tx sid has_contents to_assign s))
unfolding assign_short_id_base_by_key note_without_content map_short_id note_assigned
real-IsValid now tx sid true true s v real =
    rw real (requeue-IsValid _ _ (assign-IsValid tx.transaction_cache_key sid (core s) v))
real-IsValid now tx sid true false s v real = rw real (requeue-IsValid _ _ v)
real-IsValid now tx sid false true s v real =
    rw real (requeue-IsValid _ _ (assign-IsValid tx.transaction_cache_key sid (core s) v))
real-IsValid now tx sid false false s v real = rw real (requeue-IsValid _ _ v)

-- Assigning a short id keeps the service valid, whatever the short id was mapped to before, and whether
-- or not the caller has the contents and lets the base class map it.
pub assign_short_id_base-IsValid :
    (now : ℕ) (tx : TransactionKey) (sid : ℕ) (has_contents to_assign : Bool) (s : Service)
    → IsValid (core s)
    → IsValid (core (assign_short_id_base_by_key now tx sid has_contents to_assign s))
unfolding assign_short_id_base_by_key
assign_short_id_base-IsValid now tx sid has_contents to_assign s v =
    elim (Bool-cases (sid == null_tx_sid)) [
      | inl null ↦ rw null v
      | inr real ↦ real-IsValid now tx sid has_contents to_assign s v real
    ]

pub assign_short_id-IsValid :
    (now : ℕ) (tx : TransactionKey) (sid : ℕ) (s : Service)
    → IsValid (core s)
    → IsValid (core (assign_short_id_by_key now tx sid s))
unfolding assign_short_id_by_key
assign_short_id-IsValid now tx sid s v =
    assign_short_id_base-IsValid now tx sid
      (contains tx.transaction_cache_key s.tx_cache_key_to_contents) true s v

-- After a short id that is not the null id is assigned to a transaction, it resolves to that
-- transaction and belongs to its set, and every other short id resolves as before.
pub assign_short_id_resolves :
    (now : ℕ) (tx : TransactionKey) (sid : ℕ) (s : Service)
    → sid ≢ null_tx_sid
    → let s' = assign_short_id_by_key now tx sid s in
      ((j : ℕ)
        → lookup j s'.short_id_to_tx_cache_key ≡ (
            if j == sid
            then some tx.transaction_cache_key
            else lookup j s.short_id_to_tx_cache_key))
      × (elem sid (short_ids_at s' tx.transaction_cache_key) ≡ true)
unfolding assign_short_id_by_key assign_short_id_base_by_key note_without_content map_short_id
    note_assigned short_ids_at
assign_short_id_resolves now tx sid s real =
    let key = tx.transaction_cache_key in
    let ids = get_or [] (lookup key s.tx_cache_key_to_short_ids) in
    elim (Bool-cases (contains key s.tx_cache_key_to_contents)) [
      | inl old ↦ (
        λ j. ground (arith, lookup-insert sid j key s.short_id_to_tx_cache_key),
        ground (
          arith,
          lookup-insert key key (add sid ids) s.tx_cache_key_to_short_ids,
          elem-add sid sid ids,
        ),
      )
      | inr new ↦ (
        λ j. ground (arith, lookup-insert sid j key s.short_id_to_tx_cache_key),
        ground (
          arith,
          lookup-insert key key (add sid ids) s.tx_cache_key_to_short_ids,
          elem-add sid sid ids,
        ),
      )
    ]
