-- ===== src/Transactions/Removal.antt =====
-- The methods of `TransactionService` that remove: by key, by short id, the short ids of a
-- transaction without contents, and everything.
use bxcommon.Expiration.Defs as Expiration
use bxcommon.Prelude.Dict.{lookup, insert, erase, contains}
use bxcommon.Prelude.Int.{pos, ◌-ℤ◌}
use bxcommon.Prelude.Result.{Result, ok, err, key_error, ◌>>=◌}
use bxcommon.Prelude.Sets.{elem, add, discard}
use bxcommon.Prelude.{
  ℕ, Bool, true, false, not, ◌&&◌, ◌||◌, Option, none, some, List, [], ◌∷◌, map, ◌==◌, length,
  if◌then◌else◌,
}
use bxcommon.Transactions.State.{Service, TransactionKey, is_paid, reduce_flags, flag_at}

abbrev pub is_empty : List ℕ → Bool
is_empty [] = true
is_empty (_ ∷ _) = false

-- `if self.node.opts.dump_removed_short_ids: self._removed_short_ids.add(short_id)`
unfoldable pub note_removed : ℕ → Service → Service
note_removed sid s = record s {
  removed_short_ids =
      if s.opts.dump_removed_short_ids then add sid s.removed_short_ids else s.removed_short_ids;
}

-- `self._tx_assignment_expire_queue.remove(short_id)`
unfoldable pub dequeue : ℕ → Service → Service
unfolding Expiration.remove
dequeue sid s = record s {
  tx_assignment_expire_queue = Expiration.remove sid s.tx_assignment_expire_queue;
}

-- The contents of a transaction and their size, where they are stored.
unfoldable pub drop_contents : ℕ → ℕ → Service → Service
drop_contents now key s = elim (lookup key s.tx_cache_key_to_contents) [
  | none ↦ s
  | some contents ↦ record s {
    total_tx_contents_size = s.total_tx_contents_size -ℤ pos (length contents);
    tx_cache_key_to_contents = erase key s.tx_cache_key_to_contents;
    tx_hash_to_time_removed = insert key now s.tx_hash_to_time_removed;
  }
]

-- One round of the loop of `remove_transaction_by_key`.
unfoldable pub forget_short_id : ℕ → ℕ → Service → Service
unfolding dequeue note_removed
forget_short_id now sid s = note_removed sid (
    dequeue sid (record s {
      short_id_to_time_removed = insert sid now s.short_id_to_time_removed;
      short_id_to_tx_cache_key = erase sid s.short_id_to_tx_cache_key;
      short_id_to_tx_flag =
          if contains sid s.short_id_to_tx_cache_key
          then erase sid s.short_id_to_tx_flag
          else s.short_id_to_tx_flag;
    }))

unfoldable pub forget_short_ids : ℕ → List ℕ → Service → Service
forget_short_ids now [] s = s
forget_short_ids now (sid ∷ sids) s = forget_short_ids now sids (forget_short_id now sid s)

-- `some sids` is the set that is returned, `none` is None.
unfoldable pub remove_transaction_by_key :
    ℕ → TransactionKey → Bool → Bool → Service → Result (Option (List ℕ) × Service)
remove_transaction_by_key now tx force assume_no_sid s =
    elim (lookup tx.transaction_cache_key s.tx_cache_key_to_short_ids) [
      | none ↦ ok (none, drop_contents now tx.transaction_cache_key s)
      | some sids ↦ if assume_no_sid && not (is_empty sids) then ok (none, s) else do
        flag ← reduce_flags (map (flag_at s) sids)
        if is_paid flag && not force
            then ok (none, s)
            else ok (
              some sids,
              drop_contents now tx.transaction_cache_key (
                  forget_short_ids now sids (record s {
                    tx_cache_key_to_short_ids =
                        erase tx.transaction_cache_key s.tx_cache_key_to_short_ids;
                  })),
            )
    ]

-- One round of the loop over the other short ids in `remove_transaction_by_short_id`. Unlike the
-- loop above it keeps the flag.
unfoldable pub forget_related : ℕ → ℕ → ℕ → Service → Service
unfolding dequeue note_removed
forget_related now sid dup s =
    if dup == sid
    then s
    else note_removed dup (
        dequeue dup (record s {
          short_id_to_time_removed = insert dup now s.short_id_to_time_removed;
          short_id_to_tx_cache_key = erase dup s.short_id_to_tx_cache_key;
        }))

unfoldable pub forget_all_related : ℕ → ℕ → List ℕ → Service → Service
forget_all_related now sid [] s = s
forget_all_related now sid (dup ∷ sids) s =
    forget_all_related now sid sids (forget_related now sid dup s)

-- The part of `remove_transaction_by_short_id` that clears the mapping from `short_id`.
unfoldable pub unmap_short_id : ℕ → ℕ → Service → Service
unfolding note_removed
unmap_short_id now sid s =
    let s' = note_removed sid s in
    record s' {
      short_id_to_tx_cache_key = erase sid s.short_id_to_tx_cache_key;
      short_id_to_time_removed = insert sid now s.short_id_to_time_removed;
    }

-- The part that follows: all of the transaction if this was its last short id or the related ones
-- go as well, else this short id alone. `set.remove` raises where the element is missing.
unfoldable pub clear_mapping : ℕ → ℕ → ℕ → List ℕ → Bool → Service → Result Service
clear_mapping now sid key sids related s =
    if (length sids == 1) || related
    then (let s' = drop_contents now key (forget_all_related now sid sids s) in
        ok (record s' { tx_cache_key_to_short_ids = erase key s'.tx_cache_key_to_short_ids }))
    else if elem sid sids
    then ok (record s {
      tx_cache_key_to_short_ids = insert key (discard sid sids) s.tx_cache_key_to_short_ids;
    })
    else err key_error

-- A short id whose key has no set of short ids gets the list of itself, and the deletion of the
-- key's entry then raises.
unfoldable pub remove_transaction_by_short_id : ℕ → ℕ → Bool → Bool → Service → Result Service
remove_transaction_by_short_id now sid related force s =
    elim (lookup sid s.short_id_to_tx_cache_key) [
      | none ↦ ok (dequeue sid s)
      | some key ↦ elim (lookup key s.tx_cache_key_to_short_ids) [
        | none ↦ err key_error
        | some sids ↦ do
          flag ← reduce_flags (map (flag_at s) sids)
          if is_paid flag && not force then ok s else do
            s' ← clear_mapping now sid key sids related (unmap_short_id now sid s)
            ok (dequeue sid s')
      ]
    ]

-- The loop of `remove_sid_by_key`: `del` raises on a short id that is not mapped.
unfoldable pub unassign_short_ids : List ℕ → Service → Result Service
unfolding dequeue
unassign_short_ids [] s = ok s
unassign_short_ids (sid ∷ sids) s =
    let rest = unassign_short_ids sids (
      dequeue sid (record s { short_id_to_tx_cache_key = erase sid s.short_id_to_tx_cache_key })) in
    if contains sid s.short_id_to_tx_cache_key then rest else err key_error

unfoldable pub remove_sid_by_key : TransactionKey → Service → Result Service
remove_sid_by_key tx s =
    if contains tx.transaction_cache_key s.tx_cache_key_to_contents
    then ok s
    else elim (lookup tx.transaction_cache_key s.tx_cache_key_to_short_ids) [
      | none ↦ ok s
      | some sids ↦ unassign_short_ids sids (record s {
        tx_cache_key_to_short_ids = erase tx.transaction_cache_key s.tx_cache_key_to_short_ids;
      })
    ]

unfoldable pub clear : Service → Service
unfolding Expiration.clear
clear s = record s {
  tx_cache_key_to_contents = [];
  tx_cache_key_to_short_ids = [];
  short_id_to_tx_cache_key = [];
  short_ids_seen_in_block = [];
  short_id_to_tx_flag = [];
  tx_hashes_without_content = Expiration.clear s.tx_hashes_without_content;
  tx_hashes_without_short_id = Expiration.clear s.tx_hashes_without_short_id;
  tx_assignment_expire_queue = Expiration.clear s.tx_assignment_expire_queue;
  total_tx_contents_size = pos 0;
}
