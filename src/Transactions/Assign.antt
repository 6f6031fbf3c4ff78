-- ===== src/Transactions/Assign.antt =====
-- The methods of `TransactionService` that add: short ids, flags and contents, with the clean-up
-- that keeps the contents below the memory limit.
use Prim.Native.Nat.{bit_and}
use bxcommon.Expiration.Defs as Expiration
use bxcommon.Expiration.Defs.{remove_oldest}
use bxcommon.Prelude.Dict.{Dict, lookup, insert, contains, get_or}
use bxcommon.Prelude.Int.{pos, ◌+ℤ◌, ◌-ℤ◌, ltb_ℤ}
use bxcommon.Prelude.Result.{Result, ok, ◌>>=◌}
use bxcommon.Prelude.Sets.{add}
use bxcommon.Prelude.{
  ℕ, zero, suc, ◌+◌, Bool, true, false, ◌&&◌, Option, none, some, List, [], ◌∷◌, ◌++◌, ◌==◌, length,
  if◌then◌else◌,
}
use bxcommon.Transactions.Removal.{remove_transaction_by_short_id, clear}
use bxcommon.Transactions.State.{
  Service, TransactionKey, Bytes, expire_old_assignments, expire_content_without_sid,
  expire_sid_without_content, tx_content_no_sid_expire_s, null_tx_sid, assignments,
}

-- `self._tx_cache_key_to_short_ids[key]`, a defaultdict of sets
unfoldable pub short_ids_at : Service → ℕ → List ℕ
short_ids_at s key = get_or [] (lookup key s.tx_cache_key_to_short_ids)

unfoldable pub set_short_id_transaction_type : ℕ → ℕ → Service → Service
set_short_id_transaction_type sid flag s =
    if bit_and 2 flag == 0
    then s
    else record s { short_id_to_tx_flag = insert sid flag s.short_id_to_tx_flag }

-- A transaction without contents is noted as such, and the alarm that expires it set.
unfoldable pub note_without_content : ℕ → ℕ → Service → Service
unfolding Expiration.add
note_without_content now hash s = record s {
  tx_hashes_without_content = Expiration.add now hash s.tx_hashes_without_content;
  alarms =
      if s.tx_without_content_alarm_scheduled
      then s.alarms
      else s.alarms ++ ((tx_content_no_sid_expire_s, expire_sid_without_content) ∷ []);
  tx_without_content_alarm_scheduled = true;
}

-- The two mappings.
unfoldable pub map_short_id : ℕ → ℕ → Service → Service
unfolding short_ids_at
map_short_id key sid s = record s {
  tx_cache_key_to_short_ids = insert key (add sid (short_ids_at s key)) s.tx_cache_key_to_short_ids;
  short_id_to_tx_cache_key = insert sid key s.short_id_to_tx_cache_key;
}

-- The queues and the alarm, which every assignment changes.
unfoldable pub note_assigned : ℕ → ℕ → ℕ → Service → Service
unfolding Expiration.add Expiration.remove
note_assigned now hash sid s = record s {
  tx_assignment_expire_queue = Expiration.add now sid s.tx_assignment_expire_queue;
  tx_hashes_without_short_id = Expiration.remove hash s.tx_hashes_without_short_id;
  alarms =
      if s.tx_assign_alarm_scheduled
      then s.alarms
      else s.alarms ++ ((s.opts.sid_expire_time, expire_old_assignments) ∷ []);
  tx_assign_alarm_scheduled = true;
}

unfoldable pub assign_short_id_base_by_key :
    ℕ → TransactionKey → ℕ → Bool → Bool → Service → Service
assign_short_id_base_by_key now tx sid has_contents call_to_assign_short_id s =
    if sid == null_tx_sid
    then s
    else (let s' = if has_contents then s else note_without_content now tx.transaction_hash s in
        let s'' =
          if call_to_assign_short_id then map_short_id tx.transaction_cache_key sid s' else s' in
        note_assigned now tx.transaction_hash sid s'')

unfoldable pub assign_short_id_by_key : ℕ → TransactionKey → ℕ → Service → Service
assign_short_id_by_key now tx sid s =
    assign_short_id_base_by_key now tx sid
      (contains tx.transaction_cache_key s.tx_cache_key_to_contents) true s

-- `self._total_tx_contents_size > self._tx_content_memory_limit`
unfoldable pub is_exceeding_memory_limit : Service → Bool
is_exceeding_memory_limit s = ltb_ℤ (pos s.opts.tx_content_memory_limit) s.total_tx_contents_size

-- The `while` loop of `_memory_limit_clean_up`, with fuel; the number counts the rounds.
unfoldable pub clean_up_loop : ℕ → ℕ → Service → Result (ℕ × Service)
clean_up_loop now zero s = ok (0, s)
clean_up_loop now (suc fuel) s =
    let next = (do
      s' ←
          remove_oldest assignments
            (some (λ sid. remove_transaction_by_short_id now sid false true)) s
      (count, s'') ← clean_up_loop now fuel s'
      ok (suc count, s'')) in
    elim s.tx_assignment_expire_queue.queue [
      | [] ↦ ok (0, s)
      | _ ∷ _ ↦ if is_exceeding_memory_limit s then next else ok (0, s)
    ]

abbrev pub is_empty_dict : Dict ℕ → Bool
is_empty_dict [] = true
is_empty_dict (_ ∷ _) = false

-- What follows the loop: where nothing is left to expire and the limit is still exceeded, the whole
-- cache goes.
unfoldable pub clean_up_rest : ℕ → Service → Service
clean_up_rest removed s =
    if is_exceeding_memory_limit s && is_empty_dict s.tx_assignment_expire_queue.queue
    then record (clear s) {
      total_tx_removed_by_memory_limit =
          s.total_tx_removed_by_memory_limit + (removed + length s.tx_cache_key_to_contents);
    }
    else record s {
      total_tx_removed_by_memory_limit = s.total_tx_removed_by_memory_limit + removed;
    }

-- Each round pops an entry, so that one round to an entry of the queue is enough.
unfoldable pub memory_limit_clean_up : ℕ → Service → Result Service
memory_limit_clean_up now s =
    if is_exceeding_memory_limit s
    then (do
      (removed, s') ← clean_up_loop now (length s.tx_assignment_expire_queue.queue) s
      ok (clean_up_rest removed s'))
    else ok s

-- Contents without a short id are noted as such, and the alarm that expires them set.
unfoldable pub note_without_short_id : ℕ → ℕ → Service → Service
unfolding Expiration.add
note_without_short_id now hash s = record s {
  tx_hashes_without_short_id = Expiration.add now hash s.tx_hashes_without_short_id;
  alarms =
      if s.tx_content_without_sid_alarm_scheduled
      then s.alarms
      else s.alarms ++ ((tx_content_no_sid_expire_s, expire_content_without_sid) ∷ []);
  tx_content_without_sid_alarm_scheduled = true;
}

-- The size is counted from the contents, or from the length alone where they are kept elsewhere.
unfoldable pub store_contents : ℕ → ℕ → Bool → Option Bytes → Option ℕ → Service → Service
store_contents key previous_size call_set_contents (some contents) len s = record s {
  total_tx_contents_size = s.total_tx_contents_size +ℤ pos (length contents) -ℤ pos previous_size;
  tx_cache_key_to_contents =
      if call_set_contents
      then insert key contents s.tx_cache_key_to_contents
      else s.tx_cache_key_to_contents;
}
store_contents key previous_size call_set_contents none (some len) s = record s {
  total_tx_contents_size = s.total_tx_contents_size +ℤ pos len -ℤ pos previous_size;
}
store_contents key previous_size call_set_contents none none s = s

-- The method up to its last call, the clean-up.
unfoldable pub put_contents :
    ℕ → TransactionKey → Bool → ℕ → Bool → Option Bytes → Option ℕ → Service → Service
put_contents now tx has_short_id previous_size call_set_contents contents len s =
    let s' = if has_short_id then s else note_without_short_id now tx.transaction_hash s in
    let s'' = record s' {
      tx_hashes_without_content =
          Expiration.remove tx.transaction_hash s'.tx_hashes_without_content;
    } in
    store_contents tx.transaction_cache_key previous_size call_set_contents contents len s''

unfoldable pub set_transaction_contents_base_by_key :
    ℕ → TransactionKey → Bool → ℕ → Bool → Option Bytes → Option ℕ → Service → Result Service
set_transaction_contents_base_by_key now tx has_short_id previous_size call_set contents len s =
    memory_limit_clean_up now
      (put_contents now tx has_short_id previous_size call_set contents len s)

unfoldable pub set_transaction_contents_by_key :
    ℕ → TransactionKey → Bytes → Service → Result Service
set_transaction_contents_by_key now tx contents s =
    set_transaction_contents_base_by_key now tx
      (contains tx.transaction_cache_key s.tx_cache_key_to_short_ids)
      (length (get_or [] (lookup tx.transaction_cache_key s.tx_cache_key_to_contents))) true
      (some contents) none s
