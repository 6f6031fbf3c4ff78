-- ===== src/Transactions/Expiry.antt =====
-- The methods of `TransactionService` that alarms and blocks call.
use bxcommon.Expiration.Defs.{remove_expired, get_oldest_item_timestamp}
use bxcommon.Prelude.Dict.{insert, erase}
use bxcommon.Prelude.Result.{Result, ok, err, key_error, ◌>>=◌}
use bxcommon.Prelude.{
  ℕ, ◌+◌, ◌-◌, max, true, false, Option, none, some, List, [], ◌∷◌, ◌++◌, leb, length,
  if◌then◌else◌,
}
use bxcommon.Transactions.Assign.{assign_short_id_by_key, set_transaction_contents_by_key}
use bxcommon.Transactions.Removal.{
  remove_transaction_by_short_id, remove_transaction_by_key, remove_sid_by_key,
}
use bxcommon.Transactions.State.{
  Service, TransactionKey, Bytes, track_seen_short_ids, get_transaction_key, assignments,
  without_short_id, without_content, max_expired_txs_to_remove, tx_content_no_sid_expire_s,
  min_clean_up_expired_txs_task_interval_s,
}

unfoldable pub set_final_tx_confirmations_count : ℕ → Service → Service
set_final_tx_confirmations_count val s = record s { final_tx_confirmations_count = val }

-- `max(oldest + time_to_live - now, MIN_CLEAN_UP_EXPIRED_TXS_TASK_INTERVAL_S)`; where the difference
-- is negative it is 0 here, and the maximum is the same. `none` is an empty queue.
unfoldable pub next_delay : ℕ → ℕ → Option ℕ → Option ℕ
next_delay now ttl none = none
next_delay now ttl (some oldest) =
    some (max (oldest + ttl - now) min_clean_up_expired_txs_task_interval_s)

-- The three alarms: each expires at most a fixed number of entries, and returns the delay until it
-- wants to run again, or 0 once its queue is empty.
unfoldable pub expire_old_assignments : ℕ → Service → Result (ℕ × Service)
expire_old_assignments now s = do
  (_, s') ←
      remove_expired assignments (some (λ sid. remove_transaction_by_short_id now sid false true))
        now (some max_expired_txs_to_remove) s
  elim (next_delay now s'.opts.sid_expire_time
      (get_oldest_item_timestamp s'.tx_assignment_expire_queue)) [
        | none ↦ ok (0, record s' { tx_assign_alarm_scheduled = false })
        | some delay ↦ ok (delay, s')
      ]

unfoldable pub expire_content_without_sid : ℕ → Service → Result (ℕ × Service)
expire_content_without_sid now s = do
  (_, s') ←
      remove_expired without_short_id
        (some (λ hash t. do
          (_, t') ← remove_transaction_by_key now (get_transaction_key hash) true true t
          ok t'))
        now (some max_expired_txs_to_remove) s
  elim (next_delay now tx_content_no_sid_expire_s
      (get_oldest_item_timestamp s'.tx_hashes_without_short_id)) [
        | none ↦ ok (0, record s' { tx_content_without_sid_alarm_scheduled = false })
        | some delay ↦ ok (delay, s')
      ]

unfoldable pub expire_sid_without_content : ℕ → Service → Result (ℕ × Service)
expire_sid_without_content now s = do
  (_, s') ←
      remove_expired without_content (some (λ hash. remove_sid_by_key (get_transaction_key hash)))
        now (some max_expired_txs_to_remove) s
  elim (next_delay now tx_content_no_sid_expire_s
      (get_oldest_item_timestamp s'.tx_hashes_without_content)) [
        | none ↦ ok (0, record s' { tx_without_content_alarm_scheduled = false })
        | some delay ↦ ok (delay, s')
      ]

-- `for short_id in final_short_ids: self.remove_transaction_by_short_id(...)`
unfoldable pub remove_all_short_ids : ℕ → List ℕ → Service → Result Service
remove_all_short_ids now [] s = ok s
remove_all_short_ids now (sid ∷ sids) s = do
  s' ← remove_transaction_by_short_id now sid true true s
  remove_all_short_ids now sids s'

-- A block is noted; with enough confirmations the oldest noted block is dropped, and the
-- transactions that it confirmed with it.
unfoldable pub track_seen_short_ids_now : ℕ → ℕ → List ℕ → Service → Result Service
track_seen_short_ids_now now block_hash short_ids s =
    let seen = insert block_hash short_ids s.short_ids_seen_in_block in
    if leb s.final_tx_confirmations_count (length seen)
    then (elim seen [
      | [] ↦ err key_error
      | (_, final_short_ids) ∷ rest ↦
          remove_all_short_ids now final_short_ids (record s { short_ids_seen_in_block = rest })
    ])
    else ok (record s { short_ids_seen_in_block = seen })

unfoldable pub track_seen_short_ids_delayed : ℕ → List ℕ → Service → Service
track_seen_short_ids_delayed block_hash short_ids s = record s {
  alarms = s.alarms ++ ((10, track_seen_short_ids block_hash short_ids) ∷ []);
}

unfoldable pub on_block_cleaned_up : ℕ → Service → Service
on_block_cleaned_up block_hash s = record s {
  short_ids_seen_in_block = erase block_hash s.short_ids_seen_in_block;
}

-- One item of a sync message: `zip` takes a short id only where there is a flag for it.
pub record TxContentShortIds : Type 0 where
  pub tx_hash : ℕ
  pub tx_content : Bytes
  pub short_ids : List ℕ
  pub short_id_flags : List ℕ

unfoldable pub assign_zipped : ℕ → TransactionKey → List ℕ → List ℕ → Service → Service
assign_zipped now tx (sid ∷ sids) (_ ∷ flags) s =
    assign_zipped now tx sids flags (assign_short_id_by_key now tx sid s)
assign_zipped now tx _ _ s = s

-- `if tx_content: self.set_transaction_contents_by_key(...)`
unfoldable pub put_item : ℕ → TransactionKey → Bytes → Service → Result Service
put_item now tx [] s = ok s
put_item now tx (b ∷ bs) s = set_transaction_contents_by_key now tx (b ∷ bs) s

unfoldable pub process_tx_sync_message : ℕ → List TxContentShortIds → Service → Result Service
process_tx_sync_message now [] s = ok s
process_tx_sync_message now (item ∷ items) s = do
  s' ← put_item now (get_transaction_key item.tx_hash) item.tx_content s
  process_tx_sync_message now items
      (assign_zipped now (get_transaction_key item.tx_hash) item.short_ids item.short_id_flags s')
