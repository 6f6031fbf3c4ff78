-- ===== src/Transactions/Alarms.antt =====
-- The methods that alarms, blocks and sync messages call, on a valid service.
use mathlib.Core.Path.{subst}
use bxcommon.Expiration.Callbacks.{remove_expired_keeps, remove_expired_keeps_if}
use bxcommon.Expiration.Defs.{remove_expired, get_oldest_item_timestamp}
use bxcommon.Prelude.Dict.{Dict, insert}
use bxcommon.Prelude.Result.{ok, ◌>>=◌, >>=-eq-ok}
use bxcommon.Prelude.{
  ℕ, ◌≡◌, refl, true, false, some, List, [], ◌∷◌, leb, length, arith, inl, inr, Option-cases,
  Bool-cases, List-cases,
}
use bxcommon.Transactions.Assign.{assign_short_id_by_key}
use bxcommon.Transactions.Core.{core}
use bxcommon.Transactions.Expiry.{
  expire_old_assignments, expire_content_without_sid, expire_sid_without_content, next_delay,
  remove_all_short_ids, track_seen_short_ids_now, put_item, TxContentShortIds, assign_zipped,
  process_tx_sync_message,
}
use bxcommon.Transactions.Removal.{
  remove_transaction_by_short_id, remove_transaction_by_key, remove_sid_by_key,
}
use bxcommon.Transactions.SafeKey.{remove_transaction_by_key_keeps}
use bxcommon.Transactions.Safe.{remove_transaction_by_short_id_keeps}
use bxcommon.Transactions.State.{
  Service, TransactionKey, Bytes, assignments, without_short_id, without_content,
  max_expired_txs_to_remove, get_transaction_key,
}
use bxcommon.Transactions.Storing.{set_transaction_contents_fits, assign_short_id-IsValid}
use bxcommon.Transactions.Unassign.{remove_sid_by_key_keeps}
use bxcommon.Transactions.Valid.{IsValid, requeue-IsValid}

abbrev pub IsValidService : Service → Type 0
IsValidService s = IsValid (core s)

-- The alarm that expires assignments raises nothing on a valid service, and leaves a valid one.
pub expire_old_assignments_keeps :
    (now : ℕ) (s : Service)
    → IsValid (core s)
    → (delay : ℕ) × (s' : Service) × (expire_old_assignments now s ≡ ok (delay, s'))
      × IsValid (core s')
unfolding expire_old_assignments
expire_old_assignments_keeps now s v =
    let (r, s', run, v') =
      remove_expired_keeps assignments (λ sid. remove_transaction_by_short_id now sid false true)
        IsValidService (λ rest t w. requeue-IsValid rest (core t) w)
        (λ sid t w.
          let (t', run, k) = remove_transaction_by_short_id_keeps now sid false true t w in
          (t', run, k.valid))
        now (some max_expired_txs_to_remove) s v in
    elim (Option-cases (
      next_delay now s'.opts.sid_expire_time
        (get_oldest_item_timestamp s'.tx_assignment_expire_queue))) [
          | inl empty ↦ (0, record s' { tx_assign_alarm_scheduled = false }, ground arith, v')
          | inr (delay, later) ↦ (delay, s', ground arith, v')
        ]

-- The alarm that expires contents without a short id raises nothing on a valid service, and leaves
-- a valid one.
pub expire_content_without_sid_keeps :
    (now : ℕ) (s : Service)
    → IsValid (core s)
    → (delay : ℕ) × (s' : Service) × (expire_content_without_sid now s ≡ ok (delay, s'))
      × IsValid (core s')
unfolding expire_content_without_sid
expire_content_without_sid_keeps now s v =
    let (r, s', run, v') =
      remove_expired_keeps without_short_id
        (λ hash t. do
          (_, t') ← remove_transaction_by_key now (get_transaction_key hash) true true t
          ok t')
        IsValidService (λ rest t w. w)
        (λ hash t w.
          let (_, t', run, k) =
            remove_transaction_by_key_keeps now (get_transaction_key hash) true true t w in
          (t', rw run, k.valid))
        now (some max_expired_txs_to_remove) s v in
    elim (Option-cases
      (next_delay now 900 (get_oldest_item_timestamp s'.tx_hashes_without_short_id))) [
        | inl empty ↦
            (0, record s' { tx_content_without_sid_alarm_scheduled = false }, ground arith, v')
        | inr (delay, later) ↦ (delay, s', ground arith, v')
      ]

-- Where the alarm that expires short ids without contents returns, a valid service stays valid.
pub expire_sid_without_content_keeps :
    (now delay : ℕ) (s s' : Service)
    → IsValid (core s)
    → expire_sid_without_content now s ≡ ok (delay, s')
    → IsValid (core s')
unfolding expire_sid_without_content
expire_sid_without_content_keeps now delay s s' v e =
    let clean = λ (hash : ℕ). remove_sid_by_key (get_transaction_key hash) in
    let expired =
      remove_expired without_content (some clean) now (some max_expired_txs_to_remove) s in
    let ((r, s1), run, rest) = >>=-eq-ok expired _ e in
    let v1 : IsValidService s1 =
      remove_expired_keeps_if without_content clean IsValidService (λ gone t w. w)
        (λ hash t t' w h. remove_sid_by_key_keeps (get_transaction_key hash) t t' w h) now
        (some max_expired_txs_to_remove) s r s1 v run in
    elim (Option-cases
      (next_delay now 900 (get_oldest_item_timestamp s1.tx_hashes_without_content))) [
        | inl empty ↦
            let s2 : Service = record s1 { tx_without_content_alarm_scheduled = false } in
            let same : s2 ≡ s' = ground arith in subst IsValidService same v1
        | inr (d, later) ↦ let same : s1 ≡ s' = ground arith in subst IsValidService same v1
      ]

remove_all_short_ids_keeps :
    (now : ℕ) (sids : List ℕ) (s : Service)
    → IsValid (core s)
    → (s' : Service) × (remove_all_short_ids now sids s ≡ ok s') × IsValid (core s')
unfolding remove_all_short_ids
remove_all_short_ids_keeps now [] s v = (s, refl, v)
remove_all_short_ids_keeps now (sid ∷ sids) s v =
    let (s1, run, k) = remove_transaction_by_short_id_keeps now sid true true s v in
    let (s2, again, v2) = remove_all_short_ids_keeps now sids s1 k.valid in (s2, rw run again, v2)

insert-ne-nil : (k : ℕ) (v : List ℕ) (d : Dict (List ℕ)) → insert k v d ≡ [] → ⊥
insert-ne-nil k v [] e = cc
insert-ne-nil k v (x ∷ d) e = ground arith

-- Noting a block in a valid service raises nothing, also where its oldest block is dropped with the
-- transactions that it holds, and leaves a valid service.
pub track_seen_short_ids_keeps :
    (now block_hash : ℕ) (short_ids : List ℕ) (s : Service)
    → IsValid (core s)
    → (s' : Service) × (track_seen_short_ids_now now block_hash short_ids s ≡ ok s')
      × IsValid (core s')
unfolding track_seen_short_ids_now
track_seen_short_ids_keeps now block_hash short_ids s v =
    let seen = insert block_hash short_ids s.short_ids_seen_in_block in
    elim (Bool-cases (leb s.final_tx_confirmations_count (length seen))) [
      | inr few ↦ (record s { short_ids_seen_in_block = seen }, rw few, v)
      | inl full ↦ elim (List-cases seen) [
        | inl empty ↦ absurd (insert-ne-nil block_hash short_ids s.short_ids_seen_in_block empty)
        | inr ((hash, final), rest, e) ↦
            let (s', run, v') =
              remove_all_short_ids_keeps now final (record s { short_ids_seen_in_block = rest })
                v in
            (s', ground arith, v')
      ]
    ]

assign_zipped-IsValid :
    (now : ℕ) (tx : TransactionKey) (sids flags : List ℕ) (s : Service)
    → IsValid (core s)
    → IsValid (core (assign_zipped now tx sids flags s))
unfolding assign_zipped
assign_zipped-IsValid now tx (sid ∷ sids) (f ∷ flags) s v =
    assign_zipped-IsValid now tx sids flags (assign_short_id_by_key now tx sid s)
      (assign_short_id-IsValid now tx sid s v)
assign_zipped-IsValid now tx _ _ s v = v

put_item_keeps :
    (now : ℕ) (tx : TransactionKey) (content : Bytes) (s : Service)
    → IsValid (core s)
    → (s' : Service) × (put_item now tx content s ≡ ok s') × IsValid (core s')
unfolding put_item
put_item_keeps now tx [] s v = (s, refl, v)
put_item_keeps now tx (b ∷ bs) s v =
    let (s', run, v', fits) = set_transaction_contents_fits now tx (b ∷ bs) s v in (s', run, v')

-- A sync message, whatever it holds, raises nothing on a valid service, and leaves a valid one.
pub process_tx_sync_message_keeps :
    (now : ℕ) (items : List TxContentShortIds) (s : Service)
    → IsValid (core s)
    → (s' : Service) × (process_tx_sync_message now items s ≡ ok s') × IsValid (core s')
unfolding process_tx_sync_message
process_tx_sync_message_keeps now [] s v = (s, refl, v)
process_tx_sync_message_keeps now (item ∷ items) s v =
    let tx = get_transaction_key item.tx_hash in
    let (s1, put, v1) = put_item_keeps now tx item.tx_content s v in
    let (s2, run, v2) =
      process_tx_sync_message_keeps now items
        (assign_zipped now tx item.short_ids item.short_id_flags s1)
        (assign_zipped-IsValid now tx item.short_ids item.short_id_flags s1 v1) in
    (s2, rw put run, v2)
