-- ===== src/Transactions/Reach.antt =====
-- The service under sequences of calls that return. (`set_transaction_contents_base_by_key` is called by
-- `set_transaction_contents_by_key`, with the previous size that it looks up. A call that
-- raises, such as one of `remove_sid_by_key`, is no step.)
use Prim.Native.Nat.{bit_and}
use mathlib.Core.Path.{subst}
use bxcommon.Prelude.Result.{Result, ok}
use bxcommon.Prelude.{ℕ, ◌≡◌, refl, sym, Bool, Option, List, ◌==◌, arith, inl, inr, Bool-cases}
use bxcommon.Transactions.Alarms.{
  IsValidService, expire_old_assignments_keeps, expire_content_without_sid_keeps,
  expire_sid_without_content_keeps, track_seen_short_ids_keeps, process_tx_sync_message_keeps,
}
use bxcommon.Transactions.Assign.{
  assign_short_id_by_key, assign_short_id_base_by_key, set_transaction_contents_by_key,
  set_short_id_transaction_type,
}
use bxcommon.Transactions.Core.{core}
use bxcommon.Transactions.Expiry.{
  expire_old_assignments, expire_content_without_sid, expire_sid_without_content,
  track_seen_short_ids_now, track_seen_short_ids_delayed, on_block_cleaned_up, TxContentShortIds,
  process_tx_sync_message, set_final_tx_confirmations_count,
}
use bxcommon.Transactions.Removal.{
  remove_transaction_by_short_id, remove_transaction_by_key, remove_sid_by_key, clear,
}
use bxcommon.Transactions.SafeKey.{remove_transaction_by_key_keeps}
use bxcommon.Transactions.Safe.{remove_transaction_by_short_id_keeps}
use bxcommon.Transactions.State.{Service, Options, TransactionKey, Bytes, init}
use bxcommon.Transactions.Storing.{
  set_transaction_contents_fits, assign_short_id-IsValid, assign_short_id_base-IsValid,
}
use bxcommon.Transactions.Unassign.{remove_sid_by_key_keeps}
use bxcommon.Transactions.Valid.{IsValid}

pub init-IsValid : (opts : Options) (n : ℕ) → IsValid (core (init opts n))
unfolding init
init-IsValid opts n = record {
  linked = λ sid key e. ground arith;
  sets = λ key sids e. ground arith;
  distinct = tt;
  counted = refl;
}

-- A call of a method that returns, with the new service.
pub data Step (s s' : Service) : Type 0 where
  assign :
      (now sid : ℕ) (tx : TransactionKey) → s' ≡ assign_short_id_by_key now tx sid s → Step s s'
  assign_base :
      (now sid : ℕ) (tx : TransactionKey) (has_contents call_to_assign_short_id : Bool)
      → s' ≡ assign_short_id_base_by_key now tx sid has_contents call_to_assign_short_id s
      → Step s s'
  flag : (sid f : ℕ) → s' ≡ set_short_id_transaction_type sid f s → Step s s'
  store :
      (now : ℕ) (tx : TransactionKey) (contents : Bytes)
      → set_transaction_contents_by_key now tx contents s ≡ ok s'
      → Step s s'
  remove_key :
      (now : ℕ) (tx : TransactionKey) (force assume_no_sid : Bool) (r : Option (List ℕ))
      → remove_transaction_by_key now tx force assume_no_sid s ≡ ok (r, s')
      → Step s s'
  remove_short_id :
      (now sid : ℕ) (related force : Bool)
      → remove_transaction_by_short_id now sid related force s ≡ ok s'
      → Step s s'
  remove_sid : (tx : TransactionKey) → remove_sid_by_key tx s ≡ ok s' → Step s s'
  expire_assignments : (now delay : ℕ) → expire_old_assignments now s ≡ ok (delay, s') → Step s s'
  expire_content : (now delay : ℕ) → expire_content_without_sid now s ≡ ok (delay, s') → Step s s'
  expire_sid : (now delay : ℕ) → expire_sid_without_content now s ≡ ok (delay, s') → Step s s'
  track :
      (now block_hash : ℕ) (short_ids : List ℕ)
      → track_seen_short_ids_now now block_hash short_ids s ≡ ok s'
      → Step s s'
  schedule :
      (block_hash : ℕ) (sids : List ℕ)
      → s' ≡ track_seen_short_ids_delayed block_hash sids s
      → Step s s'
  forget_block : (block_hash : ℕ) → s' ≡ on_block_cleaned_up block_hash s → Step s s'
  sync :
      (now : ℕ) (items : List TxContentShortIds)
      → process_tx_sync_message now items s ≡ ok s'
      → Step s s'
  confirmations : (n : ℕ) → s' ≡ set_final_tx_confirmations_count n s → Step s s'
  clear_all : s' ≡ clear s → Step s s'

pub data Reach (s : Service) : Service → Type 0 where
  here : Reach s s
  next : {t u : Service} → Reach s t → Step t u → Reach s u

-- Two results of one call are the same.
same_result :
    (m : Result Service) (s s' : Service)
    → m ≡ ok s'
    → m ≡ ok s
    → IsValid (core s)
    → IsValid (core s')
same_result m s s' e e' v = let same : s ≡ s' = cc in subst IsValidService same v

same_result2 {ℓ} :
    {A : Type ℓ} (m : Result (A × Service)) (a a' : A) (s s' : Service)
    → m ≡ ok (a', s')
    → m ≡ ok (a, s)
    → IsValid (core s)
    → IsValid (core s')
same_result2 m a a' s s' e e' v = let same : s ≡ s' = cc in subst IsValidService same v

flag-IsValid :
    (sid f : ℕ) (s : Service)
    → IsValid (core s)
    → IsValid (core (set_short_id_transaction_type sid f s))
unfolding set_short_id_transaction_type
flag-IsValid sid f s v = elim (Bool-cases (bit_and 2 f == 0)) [ inl e ↦ rw e v | inr e ↦ rw e v ]

clear-IsValid : (s : Service) → IsValid (core (clear s))
unfolding clear
clear-IsValid s = record {
  linked = λ sid key e. ground arith;
  sets = λ key sids e. ground arith;
  distinct = tt;
  counted = refl;
}

Step-IsValid : (s s' : Service) → Step s s' → IsValid (core s) → IsValid (core s')
unfolding track_seen_short_ids_delayed on_block_cleaned_up set_final_tx_confirmations_count
Step-IsValid s s' (assign now sid tx e) v =
    subst IsValidService (sym e) (assign_short_id-IsValid now tx sid s v)
Step-IsValid s s' (assign_base now sid tx has_contents to_assign e) v =
    subst IsValidService (sym e)
      (assign_short_id_base-IsValid now tx sid has_contents to_assign s v)
Step-IsValid s s' (flag sid f e) v = subst IsValidService (sym e) (flag-IsValid sid f s v)
Step-IsValid s s' (store now tx contents e) v =
    let (t, run, w, fits) = set_transaction_contents_fits now tx contents s v in
    same_result _ t s' e run w
Step-IsValid s s' (remove_key now tx force assume_no_sid r e) v =
    let (r', t, run, k) = remove_transaction_by_key_keeps now tx force assume_no_sid s v in
    same_result2 _ r' r t s' e run k.valid
Step-IsValid s s' (remove_short_id now sid related force e) v =
    let (t, run, k) = remove_transaction_by_short_id_keeps now sid related force s v in
    same_result _ t s' e run k.valid
Step-IsValid s s' (remove_sid tx e) v = remove_sid_by_key_keeps tx s s' v e
Step-IsValid s s' (expire_assignments now delay e) v =
    let (d, t, run, w) = expire_old_assignments_keeps now s v in same_result2 _ d delay t s' e run w
Step-IsValid s s' (expire_content now delay e) v =
    let (d, t, run, w) = expire_content_without_sid_keeps now s v in
    same_result2 _ d delay t s' e run w
Step-IsValid s s' (expire_sid now delay e) v = expire_sid_without_content_keeps now delay s s' v e
Step-IsValid s s' (track now block_hash short_ids e) v =
    let (t, run, w) = track_seen_short_ids_keeps now block_hash short_ids s v in
    same_result _ t s' e run w
Step-IsValid s s' (schedule block_hash sids e) v = subst IsValidService (sym e) v
Step-IsValid s s' (forget_block block_hash e) v = subst IsValidService (sym e) v
Step-IsValid s s' (sync now items e) v =
    let (t, run, w) = process_tx_sync_message_keeps now items s v in same_result _ t s' e run w
Step-IsValid s s' (confirmations n e) v = subst IsValidService (sym e) v
Step-IsValid s s' (clear_all e) v = subst IsValidService (sym e) (clear-IsValid s)

Reach-from : {s t : Service} → IsValid (core s) → Reach s t → IsValid (core t)
Reach-from v here = v
Reach-from v (next {t = t} {u = u} r st) = Step-IsValid t u st (Reach-from v r)

-- A new service stays valid through any sequence of calls that return, of the methods of `Step`, at
-- any times: every short id that resolves belongs to the set of its transaction, no transaction has an
-- empty set, and the running total is the size of the stored contents. (A call that raises is not
-- covered.)
pub Reach-IsValid :
    (opts : Options) (n : ℕ) (s : Service) → Reach (init opts n) s → IsValid (core s)
Reach-IsValid opts n s r = Reach-from (init-IsValid opts n) r
