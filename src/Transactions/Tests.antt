-- ===== src/Transactions/Tests.antt =====
-- Runs of the service, and its theorems at a service that holds one transaction.
use bxcommon.Expiration.Defs as Expiration
use bxcommon.Prelude.Dict.{lookup}
use bxcommon.Prelude.Int.{pos}
use bxcommon.Prelude.Result.{ok, err, key_error}
use bxcommon.Prelude.Sets.{elem}
use bxcommon.Prelude.{
  ℕ, ◌≡◌, ◌≤◌, refl, true, false, some, List, [], ◌∷◌, ◌++◌, ◌==◌, if◌then◌else◌, arith,
}
use bxcommon.Transactions.Assign.{
  assign_short_id_by_key, assign_short_id_base_by_key, note_without_content, map_short_id,
  note_assigned, short_ids_at, set_transaction_contents_by_key,
}
use bxcommon.Transactions.Core.{core}
use bxcommon.Transactions.Reach
use bxcommon.Transactions.Reach.{Reach, Step}
use bxcommon.Transactions.Removal.{
  remove_transaction_by_short_id, remove_sid_by_key, clear_mapping, unmap_short_id, drop_contents,
  forget_all_related, forget_related, note_removed, dequeue, unassign_short_ids,
}
use bxcommon.Transactions.Safe.{Kept, remove_transaction_by_short_id_keeps}
use bxcommon.Transactions.State.{
  first_alarms, Service, Handler, Options, TransactionKey, get_transaction_key, init, reduce_flags,
  flag_at,
}
use bxcommon.Transactions.Storing
use bxcommon.Transactions.Unassign
use bxcommon.Transactions.Unassign.{IsExact}
use bxcommon.Transactions.Valid.{IsValid, size, assign-IsValid}

abbrev options : Options
options = record {
  sid_expire_time = 100;
  dump_removed_short_ids = true;
  tx_content_memory_limit = 3;
  removed_txs_expiration_time_s = 60;
}

abbrev tx : TransactionKey
tx = get_transaction_key 77

abbrev queue_of : ℕ → List (ℕ × ℕ) → Expiration.ExpirationQueue
queue_of ttl q = record { time_to_live_sec = ttl; queue = q }

-- A service that holds nothing.
abbrev fresh : Service
fresh = record {
  opts = options;
  tx_cache_key_to_short_ids = [];
  short_id_to_tx_cache_key = [];
  short_id_to_tx_flag = [];
  tx_cache_key_to_contents = [];
  tx_assignment_expire_queue = queue_of 100 [];
  tx_hashes_without_short_id = queue_of 900 [];
  tx_hashes_without_content = queue_of 900 [];
  tx_hash_to_time_removed = [];
  short_id_to_time_removed = [];
  short_ids_seen_in_block = [];
  removed_short_ids = [];
  total_tx_contents_size = pos 0;
  total_tx_removed_by_memory_limit = 0;
  final_tx_confirmations_count = 2;
  tx_assign_alarm_scheduled = false;
  tx_content_without_sid_alarm_scheduled = false;
  tx_without_content_alarm_scheduled = false;
  alarms = first_alarms options;
}

init-fresh : init options 2 ≡ fresh
unfolding init
init-fresh = refl

-- One transaction with two short ids, one of them paid, and two bytes of contents.
abbrev loaded : Service
loaded = record fresh {
  tx_cache_key_to_short_ids = (77, 5 ∷ 6 ∷ []) ∷ [];
  short_id_to_tx_cache_key = (5, 77) ∷ (6, 77) ∷ [];
  short_id_to_tx_flag = (6, 2) ∷ [];
  tx_cache_key_to_contents = (77, 1 ∷ 2 ∷ []) ∷ [];
  tx_assignment_expire_queue = queue_of 100 ((5, 10) ∷ (6, 10) ∷ []);
  total_tx_contents_size = pos 2;
  tx_assign_alarm_scheduled = true;
}

fresh-IsValid : IsValid (core fresh)
unfolding init
fresh-IsValid = Reach.init-IsValid options 2

loaded-IsValid : IsValid (core loaded)
loaded-IsValid =
    let v = assign-IsValid 77 6 _ (assign-IsValid 77 5 (core fresh) fresh-IsValid) in
    record { linked = v.linked; sets = v.sets; distinct = (refl, tt); counted = refl }

-- Two transactions were assigned one short id, and the first has been cleaned up.
abbrev reassigned : Service
reassigned = record fresh {
  tx_cache_key_to_short_ids = (78, 5 ∷ []) ∷ [];
  tx_hashes_without_content = queue_of 900 ((77, 10) ∷ (78, 10) ∷ []);
  tx_assign_alarm_scheduled = true;
  tx_without_content_alarm_scheduled = true;
  alarms =
      first_alarms options
      ++ (900, Handler.expire_sid_without_content) ∷ (100, Handler.expire_old_assignments) ∷ [];
}

program : Unit {0}
unfolding init assign_short_id_by_key assign_short_id_base_by_key note_without_content map_short_id
    note_assigned short_ids_at remove_transaction_by_short_id clear_mapping unmap_short_id
    drop_contents forget_all_related forget_related note_removed dequeue reduce_flags flag_at
    remove_sid_by_key unassign_short_ids
program = tt

-- The first of the two short ids goes alone.
removed_one :
    remove_transaction_by_short_id 20 5 false true loaded
    ≡ ok (record loaded {
      tx_cache_key_to_short_ids = (77, 6 ∷ []) ∷ [];
      short_id_to_tx_cache_key = (6, 77) ∷ [];
      tx_assignment_expire_queue = queue_of 100 ((6, 10) ∷ []);
      short_id_to_time_removed = (5, 20) ∷ [];
      removed_short_ids = 5 ∷ [];
    })
unfolding program
removed_one = refl

-- With its related short ids the transaction goes, but not the flag of its paid short id.
removed_all :
    remove_transaction_by_short_id 20 5 true true loaded
    ≡ ok (record loaded {
      tx_cache_key_to_short_ids = [];
      short_id_to_tx_cache_key = [];
      tx_cache_key_to_contents = [];
      tx_assignment_expire_queue = queue_of 100 [];
      tx_hash_to_time_removed = (77, 20) ∷ [];
      short_id_to_time_removed = (5, 20) ∷ (6, 20) ∷ [];
      removed_short_ids = 5 ∷ 6 ∷ [];
      total_tx_contents_size = pos 0;
    })
unfolding program
removed_all = refl

-- Without force a paid transaction stays.
kept_paid : remove_transaction_by_short_id 20 5 true false loaded ≡ ok loaded
unfolding program
kept_paid = refl

remove_transaction_by_short_id_keeps_example :
    (s' : Service) × (remove_transaction_by_short_id 20 5 false true loaded ≡ ok s')
    × Kept (core loaded) (core s')
remove_transaction_by_short_id_keeps_example =
    remove_transaction_by_short_id_keeps 20 5 false true loaded loaded-IsValid

-- Four bytes do not fit beside the limit of three.
set_transaction_contents_fits_example :
    (s' : Service) × (set_transaction_contents_by_key 20
        (get_transaction_key 78)
        (1 ∷ 2 ∷ 3 ∷ 4 ∷ [])
        loaded
      ≡ ok s')
    × IsValid (core s')
    × (size s'.tx_cache_key_to_contents ≤ 3)
set_transaction_contents_fits_example =
    Storing.set_transaction_contents_fits 20 (get_transaction_key 78) (1 ∷ 2 ∷ 3 ∷ 4 ∷ []) loaded
      loaded-IsValid

set_transaction_contents_stored_example :
    (s' : Service) × (set_transaction_contents_by_key 20 (get_transaction_key 78) (9 ∷ []) loaded
      ≡ ok s')
    × ((k : ℕ)
        → lookup k s'.tx_cache_key_to_contents
          ≡ (if k == 78 then some (9 ∷ []) else lookup k loaded.tx_cache_key_to_contents))
set_transaction_contents_stored_example =
    Storing.set_transaction_contents_stored 20 (get_transaction_key 78) (9 ∷ []) loaded
      loaded-IsValid (omega arith)

assign_short_id_resolves_example :
    let s' = assign_short_id_by_key 30 tx 7 loaded in
    ((j : ℕ)
      → lookup j s'.short_id_to_tx_cache_key
        ≡ (if j == 7 then some 77 else lookup j loaded.short_id_to_tx_cache_key))
    × (elem 7 (short_ids_at s' 77) ≡ true)
assign_short_id_resolves_example = Storing.assign_short_id_resolves 30 tx 7 loaded (omega arith)

remove_sid_by_key_reassigned_example :
    remove_sid_by_key (get_transaction_key 78) reassigned ≡ err key_error
unfolding program
remove_sid_by_key_reassigned_example =
    Unassign.remove_sid_by_key_reassigned 10 tx (get_transaction_key 78) 5 fresh reassigned
      (omega arith) (omega arith) refl refl refl

loaded-IsExact : IsExact (core loaded)
loaded-IsExact sid key h = ground arith

remove_sid_by_key_total_example : (s' : Service) × (remove_sid_by_key tx loaded ≡ ok s')
remove_sid_by_key_total_example =
    Unassign.remove_sid_by_key_total tx loaded loaded-IsValid loaded-IsExact

Reach-IsValid_example : IsValid (core (assign_short_id_by_key 10 tx 5 (init options 2)))
Reach-IsValid_example =
    Reach.Reach-IsValid options 2 (assign_short_id_by_key 10 tx 5 (init options 2))
      (Reach.next Reach.here (Step.assign 10 5 tx refl))
