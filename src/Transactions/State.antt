-- ===== src/Transactions/State.antt =====
-- The attributes of `TransactionService` (bxcommon/services/transaction_service.py), and what its
-- methods read of the node's options and of bxcommon/constants.py.
use Prim.Native.Nat.{bit_and, bit_or}
use bxcommon.Expiration.Defs.{ExpirationQueue, QueueIn}
pub use bxcommon.Prelude.Bytes.{Bytes}
use bxcommon.Prelude.Dict.{Dict, lookup, get_or}
use bxcommon.Prelude.Int.{ℤ, pos}
use bxcommon.Prelude.Result.{Result, ok, err, type_error}
use bxcommon.Prelude.{ℕ, Bool, false, List, [], ◌∷◌, ◌==◌, if◌then◌else◌}

-- A transaction hash and its cache key, which is the hash in hexadecimal: one number stands for
-- both, so that a hash is turned into its key and back without loss.
pub record TransactionKey : Type 0 where
  pub transaction_hash : ℕ
  pub transaction_cache_key : ℕ

-- What an alarm will call.
pub data Handler : Type 0 where
  expire_old_assignments expire_content_without_sid expire_sid_without_content : Handler
  dump_removed_short_ids cleanup_removed_transactions_history : Handler
  track_seen_short_ids : ℕ → List ℕ → Handler

-- `node.opts` and the limits that the constructor reads from the blockchain network.
pub record Options : Type 0 where
  pub sid_expire_time : ℕ
  pub dump_removed_short_ids : Bool
  pub tx_content_memory_limit : ℕ
  pub removed_txs_expiration_time_s : ℕ

pub record Service : Type 0 where
  pub opts : Options
  pub tx_cache_key_to_short_ids : Dict (List ℕ)
  pub short_id_to_tx_cache_key : Dict ℕ
  pub short_id_to_tx_flag : Dict ℕ
  pub tx_cache_key_to_contents : Dict Bytes
  pub tx_assignment_expire_queue : ExpirationQueue
  pub tx_hashes_without_short_id : ExpirationQueue
  pub tx_hashes_without_content : ExpirationQueue
  pub tx_hash_to_time_removed : Dict ℕ
  pub short_id_to_time_removed : Dict ℕ
  pub short_ids_seen_in_block : Dict (List ℕ)
  pub removed_short_ids : List ℕ
  pub total_tx_contents_size : ℤ
  pub total_tx_removed_by_memory_limit : ℕ
  pub final_tx_confirmations_count : ℕ
  pub tx_assign_alarm_scheduled : Bool
  pub tx_content_without_sid_alarm_scheduled : Bool
  pub tx_without_content_alarm_scheduled : Bool
  -- the calls of `node.alarm_queue.register_alarm`, the latest last: a delay and a handler
  pub alarms : List (ℕ × Handler)

abbrev pub tx_content_no_sid_expire_s : ℕ
tx_content_no_sid_expire_s = 900

abbrev pub null_tx_sid : ℕ
null_tx_sid = 0

abbrev pub max_expired_txs_to_remove : ℕ
max_expired_txs_to_remove = 500

abbrev pub min_clean_up_expired_txs_task_interval_s : ℕ
min_clean_up_expired_txs_task_interval_s = 15

abbrev empty_queue : ℕ → ExpirationQueue
empty_queue ttl = record { time_to_live_sec = ttl; queue = [] }

-- The alarms that the constructor registers.
abbrev pub first_alarms : Options → List (ℕ × Handler)
first_alarms opts =
    let history : ℕ × Handler = (10, cleanup_removed_transactions_history) in
    if opts.dump_removed_short_ids
    then (300, Handler.dump_removed_short_ids) ∷ history ∷ []
    else history ∷ []

-- The constructor: every collection is empty.
unfoldable pub init : Options → ℕ → Service
init opts confirmations = record {
  opts = opts;
  tx_cache_key_to_short_ids = [];
  short_id_to_tx_cache_key = [];
  short_id_to_tx_flag = [];
  tx_cache_key_to_contents = [];
  tx_assignment_expire_queue = empty_queue opts.sid_expire_time;
  tx_hashes_without_short_id = empty_queue tx_content_no_sid_expire_s;
  tx_hashes_without_content = empty_queue tx_content_no_sid_expire_s;
  tx_hash_to_time_removed = [];
  short_id_to_time_removed = [];
  short_ids_seen_in_block = [];
  removed_short_ids = [];
  total_tx_contents_size = pos 0;
  total_tx_removed_by_memory_limit = 0;
  final_tx_confirmations_count = confirmations;
  tx_assign_alarm_scheduled = false;
  tx_content_without_sid_alarm_scheduled = false;
  tx_without_content_alarm_scheduled = false;
  alarms = first_alarms opts;
}

-- `get_transaction_key(transaction_hash)`
abbrev pub get_transaction_key : ℕ → TransactionKey
get_transaction_key hash = record { transaction_hash = hash; transaction_cache_key = hash }

-- `TransactionFlag.PAID_TX in flag`
abbrev pub is_paid : ℕ → Bool
is_paid flag = bit_and 2 flag == 2

-- `reduce(lambda x, y: x | y, flags)`, which raises on no flags
unfoldable pub reduce_flags : List ℕ → Result ℕ
reduce_flags [] = err type_error
reduce_flags (x ∷ []) = ok x
reduce_flags (x ∷ y ∷ rest) = reduce_flags (bit_or x y ∷ rest)

-- `self._short_id_to_tx_flag.get(sid, TransactionFlag.NO_FLAGS)`
unfoldable pub flag_at : Service → ℕ → ℕ
flag_at s sid = get_or 0 (lookup sid s.short_id_to_tx_flag)

-- The three queues as parts of the service, for callbacks that change the service.
abbrev pub assignments : QueueIn Service
assignments = record {
  read = λ s. s.tx_assignment_expire_queue;
  write = λ q s. record s { tx_assignment_expire_queue = q };
  read-write = λ q s i. q;
}

abbrev pub without_short_id : QueueIn Service
without_short_id = record {
  read = λ s. s.tx_hashes_without_short_id;
  write = λ q s. record s { tx_hashes_without_short_id = q };
  read-write = λ q s i. q;
}

abbrev pub without_content : QueueIn Service
without_content = record {
  read = λ s. s.tx_hashes_without_content;
  write = λ q s. record s { tx_hashes_without_content = q };
  read-write = λ q s i. q;
}
