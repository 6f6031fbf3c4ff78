-- ===== src/Alarms/Dict.antt =====
-- `ExpiringDict` of bxcommon/utils/expiring_dict.py. The alarm queue that it shares with others is
-- passed in and out. `cleanup_fn` stands for the bound method `self.cleanup`, and `no_args` for the
-- arguments of its calls.
pub mod Valid
pub mod Cleanup
pub mod Scheduled
use bxcommon.Alarms.Queue.{AlarmQueue, register_approx_alarm}
use bxcommon.Expiration.Defs.{ExpirationQueue, QueueIn, remove_expired}
use bxcommon.Prelude.Dict.{Dict, lookup, insert, erase, contains}
use bxcommon.Prelude.Int.{ℤ, pos}
use bxcommon.Prelude.Result.{Result, ok, err, key_error, ◌>>=◌}
use bxcommon.Prelude.{ℕ, ◌+◌, ◌*◌, ◌≡◌, refl, Option, none, some, List, [], ◌∷◌, if◌then◌else◌}
use bxcommon.Expiration.Defs

abbrev pub no_args : ℕ
no_args = 0

pub record ExpiringDict (V : Type 0) : Type 0 where
  pub contents : Dict V
  pub expiration_queue : ExpirationQueue
  pub expiration_time : ℕ
  pub cleanup_fn : ℕ

module _ {V : Type 0} where
  abbrev pub new_expiring_dict : ℕ → ℕ → ExpiringDict V
  new_expiring_dict expiration_time cleanup_fn = record {
    contents = [];
    expiration_queue = record { time_to_live_sec = expiration_time; queue = [] };
    expiration_time = expiration_time;
    cleanup_fn = cleanup_fn;
  }

  abbrev pub queue_slot : QueueIn (ExpiringDict V)
  queue_slot = record {
    read = λ d. d.expiration_queue;
    write = λ q d. record d { expiration_queue = q };
    read-write = λ q d i. q;
  }

  unfoldable pub add :
      ℕ → ℕ → V → ExpiringDict V → AlarmQueue → Result (ExpiringDict V × AlarmQueue)
  add now key value d alarms =
      let d' = record d {
        contents = insert key value d.contents;
        expiration_queue = Defs.add now key d.expiration_queue;
      } in
      register_approx_alarm now (pos (d.expiration_time * 2)) (pos d.expiration_time) d.cleanup_fn
        no_args alarms
      >>= λ alarms'. ok (d', alarms')

  -- `d[key] = value`
  unfoldable pub set_item :
      ℕ → ℕ → V → ExpiringDict V → AlarmQueue → Result (ExpiringDict V × AlarmQueue)
  set_item now key value d alarms =
      if contains key d.contents
      then ok (record d { contents = insert key value d.contents }, alarms)
      else add now key value d alarms

  unfoldable pub get_item : ℕ → ExpiringDict V → Result V
  get_item key d = elim (lookup key d.contents) [ none ↦ err key_error | some value ↦ ok value ]

  unfoldable pub del_item : ℕ → ExpiringDict V → Result (ExpiringDict V)
  del_item key d =
      if contains key d.contents
      then ok (record d {
        contents = erase key d.contents;
        expiration_queue = Defs.remove key d.expiration_queue;
      })
      else err key_error

  unfoldable pub remove_item : ℕ → ExpiringDict V → Option V × ExpiringDict V
  remove_item key d = (lookup key d.contents, record d { contents = erase key d.contents })

  unfoldable pub cleanup : ℕ → ExpiringDict V → Result (ℕ × ExpiringDict V)
  cleanup now d =
      remove_expired queue_slot (some (λ key s. ok (remove_item key s).1)) now none d >>= λ removed.
      ok (0, removed.1)
