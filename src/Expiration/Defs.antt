-- ===== src/Expiration/Defs.antt =====
-- The class of bxcommon/utils/expiration_queue.py: an OrderedDict from items to the time at which
-- each was added. A time is a number of clock ticks, and `now` is what `time.time()` returns.
use bxcommon.Prelude.Dict.{Dict, insert, erase}
use bxcommon.Prelude.Result.{Result, ok, ◌>>=◌}
use bxcommon.Prelude.{
  ℕ, zero, suc, ◌+◌, ◌≡◌, Option, none, some, List, [], ◌∷◌, ◌++◌, ltb, length, if◌then◌else◌,
}

pub record ExpirationQueue : Type 0 where
  pub time_to_live_sec : ℕ
  pub queue : Dict ℕ

unfoldable pub add : ℕ → ℕ → ExpirationQueue → ExpirationQueue
add now item q = record q { queue = insert item now q.queue }

unfoldable pub remove : ℕ → ExpirationQueue → ExpirationQueue
remove item q = record q { queue = erase item q.queue }

unfoldable pub get_oldest : ExpirationQueue → Option ℕ
get_oldest q = elim q.queue [ [] ↦ none | (item, _) ∷ _ ↦ some item ]

unfoldable pub get_oldest_item_timestamp : ExpirationQueue → Option ℕ
get_oldest_item_timestamp q = elim q.queue [ [] ↦ none | (_, time) ∷ _ ↦ some time ]

unfoldable pub clear : ExpirationQueue → ExpirationQueue
clear q = record q { queue = [] }

-- A callback changes the object that owns the queue, and through it the queue: the methods that
-- take one run on the owner, in which the queue is a part.
pub record QueueIn (S : Type 0) : Type 0 where
  pub read : S → ExpirationQueue
  pub write : ExpirationQueue → S → S
  pub read-write : (q : ExpirationQueue) (s : S) → read (write q s) ≡ q

module _ {S : Type 0} (slot : QueueIn S) (callback : Option (ℕ → S → Result S)) where
  -- `if remove_callback is not None: remove_callback(item)`
  abbrev pub call : ℕ → S → Result S
  call item s = elim callback [ none ↦ ok s | some f ↦ f item s ]

  -- `queue.popitem(last=False)`, where `rest` is what stays
  abbrev pub pop_to : Dict ℕ → S → S
  pop_to rest s = slot.write (record (slot.read s) { queue = rest }) s

  -- The `while` loop, over the iterations that the limit still allows.
  unfoldable pub expire_loop : ℕ → ℕ → List ℕ → S → Result (List ℕ × S)
  expire_loop now zero removed s = ok (removed, s)
  expire_loop now (suc n) removed s = elim (slot.read s).queue [
    | [] ↦ ok (removed, s)
    | (item, time) ∷ rest ↦
        let next = call item (pop_to rest s) >>= expire_loop now n (removed ++ (item ∷ [])) in
        if ltb (time + (slot.read s).time_to_live_sec) now then next else ok (removed, s)
  ]

  unfoldable pub remove_expired : ℕ → Option ℕ → S → Result (List ℕ × S)
  unfolding expire_loop
  remove_expired now limit s =
      expire_loop now (elim limit [ none ↦ length (slot.read s).queue | some n ↦ n ]) [] s

  unfoldable pub remove_oldest : S → Result S
  remove_oldest s = elim (slot.read s).queue [
    | [] ↦ ok s
    | (item, _) ∷ rest ↦ call item (pop_to rest s)
  ]

-- A queue that is its own owner.
abbrev pub alone : QueueIn ExpirationQueue
alone = record { read = λ q. q; write = λ q _. q; read-write = λ q s i. q }
