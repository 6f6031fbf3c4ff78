-- ===== src/Expiration/Tests.antt =====
-- The theorems of the queue at concrete queues.
use bxcommon.Expiration.Defs.{ExpirationQueue, remove_expired, alone}
use bxcommon.Expiration.Order.{items, AllExpired, AllLive, remove_expired_exact}
use bxcommon.Prelude.Dict.{Dict}
use bxcommon.Prelude.Result.{ok}
use bxcommon.Prelude.{ℕ, ◌≡◌, none, [], ◌∷◌, ◌++◌, arith}

-- Items 1 and 2 have expired at time 30, and 3 has not.
abbrev three : ExpirationQueue
three = record { time_to_live_sec = 10; queue = (1, 5) ∷ (2, 8) ∷ (3, 25) ∷ [] }

remove_expired_exact_example :
    (gone : Dict ℕ) × (q' : ExpirationQueue) × (remove_expired alone none 30 none three
      ≡ ok (items gone, q'))
    × (three.queue ≡ gone ++ q'.queue)
    × AllExpired 30 10 gone
    × AllLive 30 10 q'.queue
remove_expired_exact_example = remove_expired_exact 30 0 three (omega arith)
