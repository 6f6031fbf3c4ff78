-- ===== src/Expiration/Order.antt =====
-- The items that `remove_expired` of bxcommon/utils/expiration_queue.py takes, without a callback.
use bxcommon.Prelude.Dict.{Dict}
use bxcommon.Prelude.Result.{ok}
use mathlib.Core.Path.{subst}
use bxcommon.Prelude.{
  ◌⊎◌, ap, ◌∙◌, ℕ, zero, suc, ◌+◌, ◌≤◌, ◌<◌, ◌≡◌, refl, Option, none, some, List, [], ◌∷◌, ◌++◌,
  ltb, length, arith, Bool-cases, inl, inr, append_assoc, append-nil,
}
use bxcommon.Expiration.Defs.{ExpirationQueue, add, remove_expired, expire_loop, alone}

-- Items in the order in which the queue holds them.
abbrev pub items : Dict ℕ → List ℕ
items [] = []
items ((k, _) ∷ d) = k ∷ items d

-- Times never fall from one entry to the next.
abbrev pub IsChronological : ℕ → Dict ℕ → Type 0
IsChronological low [] = Unit
IsChronological low ((_, t) ∷ d) = (low ≤ t) × IsChronological t d

-- Every entry is younger than the time to live.
abbrev pub AllLive : ℕ → ℕ → Dict ℕ → Type 0
AllLive now ttl [] = Unit
AllLive now ttl ((_, t) ∷ d) = (now ≤ t + ttl) × AllLive now ttl d

-- Every entry is older than the time to live.
abbrev pub AllExpired : ℕ → ℕ → Dict ℕ → Type 0
AllExpired now ttl [] = Unit
AllExpired now ttl ((_, t) ∷ d) = (t + ttl < now) × AllExpired now ttl d

pub AllLive-IsChronological :
    (now ttl low : ℕ) (d : Dict ℕ) → IsChronological low d → now ≤ low + ttl → AllLive now ttl d
AllLive-IsChronological now ttl low [] c h = tt
AllLive-IsChronological now ttl low ((k, t) ∷ d) c h =
    (omega arith, AllLive-IsChronological now ttl t d c.1 (omega arith))

abbrev pub HeadLive : ℕ → ℕ → Dict ℕ → Type 0
HeadLive now ttl [] = Unit
HeadLive now ttl ((_, t) ∷ d) = now ≤ t + ttl

-- What a run on the queue `q` did: it popped the entries `gone` and left `q'`.
pub record Ran (now limit : ℕ) (q : ExpirationQueue) (gone : Dict ℕ) (q' : ExpirationQueue)
    : Type 0 where
  pub entries : q.queue ≡ gone ++ q'.queue
  pub expired : AllExpired now q.time_to_live_sec gone
  pub stops : (length gone ≡ limit) ⊎ HeadLive now q.time_to_live_sec q'.queue
  pub bounded : length gone ≤ limit
  pub same_ttl : q'.time_to_live_sec ≡ q.time_to_live_sec

Ran-step :
    (now n k t : ℕ) (rest : Dict ℕ) (q : ExpirationQueue) (gone : Dict ℕ) (q' : ExpirationQueue)
    → q.queue ≡ (k, t) ∷ rest
    → t + q.time_to_live_sec < now
    → Ran now n (record q { queue = rest }) gone q'
    → Ran now (suc n) q ((k, t) ∷ gone) q'
Ran-step now n k t rest q gone q' e h r = record {
  entries = ground (arith, r.entries);
  expired = (h, r.expired);
  stops = elim r.stops [ inl a ↦ inl (ap suc a) | inr b ↦ inr b ];
  bounded = omega (arith, r.bounded);
  same_ttl = r.same_ttl;
}

expire_loop_lem :
    (now n : ℕ) (removed : List ℕ) (ttl : ℕ) (d : Dict ℕ)
    → let q : ExpirationQueue = record { time_to_live_sec = ttl; queue = d } in
      (gone : Dict ℕ) × (q' : ExpirationQueue) × (expire_loop alone none now n removed q
        ≡ ok (removed ++ items gone, q'))
      × Ran now n q gone q'
unfolding expire_loop
expire_loop_lem now zero removed ttl d = (
  [],
  record { time_to_live_sec = ttl; queue = d },
  rw append-nil,
  record { entries = refl; expired = tt; stops = inl refl; bounded = omega arith; same_ttl = refl },
)
expire_loop_lem now (suc n) removed ttl [] = (
  [],
  record { time_to_live_sec = ttl; queue = [] },
  rw append-nil,
  record { entries = refl; expired = tt; stops = inr tt; bounded = omega arith; same_ttl = refl },
)
expire_loop_lem now (suc n) removed ttl ((k, t) ∷ d) = elim (Bool-cases (ltb (t + ttl) now)) [
  | inl old ↦
      let (gone, q', run, ran) = expire_loop_lem now n (removed ++ (k ∷ [])) ttl d in
      (
        (k, t) ∷ gone,
        q',
        rw (old, run, append_assoc),
        Ran-step now n k t d (record { time_to_live_sec = ttl; queue = (k, t) ∷ d }) gone q' refl
            (ground arith) ran,
      )
  | inr young ↦ (
    [],
    record { time_to_live_sec = ttl; queue = (k, t) ∷ d },
    rw (young, append-nil),
    record {
      entries = refl;
      expired = tt;
      stops = inr (ground arith);
      bounded = omega arith;
      same_ttl = refl;
    },
  )
]

-- With a limit, `remove_expired` never raises: it pops entries from the front, returns their items
-- in queue order, and every one of them has outlived the time to live. It stops at the limit, or
-- where the entry in front has not expired.
pub remove_expired_prefix :
    (now limit : ℕ) (q : ExpirationQueue)
    → (gone : Dict ℕ) × (q' : ExpirationQueue) × (remove_expired alone none now (some limit) q
        ≡ ok (items gone, q'))
      × Ran now limit q gone q'
unfolding remove_expired
remove_expired_prefix now limit q = expire_loop_lem now limit [] q.time_to_live_sec q.queue

HeadLive-AllLive :
    (now ttl low : ℕ) (d : Dict ℕ) → IsChronological low d → HeadLive now ttl d → AllLive now ttl d
HeadLive-AllLive now ttl low [] c h = tt
HeadLive-AllLive now ttl low ((k, t) ∷ d) c h = (h, AllLive-IsChronological now ttl t d c.1 h)

IsChronological-append :
    (low : ℕ) (a b : Dict ℕ) → IsChronological low (a ++ b) → (mid : ℕ) × IsChronological mid b
IsChronological-append low [] b c = (low, c)
IsChronological-append low ((k, t) ∷ a) b c = IsChronological-append t a b c.1

append-full : (a b : Dict ℕ) → length a ≡ length (a ++ b) → b ≡ []
append-full [] [] h = refl
append-full [] (x ∷ b) h = absurd (omega arith)
append-full (x ∷ a) b h = append-full a b (omega arith)

-- On a queue whose times never fall, `remove_expired` with no limit splits the queue exactly: what
-- it returns has outlived the time to live, and what it keeps has not.
pub remove_expired_exact :
    (now low : ℕ) (q : ExpirationQueue)
    → IsChronological low q.queue
    → (gone : Dict ℕ) × (q' : ExpirationQueue) × (remove_expired alone none now none q
        ≡ ok (items gone, q'))
      × (q.queue ≡ gone ++ q'.queue)
      × AllExpired now q.time_to_live_sec gone
      × AllLive now q.time_to_live_sec q'.queue
unfolding remove_expired
remove_expired_exact now low q c =
    let (gone, q', run, ran) = expire_loop_lem now (length q.queue) [] q.time_to_live_sec q.queue in
    let (mid, c') =
      IsChronological-append low gone q'.queue (subst (IsChronological low) ran.entries c) in
    (
      gone,
      q',
      run,
      ran.entries,
      ran.expired,
      elim ran.stops [
        | inl full ↦ rw (append-full gone q'.queue (full ∙ ap length ran.entries)) tt
        | inr live ↦ HeadLive-AllLive now q.time_to_live_sec mid q'.queue c' live
      ],
    )

-- Adding an item that is in front of the queue again renews its time and not its place: until that
-- item expires anew, `remove_expired` takes nothing, however old the entries behind it are.
pub add_blocks :
    (now later k t : ℕ) (limit : Option ℕ) (rest : Dict ℕ) (ttl : ℕ)
    → later ≤ now + ttl
    → let q = add now k (record { time_to_live_sec = ttl; queue = (k, t) ∷ rest }) in
      (q.queue ≡ (k, now) ∷ rest) × (remove_expired alone none later limit q ≡ ok ([], q))
unfolding add remove_expired expire_loop
add_blocks now later k t none rest ttl h = ground arith
add_blocks now later k t (some zero) rest ttl h = ground arith
add_blocks now later k t (some (suc n)) rest ttl h = ground arith
