-- ===== src/Alarms/Dict/Cleanup.antt =====
-- `cleanup` of bxcommon/utils/expiring_dict.py: which entries it removes.
use mathlib.Core.Path.{subst}
use bxcommon.Alarms.Dict.Valid.{IsValid, AllUntil, IsChronological-lower, contains-erase}
use bxcommon.Alarms.Dict.{ExpiringDict, cleanup, queue_slot, remove_item}
use bxcommon.Expiration.Defs.{expire_loop, remove_expired}
use bxcommon.Expiration.Order.{IsChronological, AllLive, AllLive-IsChronological}
use bxcommon.Prelude.Dict.{Dict, lookup, erase, contains, IsDistinct, lookup-erase}
use bxcommon.Prelude.Result.{ok}
use bxcommon.Prelude.{
  ℕ, ◌+◌, ◌<◌, ◌≡◌, refl, sym, ap, ◌∙◌, Bool, true, false, none, some, List, [], ◌∷◌, ◌++◌, ◌==◌,
  ltb, length, if◌then◌else◌, arith, Bool-cases, inl, inr,
}

-- Whether the queue has the key with a time that is older than the time to live.
unfoldable pub expired : ℕ → ℕ → ℕ → Dict ℕ → Bool
expired now ttl key queue = elim (lookup key queue) [ none ↦ false | some t ↦ ltb (t + ttl) now ]

live_expired :
    (now ttl key : ℕ) (queue : Dict ℕ) → AllLive now ttl queue → expired now ttl key queue ≡ false
unfolding expired
live_expired now ttl key [] l = refl
live_expired now ttl key ((k, t) ∷ rest) l = ground (arith, l.0, live_expired now ttl key rest l.1)

expired_head :
    (now ttl key k t : ℕ) (rest : Dict ℕ)
    → t + ttl < now
    → expired now ttl key ((k, t) ∷ rest) ≡ (if key == k then true else expired now ttl key rest)
unfolding expired
expired_head now ttl key k t rest h = ground (arith, h)

contains_rest :
    (key k t : ℕ) (rest : Dict ℕ)
    → lookup k rest ≡ none
    → (if key == k then false else contains key ((k, t) ∷ rest)) ≡ contains key rest
contains_rest key k t rest h = elim (Bool-cases (key == k)) [
  | inl same ↦ ground (arith, same, h)
  | inr other ↦ ground (arith, other)
]

module _ {V : Type 0} where
  -- What `cleanup` should do: the expired entries are gone, and every other one is as it was.
  pub record Cleaned (now : ℕ) (d d' : ExpiringDict V) : Type 0 where
    pub valid : IsValid now d'
    pub left :
        (k : ℕ)
        → lookup k d'.contents ≡ (
            if expired now d.expiration_queue.time_to_live_sec k d.expiration_queue.queue
            then none
            else lookup k d.contents)

  popped : ℕ → Dict ℕ → ExpiringDict V → ExpiringDict V
  popped item rest d = record d {
    contents = erase item d.contents;
    expiration_queue = record d.expiration_queue { queue = rest };
  }

  popped-IsValid :
      (now item t : ℕ) (rest : Dict ℕ) (d : ExpiringDict V)
      → d.expiration_queue.queue ≡ (item, t) ∷ rest
      → IsValid now d
      → IsValid now (popped item rest d)
  unfolding popped
  popped-IsValid now item t rest d e v =
      let distinct = subst IsDistinct e v.distinct in
      let chronological = subst (IsChronological 0) e v.chronological in
      record {
        same_keys = λ k.
            contains-erase item k d.contents
            ∙ (ap (λ b. if k == item then false else b) (v.same_keys k ∙ ap (contains k) e)
                ∙ contains_rest k item t rest distinct.0);
        distinct = distinct.1;
        chronological = IsChronological-lower 0 t rest chronological.0 chronological.1;
        until = (subst (AllUntil now) e v.until).1;
        same_time = v.same_time;
      }

  popped-Cleaned :
      (now item t : ℕ) (rest : Dict ℕ) (d d' : ExpiringDict V)
      → d.expiration_queue.queue ≡ (item, t) ∷ rest
      → t + d.expiration_queue.time_to_live_sec < now
      → Cleaned now (popped item rest d) d'
      → Cleaned now d d'
  unfolding popped
  popped-Cleaned now item t rest d d' e h c = record {
    valid = c.valid;
    left = λ k.
        let ttl = d.expiration_queue.time_to_live_sec in
        c.left k
        ∙ (gone_or_same k (expired now ttl k rest)
            ∙ ap (λ b. if b then none else lookup k d.contents)
                (sym (ap (expired now ttl k) e ∙ expired_head now ttl k item t rest h)));
  }
    where
      gone_or_same :
          (k : ℕ) (b : Bool)
          → (if b then none else lookup k (erase item d.contents))
            ≡ (if if k == item then true else b then none else lookup k d.contents)
      gone_or_same k b = ground (arith, lookup-erase item k d.contents)

  live-Cleaned :
      (now : ℕ) (d : ExpiringDict V)
      → AllLive now d.expiration_queue.time_to_live_sec d.expiration_queue.queue
      → IsValid now d
      → Cleaned now d d
  live-Cleaned now d l v = record {
    valid = v;
    left = λ k.
        ap (λ b. if b then none else lookup k d.contents)
          (sym (live_expired now d.expiration_queue.time_to_live_sec k d.expiration_queue.queue l));
  }

  cleanup_loop :
      (now : ℕ) (removed : List ℕ) (queue : Dict ℕ) (d : ExpiringDict V)
      → d.expiration_queue.queue ≡ queue
      → IsValid now d
      → (r : List ℕ) × (d' : ExpiringDict V) × (expire_loop queue_slot
            (some (λ key s. ok (remove_item key s).1))
            now
            (length queue)
            removed
            d
          ≡ ok (r, d'))
        × Cleaned now d d'
  unfolding expire_loop remove_item popped
  cleanup_loop now removed [] d e v =
      (removed, d, refl, live-Cleaned now d (subst (AllLive now _) (sym e) tt) v)
  cleanup_loop now removed ((item, t) ∷ rest) d e v =
      elim (Bool-cases (ltb (t + d.expiration_queue.time_to_live_sec) now)) [
        | inl old ↦
            let (r, d', run, c) =
              cleanup_loop now (removed ++ (item ∷ [])) rest (popped item rest d) refl
                (popped-IsValid now item t rest d e v) in
            (r, d', rw (e, old) run, popped-Cleaned now item t rest d d' e (ground arith) c)
        | inr young ↦
            let c = subst (IsChronological 0) e v.chronological in
            let live : AllLive now d.expiration_queue.time_to_live_sec ((item, t) ∷ rest) =
              (ground arith, AllLive-IsChronological now _ t rest c.1 (ground arith)) in
            (removed, d, simp (e, young), live-Cleaned now d (subst (AllLive now _) (sym e) live) v)
      ]

  -- `cleanup` ends without an exception and returns 0, by which its alarm is not scheduled again. It
  -- removes the entries that are older than the expiration time, and keeps every other one with its
  -- value; the dictionary is valid before and after.
  pub cleanup-Cleaned :
      (now : ℕ) (d : ExpiringDict V)
      → IsValid now d
      → (d' : ExpiringDict V) × (cleanup now d ≡ ok (0, d')) × Cleaned now d d'
  unfolding cleanup remove_expired
  cleanup-Cleaned now d v =
      let (r, d', run, c) = cleanup_loop now [] d.expiration_queue.queue d refl v in
      (d', rw run refl, c)
