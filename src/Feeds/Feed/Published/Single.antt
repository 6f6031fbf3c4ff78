-- ===== src/Feeds/Feed/Published/Single.antt =====
-- What a round of `publish` gives a subscriber: the messages kept for others change nothing.
use mathlib.Core.Path.{subst}
use bxcommon.Feeds.Feed.Published.Same.{same_include-eq}
use bxcommon.Feeds.Feed.{Cache, cached, stay_or_bad, queue_new, publish_one}
use bxcommon.Feeds.Subscriber.{Value, Subscriber, queued, fast_queue, same_options, same_include}
use bxcommon.Prelude.Dict.{Dict}
use bxcommon.Prelude.Result.{Result, ok, err, ◌>>=◌}
use bxcommon.Prelude.{
  ◌≡◌, refl, sym, ap, ◌∙◌, Bool, true, false, Option, none, some, [], ◌∷◌, ◌++◌, if◌then◌else◌,
  arith, Bool-cases, inl, inr,
}

-- Every message of the cache is what the subscriber's own call of `queue` would make.
abbrev pub IsCache : Dict Value → Cache → Type 0
IsCache serialized [] = Unit {0}
IsCache serialized ((s, message) ∷ cache) =
    (queued s.include serialized ≡ ok message) × IsCache serialized cache

cached-queued :
    (serialized : Dict Value) (s : Subscriber) (cache : Cache) (message : Dict Value)
    → IsCache serialized cache
    → cached s cache ≡ some message
    → queued s.include serialized ≡ ok message
unfolding same_options
cached-queued serialized s [] message c h = cc
cached-queued serialized s ((other, kept) ∷ cache) message c h =
    elim (Bool-cases (same_include s.include other.include)) [
      | inl same ↦
          ap (λ i. queued i serialized) (same_include-eq s.include other.include same)
          ∙ (c.0 ∙ ap ok (ground (arith, same, h)))
      | inr others ↦ cached-queued serialized s cache message c.1 (ground (arith, others, h))
    ]

IsCache-append :
    (serialized : Dict Value) (cache : Cache) (s : Subscriber) (message : Dict Value)
    → IsCache serialized cache
    → queued s.include serialized ≡ ok message
    → IsCache serialized (cache ++ ((s, message) ∷ []))
IsCache-append serialized [] s message c h = (h, tt)
IsCache-append serialized (entry ∷ cache) s message c h =
    (c.0, IsCache-append serialized cache s message c.1 h)

fast_queue-include :
    (message : Dict Value) (s s' : Subscriber)
    → fast_queue message s ≡ some s'
    → s'.include ≡ s.include
unfolding fast_queue
fast_queue-include message s s' h = ground (arith, h)

module _ {Raw : Type 0} (serialize : Raw → Result (Dict Value))
    (should_publish : Subscriber → Raw → Dict Value → Bool × Bool) where
  -- What a message does to one subscriber, by itself: whether it has to go, and how it is then.
  unfoldable pub deliver : Raw → Dict Value → Subscriber → Result (Bool × Subscriber)
  deliver raw serialized s =
      let (wanted, exits) = should_publish s raw serialized in
      let s' = record s { should_exit = exits } in
      if s.should_exit then ok (true, s) else elim wanted [
        | false ↦ ok (false, s')
        | true ↦ elim (queued s'.include serialized) [
          | err e ↦ err e
          | ok message ↦ ok (stay_or_bad s' (fast_queue message s'))
        ]
      ]

  -- The subscribers that stay, each with what it was given.
  unfoldable pub deliver_all : Raw → Dict Value → Dict Subscriber → Result (Dict Subscriber)
  deliver_all raw serialized [] = ok []
  deliver_all raw serialized ((id, s) ∷ rest) = deliver raw serialized s >>= λ done.
      deliver_all raw serialized rest >>= λ others.
      ok (if done.0 then others else (id, done.1) ∷ others)

  -- A round of the loop does to the subscriber what `deliver` does, and keeps the cache right.
  unfoldable pub Delivered :
      Raw → Dict Value → Subscriber → Cache → Result (Bool × Subscriber) → Type 0
  Delivered raw serialized s cache (err e) =
      publish_one serialize should_publish raw serialized s cache ≡ err e
  Delivered raw serialized s cache (ok done) =
      (cache' : Cache) × IsCache serialized cache'
      × (publish_one serialize should_publish raw serialized s cache ≡ ok (done, cache'))

  abbrev Both :
      Raw
      → Dict Value
      → Subscriber
      → Cache
      → Result (Bool × Subscriber)
      → Result ((Bool × Subscriber) × Cache)
      → Type 0
  Both raw serialized s cache done round =
      (deliver raw serialized s ≡ done)
      × (publish_one serialize should_publish raw serialized s cache ≡ round)

  pub publish_one-Delivered :
      (raw : Raw) (serialized : Dict Value) (s : Subscriber) (cache : Cache)
      → IsCache serialized cache
      → Delivered raw serialized s cache (deliver raw serialized s)
  unfolding publish_one deliver Delivered queue_new
  publish_one-Delivered raw serialized s cache c = by_exit s.should_exit refl
    where
      s' : Subscriber
      s' = record s { should_exit = (should_publish s raw serialized).1 }

      settle :
          (done : Bool × Subscriber) (cache' : Cache)
          → IsCache serialized cache'
          → Both raw serialized s cache (ok done) (ok (done, cache'))
          → Delivered raw serialized s cache (deliver raw serialized s)
      settle done cache' c' m = subst (Delivered raw serialized s cache) (sym m.0) (cache', c', m.1)

      by_queue :
          s.should_exit ≡ false
          → (should_publish s raw serialized).0 ≡ true
          → cached s' cache ≡ none
          → (message : Dict Value) → queued s.include serialized ≡ ok message
          → (queue : Option Subscriber) → fast_queue message s' ≡ queue
          → Delivered raw serialized s cache (deliver raw serialized s)
      by_queue e w n message q none f =
          settle (true, s') cache c
            (simp (e, w, q, f), (simp (e, w, n) (rw (queue_new, q, f) refl)))
      by_queue e w n message q (some s'') f =
          settle (false, s'') (cache ++ ((s'', message) ∷ []))
            (IsCache-append serialized cache s'' message c
              (ap (λ i. queued i serialized) (fast_queue-include message s' s'' f) ∙ q))
            (simp (e, w, q, f), (simp (e, w, n) (rw (queue_new, q, f) refl)))

      by_message :
          s.should_exit ≡ false
          → (should_publish s raw serialized).0 ≡ true
          → (message : Result (Dict Value)) → queued s.include serialized ≡ message
          → (known : Option (Dict Value)) → cached s' cache ≡ known
          → Delivered raw serialized s cache (deliver raw serialized s)
      by_message e w (ok message) q none n = by_queue e w n message q _ refl
      by_message e w (err raised) q none n =
          let silent : deliver raw serialized s ≡ err raised = simp (e, w, q) in
          subst (Delivered raw serialized s cache) (sym silent)
            (simp (e, w, n) (rw (queue_new, q) refl))
      by_message e w (err raised) q (some kept) n =
          absurd (ground (arith, q, cached-queued serialized s' cache kept c n))
      by_message e w (ok message) q (some kept) n =
          let same : message ≡ kept =
            ground (arith, q, cached-queued serialized s' cache kept c n) in
          settle (stay_or_bad s' (fast_queue kept s')) cache c
            (simp (e, w, q, same), simp (e, w, n))

      by_wanted :
          s.should_exit ≡ false
          → (wanted : Bool) → (should_publish s raw serialized).0 ≡ wanted
          → Delivered raw serialized s cache (deliver raw serialized s)
      by_wanted e false w = settle (false, s') cache c (simp (e, w), simp (e, w))
      by_wanted e true w = by_message e w _ refl _ refl

      by_exit :
          (b : Bool)
          → s.should_exit ≡ b
          → Delivered raw serialized s cache (deliver raw serialized s)
      by_exit true e = settle (true, s) cache c (rw e refl, rw e refl)
      by_exit false e = by_wanted e _ refl
