-- ===== src/Feeds/Tests.antt =====
-- The theorems on feeds at concrete subscribers.
use bxcommon.Feeds.Feed.Published.Single.{deliver_all}
use bxcommon.Feeds.Feed.Published.{publish-deliver_all}
use bxcommon.Feeds.Feed.{Feed, all_fields, publish}
use bxcommon.Feeds.Manager.Counted.{unsubscribe_from_feed-subscribe_to_feed}
use bxcommon.Feeds.Manager.{FeedManager, subscribe_to_feed, unsubscribe_from_feed}
use bxcommon.Feeds.Subscriber.{Value, plain, nested, Key, Subscriber}
use bxcommon.Prelude.Dict.{Dict}
use bxcommon.Prelude.Result.{Result, ok, ◌>>=◌}
use bxcommon.Prelude.{ℕ, ◌≡◌, refl, Bool, true, false, none, some, List, [], ◌∷◌, arith}

-- A field, and a field in a field.
abbrev two_keys : List Key
two_keys = record { field = 1; inner = none } ∷ record { field = 2; inner = some 7 } ∷ []

abbrev subscriber : ℕ → List Key → Bool → Subscriber
subscriber id keys should_exit = record {
  subscription_id = id;
  messages = [];
  include = some keys;
  should_exit = should_exit;
}

-- The first two include the same fields, and the third has to exit.
abbrev three_subscribers : Feed
three_subscribers = record {
  feed_key = 9;
  all = two_keys;
  subscribers =
      (4, subscriber 4 two_keys false)
      ∷ (5, subscriber 5 two_keys false)
      ∷ (6, subscriber 6 [] true)
      ∷ [];
}

abbrev to_fields : ℕ → Result (Dict Value)
to_fields raw = ok ((1, plain raw) ∷ (2, nested ((7, 70) ∷ (8, 80) ∷ [])) ∷ (3, plain 0) ∷ [])

abbrev to_all : Subscriber → ℕ → Dict Value → Bool × Bool
to_all s raw serialized = (true, s.should_exit)

publish-deliver_all_example : publish to_fields to_all 11 three_subscribers ≡ (
    deliver_all to_fields to_all 11
      ((1, plain 11) ∷ (2, nested ((7, 70) ∷ (8, 80) ∷ [])) ∷ (3, plain 0) ∷ [])
      three_subscribers.subscribers
    >>= λ left. ok (record three_subscribers { subscribers = left }))
publish-deliver_all_example =
    publish-deliver_all to_fields to_all 11 three_subscribers
      (refl, refl, (refl, refl, (refl, refl, tt)))

-- Account 8 has one open feed on network 2 and three on network 5.
abbrev manager : FeedManager
manager = record { feeds = (9, three_subscribers) ∷ []; accounts = (8, (2, 1) ∷ (5, 3) ∷ []) ∷ [] }

unsubscribe_from_feed-subscribe_to_feed_example :
    (s : Subscriber) × (m' : FeedManager) × (subscribe_to_feed
        (λ key. 5)
        9
        7
        all_fields
        (some 8)
        manager
      ≡ (some s, m'))
    × (unsubscribe_from_feed (λ key. 5) 9 7 (some 8) m' ≡ ok (some s, manager))
unsubscribe_from_feed-subscribe_to_feed_example =
    unsubscribe_from_feed-subscribe_to_feed (λ key. 5) 9 7 all_fields (some 8) manager
      three_subscribers refl refl (cc, λ count h. ground (arith, h))
