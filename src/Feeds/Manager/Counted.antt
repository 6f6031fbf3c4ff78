-- ===== src/Feeds/Manager/Counted.antt =====
-- The counts of open feeds of the manager, under a subscription and its end.
use bxcommon.Feeds.Feed.{Feed, IncludeOption, subscribe, unsubscribe}
use bxcommon.Feeds.Manager.{
  FeedManager, one_more, count_subscription, pop_network, uncount_in, uncount_subscription,
  subscribe_to_feed, unsubscribe_from_feed,
}
use bxcommon.Feeds.Subscriber.{Subscriber}
use bxcommon.Prelude.Dict.{
  Dict, lookup, insert, erase, lookup-insert, erase-insert, insert-insert, insert-lookup,
}
use bxcommon.Prelude.Result.{ok}
use bxcommon.Prelude.{
  ℕ, ◌+◌, ◌-◌, ◌<◌, ◌≡◌, ◌≢◌, refl, ap, ◌∙◌, false, Option, none, some, [], ◌∷◌, ◌==◌, arith,
}

lookup-insert_self : {V : Type 0} (k : ℕ) (v : V) (d : Dict V) → lookup k (insert k v d) ≡ some v
lookup-insert_self k v d = ground (arith, lookup-insert k k v d)

-- Counts are above 0, and an account that is kept has some.
abbrev pub IsCounted : ℕ → Option (Dict ℕ) → Type 0
IsCounted network none = Unit {0}
IsCounted network (some open_feeds) =
    (open_feeds ≢ []) × ((count : ℕ) → lookup network open_feeds ≡ some count → 0 < count)

abbrev pub IsCountedFor : ℕ → Option ℕ → Dict (Dict ℕ) → Type 0
IsCountedFor network none accounts = Unit {0}
IsCountedFor network (some account_id) accounts = IsCounted network (lookup account_id accounts)

pop_network-left :
    (network account_id : ℕ) (open_feeds left : Dict ℕ) (accounts : Dict (Dict ℕ))
    → erase network open_feeds ≡ left
    → left ≢ []
    → pop_network network account_id open_feeds accounts ≡ insert account_id left accounts
pop_network-left network account_id open_feeds [] accounts e h = absurd (h refl)
pop_network-left network account_id open_feeds (entry ∷ left) accounts e h =
    rw (pop_network, e) refl

-- The first feed of the account, on any network, or on this one.
uncount_account :
    (network account_id : ℕ) (accounts : Dict (Dict ℕ))
    → lookup account_id accounts ≡ none
    → uncount_in network account_id
        (some ((network, 1) ∷ []))
        (insert account_id ((network, 1) ∷ []) accounts)
      ≡ accounts
unfolding uncount_in
uncount_account network account_id accounts h =
    ground (arith, erase-insert account_id ((network, 1) ∷ []) accounts h)

uncount_network :
    (network account_id : ℕ) (open_feeds : Dict ℕ) (accounts : Dict (Dict ℕ))
    → open_feeds ≢ []
    → lookup account_id accounts ≡ some open_feeds
    → lookup network open_feeds ≡ none
    → uncount_in network account_id
        (some (insert network 1 open_feeds))
        (insert account_id (insert network 1 open_feeds) accounts)
      ≡ accounts
unfolding uncount_in
uncount_network network account_id open_feeds accounts c h k =
    rw (uncount_in, lookup-insert_self network 1 open_feeds)
      (pop_network-left network account_id (insert network 1 open_feeds) open_feeds
          (insert account_id (insert network 1 open_feeds) accounts)
          (erase-insert network 1 open_feeds k) c
        ∙ (insert-insert account_id (insert network 1 open_feeds) open_feeds accounts
            ∙ insert-lookup account_id open_feeds accounts h))

-- One of several feeds on the network.
uncount_one :
    (network account_id count : ℕ) (open_feeds : Dict ℕ) (accounts : Dict (Dict ℕ))
    → 0 < count
    → lookup account_id accounts ≡ some open_feeds
    → lookup network open_feeds ≡ some count
    → uncount_in network account_id
        (some (insert network (count + 1) open_feeds))
        (insert account_id (insert network (count + 1) open_feeds) accounts)
      ≡ accounts
unfolding uncount_in
uncount_one network account_id count open_feeds accounts c h k =
    let many : (count + 1 == 1) ≡ false = ground (arith, c) in
    let less : count + 1 - 1 ≡ count = omega arith in
    let once_more = insert network (count + 1) open_feeds in
    rw (uncount_in, lookup-insert_self network (count + 1) open_feeds, many, less)
      (insert-insert account_id once_more (insert network count once_more) accounts
        ∙ (ap (λ d. insert account_id d accounts)
              (insert-insert network (count + 1) count open_feeds
                ∙ insert-lookup network count open_feeds k)
            ∙ insert-lookup account_id open_feeds accounts h))

uncount-one_more :
    (network account_id : ℕ) (accounts : Dict (Dict ℕ)) (known : Option (Dict ℕ))
    → lookup account_id accounts ≡ known
    → IsCounted network known
    → uncount_in network account_id
        (some (one_more network known))
        (insert account_id (one_more network known) accounts)
      ≡ accounts
uncount-one_more network account_id accounts none h c =
    uncount_account network account_id accounts h
uncount-one_more network account_id accounts (some open_feeds) h c =
    by_network (lookup network open_feeds) refl
  where
    by_network :
        (known : Option ℕ)
        → lookup network open_feeds ≡ known
        → uncount_in network account_id
            (some (one_more network (some open_feeds)))
            (insert account_id (one_more network (some open_feeds)) accounts)
          ≡ accounts
    by_network none k =
        rw (one_more, k) (uncount_network network account_id open_feeds accounts c.0 h k)
    by_network (some count) k =
        rw (one_more, k)
          (uncount_one network account_id count open_feeds accounts (c.1 count k) h k)

uncount_subscription-count_subscription :
    (network : ℕ) (account_id : Option ℕ) (accounts : Dict (Dict ℕ))
    → IsCountedFor network account_id accounts
    → uncount_subscription network account_id (count_subscription network account_id accounts)
      ≡ accounts
unfolding uncount_subscription count_subscription
uncount_subscription-count_subscription network none accounts c = refl
uncount_subscription-count_subscription network (some a) accounts c =
    rw (lookup-insert_self a (one_more network (lookup a accounts)) accounts)
      (uncount-one_more network a accounts (lookup a accounts) refl c)

-- A subscription to a feed, under an id that the feed does not have yet, and its end by the same
-- account leave the manager as it was, its counts of the account's open feeds included.
pub unsubscribe_from_feed-subscribe_to_feed :
    (network_num : ℕ → ℕ) (feed_key id : ℕ) (option : IncludeOption) (account_id : Option ℕ)
    (m : FeedManager) (feed : Feed)
    → lookup feed_key m.feeds ≡ some feed
    → lookup id feed.subscribers ≡ none
    → IsCountedFor (network_num feed_key) account_id m.accounts
    → (s : Subscriber) × (m' : FeedManager) × (subscribe_to_feed network_num feed_key id option
          account_id m
        ≡ (some s, m'))
      × (unsubscribe_from_feed network_num feed_key id account_id m' ≡ ok (some s, m))
unfolding subscribe_to_feed unsubscribe_from_feed subscribe unsubscribe
unsubscribe_from_feed-subscribe_to_feed network_num feed_key id option account_id m feed h new c =
    let (s, feed') = subscribe id option feed in
    (
      s,
      record {
        feeds = insert feed_key feed' m.feeds;
        accounts = count_subscription (network_num feed_key) account_id m.accounts;
      },
      rw (subscribe_to_feed, h) refl,
      rw
          (
            unsubscribe_from_feed,
            lookup-insert_self feed_key feed' m.feeds,
            lookup-insert_self id s feed.subscribers,
            insert-insert feed_key feed' (unsubscribe id feed').1 m.feeds,
            erase-insert id s feed.subscribers new,
            insert-lookup feed_key feed m.feeds h,
            uncount_subscription-count_subscription (network_num feed_key) account_id m.accounts c,
          )
          refl,
    )
