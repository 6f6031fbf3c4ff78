-- ===== src/Feeds/Manager.antt =====
-- `FeedManager` of bxcommon/feed/feed_manager.py. A number stands for a feed key, and `network_num`
-- gives the number of its network. (The node's connection to the transaction streamer, which the
-- manager has reevaluated after each change, is left out.)
pub mod Counted
use bxcommon.Feeds.Feed.{Feed, IncludeOption, subscribe, unsubscribe, subscriber_count, publish}
use bxcommon.Feeds.Subscriber.{Value, Subscriber}
use bxcommon.Prelude.Dict.{Dict, lookup, insert, erase, contains}
use bxcommon.Prelude.Result.{Result, ok, err, key_error, value_error, ◌>>=◌}
use bxcommon.Prelude.{
  ℕ, zero, suc, ◌+◌, ◌-◌, Bool, true, false, ◌||◌, not, Option, none, some, List, [], ◌∷◌, ◌==◌,
  length, if◌then◌else◌,
}

pub record FeedManager : Type 0 where
  pub feeds : Dict Feed
  pub accounts : Dict (Dict ℕ)

abbrev pub new_feed_manager : FeedManager
new_feed_manager = record { feeds = []; accounts = [] }

unfoldable pub register_feed : Feed → FeedManager → Result FeedManager
register_feed feed m =
    if contains feed.feed_key m.feeds
    then err value_error
    else ok (record m { feeds = insert feed.feed_key feed m.feeds })

-- The open feeds of an account on the networks, with one more.
abbrev pub one_more : ℕ → Option (Dict ℕ) → Dict ℕ
one_more network none = (network, 1) ∷ []
one_more network (some open_feeds) = elim (lookup network open_feeds) [
  | none ↦ insert network 1 open_feeds
  | some count ↦ insert network (count + 1) open_feeds
]

unfoldable pub count_subscription : ℕ → Option ℕ → Dict (Dict ℕ) → Dict (Dict ℕ)
count_subscription network none accounts = accounts
count_subscription network (some account_id) accounts =
    insert account_id (one_more network (lookup account_id accounts)) accounts

-- `open_feeds.pop(network)`, and the account with its last one.
abbrev pub pop_network : ℕ → ℕ → Dict ℕ → Dict (Dict ℕ) → Dict (Dict ℕ)
pop_network network account_id open_feeds accounts = elim (erase network open_feeds) [
  | [] ↦ erase account_id accounts
  | left ∷ others ↦ insert account_id (left ∷ others) accounts
]

unfoldable pub uncount_in : ℕ → ℕ → Option (Dict ℕ) → Dict (Dict ℕ) → Dict (Dict ℕ)
uncount_in network account_id none accounts = accounts
uncount_in network account_id (some open_feeds) accounts = elim (lookup network open_feeds) [
  | none ↦ accounts
  | some count ↦
      if count == 1
      then pop_network network account_id open_feeds accounts
      else insert account_id (insert network (count - 1) open_feeds) accounts
]

unfoldable pub uncount_subscription : ℕ → Option ℕ → Dict (Dict ℕ) → Dict (Dict ℕ)
uncount_subscription network none accounts = accounts
uncount_subscription network (some account_id) accounts =
    uncount_in network account_id (lookup account_id accounts) accounts

unfoldable pub open_feeds_count : ℕ → FeedManager → Dict ℕ
open_feeds_count account_id m = elim (lookup account_id m.accounts) [
  | none ↦ []
  | some open_feeds ↦ open_feeds
]

unfoldable pub any_subscribers : Dict Feed → Bool
any_subscribers [] = false
any_subscribers ((_, feed) ∷ rest) = not (subscriber_count feed == 0) || any_subscribers rest

module _ (network_num : ℕ → ℕ) where
  unfoldable pub subscribe_to_feed :
      ℕ → ℕ → IncludeOption → Option ℕ → FeedManager → Option Subscriber × FeedManager
  subscribe_to_feed feed_key id option account_id m = elim (lookup feed_key m.feeds) [
    | none ↦ (none, m)
    | some feed ↦
        let (s, feed') = subscribe id option feed in
        (
          some s,
          record {
            feeds = insert feed_key feed' m.feeds;
            accounts = count_subscription (network_num feed_key) account_id m.accounts;
          },
        )
  ]

  unfoldable pub unsubscribe_from_feed :
      ℕ → ℕ → Option ℕ → FeedManager → Result (Option Subscriber × FeedManager)
  unsubscribe_from_feed feed_key id account_id m = elim (lookup feed_key m.feeds) [
    | none ↦ err key_error
    | some feed ↦
        let (s, feed') = unsubscribe id feed in
        let feeds = insert feed_key feed' m.feeds in
        ok (
          s,
          record {
            feeds = feeds;
            accounts = elim s [
              | none ↦ m.accounts
              | some _ ↦ uncount_subscription (network_num feed_key) account_id m.accounts
            ];
          },
        )
  ]

  unfoldable pub get_feed_keys : ℕ → Dict Feed → List ℕ
  get_feed_keys network [] = []
  get_feed_keys network ((key, _) ∷ rest) =
      let others = get_feed_keys network rest in
      if network_num key == network then key ∷ others else others

module _ {Raw : Type 0} (serialize : Raw → Result (Dict Value))
    (should_publish : Subscriber → Raw → Dict Value → Bool × Bool) where
  unfoldable pub publish_to_feed : ℕ → Raw → FeedManager → Result FeedManager
  publish_to_feed feed_key message m = elim (lookup feed_key m.feeds) [
    | none ↦ ok m
    | some feed ↦ publish serialize should_publish message feed >>= λ feed'.
        ok (record m { feeds = insert feed_key feed' m.feeds })
  ]
