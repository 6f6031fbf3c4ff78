-- ===== src/Feeds/Feed.antt =====
-- `Feed` of bxcommon/feed/feed.py. `serialize` and `should_publish_message_to_subscriber`, which
-- subclasses write, are parameters; the latter may set `should_exit` of the subscriber.
pub mod Published
use bxcommon.Feeds.Subscriber.{
  Value, Key, Include, Subscriber, queued, fast_queue, same_options, same_include,
}
use bxcommon.Prelude.Dict.{Dict, lookup, insert, erase}
use bxcommon.Prelude.Result.{Error, Result, ok, err, ◌>>=◌}
use bxcommon.Prelude.{
  ℕ, zero, suc, Bool, true, false, Option, none, some, List, [], ◌∷◌, ◌++◌, length, ◌==◌,
  if◌then◌else◌,
}

-- The option "include": all fields, which is the default, or some, or None.
pub data IncludeOption : Type 0 where
  all_fields include_none : IncludeOption
  include_fields : List Key → IncludeOption

pub record Feed : Type 0 where
  pub feed_key : ℕ
  pub all : List Key
  pub subscribers : Dict Subscriber

abbrev pub include_of : IncludeOption → Feed → Include
include_of all_fields feed = some feed.all
include_of include_none feed = none
include_of (include_fields keys) feed = some keys

-- The id is the one that `uuid` gives.
unfoldable pub subscribe : ℕ → IncludeOption → Feed → Subscriber × Feed
subscribe id option feed =
    let s : Subscriber = record {
      subscription_id = id;
      messages = [];
      include = include_of option feed;
      should_exit = false;
    } in
    (s, record feed { subscribers = insert id s feed.subscribers })

unfoldable pub unsubscribe : ℕ → Feed → Option Subscriber × Feed
unsubscribe id feed =
    (lookup id feed.subscribers, record feed { subscribers = erase id feed.subscribers })

unfoldable pub subscriber_count : Feed → ℕ
subscriber_count feed = length feed.subscribers

-- The messages that were queued, with the subscribers for which they were made.
abbrev pub Cache : Type 0
Cache = List (Subscriber × Dict Value)

abbrev pub cached : Subscriber → Cache → Option (Dict Value)
cached s [] = none
cached s ((other, message) ∷ cache) = if same_options s other then some message else cached s cache

-- What came of a subscriber: it stays, or is bad.
abbrev pub stay_or_bad : Subscriber → Option Subscriber → Bool × Subscriber
stay_or_bad s none = (true, s)
stay_or_bad s (some s') = (false, s')

-- `subscriber.queue`, and the new entry of the cache where it did not raise.
unfoldable pub queue_new : Dict Value → Subscriber → Cache → Result ((Bool × Subscriber) × Cache)
queue_new serialized s cache = elim (queued s.include serialized) [
  | err e ↦ err e
  | ok message ↦ elim (fast_queue message s) [
    | none ↦ ok ((true, s), cache)
    | some s' ↦ ok ((false, s'), cache ++ ((s', message) ∷ []))
  ]
]

module _ {Raw : Type 0} (serialize : Raw → Result (Dict Value))
    (should_publish : Subscriber → Raw → Dict Value → Bool × Bool) where
  -- A round of the loop of `publish`.
  unfoldable pub publish_one :
      Raw → Dict Value → Subscriber → Cache → Result ((Bool × Subscriber) × Cache)
  publish_one raw serialized s cache =
      let (wanted, exits) = should_publish s raw serialized in
      let s' = record s { should_exit = exits } in
      if s.should_exit then ok ((true, s), cache) else elim wanted [
        | false ↦ ok ((false, s'), cache)
        | true ↦ elim (cached s' cache) [
          | some message ↦ ok (stay_or_bad s' (fast_queue message s'), cache)
          | none ↦ queue_new serialized s' cache
        ]
      ]

  -- The loop: the subscribers as it leaves them, and the ids of the bad ones.
  unfoldable pub publish_loop :
      Raw → Dict Value → Dict Subscriber → Cache → Result (Dict Subscriber × List ℕ)
  publish_loop raw serialized [] cache = ok ([], [])
  publish_loop raw serialized ((id, s) ∷ rest) cache =
      publish_one raw serialized s cache >>= λ done.
      let ((bad, s'), cache') = done in
      publish_loop raw serialized rest cache' >>= λ others.
      ok ((id, s') ∷ others.0, if bad then s'.subscription_id ∷ others.1 else others.1)

  abbrev pub unsubscribe_all : List ℕ → Feed → Feed
  unsubscribe_all [] feed = feed
  unsubscribe_all (id ∷ ids) feed = unsubscribe_all ids (unsubscribe id feed).1

  -- A message that cannot be serialized is dropped.
  unfoldable pub publish : Raw → Feed → Result Feed
  publish raw feed = if subscriber_count feed == 0 then ok feed else elim (serialize raw) [
    | err _ ↦ ok feed
    | ok serialized ↦ publish_loop raw serialized feed.subscribers [] >>= λ done.
        ok (unsubscribe_all done.1 (record feed { subscribers = done.0 }))
  ]
