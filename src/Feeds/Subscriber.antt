-- ===== src/Feeds/Subscriber.antt =====
-- `Subscriber` and `filter_message` of bxcommon/feed/subscriber.py. A message is a dict whose values are
-- opaque, sequences, or dicts again; of a sequence, a text or a list, it matters which keys it contains.
-- An object that is no dict has one, which is taken instead. A key that is
-- split at its first dot is a field, and a field in it. The queue of asyncio is bounded, and raises
-- QueueFull at its bound.
use bxcommon.Prelude.Dict.{Dict, lookup, insert, contains}
use bxcommon.Prelude.Result.{Result, ok, err, type_error, attribute_error, ◌>>=◌}
use bxcommon.Prelude.Sets.{elem}
use bxcommon.Prelude.{
  ℕ, Bool, true, false, ◌&&◌, Option, none, some, List, [], ◌∷◌, ◌++◌, ltb, ◌==◌, length,
  if◌then◌else◌,
}

pub data Value : Type 0 where
  plain : ℕ → Value
  sequence : List ℕ → Value
  nested : Dict ℕ → Value

pub record Key : Type 0 where
  pub field : ℕ
  pub inner : Option ℕ

abbrev pub rpc_subscriber_max_queue_size : ℕ
rpc_subscriber_max_queue_size = 5000

-- `options["include"]`
abbrev pub Include : Type 0
Include = Option (List Key)

pub record Subscriber : Type 0 where
  pub subscription_id : ℕ
  pub messages : List (Dict Value)
  pub include : Include
  pub should_exit : Bool

-- `d.setdefault(key, value)`, without its result
unfoldable pub setdefault {ℓ} : {V : Type ℓ} → ℕ → V → Dict V → Dict V
setdefault key value d = if contains key d then d else insert key value d

-- `partial_message.setdefault(field, sub_value)` in the dict of a field
unfoldable pub set_inner : ℕ → ℕ → ℕ → Dict Value → Dict Value
set_inner field inner value output = elim (lookup field output) [
  | none ↦ output
  | some (plain _) ↦ output
  | some (sequence _) ↦ output
  | some (nested d) ↦ insert field (nested (setdefault inner value d)) output
]

-- A round of the loop of `filter_message`.
unfoldable pub filter_key : Dict Value → Key → Dict Value → Result (Dict Value)
filter_key message key output = elim (lookup key.field message) [
  | none ↦ ok output
  | some sub_value ↦ elim key.inner [
    | none ↦ ok (setdefault key.field sub_value output)
    | some inner ↦ elim sub_value [
      | plain _ ↦ err type_error
      | sequence contained ↦
          if elem inner contained
          then err attribute_error
          else ok (setdefault key.field (nested []) output)
      | nested d ↦
          let partial = setdefault key.field (nested []) output in
          ok (elim (lookup inner d) [
            | none ↦ partial
            | some value ↦ set_inner key.field inner value partial
          ])
    ]
  ]
]

unfoldable pub filter_keys : Dict Value → List Key → Dict Value → Result (Dict Value)
filter_keys message [] output = ok output
filter_keys message (key ∷ keys) output = filter_key message key output >>= filter_keys message keys

unfoldable pub filter_message : Dict Value → List Key → Result (Dict Value)
filter_message message include_fields = filter_keys message include_fields []

-- What `queue` puts into the queue.
unfoldable pub queued : Include → Dict Value → Result (Dict Value)
queued none message = ok message
queued (some []) message = ok message
queued (some (key ∷ keys)) message = filter_message message (key ∷ keys)

-- `put_nowait`; `none` means QueueFull.
unfoldable pub fast_queue : Dict Value → Subscriber → Option Subscriber
fast_queue message s =
    if ltb (length s.messages) rpc_subscriber_max_queue_size
    then some (record s { messages = s.messages ++ (message ∷ []) })
    else none

abbrev pub same_inner : Option ℕ → Option ℕ → Bool
same_inner none none = true
same_inner (some a) (some b) = a == b
same_inner none (some b) = false
same_inner (some a) none = false

abbrev pub same_keys : List Key → List Key → Bool
same_keys [] [] = true
same_keys (a ∷ xs) (b ∷ ys) =
    (a.field == b.field) && (same_inner a.inner b.inner && same_keys xs ys)
same_keys [] (b ∷ ys) = false
same_keys (a ∷ xs) [] = false

abbrev pub same_include : Include → Include → Bool
same_include none none = true
same_include (some a) (some b) = same_keys a b
same_include none (some b) = false
same_include (some a) none = false

unfoldable pub same_options : Subscriber → Subscriber → Bool
same_options s other = same_include s.include other.include
