-- ===== src/Feeds/Feed/Published.antt =====
-- What `publish` gives each subscriber: the messages that were kept for others change nothing.
pub mod Same
pub mod Single
use mathlib.Core.Path.{subst}
use bxcommon.Feeds.Feed.Published.Single.{
  IsCache, deliver, deliver_all, Delivered, publish_one-Delivered,
}
use bxcommon.Feeds.Feed.{
  Feed, Cache, cached, stay_or_bad, queue_new, publish_one, publish_loop, publish, unsubscribe,
  unsubscribe_all, subscriber_count,
}
use bxcommon.Feeds.Subscriber.{
  Value, Key, Include, Subscriber, queued, fast_queue, same_options, same_include,
}
use bxcommon.Prelude.Dict.{Dict, lookup, erase, erase_absent}
use bxcommon.Prelude.Sets.{elem}
use bxcommon.Prelude.Result.{Error, Result, ok, err, ◌>>=◌}
use bxcommon.Prelude.{
  ℕ, zero, suc, ◌≡◌, ◌⊎◌, refl, sym, ap, ◌∙◌, Bool, true, false, ◌&&◌, ◌||◌, Option, none, some,
  List, [], ◌∷◌, ◌++◌, length, ◌==◌, if◌then◌else◌, arith, Bool-cases, Option-cases, inl, inr,
}

-- Every subscriber is kept under its own id, and once.
abbrev pub IsKeyed : Dict Subscriber → Type 0
IsKeyed [] = Unit {0}
IsKeyed ((id, s) ∷ rest) = (s.subscription_id ≡ id) × (lookup id rest ≡ none) × IsKeyed rest

module _ {Raw : Type 0} (serialize : Raw → Result (Dict Value))
    (should_publish : Subscriber → Raw → Dict Value → Bool × Bool) where
  -- The loop without the cache.
  deliver_marks : Raw → Dict Value → Dict Subscriber → Result (Dict Subscriber × List ℕ)
  deliver_marks raw serialized [] = ok ([], [])
  deliver_marks raw serialized ((id, s) ∷ rest) =
      deliver serialize should_publish raw serialized s >>= λ done.
      deliver_marks raw serialized rest >>= λ others.
      ok ((id, done.1) ∷ others.0, if done.0 then done.1.subscription_id ∷ others.1 else others.1)

  publish_loop-deliver_marks :
      (raw : Raw) (serialized : Dict Value) (subscribers : Dict Subscriber) (cache : Cache)
      → IsCache serialized cache
      → publish_loop serialize should_publish raw serialized subscribers cache
        ≡ deliver_marks raw serialized subscribers
  unfolding publish_loop deliver_marks Delivered
  publish_loop-deliver_marks raw serialized [] cache c = refl
  publish_loop-deliver_marks raw serialized ((id, s) ∷ rest) cache c =
      by_first (deliver serialize should_publish raw serialized s) refl
        (publish_one-Delivered serialize should_publish raw serialized s cache c)
        (λ cache' c'. publish_loop-deliver_marks raw serialized rest cache' c')
    where
      by_first :
          (done : Result (Bool × Subscriber))
          → deliver serialize should_publish raw serialized s ≡ done
          → Delivered serialize should_publish raw serialized s cache done
          → ((cache' : Cache)
              → IsCache serialized cache'
              → publish_loop serialize should_publish raw serialized rest cache'
                ≡ deliver_marks raw serialized rest)
          → publish_loop serialize should_publish raw serialized ((id, s) ∷ rest) cache
            ≡ deliver_marks raw serialized ((id, s) ∷ rest)
      by_first (err e) d p later = rw (d, p) refl
      by_first (ok done) d (cache', c', p) later = rw (d, p, later cache' c') refl

  abbrev erase_all : List ℕ → Dict Subscriber → Dict Subscriber
  erase_all [] d = d
  erase_all (id ∷ ids) d = erase_all ids (erase id d)

  unsubscribe_all-erase_all :
      (ids : List ℕ) (feed : Feed)
      → unsubscribe_all serialize should_publish ids feed
        ≡ record feed { subscribers = erase_all ids feed.subscribers }
  unfolding unsubscribe
  unsubscribe_all-erase_all [] feed = refl
  unsubscribe_all-erase_all (id ∷ ids) feed =
      unsubscribe_all-erase_all ids (record feed { subscribers = erase id feed.subscribers })

  erase_all-cons :
      (ids : List ℕ) (id : ℕ) (s : Subscriber) (d : Dict Subscriber)
      → elem id ids ≡ false
      → erase_all ids ((id, s) ∷ d) ≡ (id, s) ∷ erase_all ids d
  erase_all-cons [] id s d h = refl
  erase_all-cons (j ∷ ids) id s d h =
      let other : (j == id) ≡ false = ground (arith, h) in
      rw other (erase_all-cons ids id s (erase j d) (ground (arith, h)))

  deliver-id :
      (raw : Raw) (serialized : Dict Value) (s s' : Subscriber) (bad : Bool)
      → deliver serialize should_publish raw serialized s ≡ ok (bad, s')
      → s'.subscription_id ≡ s.subscription_id
  unfolding deliver fast_queue
  deliver-id raw serialized s s' bad h = ground (arith, h)

  lookup_behind :
      (j id : ℕ) (s : Subscriber) (rest : Dict Subscriber)
      → lookup j ((id, s) ∷ rest) ≡ none
      → ((j == id) ≡ false) × (lookup j rest ≡ none)
  lookup_behind j id s rest h = elim (Bool-cases (j == id)) [
    | inl same ↦ absurd (ground (arith, same, h))
    | inr other ↦ (other, ground (arith, other, h))
  ]

  -- The subscribers that the loop leaves, without the bad ones, are those that stay.
  Marked : Raw → Dict Value → Dict Subscriber → Result (Dict Subscriber × List ℕ) → Type 0
  Marked raw serialized subscribers (err e) =
      deliver_all serialize should_publish raw serialized subscribers ≡ err e
  Marked raw serialized subscribers (ok (left, bad)) =
      (deliver_all serialize should_publish raw serialized subscribers ≡ ok (erase_all bad left))
      × ((id : ℕ) → lookup id subscribers ≡ none → (lookup id left ≡ none) × (elem id bad ≡ false))

  deliver_marks-Marked :
      (raw : Raw) (serialized : Dict Value) (subscribers : Dict Subscriber)
      → IsKeyed subscribers
      → Marked raw serialized subscribers (deliver_marks raw serialized subscribers)
  unfolding Marked deliver_marks deliver_all
  deliver_marks-Marked raw serialized [] k = (refl, λ id h. (refl, refl))
  deliver_marks-Marked raw serialized ((id, s) ∷ rest) k =
      by_first (deliver serialize should_publish raw serialized s) refl
        (deliver_marks raw serialized rest) refl (deliver_marks-Marked raw serialized rest k.2)
    where
      by_first :
          (done : Result (Bool × Subscriber))
          → deliver serialize should_publish raw serialized s ≡ done
          → (others : Result (Dict Subscriber × List ℕ))
          → deliver_marks raw serialized rest ≡ others
          → Marked raw serialized rest others
          → Marked raw serialized ((id, s) ∷ rest) (deliver_marks raw serialized ((id, s) ∷ rest))
      by_first (err e) d others o m = rw d (ground (arith, d))
      by_first (ok done) d (err e) o m = rw (d, o) (rw (d, m) refl)
      by_first (ok (false, s')) d (ok (left, bad)) o m =
          rw (d, o)
            (
              rw (d, m.0) (ap ok (sym (erase_all-cons bad id s' left (m.1 id k.1).1))),
              λ j h.
                  let (other, absent) = lookup_behind j id s rest h in
                  let (still, good) = m.1 j absent in (rw other still, good),
            )
      by_first (ok (true, s')) d (ok (left, bad)) o m =
          let same : s'.subscription_id ≡ id = deliver-id raw serialized s s' true d ∙ k.0 in
          let gone : erase id left ≡ left = erase_absent id left (m.1 id k.1).0 in
          rw (d, o, same)
            (
              rw (d, m.0) (ap (λ x. ok (erase_all bad x)) (sym (ground (arith, gone)))),
              λ j h.
                  let (other, absent) = lookup_behind j id s rest h in
                  let (still, good) = m.1 j absent in (rw other still, rw other good),
            )

  -- `publish` does to every subscriber what it would do if it were the only one: those that had to
  -- exit, and those whose queue was full, are gone, those that want the message have it at the end of
  -- their queue with the fields that they include, and the others are as they were. It raises where a
  -- subscriber's filter does, and does nothing where the message cannot be serialized.
  pub publish-deliver_all :
      (raw : Raw) (feed : Feed)
      → IsKeyed feed.subscribers
      → publish serialize should_publish raw feed ≡ elim (serialize raw) [
        | err _ ↦ ok feed
        | ok serialized ↦
            deliver_all serialize should_publish raw serialized feed.subscribers >>= λ left.
            ok (record feed { subscribers = left })
      ]
  unfolding publish subscriber_count deliver_all Marked
  publish-deliver_all raw feed k = by_message (serialize raw) refl
    where
      by_marks :
          (serialized : Dict Value)
          → (marks : Result (Dict Subscriber × List ℕ))
          → deliver_marks raw serialized feed.subscribers ≡ marks
          → Marked raw serialized feed.subscribers marks
          → (deliver_marks raw serialized feed.subscribers >>= λ done. ok (
              unsubscribe_all serialize should_publish done.1
                (record feed { subscribers = done.0 })))
            ≡ (deliver_all serialize should_publish raw serialized feed.subscribers >>= λ left.
                ok (record feed { subscribers = left }))
      by_marks serialized (err e) o m = rw (o, m) refl
      by_marks serialized (ok (left, bad)) o m =
          rw (o, m.0) (ap ok (unsubscribe_all-erase_all bad (record feed { subscribers = left })))

      by_subscribers :
          (serialized : Dict Value)
          → serialize raw ≡ ok serialized
          → (subscribers : Dict Subscriber) → feed.subscribers ≡ subscribers
          → publish serialize should_publish raw feed ≡ (
              deliver_all serialize should_publish raw serialized feed.subscribers >>= λ left.
              ok (record feed { subscribers = left }))
      by_subscribers serialized e [] none_ =
          let unchanged : publish serialize should_publish raw feed ≡ ok feed = simp none_ in
          let nothing : deliver_all serialize should_publish raw serialized feed.subscribers
              ≡ ok [] =
            ap (deliver_all serialize should_publish raw serialized) none_ in
          unchanged
          ∙ (ap (λ l. ok (record feed { subscribers = l })) none_
              ∙ sym (ap (λ l. l >>= λ left. ok (record feed { subscribers = left })) nothing))
      by_subscribers serialized e (entry ∷ rest) some_ =
          let counted : (length feed.subscribers == 0) ≡ false = ground (arith, ap length some_) in
          simp (counted, e, publish_loop-deliver_marks raw serialized feed.subscribers [] tt)
            (by_marks serialized _ refl (deliver_marks-Marked raw serialized feed.subscribers k))

      by_message :
          (message : Result (Dict Value))
          → serialize raw ≡ message
          → publish serialize should_publish raw feed ≡ elim message [
            | err _ ↦ ok feed
            | ok serialized ↦
                deliver_all serialize should_publish raw serialized feed.subscribers >>= λ left.
                ok (record feed { subscribers = left })
          ]
      by_message (err raised) e = ground (arith, e)
      by_message (ok serialized) e = by_subscribers serialized e _ refl
