-- ===== src/Alarms/Queue/Kept.antt =====
-- What the methods of a queue keep of its alarms, and of those whose functions are running.
use bxcommon.Alarms.Queue.Heapq.{AlarmId}
use bxcommon.Alarms.Queue.Ordered.{
  has, IsOnce, IsRanked, has-push, push-IsOnce, push-IsRanked, has-deactivate, deactivate-IsOnce,
  deactivate-IsRanked, has-drop_inactive, drop_inactive-IsOnce, drop_inactive-IsRanked,
}
use bxcommon.Alarms.Queue.{push, drop_inactive, deactivate}
use bxcommon.Prelude.{
  ℕ, ◌+◌, ◌≤◌, ◌==◌, ◌≡◌, sym, ap, ◌∙◌, true, false, List, ◌∷◌, arith, Bool-cases, inl, inr,
}

-- The counts from `bound` on are free.
abbrev pub IsFree : ℕ → List AlarmId → Type 0
IsFree bound alarms = (k : ℕ) → bound ≤ k → has k alarms ≡ false

-- What is kept of the alarms in the queue and those that are running.
pub record IsKept (bound : ℕ) (alarms running : List AlarmId) : Type 0 where
  pub once : IsOnce alarms
  pub ranked : IsRanked alarms
  pub running_once : IsOnce running
  pub apart : (k : ℕ) → has k running ≡ true → has k alarms ≡ false
  pub free : IsFree bound alarms
  pub running_free : IsFree bound running

pub push-IsKept :
    (bound : ℕ) (a : AlarmId) (alarms running : List AlarmId)
    → IsKept bound alarms running
    → a.count ≡ bound
    → IsKept (bound + 1) (push a alarms) running
push-IsKept bound a alarms running h e =
    let unused : has a.count alarms ≡ false = h.free a.count (omega (arith, e)) in
    record {
      once = push-IsOnce a alarms unused h.once;
      ranked = push-IsRanked a alarms unused h.ranked;
      running_once = h.running_once;
      apart = λ k r. elim (Bool-cases (a.count == k)) [
        | inl same ↦ absurd (ground (arith, r, h.running_free k (ground (arith, same, e))))
        | inr other ↦ ground (arith, has-push k a alarms, h.apart k r, other)
      ];
      free = λ k le. ground (arith, has-push k a alarms, h.free k (omega (arith, le)), le, e);
      running_free = λ k le. h.running_free k (omega (arith, le));
    }

-- The alarm whose call ended is left out, or pushed with a new time.
pub over-IsKept :
    (bound : ℕ) (a : AlarmId) (alarms running : List AlarmId)
    → IsKept bound alarms (a ∷ running)
    → IsKept bound alarms running
over-IsKept bound a alarms running h = record {
  once = h.once;
  ranked = h.ranked;
  running_once = h.running_once.1;
  apart = λ k r. h.apart k (ground (arith, r));
  free = h.free;
  running_free = λ k le. ground (arith, h.running_free k le);
}

pub again-IsKept :
    (bound time : ℕ) (a : AlarmId) (alarms running : List AlarmId)
    → IsKept bound alarms (a ∷ running)
    → IsKept bound (push (record a { fire_time = time }) alarms) running
again-IsKept bound time a alarms running h =
    let later : AlarmId = record a { fire_time = time } in
    let unused : has a.count alarms ≡ false = h.apart a.count (ground arith) in
    record {
      once = push-IsOnce later alarms unused h.once;
      ranked = push-IsRanked later alarms unused h.ranked;
      running_once = h.running_once.1;
      apart = λ k r. elim (Bool-cases (a.count == k)) [
        | inl same ↦
            let e : a.count ≡ k = ground (arith, same) in
            absurd (ground (arith, r, ap (λ j. has j running) (sym e) ∙ h.running_once.0))
        | inr other ↦ ground (arith, has-push k later alarms, h.apart k (ground (arith, r)), other)
      ];
      free = λ k le. ground (arith, has-push k later alarms, h.free k le, h.running_free k le);
      running_free = λ k le. ground (arith, h.running_free k le);
    }

pub unregister-IsKept :
    (bound count : ℕ) (alarms running : List AlarmId)
    → IsKept bound alarms running
    → IsKept bound (drop_inactive (deactivate count alarms)) running
unregister-IsKept bound count alarms running h =
    let gone : (k : ℕ)
        → has k alarms ≡ false
        → has k (drop_inactive (deactivate count alarms)) ≡ false =
      λ k e. has-drop_inactive k (deactivate count alarms) (has-deactivate k count alarms ∙ e) in
    record {
      once = drop_inactive-IsOnce (deactivate count alarms) (deactivate-IsOnce count alarms h.once);
      ranked =
          drop_inactive-IsRanked (deactivate count alarms)
            (deactivate-IsRanked count alarms h.ranked);
      running_once = h.running_once;
      apart = λ k r. gone k (h.apart k r);
      free = λ k le. gone k (h.free k le);
      running_free = h.running_free;
    }

pub tail-IsKept :
    (bound : ℕ) (a : AlarmId) (rest running : List AlarmId)
    → IsKept bound (a ∷ rest) running
    → IsKept bound rest running
tail-IsKept bound a rest running h = record {
  once = h.once.1;
  ranked = h.ranked.1;
  running_once = h.running_once;
  apart = λ k r. ground (arith, h.apart k r);
  free = λ k le. ground (arith, h.free k le);
  running_free = h.running_free;
}

pub popped-IsKept :
    (bound : ℕ) (a : AlarmId) (rest running : List AlarmId)
    → IsKept bound (a ∷ rest) running
    → IsKept bound rest (a ∷ running)
popped-IsKept bound a rest running h = record {
  once = h.once.1;
  ranked = h.ranked.1;
  running_once = (
    elim (Bool-cases (has a.count running)) [
      | inl there ↦ absurd (ground (arith, h.apart a.count there))
      | inr out ↦ out
    ],
    h.running_once,
  );
  apart = λ k r. elim (Bool-cases (a.count == k)) [
    | inl same ↦
        let e : a.count ≡ k = ground (arith, same) in ap (λ j. has j rest) (sym e) ∙ h.once.0
    | inr other ↦ ground (arith, h.apart k (ground (arith, r, other)))
  ];
  free = λ k le. ground (arith, h.free k le);
  running_free = λ k le. ground (arith, h.free k le, h.running_free k le);
}
