-- ===== src/Expiration/Callbacks.antt =====
-- `remove_expired` of bxcommon/utils/expiration_queue.py with a callback, on the state of its owner.
use mathlib.Core.Path.{subst}
use bxcommon.Expiration.Defs.{QueueIn, pop_to, expire_loop, remove_expired}
use bxcommon.Prelude.Dict.{Dict}
use bxcommon.Prelude.Result.{Result, ok, ◌>>=◌, >>=-eq-ok}
use bxcommon.Prelude.{
  ℕ, zero, suc, ◌+◌, ◌≡◌, refl, Option, some, List, [], ◌∷◌, ◌++◌, ltb, arith, inl, inr, Bool-cases,
  List-cases,
}

module _ {S : Type 0} (slot : QueueIn S) (f : ℕ → S → Result S) (P : S → Type 0)
    (pop_keeps : (rest : Dict ℕ) (s : S) → P s → P (pop_to slot (some f) rest s))
    (call_keeps : (item : ℕ) (s : S) → P s → (s' : S) × (f item s ≡ ok s') × P s') where
  pub expire_loop_keeps :
      (now n : ℕ) (removed : List ℕ) (s : S)
      → P s
      → (r : List ℕ) × (s' : S) × (expire_loop slot (some f) now n removed s ≡ ok (r, s')) × P s'
  unfolding expire_loop
  expire_loop_keeps now zero removed s p = (removed, s, refl, p)
  expire_loop_keeps now (suc n) removed s p = elim (List-cases (slot.read s).queue) [
    | inl done ↦ (removed, s, rw (done, expire_loop), p)
    | inr ((item, time), rest, left) ↦
        elim (Bool-cases (ltb (time + (slot.read s).time_to_live_sec) now)) [
          | inr young ↦ (removed, s, rw (left, expire_loop, young), p)
          | inl old ↦
              let (s', run, p') =
                call_keeps item (pop_to slot (some f) rest s) (pop_keeps rest s p) in
              let (r, s'', again, p'') = expire_loop_keeps now n (removed ++ (item ∷ [])) s' p' in
              (r, s'', rw (left, expire_loop, old, run) again, p'')
        ]
  ]

  pub remove_expired_keeps :
      (now : ℕ) (limit : Option ℕ) (s : S)
      → P s
      → (r : List ℕ) × (s' : S) × (remove_expired slot (some f) now limit s ≡ ok (r, s')) × P s'
  unfolding remove_expired
  remove_expired_keeps now limit s p = expire_loop_keeps now _ [] s p

-- Where the callback may raise: what each call keeps if it does not.
module _ {S : Type 0} (slot : QueueIn S) (f : ℕ → S → Result S) (P : S → Type 0)
    (pop_keeps : (rest : Dict ℕ) (s : S) → P s → P (pop_to slot (some f) rest s))
    (call_keeps : (item : ℕ) (s s' : S) → P s → f item s ≡ ok s' → P s') where
  expire_loop_keeps_if :
      (now n : ℕ) (removed : List ℕ) (s : S) (r : List ℕ) (s' : S)
      → P s
      → expire_loop slot (some f) now n removed s ≡ ok (r, s')
      → P s'
  unfolding expire_loop
  expire_loop_keeps_if now zero removed s r s' p e = subst P (ground arith) p
  expire_loop_keeps_if now (suc n) removed s r s' p e = elim (List-cases (slot.read s).queue) [
    | inl done ↦ subst P (ground arith) p
    | inr ((item, time), rest, left) ↦
        elim (Bool-cases (ltb (time + (slot.read s).time_to_live_sec) now)) [
          | inr young ↦ subst P (ground arith) p
          | inl old ↦
              let t = pop_to slot (some f) rest s in
              let chain : (f item t >>= expire_loop slot (some f) now n (removed ++ (item ∷ [])))
                  ≡ ok (r, s') =
                ground arith in
              let (t', run, again) = >>=-eq-ok (f item t) _ chain in
              expire_loop_keeps_if now n (removed ++ (item ∷ [])) t' r s'
                (call_keeps item t t' (pop_keeps rest s p) run) again
        ]
  ]

  pub remove_expired_keeps_if :
      (now : ℕ) (limit : Option ℕ) (s : S) (r : List ℕ) (s' : S)
      → P s
      → remove_expired slot (some f) now limit s ≡ ok (r, s')
      → P s'
  unfolding remove_expired
  remove_expired_keeps_if now limit s r s' p e = expire_loop_keeps_if now _ [] s r s' p e
