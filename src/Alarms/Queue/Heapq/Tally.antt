-- ===== src/Alarms/Queue/Heapq/Tally.antt =====
-- What the sifts of heapq keep of a list: its length, and how many of its elements pass a test.
use bxcommon.Alarms.Queue.Heapq.{AlarmId, before, siftdown}
use bxcommon.Prelude.{
  ℕ, zero, suc, ◌+◌, ◌-◌, ◌/◌, ◌<◌, ◌≡◌, refl, ap, ◌∙◌, Bool, true, false, ◌||◌, not, List, [], ◌∷◌,
  ◌++◌, ◌==◌, length, set, get_or, arith, length-set, Bool-cases, inl, inr,
}

abbrev pub one_if : Bool → ℕ
one_if true = 1
one_if false = 0

abbrev pub tally : (AlarmId → Bool) → List AlarmId → ℕ
tally test [] = 0
tally test (a ∷ rest) = one_if (test a) + tally test rest

pub tally-append :
    (test : AlarmId → Bool) (xs ys : List AlarmId)
    → tally test (xs ++ ys) ≡ tally test xs + tally test ys
tally-append test [] ys = omega arith
tally-append test (x ∷ xs) ys = omega (arith, tally-append test xs ys)

pub tally-set :
    (test : AlarmId → Bool) (heap : List AlarmId) (i : ℕ) (a d : AlarmId)
    → i < length heap
    → tally test (set heap i a) + one_if (test (get_or heap i d))
      ≡ tally test heap + one_if (test a)
tally-set test [] i a d h = absurd (omega arith)
tally-set test (b ∷ heap) zero a d h = omega arith
tally-set test (b ∷ heap) (suc i) a d h = omega (arith, tally-set test heap i a d (omega arith))

pub get_or-set_self :
    (heap : List AlarmId) (i : ℕ) (a d : AlarmId) → i < length heap → get_or (set heap i a) i d ≡ a
get_or-set_self [] i a d h = absurd (omega arith)
get_or-set_self (b ∷ heap) zero a d h = refl
get_or-set_self (b ∷ heap) (suc i) a d h = get_or-set_self heap i a d (omega arith)

pub get_or-set_ne :
    (heap : List AlarmId) (i j : ℕ) (a d : AlarmId)
    → (j == i) ≡ false
    → get_or (set heap i a) j d ≡ get_or heap j d
get_or-set_ne [] i j a d h = refl
get_or-set_ne (b ∷ heap) zero zero a d h = absurd (ground (arith, h))
get_or-set_ne (b ∷ heap) zero (suc j) a d h = refl
get_or-set_ne (b ∷ heap) (suc i) zero a d h = refl
get_or-set_ne (b ∷ heap) (suc i) (suc j) a d h = get_or-set_ne heap i j a d (ground (arith, h))

pub get_or-append :
    (xs ys : List AlarmId) (i : ℕ) (d : AlarmId)
    → i < length xs
    → get_or (xs ++ ys) i d ≡ get_or xs i d
get_or-append [] ys i d h = absurd (omega arith)
get_or-append (x ∷ xs) ys zero d h = refl
get_or-append (x ∷ xs) ys (suc i) d h = get_or-append xs ys i d (omega arith)

pub get_or-default :
    (xs : List AlarmId) (i : ℕ) (d e : AlarmId) → i < length xs → get_or xs i d ≡ get_or xs i e
get_or-default [] i d e h = absurd (omega arith)
get_or-default (x ∷ xs) zero d e h = refl
get_or-default (x ∷ xs) (suc i) d e h = get_or-default xs i d e (omega arith)

pub length-siftdown :
    (fuel pos : ℕ) (a : AlarmId) (heap : List AlarmId)
    → length (siftdown fuel a pos heap) ≡ length heap
unfolding siftdown
length-siftdown zero pos a heap = length-set heap pos a
length-siftdown (suc fuel) pos a heap =
    let parent = get_or heap ((pos - 1) / 2) a in
    elim (Bool-cases ((pos == 0) || not (before a parent))) [
      | inl stop ↦ simp stop (length-set heap pos a)
      | inr up ↦ simp up (
          length-siftdown fuel ((pos - 1) / 2) a (set heap pos parent) ∙ length-set heap pos parent)
    ]

pub tally-siftdown :
    (test : AlarmId → Bool) (fuel pos : ℕ) (a : AlarmId) (heap : List AlarmId)
    → pos < length heap
    → tally test (siftdown fuel a pos heap) + one_if (test (get_or heap pos a))
      ≡ tally test heap + one_if (test a)
unfolding siftdown
tally-siftdown test zero pos a heap h = tally-set test heap pos a a h
tally-siftdown test (suc fuel) pos a heap h =
    let q = (pos - 1) / 2 in
    let parent = get_or heap q a in
    elim (Bool-cases ((pos == 0) || not (before a parent))) [
      | inl stop ↦ simp stop (tally-set test heap pos a a h)
      | inr up ↦
          let apart : (q == pos) ≡ false = ground (arith, up) in
          let inside : q < length (set heap pos parent) =
            omega (arith, length-set heap pos parent, h) in
          let moved = tally-siftdown test fuel q a (set heap pos parent) inside in
          let kept : one_if (test (get_or (set heap pos parent) q a)) ≡ one_if (test parent) =
            ap (λ x. one_if (test x)) (get_or-set_ne heap pos q parent a apart) in
          simp up (omega (arith, moved, kept, tally-set test heap pos parent a h))
    ]
