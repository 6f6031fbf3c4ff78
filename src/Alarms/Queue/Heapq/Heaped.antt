-- ===== src/Alarms/Queue/Heapq/Heaped.antt =====
-- `heappush` and `heappop` of heapq give heaps, of the elements with the new one or without the first.
use mathlib.Core.Path.{subst}
use bxcommon.Alarms.Queue.Heapq.{AlarmId, before, siftdown, siftup, heappush, heappop, split_last}
use bxcommon.Alarms.Queue.Heapq.Sift.{up, IsHeap, not_before_trans, moved_edge, siftdown-IsHeap}
use bxcommon.Alarms.Queue.Heapq.Sunk.{HasGap, Sunk, siftup-Sunk}
use bxcommon.Alarms.Queue.Heapq.Tally.{
  one_if, tally, tally-append, tally-set, get_or-set_self, get_or-set_ne, get_or-append,
  get_or-default, tally-siftdown,
}
use bxcommon.Prelude.{
  ℕ, zero, suc, ◌+◌, ◌<◌, ◌≡◌, refl, sym, ap, Bool, false, List, [], ◌∷◌, ◌++◌, length, set, get_or,
  arith, length-set, length-append,
}

IsHeap-default : (d e : AlarmId) (heap : List AlarmId) → IsHeap d heap → IsHeap e heap
IsHeap-default d e heap h i p l =
    moved_edge (get_or-default heap i e d l) (get_or-default heap (up i) e d (omega (arith, l)))
      (h i p l)

-- A list in the order of a heap, whatever stands for the elements out of range.
abbrev pub IsHeaped : List AlarmId → Type 0
IsHeaped heap = (d : AlarmId) → IsHeap d heap

-- The root of a heap has no element before it.
root_least_below :
    (fuel : ℕ) (d : AlarmId) (heap : List AlarmId) (i : ℕ)
    → IsHeap d heap
    → i < fuel
    → i < length heap
    → before (get_or heap i d) (get_or heap 0 d) ≡ false
root_least_below zero d heap i h f l = absurd (omega arith)
root_least_below (suc fuel) d heap zero h f l = ground arith
root_least_below (suc fuel) d heap (suc i) h f l =
    not_before_trans (get_or heap (suc i) d) (get_or heap (up (suc i)) d) (get_or heap 0 d)
      (h (suc i) (omega arith) l)
      (root_least_below fuel d heap (up (suc i)) h (omega (arith, f)) (omega (arith, l)))

pub root_least :
    (d : AlarmId) (heap : List AlarmId) (i : ℕ)
    → IsHeaped heap
    → i < length heap
    → before (get_or heap i d) (get_or heap 0 d) ≡ false
root_least d heap i h l = root_least_below (suc i) d heap i (h d) (omega arith) l

pub heappush-IsHeaped :
    (heap : List AlarmId) (a : AlarmId) → IsHeaped heap → IsHeaped (heappush heap a)
unfolding heappush
heappush-IsHeaped heap a h d =
    let n = length heap in
    let wider : length (heap ++ (a ∷ [])) ≡ suc n = omega (arith, length-append heap (a ∷ [])) in
    let old : (i : ℕ) → i < n → get_or (heap ++ (a ∷ [])) i a ≡ get_or heap i a =
      λ i l. get_or-append heap (a ∷ []) i a l in
    IsHeap-default a d (siftdown (suc n) a n (heap ++ (a ∷ []))) (
      siftdown-IsHeap (suc n) a n (heap ++ (a ∷ [])) (omega arith) (omega (arith, wider)) (record {
        around = λ i p l away _.
            let in_heap : i < n = ground (arith, wider, l, away) in
            moved_edge (old i in_heap) (old (up i) (omega (arith, in_heap))) (h a i p in_heap);
        below = λ c p l e. absurd (omega (arith, wider, l, e, p));
        bridge = λ _ c p l e. absurd (omega (arith, wider, l, e, p));
      }))

pub tally-heappush :
    (test : AlarmId → Bool) (heap : List AlarmId) (a : AlarmId)
    → tally test (heappush heap a) ≡ tally test heap + one_if (test a)
unfolding heappush
tally-heappush test heap a =
    let n = length heap in
    let pushed = heap ++ (a ∷ []) in
    let at : one_if (test (get_or pushed n a)) ≡ one_if (test a) =
      ap (λ x. one_if (test x)) (last_one heap a) in
    omega (
      arith,
      tally-siftdown test (suc n) n a pushed (omega (arith, length-append heap (a ∷ []))),
      at,
      tally-append test heap (a ∷ []),
    )
  where
    last_one : (heap : List AlarmId) (a : AlarmId) → get_or (heap ++ (a ∷ [])) (length heap) a ≡ a
    last_one [] a = refl
    last_one (b ∷ heap) a = last_one heap a

split_last-append :
    (a : AlarmId) (rest : List AlarmId)
    → (split_last a rest).0 ++ ((split_last a rest).1 ∷ []) ≡ a ∷ rest
unfolding split_last
split_last-append a [] = refl
split_last-append a (b ∷ rest) = ap (◌∷◌ a) (split_last-append b rest)

-- The last element in place of the first, as a heap with a hole at its root.
last_first-HasGap :
    (first last : AlarmId) (front : List AlarmId)
    → IsHeaped (first ∷ (front ++ (last ∷ [])))
    → HasGap last 0 (last ∷ front)
last_first-HasGap first last front h = record {
  around = λ i p l away apart.
      moved_edge (kept i p l) (kept (up i) (ground (arith, apart)) (omega (arith, l)))
        (h last i p (omega (arith, l, length-append front (last ∷ []))));
  bridge = λ some_root. absurd (omega (arith, some_root));
}
  where
    kept :
        (i : ℕ)
        → 0 < i
        → i < length (last ∷ front)
        → get_or (last ∷ front) i last ≡ get_or (first ∷ (front ++ (last ∷ []))) i last
    kept zero p l = absurd (omega arith)
    kept (suc i) p l = sym (get_or-append front (last ∷ []) i last (omega (arith, l)))

-- What is left by the sinking of the hole, with the last element put in.
filled : AlarmId → List AlarmId → List AlarmId
filled last front =
    let (pos, heap) = siftup (suc (length front)) last 0 (last ∷ front) in
    siftdown (suc (length heap)) last pos (set heap pos last)

filled-IsHeap :
    (last : AlarmId) (front : List AlarmId)
    → HasGap last 0 (last ∷ front)
    → IsHeap last (filled last front)
unfolding filled
filled-IsHeap last front gap =
    let sunk = siftup (suc (length front)) last 0 (last ∷ front) in
    let pos = sunk.0 in
    let heap = sunk.1 in
    let s : Sunk last 0 (last ∷ front) pos heap =
      siftup-Sunk (suc (length front)) last 0 (last ∷ front) (omega arith) (omega arith) gap in
    let size = length-set heap pos last in
    siftdown-IsHeap (suc (length heap)) last pos (set heap pos last) (omega (arith, s.inside))
      (omega (arith, size, s.inside))
      (record {
        around = λ i p l away apart.
            moved_edge (get_or-set_ne heap pos i last last away)
              (get_or-set_ne heap pos (up i) last last apart)
              (s.around i p (omega (arith, size, l)) away apart);
        below = λ c p l e. absurd (omega (arith, size, l, e, p, s.lowest));
        bridge = λ _ c p l e. absurd (omega (arith, size, l, e, p, s.lowest));
      })

tally-filled :
    (test : AlarmId → Bool) (last : AlarmId) (front : List AlarmId)
    → HasGap last 0 (last ∷ front)
    → tally test (filled last front) ≡ tally test front + one_if (test last)
unfolding filled
tally-filled test last front gap =
    let sunk = siftup (suc (length front)) last 0 (last ∷ front) in
    let pos = sunk.0 in
    let heap = sunk.1 in
    let s : Sunk last 0 (last ∷ front) pos heap =
      siftup-Sunk (suc (length front)) last 0 (last ∷ front) (omega arith) (omega arith) gap in
    let at : one_if (test (get_or (set heap pos last) pos last)) ≡ one_if (test last) =
      ap (λ x. one_if (test x)) (get_or-set_self heap pos last last s.inside) in
    omega (
      arith,
      s.counted test,
      tally-set test heap pos last last s.inside,
      at,
      tally-siftdown test (suc (length heap)) pos last (set heap pos last)
          (omega (arith, length-set heap pos last, s.inside)),
    )

pub heappop-IsHeaped :
    (first : AlarmId) (rest : List AlarmId)
    → IsHeaped (first ∷ rest)
    → IsHeaped (heappop first rest)
      × ((test : AlarmId → Bool) → tally test (heappop first rest) ≡ tally test rest)
unfolding heappop filled
heappop-IsHeaped first [] h = (λ d i p l. absurd (omega (arith, l)), λ test. refl)
heappop-IsHeaped first (a ∷ rest) h =
    let front = (split_last a rest).0 in
    let last = (split_last a rest).1 in
    let e = split_last-append a rest in
    let gap = last_first-HasGap first last front (subst (λ xs. IsHeaped (first ∷ xs)) (sym e) h) in
    (
      λ d. IsHeap-default last d (filled last front) (filled-IsHeap last front gap),
      λ test. omega (
        arith,
        tally-filled test last front gap,
        tally-append test front (last ∷ []),
        ap (tally test) e,
      ),
    )
