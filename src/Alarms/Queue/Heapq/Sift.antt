-- ===== src/Alarms/Queue/Heapq/Sift.antt =====
-- The order of a heap, and `_siftdown` of heapq, which restores it around a hole.
use bxcommon.Alarms.Queue.Heapq.{AlarmId, before, siftdown}
use bxcommon.Alarms.Queue.Heapq.Tally.{get_or-set_self, get_or-set_ne}
use bxcommon.Prelude.{
  ℕ, zero, suc, ◌-◌, ◌/◌, ◌<◌, ◌≡◌, sym, ap, ◌∙◌, true, false, ◌||◌, not, List, ◌==◌, length, set,
  get_or, arith, length-set, Bool-cases, inl, inr,
}

-- The place above another.
abbrev pub up : ℕ → ℕ
up i = (i - 1) / 2

pub not_before_trans :
    (a b c : AlarmId) → before a b ≡ false → before b c ≡ false → before a c ≡ false
not_before_trans a b c h k = ground (arith, h, k)

pub before-not_before : (a b : AlarmId) → before a b ≡ true → before b a ≡ false
before-not_before a b h = ground (arith, h)

pub moved_edge : {x y a b : AlarmId} → x ≡ a → y ≡ b → before a b ≡ false → before x y ≡ false
moved_edge {x} {y} {a} {b} e f h = ap (λ z. before z y) e ∙ ap (before a) f ∙ h

-- The element at `i` is not before the one above it.
abbrev pub IsEdge : AlarmId → List AlarmId → ℕ → Type 0
IsEdge d heap i = before (get_or heap i d) (get_or heap (up i) d) ≡ false

abbrev pub IsHeap : AlarmId → List AlarmId → Type 0
IsHeap d heap = (i : ℕ) → 0 < i → i < length heap → IsEdge d heap i

-- All edges but those at the hole.
abbrev pub IsAround : AlarmId → ℕ → List AlarmId → Type 0
IsAround d pos heap =
    (i : ℕ) → 0 < i → i < length heap → (i == pos) ≡ false → (up i == pos) ≡ false → IsEdge d heap i

-- The elements right below the hole are not before this one.
abbrev pub IsAbove : AlarmId → AlarmId → ℕ → List AlarmId → Type 0
IsAbove d a pos heap =
    (c : ℕ) → 0 < c → c < length heap → up c ≡ pos → before (get_or heap c d) a ≡ false

-- A heap with a hole, into which `new` may come, or sink from above.
pub record HasHole (new : AlarmId) (pos : ℕ) (heap : List AlarmId) : Type 0 where
  pub around : IsAround new pos heap
  pub below : IsAbove new new pos heap
  pub bridge : 0 < pos → IsAbove new (get_or heap (up pos) new) pos heap

placed-IsHeap :
    (new : AlarmId) (pos : ℕ) (heap : List AlarmId)
    → pos < length heap
    → HasHole new pos heap
    → (0 < pos → before new (get_or heap (up pos) new) ≡ false)
    → IsHeap new (set heap pos new)
placed-IsHeap new pos heap h hole fits i some_i inside =
    let inside' : i < length heap = omega (arith, length-set heap pos new, inside) in
    elim (Bool-cases (i == pos)) [
      | inl at ↦
          let e : i ≡ pos = ground (arith, at) in
          let other : (up i == pos) ≡ false = ground (arith, e, some_i) in
          moved_edge
            (ap (λ j. get_or (set heap pos new) j new) e ∙ get_or-set_self heap pos new new h)
            (get_or-set_ne heap pos (up i) new new other ∙ ap (λ j. get_or heap (up j) new) e)
            (fits (omega (arith, e, some_i)))
      | inr away ↦ elim (Bool-cases (up i == pos)) [
        | inl child ↦
            let e : up i ≡ pos = ground (arith, child) in
            moved_edge (get_or-set_ne heap pos i new new away)
              (ap (λ j. get_or (set heap pos new) j new) e ∙ get_or-set_self heap pos new new h)
              (hole.below i some_i inside' e)
        | inr apart ↦
            moved_edge (get_or-set_ne heap pos i new new away)
              (get_or-set_ne heap pos (up i) new new apart)
              (hole.around i some_i inside' away apart)
      ]
    ]

-- The element above the hole comes down into it, and leaves a hole.
lowered-HasHole :
    (new : AlarmId) (pos : ℕ) (heap : List AlarmId)
    → pos < length heap
    → 0 < pos
    → HasHole new pos heap
    → before new (get_or heap (up pos) new) ≡ true
    → HasHole new (up pos) (set heap pos (get_or heap (up pos) new))
lowered-HasHole new pos heap h some_pos hole first =
    let q = up pos in
    let a = get_or heap q new in
    let heap' = set heap pos a in
    let at : get_or heap' pos new ≡ a = get_or-set_self heap pos a new h in
    let off : (j : ℕ) → (j == pos) ≡ false → get_or heap' j new ≡ get_or heap j new =
      λ j e. get_or-set_ne heap pos j a new e in
    let inside : (j : ℕ) → j < length heap' → j < length heap =
      λ j l. omega (arith, length-set heap pos a, l) in
    let apart : (q == pos) ≡ false = ground (arith, some_pos) in
    let low : before a new ≡ false = before-not_before new a first in
    let siblings : (c : ℕ)
        → 0 < c
        → c < length heap
        → up c ≡ q
        → (c == pos) ≡ false
        → before (get_or heap c new) a ≡ false =
      λ c p l e away.
        let not_pos : (up c == pos) ≡ false = ground (arith, e, some_pos) in
        ap (λ j. before (get_or heap c new) (get_or heap j new)) (sym e)
        ∙ hole.around c p l away not_pos in
    record {
      around = λ i p l away child. elim (Bool-cases (up i == pos)) [
        | inl under ↦
            let e : up i ≡ pos = ground (arith, under) in
            let not_pos : (i == pos) ≡ false = ground (arith, under, some_pos, p) in
            moved_edge (off i not_pos) (ap (λ j. get_or heap' j new) e ∙ at)
              (hole.bridge some_pos i p (inside i l) e)
        | inr free ↦
            let not_pos : (i == pos) ≡ false = ground (arith, child) in
            moved_edge (off i not_pos) (off (up i) free) (hole.around i p (inside i l) not_pos free)
      ];
      below = λ c p l e. elim (Bool-cases (c == pos)) [
        | inl same ↦
            let f : c ≡ pos = ground (arith, same) in
            ap (λ x. before x new) (ap (λ j. get_or heap' j new) f ∙ at) ∙ low
        | inr away ↦
            ap (λ x. before x new) (off c away)
            ∙ not_before_trans (get_or heap c new) a new (siblings c p (inside c l) e away) low
      ];
      bridge = λ some_q c p l e.
          let not_pos : (up q == pos) ≡ false = ground (arith, some_pos) in
          let not_q : (up q == pos) ≡ false = not_pos in
          let higher : before a (get_or heap (up q) new) ≡ false =
            hole.around q some_q (omega (arith, h)) apart not_q in
          elim (Bool-cases (c == pos)) [
            | inl same ↦
                let f : c ≡ pos = ground (arith, same) in
                moved_edge (ap (λ j. get_or heap' j new) f ∙ at) (off (up q) not_pos) higher
            | inr away ↦ moved_edge (off c away) (off (up q) not_pos) (
                not_before_trans (get_or heap c new) a (get_or heap (up q) new)
                  (siblings c p (inside c l) e away) higher)
          ];
    }

pub siftdown-IsHeap :
    (fuel : ℕ) (new : AlarmId) (pos : ℕ) (heap : List AlarmId)
    → pos < fuel
    → pos < length heap
    → HasHole new pos heap
    → IsHeap new (siftdown fuel new pos heap)
unfolding siftdown
siftdown-IsHeap zero new pos heap f h hole = absurd (omega arith)
siftdown-IsHeap (suc fuel) new pos heap f h hole =
    let a = get_or heap (up pos) new in
    elim (Bool-cases ((pos == 0) || not (before new a))) [
      | inl stop ↦
          simp stop (placed-IsHeap new pos heap h hole (λ some_pos. ground (arith, stop, some_pos)))
      | inr higher ↦
          let some_pos : 0 < pos = ground (arith, higher) in
          simp higher (
            siftdown-IsHeap fuel new (up pos) (set heap pos a) (omega (arith, f, some_pos))
              (omega (arith, length-set heap pos a, h))
              (lowered-HasHole new pos heap h some_pos hole (ground (arith, higher))))
    ]
