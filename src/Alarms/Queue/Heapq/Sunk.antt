-- ===== src/Alarms/Queue/Heapq/Sunk.antt =====
-- The first loop of `_siftup` of heapq: the hole sinks to a place with nothing below it.
use bxcommon.Alarms.Queue.Heapq.{AlarmId, before, siftup}
use bxcommon.Alarms.Queue.Heapq.Sift.{up, IsAround, IsAbove, before-not_before, moved_edge}
use bxcommon.Alarms.Queue.Heapq.Tally.{one_if, tally, tally-set, get_or-set_self, get_or-set_ne}
use bxcommon.Prelude.{
  ℕ, zero, suc, ◌+◌, ◌*◌, ◌<◌, ◌≤◌, ◌≡◌, refl, sym, ap, ◌∙◌, Bool, true, false, ◌&&◌, not, List,
  ltb, ◌==◌, length, set, get_or, if◌then◌else◌, arith, length-set, Bool-cases, inl, inr,
}

-- A heap with a hole that may sink.
pub record HasGap (d : AlarmId) (pos : ℕ) (heap : List AlarmId) : Type 0 where
  pub around : IsAround d pos heap
  pub bridge : 0 < pos → IsAbove d (get_or heap (up pos) d) pos heap

-- No element right below the hole is before the one at `child`.
abbrev IsLeast : AlarmId → ℕ → ℕ → List AlarmId → Type 0
IsLeast d child pos heap =
    (c : ℕ)
    → 0 < c
    → c < length heap
    → up c ≡ pos
    → before (get_or heap c d) (get_or heap child d) ≡ false

raised-HasGap :
    (d : AlarmId) (pos child : ℕ) (heap : List AlarmId)
    → child < length heap
    → 0 < child
    → up child ≡ pos
    → HasGap d pos heap
    → IsLeast d child pos heap
    → HasGap d child (set heap pos (get_or heap child d))
raised-HasGap d pos child heap h some_child above gap least =
    let a = get_or heap child d in
    let heap' = set heap pos a in
    let at : get_or heap' pos d ≡ a =
      get_or-set_self heap pos a d (omega (arith, above, h, some_child)) in
    let off : (j : ℕ) → (j == pos) ≡ false → get_or heap' j d ≡ get_or heap j d =
      λ j e. get_or-set_ne heap pos j a d e in
    let inside : (j : ℕ) → j < length heap' → j < length heap =
      λ j l. omega (arith, length-set heap pos a, l) in
    record {
      around = λ i p l away free. elim (Bool-cases (i == pos)) [
        | inl same ↦
            let e : i ≡ pos = ground (arith, same) in
            let not_pos : (up pos == pos) ≡ false = ground (arith, e, p) in
            moved_edge (ap (λ j. get_or heap' j d) e ∙ at)
              (ap (λ j. get_or heap' (up j) d) e ∙ off (up pos) not_pos)
              (gap.bridge (omega (arith, e, p)) child some_child h above)
        | inr other ↦ elim (Bool-cases (up i == pos)) [
          | inl under ↦
              let e : up i ≡ pos = ground (arith, under) in
              moved_edge (off i other) (ap (λ j. get_or heap' j d) e ∙ at)
                (least i p (inside i l) e)
          | inr apart ↦
              moved_edge (off i other) (off (up i) apart) (gap.around i p (inside i l) other apart)
        ]
      ];
      bridge = λ _ c p l e.
          let not_pos : (c == pos) ≡ false = ground (arith, e, above, some_child, p) in
          let deeper : (up c == pos) ≡ false = ground (arith, e, above, some_child) in
          moved_edge (off c not_pos) (ap (λ j. get_or heap' j d) above ∙ at) (
            ap (λ j. before (get_or heap c d) (get_or heap j d)) (sym e)
            ∙ gap.around c p (inside c l) not_pos deeper);
    }

-- The smaller of the two children, which the loop takes.
abbrev pub smaller : AlarmId → ℕ → List AlarmId → ℕ
smaller d pos heap =
    let child = 2 * pos + 1 in
    if ltb (child + 1) (length heap)
      && not (before (get_or heap child d) (get_or heap (child + 1) d))
    then child + 1
    else child

-- What the loop relies on in the child that it takes.
record IsTaken (d : AlarmId) (pos child : ℕ) (heap : List AlarmId) : Type 0 where
  inside : child < length heap
  positive : 0 < child
  above : up child ≡ pos
  least : IsLeast d child pos heap

itself : (d a : AlarmId) → before a a ≡ false
itself d a = ground arith

smaller-IsTaken :
    (d : AlarmId) (pos : ℕ) (heap : List AlarmId)
    → 2 * pos + 1 < length heap
    → IsTaken d pos (smaller d pos heap) heap
smaller-IsTaken d pos heap h =
    let left = 2 * pos + 1 in
    let a = get_or heap left d in
    let b = get_or heap (left + 1) d in
    let at_left : (c : ℕ) → (c == left) ≡ true → get_or heap c d ≡ a =
      λ c e. ap (λ j. get_or heap j d) (ground (arith, e)) in
    let at_right : (c : ℕ) → up c ≡ pos → 0 < c → (c == left) ≡ false → get_or heap c d ≡ b =
      λ c e p n. ap (λ j. get_or heap j d) (ground (arith, e, p, n)) in
    elim (Bool-cases (ltb (left + 1) (length heap) && not (before a b))) [
      | inl right ↦ simp right (record {
        inside = ground (arith, right);
        positive = omega arith;
        above = omega arith;
        least = λ c p l e. elim (Bool-cases (c == left)) [
          | inl same ↦ ap (λ x. before x b) (at_left c same) ∙ ground (arith, right)
          | inr other ↦ ap (λ x. before x b) (at_right c e p other) ∙ itself d b
        ];
      })
      | inr leaf ↦ simp leaf (record {
        inside = h;
        positive = omega arith;
        above = omega arith;
        least = λ c p l e. elim (Bool-cases (c == left)) [
          | inl same ↦ ap (λ x. before x a) (at_left c same) ∙ itself d a
          | inr other ↦
              let far : (ltb (left + 1) (length heap)) ≡ true = ground (arith, e, p, other, l) in
              ap (λ x. before x a) (at_right c e p other)
              ∙ before-not_before a b (ground (arith, leaf, far))
        ];
      })
    ]

-- The hole at the end of the loop, and what has become of the elements.
pub record Sunk (d : AlarmId) (pos : ℕ) (heap : List AlarmId) (pos' : ℕ) (heap' : List AlarmId)
    : Type 0 where
  pub same_length : length heap' ≡ length heap
  pub inside : pos' < length heap'
  pub around : IsAround d pos' heap'
  pub lowest : length heap' ≤ 2 * pos' + 1
  pub counted :
      (test : AlarmId → Bool)
      → tally test heap' + one_if (test (get_or heap pos d))
        ≡ tally test heap + one_if (test (get_or heap' pos' d))

pub siftup-Sunk :
    (fuel : ℕ) (d : AlarmId) (pos : ℕ) (heap : List AlarmId)
    → length heap ≤ fuel + pos
    → pos < length heap
    → HasGap d pos heap
    → Sunk d pos heap (siftup fuel d pos heap).0 (siftup fuel d pos heap).1
unfolding siftup
siftup-Sunk zero d pos heap f h gap = absurd (omega arith)
siftup-Sunk (suc fuel) d pos heap f h gap = elim (Bool-cases (ltb (2 * pos + 1) (length heap))) [
  | inr leaf ↦ simp leaf (record {
    same_length = refl;
    inside = h;
    around = gap.around;
    lowest = ground (arith, leaf);
    counted = λ test. refl;
  })
  | inl some_below ↦
      let child = smaller d pos heap in
      let t = smaller-IsTaken d pos heap (ground (arith, some_below)) in
      let a = get_or heap child d in
      let s =
        siftup-Sunk fuel d child (set heap pos a)
          (omega (arith, length-set heap pos a, f, t.above, t.positive))
          (omega (arith, length-set heap pos a, t.inside))
          (raised-HasGap d pos child heap t.inside t.positive t.above gap t.least) in
      let apart : (child == pos) ≡ false = ground (arith, t.above, t.positive) in
      simp some_below (record {
        same_length = s.same_length ∙ length-set heap pos a;
        inside = s.inside;
        around = s.around;
        lowest = s.lowest;
        counted = λ test.
            let kept : one_if (test (get_or (set heap pos a) child d)) ≡ one_if (test a) =
              ap (λ x. one_if (test x)) (get_or-set_ne heap pos child a d apart) in
            omega (arith, s.counted test, kept, tally-set test heap pos a d h);
      })
]
