-- ===== src/Prelude/Sets.antt =====
-- A Python set of numbers, as a list without repetition; its iteration order is the list's.
use Prim.Native.Nat.{ℕ, suc}
use mathlib.Core.Path.{◌≡◌, refl}
use mathlib.Core.Logic.{◌≢◌, inl, inr}
use mathlib.Core.Bool.{Bool, true, false, ◌||◌}
use mathlib.Core.List.{List, [], ◌∷◌, ◌++◌}
use native.Mathlib.Omega.{arith}
use bxcommon.Prelude.Tests.{◌==◌, if◌then◌else◌, Bool-cases}
use bxcommon.Prelude.Lists.{length}

-- `x in s`
abbrev pub elem : ℕ → List ℕ → Bool
elem x [] = false
elem x (y ∷ s) = (x == y) || elem x s

-- `s.add(x)`
abbrev pub add : ℕ → List ℕ → List ℕ
add x s = if elem x s then s else s ++ (x ∷ [])

-- `s.remove(x)` where `x` is there; of a list it removes the first `x`.
abbrev pub discard : ℕ → List ℕ → List ℕ
discard x [] = []
discard x (y ∷ s) = let rest = discard x s in if x == y then s else y ∷ rest

abbrev pub IsSetList : List ℕ → Type 0
IsSetList [] = Unit
IsSetList (x ∷ s) = (elem x s ≡ false) × IsSetList s

pub elem-append : (x : ℕ) (s t : List ℕ) → elem x (s ++ t) ≡ (elem x s || elem x t)
elem-append x [] t = refl
elem-append x (y ∷ s) t = ground (arith, elem-append x s t)

IsSetList-snoc : (x : ℕ) (s : List ℕ) → IsSetList s → elem x s ≡ false → IsSetList (s ++ (x ∷ []))
IsSetList-snoc x [] h e = (refl, tt)
IsSetList-snoc x (y ∷ s) h e = ground (arith, IsSetList-snoc x s h.1, elem-append y s (x ∷ []))

pub elem-add : (x y : ℕ) (s : List ℕ) → elem y (add x s) ≡ ((y == x) || elem y s)
elem-add x y s = ground (arith, elem-append y s (x ∷ []))

pub elem-discard_ne : (x y : ℕ) (s : List ℕ) → y ≢ x → elem y (discard x s) ≡ elem y s
elem-discard_ne x y [] h = refl
elem-discard_ne x y (z ∷ s) h = ground (arith, elem-discard_ne x y s h)

pub elem-discard_self : (x : ℕ) (s : List ℕ) → IsSetList s → elem x (discard x s) ≡ false
elem-discard_self x [] h = refl
elem-discard_self x (z ∷ s) h = ground (arith, elem-discard_self x s)

pub length-discard : (x : ℕ) (s : List ℕ) → elem x s ≡ true → suc (length (discard x s)) ≡ length s
length-discard x [] h = cc
length-discard x (z ∷ s) h = ground (arith, length-discard x s)

pub add-IsSetList : (x : ℕ) (s : List ℕ) → IsSetList s → IsSetList (add x s)
add-IsSetList x s h = elim (Bool-cases (elem x s)) [
  | inl old ↦ rw old h
  | inr new ↦ rw new (IsSetList-snoc x s h new)
]

pub discard-IsSetList : (x : ℕ) (s : List ℕ) → IsSetList s → IsSetList (discard x s)
discard-IsSetList x [] h = tt
discard-IsSetList x (z ∷ s) h = ground (arith, discard-IsSetList x s h.1, elem-discard_ne x z s)

pub add-ne-nil : (x : ℕ) (s : List ℕ) → add x s ≢ []
add-ne-nil x [] = ground arith
add-ne-nil x (y ∷ s) = ground arith

pub discard_absent : (x : ℕ) (s : List ℕ) → elem x s ≡ false → discard x s ≡ s
discard_absent x [] h = refl
discard_absent x (y ∷ s) h = ground (arith, discard_absent x s)
