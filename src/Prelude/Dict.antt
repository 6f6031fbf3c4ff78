-- ===== src/Prelude/Dict.antt =====
-- A Python dict or OrderedDict, in insertion order. A key is a number that stands for the hashable
-- value of the source: keys are only ever compared.
use Prim.Native.Nat.{ℕ, ◌≤◌}
use mathlib.Core.Path.{◌≡◌, refl}
use mathlib.Core.Bool.{Bool, true, false}
use mathlib.Core.Option.{Option, none, some}
use mathlib.Core.List.{List, [], ◌∷◌}
use native.Mathlib.Omega.{arith}
use bxcommon.Prelude.Tests.{◌==◌, if◌then◌else◌}
use bxcommon.Prelude.Lists.{length}

abbrev pub Dict {ℓ} : Type ℓ → Type ℓ
Dict Value = List (ℕ × Value)

module _ {ℓ} {V : Type ℓ} where
  abbrev pub lookup : ℕ → Dict V → Option V
  lookup key [] = none
  lookup key ((other, value) ∷ rest) = if key == other then some value else lookup key rest

  -- `d[key] = value`: a key that is there keeps its place.
  abbrev pub insert : ℕ → V → Dict V → Dict V
  insert key value [] = (key, value) ∷ []
  insert key value ((other, old) ∷ rest) =
      if key == other then (other, value) ∷ rest else (other, old) ∷ insert key value rest

  -- `del d[key]`, and nothing where the key is missing.
  abbrev pub erase : ℕ → Dict V → Dict V
  erase key [] = []
  erase key ((other, old) ∷ rest) =
      let below = erase key rest in if key == other then below else (other, old) ∷ below

  -- `key in d`
  abbrev pub contains : ℕ → Dict V → Bool
  contains key d = elim (lookup key d) [ some _ ↦ true | none ↦ false ]

  -- `d.get(k, default)`
  abbrev pub get_or : V → Option V → V
  get_or v none = v
  get_or v (some w) = w

  -- A dict holds a key once.
  abbrev pub IsDistinct : Dict V → Type ℓ
  IsDistinct [] = Unit
  IsDistinct ((k, v) ∷ d) = (lookup k d ≡ none) × IsDistinct d

  pub lookup-insert :
      (k j : ℕ) (v : V) (d : Dict V)
      → lookup j (insert k v d) ≡ (if j == k then some v else lookup j d)
  lookup-insert k j v [] = refl
  lookup-insert k j v ((i, w) ∷ d) = ground (arith, lookup-insert k j v d)

  pub lookup-erase :
      (k j : ℕ) (d : Dict V) → lookup j (erase k d) ≡ (if j == k then none else lookup j d)
  lookup-erase k j [] = ground arith
  lookup-erase k j ((i, w) ∷ d) = ground (arith, lookup-erase k j d)

  pub erase_absent : (k : ℕ) (d : Dict V) → lookup k d ≡ none → erase k d ≡ d
  erase_absent k [] h = refl
  erase_absent k ((i, w) ∷ d) h = ground (arith, erase_absent k d)

  pub length-erase-le : (k : ℕ) (d : Dict V) → length (erase k d) ≤ length d
  length-erase-le k [] = omega arith
  length-erase-le k ((i, w) ∷ d) = ground (arith, length-erase-le k d)

  pub insert-IsDistinct : (k : ℕ) (v : V) (d : Dict V) → IsDistinct d → IsDistinct (insert k v d)
  insert-IsDistinct k v [] h = (refl, tt)
  insert-IsDistinct k v ((i, w) ∷ d) h =
      ground (arith, insert-IsDistinct k v d, lookup-insert k i v d)

  pub erase-IsDistinct : (k : ℕ) (d : Dict V) → IsDistinct d → IsDistinct (erase k d)
  erase-IsDistinct k [] h = tt
  erase-IsDistinct k ((i, w) ∷ d) h = ground (arith, erase-IsDistinct k d, lookup-erase k i d)

  pub erase-insert : (k : ℕ) (v : V) (d : Dict V) → lookup k d ≡ none → erase k (insert k v d) ≡ d
  erase-insert k v [] h = ground arith
  erase-insert k v ((i, w) ∷ d) h = ground (arith, erase-insert k v d)

  pub insert-insert : (k : ℕ) (v w : V) (d : Dict V) → insert k w (insert k v d) ≡ insert k w d
  insert-insert k v w [] = ground arith
  insert-insert k v w ((i, u) ∷ d) = ground (arith, insert-insert k v w d)

  pub insert-lookup : (k : ℕ) (v : V) (d : Dict V) → lookup k d ≡ some v → insert k v d ≡ d
  insert-lookup k v [] h = cc
  insert-lookup k v ((i, w) ∷ d) h = ground (arith, insert-lookup k v d)
