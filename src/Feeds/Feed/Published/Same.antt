-- ===== src/Feeds/Feed/Published/Same.antt =====
-- Subscribers with the same options include the same fields.
use bxcommon.Feeds.Subscriber.{Key, Include, same_include, same_keys, same_inner}
use bxcommon.Prelude.{
  ℕ, ◌≡◌, refl, ap, Bool, true, false, ◌&&◌, Option, none, some, List, [], ◌∷◌, ◌==◌, arith,
}

and-true : (a b : Bool) → (a && b) ≡ true → (a ≡ true) × (b ≡ true)
and-true true b h = (refl, h)
and-true false b h = cc

same_inner-eq : (a b : Option ℕ) → same_inner a b ≡ true → a ≡ b
same_inner-eq none none h = refl
same_inner-eq none (some b) h = cc
same_inner-eq (some a) none h = cc
same_inner-eq (some a) (some b) h = ap some (ground (arith, h))

same_keys-eq : (xs ys : List Key) → same_keys xs ys ≡ true → xs ≡ ys
same_keys-eq [] [] h = refl
same_keys-eq [] (y ∷ ys) h = cc
same_keys-eq (x ∷ xs) [] h = cc
same_keys-eq (x ∷ xs) (y ∷ ys) h =
    let (field, rest) = and-true (x.field == y.field) _ h in
    let (inner, others) = and-true (same_inner x.inner y.inner) _ rest in
    let f : x.field ≡ y.field = ground (arith, field) in
    let g : x.inner ≡ y.inner = same_inner-eq x.inner y.inner inner in
    let first : x ≡ y = λ i. record { field = f i; inner = g i } in
    λ i. first i ∷ same_keys-eq xs ys others i

pub same_include-eq : (a b : Include) → same_include a b ≡ true → a ≡ b
same_include-eq none none h = refl
same_include-eq none (some b) h = cc
same_include-eq (some a) none h = cc
same_include-eq (some a) (some b) h = ap some (same_keys-eq a b h)
