-- ===== src/Connections/Pool/Grown.antt =====
-- The list of connections by file number in `ConnectionPool`, which `add` makes longer.
use bxcommon.Prelude.{
  ℕ, zero, suc, ◌+◌, ◌-◌, ◌*◌, ◌<◌, ◌≡◌, refl, sym, ap, ◌∙◌, false, Option, none, some, List, ◌++◌,
  leb, length, replicate, get_elem?, arith, Bool-cases, inl, inr, replicate_add, append_assoc,
  append-nil, length-append, length-replicate, get_elem?-append_ge, get_elem?-append_lt,
  get_elem?-replicate,
}
use bxcommon.Connections.Pool.{ConnectionPool, extend_fileno}
use bxcommon.Connections.Pool.Queries.{get_by_fileno}

-- The list is as long as `len_fileno` says.
abbrev pub IsSized : ConnectionPool → Type 0
IsSized pool = length pool.by_fileno ≡ pool.len_fileno

-- The pool with `n` more empty entries.
abbrev pub grown : ℕ → ConnectionPool → ConnectionPool
grown n pool = record pool {
  by_fileno = pool.by_fileno ++ replicate n none;
  len_fileno = pool.len_fileno + n;
}

pub grown-IsSized : (n : ℕ) (pool : ConnectionPool) → IsSized pool → IsSized (grown n pool)
grown-IsSized n pool sized =
    let entries : List (Option ℕ) = replicate n none in
    let vacant : Option ℕ = none in
    let size : length entries ≡ n = length-replicate n vacant in
    omega (arith, sized, length-append pool.by_fileno entries, size)

grown-zero : (pool : ConnectionPool) → grown 0 pool ≡ pool
grown-zero pool = ground (arith, append-nil pool.by_fileno)

grown-grown : (m n : ℕ) (pool : ConnectionPool) → grown n (grown m pool) ≡ grown (m + n) pool
grown-grown m n pool =
    let tail : (pool.by_fileno ++ replicate m none) ++ replicate n none
        ≡ pool.by_fileno ++ replicate (m + n) none =
      append_assoc pool.by_fileno (replicate m none) (replicate n none)
      ∙ ap (◌++◌ pool.by_fileno) (sym (replicate_add m n none)) in
    ground (arith, tail)

-- Enough fuel: the loop ends with room for the file number.
pub extend_fileno-grown :
    (fuel fileno : ℕ) (pool : ConnectionPool)
    → fileno < pool.len_fileno + fuel * 100
    → (n : ℕ) × (extend_fileno fuel fileno pool ≡ grown n pool) × (fileno < pool.len_fileno + n)
unfolding extend_fileno
extend_fileno-grown zero fileno pool h = (0, sym (grown-zero pool), omega arith)
extend_fileno-grown (suc fuel) fileno pool h = elim (Bool-cases (leb pool.len_fileno fileno)) [
  | inl short ↦
      let (n, run, room) = extend_fileno-grown fuel fileno (grown 100 pool) (omega arith) in
      (100 + n, rw short (run ∙ grown-grown 100 n pool), omega (arith, room))
  | inr long ↦ (0, rw long (sym (grown-zero pool)), ground arith)
]

-- More empty entries change nothing that `get_by_fileno` says.
pub get_by_fileno-grown :
    (n j : ℕ) (pool : ConnectionPool)
    → IsSized pool
    → get_by_fileno j (grown n pool) ≡ get_by_fileno j pool
unfolding get_by_fileno
get_by_fileno-grown n j pool sized = elim (Bool-cases (leb pool.len_fileno j)) [
  | inr inside ↦
      let same =
        get_elem?-append_lt pool.by_fileno (replicate n none) j (ground (arith, inside, sized)) in
      let before : leb (pool.len_fileno + n) j ≡ false = ground (arith, inside) in
      rw (inside, before, same) refl
  | inl outside ↦ elim (Bool-cases (leb (pool.len_fileno + n) j)) [
    | inl beyond ↦ rw (outside, beyond) refl
    | inr new ↦
        let e : get_elem? (pool.by_fileno ++ replicate n none) j ≡ some none =
          get_elem?-append_ge pool.by_fileno (replicate n none) j (ground (arith, outside, sized))
          ∙ get_elem?-replicate n none (j - length pool.by_fileno) (ground (arith, new, sized)) in
        rw (outside, new, e) refl
  ]
]
