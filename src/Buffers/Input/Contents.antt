-- ===== src/Buffers/Input/Contents.antt =====
-- The byte string in an `InputBuffer`, and `_shrink_if_needed`, which splits it anew.
use mathlib.Core.Path.{subst}
use bxcommon.Prelude.Int.{pos}
use bxcommon.Prelude.Bytes.{Bytes}
use bxcommon.Prelude.{
  ℕ, ◌≤◌, ◌<◌, ◌≡◌, refl, sym, ap, ◌∙◌, Bool, true, ◌||◌, List, [], ◌∷◌, ◌++◌, ltb, length, arith,
  append_assoc, append-nil, Bool-cases, inl, inr, List-cases,
}
use bxcommon.Buffers.Input.{Piece, InputBuffer, extend_head, shrink_if_needed}

abbrev pub bytes_of : List Piece → Bytes
bytes_of [] = []
bytes_of (p ∷ ps) = p.bytes ++ bytes_of ps

-- What the buffer holds.
abbrev pub contents : InputBuffer → Bytes
contents b = bytes_of b.input_list

-- The length is that of the contents.
abbrev pub IsCounted : InputBuffer → Type 0
IsCounted b = b.length ≡ pos (length (contents b))

pub bytes_of-append : (ps qs : List Piece) → bytes_of (ps ++ qs) ≡ bytes_of ps ++ bytes_of qs
bytes_of-append [] qs = refl
bytes_of-append (p ∷ ps) qs =
    ap (◌++◌ p.bytes) (bytes_of-append ps qs)
    ∙ sym (append_assoc p.bytes (bytes_of ps) (bytes_of qs))

-- A first piece that holds at least `end` bytes, before pieces that hold the rest.
pub record Reaches (end : ℕ) (all : Bytes) (ps : List Piece) : Type 0 where
  pub head : Piece
  pub rest : List Piece
  pub split : ps ≡ head ∷ rest
  pub whole : head.bytes ++ bytes_of rest ≡ all
  pub enough : end ≤ length head.bytes

extend_head-Reaches :
    (end : ℕ) (head : Bytes) (ps : List Piece)
    → end ≤ length (head ++ bytes_of ps)
    → Reaches end (head ++ bytes_of ps) (extend_head end head ps)
unfolding extend_head
extend_head-Reaches end head [] h = record {
  head = record { is_bytearray = true; bytes = head };
  rest = [];
  split = refl;
  whole = refl;
  enough = subst (λ xs. end ≤ length xs) (append-nil head) h;
}
extend_head-Reaches end head (p ∷ ps) h = elim (Bool-cases (ltb (length head) end)) [
  | inl short ↦ rw short (
      subst (λ all. Reaches end all (extend_head end (head ++ p.bytes) ps))
        (append_assoc head p.bytes (bytes_of ps))
        (extend_head-Reaches end (head ++ p.bytes) ps
          (rw (append_assoc head p.bytes (bytes_of ps)) h)))
  | inr long ↦ rw long (record {
    head = record { is_bytearray = true; bytes = head };
    rest = p ∷ ps;
    split = refl;
    whole = refl;
    enough = ground arith;
  })
]

pub shrink-Reaches :
    (end : ℕ) (ensure : Bool) (b : InputBuffer)
    → end ≤ length (contents b)
    → 0 < length (contents b)
    → Reaches end (contents b) (shrink_if_needed end ensure b).input_list
unfolding shrink_if_needed
shrink-Reaches end ensure b h full = elim (List-cases b.input_list) [
  | inl empty ↦ absurd (omega (arith, ap (λ ps. length (bytes_of ps)) empty))
  | inr (p, ps, e) ↦ elim (Bool-cases (ltb (length p.bytes) end || ensure)) [
    | inl more ↦
        rw (e, shrink_if_needed, more)
          (extend_head-Reaches end p.bytes ps (omega (arith, ap (λ ps. length (bytes_of ps)) e)))
    | inr fine ↦
        rw (e, shrink_if_needed, fine)
          (record { head = p; rest = ps; split = e; whole = refl; enough = ground arith })
  ]
]

pub shrink-length :
    (end : ℕ) (ensure : Bool) (b : InputBuffer) → (shrink_if_needed end ensure b).length ≡ b.length
unfolding shrink_if_needed
shrink-length end ensure b = ground arith

extend_head-bytes :
    (end : ℕ) (head : Bytes) (ps : List Piece)
    → bytes_of (extend_head end head ps) ≡ head ++ bytes_of ps
unfolding extend_head
extend_head-bytes end head [] = refl
extend_head-bytes end head (p ∷ ps) =
    ground
      (arith, extend_head-bytes end (head ++ p.bytes) ps, append_assoc head p.bytes (bytes_of ps))

pub shrink-contents :
    (end : ℕ) (ensure : Bool) (b : InputBuffer)
    → contents (shrink_if_needed end ensure b) ≡ contents b
unfolding shrink_if_needed
shrink-contents end ensure b = elim (List-cases b.input_list) [
  | inl empty ↦ ground arith
  | inr (p, ps, e) ↦ ground (arith, extend_head-bytes end p.bytes ps)
]
