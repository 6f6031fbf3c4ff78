-- ===== src/Rlp/BigEndian.antt =====
-- Numbers as bytes, the highest first.
use bxcommon.Rlp.{
  bits, bit_length, byte_length, to_big, from_big, int_to_big_endian, big_endian_to_int,
}
use bxcommon.Serializers.Wire.{bound}
use bxcommon.Prelude.Bytes.{Bytes}
use bxcommon.Prelude.{
  ℕ, zero, suc, ◌+◌, ◌*◌, ◌/◌, ◌%◌, ◌<◌, ◌≤◌, ◌≡◌, refl, ap, ◌∙◌, false, [], ◌∷◌, ◌++◌, ltb, ◌==◌,
  length, arith, Bool-cases, inl, inr, length-append,
}

bits_enough : (n m value : ℕ) → value ≤ n → value ≤ m → bits n value ≡ bits m value
unfolding bits
bits_enough zero zero value h g = refl
bits_enough zero (suc m) value h g = ground arith
bits_enough (suc n) zero value h g = ground arith
bits_enough (suc n) (suc m) value h g = elim (Bool-cases (value == 0)) [
  | inl none_ ↦ rw none_ refl
  | inr some_ ↦ rw some_ (ap suc (bits_enough n m (value / 2) (ground arith) (ground arith)))
]

bit_length_half : (value : ℕ) → 0 < value → bit_length value ≡ suc (bit_length (value / 2))
unfolding bit_length bits
bit_length_half zero h = absurd (omega arith)
bit_length_half (suc n) h =
    let not_zero : (suc n == 0) ≡ false = ground arith in
    rw not_zero (ap suc (bits_enough n (suc n / 2) (suc n / 2) (omega arith) (omega arith)))

bit_length_16 : (value : ℕ) → 16 ≤ value → bit_length value ≡ 4 + bit_length (value / 16)
bit_length_16 value h =
    let one = bit_length_half value (omega arith) in
    let two = bit_length_half (value / 2) (omega arith) in
    let three = bit_length_half (value / 2 / 2) (omega arith) in
    let four = bit_length_half (value / 2 / 2 / 2) (omega arith) in
    let e : value / 2 / 2 / 2 / 2 ≡ value / 16 = omega arith in
    omega (arith, one, two, three, four, ap bit_length e)

bit_length_256 : (value : ℕ) → 256 ≤ value → bit_length value ≡ 8 + bit_length (value / 256)
bit_length_256 value h =
    let e : value / 16 / 16 ≡ value / 256 = omega arith in
    omega (
      arith,
      bit_length_16 value (omega arith),
      bit_length_16 (value / 16) (omega arith),
      ap bit_length e,
    )

power : ℕ → ℕ
power zero = 1
power (suc k) = 2 * power k

bit_length_le : (k value : ℕ) → value < power k → bit_length value ≤ k
unfolding power bit_length bits
bit_length_le zero zero h = omega arith
bit_length_le zero (suc n) h = absurd (omega arith)
bit_length_le (suc k) zero h = omega arith
bit_length_le (suc k) (suc n) h =
    omega (arith, bit_length_half (suc n) (omega arith), bit_length_le k (suc n / 2) (omega arith))

pub byte_length_small : (value : ℕ) → value < 256 → byte_length value ≡ 1
unfolding byte_length power
byte_length_small value h = ground (arith, bit_length_le 8 value h)

pub byte_length_256 :
    (value : ℕ) → 256 ≤ value → byte_length value ≡ suc (byte_length (value / 256))
unfolding byte_length
byte_length_256 value h =
    ground (arith, bit_length_256 value h, bit_length_half (value / 256) (omega arith))

pub length-to_big : (size value : ℕ) → length (to_big size value) ≡ size
unfolding to_big
length-to_big zero value = refl
length-to_big (suc size) value = omega (
  arith,
  length-append (to_big size (value / 256)) ((value % 256) ∷ []),
  length-to_big size (value / 256),
)

from_big-append :
    (acc b : ℕ) (bs : Bytes) → from_big acc (bs ++ (b ∷ [])) ≡ 256 * from_big acc bs + b
unfolding from_big
from_big-append acc b [] = refl
from_big-append acc b (c ∷ bs) = from_big-append (256 * acc + c) b bs

pub from_big-to_big : (size value : ℕ) → value < bound size → from_big 0 (to_big size value) ≡ value
unfolding from_big to_big
from_big-to_big zero value h = omega arith
from_big-to_big (suc size) value h =
    from_big-append 0 (value % 256) (to_big size (value / 256))
    ∙ omega (arith, from_big-to_big size (value / 256) (omega arith))

fits_fuel : (n value : ℕ) → value ≤ n → value < bound (byte_length value)
fits_fuel zero value h = rw (byte_length_small value (omega arith)) (omega arith)
fits_fuel (suc n) value h = elim (Bool-cases (ltb value 256)) [
  | inl small ↦ rw (byte_length_small value (ground arith)) (ground arith)
  | inr large ↦
      rw (byte_length_256 value (ground arith))
        (omega (arith, fits_fuel n (value / 256) (ground arith)))
]

-- A number is what its bytes stand for.
pub big_endian_to_int-int_to_big_endian :
    (value : ℕ) → big_endian_to_int (int_to_big_endian value) ≡ value
unfolding big_endian_to_int int_to_big_endian
big_endian_to_int-int_to_big_endian value =
    from_big-to_big (byte_length value) value (fits_fuel value value (omega arith))

-- The bytes of a number above 0 do not begin with 0.
abbrev pub Headed : Bytes → Type 0
Headed s = (b : ℕ) × (rest : Bytes) × (s ≡ b ∷ rest) × (0 < b) × (b < 256)

Headed-fuel : (n value : ℕ) → value ≤ n → 0 < value → Headed (int_to_big_endian value)
unfolding int_to_big_endian to_big
Headed-fuel zero value h p = absurd (omega arith)
Headed-fuel (suc n) value h p = elim (Bool-cases (ltb value 256)) [
  | inl small ↦ (
    value,
    [],
    rw (byte_length_small value (ground arith)) (ap (λ b. b ∷ []) (ground arith)),
    p,
    ground arith,
  )
  | inr large ↦
      let (b, rest, e, low, high) = Headed-fuel n (value / 256) (ground arith) (ground arith) in
      (
        b,
        rest ++ ((value % 256) ∷ []),
        rw (byte_length_256 value (ground arith)) (ap (λ bs. bs ++ ((value % 256) ∷ [])) e),
        low,
        high,
      )
]

pub int_to_big_endian-Headed : (value : ℕ) → 0 < value → Headed (int_to_big_endian value)
int_to_big_endian-Headed value h = Headed-fuel value value (omega arith) h

pub byte_length_le : (k value : ℕ) → value < bound (suc k) → byte_length value ≤ suc k
byte_length_le zero value h = omega (arith, byte_length_small value (omega arith))
byte_length_le (suc k) value h = elim (Bool-cases (ltb value 256)) [
  | inl small ↦ omega (arith, byte_length_small value (ground arith))
  | inr large ↦
      omega
        (arith, byte_length_256 value (ground arith), byte_length_le k (value / 256) (omega arith))
]

pub byte_length_positive : (value : ℕ) → 0 < byte_length value
unfolding byte_length
byte_length_positive value = ground arith

pub length-int_to_big_endian : (value : ℕ) → length (int_to_big_endian value) ≡ byte_length value
unfolding int_to_big_endian
length-int_to_big_endian value = length-to_big (byte_length value) value
