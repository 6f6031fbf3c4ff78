-- ===== src/Messages/Validator/Built.antt =====
-- New messages, as `AbstractBloxrouteMessage.__init__` builds them, before the validator.
use Prim.Native.Nat.{bit_and, bit_or}
use bxcommon.Messages.Message.{bloxroute_message, starting_sequence_bytes, valid_flag}
use bxcommon.Messages.Message.Header.{IsType, header, length-header, framed, marked}
use bxcommon.Messages.Validator.{
  BloxrouteMessageValidator, MessageSizeValidationSettings, first_validating_version,
}
use bxcommon.Messages.Validator.Verdict.{verdict, starting_verdict, length_verdict, flags_verdict}
use bxcommon.Serializers.ShortIds.{ul_int_size_in_bytes}
use bxcommon.Serializers.Wire.{bound}
use bxcommon.Prelude.Bytes.{Bytes, take-append-le, take-append_self}
use bxcommon.Prelude.Result.{Result, ok, ◌>>=◌}
use bxcommon.Prelude.{
  ℕ, zero, suc, ◌+◌, ◌-◌, ◌<◌, ◌≡◌, refl, sym, ap, ◌∙◌, Bool, true, false, ◌&&◌, Option, none, some,
  [], ◌∷◌, ◌++◌, ltb, leb, ◌==◌, length, take, get_elem?, get_elem?-append_ge, get_elem?-append_lt,
  arith, append_assoc, append-nil, length-append, Bool-cases, inl, inr,
}

all_below : ℕ → (ℕ → Bool) → Bool
all_below zero test = true
all_below (suc n) test = test n && all_below n test

all_below_sound :
    (n : ℕ) (test : ℕ → Bool) (x : ℕ) → all_below n test ≡ true → x < n → test x ≡ true
unfolding all_below
all_below_sound zero test x h lt = absurd (omega arith)
all_below_sound (suc n) test x h lt = ground (arith, all_below_sound n test x)

flag_table : all_below 256 (λ x. bit_and (bit_or x valid_flag) valid_flag == valid_flag) ≡ true
unfolding all_below
flag_table = refl

flag_set : (x : ℕ) → x < 256 → (bit_and (bit_or x valid_flag) valid_flag == valid_flag) ≡ true
flag_set x h =
    all_below_sound 256 (λ x. bit_and (bit_or x valid_flag) valid_flag == valid_flag) x flag_table h

abbrev pub AreBytes : Bytes → Type 0
AreBytes [] = Unit {0}
AreBytes (x ∷ xs) = (x < 256) × AreBytes xs

length-marked : (xs : Bytes) → length (marked xs) ≡ length xs
length-marked [] = refl
length-marked (x ∷ []) = refl
length-marked (x ∷ y ∷ xs) = ap suc (length-marked (y ∷ xs))

marked_last :
    (x : ℕ) (xs : Bytes)
    → AreBytes (x ∷ xs)
    → (flags : ℕ) × (get_elem? (marked (x ∷ xs)) (length xs) ≡ some flags)
      × ((bit_and flags valid_flag == valid_flag) ≡ true)
marked_last x [] h = (bit_or x valid_flag, refl, flag_set x h.0)
marked_last x (y ∷ xs) h = marked_last y xs h.1

-- A type and a payload of which a message can be built.
pub record IsBuildable (settings : Option MessageSizeValidationSettings) (t payload : Bytes)
    : Type 0 where
  pub is_type : IsType t
  pub some_payload : 0 < length payload
  pub bytes : AreBytes payload
  pub fits : length payload < bound ul_int_size_in_bytes
  pub within : length_verdict settings (some t) (some (length payload)) ≡ ok tt

-- The bytes of a new message.
abbrev pub built : Bytes → Bytes → Bytes
built t payload = framed starting_sequence_bytes t (length payload) (marked payload)

pub length-built : (t payload : Bytes) → length (built t payload) ≡ 20 + length payload
length-built t payload = omega (
  arith,
  length-append (header t (length payload)) (marked payload),
  length-header t (length payload),
  length-marked payload,
)

pub front :
    (t payload rest : Bytes)
    → take bloxroute_message.header_length (built t payload ++ rest)
      ≡ framed starting_sequence_bytes t (length payload) []
front t payload rest =
    let head = starting_sequence_bytes ++ header t (length payload) in
    let size : length head ≡ 20 = omega (arith, length-header t (length payload)) in
    take-append-le 20 (built t payload) rest (omega (arith, length-built t payload))
    ∙ ap (λ k. take k (head ++ marked payload)) (sym size)
    ∙ take-append_self head (marked payload)
    ∙ sym (append-nil head)

built-starting : (t payload rest : Bytes) → starting_verdict (built t payload ++ rest) ≡ ok tt
built-starting t payload rest = ground arith

last_of_built :
    (t payload rest : Bytes)
    → 0 < length payload
    → AreBytes payload
    → (flags : ℕ) × (get_elem? (built t payload ++ rest) (20 + length payload - 1) ≡ some flags)
      × ((bit_and flags valid_flag == valid_flag) ≡ true)
last_of_built t [] rest h bytes = absurd (omega arith)
last_of_built t (x ∷ xs) rest h bytes =
    let (flags, found, set_) = marked_last x xs bytes in
    let head = starting_sequence_bytes ++ header t (suc (length xs)) in
    let size : length head ≡ 20 = omega (arith, length-header t (suc (length xs))) in
    let at : 20 + suc (length xs) - 1 ≡ 20 + length xs = omega arith in
    let behind : 20 + length xs - length head ≡ length xs = omega (arith, size) in
    let inside : length xs < length (marked (x ∷ xs)) = omega (arith, length-marked (x ∷ xs)) in
    (
      flags,
      ap (get_elem? (built t (x ∷ xs) ++ rest)) at
          ∙ ap (λ all. get_elem? all (20 + length xs)) (append_assoc head (marked (x ∷ xs)) rest)
          ∙ get_elem?-append_ge head (marked (x ∷ xs) ++ rest) (20 + length xs)
              (omega (arith, size))
          ∙ ap (get_elem? (marked (x ∷ xs) ++ rest)) behind
          ∙ get_elem?-append_lt (marked (x ∷ xs)) rest (length xs) inside
          ∙ found,
      set_,
    )

built-flags :
    (t payload rest : Bytes)
    → 0 < length payload
    → AreBytes payload
    → flags_verdict true bloxroute_message.header_length
        (some (length payload))
        (built t payload ++ rest)
      ≡ ok tt
built-flags t payload rest h bytes =
    let (flags, found, set_) = last_of_built t payload rest h bytes in
    let room : ltb (length (built t payload ++ rest)) (20 + length payload) ≡ false =
      ground (arith, length-append (built t payload) rest, length-built t payload) in
    let some_end : ((20 + length payload) == 0) ≡ false = ground arith in
    rw (room, some_end, found, set_)

pub three_ok :
    {a b c : Result (Unit {0})}
    → a ≡ ok tt
    → b ≡ ok tt
    → c ≡ ok tt
    → (a >>= λ _. b >>= λ _. c) ≡ ok tt
three_ok h k l = rw (h, k, l)

pub no_length :
    (settings : Option MessageSizeValidationSettings) → length_verdict settings none none ≡ ok tt
no_length none = refl
no_length (some s) = refl

-- The validator has no objection to a new message.
pub built-verdict :
    (v : BloxrouteMessageValidator) (t payload rest : Bytes)
    → IsBuildable v.size_validation_settings t payload
    → verdict v true
        (some t)
        bloxroute_message.header_length
        (some (length payload))
        (built t payload ++ rest)
      ≡ ok tt
built-verdict v t payload rest h =
    elim (Bool-cases (leb first_validating_version v.connection_protocol_version)) [
      | inl on ↦ rw on (
          three_ok (built-starting t payload rest) h.within
            (built-flags t payload rest h.some_payload h.bytes))
      | inr off ↦ rw off (three_ok refl h.within refl)
    ]
