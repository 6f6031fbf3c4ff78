-- ===== src/Messages/Validator/Verdict.antt =====
-- When the validator lets the front of an input buffer pass.
use Prim.Native.Nat.{bit_and}
use bxcommon.Buffers.Input.{InputBuffer, get_item, same_bytes}
use bxcommon.Buffers.Input.Contents.{contents, IsCounted}
use bxcommon.Buffers.Input.Methods.{get_slice_lem}
use bxcommon.Messages.Message.{starting_sequence_bytes, starting_sequence_bytes_len, valid_flag}
use bxcommon.Messages.Validator.{
  BloxrouteMessageValidator, MessageSizeValidationSettings, validate, validate_starting_sequence,
  validate_payload_length, validate_control_flags, byte_before, max_payload_len,
  first_validating_version,
}
use bxcommon.Prelude.Bytes.{Bytes, slice}
use bxcommon.Prelude.Int.{pos}
use bxcommon.Prelude.Result.{
  Result, ok, err, assertion_error, index_error, control_flag_validation_error,
  message_validation_error, ◌>>=◌,
}
use bxcommon.Prelude.{
  get_elem?, ◌-◌, ℕ, zero, suc, ◌+◌, ◌≤◌, ◌≡◌, refl, sym, ap, ◌∙◌, Bool, true, false, Option, none,
  some, [], ◌∷◌, ltb, leb, ◌==◌, Bool-cases, inl, inr, length, take, if◌then◌else◌, arith,
}

pub same_bytes_refl : (xs : Bytes) → same_bytes xs xs ≡ true
same_bytes_refl [] = refl
same_bytes_refl (x ∷ xs) = ground (arith, same_bytes_refl xs)

-- A buffer that holds what another does.
pub record SameContents (b b' : InputBuffer) : Type 0 where
  pub same : contents b' ≡ contents b
  pub counted : IsCounted b'

record_same :
    (b b' : InputBuffer)
    → IsCounted b
    → contents b' ≡ contents b
    → b'.length ≡ b.length
    → SameContents b b'
record_same b b' valid same len = record {
  same = same;
  counted = len ∙ valid ∙ ap (λ xs. pos (length xs)) (sym same);
}

-- `validate_starting_sequence`, as a function of the bytes.
abbrev pub starting_verdict : Bytes → Result (Unit {0})
starting_verdict all =
    if ltb (length all) starting_sequence_bytes_len
    then ok tt
    else (if same_bytes (take starting_sequence_bytes_len all) starting_sequence_bytes
        then ok tt
        else err message_validation_error)

validate_starting_sequence-verdict :
    (b : InputBuffer)
    → IsCounted b
    → (b' : InputBuffer) × (validate_starting_sequence b
        ≡ (starting_verdict (contents b) >>= λ _. ok b'))
      × SameContents b b'
unfolding validate_starting_sequence get_item
validate_starting_sequence-verdict b valid =
    elim (Bool-cases (ltb (length (contents b)) starting_sequence_bytes_len)) [
      | inl short ↦ (b, ground (arith, short, valid), record { same = refl; counted = valid })
      | inr long ↦
          let (p, b', run, front, same, len) =
            get_slice_lem 0 starting_sequence_bytes_len b valid (ground arith) (omega arith)
              (ground arith) in
          (
            b',
            ground
                (arith, long, valid, run, ap (λ xs. same_bytes xs starting_sequence_bytes) front),
            record_same b b' valid same len,
          )
    ]

slice_one :
    (k : ℕ) (xs : Bytes)
    → suc k ≤ length xs
    → (x : ℕ) × (get_elem? xs k ≡ some x) × (slice k (suc k) xs ≡ x ∷ [])
slice_one k [] h = absurd (omega arith)
slice_one zero (x ∷ xs) h = (x, refl, refl)
slice_one (suc k) (x ∷ xs) h = slice_one k xs (omega arith)

byte_before-zero : (b : InputBuffer) → byte_before 0 b ≡ err index_error
unfolding byte_before
byte_before-zero b = refl

byte_before_lem :
    (k : ℕ) (b : InputBuffer)
    → IsCounted b
    → suc k ≤ length (contents b)
    → (flags : ℕ) × (b' : InputBuffer) × (byte_before (suc k) b ≡ ok (flags, b'))
      × (get_elem? (contents b) k ≡ some flags)
      × SameContents b b'
unfolding byte_before get_item
byte_before_lem k b valid room =
    let (p, b', run, front, same, len) =
      get_slice_lem k (suc k) b valid (omega arith) (omega arith) room in
    let (flags, found, cut) = slice_one k (contents b) room in
    (flags, b', ground (arith, valid, run, front, cut), found, record_same b b' valid same len)

-- `validate_control_flags`, as a function of the bytes: the last byte of the message has the flag.
abbrev pub flags_verdict : Bool → ℕ → Option ℕ → Bytes → Result (Unit {0})
flags_verdict false header_len payload_len all = ok tt
flags_verdict true header_len none all = err assertion_error
flags_verdict true header_len (some payload_len) all =
    let end = header_len + payload_len in
    if ltb (length all) end
    then err message_validation_error
    else (if end == 0 then err index_error else elim (get_elem? all (end - 1)) [
      | none ↦ err index_error
      | some flags ↦
          if bit_and flags valid_flag == valid_flag
          then ok tt
          else err control_flag_validation_error
    ])

validate_control_flags-verdict :
    (full : Bool) (header_len : ℕ) (payload_len : Option ℕ) (b : InputBuffer)
    → IsCounted b
    → (b' : InputBuffer) × (validate_control_flags full header_len payload_len b
        ≡ (flags_verdict full header_len payload_len (contents b) >>= λ _. ok b'))
      × SameContents b b'
unfolding validate_control_flags
validate_control_flags-verdict false header_len payload_len b valid =
    (b, refl, record { same = refl; counted = valid })
validate_control_flags-verdict true header_len none b valid =
    (b, refl, record { same = refl; counted = valid })
validate_control_flags-verdict true header_len (some payload_len) b valid =
    let end = header_len + payload_len in
    let unchanged : SameContents b b = record { same = refl; counted = valid } in
    elim (Bool-cases (ltb (length (contents b)) end)) [
      | inl short ↦ (b, ground (arith, short, valid), unchanged)
      | inr whole ↦ elim (Bool-cases (end == 0)) [
        | inl empty ↦
            let none_before : byte_before end b ≡ err index_error =
              let e : end ≡ 0 = ground arith in ap (λ k. byte_before k b) e ∙ byte_before-zero b in
            (b, ground (arith, whole, empty, valid, none_before), unchanged)
        | inr some_byte ↦
            let (flags, b', run, found, same) = byte_before_lem (end - 1) b valid (ground arith) in
            let run' : byte_before end b ≡ ok (flags, b') =
              let e : end ≡ suc (end - 1) = ground arith in ap (λ k. byte_before k b) e ∙ run in
            (b', ground (arith, whole, some_byte, valid, run', found), same)
      ]
    ]

-- What the validator decides, as a function of the bytes in the buffer: first of the starting
-- sequence, then of the payload's length, then of the control flags.
abbrev pub length_verdict :
    Option MessageSizeValidationSettings → Option Bytes → Option ℕ → Result (Unit {0})
length_verdict (some settings) (some msg_type) (some payload_len) =
    if ltb (max_payload_len settings msg_type) payload_len
    then err message_validation_error
    else ok tt
length_verdict _ _ _ = ok tt

abbrev pub verdict :
    BloxrouteMessageValidator → Bool → Option Bytes → ℕ → Option ℕ → Bytes → Result (Unit {0})
verdict v full msg_type header_len payload_len all =
    let validating = leb first_validating_version v.connection_protocol_version in
    do
      _ ← if validating then starting_verdict all else ok tt
      _ ← length_verdict v.size_validation_settings msg_type payload_len
      if validating then flags_verdict full header_len payload_len all else ok tt

validate_payload_length-verdict :
    (settings : Option MessageSizeValidationSettings) (msg_type : Option Bytes)
    (payload_len : Option ℕ) (b : InputBuffer)
    → (elim settings [ none ↦ ok b | some s ↦ validate_payload_length s msg_type payload_len b ])
      ≡ (length_verdict settings msg_type payload_len >>= λ _. ok b)
unfolding validate_payload_length
validate_payload_length-verdict none msg_type payload_len b = refl
validate_payload_length-verdict (some s) none payload_len b = refl
validate_payload_length-verdict (some s) (some t) none b = refl
validate_payload_length-verdict (some s) (some t) (some n) b = ground arith

-- Three checks in a row that each give the verdict of the bytes.
three_checks :
    {first : Result InputBuffer} (second third : InputBuffer → Result InputBuffer)
    (r1 r2 r3 : Result (Unit {0})) (b1 b2 : InputBuffer)
    → first ≡ (r1 >>= λ _. ok b1)
    → second b1 ≡ (r2 >>= λ _. ok b1)
    → third b1 ≡ (r3 >>= λ _. ok b2)
    → (first >>= λ x. second x >>= λ y. third y) ≡ ((r1 >>= λ _. r2 >>= λ _. r3) >>= λ _. ok b2)
three_checks second third (err e) r2 r3 b1 b2 h1 h2 h3 = rw h1
three_checks second third (ok _) (err e) r3 b1 b2 h1 h2 h3 = rw (h1, h2)
three_checks second third (ok _) (ok _) r3 b1 b2 h1 h2 h3 = rw (h1, h2) h3

-- On every input buffer `validate` gives the verdict of the bytes, and keeps them.
pub validate-verdict :
    (v : BloxrouteMessageValidator) (full : Bool) (msg_type : Option Bytes) (header_len : ℕ)
    (payload_len : Option ℕ) (b : InputBuffer)
    → IsCounted b
    → (b' : InputBuffer) × (validate v full msg_type header_len payload_len b
        ≡ (verdict v full msg_type header_len payload_len (contents b) >>= λ _. ok b'))
      × SameContents b b'
unfolding validate
validate-verdict v full msg_type header_len payload_len b valid =
    let length_step =
      validate_payload_length-verdict v.size_validation_settings msg_type payload_len in
    let r2 = length_verdict v.size_validation_settings msg_type payload_len in
    let second : InputBuffer → Result InputBuffer = λ x. elim v.size_validation_settings [
      | none ↦ ok x
      | some settings ↦ validate_payload_length settings msg_type payload_len x
    ] in
    let (b1, first, same1) = validate_starting_sequence-verdict b valid in
    let (b2, last, same2) =
      validate_control_flags-verdict full header_len payload_len b1 same1.counted in
    let last' =
      last ∙ ap (λ all. flags_verdict full header_len payload_len all >>= λ _. ok b2) same1.same in
    elim (Bool-cases (leb first_validating_version v.connection_protocol_version)) [
      | inl on ↦ (
        b2,
        rw on (
            three_checks second (validate_control_flags full header_len payload_len)
              (starting_verdict (contents b)) r2
              (flags_verdict full header_len payload_len (contents b)) b1 b2 first (length_step b1)
              last'),
        record { same = same2.same ∙ same1.same; counted = same2.counted },
      )
      | inr off ↦ (
        b,
        rw off (three_checks second ok (ok tt) r2 (ok tt) b b refl (length_step b) refl),
        record { same = refl; counted = valid },
      )
    ]
