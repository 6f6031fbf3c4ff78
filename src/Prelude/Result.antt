-- ===== src/Prelude/Result.antt =====
-- Python exceptions as values. A call that raises gives up the state that it had reached.
use mathlib.Core.Path.{◌≡◌, refl}

pub data Error : Type 0 where
  key_error value_error type_error index_error assertion_error struct_error attribute_error
        parse_error unrecognized_command_error payload_len_error unauthorized_message_error
        message_validation_error control_flag_validation_error non_version_message_error
        memory_error runtime_error :
      Error

pub data Result {ℓ} (Value : Type ℓ) : Type ℓ where
  err : Error → Result Value
  ok : Value → Result Value

infixl 5 ◌>>=◌
abbrev pub ◌>>=◌ {ℓ κ} : {A : Type ℓ} {B : Type κ} → Result A → (A → Result B) → Result B
◌>>=◌ call next = elim call [ err raised ↦ err raised | ok value ↦ next value ]

-- A chain returned: its first call did, and so did what came next.
pub >>=-eq-ok {ℓ κ} :
    {A : Type ℓ} {B : Type κ} (call : Result A) (next : A → Result B) {result : B}
    → (call >>= next) ≡ ok result
    → (value : A) × (call ≡ ok value) × (next value ≡ ok result)
>>=-eq-ok (err raised) next returned = cc
>>=-eq-ok (ok value) next returned = (value, refl, returned)

pub >>=_assoc {ℓ κ υ} :
    {A : Type ℓ} {B : Type κ} {C : Type υ} (call : Result A) (next : A → Result B)
    (last : B → Result C)
    → (call >>= next >>= last) ≡ (call >>= λ a. next a >>= last)
>>=_assoc (err raised) next last = refl
>>=_assoc (ok value) next last = refl
