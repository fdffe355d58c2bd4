-- ===== src/Errors.antt =====
-- src/pymod/errors.py, and the result of a Python call that may raise.
-- A message is not modelled: an exception is its class and, for a Modbus exception response, its code.
use pymod.Prelude.{
  ℕ, ◌≡◌, refl, ◌⊎◌, inl, inr, ◌==◌, arith, Bool, true, false, Option, none, some, if◌then◌else◌,
}

-- The subclasses of `ModbusExceptionResponse`.
pub data ExceptionClass : Type 0 where
  illegal_function illegal_data_address illegal_data_value slave_device_failure : ExceptionClass
  acknowledge slave_device_busy memory_parity_error : ExceptionClass
  gateway_path_unavailable gateway_target_failed_to_respond : ExceptionClass

-- `modbus_error` is the base class itself; the classes up to `python_error` are the built-in ones
-- that the library raises or lets through, and no `ModbusError`.
pub data Exc : Type 0 where
  modbus_error timeout_error connection_error crc_error protocol_error : Exc
  exception_response : ExceptionClass → ℕ → Exc
  value_error struct_error index_error assertion_error incomplete_read python_error : Exc

-- The class attribute `code`.
unfoldable pub class_code : ExceptionClass → ℕ
class_code ExceptionClass.illegal_function = 0x01
class_code ExceptionClass.illegal_data_address = 0x02
class_code ExceptionClass.illegal_data_value = 0x03
class_code ExceptionClass.slave_device_failure = 0x04
class_code ExceptionClass.acknowledge = 0x05
class_code ExceptionClass.slave_device_busy = 0x06
class_code ExceptionClass.memory_parity_error = 0x08
class_code ExceptionClass.gateway_path_unavailable = 0x0A
class_code ExceptionClass.gateway_target_failed_to_respond = 0x0B

-- `EXCEPTION_BY_CODE.get(code)`.
unfoldable pub exception_by_code : ℕ → Option ExceptionClass
exception_by_code c =
    if c == 0x01
    then some ExceptionClass.illegal_function
    else if c == 0x02
    then some ExceptionClass.illegal_data_address
    else if c == 0x03
    then some ExceptionClass.illegal_data_value
    else if c == 0x04
    then some ExceptionClass.slave_device_failure
    else if c == 0x05
    then some ExceptionClass.acknowledge
    else if c == 0x06
    then some ExceptionClass.slave_device_busy
    else if c == 0x08
    then some ExceptionClass.memory_parity_error
    else if c == 0x0A
    then some ExceptionClass.gateway_path_unavailable
    else if c == 0x0B
    then some ExceptionClass.gateway_target_failed_to_respond
    else none

-- `EXCEPTION_BY_CODE.get(code, SlaveDeviceFailure)`
unfoldable pub class_of_code : ℕ → ExceptionClass
unfolding exception_by_code
class_of_code code = elim (exception_by_code code) [
  | none ↦ ExceptionClass.slave_device_failure
  | some cls ↦ cls
]

-- `ModbusExceptionResponse.__init__`: an explicit code replaces the class's.
unfoldable pub new_response : ExceptionClass → Option ℕ → Exc
unfolding class_code
new_response cls none = exception_response cls (class_code cls)
new_response cls (some code) = exception_response cls code

-- `except ModbusError`.
abbrev pub is_modbus_error : Exc → Bool
is_modbus_error modbus_error = true
is_modbus_error timeout_error = true
is_modbus_error connection_error = true
is_modbus_error crc_error = true
is_modbus_error protocol_error = true
is_modbus_error (exception_response cls code) = true
is_modbus_error _ = false

pub data Result {ℓ} (A : Type ℓ) : Type ℓ where
  ok : A → Result A
  err : Exc → Result A

infixl 5 ◌>>=◌ ◌>>◌
abbrev pub ◌>>=◌ {κ ℓ} : {X : Type κ} {Y : Type ℓ} → Result X → (X → Result Y) → Result Y
err e >>= next = err e
ok x >>= next = next x

-- The next call of a sequence, when the value of the one before it is not used.
abbrev pub ◌>>◌ {ℓ} : {Y : Type ℓ} → Result (Unit {0}) → Result Y → Result Y
first >> second = first >>= λ _. second

-- `if not test: raise e`
abbrev pub guard : Bool → Exc → Result (Unit {0})
guard true e = ok tt
guard false e = err e

pub Result-cases {ℓ} :
    {A : Type ℓ} (m : Result A) → ((a : A) × (m ≡ ok a)) ⊎ ((e : Exc) × (m ≡ err e))
Result-cases (ok a) = inl (a, refl)
Result-cases (err e) = inr (e, refl)

pub then_ok {ℓ} :
    {B : Type ℓ} (m : Result (Unit {0})) (k : Result B) (b : B)
    → (m >> k) ≡ ok b
    → (m ≡ ok tt) × (k ≡ ok b)
then_ok (ok u) k b h = (refl, h)
then_ok (err e) k b h = ground arith

-- A sequence that returns has a first call that returns.
pub bind_ok {κ ℓ} :
    {A : Type κ} {B : Type ℓ} (m : Result A) (k : A → Result B) (b : B)
    → (m >>= k) ≡ ok b
    → (a : A) × (m ≡ ok a) × (k a ≡ ok b)
bind_ok (ok a) k b h = (a, refl, h)
bind_ok (err e) k b h = ground arith
