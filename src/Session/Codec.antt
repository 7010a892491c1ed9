-- ===== src/Session/Codec.antt =====
-- FileReader of src/bp/session/Read.cxx and FileWriter of src/bp/session/Write.cxx. The reader
-- behind them is the bytes that are left of the file; what the writer has got is the bytes that
-- each call adds.
use cm4all_beng_proxy.Common.{
  ℕ, ◌^◌, ◌<◌, ◌≡◌, Bool, not, Option, none, some, ◌++◌, Bytes, length, take, drop, leb, ◌==◌,
  if◌then◌else◌,
}
use cm4all_beng_proxy.Session.{Text, c_str}

-- How the machine stores numbers: the bytes of a number with a size, and the number that bytes
-- stand for. `session_size` and `expiry_size` are sizeof(Session) and sizeof(Expiry).
pub record Machine : Type 0 where
  pub to_bytes : ℕ → ℕ → Bytes
  pub from_bytes : Bytes → ℕ
  pub session_size : ℕ
  pub expiry_size : ℕ

pub record IsMachine (m : Machine) : Type 0 where
  pub length-to_bytes : (size value : ℕ) → length (m.to_bytes size value) ≡ size
  pub from_bytes-to_bytes :
      (size value : ℕ) → value < 256 ^ size → m.from_bytes (m.to_bytes size value) ≡ value
  pub small : m.session_size < 256 ^ 4

-- What is thrown; `undefined_view` is not, but stands for the std::string_view of a nullptr, which is
-- undefined behaviour, where the model stops.
pub data Fault : Type 0 where
  session_deserializer_error end_of_file undefined_view : Fault

pub data Outcome {ℓ} (A : Type ℓ) : Type ℓ where
  ok : A → Bytes → Outcome A
  failed : Fault → Outcome A
  out_of_fuel : Outcome A

abbrev pub Reader {ℓ} : Type ℓ → Type ℓ
Reader A = Bytes → Outcome A

abbrev pub and_then {ℓ κ} : {A : Type ℓ} {B : Type κ} → Outcome A → (A → Reader B) → Outcome B
and_then (ok a rest) f = f a rest
and_then (failed e) f = failed e
and_then out_of_fuel f = out_of_fuel

infixl 5 ◌>>=◌ ◌>>◌
abbrev pub ◌>>=◌ {ℓ κ} : {A : Type ℓ} {B : Type κ} → Reader A → (A → Reader B) → Reader B
◌>>=◌ m f s = and_then (m s) f

abbrev pub ◌>>◌ {κ} : {B : Type κ} → Reader (Unit {0}) → Reader B → Reader B
m >> k = m >>= λ _. k

abbrev pub pure {ℓ} : {A : Type ℓ} → A → Reader A
pure a s = ok a s

abbrev pub throw {ℓ} : {A : Type ℓ} → Fault → Reader A
throw e s = failed e

abbrev pub stop {ℓ} : {A : Type ℓ} → Reader A
stop s = out_of_fuel

-- Two writes in a row; `none` means that a SessionSerializerError has been thrown.
infixr 6 ◌then_write◌
abbrev pub ◌then_write◌ : Option Bytes → Option Bytes → Option Bytes
none then_write b = none
some a then_write none = none
some a then_write some b = some (a ++ b)

-- UINT16_MAX
abbrev pub null_length : ℕ
null_length = 65535

-- `ReadFull` of libcommon's BufferedReader: all of the bytes, or an exception
unfoldable pub read_buffer : ℕ → Reader Bytes
read_buffer size s =
    if leb size (length s) then ok (take size s) (drop size s) else failed end_of_file

-- a length that is not UINT16_MAX, and that many bytes
unfoldable pub write_text : Bytes → ℕ → (ℕ → Bytes) → Option Bytes
write_text s size number = if leb null_length size then none else some (number size ++ s)

module _ (m : Machine) where
  -- `ReadT` and `WriteT` of a number with a size
  unfoldable pub read_number : ℕ → Reader ℕ
  read_number size = do bytes ← read_buffer size; pure (m.from_bytes bytes)

  unfoldable pub write_number : ℕ → ℕ → Option Bytes
  write_number size value = some (m.to_bytes size value)

  unfoldable pub read_bool : Reader Bool
  unfolding read_number
  read_bool = do value ← read_number 1; pure (not (value == 0))

  unfoldable pub write_bool : Bool → Option Bytes
  unfolding write_number
  write_bool value = write_number 1 (if value then 1 else 0)

  abbrev pub read32 : Reader ℕ
  read32 = read_number 4

  abbrev pub write32 : ℕ → Option Bytes
  write32 = write_number 4

  abbrev pub read_expiry : Reader ℕ
  read_expiry = read_number m.expiry_size

  abbrev pub write_expiry : ℕ → Option Bytes
  write_expiry = write_number m.expiry_size

  -- behind the length of `ReadString` and `ReadArray`
  unfoldable pub read_body : ℕ → Reader Text
  read_body size =
      if size == null_length then pure none else (do data' ← read_buffer size; pure (some data'))

  unfoldable pub read_string : Reader Text
  unfolding read_body
  read_string = do size ← read_number 2; read_body size

  unfoldable pub read_array : Reader Text
  unfolding read_body
  read_array = do size ← read_number 2; read_body size

  -- `Write` of a C string, of a span and of a std::string
  unfoldable pub write_span : Text → Option Bytes
  unfolding write_text write_number
  write_span none = write_number 2 null_length
  write_span (some s) = write_text s (length s) (m.to_bytes 2)

  unfoldable pub write_string : Text → Option Bytes
  unfolding write_span write_number
  write_string none = write_number 2 null_length
  write_string (some s) = write_span (some (c_str s))

  unfoldable pub expect32 : ℕ → Reader (Unit {0})
  expect32 expected = do
    value ← read32
    if value == expected then pure tt else throw session_deserializer_error
