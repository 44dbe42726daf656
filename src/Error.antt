-- ===== src/Error.antt =====
-- src/core/error.rs: the error kinds, the error value, and the exit code of each kind.
-- An error's source, a boxed foreign error, is left out. A Rust slice or index out of bounds is
-- `panic`, an outcome of its own,
-- and so is `stuck`: a loop that does not end within the rounds that the model gives it.
pub mod Laws
use plasmite.Prelude.{ℕ, String, Bool, true, false, Option, none, some}

pub data ErrorKind : Type 0 where
  internal usage not_found already_exists busy permission corrupt io : ErrorKind

pub record Error : Type 0 where
  pub kind : ErrorKind
  pub message : Option String
  pub hint : Option String
  pub path : Option String
  pub seq : Option ℕ
  pub offset : Option ℕ

abbrev pub new : ErrorKind → Error
new k = record { kind = k; message = none; hint = none; path = none; seq = none; offset = none }

abbrev pub with_message : String → Error → Error
with_message m e = record e { message = some m }

abbrev pub with_hint : String → Error → Error
with_hint h e = record e { hint = some h }

abbrev pub with_path : String → Error → Error
with_path p e = record e { path = some p }

abbrev pub with_seq : ℕ → Error → Error
with_seq s e = record e { seq = some s }

abbrev pub with_offset : ℕ → Error → Error
with_offset o e = record e { offset = some o }

unfoldable pub to_exit_code : ErrorKind → ℕ
to_exit_code internal = 1
to_exit_code usage = 2
to_exit_code not_found = 3
to_exit_code already_exists = 4
to_exit_code busy = 5
to_exit_code permission = 6
to_exit_code corrupt = 7
to_exit_code io = 8

pub data Result {ℓ} (A : Type ℓ) : Type ℓ where
  ok : A → Result A
  err : Error → Result A
  panic : Result A
  stuck : Result A

infixl 5 ◌>>=◌ ◌>>◌
abbrev pub ◌>>=◌ {ℓ κ} : {A : Type ℓ} {B : Type κ} → Result A → (A → Result B) → Result B
ok a >>= f = f a
err e >>= f = err e
panic >>= f = panic
stuck >>= f = stuck

abbrev pub ◌>>◌ {ℓ} : {B : Type ℓ} → Result (Unit {0}) → Result B → Result B
m >> k = m >>= λ _. k

-- `Error::new(kind).with_message(text)`
abbrev pub failure : ErrorKind → String → Error
failure k text = with_message text (new k)

-- `if !test { return Err(..) }`
abbrev pub ensure : Bool → ErrorKind → String → Result (Unit {0})
ensure true k text = ok tt
ensure false k text = err (failure k text)

-- `option.ok_or_else(..)?`
abbrev pub ok_or {ℓ} : {A : Type ℓ} → Option A → ErrorKind → String → Result A
ok_or (some a) k text = ok a
ok_or none k text = err (failure k text)
