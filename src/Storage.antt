-- ===== src/Storage.antt =====
-- pkg/storage/storage.go and pkg/storage/models.go: the records, the errors and the normal form of
-- a serial. The in-memory implementation is in Storage/Memory. A context is what its Err() returns
-- when the call looks at it; instants are nanoseconds since Go's zero time; []byte is a list.
pub mod Contract
pub mod Normal
pub mod Memory
pub mod Sqlite
pub mod Interchange
use go_certa.Prelude.{ℕ, ℤ, Str, codes, trim_space, trim_prefix, to_lower, Bool, Option}

pub data ContextError : Type 0 where
  canceled deadline_exceeded : ContextError

abbrev pub Context : Type 0
Context = Option ContextError

pub data Error : Type 0 where
  not_found already_exists already_revoked invalid_input : Error
  context : ContextError → Error
  -- Any other error, from the database driver.
  driver : Error

pub data Result {ℓ} (A : Type ℓ) : Type ℓ where
  ok : A → Result A
  err : Error → Result A

pub record CertificateRecord : Type 0 where
  pub serial : Str
  pub subject : Str
  pub issuer : Str
  pub not_before : ℕ
  pub not_after : ℕ
  pub raw_der : Str
  pub pem : Str
  pub revoked : Bool

pub record RevocationRecord : Type 0 where
  pub serial : Str
  pub revoked_at : ℕ
  pub reason : ℤ

pub record SerialRecord : Type 0 where
  pub serial : Str
  pub issued_at : ℕ

unfoldable pub normalize_serial : Str → Str
unfolding trim_space trim_prefix to_lower
normalize_serial serial =
    to_lower (trim_prefix (trim_prefix (trim_space serial) (codes "0x")) (codes "0X"))
