-- ===== src/Ca/Types.antt =====
-- What pkg/ca takes from crypto/x509, as far as the code looks at it, its own error values, and the
-- parts of the Go library that it calls. Instants and durations are nanoseconds.
use go_certa.Prelude.{
  ℕ, zero, suc, ◌-◌, ◌*◌, ◌/◌, ◌%◌, ◌^◌, ℤ, Str, Bool, true, false, Option, List, ◌==◌, ◌≡◌, refl,
  if◌then◌else◌,
}

-- The curve of an ECDSA key is given by the name in its parameters.
pub data PublicKey : Type 0 where
  rsa : ℕ → ℤ → PublicKey
  ecdsa : Str → ℕ → ℕ → PublicKey
  ed25519 : Str → PublicKey
  other : PublicKey

-- big.Int.BitLen; a number is fuel enough for itself.
unfoldable pub bits_of : ℕ → ℕ → ℕ
bits_of zero n = 0
bits_of (suc f) n = let rest = bits_of f (n / 2) in if n == 0 then 0 else suc rest

unfoldable pub bit_len : ℕ → ℕ
unfolding bits_of
bit_len n = bits_of n n

-- x509.KeyUsage is a set of bits.
abbrev pub digital_signature : ℕ
digital_signature = 1

abbrev pub key_encipherment : ℕ
key_encipherment = 4

abbrev pub cert_sign : ℕ
cert_sign = 32

abbrev pub crl_sign : ℕ
crl_sign = 64

-- `usage & bit != 0` and `usage &^ bit`, for a power of two.
unfoldable pub has_usage : ℕ → ℕ → Bool
has_usage usage bit = usage / bit % 2 == 1

unfoldable pub clear_usage : ℕ → ℕ → ℕ
unfolding has_usage
clear_usage usage bit = if has_usage usage bit then usage - bit else usage

-- x509.ExtKeyUsage.
abbrev pub server_auth : ℕ
server_auth = 1

abbrev pub client_auth : ℕ
client_auth = 2

abbrev pub code_signing : ℕ
code_signing = 3

pub record CertificateRequest : Type 0 where
  pub public_key : PublicKey
  pub subject : Str
  pub dns_names : List Str
  pub ip_addresses : List Str
  pub email_addresses : List Str
  pub uris : List Str

-- pkix.Extension.
pub record Extension : Type 0 where
  pub id : List ℕ
  pub critical : Bool
  pub value : Str

-- x509.Certificate, as a template.
pub record Template : Type 0 where
  pub serial_number : Option ℤ
  pub subject : Str
  pub dns_names : List Str
  pub ip_addresses : List Str
  pub email_addresses : List Str
  pub uris : List Str
  pub not_before : ℤ
  pub not_after : ℤ
  pub key_usage : ℕ
  pub ext_key_usage : List ℕ
  pub basic_constraints_valid : Bool
  pub is_ca : Bool
  pub max_path_len : ℤ
  pub max_path_len_zero : Bool
  pub subject_key_id : Str
  pub authority_key_id : Str
  pub ocsp_server : List Str
  pub issuing_certificate_url : List Str
  pub crl_distribution_points : List Str
  pub extra_extensions : List Extension

pub data LintLevel : Type 0 where
  error warning info : LintLevel

-- The message of a result is left out: nothing reads it but people.
pub record LintResult : Type 0 where
  pub rule : Str
  pub level : LintLevel

-- The errors that callers can tell apart, by what they wrap, and those that wrap nothing.
pub data Error : Type 0 where
  nil_csr invalid_serial malformed_csr bad_proof_of_possession : Error
  weak_rsa_key insecure_exponent unsupported_key : Error
  forbidden_dns_name invalid_wildcard : Error
  unknown_profile validity_exceeded san_required : Error
  lint_errors : List LintResult → Error
  key_id_failed create_failed : Error
  ct_submission_failed ct_serialization_failed : Error

pub data Result {ℓ} (A : Type ℓ) : Type ℓ where
  ok : A → Result A
  err : Error → Result A

infixl 5 ◌>>◌ ◌>>=◌
-- The next step, if this one did not fail.
abbrev pub ◌>>◌ {ℓ} : {T : Type ℓ} → Result (Unit {0}) → Result T → Result T
ok done >> next = next
err e >> next = err e

-- The next step, on what this one returns.
abbrev pub ◌>>=◌ {ℓ κ} : {S : Type ℓ} {T : Type κ} → Result S → (S → Result T) → Result T
ok s >>= next = next s
err e >>= next = err e

-- `if b { return e }`
abbrev pub reject_if : Bool → Error → Result (Unit {0})
reject_if b e = if b then err e else ok tt

abbrev pub or_fail {ℓ} : {A : Type ℓ} → Option A → Error → Result A
or_fail o e = elim o [ Option.none ↦ err e | Option.some a ↦ ok a ]

abbrev pub hour : ℕ
hour = 3600 * 10 ^ 9

abbrev pub minute : ℕ
minute = 60 * 10 ^ 9

-- A step that returns nothing, and then the rest: both succeed.
pub then_ok {ℓ} :
    {B : Type ℓ} (m : Result (Unit {0})) (k : Result B) {b : B}
    → (m >> k) ≡ ok b
    → (m ≡ ok tt) × (k ≡ ok b)
then_ok (ok a) k h = (refl, h)
then_ok (err e) k h = cc

pub reject_ok : (b : Bool) (e : Error) → reject_if b e ≡ ok tt → b ≡ false
reject_ok true e h = cc
reject_ok false e h = refl

-- Inversion of a chain that succeeds.
pub bind_ok {ℓ κ} :
    {S : Type ℓ} {T : Type κ} (first : Result S) (next : S → Result T) {t : T}
    → (first >>= next) ≡ ok t
    → (s : S) × (first ≡ ok s) × (next s ≡ ok t)
bind_ok (ok s) next h = (s, refl, h)
bind_ok (err e) next h = cc

pub or_fail_ok {ℓ} :
    {A : Type ℓ} (o : Option A) (e : Error) {a : A} → or_fail o e ≡ ok a → o ≡ Option.some a
or_fail_ok Option.none e h = cc
or_fail_ok (Option.some x) e h = cc
