-- ===== src/Ca/Hierarchy.antt =====
-- pkg/ca/authority.go and pkg/ca/key_store.go: the hierarchy of a root and an intermediate, and the
-- two templates that both ceremonies sign. What they call of the Go library for keys and certificates
-- is the record KeyLibrary; the keys that rsa.GenerateKey draws are arguments.
pub mod Ceremony
pub mod Parsed
use go_certa.Prelude.{
  ℕ, ◌+◌, ◌*◌, ℤ, pos, ◌-ℤ◌, Str, codes, Bool, true, false, Option, none, some, [], ◌≡◌, refl,
}
use go_certa.Ca.Types.{PublicKey, Template, cert_sign, crl_sign, hour}
use go_certa.Ca.Policy.{PolicyEngine}
use go_certa.Ca.Authority.{Library}

pub record KeyLibrary : Type 1 where
  pub base : Library
  -- *rsa.PrivateKey that is valid, and a parsed certificate.
  pub Key : Type 0
  pub Certificate : Type 0
  pub public_key : Key → PublicKey
  pub subject_key_id : Certificate → Str
  -- pkix.Name by its organization and common name; Time.AddDate by years.
  pub pkix_name : Str → Str → Str
  pub add_years : ℕ → ℤ → ℤ
  -- x509.CreateCertificate of a template that is its own parent, and under a parsed parent.
  pub create_self_signed : Template → PublicKey → Key → Option Str
  pub create_certificate : Template → Certificate → PublicKey → Key → Option Str
  pub parse_certificate : Str → Option Certificate
  pub marshal_pkcs1 : Key → Str
  pub parse_pkcs1 : Str → Option Key
  -- A key of another kind is `some none`.
  pub parse_pkcs8 : Str → Option (Option Key)
  -- A block by its type and bytes.
  pub encode_pem : Str → Str → Str
  pub decode_pem : Str → Option (Str × Str)

-- The source's errors, by what failed.
pub data HierarchyError : Type 0 where
  creating_directory : HierarchyError
  reading_root_cert parsing_root_cert reading_intermediate_cert parsing_intermediate_cert
        reading_intermediate_key :
      HierarchyError
  generating_root_key computing_root_key_id creating_root_cert : HierarchyError
  generating_intermediate_key computing_intermediate_key_id creating_intermediate_cert :
      HierarchyError
  writing_root_key writing_root_cert writing_intermediate_key writing_intermediate_cert :
      HierarchyError
  -- A nil certificate is used.
  panics : HierarchyError

pub data Result {ℓ} (A : Type ℓ) : Type ℓ where
  ok : A → Result A
  err : HierarchyError → Result A

infixl 5 ◌>>=◌
abbrev pub ◌>>=◌ {ℓ κ} : {S : Type ℓ} {T : Type κ} → Result S → (S → Result T) → Result T
ok s >>= next = next s
err e >>= next = err e

abbrev pub or_fail {ℓ} : {A : Type ℓ} → Option A → HierarchyError → Result A
or_fail none e = err e
or_fail (some a) e = ok a

pub ok_injective {ℓ} : {A : Type ℓ} {a b : A} → ok a ≡ ok b → a ≡ b
ok_injective e = cc e

pub bind_ok {ℓ κ} :
    {S : Type ℓ} {T : Type κ} (first : Result S) (next : S → Result T) {t : T}
    → (first >>= next) ≡ ok t
    → (s : S) × (first ≡ ok s) × (next s ≡ ok t)
bind_ok (ok s) next h = (s, refl, h)
bind_ok (err e) next h = cc

pub or_fail_ok {ℓ} :
    {A : Type ℓ} (o : Option A) (e : HierarchyError) {a : A} → or_fail o e ≡ ok a → o ≡ some a
or_fail_ok none e h = cc
or_fail_ok (some x) e h = cc

-- Authority, with the parsed certificates, over a type of signers.
pub record Hierarchy (Certificate Signer : Type 0) : Type 0 where
  pub root_cert : Certificate
  pub intermediate_cert : Option Certificate
  pub signer : Signer
  pub policy : PolicyEngine

-- A template for an authority that signs certificates and revocation lists.
abbrev pub authority_template : KeyLibrary → ℤ → ℕ → ℕ → Str → ℤ → Bool → Str → Str → Template
authority_template lib now years serial common_name path_len path_len_zero skid akid = record {
  serial_number = some (pos serial);
  subject = lib.pkix_name (codes "Go-Certa Trust Network") common_name;
  dns_names = [];
  ip_addresses = [];
  email_addresses = [];
  uris = [];
  not_before = now -ℤ pos (1 * hour);
  not_after = lib.add_years years now;
  key_usage = cert_sign + crl_sign;
  ext_key_usage = [];
  basic_constraints_valid = true;
  is_ca = true;
  max_path_len = path_len;
  max_path_len_zero = path_len_zero;
  subject_key_id = skid;
  authority_key_id = akid;
  ocsp_server = [];
  issuing_certificate_url = [];
  crl_distribution_points = [];
  extra_extensions = [];
}

-- The template of the root, by its key id.
abbrev pub root_template : KeyLibrary → ℤ → Str → Template
root_template lib now skid =
    authority_template lib now 20 1 (codes "Go-Certa Root CA G1") (pos 1) false skid skid

-- The template of the intermediate, by its key id and the root's.
abbrev pub intermediate_template : KeyLibrary → ℤ → Str → Str → Template
intermediate_template lib now skid akid =
    authority_template lib now 5 2 (codes "Go-Certa Issuing Intermediate CA 1") (pos 0) true skid
      akid
