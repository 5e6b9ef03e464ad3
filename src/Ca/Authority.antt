-- ===== src/Ca/Authority.antt =====
-- pkg/ca/authority.go: the authority that signs certificates. What it calls of the Go library is
-- the record Library; `now` is the clock's reading, taken once where the source reads it twice in a
-- row for the two ends of the validity. The intermediate certificate and the signer do not change.
pub mod Issued
pub mod Logged
use go_certa.Prelude.{
  ℕ, ◌*◌, ℤ, pos, ◌+ℤ◌, ◌-ℤ◌, is_pos, Str, Bool, true, not, ◌&&◌, Option, none, some, List, [],
  is_empty, if◌then◌else◌,
}
use mathlib.Core.Option
use go_certa.Ca.Types.{
  PublicKey, CertificateRequest, Template, has_usage, clear_usage, digital_signature,
  key_encipherment, Result, ok, err, invalid_serial, malformed_csr, bad_proof_of_possession,
  validity_exceeded, san_required, lint_errors, key_id_failed, create_failed, ◌>>=◌, ◌>>◌,
  reject_if, or_fail, minute,
}
use go_certa.Ca.Profile.{ProfileConfig, ExtensionConfig, default_server_tls_profile}
use go_certa.Ca.Policy.{
  PolicyEngine, OnCurve, new_default_policy_engine, validate_public_key, validate_dns_names,
  effective, exceeds,
}
use go_certa.Ca.Lint.{has_lint_errors, lint_certificate, signs_only}

pub record Library : Type 0 where
  pub parse_certificate_request : Str → Option CertificateRequest
  -- csr.CheckSignature() returns nil.
  pub check_signature : CertificateRequest → Bool
  pub on_curve : OnCurve
  -- The bit string of the key in its PKIX form, or none where marshalling fails.
  pub key_bits : PublicKey → Option Str
  pub sha1 : Str → Str
  -- x509.CreateCertificate under the intermediate certificate, with the authority's signer.
  pub create_certificate : Template → PublicKey → Option Str

pub record Authority : Type 0 where
  pub policy : Option PolicyEngine
  pub intermediate_key : PublicKey
  pub intermediate_key_id : Str

unfoldable pub compute_subject_key_id : Library → PublicKey → Option Str
compute_subject_key_id lib key = Option.map lib.sha1 (lib.key_bits key)

-- KeyEncipherment is taken off for keys that only sign.
unfoldable pub align_usage : PublicKey → ℕ → ℕ
align_usage key usage =
    if signs_only (some key)
    then (if has_usage usage digital_signature then clear_usage usage key_encipherment else usage)
    else usage

-- `if len(given) > 0 { use given }`
abbrev pub prefer : List Str → List Str → List Str
prefer given own = if is_empty given then own else given

abbrev pub policy_of : Authority → PolicyEngine
policy_of a = elim a.policy [ none ↦ new_default_policy_engine | some p ↦ p ]

-- The result of a failing ComputeSubjectKeyID is dropped here.
authority_key_id : Library → Authority → Str
unfolding compute_subject_key_id
authority_key_id lib a =
    if is_empty a.intermediate_key_id
    then elim (compute_subject_key_id lib a.intermediate_key) [ none ↦ [] | some k ↦ k ]
    else a.intermediate_key_id

unfoldable pub template :
    Library
    → Authority
    → CertificateRequest
    → ℤ
    → ProfileConfig
    → ExtensionConfig
    → ℤ
    → ℤ
    → List Str
    → List Str
    → Str
    → Template
unfolding align_usage authority_key_id
template lib a csr serial profile ext now validity san_dns san_ip skid = record {
  serial_number = some serial;
  subject = csr.subject;
  dns_names = san_dns;
  ip_addresses = san_ip;
  email_addresses = csr.email_addresses;
  uris = csr.uris;
  not_before = now -ℤ pos (5 * minute);
  not_after = now +ℤ validity;
  key_usage = align_usage csr.public_key profile.key_usage;
  ext_key_usage = profile.ext_key_usage;
  basic_constraints_valid = true;
  is_ca = profile.is_ca;
  max_path_len = profile.max_path_len;
  max_path_len_zero = profile.max_path_len_zero;
  subject_key_id = skid;
  authority_key_id = authority_key_id lib a;
  ocsp_server = ext.ocsp_server_urls;
  issuing_certificate_url = ext.issuing_certificate_urls;
  crl_distribution_points = ext.crl_distribution_points;
  extra_extensions = [];
}

abbrev pub positive_serial : Option ℤ → Result ℤ
positive_serial none = err invalid_serial
positive_serial (some n) = if is_pos n then ok n else err invalid_serial

-- What SignCertificateWithProfile does before it signs: the template that it prepares, and the
-- request. SignCertificateWithCT does the same with no IP addresses given.
unfoldable pub prepare :
    Library
    → Authority
    → ℤ
    → Str
    → Option ℤ
    → ProfileConfig
    → ExtensionConfig
    → ℤ
    → List Str
    → List Str
    → Result (CertificateRequest × Template)
unfolding compute_subject_key_id
prepare lib a now csr_der serial profile ext validity dns_names ip_addresses = do
  n ← positive_serial serial
  csr ← or_fail (lib.parse_certificate_request csr_der) malformed_csr
  reject_if (not (lib.check_signature csr)) bad_proof_of_possession
  let lasting = effective validity profile.default_validity
  reject_if (exceeds lasting profile.allowed_max_validity) validity_exceeded
  let san_dns = prefer dns_names csr.dns_names
  let san_ip = prefer ip_addresses csr.ip_addresses
  reject_if
      (profile.require_san
        && (is_empty san_dns
            && is_empty san_ip
            && is_empty csr.email_addresses
            && is_empty csr.uris))
      san_required
  validate_public_key (policy_of a) lib.on_curve csr.public_key
  validate_dns_names (policy_of a) san_dns
  skid ← or_fail (compute_subject_key_id lib csr.public_key) key_id_failed
  let cert = template lib a csr n profile ext now lasting san_dns san_ip skid
  let lints = lint_certificate cert (some csr.public_key) profile
  reject_if (has_lint_errors lints) (lint_errors lints)
  ok (csr, cert)

unfoldable pub sign_certificate_with_profile :
    Library
    → Authority
    → ℤ
    → Str
    → Option ℤ
    → ProfileConfig
    → ExtensionConfig
    → ℤ
    → List Str
    → List Str
    → Result Str
sign_certificate_with_profile lib a now csr_der serial profile ext validity dns_names ip_addresses =
    prepare lib a now csr_der serial profile ext validity dns_names ip_addresses >>= λ prepared.
    or_fail (lib.create_certificate prepared.1 prepared.0.public_key) create_failed

abbrev pub no_extensions : ExtensionConfig
no_extensions = record {
  ocsp_server_urls = [];
  issuing_certificate_urls = [];
  crl_distribution_points = [];
}

-- The method SignCertificate, which the worker pool calls.
unfoldable pub sign_certificate :
    Library → Authority → ℤ → Str → Option ℤ → ℤ → List Str → Result Str
unfolding sign_certificate_with_profile
sign_certificate lib a now csr_der serial validity dns_names =
    sign_certificate_with_profile lib a now csr_der serial default_server_tls_profile no_extensions
      validity dns_names []
