-- ===== src/Ca/Policy.antt =====
-- pkg/ca/policy.go: PolicyEngine, its checks of a request's key, names and validity.
pub mod Names
pub mod Csr
use go_certa.Prelude.{
  ℕ, ◌*◌, ℤ, pos, ltb_ℤ, is_pos, Str, codes, str_eq, has_suffix, has_prefix, trim_prefix,
  trim_space, to_lower, contains_byte, Bool, true, false, not, ◌&&◌, ◌||◌, Option, none, some, List,
  [], ◌∷◌, is_empty, any, ◌==◌, if◌then◌else◌, length,
}
use go_certa.Ca.Types.{
  PublicKey, rsa, ecdsa, ed25519, other, CertificateRequest, bit_len, Result, ok, err, nil_csr,
  weak_rsa_key, insecure_exponent, unsupported_key, forbidden_dns_name, invalid_wildcard,
  validity_exceeded, san_required, ◌>>◌, reject_if,
}
use go_certa.Ca.Profile.{ProfileConfig, profile_server_tls, days}

-- A curve is given by the name in its parameters.
pub record PolicyEngine : Type 0 where
  pub max_validity_duration : ℤ
  pub allow_wildcards : Bool
  pub allow_internal_domains : Bool
  pub min_rsa_key_size : ℤ
  pub allowed_ec_curves : List Str
  pub disallowed_dns_names : List Str
  pub require_dns_or_ip : Bool

unfoldable pub new_default_policy_engine : PolicyEngine
new_default_policy_engine = record {
  max_validity_duration = days 398;
  allow_wildcards = true;
  allow_internal_domains = false;
  min_rsa_key_size = pos 2048;
  allowed_ec_curves = codes "P-256" ∷ codes "P-384" ∷ codes "P-521" ∷ [];
  disallowed_dns_names =
      codes "localhost"
      ∷ codes ".local"
      ∷ codes ".internal"
      ∷ codes ".lan"
      ∷ codes ".onion"
      ∷ codes ".test"
      ∷ codes ".invalid"
      ∷ codes ".example"
      ∷ [];
  require_dns_or_ip = true;
}

unfoldable pub is_internal_domain_suffix : Str → Bool
unfolding str_eq
is_internal_domain_suffix suffix = any (str_eq suffix) (
    codes "localhost"
    ∷ codes ".local"
    ∷ codes ".internal"
    ∷ codes ".lan"
    ∷ codes ".test"
    ∷ codes ".invalid"
    ∷ codes ".example"
    ∷ [])

-- The method IsOnCurve of the curve of this name.
abbrev pub OnCurve : Type 0
OnCurve = Str → ℕ → ℕ → Bool

unfoldable pub validate_public_key : PolicyEngine → OnCurve → PublicKey → Result (Unit {0})
validate_public_key p on_curve (rsa n e) =
    if ltb_ℤ (pos (bit_len n)) p.min_rsa_key_size
    then err weak_rsa_key
    else if ltb_ℤ e (pos 65537)
    then err insecure_exponent
    else ok tt
validate_public_key p on_curve (ecdsa curve x y) =
    if not (any (str_eq curve) p.allowed_ec_curves)
    then err unsupported_key
    else if not (on_curve curve x y)
    then err unsupported_key
    else ok tt
validate_public_key p on_curve (ed25519 k) =
    if not (length k == 32) then err unsupported_key else ok tt
validate_public_key p on_curve other = err unsupported_key

-- The loop over the disallowed names: does one of them forbid the name?
forbidden_by : Bool → Str → List Str → Bool
forbidden_by allow_internal trimmed [] = false
forbidden_by allow_internal trimmed (d ∷ ds) =
    let rest = forbidden_by allow_internal trimmed ds in
    if allow_internal && is_internal_domain_suffix d
    then rest
    else if str_eq trimmed d || has_suffix trimmed d
    then true
    else rest

star : ℕ
star = b'*'

check_wildcard : Bool → Str → Result (Unit {0})
unfolding star
check_wildcard allowed trimmed =
    if contains_byte trimmed star
    then (do
      reject_if (not allowed) invalid_wildcard
      reject_if (not (has_prefix trimmed (codes "*."))) invalid_wildcard
      let remainder = trim_prefix trimmed (codes "*.")
      reject_if (is_empty remainder || not (contains_byte remainder b'.')) invalid_wildcard
      reject_if (contains_byte remainder star) invalid_wildcard)
    else ok tt

unfoldable pub validate_dns_name : PolicyEngine → Str → Result (Unit {0})
unfolding forbidden_by check_wildcard
validate_dns_name p name = do
  let trimmed = trim_space (to_lower name)
  reject_if (is_empty trimmed) forbidden_dns_name
  reject_if (forbidden_by p.allow_internal_domains trimmed p.disallowed_dns_names)
      forbidden_dns_name
  check_wildcard p.allow_wildcards trimmed

unfoldable pub validate_dns_names : PolicyEngine → List Str → Result (Unit {0})
validate_dns_names p [] = ok tt
validate_dns_names p (d ∷ ds) = validate_dns_name p d >> validate_dns_names p ds

abbrev pub no_names : CertificateRequest → Bool
no_names csr =
    is_empty csr.dns_names
    && is_empty csr.ip_addresses
    && is_empty csr.email_addresses
    && is_empty csr.uris

-- `bound > 0 && validity > bound`
abbrev pub exceeds : ℤ → ℤ → Bool
exceeds validity bound = is_pos bound && ltb_ℤ bound validity

-- `if validity <= 0 { validity = default }`
abbrev pub effective : ℤ → ℤ → ℤ
effective validity default = if is_pos validity then validity else default

unfoldable pub validate_csr :
    PolicyEngine → OnCurve → Option CertificateRequest → ProfileConfig → ℤ → Result (Unit {0})
validate_csr p on_curve none profile validity = err nil_csr
validate_csr p on_curve (some csr) profile validity = do
  validate_public_key p on_curve csr.public_key
  let lasting = effective validity profile.default_validity
  reject_if (exceeds lasting p.max_validity_duration) validity_exceeded
  reject_if (exceeds lasting profile.allowed_max_validity) validity_exceeded
  validate_dns_names p csr.dns_names
  reject_if
      ((profile.require_san
          || (p.require_dns_or_ip && str_eq profile.profile_type profile_server_tls))
        && no_names csr)
      san_required
