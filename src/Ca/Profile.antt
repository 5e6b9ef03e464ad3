-- ===== src/Ca/Profile.antt =====
-- pkg/ca/profile.go: the issuance profiles.
use go_certa.Prelude.{
  ℕ, ◌*◌, ◌+◌, ℤ, pos, Str, codes, str_eq, Bool, true, false, List, [], ◌∷◌, if◌then◌else◌,
}
use go_certa.Ca.Types.{
  digital_signature, cert_sign, crl_sign, server_auth, client_auth, code_signing, Result, ok, err,
  unknown_profile, hour,
}

abbrev pub profile_server_tls : Str
profile_server_tls = codes "server-tls"

abbrev pub profile_client_auth : Str
profile_client_auth = codes "client-auth"

abbrev pub profile_code_signing : Str
profile_code_signing = codes "code-signing"

abbrev pub profile_sub_ca : Str
profile_sub_ca = codes "sub-ca"

-- The description is left out: nothing reads it but people.
pub record ProfileConfig : Type 0 where
  pub profile_type : Str
  pub allowed_max_validity : ℤ
  pub default_validity : ℤ
  pub key_usage : ℕ
  pub ext_key_usage : List ℕ
  pub is_ca : Bool
  pub max_path_len : ℤ
  pub max_path_len_zero : Bool
  pub require_san : Bool

pub record ExtensionConfig : Type 0 where
  pub ocsp_server_urls : List Str
  pub issuing_certificate_urls : List Str
  pub crl_distribution_points : List Str

abbrev pub days : ℕ → ℤ
days n = pos (n * (24 * hour))

unfoldable pub default_server_tls_profile : ProfileConfig
default_server_tls_profile = record {
  profile_type = profile_server_tls;
  allowed_max_validity = days 398;
  default_validity = days 90;
  key_usage = digital_signature;
  ext_key_usage = server_auth ∷ client_auth ∷ [];
  is_ca = false;
  max_path_len = pos 0;
  max_path_len_zero = false;
  require_san = true;
}

unfoldable pub default_client_auth_profile : ProfileConfig
default_client_auth_profile = record {
  profile_type = profile_client_auth;
  allowed_max_validity = days 730;
  default_validity = days 365;
  key_usage = digital_signature;
  ext_key_usage = client_auth ∷ [];
  is_ca = false;
  max_path_len = pos 0;
  max_path_len_zero = false;
  require_san = false;
}

unfoldable pub default_code_signing_profile : ProfileConfig
default_code_signing_profile = record {
  profile_type = profile_code_signing;
  allowed_max_validity = days 1095;
  default_validity = days 365;
  key_usage = digital_signature;
  ext_key_usage = code_signing ∷ [];
  is_ca = false;
  max_path_len = pos 0;
  max_path_len_zero = false;
  require_san = false;
}

unfoldable pub default_sub_ca_profile : ProfileConfig
default_sub_ca_profile = record {
  profile_type = profile_sub_ca;
  allowed_max_validity = days 3650;
  default_validity = days 1825;
  key_usage = cert_sign + crl_sign;
  ext_key_usage = [];
  is_ca = true;
  max_path_len = pos 0;
  max_path_len_zero = true;
  require_san = false;
}

unfoldable pub get_profile : Str → Result ProfileConfig
unfolding default_server_tls_profile default_client_auth_profile default_code_signing_profile
    default_sub_ca_profile str_eq
get_profile name =
    if str_eq name profile_server_tls
    then ok default_server_tls_profile
    else if str_eq name profile_client_auth
    then ok default_client_auth_profile
    else if str_eq name profile_code_signing
    then ok default_code_signing_profile
    else if str_eq name profile_sub_ca
    then ok default_sub_ca_profile
    else err unknown_profile
