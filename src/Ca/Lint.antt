-- ===== src/Ca/Lint.antt =====
-- pkg/ca/policy.go: the lints that a certificate template passes before it is signed.
pub mod Clean
use go_certa.Prelude.{
  ◌+◌, ℤ, pos_part, neg_part, ltb_ℤ, is_pos, Str, codes, str_eq, Bool, true, false, not, ◌&&◌, ◌||◌,
  Option, none, some, List, [], ◌∷◌, ◌++◌, is_empty, any, ltb, ◌==◌, if◌then◌else◌,
}
use go_certa.Ca.Types.{
  PublicKey, rsa, ecdsa, ed25519, other, bit_len, Template, LintLevel, error, warning, info,
  LintResult, has_usage, key_encipherment, cert_sign, server_auth,
}
use go_certa.Ca.Profile.{ProfileConfig, profile_server_tls}
use go_certa.Ca.Serial.{max_serial_bits}

unfoldable pub is_error : LintLevel → Bool
is_error error = true
is_error warning = false
is_error info = false

unfoldable pub has_lint_errors : List LintResult → Bool
unfolding is_error
has_lint_errors [] = false
has_lint_errors (r ∷ rs) = is_error r.level || has_lint_errors rs

-- `if broken { results = append(results, ...) }`
abbrev pub lint : Bool → Str → List LintResult
lint broken rule = if broken then record { rule = rule; level = error } ∷ [] else []

lint_serial : Option ℤ → List LintResult
lint_serial none = lint true (codes "serial-not-nil")
lint_serial (some n) =
    lint (not (is_pos n)) (codes "serial-positive")
    ++ lint (ltb max_serial_bits (bit_len (pos_part n + neg_part n))) (codes "serial-20-octets")

-- ECDSA and Ed25519 keys only sign.
abbrev pub signs_only : Option PublicKey → Bool
signs_only none = false
signs_only (some (rsa n e)) = false
signs_only (some (ecdsa curve x y)) = true
signs_only (some (ed25519 k)) = true
signs_only (some other) = false

abbrev pub unnamed : Template → Bool
unnamed cert =
    is_empty cert.dns_names
    && is_empty cert.ip_addresses
    && is_empty cert.email_addresses
    && is_empty cert.uris

abbrev pub same_bool : Bool → Bool → Bool
same_bool true b = b
same_bool false b = not b

unfoldable pub lint_certificate : Template → Option PublicKey → ProfileConfig → List LintResult
unfolding lint_serial
lint_certificate cert pub_key profile =
    lint_serial cert.serial_number
    ++ (lint (not (ltb_ℤ cert.not_before cert.not_after)) (codes "validity-chronological")
        ++ (lint (not cert.basic_constraints_valid) (codes "basic-constraints-valid")
            ++ (lint (not (same_bool cert.is_ca profile.is_ca)) (codes "basic-constraints-is-ca")
                ++ (lint (signs_only pub_key && has_usage cert.key_usage key_encipherment)
                      (codes "key-usage-algorithm-alignment")
                    ++ (lint (cert.is_ca && not (has_usage cert.key_usage cert_sign))
                          (codes "ca-key-usage-cert-sign")
                        ++ (lint (profile.require_san && unnamed cert) (codes "san-present")
                            ++ lint
                                (str_eq profile.profile_type profile_server_tls
                                  && not (any (λ eku. eku == server_auth) cert.ext_key_usage))
                                (codes "server-tls-eku")))))))
