-- ===== src/Ca/Lint/Clean.antt =====
-- pkg/ca/policy.go: the rules behind LintCertificate, said without the loop.
use go_certa.Prelude.{
  ◌+◌, ◌≤◌, ℤ, pos_part, neg_part, ltb_ℤ, is_pos, ◌<ℤ◌, Str, str_eq, Bool, true, false, not, ◌&&◌,
  ◌||◌, Option, none, some, List, [], ◌∷◌, ◌++◌, any, ltb, ◌==◌, ◌≡◌, refl, arith, ◌↔◌, sym, ◌∙◌,
}
use go_certa.Ca.Types.{
  PublicKey, bit_len, Template, LintResult, has_usage, key_encipherment, cert_sign, server_auth,
}
use go_certa.Ca.Profile.{ProfileConfig, profile_server_tls}
use go_certa.Ca.Lint.{
  has_lint_errors, lint, lint_serial, lint_certificate, signs_only, unnamed, same_bool,
}

-- Present, positive, and of at most 159 bits.
abbrev pub GoodSerial : Option ℤ → Type 0
GoodSerial none = ⊥
GoodSerial (some n) = (is_pos n ≡ true) × (bit_len (pos_part n + neg_part n) ≤ 159)

pub record Clean (cert : Template) (key : Option PublicKey) (profile : ProfileConfig) : Type 0 where
  pub serial : GoodSerial cert.serial_number
  pub chronological : cert.not_before <ℤ cert.not_after
  pub constraints : cert.basic_constraints_valid ≡ true
  pub authority : cert.is_ca ≡ profile.is_ca
  pub alignment : signs_only key ≡ true → has_usage cert.key_usage key_encipherment ≡ false
  pub signing : cert.is_ca ≡ true → has_usage cert.key_usage cert_sign ≡ true
  pub named : profile.require_san ≡ true → unnamed cert ≡ false
  pub server :
      str_eq profile.profile_type profile_server_tls ≡ true
      → any (λ eku. eku == server_auth) cert.ext_key_usage ≡ true

has_lint_errors-append :
    (rs ss : List LintResult)
    → has_lint_errors (rs ++ ss) ≡ (has_lint_errors rs || has_lint_errors ss)
unfolding has_lint_errors
has_lint_errors-append [] ss = refl
has_lint_errors-append (r ∷ rs) ss = ground (arith, has_lint_errors-append rs ss)

has_lint_errors-lint : (b : Bool) (rule : Str) → has_lint_errors (lint b rule) ≡ b
unfolding has_lint_errors
has_lint_errors-lint true rule = refl
has_lint_errors-lint false rule = refl

bad_serial : Option ℤ → Bool
bad_serial none = true
bad_serial (some n) = not (is_pos n) || ltb 159 (bit_len (pos_part n + neg_part n))

has_lint_errors-serial : (o : Option ℤ) → has_lint_errors (lint_serial o) ≡ bad_serial o
unfolding lint_serial bad_serial
has_lint_errors-serial none = has_lint_errors-lint true _
has_lint_errors-serial (some n) = simp (has_lint_errors-append, has_lint_errors-lint)

-- The lints, as one test.
broken : Template → Option PublicKey → ProfileConfig → Bool
broken cert key profile =
    bad_serial cert.serial_number
    || (not (ltb_ℤ cert.not_before cert.not_after)
        || (not cert.basic_constraints_valid
            || (not (same_bool cert.is_ca profile.is_ca)
                || ((signs_only key && has_usage cert.key_usage key_encipherment)
                    || ((cert.is_ca && not (has_usage cert.key_usage cert_sign))
                        || ((profile.require_san && unnamed cert)
                            || (str_eq profile.profile_type profile_server_tls
                                && not (any (λ eku. eku == server_auth) cert.ext_key_usage))))))))

lint_certificate-broken :
    (cert : Template) (key : Option PublicKey) (profile : ProfileConfig)
    → has_lint_errors (lint_certificate cert key profile) ≡ broken cert key profile
unfolding broken
lint_certificate-broken cert key profile =
    unfold lint_certificate in
    simp (has_lint_errors-append, has_lint_errors-lint, has_lint_errors-serial)

GoodSerial-iff : (o : Option ℤ) → (bad_serial o ≡ false) ↔ GoodSerial o
unfolding bad_serial
GoodSerial-iff none = (λ h. cc, λ g. absurd g)
GoodSerial-iff (some n) = (λ h. (ground arith, ground (arith)), λ g. ground (arith, g.0, g.1))

broken-Clean :
    (cert : Template) (key : Option PublicKey) (profile : ProfileConfig)
    → broken cert key profile ≡ false
    → Clean cert key profile
unfolding broken
broken-Clean cert key profile h = record {
  serial = (GoodSerial-iff cert.serial_number).0 (ground arith);
  chronological = ground arith;
  constraints = ground arith;
  authority = ground arith;
  alignment = λ q. ground arith;
  signing = λ q. ground arith;
  named = λ q. ground arith;
  server = λ q. ground arith;
}

Clean-broken :
    (cert : Template) (key : Option PublicKey) (profile : ProfileConfig)
    → Clean cert key profile
    → broken cert key profile ≡ false
unfolding broken
Clean-broken cert key profile c = ground (
  arith,
  (GoodSerial-iff cert.serial_number).1 c.serial,
  c.chronological,
  c.constraints,
  c.authority,
  c.alignment,
  c.signing,
  c.named,
  c.server,
)

-- The lints report no error exactly when the serial is positive and of at most 159 bits, the
-- validity is not empty, the basic constraints are marked valid and agree with the profile, a key
-- that only signs is not asserted for key encipherment, a CA may sign certificates, a required name
-- is there, and a TLS server's certificate is for server authentication.
pub lint_certificate_exact :
    (cert : Template) (key : Option PublicKey) (profile : ProfileConfig)
    → (has_lint_errors (lint_certificate cert key profile) ≡ false) ↔ Clean cert key profile
lint_certificate_exact cert key profile =
    let e = lint_certificate-broken cert key profile in
    (λ h. broken-Clean cert key profile (sym e ∙ h), λ c. e ∙ Clean-broken cert key profile c)
