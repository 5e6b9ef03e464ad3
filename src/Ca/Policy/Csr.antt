-- ===== src/Ca/Policy/Csr.antt =====
-- pkg/ca/policy.go: ValidatePublicKey and ValidateCSR, and what they ask of a request.
use go_certa.Prelude.{
  ℤ, pos, is_pos, ◌≤ℤ◌, Str, str_eq, trim_space, to_lower, true, false, ◌&&◌, ◌||◌, some, List, [],
  ◌∷◌, any, length, All, ◌≡◌, ◌↔◌, refl, arith, Bool-cases, inl, inr,
}
use go_certa.Ca.Types.{
  PublicKey, rsa, ecdsa, ed25519, other, bit_len, CertificateRequest, ok, validity_exceeded,
  san_required, then_ok, reject_ok, reject_if,
}
use go_certa.Ca.Profile.{ProfileConfig, profile_server_tls}
use go_certa.Ca.Policy.{
  PolicyEngine, OnCurve, validate_dns_names, validate_public_key, validate_csr, effective, no_names,
  exceeds,
}
use go_certa.Ca.Policy.Names.{Acceptable, validate_dns_name_exact}

-- Long enough and with a large exponent; or on an allowed curve; or of 32 bytes.
abbrev pub KeyAllowed : PolicyEngine → OnCurve → PublicKey → Type 0
KeyAllowed p on_curve (rsa n e) = (p.min_rsa_key_size ≤ℤ pos (bit_len n)) × (pos 65537 ≤ℤ e)
KeyAllowed p on_curve (ecdsa curve x y) =
    (any (str_eq curve) p.allowed_ec_curves ≡ true) × (on_curve curve x y ≡ true)
KeyAllowed p on_curve (ed25519 k) = length k ≡ 32
KeyAllowed p on_curve other = ⊥

-- ValidatePublicKey accepts exactly the keys that the policy allows.
pub validate_public_key_exact :
    (p : PolicyEngine) (on_curve : OnCurve) (k : PublicKey)
    → (validate_public_key p on_curve k ≡ ok tt) ↔ KeyAllowed p on_curve k
unfolding validate_public_key
validate_public_key_exact p on_curve (rsa n e) =
    (λ h. (ground arith, ground arith), λ a. ground (arith, a.0, a.1))
validate_public_key_exact p on_curve (ecdsa curve x y) =
    (λ h. (ground arith, ground arith), λ a. ground (arith, a.0, a.1))
validate_public_key_exact p on_curve (ed25519 k) = (λ h. ground arith, λ a. ground arith)
validate_public_key_exact p on_curve other = (λ h. ground arith, λ a. absurd a)

-- In lower case and with no white space around it, each name is acceptable.
abbrev pub AllAcceptable : PolicyEngine → List Str → Type 0
AllAcceptable p = All (λ d. Acceptable p (trim_space (to_lower d)))

pub validate_dns_names_iff :
    (p : PolicyEngine) (ds : List Str) → (validate_dns_names p ds ≡ ok tt) ↔ AllAcceptable p ds
unfolding validate_dns_names
validate_dns_names_iff p [] = (λ _. tt, λ _. refl)
validate_dns_names_iff p (d ∷ ds) = (
  λ h. (
    (validate_dns_name_exact p d).0 (ground arith),
    (validate_dns_names_iff p ds).0 (ground arith),
  ),
  λ a. ground (arith, (validate_dns_name_exact p d).1 a.0, (validate_dns_names_iff p ds).1 a.1),
)

-- A bound that is not positive does not bind.
abbrev pub Within : ℤ → ℤ → Type 0
Within validity bound = is_pos bound ≡ true → validity ≤ℤ bound

pub exceeds_iff : (v b : ℤ) → (exceeds v b ≡ false) ↔ Within v b
exceeds_iff v b = (
  λ h q. ground arith,
  λ w. elim (Bool-cases (is_pos b)) [
    | inl q ↦ let h : v ≤ℤ b = w q in ground (arith, h)
    | inr q ↦ rw q
  ],
)

pub record Compliant (p : PolicyEngine) (on_curve : OnCurve) (csr : CertificateRequest)
    (profile : ProfileConfig) (validity : ℤ) : Type 0 where
  pub key : KeyAllowed p on_curve csr.public_key
  pub policy_bound : Within (effective validity profile.default_validity) p.max_validity_duration
  pub profile_bound :
      Within (effective validity profile.default_validity) profile.allowed_max_validity
  pub names : AllAcceptable p csr.dns_names
  pub named :
      (profile.require_san
          || (p.require_dns_or_ip && str_eq profile.profile_type profile_server_tls))
        ≡ true
      → no_names csr ≡ false

-- ValidateCSR accepts a request exactly when its key is allowed, its validity (the profile's
-- default if none is asked for) is within the policy's and the profile's bounds, its DNS names are
-- acceptable, and it has a name wherever the profile, or the policy for TLS servers, requires one.
-- An RSA exponent is allowed from 65537 on, also an even one.
pub validate_csr_exact :
    (p : PolicyEngine) (on_curve : OnCurve) (csr : CertificateRequest) (profile : ProfileConfig)
    (validity : ℤ)
    → (validate_csr p on_curve (some csr) profile validity ≡ ok tt)
      ↔ Compliant p on_curve csr profile validity
unfolding validate_csr
validate_csr_exact p on_curve csr profile validity = (
  accepted,
  λ c. ground (
    arith,
    (validate_public_key_exact p on_curve csr.public_key).1 c.key,
    (exceeds_iff (effective validity profile.default_validity) p.max_validity_duration).1
        c.policy_bound,
    (exceeds_iff (effective validity profile.default_validity) profile.allowed_max_validity).1
        c.profile_bound,
    (validate_dns_names_iff p csr.dns_names).1 c.names,
    c.named,
  ),
)
  where
    accepted :
        validate_csr p on_curve (some csr) profile validity ≡ ok tt
        → Compliant p on_curve csr profile validity
    accepted h =
        let v = effective validity profile.default_validity in
        let (key, h₁) = then_ok (validate_public_key p on_curve csr.public_key) _ h in
        let (first, h₂) =
          then_ok (reject_if (exceeds v p.max_validity_duration) validity_exceeded) _ h₁ in
        let (second, h₃) =
          then_ok (reject_if (exceeds v profile.allowed_max_validity) validity_exceeded) _ h₂ in
        let (names, san) = then_ok (validate_dns_names p csr.dns_names) _ h₃ in
        record {
          key = (validate_public_key_exact p on_curve csr.public_key).0 key;
          policy_bound =
              (exceeds_iff v p.max_validity_duration).0 (reject_ok _ validity_exceeded first);
          profile_bound =
              (exceeds_iff v profile.allowed_max_validity).0 (reject_ok _ validity_exceeded second);
          names = (validate_dns_names_iff p csr.dns_names).0 names;
          named = λ q. ground (arith, reject_ok _ san_required san);
        }
