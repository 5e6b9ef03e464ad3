-- ===== src/Ca/Authority/Issued.antt =====
-- pkg/ca/authority.go: the certificates that the authority issues.
use go_certa.Prelude.{
  ℕ, ℤ, ◌+ℤ◌, Str, Bool, true, false, not, ◌&&◌, Option, none, some, List, [], is_empty, ◌≡◌, ◌≢◌,
  ◌⊎◌, inl, inr, refl, sym, ◌∙◌, subst, arith, Bool-cases, Option-cases, pos, ◌-ℤ◌, ◌*◌, ◌∷◌,
}
use go_certa.Ca.Types.{
  PublicKey, CertificateRequest, Template, has_usage, clear_usage, digital_signature,
  key_encipherment, ok, malformed_csr, bad_proof_of_possession, validity_exceeded, san_required,
  lint_errors, key_id_failed, create_failed, reject_if, or_fail, then_ok, reject_ok, bind_ok,
  or_fail_ok, minute,
}
use go_certa.Ca.Profile.{ProfileConfig, ExtensionConfig}
use go_certa.Ca.Policy.{validate_public_key, validate_dns_names, effective, exceeds}
use go_certa.Ca.Policy.Csr.{
  KeyAllowed, validate_public_key_exact, AllAcceptable, validate_dns_names_iff, Within, exceeds_iff,
}
use go_certa.Ca.Lint.{has_lint_errors, lint_certificate, signs_only}
use go_certa.Ca.Lint.Clean.{Clean, lint_certificate_exact}
use go_certa.Ca.Authority.{
  Library, Authority, compute_subject_key_id, align_usage, authority_key_id, prefer, policy_of,
  template, positive_serial, prepare, sign_certificate_with_profile,
}

is_empty-inv : {A : Type 0} (s : List A) → is_empty s ≡ true → s ≡ []
is_empty-inv [] e = refl
is_empty-inv (x ∷ s) e = cc

not_empty : {A : Type 0} (s t : List A) → s ≡ t → is_empty t ≡ false → s ≢ []
not_empty s t e f = λ q. cc (rw (sym e ∙ q) at f)

module _ (lib : Library) (a : Authority) (now : ℤ) (profile : ProfileConfig) (validity : ℤ)
    (ext : ExtensionConfig) (dns_names ip_addresses : List Str) where
  -- The usage of the profile; a key that only signs loses key encipherment beside signatures.
  abbrev Aligned : PublicKey → ℕ → Type 0
  Aligned key usage =
      (((signs_only (some key) ≡ false) ⊎ (has_usage profile.key_usage digital_signature ≡ false))
        × (usage ≡ profile.key_usage))
      ⊎ ((signs_only (some key) ≡ true)
          × (has_usage profile.key_usage digital_signature ≡ true)
          × (usage ≡ clear_usage profile.key_usage key_encipherment))

  abbrev Named : Template → Type 0
  Named cert =
      (cert.dns_names ≢ [])
      ⊎ (cert.ip_addresses ≢ [])
      ⊎ (cert.email_addresses ≢ [])
      ⊎ (cert.uris ≢ [])

  -- What the profile and the configuration of the extensions say of a template.
  pub record Follows (csr : CertificateRequest) (cert : Template) : Type 0 where
    pub usage : Aligned csr.public_key cert.key_usage
    pub extended : cert.ext_key_usage ≡ profile.ext_key_usage
    pub constrained : cert.basic_constraints_valid ≡ true
    pub authority : cert.is_ca ≡ profile.is_ca
    pub path : cert.max_path_len ≡ profile.max_path_len
    pub path_zero : cert.max_path_len_zero ≡ profile.max_path_len_zero
    pub named : (profile.require_san ≡ false) ⊎ Named cert
    pub ocsp : cert.ocsp_server ≡ ext.ocsp_server_urls
    pub issuing : cert.issuing_certificate_url ≡ ext.issuing_certificate_urls
    pub lists : cert.crl_distribution_points ≡ ext.crl_distribution_points

  -- The authority's identifier: the intermediate's own, or one computed from its key, if that works.
  abbrev KeyId : Str → Type 0
  KeyId id =
      ((a.intermediate_key_id ≢ []) × (id ≡ a.intermediate_key_id))
      ⊎ ((a.intermediate_key_id ≡ [])
          × (((bits : Str) × (lib.key_bits a.intermediate_key ≡ some bits) × (id ≡ lib.sha1 bits))
              ⊎ ((lib.key_bits a.intermediate_key ≡ none) × (id ≡ []))))

  -- The template `cert`, made for the request `csr`, has the names and the identifiers that it should,
  -- and keeps to the profile and to what the policy says of keys and names.
  pub record Conforms (csr : CertificateRequest) (cert : Template) : Type 0 where
    pub subject : cert.subject ≡ csr.subject
    pub addresses : cert.ip_addresses ≡ prefer ip_addresses csr.ip_addresses
    pub emails : cert.email_addresses ≡ csr.email_addresses
    pub uris : cert.uris ≡ csr.uris
    pub begins : cert.not_before ≡ now -ℤ pos (5 * minute)
    pub key_id :
        (bits : Str) × (lib.key_bits csr.public_key ≡ some bits)
        × (cert.subject_key_id ≡ lib.sha1 bits)
    pub issuer_id : KeyId cert.authority_key_id
    pub follows : Follows csr cert
    pub possession : lib.check_signature csr ≡ true
    pub key : KeyAllowed (policy_of a) lib.on_curve csr.public_key
    pub names : cert.dns_names ≡ prefer dns_names csr.dns_names
    pub acceptable : AllAcceptable (policy_of a) cert.dns_names
    pub bound : Within (effective validity profile.default_validity) profile.allowed_max_validity
    pub ends : cert.not_after ≡ now +ℤ effective validity profile.default_validity
    pub clean : Clean cert (some csr.public_key) profile
    pub plain : cert.extra_extensions ≡ []

  align_usage-Aligned : (key : PublicKey) → Aligned key (align_usage key profile.key_usage)
  unfolding align_usage
  align_usage-Aligned key = elim (Bool-cases (signs_only (some key))) [
    | inr s ↦ inl (inl s, rw s refl)
    | inl s ↦ elim (Bool-cases (has_usage profile.key_usage digital_signature)) [
      | inr d ↦ inl (inr d, rw (s, d) refl)
      | inl d ↦ inr (s, d, rw (s, d) refl)
    ]
  ]

  issuer_id-KeyId : KeyId (authority_key_id lib a)
  unfolding authority_key_id compute_subject_key_id
  issuer_id-KeyId = elim (Bool-cases (is_empty a.intermediate_key_id)) [
    | inr e ↦ inl (not_empty _ _ refl e, rw e refl)
    | inl e ↦ inr (
      is_empty-inv a.intermediate_key_id e,
      elim (Option-cases (lib.key_bits a.intermediate_key)) [
        | inl q ↦ inr (q, rw (e, q) refl)
        | inr (bits, q) ↦ inl (bits, q, rw (e, q) refl)
      ],
    )
  ]

  module _ (csr_der : Str) (serial : Option ℤ) where
    abbrev pub Prepared : CertificateRequest × Template → Type 0
    Prepared r =
        (lib.parse_certificate_request csr_der ≡ some r.0)
        × (r.1.serial_number ≡ serial)
        × Conforms r.0 r.1

    abbrev unrequired_san : CertificateRequest → Bool
    unrequired_san c =
        profile.require_san
        && (is_empty (prefer dns_names c.dns_names)
            && is_empty (prefer ip_addresses c.ip_addresses)
            && is_empty c.email_addresses
            && is_empty c.uris)

    required_san :
        (c : CertificateRequest) (cert : Template)
        → cert.dns_names ≡ prefer dns_names c.dns_names
        → cert.ip_addresses ≡ prefer ip_addresses c.ip_addresses
        → cert.email_addresses ≡ c.email_addresses
        → cert.uris ≡ c.uris
        → unrequired_san c ≡ false
        → (profile.require_san ≡ false) ⊎ Named cert
    required_san c cert d i m u h = elim (Bool-cases profile.require_san) [
      | inr off ↦ inl off
      | inl on ↦ elim (Bool-cases (is_empty (prefer dns_names c.dns_names))) [
        | inr x ↦ inr (inl (not_empty _ _ d x))
        | inl x ↦ elim (Bool-cases (is_empty (prefer ip_addresses c.ip_addresses))) [
          | inr y ↦ inr (inr (inl (not_empty _ _ i y)))
          | inl y ↦ elim (Bool-cases (is_empty c.email_addresses)) [
            | inr z ↦ inr (inr (inr (inl (not_empty _ _ m z))))
            | inl z ↦ inr (inr (inr (inr (not_empty _ _ u (rw (on, x, y, z) at h)))))
          ]
        ]
      ]
    ]

    key_id_of :
        (key : PublicKey) (k : Str)
        → compute_subject_key_id lib key ≡ some k
        → (bits : Str) × (lib.key_bits key ≡ some bits) × (k ≡ lib.sha1 bits)
    unfolding compute_subject_key_id
    key_id_of key k h = elim (Option-cases (lib.key_bits key)) [
      | inl e ↦ cc (rw e at h)
      | inr (bits, e) ↦ (bits, e, cc (rw e at h))
    ]

    serial_of : (n : ℤ) → positive_serial serial ≡ ok n → some n ≡ serial
    serial_of n h = ground arith

    pub prepare-Prepared :
        (r : CertificateRequest × Template)
        → prepare lib a now csr_der serial profile ext validity dns_names ip_addresses ≡ ok r
        → Prepared r
    unfolding prepare template
    prepare-Prepared r h =
        let v = effective validity profile.default_validity in
        let (n, numbered, h₁) = bind_ok (positive_serial serial) _ h in
        let (c, parsed, h₂) =
          bind_ok (or_fail (lib.parse_certificate_request csr_der) malformed_csr) _ h₁ in
        let (proof, h₃) =
          then_ok (reject_if (not (lib.check_signature c)) bad_proof_of_possession) _ h₂ in
        let (bound, h₄) =
          then_ok (reject_if (exceeds v profile.allowed_max_validity) validity_exceeded) _ h₃ in
        let (named, h₅) = then_ok (reject_if (unrequired_san c) san_required) _ h₄ in
        let (key, h₆) =
          then_ok (validate_public_key (policy_of a) lib.on_curve c.public_key) _ h₅ in
        let (names, h₇) =
          then_ok (validate_dns_names (policy_of a) (prefer dns_names c.dns_names)) _ h₆ in
        let (skid, keyed, h₈) =
          bind_ok (or_fail (compute_subject_key_id lib c.public_key) key_id_failed) _ h₇ in
        let cert =
          template lib a c n profile ext now v (prefer dns_names c.dns_names)
            (prefer ip_addresses c.ip_addresses) skid in
        let lints = lint_certificate cert (some c.public_key) profile in
        let (linted, done) = then_ok (reject_if (has_lint_errors lints) (lint_errors lints)) _ h₈ in
        let same : ◌≡◌ {A = CertificateRequest × Template} (c, cert) r = cc in
        subst Prepared same (
          or_fail_ok _ malformed_csr parsed,
          serial_of n numbered,
          record {
            subject = refl;
            addresses = refl;
            emails = refl;
            uris = refl;
            begins = refl;
            key_id = key_id_of c.public_key skid (or_fail_ok _ key_id_failed keyed);
            issuer_id = issuer_id-KeyId;
            follows = record {
              usage = align_usage-Aligned c.public_key;
              extended = refl;
              constrained = refl;
              authority = refl;
              path = refl;
              path_zero = refl;
              named = required_san c cert refl refl refl refl (reject_ok _ san_required named);
              ocsp = refl;
              issuing = refl;
              lists = refl;
            };
            possession = ground (arith, reject_ok _ bad_proof_of_possession proof);
            key = (validate_public_key_exact (policy_of a) lib.on_curve c.public_key).0 key;
            names = refl;
            acceptable =
                (validate_dns_names_iff (policy_of a) (prefer dns_names c.dns_names)).0 names;
            bound =
                (exceeds_iff v profile.allowed_max_validity).0
                  (reject_ok _ validity_exceeded bound);
            ends = refl;
            clean =
                (lint_certificate_exact cert (some c.public_key) profile).0
                  (reject_ok _ (lint_errors lints) linted);
            plain = refl;
          },
        )

    -- A certificate that SignCertificateWithProfile issues is the library's certificate for the key
    -- of the parsed request and a template with the given serial that conforms: the request proves
    -- possession of its key, the key and all the DNS names keep to the policy, the validity is within
    -- the profile's bound and the lints are clean; the subject and the names are the request's,
    -- or the names given in their place, there is one if the profile requires it, the usages and the
    -- constraints are the profile's, the usage without key encipherment for a key that only
    -- signs, and the URLs are those configured. The policy's own bound on the validity is
    -- not among these: only ValidateCSR looks at it.
    pub issued_Conforms :
        (der : Str)
        → sign_certificate_with_profile lib a now csr_der serial profile ext validity dns_names
            ip_addresses
          ≡ ok der
        → (csr : CertificateRequest) × (cert : Template) × (lib.parse_certificate_request csr_der
            ≡ some csr)
          × (cert.serial_number ≡ serial)
          × (lib.create_certificate cert csr.public_key ≡ some der)
          × Conforms csr cert
    unfolding sign_certificate_with_profile
    issued_Conforms der h =
        let (r, prepared, signed) =
          bind_ok (prepare lib a now csr_der serial profile ext validity dns_names ip_addresses) _
            h in
        let (parsed, numbered, conforms) = prepare-Prepared r prepared in
        (r.0, r.1, parsed, numbered, or_fail_ok _ create_failed signed, conforms)

usage_cleared : (u : ℕ) → has_usage (clear_usage u key_encipherment) key_encipherment ≡ false
unfolding clear_usage has_usage
usage_cleared u = ground arith

-- Aligning the usage of a key that only signs takes key encipherment off whenever the usage has
-- signatures.
align_usage_cleared :
    (key : PublicKey) (usage : ℕ)
    → signs_only (some key) ≡ true
    → has_usage usage digital_signature ≡ true
    → has_usage (align_usage key usage) key_encipherment ≡ false
unfolding align_usage
align_usage_cleared key usage s d = ground (arith, usage_cleared usage)
