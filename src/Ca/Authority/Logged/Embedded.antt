-- ===== src/Ca/Authority/Logged/Embedded.antt =====
-- pkg/ca/authority.go: what SignCertificateWithCT logs, and what it issues.
use go_certa.Prelude.{
  ℤ, Str, is_empty, false, Option, none, some, List, [], ◌∷◌, ◌++◌, ◌≡◌, sym, ap, ◌∙◌,
}
use go_certa.Ca.Types.{
  CertificateRequest, Template, ok, create_failed, ct_serialization_failed, ct_submission_failed,
  or_fail, bind_ok, or_fail_ok,
}
use go_certa.Ca.Profile.{ProfileConfig, ExtensionConfig}
use go_certa.Ca.Authority.{Library, Authority, prepare}
use go_certa.Ca.Authority.Issued.{Conforms, prepare-Prepared}
use go_certa.Ca.Authority.Logged.{
  Submitter, submit_all, embed_scts, log_and_sign, sign_certificate_with_ct,
}
use go_certa.Ctlog.SctList.{serialize_sct_list}
use go_certa.Ctlog.SctList.Decode.{unmarshal_list, serialize_ne, serialize-unmarshal}
use go_certa.Ctlog.Precert.{
  build_pre_certificate_template, embed_sct_list, without_poison, poison, sct_list,
}

-- The final template is the one that was prepared, with the list of the SCTs, if there are any, as its
-- only further extension; the list reads back as the SCTs.
abbrev pub Embeds : Template → List Str → Template → Type 0
Embeds cert [] final = final ≡ cert
Embeds cert (sct ∷ scts) final =
    (s : Str) × (unmarshal_list s ≡ some (sct ∷ scts))
    × (final ≡ record cert { extra_extensions = sct_list s ∷ [] })

embed_plain :
    (cert : Template) (s : Str)
    → cert.extra_extensions ≡ []
    → is_empty s ≡ false
    → embed_sct_list cert s ≡ record cert { extra_extensions = sct_list s ∷ [] }
unfolding embed_sct_list
embed_plain cert s plain ne =
    rw ne (ap (λ x. record cert { extra_extensions = without_poison x ++ (sct_list s ∷ []) }) plain)

embed_scts-Embeds :
    (cert final : Template) (scts : List Str)
    → cert.extra_extensions ≡ []
    → embed_scts cert scts ≡ ok final
    → Embeds cert scts final
unfolding embed_scts
embed_scts-Embeds cert final [] plain h = cc
embed_scts-Embeds cert final (sct ∷ scts) plain h =
    let (s, written, e) =
      bind_ok (or_fail (serialize_sct_list (sct ∷ scts)) ct_serialization_failed) _ h in
    let out : serialize_sct_list (sct ∷ scts) ≡ some s =
      or_fail_ok _ ct_serialization_failed written in
    let same : embed_sct_list cert s ≡ final = cc in
    (s, serialize-unmarshal _ s out, sym same ∙ embed_plain cert s plain (serialize_ne _ s out))

-- Each submitter that is not nil returned its SCT for the pre-certificate, in their order.
abbrev pub Submitted : Str → Str → List (Option Submitter) → List Str → Type 0
Submitted pre issuer [] scts = scts ≡ []
Submitted pre issuer (none ∷ subs) scts = Submitted pre issuer subs scts
Submitted pre issuer (some submit ∷ subs) scts =
    (sct : Str) × (rest : List Str) × (scts ≡ sct ∷ rest)
    × (submit pre issuer ≡ some sct)
    × Submitted pre issuer subs rest

submit_all-Submitted :
    (pre issuer : Str) (subs : List (Option Submitter)) (scts : List Str)
    → submit_all pre issuer subs ≡ ok scts
    → Submitted pre issuer subs scts
unfolding submit_all
submit_all-Submitted pre issuer [] scts h = cc
submit_all-Submitted pre issuer (none ∷ subs) scts h = submit_all-Submitted pre issuer subs scts h
submit_all-Submitted pre issuer (some submit ∷ subs) scts h =
    let (sct, answered, h₁) = bind_ok (or_fail (submit pre issuer) ct_submission_failed) _ h in
    let (rest, others, h₂) = bind_ok (submit_all pre issuer subs) _ h₁ in
    (
      sct,
      rest,
      cc,
      or_fail_ok _ ct_submission_failed answered,
      submit_all-Submitted pre issuer subs rest others,
    )

-- The template of the pre-certificate.
abbrev pub poisoned : Template → Template
poisoned cert = record cert { extra_extensions = poison ∷ [] }

-- What was signed and logged on the way to `der`.
pub record Logged (lib : Library) (intermediate : Str) (subs : List (Option Submitter))
    (csr : CertificateRequest) (cert : Template) (der : Str) : Type 0 where
  pub pre : Str
  pub scts : List Str
  pub final : Template
  pub pre_signed : lib.create_certificate (poisoned cert) csr.public_key ≡ some pre
  pub submitted : Submitted pre intermediate subs scts
  pub embeds : Embeds cert scts final
  pub final_signed : lib.create_certificate final csr.public_key ≡ some der

log_and_sign-Logged :
    (lib : Library) (intermediate : Str) (subs : List (Option Submitter)) (csr : CertificateRequest)
    (cert : Template) (der : Str)
    → cert.extra_extensions ≡ []
    → log_and_sign lib intermediate subs csr cert ≡ ok der
    → Logged lib intermediate subs csr cert der
unfolding log_and_sign build_pre_certificate_template
log_and_sign-Logged lib intermediate subs csr cert der plain h =
    let pre_tmpl = record cert { extra_extensions = cert.extra_extensions ++ (poison ∷ []) } in
    let (pre, signed, h₁) =
      bind_ok (or_fail (lib.create_certificate pre_tmpl csr.public_key) create_failed) _ h in
    let (scts, submitted, h₂) = bind_ok (submit_all pre intermediate subs) _ h₁ in
    let (final, embedded, h₃) = bind_ok (embed_scts cert scts) _ h₂ in
    let same =
      ap
        (λ x.
          lib.create_certificate (record cert { extra_extensions = x ++ (poison ∷ []) })
            csr.public_key)
        plain in
    record {
      pre = pre;
      scts = scts;
      final = final;
      pre_signed = sym same ∙ or_fail_ok _ create_failed signed;
      submitted = submit_all-Submitted pre intermediate subs scts submitted;
      embeds = embed_scts-Embeds cert final scts plain embedded;
      final_signed = or_fail_ok _ create_failed h₃;
    }

-- A certificate that SignCertificateWithCT issues comes from a template with the given serial that
-- conforms to the request, the profile, the lints and what the policy says of keys and names. A pre-certificate was signed from that template
-- with the poison as its only further extension; every submitter that is not nil returned an SCT for
-- it; and the certificate is signed for the same key from the same template, without the poison and
-- with the list of just these SCTs, if there are any.
pub sign_certificate_with_ct-Conforms :
    (lib : Library) (a : Authority) (now : ℤ) (intermediate csr_der : Str) (serial : Option ℤ)
    (profile : ProfileConfig) (ext : ExtensionConfig) (validity : ℤ) (dns_names : List Str)
    (subs : List (Option Submitter)) (der : Str)
    → sign_certificate_with_ct lib a now intermediate csr_der serial profile ext validity dns_names
        subs
      ≡ ok der
    → (csr : CertificateRequest) × (cert : Template) × (lib.parse_certificate_request csr_der
        ≡ some csr)
      × (cert.serial_number ≡ serial)
      × Conforms lib a now profile validity ext dns_names [] csr cert
      × Logged lib intermediate subs csr cert der
unfolding sign_certificate_with_ct
sign_certificate_with_ct-Conforms lib a now intermediate csr_der serial profile ext validity
      dns_names subs der h =
    let (r, prepared, logged) =
      bind_ok (prepare lib a now csr_der serial profile ext validity dns_names []) _ h in
    let (parsed, numbered, conforms) =
      prepare-Prepared lib a now profile validity ext dns_names [] csr_der serial r prepared in
    (
      r.0,
      r.1,
      parsed,
      numbered,
      conforms,
      log_and_sign-Logged lib intermediate subs r.0 r.1 der conforms.plain logged,
    )
