-- ===== src/Ca/Authority/Logged.antt =====
-- pkg/ca/authority.go: SignCertificateWithCT. A submitter is a function of the pre-certificate and of
-- the issuer's certificate, or none where the pointer is nil.
pub mod Embedded
use go_certa.Prelude.{ℤ, Str, Option, none, some, List, [], ◌∷◌}
use go_certa.Ca.Types.{
  CertificateRequest, Template, Result, ok, create_failed, ct_submission_failed,
  ct_serialization_failed, ◌>>=◌, or_fail,
}
use go_certa.Ca.Profile.{ProfileConfig, ExtensionConfig}
use go_certa.Ca.Authority.{Library, Authority, prepare}
use go_certa.Ctlog.SctList.{serialize_sct_list}
use go_certa.Ctlog.Precert.{build_pre_certificate_template, embed_sct_list}

abbrev pub Submitter : Type 0
Submitter = Str → Str → Option Str

-- The SCTs of the submitters that are not nil, in their order; the first failure ends the loop.
unfoldable pub submit_all : Str → Str → List (Option Submitter) → Result (List Str)
submit_all pre issuer [] = ok []
submit_all pre issuer (none ∷ subs) = submit_all pre issuer subs
submit_all pre issuer (some submit ∷ subs) = do
  sct ← or_fail (submit pre issuer) ct_submission_failed
  scts ← submit_all pre issuer subs
  ok (sct ∷ scts)

-- The template with the list of the SCTs, if there are any.
unfoldable pub embed_scts : Template → List Str → Result Template
embed_scts cert [] = ok cert
embed_scts cert (sct ∷ scts) = do
  serialized ← or_fail (serialize_sct_list (sct ∷ scts)) ct_serialization_failed
  ok (embed_sct_list cert serialized)

-- From the prepared template on.
unfoldable pub log_and_sign :
    Library → Str → List (Option Submitter) → CertificateRequest → Template → Result Str
unfolding submit_all embed_scts
log_and_sign lib intermediate subs csr cert = do
  pre_tmpl ← or_fail (build_pre_certificate_template (some cert)) create_failed
  pre ← or_fail (lib.create_certificate pre_tmpl csr.public_key) create_failed
  scts ← submit_all pre intermediate subs
  final ← embed_scts cert scts
  or_fail (lib.create_certificate final csr.public_key) create_failed

unfoldable pub sign_certificate_with_ct :
    Library
    → Authority
    → ℤ
    → Str
    → Str
    → Option ℤ
    → ProfileConfig
    → ExtensionConfig
    → ℤ
    → List Str
    → List (Option Submitter)
    → Result Str
unfolding log_and_sign
sign_certificate_with_ct lib a now intermediate csr_der serial profile ext validity dns_names subs =
    prepare lib a now csr_der serial profile ext validity dns_names [] >>= λ prepared.
    log_and_sign lib intermediate subs prepared.0 prepared.1
