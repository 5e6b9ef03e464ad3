-- ===== src/Server/Downloads.antt =====
-- cmd/certa-server/app.go: the handlers that serve the authority's certificates.
use go_certa.Prelude.{
  Str, codes, str_eq, to_lower, Bool, true, false, ◌||◌, ◌++◌, [], Option, some, ◌≡◌, refl, ◌⊎◌,
  inl, inr, Bool-cases, if◌then◌else◌,
}
use go_certa.Http.{Method, get, head, post, other_method}
use go_certa.Est.{contains}

-- What the handlers look at: the method, the query's format and the header Accept, empty if absent.
pub record DownloadRequest : Type 0 where
  pub method : Method
  pub format : Str
  pub accept : Str

pub data Download : Type 0 where
  -- 405, with Allow: GET, HEAD.
  not_allowed : Download
  -- 200, with the content type and the body; the response may be kept for 86400 seconds.
  served : Str → Str → Download

abbrev pub pem_type : Str
pem_type = codes "application/x-pem-file; charset=utf-8"

abbrev pub der_type : Str
der_type = codes "application/pkix-cert"

-- A GET is served with the body, a HEAD without.
unfoldable pub serve_body : Method → Str → Str → Download
serve_body get kind body = served kind body
serve_body head kind body = served kind []
serve_body post kind body = not_allowed
serve_body other_method kind body = not_allowed

unfoldable pub asks_for_pem : DownloadRequest → Bool
unfolding contains
asks_for_pem r =
    str_eq (to_lower r.format) (codes "pem")
    || contains (to_lower r.accept) (codes "application/x-pem-file")
    || contains (to_lower r.accept) (codes "text/plain")

-- /ca/intermediate.crt and /ca/root.crt.
unfoldable pub serve_certificate : Str → Str → DownloadRequest → Download
unfolding serve_body asks_for_pem
serve_certificate pem der r =
    if asks_for_pem r then serve_body r.method pem_type pem else serve_body r.method der_type der

-- /ca/intermediate.pem, /ca/root.pem and /ca/chain.pem.
unfoldable pub serve_pem : Str → DownloadRequest → Download
unfolding serve_body
serve_pem pem r = serve_body r.method pem_type pem

abbrev pub chain_pem : Str → Str → Str
chain_pem intermediate_pem root_pem = intermediate_pem ++ root_pem

-- With a PEM text that decodes to the certificate, a GET gets the certificate in the form that the
-- content type names, in PEM exactly if it asks for that.
serve_certificate-get :
    (decode : Str → Option (Str × Str)) (pem der format accept : Str)
    → decode pem ≡ some (codes "CERTIFICATE", der)
    → let r : DownloadRequest = record { method = get; format = format; accept = accept } in
      ((asks_for_pem r ≡ false) × (serve_certificate pem der r ≡ served der_type der))
      ⊎ ((asks_for_pem r ≡ true)
          × ((text : Str) × (serve_certificate pem der r ≡ served pem_type text)
              × (decode text ≡ some (codes "CERTIFICATE", der))))
unfolding serve_certificate serve_body
serve_certificate-get decode pem der format accept e =
    let r : DownloadRequest = record { method = get; format = format; accept = accept } in
    elim (Bool-cases (asks_for_pem r)) [
      | inl f ↦ inr (f, (pem, unfold asks_for_pem in rw f refl, e))
      | inr f ↦ inl (f, unfold asks_for_pem in rw f refl)
    ]
