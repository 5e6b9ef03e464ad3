-- ===== src/Ocsp/Phases.antt =====
-- pkg/protocols/ocsp/responder.go: the status of a response, by the phase of its serial.
use go_certa.Prelude.{
  ℕ, ℤ, pos, ◌+ℤ◌, ◌-ℤ◌, Str, codes, str_eq, str_eq_iff, str_eq_refl, is_empty, Bool, true, false,
  ◌==◌, if◌then◌else◌, not, ◌&&◌, ◌||◌, Option, none, some, [], ◌∷◌, ◌++◌, ◌≡◌, ◌⊎◌, refl, sym, ap,
  ◌∙◌, subst, arith, Bool-cases, inl, inr,
}
use go_certa.Http.{Method, get, head, post, other_method, Method-cases}
use go_certa.Storage.{CertificateRecord, RevocationRecord, Result, ok, err, normalize_serial}
use go_certa.Storage.Contract.{Store, Shows, Phase}
use go_certa.Storage.Contract
use go_certa.Ca.Types.{minute}
use go_certa.Ca.Serial.{text_16}
use go_certa.Ocsp.{
  Status, good, revoked, unknown, Handler, Headers, Reply, Response, Services, Request, answered,
  failed, request_bytes,
}
use go_certa.Ocsp.Responder.{
  Found, found, of_certificate, of_revocation, determine_status, is_served, parsed, signed_text,
  sign_status, serve, respond, headers_of, template,
}

-- The status that a serial in a phase should have.
abbrev pub status_of : Phase → Status
status_of Contract.Phase.unused = unknown
status_of Contract.Phase.reserved = unknown
status_of Contract.Phase.issued = good
status_of Contract.Phase.revoked = revoked

-- The hexadecimal serial under which the storage is asked.
abbrev pub serial_hex : ℤ → Str
serial_hex n = normalize_serial (signed_text text_16 n)

-- What a responder should find for a serial in a phase, given its revocation record.
abbrev pub told : Phase → Result RevocationRecord → Found
told Contract.Phase.unused read = found unknown 0 (pos 0)
told Contract.Phase.reserved read = found unknown 0 (pos 0)
told Contract.Phase.issued read = found good 0 (pos 0)
told Contract.Phase.revoked (ok rec) = found revoked rec.revoked_at rec.reason
told Contract.Phase.revoked (err e) = found revoked 0 (pos 0)

-- The time and the reason that a response for a serial in a phase should have.
abbrev pub time_of : Phase → Result RevocationRecord → ℕ
time_of Contract.Phase.revoked (ok rec) = rec.revoked_at
time_of p read = 0

abbrev pub reason_of : Phase → Result RevocationRecord → ℤ
reason_of Contract.Phase.revoked (ok rec) = rec.reason
reason_of p read = pos 0

-- The response that is to be signed for a serial in a phase, given its revocation record.
pub record Tells (h : Handler) (r : Request) (serial : ℤ) (p : Phase)
    (read : Result RevocationRecord) (response : Response) : Type 0 where
  pub status : response.status ≡ status_of p
  pub serial_number : response.serial_number ≡ serial
  pub this_update : response.this_update ≡ pos r.now -ℤ pos minute
  pub next_update : response.next_update ≡ pos r.now +ℤ h.validity
  pub revoked_at : response.revoked_at ≡ time_of p read
  pub reason : response.revocation_reason ≡ reason_of p read
  -- The responder's certificate is enclosed unless the issuer itself responds.
  pub certificate :
      response.certificate
      ≡ (if h.responder_cert.address == h.issuer_cert.address then none else some h.responder_cert)

abbrev quoted : Str → Str
quoted s = b'"' ∷ (s ++ b'"' ∷ [])

-- The client holds the response already, or asks for any.
abbrev pub Matches : Services → Request → Str → Type 0
Matches svc r der = (r.if_none_match ≡ quoted (svc.sum_hex der)) ⊎ (r.if_none_match ≡ codes "*")

abbrev body_for : Method → Str → Str
body_for head der = []
body_for m der = der

abbrev headers_for : Services → Handler → Request → Str → Headers
headers_for svc h r der = record {
  cache_max_age = h.cache_max_age;
  etag = quoted (svc.sum_hex der);
  last_modified = pos r.now -ℤ pos minute;
}

-- How a signed response goes out; none where the signing failed.
abbrev pub Delivers : Services → Handler → Request → Option Str → Reply → Type 0
Delivers svc h r none reply = reply ≡ failed 500
Delivers svc h r (some der) reply =
    (Matches svc r der × (reply ≡ answered 304 (headers_for svc h r der) []))
    ⊎ ((¬ Matches svc r der)
        × (reply ≡ answered 200 (headers_for svc h r der) (body_for r.method der)))

-- A reply that carries a signed response for a serial in a phase.
abbrev pub Responds :
    Services → Handler → Request → ℤ → Phase → Result RevocationRecord → Reply → Type 0
Responds svc h r serial p read reply =
    (response : Response) × Tells h r serial p read response
    × Delivers svc h r (h.signer h.issuer_cert h.responder_cert response) reply

told-cases :
    (p : Phase) (read : Result RevocationRecord)
    → (status : Status) × (at : ℕ) × (reason : ℤ) × (told p read ≡ found status at reason)
      × (status ≡ status_of p)
      × (at ≡ time_of p read)
      × (reason ≡ reason_of p read)
told-cases Contract.Phase.unused read = (unknown, 0, pos 0, refl, refl, refl, refl)
told-cases Contract.Phase.reserved read = (unknown, 0, pos 0, refl, refl, refl, refl)
told-cases Contract.Phase.issued read = (good, 0, pos 0, refl, refl, refl, refl)
told-cases Contract.Phase.revoked (ok rec) =
    (revoked, rec.revoked_at, rec.reason, refl, refl, refl, refl)
told-cases Contract.Phase.revoked (err e) = (revoked, 0, pos 0, refl, refl, refl, refl)

module _ (svc : Services) (h : Handler) (r : Request) where
  abbrev matched : Str → Bool
  matched der =
      not (is_empty r.if_none_match)
      && (str_eq r.if_none_match (quoted (svc.sum_hex der)) || str_eq r.if_none_match (codes "*"))

  matched-Matches : (der : Str) → matched der ≡ true → Matches svc r der
  matched-Matches der e = elim (Bool-cases (str_eq r.if_none_match (quoted (svc.sum_hex der)))) [
    | inl a ↦ inl ((str_eq_iff r.if_none_match (quoted (svc.sum_hex der))).0 a)
    | inr a ↦ inr ((str_eq_iff r.if_none_match (codes "*")).0 (ground (arith, e, a)))
  ]

  Matches-matched : (der : Str) → Matches svc r der → matched der ≡ true
  Matches-matched der (inl e) = rw (e, str_eq_refl (quoted (svc.sum_hex der))) refl
  Matches-matched der (inr e) = rw (e, str_eq_refl (codes "*")) (unfold str_eq in ground arith)

  sent :
      (der : Str) (m : Method)
      → r.method ≡ m
      → matched der ≡ false
      → respond svc h r (some der) ≡ answered 200 (headers_for svc h r der) (body_for m der)
  unfolding respond headers_of
  sent der head e f = rw (respond, f, e) refl
  sent der get e f = rw (respond, f, e) refl
  sent der post e f = rw (respond, f, e) refl
  sent der other_method e f = rw (respond, f, e) refl

  respond-Delivers : (o : Option Str) → Delivers svc h r o (respond svc h r o)
  unfolding respond headers_of
  respond-Delivers none = refl
  respond-Delivers (some der) = elim (Bool-cases (matched der)) [
    | inl e ↦ inl (matched-Matches der e, rw (respond, e) refl)
    | inr e ↦ inr ((λ m. cc (e, Matches-matched der m)), sent der r.method refl e)
  ]

  -- The response that is signed for what a phase lets be found.
  pub signed_Responds :
      (serial : ℤ) (p : Phase) (read : Result RevocationRecord)
      → Responds svc h r serial p read (sign_status svc h r serial (told p read))
  unfolding sign_status template
  signed_Responds serial p read =
      let (status, at, reason, e, same_status, same_time, same_reason) = told-cases p read in
      let response = template h r serial status at reason in
      rw e (
        response,
        record {
          status = same_status;
          serial_number = refl;
          this_update = refl;
          next_update = refl;
          revoked_at = same_time;
          reason = same_reason;
          certificate = refl;
        },
        respond-Delivers (h.signer h.issuer_cert h.responder_cert response),
      )

of_certificate-Shows :
    (p : Phase) (r : Result CertificateRecord) (read : Result RevocationRecord)
    → Shows p r
    → of_certificate r (of_revocation read) ≡ told p read
of_certificate-Shows Contract.Phase.unused r read h = rw h refl
of_certificate-Shows Contract.Phase.reserved r read h = rw h refl
of_certificate-Shows Contract.Phase.issued r read (c, e, f) = rw (e, f) refl
of_certificate-Shows Contract.Phase.revoked r (ok rec) (c, e, f) = rw (e, f) refl
of_certificate-Shows Contract.Phase.revoked r (err x) (c, e, f) = rw (e, f) refl

bytes_served :
    (svc : Services) (r : Request) (der : Str)
    → request_bytes svc r ≡ some der
    → is_served r.method ≡ true
unfolding request_bytes
bytes_served svc r der b = elim (Method-cases r.method) [
  | inl m ↦ rw m refl
  | inr (inl m) ↦ rw m refl
  | inr (inr (inl m)) ↦ rw m refl
  | inr (inr (inr m)) ↦ cc (rw (m, request_bytes) at b)
]

serve-parsed :
    (store : Store) (svc : Services) (h : Handler) (r : Request) (s s' : store.State) (der : Str)
    (serial : ℤ)
    → request_bytes svc r ≡ some der
    → svc.parse_request der ≡ some serial
    → serve store svc h r s s' ≡ sign_status svc h r serial (determine_status store h r serial s s')
unfolding serve
serve-parsed store svc h r s s' der serial b p = rw (bytes_served svc r der b, b, parsed, p) refl

pub serve_signs :
    (store : Store) (svc : Services) (h : Handler) (r : Request) (s s' : store.State) (der : Str)
    (serial : ℤ)
    → h.has_storage ≡ true
    → r.certificate_context ≡ none
    → request_bytes svc r ≡ some der
    → svc.parse_request der ≡ some serial
    → is_empty (normalize_serial (serial_hex serial)) ≡ false
    → serve store svc h r s s'
      ≡ sign_status svc h r serial (
          told
            (store.phase s (normalize_serial (serial_hex serial)))
            (store.get_revocation r.revocation_context (serial_hex serial) s'))
unfolding determine_status
serve_signs store svc h r s s' der serial on live b p ne =
    serve-parsed store svc h r s s' der serial b p
    ∙ ap (sign_status svc h r serial) (
        rw (on, live)
          (of_certificate-Shows (store.phase s (normalize_serial (serial_hex serial)))
            (store.get_certificate none (serial_hex serial) s)
            (store.get_revocation r.revocation_context (serial_hex serial) s')
            (store.shows s (serial_hex serial) ne)))

-- Over any storage that keeps the contract, a request that is decoded, with a live context for the
-- first read, is answered with a response that the signer is given, signed, that says unknown for a
-- serial that is unused or only reserved, good for an issued one and revoked for a revoked one,
-- then with the time and the reason that the second read returns, zero where it fails. The response
-- is for this serial, from a minute ago to the end of the validity; it is left out of the reply
-- for HEAD and where If-None-Match has its tag or `*`, and a failed signature is a 500.
pub serve_tells :
    (store : Store) (svc : Services) (h : Handler) (r : Request) (s s' : store.State) (der : Str)
    (serial : ℤ)
    → h.has_storage ≡ true
    → r.certificate_context ≡ none
    → request_bytes svc r ≡ some der
    → svc.parse_request der ≡ some serial
    → is_empty (normalize_serial (serial_hex serial)) ≡ false
    → Responds svc h r serial
        (store.phase s (normalize_serial (serial_hex serial)))
        (store.get_revocation r.revocation_context (serial_hex serial) s')
        (serve store svc h r s s')
serve_tells store svc h r s s' der serial on live b p ne =
    let phase = store.phase s (normalize_serial (serial_hex serial)) in
    let read = store.get_revocation r.revocation_context (serial_hex serial) s' in
    subst (Responds svc h r serial phase read)
      (sym (serve_signs store svc h r s s' der serial on live b p ne))
      (signed_Responds svc h r serial phase read)
