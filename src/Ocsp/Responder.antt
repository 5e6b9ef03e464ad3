-- ===== src/Ocsp/Responder.antt =====
-- pkg/protocols/ocsp/responder.go: the status of a serial, the response, and ServeHTTP. The two reads
-- of the storage are given the storage's state each, since other requests may come between them.
use go_certa.Prelude.{
  ℕ, ◌+◌, ◌/◌, ◌%◌, zero, suc, ◌==◌, ℤ, pos, negsuc, ◌+ℤ◌, ◌-ℤ◌, Str, codes, str_eq, Bool, true,
  false, not, ◌&&◌, ◌||◌, Option, none, some, [], ◌∷◌, ◌++◌, reverse, is_empty, if◌then◌else◌,
}
use go_certa.Http.{Method, head, other_method}
use go_certa.Storage.{
  not_found, CertificateRecord, RevocationRecord, Result, ok, err, normalize_serial,
}
use go_certa.Storage.Contract.{Store}
use go_certa.Ca.Types.{minute}
use go_certa.Ca.Serial.{text_16}
use go_certa.Ocsp.{
  Handler, Headers, Reply, Request, Response, Services, Status, answered, failed, good, not_allowed,
  request_bytes, revoked, unknown,
}

-- The digits to the base 10, the least first; a number is fuel enough for itself.
unfoldable pub decimal_digits : ℕ → ℕ → Str
decimal_digits zero n = []
decimal_digits (suc f) n =
    let rest = decimal_digits f (n / 10) in if n == 0 then [] else (48 + n % 10) ∷ rest

unfoldable pub text_10 : ℕ → Str
unfolding decimal_digits
text_10 n = if n == 0 then codes "0" else reverse (decimal_digits n n)

-- big.Int.Text and String, with the sign in front.
abbrev pub signed_text : (ℕ → Str) → ℤ → Str
signed_text text (pos n) = text n
signed_text text (negsuc n) = b'-' ∷ text (suc n)

pub data Found : Type 0 where
  found : Status → ℕ → ℤ → Found
  storage_failed : Found

abbrev pub of_revocation : Result RevocationRecord → Found
of_revocation (ok rec) = found revoked rec.revoked_at rec.reason
of_revocation (err e) = found revoked 0 (pos 0)

abbrev pub of_certificate : Result CertificateRecord → Found → Found
of_certificate (ok cert) revocation = if cert.revoked then revocation else found good 0 (pos 0)
of_certificate (err not_found) revocation = found unknown 0 (pos 0)
of_certificate (err e) revocation = storage_failed

abbrev of_legacy : Bool × ℕ × ℤ → Found
of_legacy (is, at, reason) = if is then found revoked at reason else found good 0 (pos 0)

-- The status of a serial: `s` is the storage's state at GetCertificate, `s'` at GetRevocation.
unfoldable pub determine_status :
    (store : Store) → Handler → Request → ℤ → store.State → store.State → Found
unfolding text_10 text_16
determine_status store h r serial s s' =
    let serial_hex = normalize_serial (signed_text text_16 serial) in
    if h.has_storage
    then of_certificate (store.get_certificate r.certificate_context serial_hex s)
        (of_revocation (store.get_revocation r.revocation_context serial_hex s'))
    else elim h.store [
      | none ↦ found good 0 (pos 0)
      | some f ↦ of_legacy (f (signed_text text_10 serial))
    ]

unfoldable pub template : Handler → Request → ℤ → Status → ℕ → ℤ → Response
template h r serial status rev_time reason = record {
  status = status;
  serial_number = serial;
  this_update = pos r.now -ℤ pos minute;
  next_update = pos r.now +ℤ h.validity;
  revoked_at = rev_time;
  revocation_reason = reason;
  certificate =
      if h.responder_cert.address == h.issuer_cert.address then none else some h.responder_cert;
}

abbrev pub etag_of : Services → Str → Str
etag_of svc der = b'"' ∷ (svc.sum_hex der ++ b'"' ∷ [])

unfoldable pub headers_of : Services → Handler → Request → Str → Headers
headers_of svc h r der = record {
  cache_max_age = h.cache_max_age;
  etag = etag_of svc der;
  last_modified = pos r.now -ℤ pos minute;
}

-- What follows the signature.
unfoldable pub respond : Services → Handler → Request → Option Str → Reply
unfolding headers_of str_eq
respond svc h r none = failed 500
respond svc h r (some der) =
    let headers = headers_of svc h r der in
    if not (is_empty r.if_none_match)
      && (str_eq r.if_none_match (etag_of svc der) || str_eq r.if_none_match (codes "*"))
    then answered 304 headers []
    else elim r.method [ head ↦ answered 200 headers [] | _ ↦ answered 200 headers der ]

unfoldable pub sign_status : Services → Handler → Request → ℤ → Found → Reply
unfolding respond template
sign_status svc h r serial storage_failed = failed 500
sign_status svc h r serial (found status rev_time reason) =
    respond svc h r
      (h.signer h.issuer_cert h.responder_cert (template h r serial status rev_time reason))

-- The methods that the switch serves.
abbrev pub is_served : Method → Bool
is_served other_method = false
is_served m = true

abbrev pub parsed : Services → Option Str → Option ℤ
parsed svc none = none
parsed svc (some der) = svc.parse_request der

abbrev pub answer_serial :
    (store : Store) → Services → Handler → Request → store.State → store.State → Option ℤ → Reply
answer_serial store svc h r s s' none = failed 400
answer_serial store svc h r s s' (some serial) =
    sign_status svc h r serial (determine_status store h r serial s s')

unfoldable pub serve :
    (store : Store) → Services → Handler → Request → store.State → store.State → Reply
unfolding request_bytes determine_status sign_status
serve store svc h r s s' =
    if is_served r.method
    then answer_serial store svc h r s s' (parsed svc (request_bytes svc r))
    else not_allowed
