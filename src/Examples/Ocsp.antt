-- ===== src/Examples/Ocsp.antt =====
-- pkg/protocols/ocsp on a small storage: a certificate with the serial 171, saved and then revoked. A
-- request is its serial as one byte, and its base64 is the same byte.
use go_certa.Prelude.{
  ℕ, ℤ, pos, codes, Str, true, false, none, some, Option, List, [], ◌∷◌, ◌++◌, ◌≡◌, refl, insert,
  lookup, str_eq, has_prefix, arith,
}
use go_certa.Http.{post}
use go_certa.Storage.{Context, CertificateRecord, normalize_serial}
use go_certa.Storage.Contract.{Call, saves, reserves, Steps, Phase, revoke}
use go_certa.Storage.Memory.{
  MemoryStorage, new_memory_storage, save_certificate, revoke_certificate, get_revocation,
}
use go_certa.Storage.Memory.Calls.{execute}
use go_certa.Storage.Memory.Invariant.{IsConsistent, new-IsConsistent, execute-IsConsistent}
use go_certa.Storage.Memory.Implements.{memory_store}
use go_certa.Storage.Contract.History.{run}
use go_certa.Ca.Serial.{format_serial, text_16}
use go_certa.Ocsp.{Certificate, Handler, Services, Request, request_bytes}
use go_certa.Ocsp.Responder.{serve}
use go_certa.Ocsp.Api.{ApiRequest, RevokeRequest, RevokeResponse, handle_revoke, Replies}
use go_certa.Ocsp.Phases.{Responds, serial_hex, serve_tells}
use go_certa.Ocsp.Encoded.{as_get, as_post, get_serves_post}
use go_certa.Ocsp.Api.{handle_revoke_answers}
use go_certa.Ocsp.Lasting.{revoked_lasts}

abbrev certificate : CertificateRecord
certificate = record {
  serial = codes "0xAB";
  subject = codes "CN=a";
  issuer = codes "CN=ca";
  not_before = 10;
  not_after = 90;
  raw_der = 48 ∷ 3 ∷ [];
  pem = codes "pem";
  revoked = false;
}

abbrev saved : MemoryStorage
saved = (execute none 2 (saves (some certificate)) new_memory_storage).1

saved-IsConsistent : IsConsistent saved
saved-IsConsistent = execute-IsConsistent none 2 (saves (some certificate)) new-IsConsistent

abbrev issuer : Certificate
issuer = record { address = 1; raw = codes "ca" }

abbrev handler : Handler
handler = record {
  issuer_cert = issuer;
  responder_cert = issuer;
  signer = λ i c t. some (codes "signed");
  has_storage = true;
  store = none;
  cache_max_age = pos 60;
  validity = pos 1000;
}

abbrev first_byte : Str → Option ℤ
first_byte [] = none
first_byte (c ∷ s) = some (pos c)

abbrev services : Services
services = record {
  path_unescape = λ t. some t;
  query_unescape = λ t. none;
  std_decode = λ t. some t;
  url_decode = λ t. none;
  raw_std_decode = λ t. none;
  raw_url_decode = λ t. none;
  parse_request = first_byte;
  sum_hex = λ t. codes "ff";
}

abbrev request : Request
request = record {
  method = post;
  body = some (171 ∷ []);
  escaped_path = [];
  path = [];
  raw_query = [];
  if_none_match = [];
  now = 100;
  certificate_context = none;
  revocation_context = none;
}

serve_tells_example :
    Responds services handler request
      (pos 171)
      (memory_store.phase saved (normalize_serial (serial_hex (pos 171))))
      (memory_store.get_revocation none (serial_hex (pos 171)) saved)
      (serve memory_store services handler request saved saved)
unfolding normalize_serial request_bytes text_16
serve_tells_example =
    serve_tells memory_store services handler request saved saved (171 ∷ []) (pos 171) refl refl
      refl refl refl

get_serves_post_example :
    serve memory_store services handler (as_get (codes "/ocsp/" ++ (171 ∷ [])) request) saved saved
    ≡ serve memory_store services handler (as_post (171 ∷ []) request) saved saved
unfolding has_prefix
get_serves_post_example =
    get_serves_post memory_store services handler request saved saved (171 ∷ []) (171 ∷ [])
      (171 ∷ []) refl refl refl (refl, tt) refl

abbrev revoking : RevokeRequest
revoking = record { serial = codes " AB"; reason = pos 1 }

abbrev api_request : ApiRequest
api_request = record {
  method = post;
  payload = some revoking;
  now = 7;
  storage_now = 8;
  revoke_context = none;
  read_context = none;
}

abbrev unchanged : MemoryStorage → MemoryStorage
unchanged s = s

handle_revoke_answers_example :
    Replies memory_store
      (memory_store.phase saved (normalize_serial (normalize_serial (codes " AB"))))
      (normalize_serial (codes " AB"))
      (pos 1)
      (handle_revoke memory_store api_request unchanged saved).0
    × Steps memory_store.phase saved (normalize_serial (normalize_serial (codes " AB"))) revoke (
        memory_store.execute none 8 (Call.revokes (normalize_serial (codes " AB")) (pos 1) 7) saved)
    × ((handle_revoke memory_store api_request unchanged saved).1
        ≡ (memory_store.execute none 8
            (Call.revokes (normalize_serial (codes " AB")) (pos 1) 7)
            saved).1)
unfolding normalize_serial
handle_revoke_answers_example =
    handle_revoke_answers memory_store api_request unchanged revoking saved saved-IsConsistent refl
      refl refl refl refl

abbrev revoked : MemoryStorage
revoked = (handle_revoke memory_store api_request unchanged saved).1

abbrev later : List (Context × ℕ × Call)
later = (none, 9, reserves (codes "cd")) ∷ (none, 10, saves (some certificate)) ∷ []

abbrev view : RevokeResponse
view = record { serial = codes "ab"; reason = pos 1; revoked_at = 7 }

revoked_lasts_example :
    Responds services handler request
      (pos 171)
      Phase.revoked
      (memory_store.get_revocation none (format_serial (some 171)) revoked)
      (serve memory_store services handler request (run memory_store revoked later) revoked)
unfolding normalize_serial handle_revoke revoke_certificate execute save_certificate lookup insert
    str_eq request_bytes format_serial get_revocation
revoked_lasts_example =
    revoked_lasts memory_store api_request unchanged revoking 171 view saved revoked revoked later
      services handler request (171 ∷ []) saved-IsConsistent (omega arith) refl refl refl refl refl
      refl refl refl
