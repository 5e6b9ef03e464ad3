-- ===== src/Est.antt =====
-- pkg/protocols/est/handler.go: the certificates of the CA and the enrollment. The pool of
-- pkg/signer is a function from a request to its answer, or to none where the answer never comes.
-- PEM, base64 and the parsing of certificates are parameters.
pub mod Enrolled
use go_certa.Prelude.{
  ℕ, ◌*◌, pos, Str, codes, str_eq, has_prefix, trim_space, to_lower, Bool, false, ◌||◌, Option,
  none, some, List, [], ◌∷◌, ◌==◌, if◌then◌else◌,
}
use go_certa.Http.{Method, post}
use go_certa.Storage.{Context, CertificateRecord}
use go_certa.Storage.Contract.{Store, saves}
use go_certa.Ca.Types.{hour}
use go_certa.Ca.Serial.{
  RandInt, Surroundings, Reserved, reserved, not_generated, Generated, serial, starved,
  generate_serial, generate_and_reserve_serial,
}
use go_certa.Signer.{SignRequest, SignResponse}

-- What the handler reads of a certificate: FormatSerial of its serial, its names, its validity.
pub record Parsed : Type 0 where
  pub serial : Str
  pub subject : Str
  pub issuer : Str
  pub not_before : ℕ
  pub not_after : ℕ

pub record Services : Type 0 where
  pub pem_decode : Str → Option Str
  pub pem_encode : Str → Str
  pub base64_decode : Str → Option Str
  pub parse_certificate : Str → Option Parsed

pub record Handler : Type 0 where
  pub cacerts_pem : Str
  pub has_store : Bool

unfoldable pub new_handler : Services → Str → Bool → Handler
new_handler svc ca_cert_der has_store = record {
  cacerts_pem = svc.pem_encode ca_cert_der;
  has_store = has_store;
}

-- A request, with what its handler meets: the body unless reading it fails, the query's format, the
-- header Accept, the draws of a serial, the contexts and clocks.
pub record Request : Type 0 where
  pub method : Method
  pub body : Option Str
  pub format : Str
  pub accept : Str
  pub draws : List RandInt
  pub surroundings : Surroundings
  -- time.Now().UnixNano()
  pub unix_nano : ℕ
  pub save_context : Context
  pub save_now : ℕ
  -- The answer channel that the handler makes.
  pub res_chan : ℕ

pub data Reply : Type 0 where
  failed : ℕ → Reply
  ca_certs : Str → Reply
  pem_reply : Str → Reply
  der_reply : Str → Reply
  -- No reply: the handler waits for a random number or for its answer channel.
  waiting : Reply

-- HandleCACerts
unfoldable pub handle_ca_certs : Handler → Reply
handle_ca_certs h = ca_certs h.cacerts_pem

-- strings.ReplaceAll(s, c, "") for a single byte.
unfoldable pub remove_byte : ℕ → Str → Str
remove_byte b [] = []
remove_byte b (c ∷ s) = let rest = remove_byte b s in if c == b then rest else c ∷ rest

-- strings.Contains
unfoldable pub contains : Str → Str → Bool
unfolding has_prefix
contains [] sub = has_prefix [] sub
contains (c ∷ s) sub = let rest = contains s sub in has_prefix (c ∷ s) sub || rest

unfoldable pub decode_csr : Services → Str → Option Str
unfolding remove_byte trim_space
decode_csr svc body = elim (svc.pem_decode body) [
  | some bytes ↦ some bytes
  | none ↦ svc.base64_decode (trim_space (remove_byte 10 (remove_byte 13 body)))
]

unfoldable pub wants_pem : Request → Bool
unfolding contains to_lower str_eq
wants_pem r =
    str_eq (to_lower r.format) (codes "pem")
    || contains (to_lower r.accept) (codes "application/x-pem-file")
    || contains (to_lower r.accept) (codes "text/plain")

abbrev pub sign_request : Request → Str → ℕ → SignRequest
sign_request r csr_der n = record {
  csr_der = csr_der;
  serial = pos n;
  validity = pos (90 * 24 * hour);
  dns_names = [];
  res_chan = r.res_chan;
}

abbrev pub record_of : Services → Parsed → Str → CertificateRecord
record_of svc cert der = record {
  serial = cert.serial;
  subject = cert.subject;
  issuer = cert.issuer;
  not_before = cert.not_before;
  not_after = cert.not_after;
  raw_der = der;
  pem = svc.pem_encode der;
  revoked = false;
}

abbrev pub reply_with : Services → Request → Str → Reply
reply_with svc r der = if wants_pem r then pem_reply (svc.pem_encode der) else der_reply der

-- Without a storage: a serial of 128 bits, or the clock where the random source fails; none, while
-- the random source gives no number.
abbrev pub drawn_serial : Request → Generated → Option ℕ
drawn_serial r (serial n) = some n
drawn_serial r starved = none
drawn_serial r g = some r.unix_nano

module _ (store : Store) (svc : Services) (pool : SignRequest → Option SignResponse) where
  abbrev pub save_parsed : Request → Str → Option Parsed → store.State → store.State
  save_parsed r der none s = s
  save_parsed r der (some cert) s =
      (store.execute r.save_context r.save_now (saves (some (record_of svc cert der))) s).1

  -- The part behind the answer of the pool. The storage's answer is dropped.
  unfoldable pub finish :
      Handler → Request → Option SignResponse → store.State → Reply × store.State
  unfolding wants_pem
  finish h r none s = (waiting, s)
  finish h r (some none) s = (failed 500, s)
  finish h r (some (some der)) s =
      let saved = save_parsed r der (svc.parse_certificate der) s in
      (reply_with svc r der, if h.has_store then saved else s)

  abbrev pub with_reserved :
      Handler → Request → Str → Reserved × store.State × List RandInt → Reply × store.State
  with_reserved h r csr_der (reserved n, s, left) = finish h r (pool (sign_request r csr_der n)) s
  with_reserved h r csr_der (not_generated starved, s, left) = (waiting, s)
  with_reserved h r csr_der (e, s, left) = (failed 500, s)

  abbrev pub with_drawn : Handler → Request → Str → Option ℕ → store.State → Reply × store.State
  with_drawn h r csr_der none s = (waiting, s)
  with_drawn h r csr_der (some n) s = finish h r (pool (sign_request r csr_der n)) s

  unfoldable pub enroll : Handler → Request → Str → store.State → Reply × store.State
  unfolding finish
  enroll h r csr_der s =
      if h.has_store
      then with_reserved h r csr_der (generate_and_reserve_serial store r.surroundings s r.draws)
      else with_drawn h r csr_der (drawn_serial r (generate_serial r.draws).0) s

  abbrev pub enroll_csr : Handler → Request → Option Str → store.State → Reply × store.State
  enroll_csr h r none s = (failed 400, s)
  enroll_csr h r (some csr_der) s = enroll h r csr_der s

  abbrev enroll_body : Handler → Request → Option Str → store.State → Reply × store.State
  enroll_body h r none s = (failed 400, s)
  enroll_body h r (some body) s = enroll_csr h r (decode_csr svc body) s

  unfoldable pub handle_simple_enroll : Handler → Request → store.State → Reply × store.State
  unfolding enroll decode_csr
  handle_simple_enroll h r s = elim r.method [
    | post ↦ enroll_body h r r.body s
    | _ ↦ (failed 405, s)
  ]
