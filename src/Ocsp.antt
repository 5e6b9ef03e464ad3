-- ===== src/Ocsp.antt =====
-- pkg/protocols/ocsp/responder.go: the configuration of a responder and the decoding of a request;
-- the reply is in Responder. What the code takes from net/url, encoding/base64, crypto/sha256 and
-- x/crypto/ocsp is a parameter.
pub mod Responder
pub mod Api
pub mod Encoded
pub mod Phases
pub mod Lasting
use go_certa.Prelude.{
  ℕ, ◌*◌, ◌==◌, ℤ, pos, is_pos, Str, codes, has_prefix, trim_prefix, Dict, lookup, insert, Bool,
  true, false, Option, none, some, List, [], ◌∷◌, map, is_empty, if◌then◌else◌,
}
use go_certa.Http.{Method, get, head, post, other_method}
use go_certa.Storage.{Context}
use go_certa.Ca.Types.{hour}

-- RevocationStore: IsRevoked as a function.
abbrev pub RevocationStore : Type 0
RevocationStore = Str → Bool × ℕ × ℤ

pub record Recorded : Type 0 where
  pub revoked_at : ℕ
  pub reason : ℤ

-- MemoryRevocationStore, as its map.
abbrev pub MemoryRevocationStore : Type 0
MemoryRevocationStore = Dict Recorded

unfoldable pub revoke : Str → ℤ → ℕ → MemoryRevocationStore → MemoryRevocationStore
unfolding insert
revoke serial reason now m = insert serial (record { revoked_at = now; reason = reason }) m

-- A missing key gives the zero record.
abbrev recorded : Option Recorded → Bool × ℕ × ℤ
recorded none = (false, 0, pos 0)
recorded (some r) = (true, r.revoked_at, r.reason)

unfoldable pub is_revoked : MemoryRevocationStore → RevocationStore
unfolding lookup
is_revoked m serial = recorded (lookup serial m)

-- *x509.Certificate: the pointer, which the code compares, and the bytes.
pub record Certificate : Type 0 where
  pub address : ℕ
  pub raw : Str

pub data Status : Type 0 where
  good revoked unknown : Status

-- ocsp.Response, as a template.
pub record Response : Type 0 where
  pub status : Status
  pub serial_number : ℤ
  pub this_update : ℤ
  pub next_update : ℤ
  pub revoked_at : ℕ
  pub revocation_reason : ℤ
  pub certificate : Option Certificate

-- ocsp.CreateResponse with the signer: issuer, responder, template.
abbrev pub Signer : Type 0
Signer = Certificate → Certificate → Response → Option Str

pub record Config : Type 0 where
  pub issuer_cert : Option Certificate
  pub responder_cert : Option Certificate
  pub signer : Option Signer
  pub has_storage : Bool
  pub store : Option RevocationStore
  pub cache_max_age : ℤ
  pub validity : ℤ

pub record Handler : Type 0 where
  pub issuer_cert : Certificate
  pub responder_cert : Certificate
  pub signer : Signer
  pub has_storage : Bool
  pub store : Option RevocationStore
  pub cache_max_age : ℤ
  pub validity : ℤ

unfoldable pub new_handler : Certificate → Signer → Option RevocationStore → Handler
new_handler issuer_cert signer store = record {
  issuer_cert = issuer_cert;
  responder_cert = issuer_cert;
  signer = signer;
  has_storage = false;
  store = store;
  cache_max_age = pos 3600;
  validity = pos (24 * hour);
}

pub data Created : Type 0 where
  created : Handler → Created
  issuer_nil signer_nil : Created

abbrev default_cert : Certificate → Option Certificate → Certificate
default_cert issuer none = issuer
default_cert issuer (some c) = c

abbrev default_pos : ℤ → ℕ → ℤ
default_pos v d = if is_pos v then v else pos d

unfoldable pub new_responder : Config → Created
new_responder cfg = elim cfg.issuer_cert [
  | none ↦ issuer_nil
  | some issuer ↦ elim cfg.signer [
    | none ↦ signer_nil
    | some signer ↦ created (record {
      issuer_cert = issuer;
      responder_cert = default_cert issuer cfg.responder_cert;
      signer = signer;
      has_storage = cfg.has_storage;
      store = cfg.store;
      cache_max_age = default_pos cfg.cache_max_age 3600;
      validity = default_pos cfg.validity (24 * hour);
    })
  ]
]

pub record Services : Type 0 where
  pub path_unescape : Str → Option Str
  pub query_unescape : Str → Option Str
  pub std_decode : Str → Option Str
  pub url_decode : Str → Option Str
  pub raw_std_decode : Str → Option Str
  pub raw_url_decode : Str → Option Str
  -- The serial number of ocsp.ParseRequest, and fmt's %x of the SHA-256 sum.
  pub parse_request : Str → Option ℤ
  pub sum_hex : Str → Str

-- A request with what its handler meets: the body unless reading it fails, the clock, the contexts
-- of the two reads.
pub record Request : Type 0 where
  pub method : Method
  pub body : Option Str
  pub escaped_path : Str
  pub path : Str
  pub raw_query : Str
  pub if_none_match : Str
  pub now : ℕ
  pub certificate_context : Context
  pub revocation_context : Context

pub record Headers : Type 0 where
  pub cache_max_age : ℤ
  pub etag : Str
  pub last_modified : ℤ

-- http.Error with its code, the 405 with its Allow header, or an answer with its code and body.
pub data Reply : Type 0 where
  failed : ℕ → Reply
  not_allowed : Reply
  answered : ℕ → Headers → Str → Reply

abbrev or_else : Str → Str → Str
or_else s t = if is_empty s then t else s

abbrev or_some : Option Str → Option Str → Option Str
or_some none o = o
or_some (some s) o = some s

-- The loop over the prefixes: the first that fits is cut off.
unfoldable pub cut_route : List Str → Str → Str
unfolding has_prefix trim_prefix
cut_route [] raw = raw
cut_route (prefix ∷ rest) raw =
    if has_prefix raw prefix then trim_prefix raw prefix else cut_route rest raw

unfoldable pub raw_text : Request → Str
unfolding cut_route trim_prefix
raw_text r =
    or_else
      (trim_prefix (cut_route (codes "/ocsp/" ∷ codes "/ocsp" ∷ []) (or_else r.escaped_path r.path))
        (codes "/"))
      r.raw_query

-- strings.ReplaceAll(s, " ", "+")
unfoldable pub plus_for_space : Str → Str
plus_for_space = map (λ c. if c == b' ' then b'+' else c)

abbrev decode_unescaped : Services → Option Str → Option Str
decode_unescaped svc none = none
decode_unescaped svc (some text) =
    or_some (svc.std_decode text)
      (or_some (svc.url_decode text) (or_some (svc.raw_std_decode text) (svc.raw_url_decode text)))

abbrev spaced : Option Str → Option Str
spaced none = none
spaced (some text) = some (plus_for_space text)

unfoldable pub decode_text : Services → Str → Option Str
unfolding plus_for_space
decode_text svc raw =
    if is_empty raw
    then none
    else decode_unescaped svc (spaced (or_some (svc.path_unescape raw) (svc.query_unescape raw)))

-- The bytes of the request; none for a reply with 400.
unfoldable pub request_bytes : Services → Request → Option Str
unfolding raw_text decode_text
request_bytes svc r = elim r.method [
  | post ↦ r.body
  | get ↦ decode_text svc (raw_text r)
  | head ↦ decode_text svc (raw_text r)
  | other_method ↦ none
]
