-- ===== src/Ctlog/Client.antt =====
-- pkg/ctlog/client.go: CTSubmitter.
pub mod Packed
use go_certa.Prelude.{
  ℕ, ◌-◌, ◌%◌, ℤ, pos, negsuc, Str, codes, trim_suffix, not, ◌||◌, Option, none, some, List, [],
  ◌∷◌, ◌++◌, length, is_empty, ◌==◌, if◌then◌else◌, put_uint16, put_uint64,
}

-- AddChainResponse.
pub record AddChainResponse : Type 0 where
  pub sct_version : ℤ
  pub id : Str
  pub timestamp : ℕ
  pub extensions : Str
  pub signature : Str

-- encoding/base64's StdEncoding, the JSON of the response, and the POST of a chain to an endpoint
-- with its status and body; none, where one of these fails.
pub record Services : Type 0 where
  pub base64_encode : Str → Str
  pub base64_decode : Str → Option Str
  pub decode_response : Str → Option AddChainResponse
  pub exchange : Str → List Str → Option (ℕ × Str)

pub record CtSubmitter : Type 0 where
  pub url : Str
  pub services : Services

unfoldable pub new_ct_submitter : Str → Services → CtSubmitter
new_ct_submitter url services = record { url = trim_suffix url (codes "/"); services = services }

-- uint8(v)
abbrev pub low_byte : ℤ → ℕ
low_byte (pos n) = n % 256
low_byte (negsuc n) = 255 - n % 256

-- `sctBytes`, with the lengths of its parts as they are written.
unfoldable pub pack : AddChainResponse → Str → Str → Str → Str
unfolding put_uint16 put_uint64
pack resp log_id ext_bytes sig_bytes =
    low_byte resp.sct_version
    ∷ (log_id
        ++ (put_uint64 resp.timestamp
            ++ (put_uint16 (length ext_bytes % 65536) ++ (ext_bytes ++ sig_bytes))))

module _ (svc : Services) where
  abbrev decode_log_id : Str → Option Str
  decode_log_id id = elim (svc.base64_decode id) [
    | none ↦ none
    | some log_id ↦ if not (length log_id == 32) then none else some log_id
  ]

  abbrev decode_extensions : Str → Option Str
  decode_extensions exts = if is_empty exts then some [] else svc.base64_decode exts

  -- What follows the decoding of the JSON.
  unfoldable pub read_response : AddChainResponse → Option Str
  unfolding pack
  read_response resp = elim (decode_log_id resp.id) [
    | none ↦ none
    | some log_id ↦ elim (decode_extensions resp.extensions) [
      | none ↦ none
      | some ext_bytes ↦ elim (svc.base64_decode resp.signature) [
        | none ↦ none
        | some sig_bytes ↦ some (pack resp log_id ext_bytes sig_bytes)
      ]
    ]
  ]

  abbrev read_body : Option AddChainResponse → Option Str
  read_body none = none
  read_body (some resp) = read_response resp

  abbrev read_reply : Option (ℕ × Str) → Option Str
  read_reply none = none
  read_reply (some (status, body)) =
      if not (status == 200) then none else read_body (svc.decode_response body)

unfoldable pub submit_pre_certificate : CtSubmitter → Str → Str → Option Str
unfolding read_response
submit_pre_certificate c pre_cert_der issuer_cert_der =
    let svc = c.services in
    if is_empty pre_cert_der || is_empty issuer_cert_der
    then none
    else read_reply svc (
        svc.exchange (c.url ++ codes "/ct/v1/add-pre-chain")
          (svc.base64_encode pre_cert_der ∷ svc.base64_encode issuer_cert_der ∷ []))
