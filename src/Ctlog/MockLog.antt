-- ===== src/Ctlog/MockLog.antt =====
-- pkg/ctlog/mock_log.go: the handler of the log that the package serves in memory. Key generation
-- and the test server are the Go library's.
use go_certa.Prelude.{
  ℕ, ◌/◌, ◌%◌, pos, Str, Bool, true, false, Option, none, some, List, [], ◌∷◌, ◌++◌, length,
  put_uint16, put_uint64,
}
use go_certa.Ctlog.Client.{AddChainResponse, Services}

-- The log's id and key, and what the handler calls: the public key of an issuer certificate, its PKIX
-- form, SHA-256, the ECDSA signature of a digest, and JSON.
pub record MockCtLog : Type 0 where
  pub log_id : Str
  pub issuer_key : Str → Option Str
  pub marshal_key : Str → Option Str
  pub sha256 : Str → Str
  pub sign : Str → Option Str
  pub decode_request : Str → Option (List Str)
  pub encode_response : AddChainResponse → Str

-- The entry that is signed: the fields up to the extensions' length, which is 0.
abbrev pub sig_input : ℕ → Str → Str → Str
sig_input timestamp issuer_key_hash pre =
    0
    ∷ 0
    ∷ (put_uint64 timestamp
        ++ (put_uint16 1
            ++ (issuer_key_hash
                ++ (length pre / 65536 % 256
                    ∷ length pre / 256 % 256
                    ∷ length pre % 256
                    ∷ (pre ++ put_uint16 0)))))

-- Statuses 400, 405 and 500 have no body that the client reads.
abbrev pub failed : ℕ → ℕ × Str
failed status = (status, [])

module _ (m : MockCtLog) (svc : Services) (now : ℕ) where
  abbrev reply : Str → ℕ × Str
  reply asn1_sig = (
    200,
    m.encode_response (record {
      sct_version = pos 0;
      id = svc.base64_encode m.log_id;
      timestamp = now;
      extensions = [];
      signature = svc.base64_encode (4 ∷ 3 ∷ (put_uint16 (length asn1_sig % 65536) ++ asn1_sig));
    }),
  )

  abbrev signed : Str → Str → ℕ × Str
  signed pre issuer = elim (m.issuer_key issuer) [
    | none ↦ failed 400
    | some key ↦ elim (m.marshal_key key) [
      | none ↦ failed 500
      | some spki ↦ elim (m.sign (m.sha256 (sig_input now (m.sha256 spki) pre))) [
        | none ↦ failed 500
        | some asn1_sig ↦ reply asn1_sig
      ]
    ]
  ]

  -- The first two certificates of the chain; the others are not looked at.
  abbrev chained : List Str → ℕ × Str
  chained (a ∷ b ∷ chain) = elim (svc.base64_decode a) [
    | none ↦ failed 400
    | some pre ↦ elim (svc.base64_decode b) [ none ↦ failed 400 | some issuer ↦ signed pre issuer ]
  ]
  chained chain = failed 400

  unfoldable pub handle_add_pre_chain : Bool → Str → ℕ × Str
  unfolding put_uint16 put_uint64
  handle_add_pre_chain false body = failed 405
  handle_add_pre_chain true body = elim (m.decode_request body) [
    | none ↦ failed 400
    | some chain ↦ chained chain
  ]
