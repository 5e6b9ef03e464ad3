-- ===== src/Ctlog/Client/Packed.antt =====
-- pkg/ctlog/client.go and models.go: the bytes that the client packs, and MarshalBinary.
use go_certa.Prelude.{
  ℕ, ◌≤◌, ◌<◌, ◌%◌, pos, Str, codes, true, false, some, [], ◌∷◌, ◌++◌, length, is_empty, put_uint16,
  ◌≡◌, refl, ap, sym, arith, Bool-cases, inl, inr,
}
use go_certa.Ctlog.Sct.{SignedCertificateTimestamp, marshal_binary, sct_bytes}
use go_certa.Ctlog.Sct.Decode.{IsTyped}
use go_certa.Ctlog.Client.{
  AddChainResponse, Services, CtSubmitter, pack, read_response, read_reply, submit_pre_certificate,
  decode_log_id, decode_extensions,
}

-- The struct DigitallySigned: the algorithms, the length, the signature.
abbrev pub digitally_signed : ℕ → ℕ → Str → Str
digitally_signed hash sig s = hash ∷ sig ∷ (put_uint16 (length s) ++ s)

-- What a log answers for an SCT.
abbrev pub response_of : Services → SignedCertificateTimestamp → AddChainResponse
response_of svc sct = record {
  sct_version = pos sct.version;
  id = svc.base64_encode sct.log_id;
  timestamp = sct.timestamp;
  extensions = svc.base64_encode sct.extensions;
  signature = svc.base64_encode (digitally_signed sct.hash_algo sct.sig_algo sct.signature);
}

-- What is promised of base64.
pub record IsBase64 (svc : Services) : Type 0 where
  pub round_trip : (s : Str) → svc.base64_decode (svc.base64_encode s) ≡ some s
  pub empty : (s : Str) → is_empty (svc.base64_encode s) ≡ is_empty s

pub record IsSmall (sct : SignedCertificateTimestamp) : Type 0 where
  pub version_width : sct.version < 256
  pub extensions_width : length sct.extensions ≤ 65535
  pub signature_width : length sct.signature ≤ 65535

no_bytes : (s : Str) → is_empty s ≡ true → [] ≡ s
no_bytes [] h = refl
no_bytes (c ∷ s) h = cc

module _ (svc : Services) (b : IsBase64 svc) (sct : SignedCertificateTimestamp) (t : IsTyped sct)
    (n : IsSmall sct) where
  log_id_lem : decode_log_id svc (svc.base64_encode sct.log_id) ≡ some sct.log_id
  log_id_lem = rw (b.round_trip sct.log_id, decode_log_id, t.id_width) refl

  extensions_lem : decode_extensions svc (svc.base64_encode sct.extensions) ≡ some sct.extensions
  extensions_lem = elim (Bool-cases (is_empty sct.extensions)) [
    | inl e ↦
        rw (decode_extensions, b.empty sct.extensions, e) (ap some (no_bytes sct.extensions e))
    | inr e ↦ rw (decode_extensions, b.empty sct.extensions, e) (b.round_trip sct.extensions)
  ]

  pack_lem :
      pack
        (response_of svc sct)
        sct.log_id
        sct.extensions
        (digitally_signed sct.hash_algo sct.sig_algo sct.signature)
      ≡ sct_bytes sct
  unfolding pack
  pack_lem =
      let version : sct.version % 256 ≡ sct.version = omega (arith, n.version_width) in
      let width : length sct.extensions % 65536 ≡ length sct.extensions =
        omega (arith, n.extensions_width) in
      rw (version, width) refl

  small_marshal : marshal_binary sct ≡ some (sct_bytes sct)
  unfolding marshal_binary
  small_marshal = ground (arith, n.extensions_width, n.signature_width)

  pub read_response-marshal : read_response svc (response_of svc sct) ≡ marshal_binary sct
  unfolding read_response
  read_response-marshal =
      rw
        (
          read_response,
          log_id_lem,
          extensions_lem,
          b.round_trip (digitally_signed sct.hash_algo sct.sig_algo sct.signature),
          pack_lem,
        )
        (sym small_marshal)

-- With a log that answers an add-pre-chain request by the JSON of an SCT of the sizes that its types
-- and MarshalBinary allow, SubmitPreCertificate returns what MarshalBinary writes of that SCT. Base64
-- reads back what it writes.
submit_marshals :
    (c : CtSubmitter) (pre issuer body : Str) (sct : SignedCertificateTimestamp)
    → IsBase64 c.services
    → IsTyped sct
    → IsSmall sct
    → is_empty pre ≡ false
    → is_empty issuer ≡ false
    → c.services.exchange
        (c.url ++ codes "/ct/v1/add-pre-chain")
        (c.services.base64_encode pre ∷ c.services.base64_encode issuer ∷ [])
      ≡ some (200, body)
    → c.services.decode_response body ≡ some (response_of c.services sct)
    → submit_pre_certificate c pre issuer ≡ marshal_binary sct
unfolding submit_pre_certificate
submit_marshals c pre issuer body sct b t n p i e d =
    rw (submit_pre_certificate, p, i, e, read_reply, d) (read_response-marshal c.services b sct t n)
