-- ===== src/Acme/Jws/Message.antt =====
-- pkg/protocols/acme/jws.go: DecodeAndVerifyJWS and SignJWS.
use go_certa.Prelude.{
  ℕ, ◌==◌, ltb, length, big_bytes, set_bytes, Str, codes, str_eq, split_at, is_empty, Bool, not,
  ◌||◌, Option, none, some, [], ◌∷◌, ◌++◌, if◌then◌else◌,
}
use go_certa.Ca.Types.{PublicKey, rsa, ecdsa}
use go_certa.Acme.Jws.{
  JwsHeader, JwsMessage, Services, Keyed, keyed, refused, panic, pad, jwk_to_key,
}

pub record ParsedJws : Type 0 where
  pub header : JwsHeader
  pub payload : Str
  pub public_key : PublicKey

pub data Failure : Type 0 where
  invalid_jws invalid_key no_key_lookup lookup_failed missing_key : Failure
  unsupported_algorithm invalid_signature : Failure

pub data Decoded {ℓ} (A : Type ℓ) : Type ℓ where
  decoded : A → Decoded A
  failed : Failure → Decoded A

-- KeyLookupFunc, which may be nil.
abbrev pub KeyLookup : Type 0
KeyLookup = Option (Str → Option PublicKey)

abbrev pub rs256 : Str
rs256 = codes "RS256"

abbrev pub es256 : Str
es256 = codes "ES256"

abbrev pub or_failure {ℓ} : {A : Type ℓ} → Failure → Option A → Decoded A
or_failure f none = failed f
or_failure f (some a) = decoded a

abbrev pub looked_up : Str → KeyLookup → Decoded PublicKey
looked_up kid none = failed no_key_lookup
looked_up kid (some look) = or_failure lookup_failed (look kid)

abbrev pub signing_input : Str → Str → Str
signing_input protected_part payload = protected_part ++ b'.' ∷ payload

-- `if err != nil { return }`, then what follows.
abbrev pub then_with {ℓ κ} : {A : Type ℓ} {B : Type κ} → Decoded A → (A → Decoded B) → Decoded B
then_with (decoded a) next = next a
then_with (failed f) next = failed f

module _ (svc : Services) where
  unfoldable pub resolve_key : JwsHeader → KeyLookup → Decoded PublicKey
  unfolding jwk_to_key
  resolve_key header look = elim header.jwk [
    | some jwk ↦ or_failure invalid_key (jwk_to_key svc jwk)
    | none ↦ if is_empty header.kid then failed missing_key else looked_up header.kid look
  ]

  unfoldable pub read_payload : Str → Option Str
  read_payload payload = if is_empty payload then some [] else svc.decode payload

  abbrev pub passed : Bool → Decoded (Unit {0})
  passed good = if good then decoded tt else failed invalid_signature

  abbrev pub check_rsa : PublicKey → Str → Str → Decoded (Unit {0})
  check_rsa (rsa n e) hash sig = passed (svc.verify_rsa n e hash sig)
  check_rsa _ hash sig = failed invalid_signature

  abbrev pub check_halves : Str → ℕ → ℕ → Str → Option (Str × Str) → Decoded (Unit {0})
  check_halves curve x y hash none = failed invalid_signature
  check_halves curve x y hash (some (r, s)) =
      passed (svc.verify_ecdsa curve x y hash (set_bytes r) (set_bytes s))

  abbrev pub check_ecdsa : PublicKey → Str → Str → Decoded (Unit {0})
  check_ecdsa (ecdsa curve x y) hash sig =
      if not (length sig == 64)
      then failed invalid_signature
      else check_halves curve x y hash (split_at 32 sig)
  check_ecdsa _ hash sig = failed invalid_signature

  unfoldable pub check_signature : Str → PublicKey → Str → Str → Decoded (Unit {0})
  unfolding split_at
  check_signature alg key hash sig =
      if str_eq alg rs256
      then check_rsa key hash sig
      else if str_eq alg es256
      then check_ecdsa key hash sig
      else failed unsupported_algorithm

  abbrev pub parsed : JwsHeader → Str → PublicKey → ParsedJws
  parsed header payload key = record { header = header; payload = payload; public_key = key }

  abbrev pub with_signature : JwsMessage → JwsHeader → Str → PublicKey → Str → Decoded ParsedJws
  with_signature msg header payload key sig =
      then_with
        (check_signature header.alg key (svc.sum (signing_input msg.protected_part msg.payload))
          sig)
        (λ t. decoded (parsed header payload key))

  abbrev pub with_key : JwsMessage → JwsHeader → Str → PublicKey → Decoded ParsedJws
  with_key msg header payload key =
      then_with (or_failure invalid_jws (svc.decode msg.signature))
        (with_signature msg header payload key)

  abbrev pub with_payload : KeyLookup → JwsMessage → JwsHeader → Str → Decoded ParsedJws
  with_payload look msg header payload =
      then_with (resolve_key header look) (with_key msg header payload)

  abbrev pub with_header : KeyLookup → JwsMessage → JwsHeader → Decoded ParsedJws
  with_header look msg header =
      then_with (or_failure invalid_jws (read_payload msg.payload)) (with_payload look msg header)

  abbrev pub with_bytes : KeyLookup → JwsMessage → Str → Decoded ParsedJws
  with_bytes look msg bytes =
      then_with (or_failure invalid_jws (svc.unmarshal_header bytes)) (with_header look msg)

  abbrev pub verify_message : KeyLookup → JwsMessage → Decoded ParsedJws
  verify_message look msg =
      if is_empty msg.protected_part || is_empty msg.signature
      then failed invalid_jws
      else then_with (or_failure invalid_jws (svc.decode msg.protected_part)) (with_bytes look msg)

  unfoldable pub decode_and_verify_jws : Str → KeyLookup → Decoded ParsedJws
  unfolding resolve_key read_payload check_signature
  decode_and_verify_jws body look =
      then_with (or_failure invalid_jws (svc.unmarshal_message body)) (verify_message look)

-- The private key behind a signer, as the function of rsa.SignPKCS1v15 or ecdsa.Sign; a signer of
-- another type has none.
pub data PrivateKey : Type 0 where
  rsa_private : (Str → Option Str) → PrivateKey
  ecdsa_private : (Str → Option (ℕ × ℕ)) → PrivateKey
  other_signer : PrivateKey

pub record Signer : Type 0 where
  pub public_key : PublicKey
  pub private_key : PrivateKey

abbrev pub alg_of : PublicKey → Option Str
alg_of (rsa n e) = some rs256
alg_of (ecdsa curve x y) = some es256
alg_of _ = none

abbrev pub or_refused {ℓ} : {A : Type ℓ} → Option A → Keyed A
or_refused none = refused
or_refused (some a) = keyed a

abbrev pub halves : Option (ℕ × ℕ) → Keyed Str
halves none = refused
halves (some (r, s)) =
    if ltb 32 (length (big_bytes r)) || ltb 32 (length (big_bytes s))
    then panic
    else keyed (pad 32 (big_bytes r) ++ pad 32 (big_bytes s))

abbrev pub raw_signature : PrivateKey → Str → Keyed Str
raw_signature (rsa_private sign) hash = or_refused (sign hash)
raw_signature (ecdsa_private sign) hash = halves (sign hash)
raw_signature other_signer hash = refused

abbrev pub and_then {ℓ κ} : {A : Type ℓ} {B : Type κ} → Keyed A → (A → Keyed B) → Keyed B
and_then (keyed a) next = next a
and_then refused next = refused
and_then panic next = panic

module _ (svc : Services) where
  unfoldable pub payload_text : Str → Str
  payload_text payload = if is_empty payload then [] else svc.encode payload

  abbrev pub message_of : Str → Str → Str → JwsMessage
  message_of prot pay sig = record {
    protected_part = prot;
    payload = pay;
    signature = svc.encode sig;
  }

  abbrev pub with_raw : Str → Str → Str → Keyed Str
  with_raw prot pay sig = or_refused (svc.marshal_message (message_of prot pay sig))

  abbrev pub sign_parts : Signer → Str → Str → Keyed Str
  sign_parts signer prot pay =
      and_then (raw_signature signer.private_key (svc.sum (signing_input prot pay)))
        (with_raw prot pay)

  abbrev pub with_json : Signer → Str → Str → Keyed Str
  with_json signer payload json = sign_parts signer (svc.encode json) (payload_text payload)

  abbrev pub with_alg : Signer → JwsHeader → Str → Str → Keyed Str
  with_alg signer header payload alg =
      and_then (or_refused (svc.marshal_header (record header { alg = alg })))
        (with_json signer payload)

  unfoldable pub sign_jws : Signer → JwsHeader → Str → Keyed Str
  unfolding payload_text
  sign_jws signer header payload =
      and_then (or_refused (alg_of signer.public_key)) (with_alg signer header payload)
