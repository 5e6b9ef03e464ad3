-- ===== src/Acme/Jws.antt =====
-- pkg/protocols/acme/jws.go: keys as JWK, thumbprints, and the decoding, verifying and signing of
-- messages. Base64, JSON, SHA-256, the curve and the signature schemes are parameters.
pub mod Message
pub mod Keys
pub mod Checks
pub mod Sound
pub mod Signed
use go_certa.Prelude.{
  ℕ, ◌-◌, ◌%◌, ◌^◌, ltb, length, zeroes, big_bytes, set_bytes, ℤ, pos, negsuc, pos_part, neg_part,
  ◌+◌, Str, codes, str_eq, Bool, not, ◌||◌, Option, none, some, List, [], ◌∷◌, ◌++◌, if◌then◌else◌,
}
use go_certa.Ca.Types.{PublicKey, rsa, ecdsa}

-- The fields of a JWK; an absent one is empty.
pub record Jwk : Type 0 where
  pub kty : Str
  pub crv : Str
  pub x : Str
  pub y : Str
  pub n : Str
  pub e : Str

pub record JwsHeader : Type 0 where
  pub alg : Str
  pub nonce : Str
  pub url : Str
  pub jwk : Option Jwk
  pub kid : Str

pub record JwsMessage : Type 0 where
  pub protected_part : Str
  pub payload : Str
  pub signature : Str

pub record Services : Type 0 where
  -- base64.RawURLEncoding
  pub encode : Str → Str
  pub decode : Str → Option Str
  pub unmarshal_message : Str → Option JwsMessage
  pub marshal_message : JwsMessage → Option Str
  pub unmarshal_header : Str → Option JwsHeader
  pub marshal_header : JwsHeader → Option Str
  -- fmt's %q, sha256.Sum256, and the curve P-256.
  pub quote : Str → Str
  pub sum : Str → Str
  pub is_on_curve : ℕ → ℕ → Bool
  -- rsa.VerifyPKCS1v15: modulus, exponent, hash, signature; ecdsa.Verify: curve, X, Y, hash, r, s.
  pub verify_rsa : ℕ → ℤ → Str → Str → Bool
  pub verify_ecdsa : Str → ℕ → ℕ → Str → ℕ → ℕ → Bool

abbrev pub p256 : Str
p256 = codes "P-256"

-- The value, an error, or the panic of a negative slice bound.
pub data Keyed {ℓ} (A : Type ℓ) : Type ℓ where
  keyed : A → Keyed A
  refused panic : Keyed A

-- The size of an integer without its sign, as big.Int.Bytes writes it.
abbrev pub magnitude : ℤ → ℕ
magnitude e = pos_part e + neg_part e

-- The bytes in front of which 32 minus their length zeroes are put.
abbrev pub pad : ℕ → Str → Str
pad len bytes = zeroes (len - length bytes) ++ bytes

module _ (svc : Services) where
  unfoldable pub key_to_jwk : PublicKey → Keyed Jwk
  key_to_jwk (rsa n e) = keyed (record {
    kty = codes "RSA";
    crv = [];
    x = [];
    y = [];
    n = svc.encode (big_bytes n);
    e = svc.encode (big_bytes (magnitude e));
  })
  key_to_jwk (ecdsa curve x y) =
      if not (str_eq curve p256)
      then refused
      else if ltb 32 (length (big_bytes x)) || ltb 32 (length (big_bytes y))
      then panic
      else keyed (record {
        kty = codes "EC";
        crv = p256;
        x = svc.encode (pad 32 (big_bytes x));
        y = svc.encode (pad 32 (big_bytes y));
        n = [];
        e = [];
      })
  key_to_jwk _ = refused

  -- big.Int.Int64: the low 64 bits, in two's complement.
  abbrev pub int_64 : ℕ → ℤ
  int_64 v = let low = v % 2 ^ 64 in if ltb low (2 ^ 63) then pos low else negsuc (2 ^ 64 - 1 - low)

  abbrev pub rsa_key : Option Str → Option Str → Option PublicKey
  rsa_key (some n) (some e) = some (rsa (set_bytes n) (int_64 (set_bytes e)))
  rsa_key _ _ = none

  abbrev pub ec_key : Option Str → Option Str → Option PublicKey
  ec_key (some x) (some y) =
      if not (svc.is_on_curve (set_bytes x) (set_bytes y))
      then none
      else some (ecdsa p256 (set_bytes x) (set_bytes y))
  ec_key _ _ = none

  -- JWKToKey of a JWK that is not nil.
  unfoldable pub jwk_to_key : Jwk → Option PublicKey
  jwk_to_key jwk =
      if str_eq jwk.kty (codes "RSA")
      then rsa_key (svc.decode jwk.n) (svc.decode jwk.e)
      else if str_eq jwk.kty (codes "EC")
      then if not (str_eq jwk.crv p256) then none else ec_key (svc.decode jwk.x) (svc.decode jwk.y)
      else none

  abbrev quoted_field : Str → Str → Str
  quoted_field name value = b'"' ∷ (name ++ (b'"' ∷ b':' ∷ svc.quote value))

  abbrev joined_fields : List Str → Str
  joined_fields [] = []
  joined_fields (f ∷ []) = f
  joined_fields (f ∷ fs) = f ++ b',' ∷ joined_fields fs

  -- The JSON with its members in alphabetical order; none for another kty.
  unfoldable pub canonical_json : Jwk → Option Str
  canonical_json jwk =
      if str_eq jwk.kty (codes "RSA")
      then some (
          b'{'
          ∷ (joined_fields (
                quoted_field (codes "e") jwk.e
                ∷ quoted_field (codes "kty") jwk.kty
                ∷ quoted_field (codes "n") jwk.n
                ∷ [])
              ++ b'}' ∷ []))
      else if str_eq jwk.kty (codes "EC")
      then some (
          b'{'
          ∷ (joined_fields (
                quoted_field (codes "crv") jwk.crv
                ∷ quoted_field (codes "kty") jwk.kty
                ∷ quoted_field (codes "x") jwk.x
                ∷ quoted_field (codes "y") jwk.y
                ∷ [])
              ++ b'}' ∷ []))
      else none

  abbrev summed : Option Str → Keyed Str
  summed none = refused
  summed (some json) = keyed (svc.encode (svc.sum json))

  abbrev thumb_of : Keyed Jwk → Keyed Str
  thumb_of (keyed jwk) = summed (canonical_json jwk)
  thumb_of refused = refused
  thumb_of panic = panic

  unfoldable pub compute_jwk_thumbprint : PublicKey → Keyed Str
  unfolding key_to_jwk canonical_json
  compute_jwk_thumbprint key = thumb_of (key_to_jwk key)
