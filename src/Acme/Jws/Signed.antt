-- ===== src/Acme/Jws/Signed.antt =====
-- pkg/protocols/acme/jws.go: DecodeAndVerifyJWS accepts what SignJWS makes.
use go_certa.Prelude.{
  all, ℕ, ◌-◌, ◌≤◌, ◌++◌, ◌||◌, Str, is_empty, true, false, Option, none, some, [], length,
  length-append, length-zeroes, zeroes, ltb, big_bytes, split_at, split_at-append, str_eq, ◌≡◌,
  refl, ap, sym, ◌∙◌, arith, Bool-cases, Option-cases, suc, ◌∷◌, inl, inr,
}
use go_certa.Ca.Types.{PublicKey, rsa, ecdsa, ed25519, other}
use go_certa.Acme.Jws.{Jwk, JwsHeader, Services, Keyed, keyed, refused, panic, pad}
use go_certa.Acme.Jws.Keys.{ReadsBack, set_bytes-pad}
use go_certa.Acme.Jws.Message.{
  decoded, KeyLookup, signing_input, resolve_key, read_payload, check_signature, check_halves,
  check_ecdsa, decode_and_verify_jws, PrivateKey, rsa_private, ecdsa_private, other_signer, Signer,
  alg_of, or_refused, halves, raw_signature, and_then, payload_text, message_of, with_raw,
  with_json, with_alg, sign_jws,
}
use go_certa.Acme.Jws.Checks.{check_signature-Verifies, resolve_key-LeadsTo}
use go_certa.Acme.Jws.Sound.{decode_and_verify_exact}

abbrev pub IsAscii : Str → Type 0
IsAscii s = all (λ c. ltb c 128) s ≡ true

abbrev HasAsciiKey : Option Jwk → Type 0
HasAsciiKey none = Unit
HasAsciiKey (some jwk) =
    IsAscii jwk.kty
    × IsAscii jwk.crv
    × IsAscii jwk.x
    × IsAscii jwk.y
    × IsAscii jwk.n
    × IsAscii jwk.e

-- All strings of a header are ASCII. JSON replaces bytes that are not UTF-8.
pub record IsAsciiHeader (h : JwsHeader) : Type 0 where
  pub alg : IsAscii h.alg
  pub nonce : IsAscii h.nonce
  pub url : IsAscii h.url
  pub key : HasAsciiKey h.jwk
  pub kid : IsAscii h.kid

-- What is promised of base64, and of JSON on ASCII headers and on messages of base64 texts.
pub record IsFaithful (svc : Services) : Type 0 where
  pub decodes : ReadsBack svc
  pub sized : (s : Str) → is_empty (svc.encode s) ≡ is_empty s
  pub header :
      (h : JwsHeader) (j : Str)
      → IsAsciiHeader h
      → svc.marshal_header h ≡ some j
      → (svc.unmarshal_header j ≡ some h) × (is_empty j ≡ false)
  pub message :
      (prot payload sig j : Str)
      → svc.marshal_message (message_of svc (svc.encode prot) (payload_text svc payload) sig)
        ≡ some j
      → svc.unmarshal_message j
        ≡ some (message_of svc (svc.encode prot) (payload_text svc payload) sig)

-- What is promised of a key pair: its signatures verify.
abbrev pub Paired : Services → PublicKey → PrivateKey → Type 0
Paired svc (rsa n e) (rsa_private sign) =
    (hash sig : Str)
    → sign hash ≡ some sig
    → (svc.verify_rsa n e hash sig ≡ true) × (is_empty sig ≡ false)
Paired svc (ecdsa curve x y) (ecdsa_private sign) =
    (hash : Str) (r s : ℕ) → sign hash ≡ some (r, s) → svc.verify_ecdsa curve x y hash r s ≡ true
Paired svc _ _ = ⊥

keyed_then :
    {A : Type 0} {B : Type 0} (k : Keyed A) (next : A → Keyed B) (b : B)
    → and_then k next ≡ keyed b
    → (a : A) × (k ≡ keyed a) × (next a ≡ keyed b)
keyed_then (keyed a) next b e = (a, refl, e)
keyed_then refused next b e = cc
keyed_then panic next b e = cc

keyed_some : {A : Type 0} (o : Option A) (a : A) → or_refused o ≡ keyed a → o ≡ some a
keyed_some none a e = cc
keyed_some (some b) a e = cc

length-pad : (s : Str) → length s ≤ 32 → length (pad 32 s) ≡ 32
length-pad s h =
    rw (length-append (zeroes (32 - length s)) s, length-zeroes (32 - length s)) (omega (arith, h))

halves-keyed :
    (r s : ℕ) (sig : Str)
    → halves (some (r, s)) ≡ keyed sig
    → (length (big_bytes r) ≤ 32)
      × (length (big_bytes s) ≤ 32)
      × (pad 32 (big_bytes r) ++ pad 32 (big_bytes s) ≡ sig)
halves-keyed r s sig e =
    elim (Bool-cases (ltb 32 (length (big_bytes r)) || ltb 32 (length (big_bytes s)))) [
      | inl x ↦ cc (rw x at e)
      | inr x ↦ (ground (arith, x), ground (arith, x), cc (rw x at e))
    ]

length_ne : (s : Str) (n : ℕ) → length s ≡ suc n → is_empty s ≡ false
length_ne [] n e = absurd (omega (arith, e))
length_ne (c ∷ s) n e = refl

-- The bytes r and s, as the verifier cuts them.
halves_check :
    (svc : Services) (curve : Str) (x y r s : ℕ) (hash sig : Str)
    → svc.verify_ecdsa curve x y hash r s ≡ true
    → halves (some (r, s)) ≡ keyed sig
    → (check_ecdsa svc (ecdsa curve x y) hash sig ≡ decoded tt) × (is_empty sig ≡ false)
halves_check svc curve x y r s hash sig v e =
    let (nr, ns, same) = halves-keyed r s sig e in
    let front = length-pad (big_bytes r) nr in
    let back = length-pad (big_bytes s) ns in
    let width : length sig ≡ 64 =
      ap length (sym same)
      ∙ length-append (pad 32 (big_bytes r)) (pad 32 (big_bytes s))
      ∙ rw (front, back) refl in
    let cut : split_at 32 sig ≡ some (pad 32 (big_bytes r), pad 32 (big_bytes s)) =
      ap (split_at 32) (sym same)
      ∙ split_at-append (pad 32 (big_bytes r)) (pad 32 (big_bytes s)) 32 front in
    (
      rw (check_ecdsa, width, cut, check_halves, set_bytes-pad r, set_bytes-pad s, v) refl,
      length_ne sig 63 width,
    )

some-inj : {A : Type 0} {a b : A} → some a ≡ some b → a ≡ b
some-inj e = cc e

module _ (svc : Services) where
  raw_checks :
      (key : PublicKey) (priv : PrivateKey) (alg hash sig : Str)
      → Paired svc key priv
      → alg_of key ≡ some alg
      → raw_signature priv hash ≡ keyed sig
      → (check_signature svc alg key hash sig ≡ decoded tt) × (is_empty sig ≡ false)
  unfolding check_signature str_eq
  raw_checks (rsa n e) (rsa_private sign) alg hash sig p a s =
      let (v, ne) = p hash sig (keyed_some (sign hash) sig s) in (rw (sym (some-inj a), v) refl, ne)
  raw_checks (ecdsa curve x y) (ecdsa_private sign) alg hash sig p a s =
      elim (Option-cases (sign hash)) [
        | inl q ↦ cc (rw q at s)
        | inr ((r, t), q) ↦
            let c = halves_check svc curve x y r t hash sig (p hash r t q) (rw q at s) in
            (rw (sym (some-inj a)) c.0, c.1)
      ]
  raw_checks (rsa n e) (ecdsa_private sign) alg hash sig p a s = absurd p
  raw_checks (rsa n e) other_signer alg hash sig p a s = absurd p
  raw_checks (ecdsa curve x y) (rsa_private sign) alg hash sig p a s = absurd p
  raw_checks (ecdsa curve x y) other_signer alg hash sig p a s = absurd p
  raw_checks (ed25519 k) priv alg hash sig p a s = absurd p
  raw_checks other priv alg hash sig p a s = absurd p

  payload_reads :
      IsFaithful svc → (payload : Str) → read_payload svc (payload_text svc payload) ≡ some payload
  unfolding read_payload payload_text
  payload_reads f [] = refl
  payload_reads f (c ∷ payload) = rw (f.sized (c ∷ payload)) (f.decodes (c ∷ payload))

-- What SignJWS makes with a pair of keys, DecodeAndVerifyJWS accepts, with the header under the key's
-- algorithm, the payload and the public key, if the header leads to that key. The strings of the
-- header are ASCII; base64 reads back what it writes, JSON what it writes of such headers and of
-- base64 texts, and the pair's signatures verify.
pub signed_is_accepted :
    (svc : Services) (signer : Signer) (header : JwsHeader) (payload alg body : Str)
    (look : KeyLookup)
    → IsFaithful svc
    → IsAsciiHeader (record header { alg = alg })
    → Paired svc signer.public_key signer.private_key
    → alg_of signer.public_key ≡ some alg
    → resolve_key svc (record header { alg = alg }) look ≡ decoded signer.public_key
    → sign_jws svc signer header payload ≡ keyed body
    → decode_and_verify_jws svc body look
      ≡ decoded (record {
        header = record header { alg = alg };
        payload = payload;
        public_key = signer.public_key;
      })
unfolding sign_jws
signed_is_accepted svc signer header payload alg body look f ascii pair a key e =
    let e1 : with_alg svc signer header payload alg ≡ keyed body = rw a at e in
    let (json, marshalled, e2) = keyed_then _ (with_json svc signer payload) body e1 in
    let (parses, json_ne) = f.header _ json ascii (keyed_some _ json marshalled) in
    let prot = svc.encode json in
    let pay = payload_text svc payload in
    let (sig, raw, e3) = keyed_then _ (with_raw svc prot pay) body e2 in
    let (checks, sig_ne) =
      raw_checks svc signer.public_key signer.private_key alg (svc.sum (signing_input prot pay)) sig
        pair a raw in
    let prot_ne : is_empty prot ≡ false = f.sized json ∙ json_ne in
    let enc_ne : is_empty (svc.encode sig) ≡ false = f.sized sig ∙ sig_ne in
    (decode_and_verify_exact svc body look _).1 (record {
      message = message_of svc prot pay sig;
      header_bytes = json;
      sig = sig;
      opens = f.message json payload sig body (keyed_some _ body e3);
      complete = rw (prot_ne, enc_ne) refl;
      header_decodes = f.decodes json;
      header_parses = parses;
      payload_reads = payload_reads svc f payload;
      resolves = (resolve_key-LeadsTo svc _ look signer.public_key).0 key;
      signature_decodes = f.decodes sig;
      verifies =
          (check_signature-Verifies svc alg signer.public_key (svc.sum (signing_input prot pay))
              sig).0
            checks;
    })
