-- ===== src/Examples/Jws.antt =====
-- pkg/protocols/acme/jws.go on a small key, with a base64 that changes nothing, a JSON that writes
-- each field behind its length (and no JWK), and a signature that repeats the hash.
use go_certa.Prelude.{
  ℕ, zero, suc, lookup, insert, trim_prefix, pos, Str, codes, str_eq, str_eq_refl, true, false,
  Option, none, some, List, [], ◌∷◌, ◌++◌, ◌≡◌, ◌↔◌, ◌⊎◌, refl, ap, sym, ◌∙◌, subst, Option-cases,
  inl, inr, length, split_at, split_at-append, arith, is_empty,
}
use go_certa.Ca.Types.{PublicKey, rsa}
use go_certa.Http.{post}
use go_certa.Storage.Memory.{new_memory_storage}
use go_certa.Storage.Memory.Implements.{memory_store}
use go_certa.Acme.Nonce.{new_nonce_manager, generate_nonce, validate_and_consume_nonce}
use go_certa.Acme.Types.{Account, Request, Server}
use go_certa.Acme.Server.{Environment, new_server, lookup_key, verify_jws}
use go_certa.Acme.Server.Authentic.{decode_with, kept, HeldBy, accepted_is_signed}
use go_certa.Acme.Jws.{Jwk, JwsHeader, JwsMessage, Services, keyed, key_to_jwk, jwk_to_key}
use go_certa.Acme.Jws.Keys.{jwk_round_trip}
use go_certa.Acme.Jws.Message.{
  ParsedJws, KeyLookup, decoded, decode_and_verify_jws, Signer, rsa_private, payload_text,
  resolve_key, sign_jws, rs256,
}
use go_certa.Acme.Jws.Sound.{Authentic, decode_and_verify_exact}
use go_certa.Acme.Jws.Signed.{IsFaithful, signed_is_accepted}

abbrev pack : List Str → Str
pack [] = []
pack (s ∷ rest) = length s ∷ (s ++ pack rest)

abbrev and_rest : (Str → Option (List Str)) → Option (Str × Str) → Option (List Str)
and_rest next none = none
and_rest next (some (s, rest)) = elim (next rest) [ none ↦ none | some ts ↦ some (s ∷ ts) ]

abbrev unpack : ℕ → Str → Option (List Str)
unpack zero text = some []
unpack (suc n) [] = none
unpack (suc n) (width ∷ text) = and_rest (unpack n) (split_at width text)

unpack-pack : (parts : List Str) → unpack (length parts) (pack parts) ≡ some parts
unpack-pack [] = refl
unpack-pack (s ∷ rest) =
    rw (split_at-append s (pack rest) (length s) refl, and_rest, unpack-pack rest) refl

abbrev header_of : Option (List Str) → Option JwsHeader
header_of (some (alg ∷ nonce ∷ url ∷ kid ∷ [])) =
    some (record { alg = alg; nonce = nonce; url = url; jwk = none; kid = kid })
header_of _ = none

abbrev message_of : Option (List Str) → Option JwsMessage
message_of (some (protected_part ∷ payload ∷ signature ∷ [])) =
    some (record { protected_part = protected_part; payload = payload; signature = signature })
message_of _ = none

abbrev put_header : JwsHeader → Option Str
put_header h = elim h.jwk [
  | none ↦ some (pack (h.alg ∷ h.nonce ∷ h.url ∷ h.kid ∷ []))
  | some jwk ↦ none
]

abbrev services : Services
services = record {
  encode = λ s. s;
  decode = λ s. some s;
  unmarshal_message = λ s. message_of (unpack 3 s);
  marshal_message = λ m. some (pack (m.protected_part ∷ m.payload ∷ m.signature ∷ []));
  unmarshal_header = λ s. header_of (unpack 4 s);
  marshal_header = put_header;
  quote = λ s. s;
  sum = λ s. s;
  is_on_curve = λ x y. true;
  verify_rsa = λ n e hash sig. str_eq sig (1 ∷ hash);
  verify_ecdsa = λ curve x y hash r s. false;
}

some-inj : {A : Type 0} {a b : A} → some a ≡ some b → a ≡ b
some-inj e = cc e

header_lem :
    (h : JwsHeader) (j : Str)
    → put_header h ≡ some j
    → (header_of (unpack 4 j) ≡ some h) × (is_empty j ≡ false)
header_lem h j e = elim (Option-cases h.jwk) [
  | inl q ↦
      let same = some-inj (rw q at e) in
      let parts = h.alg ∷ h.nonce ∷ h.url ∷ h.kid ∷ [] in
      (
        ap (λ t. header_of (unpack 4 t)) (sym same)
            ∙ ap header_of (unpack-pack parts)
            ∙ ap (λ o. some (record h { jwk = o })) (sym q),
        subst (λ t. is_empty t ≡ false) same refl,
      )
  | inr (jwk, q) ↦ cc (rw q at e)
]

services-IsFaithful : IsFaithful services
services-IsFaithful = record {
  decodes = λ s. refl;
  sized = λ s. refl;
  header = λ h j _ e. header_lem h j e;
  message = λ prot payload sig j e.
      ap (λ t. message_of (unpack 3 t)) (sym (some-inj e))
      ∙ ap message_of (unpack-pack (prot ∷ payload_text services payload ∷ sig ∷ []));
}

abbrev key : PublicKey
key = rsa 771 (pos 65537)

jwk_round_trip_example :
    (jwk : Jwk) × (key_to_jwk services key ≡ keyed jwk) × (jwk_to_key services jwk ≡ some key)
jwk_round_trip_example = jwk_round_trip services key (λ s. refl) (omega arith)

abbrev signer : Signer
signer = record { public_key = key; private_key = rsa_private (λ hash. some (1 ∷ hash)) }

abbrev header : JwsHeader
header = record {
  alg = [];
  nonce = codes "n";
  url = codes "u";
  jwk = none;
  kid = codes "u/acme/acct/a1";
}

abbrev keys : KeyLookup
keys = some (λ kid. some key)

abbrev body : Str
body = pack (
    pack (rs256 ∷ codes "n" ∷ codes "u" ∷ codes "u/acme/acct/a1" ∷ [])
    ∷ codes "{}"
    ∷ (1 ∷ (pack (rs256 ∷ codes "n" ∷ codes "u" ∷ codes "u/acme/acct/a1" ∷ []) ++ codes ".{}"))
    ∷ [])

abbrev received : ParsedJws
received = record { header = record header { alg = rs256 }; payload = codes "{}"; public_key = key }

decode_and_verify_exact_example :
    (decode_and_verify_jws services body keys ≡ decoded received)
    ↔ Authentic services body keys received
decode_and_verify_exact_example = decode_and_verify_exact services body keys received

signed_is_accepted_example : decode_and_verify_jws services body keys ≡ decoded received
unfolding sign_jws payload_text resolve_key
signed_is_accepted_example =
    signed_is_accepted services signer header (codes "{}") rs256 body keys services-IsFaithful
      (record { alg = refl; nonce = refl; url = refl; key = tt; kid = refl })
      (λ hash sig e.
        subst (λ t. (str_eq t (1 ∷ hash) ≡ true) × (is_empty t ≡ false)) (some-inj e)
          (str_eq_refl (1 ∷ hash), refl))
      refl refl refl

abbrev account : Account
account = record {
  id = codes "a1";
  key = key;
  key_thumbprint = codes "t";
  terms_agreed = true;
  created_at = 0;
}

abbrev env : Environment
env = record {
  base_url = codes "u";
  skip_challenge_validation = false;
  decode_and_verify = decode_with services;
  thumbprint = λ k. some (codes "t");
  account_payload = λ p. none;
  order_payload = λ p. none;
  finalize_payload = λ p. some p;
  base64_url = λ s. some s;
  base64_std = λ s. none;
  pem = λ s. s;
  intermediate = codes "ca";
  library = record {
    parse_certificate_request = λ der. none;
    check_signature = λ csr. true;
    on_curve = λ curve x y. true;
    key_bits = λ k. none;
    sha1 = λ s. s;
    create_certificate = λ cert k. none;
  };
  authority = record { policy = none; intermediate_key = key; intermediate_key_id = codes "ca" };
}

abbrev server : Server memory_store
server = record (new_server memory_store (pos 100) new_memory_storage) {
  nonces = (generate_nonce (some (codes "n")) 5 (new_nonce_manager (pos 100))).1;
  accounts = (codes "a1", account) ∷ [];
}

abbrev request : Request
request = record {
  method = post;
  body = some body;
  now = 25;
  nonce_text = λ i. some (codes "m");
  id_text = λ i. i ∷ [];
  draws = [];
  surroundings = record { checked = λ i. none; within = λ i. none; clock = λ i. i };
  save_context = none;
}

accepted_is_signed_example :
    (body' : Str) × (p : ParsedJws) × (some body ≡ some body')
    × (kept p ≡ kept received)
    × Authentic services body' (some (lookup_key env server)) p
    × ((false ≡ true) ⊎ HeldBy server (codes "u/acme/acct/a1") key)
unfolding verify_jws decode_and_verify_jws lookup_key lookup str_eq trim_prefix
    validate_and_consume_nonce generate_nonce insert new_nonce_manager
accepted_is_signed_example =
    accepted_is_signed services env request (kept received) server (verify_jws env request server).1
      refl refl
