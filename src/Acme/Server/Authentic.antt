-- ===== src/Acme/Server/Authentic.antt =====
-- pkg/protocols/acme/server.go and jws.go: the server with the message decoding of jws.go.
use mathlib.Core.List.{append_assoc}
use go_certa.Prelude.{
  codes, Str, Bool, true, false, Option, none, some, is_some, ◌≡◌, ◌⊎◌, refl, sym, ap, ◌∙◌,
  Bool-cases, inl, inr, [], ◌∷◌, ◌++◌, ◌==◌, lookup, contains_byte, has_prefix, trim_prefix,
  trim_prefix_lem, Option-cases, subst, arith,
}
use go_certa.Ca.Types.{PublicKey}
use go_certa.Storage.Contract.{Store}
use go_certa.Acme.Types
use go_certa.Acme.Types.{
  Account, JwsError, unknown_account, other_error, Verified, verified, unverified, Request, Server,
}
use go_certa.Acme.Jws.{JwsHeader, Services}
use go_certa.Acme.Jws.Message.{
  ParsedJws, Failure, Decoded, decoded, failed, lookup_failed, decode_and_verify_jws,
}
use go_certa.Acme.Jws.Checks.{LeadsTo}
use go_certa.Acme.Jws.Sound.{Authentic, decode_and_verify_exact}
use go_certa.Acme.Server.{
  Environment, account_prefix, accepted, after_slash, lookup_key, verify_jws, check_body,
  check_verified, check_nonce, consumed,
}

-- What the handlers use of a parsed message.
abbrev pub kept : ParsedJws → Types.ParsedJws
kept p = record {
  nonce = p.header.nonce;
  jwk_given = is_some p.header.jwk;
  kid = p.header.kid;
  payload = p.payload;
  public_key = p.public_key;
}

-- The server sees the error of lookupKey in the text of the error.
abbrev pub error_of : Failure → JwsError
error_of lookup_failed = unknown_account
error_of f = other_error

abbrev pub as_verified : Decoded ParsedJws → Verified
as_verified (decoded p) = verified (kept p)
as_verified (failed f) = unverified (error_of f)

-- DecodeAndVerifyJWS with the server's lookupKey.
abbrev pub decode_with : Services → Str → (Str → Option PublicKey) → Verified
decode_with svc body look = as_verified (decode_and_verify_jws svc body (some look))

as_verified-inv :
    (d : Decoded ParsedJws) (jws : Types.ParsedJws)
    → as_verified d ≡ verified jws
    → (p : ParsedJws) × (d ≡ decoded p) × (kept p ≡ jws)
as_verified-inv (decoded p) jws e = (p, refl, cc e)
as_verified-inv (failed f) jws e = cc

some-inj : {A : Type 0} {a b : A} → some a ≡ some b → a ≡ b
some-inj e = cc e

led_by_kid :
    (svc : Services) (header : JwsHeader) (look : Str → Option PublicKey) (key : PublicKey)
    → is_some header.jwk ≡ false
    → LeadsTo svc header (some look) key
    → look header.kid ≡ some key
led_by_kid svc header look key absent (inl (jwk, q, k)) = cc (rw q at absent)
led_by_kid svc header look key absent (inr (find, q, x, given, found)) =
    ap (λ f. f header.kid) (some-inj given) ∙ found

-- A text from its end back to a slash; `best` where there is none.
after_slash-cases :
    (best s : Str)
    → ((contains_byte s b'/' ≡ false) × (after_slash best s ≡ best))
      ⊎ ((contains_byte (after_slash best s) b'/' ≡ false)
          × ((front : Str) × (s ≡ front ++ (b'/' ∷ after_slash best s))))
unfolding after_slash contains_byte
after_slash-cases best [] = inl (refl, refl)
after_slash-cases best (c ∷ s) = elim (Bool-cases (c == b'/')) [
  | inl e ↦ elim (after_slash-cases s s) [
    | inl (none_left, same) ↦ inr (rw (e, same) none_left, ([], rw (e, same) (ground arith)))
    | inr (clean, (front, cut)) ↦ inr (rw e clean, (c ∷ front, rw e (ap (λ t. c ∷ t) cut)))
  ]
  | inr e ↦ elim (after_slash-cases best s) [
    | inl (none_left, same) ↦ inl (rw e none_left, rw e same)
    | inr (clean, (front, cut)) ↦ inr (rw e clean, (c ∷ front, rw e (ap (λ t. c ∷ t) cut)))
  ]
]

-- An account id, in which no slash stands, is all of the key id or what stands behind its last slash.
abbrev pub Names : Str → Str → Type 0
Names kid id =
    (contains_byte id b'/' ≡ false) × ((kid ≡ id) ⊎ ((front : Str) × (kid ≡ front ++ (b'/' ∷ id))))

after_slash-Names : (s : Str) → Names s (after_slash s s)
after_slash-Names s = elim (after_slash-cases s s) [
  | inl (clean, same) ↦ (ap (λ t. contains_byte t b'/') same ∙ clean, inl (sym same))
  | inr (clean, cut) ↦ (clean, inr cut)
]

Names-prefix : (front s id : Str) → Names s id → Names (front ++ (b'/' ∷ s)) id
Names-prefix front s id (clean, inl e) = (clean, inr (front, ap (λ t. front ++ (b'/' ∷ t)) e))
Names-prefix front s id (clean, inr (f, e)) = (
  clean,
  inr (
    front ++ (b'/' ∷ f),
    ap (λ t. front ++ (b'/' ∷ t)) e ∙ sym (append_assoc front (b'/' ∷ f) (b'/' ∷ id)),
  ),
)

account_Names :
    (env : Environment) (kid : Str)
    → let account_id = trim_prefix kid (account_prefix env) in
      Names kid (after_slash account_id account_id)
account_Names env kid = elim (Bool-cases (has_prefix kid (account_prefix env))) [
  | inl e ↦
      let t = trim_prefix kid (account_prefix env) in
      let whole : (env.base_url ++ codes "/acme/acct") ++ (b'/' ∷ t) ≡ kid =
        append_assoc env.base_url (codes "/acme/acct") (b'/' ∷ t)
        ∙ sym (append_assoc env.base_url (codes "/acme/acct/") t)
        ∙ sym (trim_prefix_lem kid (account_prefix env) e) in
      subst (λ k. Names k (after_slash t t)) whole
        (Names-prefix (env.base_url ++ codes "/acme/acct") t (after_slash t t)
          (after_slash-Names t))
  | inr e ↦
      let same : trim_prefix kid (account_prefix env) ≡ kid = unfold trim_prefix in rw e refl in
      subst (λ t. Names kid (after_slash t t)) (sym same) (after_slash-Names kid)
]

module _ {store : Store} where
  -- An account of the server that the key id names has the key.
  abbrev pub HeldBy : Server store → Str → PublicKey → Type 0
  HeldBy s kid key =
      (id : Str) × (acct : Account) × Names kid id
      × (lookup id s.accounts ≡ some acct)
      × (acct.key ≡ key)

  lookup_key-HeldBy :
      (env : Environment) (s : Server store) (kid : Str) (key : PublicKey)
      → lookup_key env s kid ≡ some key
      → HeldBy s kid key
  unfolding lookup_key
  lookup_key-HeldBy env s kid key h =
      let account_id = trim_prefix kid (account_prefix env) in
      let id = after_slash account_id account_id in
      elim (Option-cases (lookup id s.accounts)) [
        | inl e ↦ cc (rw e at h)
        | inr (acct, e) ↦ (id, acct, account_Names env kid, e, some-inj (rw e at h))
      ]

  nonce_accepted :
      (r : Request) (jws jws' : Types.ParsedJws) (t : Bool × Server store) (s' : Server store)
      → check_nonce r jws t ≡ (accepted jws', s')
      → jws ≡ jws'
  nonce_accepted r jws jws' (true, s) s' e = cc e
  nonce_accepted r jws jws' (false, s) s' e = cc e

  verified_accepted :
      (r : Request) (v : Verified) (jws : Types.ParsedJws) (s s' : Server store)
      → check_verified r s v ≡ (accepted jws, s')
      → v ≡ verified jws
  verified_accepted r (unverified x) jws s s' e = cc e
  verified_accepted r (verified j) jws s s' e =
      ap verified (nonce_accepted r j jws (consumed r j s) s' e)

  body_accepted :
      (env : Environment) (r : Request) (jws : Types.ParsedJws) (s s' : Server store)
      (o : Option Str)
      → check_body env r s o ≡ (accepted jws, s')
      → (body : Str) × (o ≡ some body)
        × (env.decode_and_verify body (lookup_key env s) ≡ verified jws)
  body_accepted env r jws s s' none e = cc e
  body_accepted env r jws s s' (some body) e = (body, refl, verified_accepted r _ jws s s' e)

  -- The body of a request that a handler accepts was signed: by the key in its header, or, if the
  -- header has none, by the key of an account that the server holds, whose id is the key id or what
  -- stands behind its last slash.
  pub accepted_is_signed :
      (svc : Services) (env : Environment) (r : Request) (jws : Types.ParsedJws)
      (s s' : Server store)
      → env.decode_and_verify ≡ decode_with svc
      → verify_jws env r s ≡ (accepted jws, s')
      → (body : Str) × (p : ParsedJws) × (r.body ≡ some body)
        × (kept p ≡ jws)
        × Authentic svc body (some (lookup_key env s)) p
        × ((jws.jwk_given ≡ true) ⊎ HeldBy s jws.kid jws.public_key)
  unfolding verify_jws
  accepted_is_signed svc env r jws s s' d e =
      let (body, given, v) = body_accepted env r jws s s' r.body e in
      let (p, ok, same) =
        as_verified-inv (decode_and_verify_jws svc body (some (lookup_key env s))) jws
          (sym (ap (λ f. f body (lookup_key env s)) d) ∙ v) in
      let authentic = (decode_and_verify_exact svc body (some (lookup_key env s)) p).0 ok in
      (
        body,
        p,
        given,
        same,
        authentic,
        elim (Bool-cases jws.jwk_given) [
          | inl with_jwk ↦ inl with_jwk
          | inr absent ↦ inr (
              lookup_key-HeldBy env s jws.kid jws.public_key (
                ap (λ (j : Types.ParsedJws). lookup_key env s j.kid) (sym same)
                ∙ led_by_kid svc p.header (lookup_key env s) p.public_key
                    (ap (λ (j : Types.ParsedJws). j.jwk_given) same ∙ absent) authentic.resolves
                ∙ ap (λ (j : Types.ParsedJws). some j.public_key) same))
        ],
      )
