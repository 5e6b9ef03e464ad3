-- ===== src/Acme/Server.antt =====
-- pkg/protocols/acme/server.go: what the handlers run in, and what each of them does first. A
-- handler takes the server and returns its reply with the server that it leaves. The lock is
-- released and taken again within a request; the handlers are modelled as if requests did not
-- overlap. The handlers themselves are in Server/Handlers and Server/Finalize.
pub mod Handlers
pub mod Finalize
pub mod Routes
pub mod Unvalidated
pub mod Unready
pub mod Authentic
use go_certa.Prelude.{
  ℕ, ◌+◌, Str, codes, ℤ, trim_prefix, trim_suffix, lookup, Bool, true, false, Option, none, some,
  List, [], ◌∷◌, ◌++◌, ◌==◌, if◌then◌else◌, is_empty,
}
use go_certa.Ca.Types.{PublicKey}
use go_certa.Ca.Authority.{Library, Authority}
use go_certa.Storage.Contract.{Store}
use go_certa.Acme.Nonce.{new_nonce_manager, generate_nonce, validate_and_consume_nonce}
use go_certa.Acme.Types.{
  Problem, bad_nonce, malformed, account_does_not_exist, Account, ParsedJws, JwsError,
  unknown_account, other_error, Verified, verified, unverified, Request, Reply, problem, Server,
  Identifier, Method, post,
}

-- What the server is configured with, and what it calls: DecodeAndVerifyJWS, the thumbprint of a
-- key, the decoding of payloads, PEM, and the library behind the authority.
pub record Environment : Type 0 where
  pub base_url : Str
  pub skip_challenge_validation : Bool
  pub decode_and_verify : Str → (Str → Option PublicKey) → Verified
  pub thumbprint : PublicKey → Option Str
  -- onlyReturnExisting and termsOfServiceAgreed.
  pub account_payload : Str → Option (Bool × Bool)
  pub order_payload : Str → Option (List Identifier)
  -- The field csr.
  pub finalize_payload : Str → Option Str
  pub base64_url : Str → Option Str
  pub base64_std : Str → Option Str
  pub pem : Str → Str
  pub intermediate : Str
  pub library : Library
  pub authority : Authority

-- The base URL that NewServer keeps.
unfoldable pub kept_base_url : Str → Str
kept_base_url given =
    trim_suffix (if is_empty given then codes "http://localhost:8080" else given) (codes "/")

-- NewServer, with an authority and a storage that are not nil.
unfoldable pub new_server : (store : Store) → ℤ → store.State → Server store
new_server store nonce_ttl storage = record {
  nonces = new_nonce_manager nonce_ttl;
  accounts = [];
  accounts_by_thumb = [];
  orders = [];
  authorizations = [];
  challenges = [];
  certificates = [];
  order_authz_map = [];
  storage = storage;
}

-- What stands behind the last slash; `best` where there is none.
unfoldable pub after_slash : Str → Str → Str
after_slash best [] = best
after_slash best (c ∷ s) = after_slash (if c == b'/' then s else best) s

abbrev pub account_prefix : Environment → Str
account_prefix env = env.base_url ++ codes "/acme/acct/"

abbrev key_of : Option Account → Option PublicKey
key_of none = none
key_of (some acct) = some acct.key

abbrev pub is_post : Method → Bool
is_post post = true
is_post _ = false

pub data Checked : Type 0 where
  accepted : ParsedJws → Checked
  rejected : Reply → Checked

-- An error that says `account … not found` comes from lookupKey.
abbrev problem_of : JwsError → Problem
problem_of unknown_account = account_does_not_exist
problem_of other_error = malformed

module _ {store : Store} where
  unfoldable pub lookup_key : Environment → Server store → Str → Option PublicKey
  unfolding after_slash
  lookup_key env s kid =
      let account_id = trim_prefix kid (account_prefix env) in
      key_of (lookup (after_slash account_id account_id) s.accounts)

  -- The `i`th nonce of the request.
  unfoldable pub add_nonce_header : ℕ → Request → Server store → Server store
  add_nonce_header i r s = record s { nonces = (generate_nonce (r.nonce_text i) r.now s.nonces).1 }

  unfoldable pub write_problem : ℕ → Request → Problem → ℕ → Server store → Reply × Server store
  unfolding add_nonce_header
  write_problem i r p status s = (problem p status, add_nonce_header i r s)

  abbrev reject : ℕ → Request → Problem → Server store → Checked × Server store
  reject i r p s = (rejected (problem p 400), add_nonce_header i r s)

  -- A bad nonce costs two new ones.
  abbrev check_nonce : Request → ParsedJws → Bool × Server store → Checked × Server store
  check_nonce r jws (true, s) = (accepted jws, add_nonce_header 1 r s)
  check_nonce r jws (false, s) = reject 2 r bad_nonce (add_nonce_header 1 r s)

  unfoldable pub consumed : Request → ParsedJws → Server store → Bool × Server store
  consumed r jws s =
      let (good, m) = validate_and_consume_nonce jws.nonce r.now s.nonces in
      (good, record s { nonces = m })

  -- The nonce is looked at only behind a good signature.
  abbrev check_verified : Request → Server store → Verified → Checked × Server store
  check_verified r s (unverified e) = reject 1 r (problem_of e) s
  check_verified r s (verified jws) = check_nonce r jws (consumed r jws s)

  abbrev check_body : Environment → Request → Server store → Option Str → Checked × Server store
  check_body env r s none = reject 1 r malformed s
  check_body env r s (some body) =
      check_verified r s (env.decode_and_verify body (lookup_key env s))

  unfoldable pub verify_jws : Environment → Request → Server store → Checked × Server store
  unfolding add_nonce_header consumed
  verify_jws env r s = check_body env r s r.body

  abbrev resume :
      (ParsedJws → Server store → Reply × Server store)
      → Checked × Server store
      → Reply × Server store
  resume handle (rejected reply, s) = (reply, s)
  resume handle (accepted jws, s) = handle jws s

  -- `if !ok { return }` behind verifyJWS.
  abbrev pub with_jws :
      Environment
      → Request
      → (ParsedJws → Server store → Reply × Server store)
      → Server store
      → Reply × Server store
  with_jws env r handle s = resume handle (verify_jws env r s)

  -- Handlers that check the message of a POST, and take the other methods as they are.
  abbrev pub with_jws_of_post :
      Environment
      → Request
      → (Server store → Reply × Server store)
      → Server store
      → Reply × Server store
  with_jws_of_post env r handle s = elim (is_post r.method) [
    | true ↦ with_jws env r (λ _. handle) s
    | false ↦ handle s
  ]
