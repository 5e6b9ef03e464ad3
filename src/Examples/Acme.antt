-- ===== src/Examples/Acme.antt =====
-- pkg/protocols/acme on small requests, with the in-memory storage. The environment of the examples
-- takes every message for one of one key, with the message itself as its nonce.
use go_certa.Prelude.{
  pos, Str, codes, lookup, insert, remove, none, some, List, [], ◌∷◌, true, false, ◌≡◌, refl,
  str_eq, Distinct, inr,
}
use go_certa.Ca.Types.{PublicKey, ed25519}
use go_certa.Ca.Serial.{Surroundings}
use go_certa.Ca.Authority.{Library}
use go_certa.Storage.Memory.{new_memory_storage}
use go_certa.Storage.Memory.Implements.{memory_store}
use go_certa.Acme.Nonce.{NonceManager, generate_nonce, validate_and_consume_nonce}
use go_certa.Acme.Nonce.SingleUse.{Event, generates, validates, cleans, run, nonce_single_use}
use go_certa.Acme.Types.{
  Identifier, pending, Challenge, Authorization, Order, ChallengeRef, ParsedJws, verified, post,
  Request, Server,
}
use go_certa.Acme.Server.{Environment, verify_jws, new_server}
use go_certa.Acme.Server.Handlers.{authz_is_valid, handle_challenge}
use go_certa.Acme.Server.Finalize.{handle_finalize_order}
use go_certa.Acme.Server.Unready.{SameButNonces, unready_unsigned}
use go_certa.Acme.Server.Unvalidated.{pending_becomes_valid}

abbrev manager : NonceManager
manager = record { nonces = (codes "n1", 100) ∷ (codes "n2", 20) ∷ []; ttl = 50 }

abbrev events : List Event
events = generates (some (codes "n")) 30 ∷ validates (codes "n2") 31 ∷ cleans 40 ∷ []

nonce_single_use_example :
    (validate_and_consume_nonce
      (codes "n1")
      60
      (run (validate_and_consume_nonce (codes "n1") 25 manager).1 events)).0
    ≡ false
unfolding validate_and_consume_nonce lookup str_eq
nonce_single_use_example = nonce_single_use (codes "n1") 25 60 manager events refl ((λ e. cc), tt)

distinct : Distinct manager.nonces
unfolding lookup str_eq
distinct = (refl, (refl, tt))

abbrev key : PublicKey
key = ed25519 (codes "key")

abbrev library : Library
library = record {
  parse_certificate_request = λ der. none;
  check_signature = λ csr. true;
  on_curve = λ curve x y. true;
  key_bits = λ k. none;
  sha1 = λ s. s;
  create_certificate = λ cert k. none;
}

abbrev message : Str → ParsedJws
message nonce = record {
  nonce = nonce;
  jwk_given = false;
  kid = codes "u/acme/acct/a1";
  payload = codes "{}";
  public_key = key;
}

abbrev env : Environment
env = record {
  base_url = codes "u";
  skip_challenge_validation = false;
  decode_and_verify = λ body look. verified (message body);
  thumbprint = λ k. some (codes "t");
  account_payload = λ p. none;
  order_payload = λ p. none;
  finalize_payload = λ p. some p;
  base64_url = λ s. some s;
  base64_std = λ s. none;
  pem = λ s. s;
  intermediate = codes "ca";
  library = library;
  authority = record { policy = none; intermediate_key = key; intermediate_key_id = codes "ca" };
}

abbrev live : Surroundings
live = record { checked = λ i. none; within = λ i. none; clock = λ i. i }

abbrev request : Request
request = record {
  method = post;
  body = some (codes "n1");
  now = 25;
  nonce_text = λ i. some (codes "m");
  id_text = λ i. i ∷ [];
  draws = [];
  surroundings = live;
  save_context = none;
}

abbrev challenge : Challenge
challenge = record {
  url = codes "u/acme/challenge/c";
  token = codes "t";
  status = pending;
  validated = none;
}

abbrev identifier : Identifier
identifier = record { kind = codes "dns"; value = codes "a.com" }

abbrev authz : Authorization
authz = record {
  id = codes "z";
  account_id = codes "a1";
  status = pending;
  expires = 900;
  identifier = identifier;
  challenges = challenge ∷ [];
}

abbrev order : Order
order = record {
  id = codes "o";
  account_id = codes "a1";
  status = pending;
  expires = 900;
  identifiers = identifier ∷ [];
  authorizations = codes "u/acme/authz/z" ∷ [];
  finalize_url = codes "u/acme/order/o/finalize";
  certificate_url = [];
}

abbrev ref : ChallengeRef
ref = record { authz_id = codes "z"; index = 0 }

abbrev server : Server memory_store
server = record (new_server memory_store (pos 50) new_memory_storage) {
  nonces = manager;
  orders = (codes "o", order) ∷ [];
  authorizations = (codes "z", authz) ∷ [];
  challenges = (codes "c", ref) ∷ [];
  order_authz_map = (codes "z", codes "o") ∷ [];
}

-- The server behind the check of the message.
abbrev checked : Server memory_store
checked = record server {
  nonces = record manager { nonces = (codes "n2", 20) ∷ (codes "m", 75) ∷ [] };
}

pending_becomes_valid_example :
    authz_is_valid
      (lookup (codes "z") (handle_challenge env request (codes "c") server).1.authorizations)
    ≡ true
unfolding verify_jws lookup str_eq new_server validate_and_consume_nonce generate_nonce insert
    remove
pending_becomes_valid_example =
    pending_becomes_valid env request (codes "c") server checked (message (codes "n1")) ref authz
      challenge refl refl refl refl refl refl

unready_unsigned_example :
    SameButNonces server (handle_finalize_order env request (codes "o") server).1
unfolding lookup str_eq
unready_unsigned_example =
    unready_unsigned env request server (codes "o") order [] [] (codes "z") refl refl
      (inr (authz, refl, λ e. cc))
