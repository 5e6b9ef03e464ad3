-- ===== src/Acme/Types.antt =====
-- pkg/protocols/acme/server.go: the objects of the protocol, the server's state and its replies.
-- Fields that only the client reads (contacts, order lists, the texts of errors) are left out.
use go_certa.Prelude.{ℕ, Str, Dict, Bool, Option, List}
use go_certa.Ca.Types.{PublicKey}
use go_certa.Ca.Serial.{RandInt, Surroundings}
use go_certa.Storage.{Context}
use go_certa.Storage.Contract.{Store}
use go_certa.Acme.Nonce.{NonceManager}
pub use go_certa.Http.{Method, get, head, post, other_method}

pub data Problem : Type 0 where
  bad_nonce malformed account_does_not_exist order_not_ready server_internal : Problem

pub record Account : Type 0 where
  pub id : Str
  pub key : PublicKey
  pub key_thumbprint : Str
  pub terms_agreed : Bool
  pub created_at : ℕ

pub record Identifier : Type 0 where
  pub kind : Str
  pub value : Str

pub data Status : Type 0 where
  pending ready processing valid invalid : Status

pub record Challenge : Type 0 where
  pub url : Str
  pub token : Str
  pub status : Status
  pub validated : Option ℕ

pub record Authorization : Type 0 where
  pub id : Str
  pub account_id : Str
  pub status : Status
  pub expires : ℕ
  pub identifier : Identifier
  pub challenges : List Challenge

pub record Order : Type 0 where
  pub id : Str
  pub account_id : Str
  pub status : Status
  pub expires : ℕ
  pub identifiers : List Identifier
  pub authorizations : List Str
  pub finalize_url : Str
  pub certificate_url : Str

pub record ChallengeRef : Type 0 where
  pub authz_id : Str
  pub index : ℕ

-- The verified message: the header's key, nonce and account URL, and the payload.
pub record ParsedJws : Type 0 where
  pub nonce : Str
  pub jwk_given : Bool
  pub kid : Str
  pub payload : Str
  pub public_key : PublicKey

-- How DecodeAndVerifyJWS fails: with the error of lookupKey in it, or otherwise.
pub data JwsError : Type 0 where
  unknown_account other_error : JwsError

pub data Verified : Type 0 where
  verified : ParsedJws → Verified
  unverified : JwsError → Verified

-- What comes from outside with one request: the method, the body unless reading it fails, the
-- clock, the random nonces and identifiers, by their places in the code, and what the storage and
-- the draws of a serial meet. An identifier has its prefix.
pub record Request : Type 0 where
  pub method : Method
  pub body : Option Str
  pub now : ℕ
  pub nonce_text : ℕ → Option Str
  pub id_text : ℕ → Str
  pub draws : List RandInt
  pub surroundings : Surroundings
  pub save_context : Context

pub data Reply : Type 0 where
  problem : Problem → ℕ → Reply
  method_not_allowed no_content directory not_found : Reply
  account_view : Account → ℕ → Reply
  order_view : Order → ℕ → Reply
  authz_view : Authorization → Reply
  challenge_view : Challenge → Str → Reply
  certificate_view : Str → Reply
  -- The handler dereferences a pointer that is nil or an index out of range.
  panic : Reply

pub record Server (store : Store) : Type 0 where
  pub nonces : NonceManager
  pub accounts : Dict Account
  pub accounts_by_thumb : Dict Account
  pub orders : Dict Order
  pub authorizations : Dict Authorization
  pub challenges : Dict ChallengeRef
  pub certificates : Dict Str
  pub order_authz_map : Dict Str
  pub storage : store.State
