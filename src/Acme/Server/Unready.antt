-- ===== src/Acme/Server/Unready.antt =====
-- pkg/protocols/acme/server.go: finalize requests for orders that are not ready.
use mathlib.Core.List.{append-nil}
use go_certa.Prelude.{
  all, codes, trim_prefix, trim_prefix-append, List, [], ◌∷◌, ◌++◌, ◌⊎◌, ◌≢◌, ap, ◌∙◌, arith, Str,
  lookup, Bool, true, false, Option, none, some, ◌≡◌, refl, sym, subst, Bool-cases, inl, inr,
}
use go_certa.Storage.Contract.{Store}
use go_certa.Acme.Nonce.{NonceManager, validate_and_consume_nonce}
use go_certa.Acme.Types.{
  Authorization, Status, pending, ready, processing, valid, invalid, Order, ParsedJws, Verified,
  verified, unverified, Request, Reply, Server,
}
use go_certa.Acme.Server.{
  Environment, Checked, accepted, rejected, verify_jws, consumed, add_nonce_header, write_problem,
  check_nonce, check_verified, check_body, resume, is_post,
}
use go_certa.Acme.Server.Handlers.{all_valid, authz_is_valid, authz_id_of, is_valid}
use go_certa.Acme.Server.Finalize.{finalize, handle_finalize_order}

-- Nothing but the nonces differs.
abbrev pub SameButNonces : {store : Store} → Server store → Server store → Type 0
SameButNonces s t = t ≡ record s { nonces = t.nonces }

module _ {store : Store} (env : Environment) (r : Request) (s : Server store) where
  check_nonce-same :
      (jws : ParsedJws) (good : Bool) (m : NonceManager)
      → SameButNonces s (check_nonce r jws (good, record s { nonces = m })).1
  unfolding add_nonce_header
  check_nonce-same jws true m = refl
  check_nonce-same jws false m = refl

  check_verified-same : (v : Verified) → SameButNonces s (check_verified r s v).1
  unfolding add_nonce_header consumed
  check_verified-same (unverified e) = refl
  check_verified-same (verified jws) =
      let (good, m) = validate_and_consume_nonce jws.nonce r.now s.nonces in
      check_nonce-same jws good m

  check_body-same : (o : Option Str) → SameButNonces s (check_body env r s o).1
  unfolding add_nonce_header
  check_body-same none = refl
  check_body-same (some body) = check_verified-same (env.decode_and_verify body _)

  -- Checking a message changes nothing but the nonces, whether or not it is accepted.
  pub verify_jws-same : SameButNonces s (verify_jws env r s).1
  unfolding verify_jws
  verify_jws-same = check_body-same r.body

  resume-same :
      (handle : ParsedJws → Server store → Reply × Server store)
      → ((jws : ParsedJws) (m : NonceManager)
          → SameButNonces s (handle jws (record s { nonces = m })).1)
      → (c : Checked × Server store) → SameButNonces s c.1
      → SameButNonces s (resume handle c).1
  resume-same handle h (rejected reply, t) e = e
  resume-same handle h (accepted jws, t) e =
      subst (λ x. SameButNonces s (handle jws x).1) (sym e) (h jws t.nonces)

  finalize-same :
      (order_id : Str) (order : Order) (jws : ParsedJws) (m : NonceManager)
      → lookup order_id s.orders ≡ some order
      → all_valid env r s order.authorizations ≡ false
      → SameButNonces s (finalize env r order_id jws (record s { nonces = m })).1
  unfolding all_valid write_problem add_nonce_header finalize
  finalize-same order_id order jws m e h = rw (finalize, e, h) refl

unready_same :
    {store : Store} (env : Environment) (r : Request) (s : Server store) (order_id : Str)
    (order : Order)
    → lookup order_id s.orders ≡ some order
    → all_valid env r s order.authorizations ≡ false
    → SameButNonces s (handle_finalize_order env r order_id s).1
unfolding handle_finalize_order
unready_same env r s order_id order e h = elim (Bool-cases (is_post r.method)) [
  | inl p ↦
      rw (handle_finalize_order, p)
        (resume-same env r s (finalize env r order_id)
          (λ jws m. finalize-same env r s order_id order jws m e h) (verify_jws env r s)
          (verify_jws-same env r s))
  | inr p ↦ rw (handle_finalize_order, p) refl
]

-- There is no such authorization, or its status is another than valid.
abbrev pub NotValid : Option Authorization → Type 0
NotValid o = (o ≡ none) ⊎ ((authz : Authorization) × (o ≡ some authz) × (authz.status ≢ valid))

status_unready : (status : Status) → status ≢ valid → is_valid status ≡ false
status_unready pending ne = refl
status_unready ready ne = refl
status_unready processing ne = refl
status_unready valid ne = absurd (ne refl)
status_unready invalid ne = refl

NotValid-authz_is_valid : (o : Option Authorization) → NotValid o → authz_is_valid o ≡ false
NotValid-authz_is_valid o (inl e) = rw e refl
NotValid-authz_is_valid o (inr (authz, e, ne)) = rw e (status_unready authz.status ne)

all_refused :
    (p : Str → Bool) (front back : List Str) (u : Str)
    → p u ≡ false
    → all p (front ++ (u ∷ back)) ≡ false
all_refused p [] back u e = ground (arith, e)
all_refused p (x ∷ front) back u e = ground (arith, all_refused p front back u e)

authz_id_of-url :
    (env : Environment) (id : Str)
    → authz_id_of env (env.base_url ++ codes "/acme/authz/" ++ id) ≡ id
authz_id_of-url env id =
    let prefix = env.base_url ++ codes "/acme/authz/" in
    ap (trim_prefix (prefix ++ id)) (append-nil prefix) ∙ trim_prefix-append prefix id

-- A request to finalize an order that lists, wherever in its authorizations, the URL of one that the
-- server does not hold or whose status is not valid leaves the storage, the certificates, the
-- orders and all else as it was, except for the nonces: no serial is reserved and no certificate is
-- recorded, whatever the message is.
pub unready_unsigned :
    {store : Store} (env : Environment) (r : Request) (s : Server store) (order_id : Str)
    (order : Order) (front back : List Str) (id : Str)
    → lookup order_id s.orders ≡ some order
    → order.authorizations ≡ front ++ ((env.base_url ++ codes "/acme/authz/" ++ id) ∷ back)
    → NotValid (lookup id s.authorizations)
    → SameButNonces s (handle_finalize_order env r order_id s).1
unfolding handle_finalize_order all_valid
unready_unsigned env r s order_id order front back id e listed refused =
    let u = env.base_url ++ codes "/acme/authz/" ++ id in
    let test = λ (u : Str). authz_is_valid (lookup (authz_id_of env u) s.authorizations) in
    let unready : all_valid env r s order.authorizations ≡ false =
      ap (all test) listed
      ∙ all_refused test front back u (
          ap (λ i. authz_is_valid (lookup i s.authorizations)) (authz_id_of-url env id)
          ∙ NotValid-authz_is_valid (lookup id s.authorizations) refused) in
    unready_same env r s order_id order e unready
