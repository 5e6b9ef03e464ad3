-- ===== src/Acme/Server/Handlers.antt =====
-- pkg/protocols/acme/server.go: the handlers of the directory, nonces, accounts, orders,
-- authorizations, challenges and certificates.
use go_certa.Prelude.{
  ℕ, zero, suc, ◌+◌, ◌*◌, Str, codes, trim_prefix, lookup, insert, Bool, true, false, not, ◌&&◌,
  ◌||◌, Option, none, some, List, [], ◌∷◌, ◌++◌, if◌then◌else◌, is_empty, all, get_elem?,
}
use go_certa.Ca.Types.{hour}
use go_certa.Storage.Contract.{Store}
use go_certa.Acme.Types.{
  malformed, account_does_not_exist, server_internal, Account, Identifier, Status, pending, ready,
  valid, Challenge, Authorization, Order, ChallengeRef, ParsedJws, get, head, post, Request, Reply,
  method_not_allowed, no_content, directory, not_found, account_view, order_view, authz_view,
  challenge_view, certificate_view, panic, Server,
}
use go_certa.Acme.Server.{
  Environment, account_prefix, is_post, add_nonce_header, write_problem, with_jws, with_jws_of_post,
}

abbrev pub is_valid : Status → Bool
is_valid valid = true
is_valid _ = false

abbrev pub is_pending : Status → Bool
is_pending pending = true
is_pending _ = false

abbrev pub authz_is_valid : Option Authorization → Bool
authz_is_valid none = false
authz_is_valid (some a) = is_valid a.status

abbrev pub url : Environment → Str → Str → Str
url env path id = env.base_url ++ path ++ id

abbrev pub authz_id_of : Environment → Str → Str
authz_id_of env authz_url = trim_prefix authz_url (url env (codes "/acme/authz/") [])

-- A list with the `i`th element changed.
unfoldable pub replace {ℓ} : {A : Type ℓ} → ℕ → A → List A → List A
replace i a [] = []
replace zero a (b ∷ bs) = a ∷ bs
replace (suc i) a (b ∷ bs) = b ∷ replace i a bs

-- onlyReturnExisting and termsOfServiceAgreed; an empty payload leaves both false.
abbrev read_account : Environment → Str → Option (Bool × Bool)
read_account env payload =
    if is_empty payload then some (false, false) else env.account_payload payload

abbrev pub validated_at : ℕ → Challenge → Challenge
validated_at now chal = record chal { status = valid; validated = some now }

module _ {store : Store} (env : Environment) (r : Request) where
  unfoldable pub all_valid : Server store → List Str → Bool
  all_valid s urls = all (λ u. authz_is_valid (lookup (authz_id_of env u) s.authorizations)) urls

  unfoldable pub handle_directory : Server store → Reply × Server store
  handle_directory s = elim r.method [ get ↦ (directory, s) | _ ↦ (method_not_allowed, s) ]

  unfoldable pub handle_new_nonce : Server store → Reply × Server store
  handle_new_nonce s = elim r.method [
    | get ↦ (no_content, add_nonce_header 3 r s)
    | head ↦ (no_content, add_nonce_header 3 r s)
    | _ ↦ (method_not_allowed, s)
  ]

  create_account : ParsedJws → Str → Bool → Server store → Reply × Server store
  create_account jws thumb agreed s =
      let account : Account = record {
        id = r.id_text 0;
        key = jws.public_key;
        key_thumbprint = thumb;
        terms_agreed = agreed;
        created_at = r.now;
      } in
      (
        account_view account 201,
        record s {
          accounts = insert (r.id_text 0) account s.accounts;
          accounts_by_thumb = insert thumb account s.accounts_by_thumb;
        },
      )

  -- The account of the key, if there is one; otherwise a new one, unless the client wants none.
  find_account :
      ParsedJws → Str → Bool × Bool → Option Account → Server store → Reply × Server store
  unfolding create_account
  find_account jws thumb p (some existing) s = (account_view existing 200, s)
  find_account jws thumb (true, agreed) none s = write_problem 3 r account_does_not_exist 400 s
  find_account jws thumb (false, agreed) none s = create_account jws thumb agreed s

  new_account : ParsedJws → Server store → Reply × Server store
  unfolding find_account
  new_account jws s =
      if not jws.jwk_given
      then write_problem 3 r malformed 400 s
      else elim (read_account env jws.payload) [
        | none ↦ write_problem 3 r malformed 400 s
        | some p ↦ elim (env.thumbprint jws.public_key) [
          | none ↦ write_problem 3 r server_internal 500 s
          | some thumb ↦ find_account jws thumb p (lookup thumb s.accounts_by_thumb) s
        ]
      ]

  unfoldable pub handle_new_account : Server store → Reply × Server store
  unfolding new_account
  handle_new_account s =
      if is_post r.method then with_jws env r new_account s else (method_not_allowed, s)

  unfoldable pub handle_account : Str → Server store → Reply × Server store
  handle_account acct_id = with_jws_of_post env r λ s. elim (lookup acct_id s.accounts) [
    | none ↦ write_problem 3 r account_does_not_exist 404 s
    | some acct ↦ (account_view acct 200, s)
  ]

  -- The loop of handleNewOrder from the `i`th identifier on.
  add_authorizations : Str → Str → ℕ → List Identifier → Server store → List Str × Server store
  add_authorizations account_id order_id i [] s = ([], s)
  add_authorizations account_id order_id i (ident ∷ rest) s =
      let authz_id = r.id_text (1 + 3 * i) in
      let chal_id = r.id_text (2 + 3 * i) in
      let challenge : Challenge = record {
        url = url env (codes "/acme/challenge/") chal_id;
        token = r.id_text (3 + 3 * i);
        status = pending;
        validated = none;
      } in
      let authz : Authorization = record {
        id = authz_id;
        account_id = account_id;
        status = pending;
        expires = r.now + 24 * hour;
        identifier = ident;
        challenges = challenge ∷ [];
      } in
      let (urls, s') = add_authorizations account_id order_id (suc i) rest (record s {
        authorizations = insert authz_id authz s.authorizations;
        challenges = insert chal_id (record { authz_id = authz_id; index = 0 }) s.challenges;
        order_authz_map = insert authz_id order_id s.order_authz_map;
      }) in
      (url env (codes "/acme/authz/") authz_id ∷ urls, s')

  create_order : ParsedJws → List Identifier → Server store → Reply × Server store
  unfolding add_authorizations
  create_order jws identifiers s =
      let account_id = trim_prefix jws.kid (account_prefix env) in
      let order_id = r.id_text 0 in
      let (urls, s') = add_authorizations account_id order_id 0 identifiers s in
      let order : Order = record {
        id = order_id;
        account_id = account_id;
        status = pending;
        expires = r.now + 24 * hour;
        identifiers = identifiers;
        authorizations = urls;
        finalize_url = url env (codes "/acme/order/") order_id ++ codes "/finalize";
        certificate_url = [];
      } in
      (order_view order 201, record s' { orders = insert order_id order s'.orders })

  new_order : ParsedJws → Server store → Reply × Server store
  unfolding create_order
  new_order jws s = elim (env.order_payload jws.payload) [
    | none ↦ write_problem 3 r malformed 400 s
    | some [] ↦ write_problem 3 r malformed 400 s
    | some (i ∷ is) ↦ create_order jws (i ∷ is) s
  ]

  unfoldable pub handle_new_order : Server store → Reply × Server store
  unfolding new_order
  handle_new_order s =
      if is_post r.method then with_jws env r new_order s else (method_not_allowed, s)

  -- A pending order is ready once its authorizations are valid.
  unfoldable pub promote : Server store → Order → Order
  unfolding all_valid
  promote s order =
      if is_pending order.status && all_valid s order.authorizations
      then record order { status = ready }
      else order

  unfoldable pub handle_get_order : Str → Server store → Reply × Server store
  unfolding promote
  handle_get_order order_id = with_jws_of_post env r λ s. elim (lookup order_id s.orders) [
    | none ↦ write_problem 3 r malformed 404 s
    | some order ↦ (
      order_view (promote s order) 200,
      record s { orders = insert order_id (promote s order) s.orders },
    )
  ]

  unfoldable pub handle_get_authz : Str → Server store → Reply × Server store
  handle_get_authz authz_id = with_jws_of_post env r λ s. elim (lookup authz_id s.authorizations) [
    | none ↦ write_problem 3 r malformed 404 s
    | some authz ↦ (authz_view authz, s)
  ]

  -- The order of an authorization that has become valid.
  unfoldable pub check_parent : Str → Server store → Server store
  unfolding promote
  check_parent authz_id s = elim (lookup authz_id s.order_authz_map) [
    | none ↦ s
    | some order_id ↦ elim (lookup order_id s.orders) [
      | none ↦ s
      | some order ↦ record s { orders = insert order_id (promote s order) s.orders }
    ]
  ]

  unfoldable pub mark_valid : ChallengeRef → Authorization → Challenge → Server store → Server store
  unfolding check_parent replace
  mark_valid ref authz chal s =
      let authz' : Authorization = record authz {
        status = valid;
        challenges = replace ref.index (validated_at r.now chal) authz.challenges;
      } in
      check_parent ref.authz_id
        (record s { authorizations = insert ref.authz_id authz' s.authorizations })

  unfoldable pub answer_challenge :
      ChallengeRef → Authorization → Challenge → Server store → Reply × Server store
  unfolding mark_valid
  answer_challenge ref authz chal s =
      let authz_url = url env (codes "/acme/authz/") ref.authz_id in
      if is_post r.method && (env.skip_challenge_validation || is_pending chal.status)
      then (challenge_view (validated_at r.now chal) authz_url, mark_valid ref authz chal s)
      else (challenge_view chal authz_url, s)

  unfoldable pub find_challenge : Str → Server store → Reply × Server store
  unfolding answer_challenge
  find_challenge chal_id s = elim (lookup chal_id s.challenges) [
    | none ↦ write_problem 3 r malformed 404 s
    | some ref ↦ elim (lookup ref.authz_id s.authorizations) [
      | none ↦ (panic, s)
      | some authz ↦ elim (get_elem? authz.challenges ref.index) [
        | none ↦ (panic, s)
        | some chal ↦ answer_challenge ref authz chal s
      ]
    ]
  ]

  unfoldable pub handle_challenge : Str → Server store → Reply × Server store
  unfolding find_challenge
  handle_challenge chal_id s = elim r.method [
    | get ↦ find_challenge chal_id s
    | post ↦ with_jws env r (λ _. find_challenge chal_id) s
    | _ ↦ (method_not_allowed, s)
  ]

  unfoldable pub handle_get_certificate : Str → Server store → Reply × Server store
  handle_get_certificate cert_id = with_jws_of_post env r λ s.
      elim (lookup cert_id s.certificates) [
        | none ↦ (not_found, s)
        | some chain ↦ (certificate_view chain, s)
      ]
