-- ===== src/Acme/Server/Unvalidated.antt =====
-- pkg/protocols/acme/server.go: POSTs to challenges.
use go_certa.Prelude.{
  Str, lookup, lookup-insert_self, Bool, true, false, ◌||◌, some, Option-cases, inl, inr, get_elem?,
  ◌≡◌, refl,
}
use go_certa.Storage.Contract.{Store}
use go_certa.Acme.Types.{
  Authorization, Challenge, ChallengeRef, ParsedJws, Request, Server, pending, post,
}
use go_certa.Acme.Server.{Environment, accepted, verify_jws}
use go_certa.Acme.Server.Handlers.{
  authz_is_valid, check_parent, mark_valid, answer_challenge, find_challenge, handle_challenge,
}

or_true : (b : Bool) → (b || true) ≡ true
or_true true = refl
or_true false = refl

module _ {store : Store} (env : Environment) (r : Request) where
  -- The parent's order is all that the last step looks at.
  check_parent-authorizations :
      (id : Str) (s : Server store) → (check_parent env r id s).authorizations ≡ s.authorizations
  unfolding check_parent
  check_parent-authorizations id s = elim (Option-cases (lookup id s.order_authz_map)) [
    | inl e ↦ rw (check_parent, e) refl
    | inr (o, e) ↦ elim (Option-cases (lookup o s.orders)) [
      | inl f ↦ rw (check_parent, e, f) refl
      | inr (x, f) ↦ rw (check_parent, e, f) refl
    ]
  ]

  mark_valid-authorization :
      (ref : ChallengeRef) (authz : Authorization) (chal : Challenge) (s : Server store)
      → authz_is_valid (lookup ref.authz_id (mark_valid env r ref authz chal s).authorizations)
        ≡ true
  unfolding mark_valid
  mark_valid-authorization ref authz chal s =
      rw
        (
          check_parent-authorizations ref.authz_id _,
          lookup-insert_self ref.authz_id _ s.authorizations,
        )
        refl

-- A POST with a good signature and nonce on a pending challenge makes its authorization valid,
-- whether or not validation is to be skipped: nothing that the client's domain serves is asked for,
-- and the account need not be that of the authorization.
pub pending_becomes_valid :
    {store : Store} (env : Environment) (r : Request) (chal_id : Str) (s s' : Server store)
    (jws : ParsedJws) (ref : ChallengeRef) (authz : Authorization) (chal : Challenge)
    → r.method ≡ post
    → verify_jws env r s ≡ (accepted jws, s')
    → lookup chal_id s'.challenges ≡ some ref
    → lookup ref.authz_id s'.authorizations ≡ some authz
    → get_elem? authz.challenges ref.index ≡ some chal
    → chal.status ≡ pending
    → authz_is_valid (lookup ref.authz_id (handle_challenge env r chal_id s).1.authorizations)
      ≡ true
unfolding handle_challenge find_challenge answer_challenge
pending_becomes_valid env r chal_id s s' jws ref authz chal p v a b c d =
    rw
      (
        handle_challenge,
        p,
        v,
        find_challenge,
        a,
        b,
        c,
        answer_challenge,
        p,
        d,
        or_true env.skip_challenge_validation,
      )
      (mark_valid-authorization env r ref authz chal s')
