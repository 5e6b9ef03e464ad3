-- ===== src/Server/Routes.antt =====
-- cmd/certa-server/app.go: the routes of the server. net/http's ServeMux is the parameter `mux`.
use go_certa.Prelude.{
  Str, codes, str_eq, has_prefix, has_suffix, Bool, true, false, Option, none, some, List, [], ◌∷◌,
  ◌++◌, All, ◌≡◌, refl, if◌then◌else◌,
}

pub data Endpoint : Type 0 where
  acme est_ca_certs est_simple_enroll ocsp crl revoke metrics : Endpoint
  intermediate_crt intermediate_pem root_crt root_pem ca_chain_pem : Endpoint
  swagger_ui : Endpoint

-- The patterns with their handlers, in the order in which they are registered.
unfoldable pub routes : Bool → List (Str × Endpoint)
routes enable_swagger =
    (codes "/.well-known/acme/", acme)
    ∷ (codes "/acme/", acme)
    ∷ (codes "/.well-known/est/cacerts", est_ca_certs)
    ∷ (codes "/.well-known/est/simpleenroll", est_simple_enroll)
    ∷ (codes "/ocsp", ocsp)
    ∷ (codes "/crl/intermediate.crl", crl)
    ∷ (codes "/api/v1/revoke", revoke)
    ∷ (codes "/metrics", metrics)
    ∷ (codes "/ca/intermediate.crt", intermediate_crt)
    ∷ (codes "/ca/intermediate.pem", intermediate_pem)
    ∷ (codes "/ca/root.crt", root_crt)
    ∷ (codes "/ca/root.pem", root_pem)
    ∷ (codes "/ca/chain.pem", ca_chain_pem)
    ∷ (if enable_swagger
        then (codes "/swagger/", swagger_ui) ∷ (codes "/swagger", swagger_ui) ∷ []
        else [])

-- ServeMux: the handler for a path, none for 404. It is asked only for paths that it does not redirect.
pub record Mux : Type 0 where
  pub handler : List (Str × Endpoint) → Str → Option Endpoint

-- A pattern with a slash at its end matches every path below it, any other only itself.
unfoldable pub matches : Str → Str → Bool
unfolding str_eq has_suffix has_prefix
matches path pattern =
    if has_suffix pattern (codes "/") then has_prefix path pattern else str_eq pattern path

-- The documented choice: no handler if no pattern matches, and the handler of a pattern that matches
-- if no other pattern does.
pub record Documented (mux : Mux) : Type 0 where
  pub unmatched :
      (rs : List (Str × Endpoint)) (path : Str)
      → All (λ r. matches path r.0 ≡ false) rs
      → mux.handler rs path ≡ none
  pub matched :
      (before after : List (Str × Endpoint)) (pattern path : Str) (e : Endpoint)
      → matches path pattern ≡ true
      → All (λ r. matches path r.0 ≡ false) (before ++ after)
      → mux.handler (before ++ ((pattern, e) ∷ after)) path ≡ some e

module _ (mux : Mux) (docs : Documented mux) where
  -- No path below /ocsp/ has a handler, so no GET with a request in its path reaches the responder.
  pub ocsp_get_unrouted :
      (enable_swagger : Bool) (request : Str)
      → mux.handler (routes enable_swagger) (codes "/ocsp/" ++ request) ≡ none
  unfolding routes matches str_eq has_prefix has_suffix
  ocsp_get_unrouted true request = docs.unmatched _ _ (
    refl,
    (
      refl,
      (
        refl,
        (
          refl,
          (
            refl,
            (refl, (refl, (refl, (refl, (refl, (refl, (refl, (refl, (refl, (refl, tt)))))))))),
          ),
        ),
      ),
    ),
  )
  ocsp_get_unrouted false request = docs.unmatched _ _ (
    refl,
    (
      refl,
      (refl, (refl, (refl, (refl, (refl, (refl, (refl, (refl, (refl, (refl, (refl, tt))))))))))),
    ),
  )

  -- Every path below /acme/ reaches the ACME server.
  acme_routed :
      (enable_swagger : Bool) (rest : Str)
      → mux.handler (routes enable_swagger) (codes "/acme/" ++ rest) ≡ some acme
  unfolding routes matches str_eq has_prefix has_suffix
  acme_routed true rest =
      docs.matched ((codes "/.well-known/acme/", acme) ∷ []) _ (codes "/acme/") _ acme refl (
        refl,
        (
          refl,
          (
            refl,
            (
              refl,
              (refl, (refl, (refl, (refl, (refl, (refl, (refl, (refl, (refl, (refl, tt)))))))))),
            ),
          ),
        ),
      )
  acme_routed false rest =
      docs.matched ((codes "/.well-known/acme/", acme) ∷ []) _ (codes "/acme/") _ acme refl (
        refl,
        (refl, (refl, (refl, (refl, (refl, (refl, (refl, (refl, (refl, (refl, (refl, tt))))))))))),
      )

  -- Unless it is enabled, nothing is served at a path that starts with /swagger.
  swagger_off : (rest : Str) → mux.handler (routes false) (codes "/swagger" ++ rest) ≡ none
  unfolding routes matches str_eq has_prefix has_suffix
  swagger_off rest = docs.unmatched _ _ (
    refl,
    (
      refl,
      (refl, (refl, (refl, (refl, (refl, (refl, (refl, (refl, (refl, (refl, (refl, tt))))))))))),
    ),
  )
