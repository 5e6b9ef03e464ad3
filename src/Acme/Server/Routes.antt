-- ===== src/Acme/Server/Routes.antt =====
-- pkg/protocols/acme/server.go: ServeHTTP, from the request's path to its handler.
use go_certa.Prelude.{
  Str, codes, str_eq, has_prefix, has_suffix, trim_prefix, trim_suffix, ◌&&◌, if◌then◌else◌,
}
use go_certa.Storage.Contract.{Store}
use go_certa.Acme.Types.{Request, Reply, not_found, Server}
use go_certa.Acme.Server.{Environment, is_post, add_nonce_header}
use go_certa.Acme.Server.Handlers.{
  handle_directory, handle_new_nonce, handle_new_account, handle_new_order, handle_get_order,
  handle_get_authz, handle_challenge, handle_get_certificate, handle_account,
}
use go_certa.Acme.Server.Finalize.{handle_finalize_order}

pub data Route : Type 0 where
  to_directory to_new_nonce to_new_account to_new_order nowhere : Route
  to_finalize to_order to_authz to_challenge to_certificate to_account : Str → Route

-- The cases of the switch, the first that fits.
unfoldable pub route : Str → Route
route path =
    if str_eq path (codes "/.well-known/acme/directory")
    then to_directory
    else if str_eq path (codes "/acme/new-nonce")
    then to_new_nonce
    else if str_eq path (codes "/acme/new-account")
    then to_new_account
    else if str_eq path (codes "/acme/new-order")
    then to_new_order
    else if has_prefix path (codes "/acme/order/") && has_suffix path (codes "/finalize")
    then to_finalize (trim_suffix (trim_prefix path (codes "/acme/order/")) (codes "/finalize"))
    else if has_prefix path (codes "/acme/order/")
    then to_order (trim_prefix path (codes "/acme/order/"))
    else if has_prefix path (codes "/acme/authz/")
    then to_authz (trim_prefix path (codes "/acme/authz/"))
    else if has_prefix path (codes "/acme/challenge/")
    then to_challenge (trim_prefix path (codes "/acme/challenge/"))
    else if has_prefix path (codes "/acme/cert/")
    then to_certificate (trim_prefix path (codes "/acme/cert/"))
    else if has_prefix path (codes "/acme/acct/")
    then to_account (trim_prefix path (codes "/acme/acct/"))
    else nowhere

module _ {store : Store} (env : Environment) (r : Request) where
  unfoldable pub dispatch : Route → Server store → Reply × Server store
  dispatch to_directory = handle_directory env r
  dispatch to_new_nonce = handle_new_nonce env r
  dispatch to_new_account = handle_new_account env r
  dispatch to_new_order = handle_new_order env r
  dispatch nowhere = λ s. (not_found, s)
  dispatch (to_finalize id) = handle_finalize_order env r id
  dispatch (to_order id) = handle_get_order env r id
  dispatch (to_authz id) = handle_get_authz env r id
  dispatch (to_challenge id) = handle_challenge env r id
  dispatch (to_certificate id) = handle_get_certificate env r id
  dispatch (to_account id) = handle_account env r id

  -- Every reply to a POST has a nonce.
  unfoldable pub serve_http : Str → Server store → Reply × Server store
  unfolding route dispatch
  serve_http path s = dispatch (route path) (if is_post r.method then add_nonce_header 4 r s else s)
