-- ===== src/Server/Lifecycle.antt =====
-- cmd/certa-server/app.go: Start and Stop. What the parts do is seen as a list of actions in order; what
-- the fallible ones return is given.
use go_certa.Prelude.{
  Bool, true, Option, none, some, List, [], ◌∷◌, ◌++◌, ◌≡◌, ◌↔◌, refl, arith, if◌then◌else◌,
}

pub data Action : Type 0 where
  pool_starts crl_starts ticker_starts : Action
  http_shuts_down crl_stops workers_cancelled storage_closes audit_closes : Action

-- Start: the pool's goroutine is launched, then the CRL service is started; its error ends Start.
unfoldable pub start_app : {Error : Type 0} → Option Error → Option Error × List Action
start_app none = (none, pool_starts ∷ crl_starts ∷ ticker_starts ∷ [])
start_app (some e) = (some e, pool_starts ∷ crl_starts ∷ [])

-- What Stop finds: whether Start was called, whether the storage is an io.Closer, whether there is
-- an audit file; and what Shutdown, other than ErrServerClosed, and the two Close return.
pub record Running (Error : Type 0) : Type 0 where
  pub started : Bool
  pub storage_is_closer : Bool
  pub audit_closer : Bool
  pub shutdown_error : Option Error
  pub storage_error : Option Error
  pub audit_error : Option Error

-- `if err != nil && firstErr == nil { firstErr = err }`
abbrev pub keep_first : {Error : Type 0} → Option Error → Option Error → Option Error
keep_first (some first) e = some first
keep_first none e = e

abbrev pub when {ℓ} : {A : Type ℓ} → Bool → A → List A
when b a = if b then a ∷ [] else []

unfoldable pub stop_app : {Error : Type 0} → Running Error → Option Error × List Action
stop_app r =
    let after_shutdown = r.shutdown_error in
    let after_storage =
      if r.storage_is_closer then keep_first after_shutdown r.storage_error else after_shutdown in
    let first_err =
      if r.audit_closer then keep_first after_storage r.audit_error else after_storage in
    (
      first_err,
      http_shuts_down
          ∷ crl_stops
          ∷ (when r.started workers_cancelled
              ++ (when r.storage_is_closer storage_closes ++ when r.audit_closer audit_closes)),
    )

-- Stop takes its actions whatever fails, and it returns no error exactly if none of them that it takes does.
stop_exact :
    {Error : Type 0} (r : Running Error)
    → ((stop_app r).1
        ≡ (stop_app
            (record r { shutdown_error = none; storage_error = none; audit_error = none })).1)
      × (((stop_app r).0 ≡ none) ↔ (
          (r.shutdown_error ≡ none)
          × ((r.storage_is_closer ≡ true → r.storage_error ≡ none)
              × (r.audit_closer ≡ true → r.audit_error ≡ none))))
unfolding stop_app
stop_exact r = (refl, (ground arith, ground arith))
