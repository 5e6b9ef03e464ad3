-- ===== src/Ocsp/Lasting.antt =====
-- pkg/protocols/ocsp: the endpoint that revokes and the responder, over one storage.
use go_certa.Prelude.{
  ℕ, ◌<◌, pos, Str, is_empty, true, false, none, some, List, ◌≡◌, refl, ap, sym, ◌∙◌, subst,
  if◌then◌else◌, ◌==◌, str_eq_refl, Option-cases, inl, inr,
}
use go_certa.Http.{post}
use go_certa.Storage.{Context, ok, normalize_serial}
use go_certa.Storage.Contract.{Store, Call, revokes, revoked, revoke, answer}
use go_certa.Storage.Contract.History.{run, run_revoked, next-revoke}
use go_certa.Ca.Serial.{format_serial}
use go_certa.Ca.Serial.Text.{normalize-format, format_ne, format_serial_lem}
use go_certa.Ocsp.{Handler, Services, Request, request_bytes}
use go_certa.Ocsp.Responder.{found, sign_status, serve}
use go_certa.Ocsp
use go_certa.Ocsp.Api.{
  ApiRequest, RevokeRequest, RevokeResponse, revoked_view, handle_revoke, revoke_serial,
  after_revoke-done,
}
use go_certa.Ocsp.Phases.{Responds, serial_hex, serve_signs, signed_Responds}

serial_hex-pos : (v : ℕ) → serial_hex (pos v) ≡ format_serial (some v)
serial_hex-pos v = ap normalize_serial (sym (format_serial_lem v)) ∙ normalize-format v

pair_eq : {A B : Type 0} (t : A × B) {a : A} {b : B} → t.0 ≡ a → t.1 ≡ b → t ≡ (a, b)
pair_eq (x, y) p q = rw (p, q) refl

module _ (store : Store) where
  -- What a revocation that was confirmed has done.
  record Confirmed (a : ApiRequest) (req : RevokeRequest) (v : ℕ) (s s' : store.State)
      : Type 0 where
    done :
        store.execute none a.storage_now (revokes (format_serial (some v)) req.reason a.now) s
        ≡ (ok tt, s')
    still : store.Valid s'
    at : store.phase s' (format_serial (some v)) ≡ revoked

  executed :
      (a : ApiRequest) (between : store.State → store.State) (req : RevokeRequest) (v : ℕ)
      (view : RevokeResponse) (s s' : store.State)
      → 0 < v
      → a.method ≡ post
      → a.payload ≡ some req
      → normalize_serial req.serial ≡ format_serial (some v)
      → handle_revoke store a between s ≡ (revoked_view view, s')
      → store.execute none a.storage_now (revokes (format_serial (some v)) req.reason a.now) s
        ≡ (ok tt, s')
  unfolding handle_revoke revoke_serial
  executed a between req v view s s' h m p n e =
      let call = revokes (format_serial (some v)) req.reason a.now in
      let ne : is_empty (normalize_serial (format_serial (some v))) ≡ false =
        rw (normalize-format v) (format_ne v h) in
      elim (Option-cases a.revoke_context) [
        | inl live ↦
            let q = rw (m, p, n, format_ne v h, live) at e in
            let done = store.execute none a.storage_now call s in
            pair_eq done
              (after_revoke-done store a (format_serial (some v)) req.reason
                (store.get_revocation a.read_context (format_serial (some v)) (between done.1))
                done.0 view (ap (λ t. t.0) q))
              (ap (λ t. t.1) q)
        | inr (x, dead) ↦
            cc (rw (m, p, n, format_ne v h, dead, store.rejects s a.storage_now call x ne) at e)
      ]

  confirmed :
      (a : ApiRequest) (between : store.State → store.State) (req : RevokeRequest) (v : ℕ)
      (view : RevokeResponse) (s s' : store.State)
      → store.Valid s
      → 0 < v
      → a.method ≡ post
      → a.payload ≡ some req
      → normalize_serial req.serial ≡ format_serial (some v)
      → handle_revoke store a between s ≡ (revoked_view view, s')
      → Confirmed a req v s s'
  confirmed a between req v view s s' val h m p n e =
      let done = executed a between req v view s s' h m p n e in
      let hex = format_serial (some v) in
      let call = revokes hex req.reason a.now in
      let ne : is_empty (normalize_serial hex) ≡ false = rw (normalize-format v) (format_ne v h) in
      let step = store.refines s a.storage_now call val ne in
      let answers : answer (store.phase s (normalize_serial hex)) revoke ≡ ok tt =
        sym step.answers ∙ ap (λ t. t.0) done in
      record {
        done = done;
        still = subst (λ t. store.Valid t.1) done (store.keeps none a.storage_now call s val);
        at =
            sym (ap (λ t. store.phase t.1 hex) done)
            ∙ step.moves hex
            ∙ rw (normalize-format v, str_eq_refl hex)
                (next-revoke (store.phase s hex) (rw (normalize-format v) at answers));
      }

  -- Over any storage that keeps the contract: when a POST to the endpoint that revokes, for a positive
  -- serial in any spelling, is answered by the revocation, then after any later calls a request to the
  -- responder for that serial, if it is decoded and read under a live context, is answered with a
  -- response, signed, whose status is revoked, for that serial, with the time and the reason that
  -- GetRevocation returns, zero where it fails. It is left out of the reply for HEAD and
  -- where If-None-Match has its tag or `*`, and a failed signature is a 500.
  pub revoked_lasts :
      (a : ApiRequest) (between : store.State → store.State) (req : RevokeRequest) (v : ℕ)
      (view : RevokeResponse) (s s' s'' : store.State) (calls : List (Context × ℕ × Call))
      (svc : Services) (h : Handler) (r : Request) (der : Str)
      → store.Valid s
      → 0 < v
      → a.method ≡ post
      → a.payload ≡ some req
      → normalize_serial req.serial ≡ format_serial (some v)
      → handle_revoke store a between s ≡ (revoked_view view, s')
      → h.has_storage ≡ true
      → r.certificate_context ≡ none
      → request_bytes svc r ≡ some der
      → svc.parse_request der ≡ some (pos v)
      → Responds svc h r
          (pos v)
          revoked
          (store.get_revocation r.revocation_context (format_serial (some v)) s'')
          (serve store svc h r (run store s' calls) s'')
  revoked_lasts a between req v view s s' s'' calls svc h r der val positive m p n e on live b q =
      let c = confirmed a between req v view s s' val positive m p n e in
      let hex = format_serial (some v) in
      let last : store.phase (run store s' calls) hex ≡ revoked =
        run_revoked store s' calls hex c.still c.at in
      let ne : is_empty (normalize_serial (serial_hex (pos v))) ≡ false =
        rw (serial_hex-pos v, normalize-format v) (format_ne v positive) in
      let read = store.get_revocation r.revocation_context hex s'' in
      subst (Responds svc h r (pos v) revoked read)
        (sym (
          serve_signs store svc h r (run store s' calls) s'' der (pos v) on live b q ne
          ∙ rw (serial_hex-pos v, normalize-format v, last) refl))
        (signed_Responds svc h r (pos v) revoked read)

  -- And at once, both reads with live contexts, the response has the reason of the revocation and its
  -- time: the endpoint's clock, or the storage's where that reads zero.
  revoked_at_once :
      (a : ApiRequest) (between : store.State → store.State) (req : RevokeRequest) (v : ℕ)
      (view : RevokeResponse) (s s' : store.State) (svc : Services) (h : Handler) (r : Request)
      (der : Str)
      → store.Valid s
      → 0 < v
      → a.method ≡ post
      → a.payload ≡ some req
      → normalize_serial req.serial ≡ format_serial (some v)
      → handle_revoke store a between s ≡ (revoked_view view, s')
      → h.has_storage ≡ true
      → r.certificate_context ≡ none
      → r.revocation_context ≡ none
      → request_bytes svc r ≡ some der
      → svc.parse_request der ≡ some (pos v)
      → serve store svc h r s' s'
        ≡ sign_status svc h r
            (pos v)
            (found Ocsp.Status.revoked (if a.now == 0 then a.storage_now else a.now) req.reason)
  revoked_at_once a between req v view s s' svc h r der val positive m p n e on live live2 b q =
      let c = confirmed a between req v view s s' val positive m p n e in
      let hex = format_serial (some v) in
      let ne : is_empty (normalize_serial (serial_hex (pos v))) ≡ false =
        rw (serial_hex-pos v, normalize-format v) (format_ne v positive) in
      serve_signs store svc h r s' s' der (pos v) on live b q ne
      ∙ rw
          (
            serial_hex-pos v,
            normalize-format v,
            c.at,
            live2,
            store.records s s' a.storage_now a.now hex req.reason c.done,
          )
          refl
