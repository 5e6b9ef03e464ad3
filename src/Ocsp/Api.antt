-- ===== src/Ocsp/Api.antt =====
-- pkg/protocols/ocsp/api.go: the endpoint that revokes certificates. Another request may write to
-- the storage between the two calls of one: `between` is what it does to the state.
use go_certa.Prelude.{
  ℕ, ℤ, Str, is_empty, false, Option, none, some, if◌then◌else◌, ◌==◌, ◌≡◌, refl,
}
use go_certa.Http.{Method, post}
use go_certa.Storage.{
  Context, not_found, already_exists, already_revoked, invalid_input, context, driver,
  RevocationRecord, Result, ok, err, normalize_serial,
}
use go_certa.Storage.Contract.{
  Store, revokes, Phase, unused, reserved, issued, revoked, revoke, answer, Steps,
}

pub record RevokeRequest : Type 0 where
  pub serial : Str
  pub reason : ℤ

pub record RevokeResponse : Type 0 where
  pub serial : Str
  pub reason : ℤ
  pub revoked_at : ℕ

pub data ApiReply : Type 0 where
  method_not_allowed invalid_json serial_required certificate_not_found : ApiReply
  certificate_already_revoked internal_error : ApiReply
  revoked_view : RevokeResponse → ApiReply

-- The method, the body as encoding/json decodes it, the handler's clock and the storage's, the
-- contexts of the two calls.
pub record ApiRequest : Type 0 where
  pub method : Method
  pub payload : Option RevokeRequest
  pub now : ℕ
  pub storage_now : ℕ
  pub revoke_context : Context
  pub read_context : Context

abbrev time_of : ℕ → Result RevocationRecord → ℕ
time_of now (ok rec) = if rec.revoked_at == 0 then now else rec.revoked_at
time_of now (err e) = now

module _ (store : Store) where
  abbrev pub after_revoke :
      ApiRequest → Str → ℤ → Result RevocationRecord → Result (Unit {0}) → ApiReply
  after_revoke r norm_serial reason read (ok t) =
      revoked_view
        (record { serial = norm_serial; reason = reason; revoked_at = time_of r.now read })
  after_revoke r norm_serial reason read (err not_found) = certificate_not_found
  after_revoke r norm_serial reason read (err already_revoked) = certificate_already_revoked
  after_revoke r norm_serial reason read (err e) = internal_error

  -- The part behind the decoding.
  unfoldable pub revoke_serial :
      ApiRequest
      → (store.State → store.State)
      → RevokeRequest
      → store.State
      → ApiReply × store.State
  revoke_serial r between req s =
      let norm_serial = normalize_serial req.serial in
      let done =
        store.execute r.revoke_context r.storage_now (revokes norm_serial req.reason r.now) s in
      if is_empty norm_serial then (serial_required, s) else (
        after_revoke r norm_serial req.reason
            (store.get_revocation r.read_context norm_serial (between done.1)) done.0,
        done.1,
      )

  -- HandleRevoke, with the state that its own call leaves.
  unfoldable pub handle_revoke :
      ApiRequest → (store.State → store.State) → store.State → ApiReply × store.State
  unfolding revoke_serial
  handle_revoke r between s = elim r.method [
    | post ↦ elim r.payload [ none ↦ (invalid_json, s) | some req ↦ revoke_serial r between req s ]
    | _ ↦ (method_not_allowed, s)
  ]

  -- What a revocation of a serial in a phase is answered.
  abbrev pub Replies : Phase → Str → ℤ → ApiReply → Type 0
  Replies unused serial reason r = r ≡ certificate_not_found
  Replies reserved serial reason r = r ≡ certificate_not_found
  Replies issued serial reason r =
      (at : ℕ) × (r ≡ revoked_view (record { serial = serial; reason = reason; revoked_at = at }))
  Replies revoked serial reason r = r ≡ certificate_already_revoked

  after_revoke-Replies :
      (r : ApiRequest) (p : Phase) (serial : Str) (reason : ℤ) (read : Result RevocationRecord)
      → Replies p serial reason (after_revoke r serial reason read (answer p revoke))
  after_revoke-Replies r unused serial reason read = refl
  after_revoke-Replies r reserved serial reason read = refl
  after_revoke-Replies r issued serial reason read = (time_of r.now read, refl)
  after_revoke-Replies r revoked serial reason read = refl

  pub after_revoke-done :
      (r : ApiRequest) (serial : Str) (reason : ℤ) (read : Result RevocationRecord)
      (done : Result (Unit {0})) (view : RevokeResponse)
      → after_revoke r serial reason read done ≡ revoked_view view
      → done ≡ ok tt
  after_revoke-done r serial reason read (ok t) view e = refl
  after_revoke-done r serial reason read (err not_found) view e = cc
  after_revoke-done r serial reason read (err already_revoked) view e = cc
  after_revoke-done r serial reason read (err driver) view e = cc
  after_revoke-done r serial reason read (err already_exists) view e = cc
  after_revoke-done r serial reason read (err invalid_input) view e = cc
  after_revoke-done r serial reason read (err (context x)) view e = cc

  -- Over any storage that keeps the contract, a POST with a serial that is not blank, even when it is
  -- normalized twice, under a live context, is answered by the phase of the serial: 404 unless a
  -- certificate was issued, 409 if it is revoked, and the revocation otherwise; and the storage takes
  -- the step of a revocation.
  pub handle_revoke_answers :
      (r : ApiRequest) (between : store.State → store.State) (req : RevokeRequest) (s : store.State)
      → store.Valid s
      → r.method ≡ post
      → r.payload ≡ some req
      → r.revoke_context ≡ none
      → is_empty (normalize_serial req.serial) ≡ false
      → is_empty (normalize_serial (normalize_serial req.serial)) ≡ false
      → Replies
          (store.phase s (normalize_serial (normalize_serial req.serial)))
          (normalize_serial req.serial)
          req.reason
          (handle_revoke r between s).0
        × Steps store.phase s (normalize_serial (normalize_serial req.serial)) revoke (
            store.execute none r.storage_now
              (revokes (normalize_serial req.serial) req.reason r.now)
              s)
        × ((handle_revoke r between s).1
            ≡ (store.execute none r.storage_now
                (revokes (normalize_serial req.serial) req.reason r.now)
                s).1)
  unfolding handle_revoke
  handle_revoke_answers r between req s val m p c n n2 =
      let once = normalize_serial req.serial in
      let done = store.execute none r.storage_now (revokes once req.reason r.now) s in
      let step = store.refines s r.storage_now (revokes once req.reason r.now) val n2 in
      (
        rw (m, p, revoke_serial, c, n, step.answers)
            (after_revoke-Replies r (store.phase s (normalize_serial once)) once req.reason
              (store.get_revocation r.read_context once (between done.1))),
        step,
        rw (m, p, revoke_serial, c, n) refl,
      )
