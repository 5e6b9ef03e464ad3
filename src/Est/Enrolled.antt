-- ===== src/Est/Enrolled.antt =====
-- pkg/protocols/est/handler.go: what an enrollment leaves in the storage.
use go_certa.Prelude.{
  ℕ, ◌<◌, Str, Option, none, some, List, true, false, is_empty, ◌≡◌, refl, ap, ◌∙◌, str_eq_refl,
}
use go_certa.Storage.{normalize_serial}
use go_certa.Storage.Contract.{Store, saves, Phase, unused, issued}
use go_certa.Ca.Serial.{
  RandInt, reserved, generate_and_reserve_serial, default_serial_bits, format_serial,
}
use go_certa.Ca.Serial.Text.{normalize-format, format_ne}
use go_certa.Ca.Serial.Draw.{reserved_is_fresh}
use go_certa.Signer.{SignRequest, SignResponse}
use go_certa.Est.{
  Parsed, Services, Handler, Request, sign_request, record_of, reply_with, save_parsed, enroll,
  finish, with_reserved,
}

module _ (store : Store) (svc : Services) (pool : SignRequest → Option SignResponse) where
  -- Over any storage that keeps the contract and a handler that has one: when an enrollment has
  -- reserved a positive serial, the pool answers with a certificate, which parses and has just the
  -- serial it was given, and the context lives when the certificate is saved, then the serial was
  -- unused before, the client gets the certificate, and the serial is issued after.
  pub enrolled_is_issued :
      (h : Handler) (r : Request) (csr_der der : Str) (v : ℕ) (cert : Parsed) (s s' : store.State)
      (left : List RandInt)
      → store.Valid s
      → h.has_store ≡ true
      → 0 < v
      → generate_and_reserve_serial store r.surroundings s r.draws ≡ (reserved v, s', left)
      → pool (sign_request r csr_der v) ≡ some (some der)
      → svc.parse_certificate der ≡ some cert
      → cert.serial ≡ format_serial (some v)
      → r.save_context ≡ none
      → (store.phase s (format_serial (some v)) ≡ unused)
        × ((enroll store svc pool h r csr_der s).0 ≡ reply_with svc r der)
        × (store.phase (enroll store svc pool h r csr_der s).1 (format_serial (some v)) ≡ issued)
  unfolding enroll finish generate_and_reserve_serial
  enrolled_is_issued h r csr_der der v cert s s' left val on h0 got signed p same live =
      let claimed =
        reserved_is_fresh store r.surroundings default_serial_bits v s s' r.draws left val got in
      let hex = format_serial (some v) in
      let call = saves (some (record_of svc cert der)) in
      let norm : normalize_serial cert.serial ≡ hex =
        ap normalize_serial same ∙ normalize-format v in
      let ne : is_empty (normalize_serial cert.serial) ≡ false = rw norm (format_ne v h0) in
      let st = store.refines s' r.save_now call claimed.valid ne in
      let taken : store.phase s' hex ≡ Phase.reserved =
        claimed.moved hex ∙ rw (str_eq_refl hex) refl in
      let step : store.phase (store.execute none r.save_now call s').1 hex ≡ issued =
        st.moves hex ∙ rw (norm, str_eq_refl hex, taken) refl in
      (
        claimed.fresh,
        rw (on, got, with_reserved, signed) refl,
        rw (on, got, with_reserved, signed, p, save_parsed, live, on) step,
      )
