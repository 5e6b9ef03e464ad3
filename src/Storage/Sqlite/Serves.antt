-- ===== src/Storage/Sqlite/Serves.antt =====
-- pkg/storage/sqlite.go: SQLiteStorage and the contract of Storage/Contract.
use go_certa.Prelude.{
  ℕ, ℤ, Str, str_eq, str_eq_iff, is_empty, ◌==◌, if◌then◌else◌, false, none, some, ◌≡◌, refl, ◌∙◌,
  ap, sym, subst, arith, Bool-cases, Option-cases, inl, inr,
}
use go_certa.Storage.{
  Context, not_found, already_exists, already_revoked, Error, CertificateRecord, RevocationRecord,
  SerialRecord, Result, ok, err, normalize_serial,
}
use go_certa.Storage.Contract.{
  Call, saves, revokes, reserves, Phase, Event, save, revoke, reserve, next, answer, Steps,
  call_serial, call_event,
}
use go_certa.Storage.Sqlite.{certificate_row, save_certificate, revoke_certificate, reserve_serial}
use go_certa.Storage.Sqlite.Driver.{Engine, Documented, Tables}
use go_certa.Storage.Sqlite.Tables.{
  phase, phase_of, IsConsistent, saved, saved-phase, saved-IsConsistent, revoked_in-phase,
  revoked_in-IsConsistent, reserved_in-phase, reserved_in-IsConsistent,
}
use go_certa.Storage.Sqlite.Commits

unfoldable pub execute :
    (engine : Engine) → (ℕ → Context) → ℕ → Call → engine.Db → Result (Unit {0}) × engine.Db
execute engine ctx now (saves cert) db = save_certificate engine ctx now cert db
execute engine ctx now (revokes serial reason revoked_at) db =
    revoke_certificate engine ctx serial reason revoked_at now db
execute engine ctx now (reserves serial) db = reserve_serial engine ctx serial now db

module _ (engine : Engine) (docs : Documented engine) where
  abbrev pub IsConsistentDb : engine.Db → Type 0
  IsConsistentDb db = IsConsistent (docs.view db)

  abbrev pub db_phase : engine.Db → Str → Phase
  db_phase db = phase (docs.view db)

  -- A call takes its step of the machine and leaves consistent tables.
  pub record Serves (db : engine.Db) (n : Str) (e : Event) (r : Result (Unit {0}) × engine.Db)
      : Type 0 where
    pub steps : Steps db_phase db n e r
    pub consistent : IsConsistentDb r.1

  committed-Serves :
      (db : engine.Db) (n : Str) (e : Event) (r : Result (Unit {0}) × engine.Db) (t : Tables)
      → Commits.Commits engine docs r t
      → answer (db_phase db n) e ≡ ok tt
      → ((k : Str) → phase t k ≡ (if str_eq n k then next (db_phase db n) e else db_phase db k))
      → IsConsistent t
      → Serves db n e r
  committed-Serves db n e r t c a m h = record {
    steps = record {
      answers = c.returns ∙ sym a;
      moves = λ k. ap (λ (u : Tables). phase u k) c.leaves ∙ m k;
    };
    consistent = subst IsConsistent (sym c.leaves) h;
  }

  refused-Serves :
      (db : engine.Db) (n : Str) (e : Event) (r : Result (Unit {0}) × engine.Db) (x : Error)
      → Commits.Refuses engine docs db x r
      → answer (db_phase db n) e ≡ err x
      → next (db_phase db n) e ≡ db_phase db n
      → IsConsistentDb db
      → Serves db n e r
  refused-Serves db n e r x p a m h = record {
    steps = record {
      answers = p.fails ∙ sym a;
      moves = λ k. ap (λ (t : Tables). phase t k) p.keeps ∙ rw m (ground (arith, str_eq_iff n k));
    };
    consistent = subst IsConsistent (sym p.keeps) h;
  }

  -- The certificate of a call that saves has a DER and a PEM.
  abbrev pub IsStorable : Call → Type 0
  IsStorable (saves (some cert)) = (is_empty cert.raw_der ≡ false) × (is_empty cert.pem ≡ false)
  IsStorable c = Unit

  save-Serves :
      (cert : CertificateRecord) (now : ℕ) (db : engine.Db)
      → let n = normalize_serial cert.serial in
        is_empty n ≡ false
        → IsStorable (saves (some cert))
        → IsConsistentDb db
        → Serves db n (save cert.revoked) (save_certificate engine (λ _. none) now (some cert) db)
  unfolding phase phase_of
  save-Serves cert now db e full h =
      let n = normalize_serial cert.serial in
      let row = certificate_row cert n in
      let ser : SerialRecord = record { serial = n; issued_at = now } in
      let flag : (row.revoked == 1) ≡ cert.revoked = ground arith in
      elim (Option-cases ((docs.view db).certificate n)) [
        | inl f ↦
            committed-Serves db n (save cert.revoked) _ _
              (Commits.save_fresh engine docs cert now db e full.0 full.1 f) (ground arith)
              (λ k.
                subst
                  (λ b.
                    phase (saved row ser (docs.view db)) k
                    ≡ (if str_eq n k then next (db_phase db n) (save b) else db_phase db k))
                  flag (saved-phase (docs.view db) row ser k refl f))
              (saved-IsConsistent (docs.view db) row ser refl f h)
        | inr (old, f) ↦
            refused-Serves db n (save cert.revoked) _ already_exists
              (Commits.save_taken engine docs cert old now db e f) (ground arith) (ground arith) h
      ]

  revoke-Serves :
      (serial : Str) (reason : ℤ) (revoked_at now : ℕ) (db : engine.Db)
      → let n = normalize_serial serial in
        is_empty n ≡ false
        → IsConsistentDb db
        → Serves db n revoke (revoke_certificate engine (λ _. none) serial reason revoked_at now db)
  unfolding phase phase_of
  revoke-Serves serial reason revoked_at now db e h =
      let n = normalize_serial serial in
      let at = if revoked_at == 0 then now else revoked_at in
      let rev : RevocationRecord = record { serial = n; revoked_at = at; reason = reason } in
      elim (Option-cases ((docs.view db).certificate n)) [
        | inl f ↦
            refused-Serves db n revoke _ not_found
              (Commits.revoke_missing engine docs serial reason revoked_at now db e f)
              (ground arith) (ground arith) h
        | inr (row, f) ↦ elim (Bool-cases (row.revoked == 1)) [
          | inl g ↦
              refused-Serves db n revoke _ already_revoked
                (Commits.revoke_marked engine docs row serial reason revoked_at now db e f g)
                (rw (f, g) refl) (rw (f, g) refl) h
          | inr g ↦
              committed-Serves db n revoke _ _
                (Commits.revoke_fresh engine docs row serial reason revoked_at now db e f g
                  ((h n).unrecorded (rw f g)))
                (rw (f, g) refl) (λ k. revoked_in-phase (docs.view db) rev row k f g)
                (revoked_in-IsConsistent (docs.view db) rev row f h)
        ]
      ]

  reserve-Serves :
      (serial : Str) (now : ℕ) (db : engine.Db)
      → let n = normalize_serial serial in
        is_empty n ≡ false
        → IsConsistentDb db
        → Serves db n reserve (reserve_serial engine (λ _. none) serial now db)
  unfolding phase phase_of
  reserve-Serves serial now db e h =
      let n = normalize_serial serial in
      let ser : SerialRecord = record { serial = n; issued_at = now } in
      elim (Option-cases ((docs.view db).serial n)) [
        | inl f ↦
            committed-Serves db n reserve _ _ (Commits.reserve_fresh engine docs serial now db e f)
              (ground (arith, (h n).taken)) (λ k. reserved_in-phase (docs.view db) ser k h f)
              (reserved_in-IsConsistent (docs.view db) ser h)
        | inr (old, f) ↦
            refused-Serves db n reserve _ already_exists
              (Commits.reserve_taken engine docs old serial now db e f) (ground arith)
              (ground arith) h
      ]

  -- On a consistent database, with the context live throughout, every call with a serial that is not
  -- blank, and, where it saves a certificate, one whose DER and PEM are not empty, takes one step of
  -- the machine: the answer is the one that the serial's phase determines, the serial moves to the
  -- next phase, and every other serial keeps its phase. The database stays consistent.
  pub execute-Serves :
      (db : engine.Db) (now : ℕ) (c : Call)
      → IsConsistentDb db
      → is_empty (call_serial c) ≡ false
      → IsStorable c
      → Serves db (call_serial c) (call_event c) (execute engine (λ _. none) now c db)
  unfolding execute
  execute-Serves db now (saves none) h e full = cc
  execute-Serves db now (saves (some cert)) h e full = save-Serves cert now db e full h
  execute-Serves db now (revokes serial reason revoked_at) h e full =
      revoke-Serves serial reason revoked_at now db e h
  execute-Serves db now (reserves serial) h e full = reserve-Serves serial now db e h
