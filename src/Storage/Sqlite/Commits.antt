-- ===== src/Storage/Sqlite/Commits.antt =====
-- pkg/storage/sqlite.go: what each method leaves in the tables when its context stays live and the
-- driver does what it documents.
use go_certa.Prelude.{
  ℕ, ℤ, Str, is_empty, ◌==◌, if◌then◌else◌, true, false, none, some, is_some, ◌≡◌, refl, ◌∙◌, ap,
}
use go_certa.Storage.{
  not_found, already_exists, already_revoked, driver, Error, CertificateRecord, SerialRecord,
  Result, ok, err, normalize_serial,
}
use go_certa.Storage.Sqlite.{
  certificate_row, save_certificate, revoke_selected, revoke_certificate, reserve_serial,
}
use go_certa.Storage.Sqlite.Driver.{
  CertificateRow, insert_certificate, ensure_serial, insert_serial, mark_revoked, insert_revocation,
  Engine, Documented, Tables, after,
}
use go_certa.Storage.Sqlite.Tables.{saved, revoked_in, reserved_in}

module _ (engine : Engine) (docs : Documented engine) where
  -- A method returns ok, and the tables it leaves are `t`.
  pub record Commits (r : Result (Unit {0}) × engine.Db) (t : Tables) : Type 0 where
    pub returns : r.0 ≡ ok tt
    pub leaves : docs.view r.1 ≡ t

  -- A method returns an error, and the tables are the same.
  pub record Refuses (db : engine.Db) (x : Error) (r : Result (Unit {0}) × engine.Db) : Type 0 where
    pub fails : r.0 ≡ err x
    pub keeps : docs.view r.1 ≡ docs.view db

  pub save_fresh :
      (cert : CertificateRecord) (now : ℕ) (db : engine.Db)
      → let n = normalize_serial cert.serial in
        is_empty n ≡ false
        → is_empty cert.raw_der ≡ false
        → is_empty cert.pem ≡ false
        → (docs.view db).certificate n ≡ none
        → Commits
            (save_certificate engine (λ _. none) now (some cert) db)
            (saved (certificate_row cert n) (record { serial = n; issued_at = now }) (docs.view db))
  unfolding save_certificate
  save_fresh cert now db e der pem f =
      let n = normalize_serial cert.serial in
      let adds = insert_certificate (certificate_row cert n) in
      let ensures = ensure_serial (record { serial = n; issued_at = now }) in
      let (tx, begun, same) = docs.begin_live db in
      let absent : (docs.view tx).certificate n ≡ none =
        ap (λ (t : Tables). t.certificate n) same ∙ f in
      let added = docs.exec_live tx adds (rw (der, pem, absent) refl) in
      let ensured = docs.exec_live (engine.exec none adds tx).1 ensures refl in
      let committed =
        docs.commit_live db (engine.exec none ensures (engine.exec none adds tx).1).1 in
      rw (e, begun, docs.counts_certificates tx n, absent, added.0)
        (record {
          returns = committed.0;
          leaves = committed.1 ∙ ensured.1 ∙ ap (after ensures) (added.1 ∙ ap (after adds) same);
        })

  pub save_taken :
      (cert : CertificateRecord) (row : CertificateRow) (now : ℕ) (db : engine.Db)
      → let n = normalize_serial cert.serial in
        is_empty n ≡ false
        → (docs.view db).certificate n ≡ some row
        → Refuses db already_exists (save_certificate engine (λ _. none) now (some cert) db)
  unfolding save_certificate
  save_taken cert row now db e f =
      let n = normalize_serial cert.serial in
      let (tx, begun, same) = docs.begin_live db in
      let present : (docs.view tx).certificate n ≡ some row =
        ap (λ (t : Tables). t.certificate n) same ∙ f in
      rw (e, begun, docs.counts_certificates tx n, present)
        (record { fails = refl; keeps = docs.rolls_back db tx })

  pub revoke_fresh :
      (row : CertificateRow) (serial : Str) (reason : ℤ) (revoked_at now : ℕ) (db : engine.Db)
      → let n = normalize_serial serial in
        is_empty n ≡ false
        → (docs.view db).certificate n ≡ some row
        → (row.revoked == 1) ≡ false
        → is_some ((docs.view db).revocation n) ≡ false
        → Commits (revoke_certificate engine (λ _. none) serial reason revoked_at now db) (
            revoked_in
              (record {
                serial = n;
                revoked_at = if revoked_at == 0 then now else revoked_at;
                reason = reason;
              })
              (docs.view db))
  unfolding revoke_certificate revoke_selected
  revoke_fresh row serial reason revoked_at now db e f g h =
      let n = normalize_serial serial in
      let at = if revoked_at == 0 then now else revoked_at in
      let marks = mark_revoked n in
      let adds = insert_revocation (record { serial = n; revoked_at = at; reason = reason }) in
      let (tx, begun, same) = docs.begin_live db in
      let present : (docs.view tx).certificate n ≡ some row =
        ap (λ (t : Tables). t.certificate n) same ∙ f in
      let marked = docs.exec_live tx marks refl in
      let unrecorded : is_some ((docs.view (engine.exec none marks tx).1).revocation n) ≡ false =
        ap (λ (t : Tables). is_some (t.revocation n)) (marked.1 ∙ ap (after marks) same) ∙ h in
      let added = docs.exec_live (engine.exec none marks tx).1 adds (rw unrecorded refl) in
      let committed = docs.commit_live db (engine.exec none adds (engine.exec none marks tx).1).1 in
      rw (e, begun, docs.selects_revoked tx n, present, g, marked.0, added.0)
        (record {
          returns = committed.0;
          leaves = committed.1 ∙ added.1 ∙ ap (after adds) (marked.1 ∙ ap (after marks) same);
        })

  -- The primary key of the table revocations is taken.
  pub revoke_recorded :
      (row : CertificateRow) (serial : Str) (reason : ℤ) (revoked_at now : ℕ) (db : engine.Db)
      → let n = normalize_serial serial in
        is_empty n ≡ false
        → (docs.view db).certificate n ≡ some row
        → (row.revoked == 1) ≡ false
        → is_some ((docs.view db).revocation n) ≡ true
        → Refuses db driver (revoke_certificate engine (λ _. none) serial reason revoked_at now db)
  unfolding revoke_certificate revoke_selected
  revoke_recorded row serial reason revoked_at now db e f g h =
      let n = normalize_serial serial in
      let at = if revoked_at == 0 then now else revoked_at in
      let marks = mark_revoked n in
      let adds = insert_revocation (record { serial = n; revoked_at = at; reason = reason }) in
      let (tx, begun, same) = docs.begin_live db in
      let present : (docs.view tx).certificate n ≡ some row =
        ap (λ (t : Tables). t.certificate n) same ∙ f in
      let marked = docs.exec_live tx marks refl in
      let recorded : is_some ((docs.view (engine.exec none marks tx).1).revocation n) ≡ true =
        ap (λ (t : Tables). is_some (t.revocation n)) (marked.1 ∙ ap (after marks) same) ∙ h in
      let refused = docs.exec_taken (engine.exec none marks tx).1 adds recorded in
      let left = (engine.exec none marks tx).1 in
      rw (e, begun, docs.selects_revoked tx n, present, g, marked.0, refused)
        (record { fails = refl; keeps = docs.rolls_back db left })

  pub revoke_marked :
      (row : CertificateRow) (serial : Str) (reason : ℤ) (revoked_at now : ℕ) (db : engine.Db)
      → let n = normalize_serial serial in
        is_empty n ≡ false
        → (docs.view db).certificate n ≡ some row
        → (row.revoked == 1) ≡ true
        → Refuses db already_revoked
            (revoke_certificate engine (λ _. none) serial reason revoked_at now db)
  unfolding revoke_certificate revoke_selected
  revoke_marked row serial reason revoked_at now db e f g =
      let n = normalize_serial serial in
      let (tx, begun, same) = docs.begin_live db in
      let present : (docs.view tx).certificate n ≡ some row =
        ap (λ (t : Tables). t.certificate n) same ∙ f in
      rw (e, begun, docs.selects_revoked tx n, present, g)
        (record { fails = refl; keeps = docs.rolls_back db tx })

  pub revoke_missing :
      (serial : Str) (reason : ℤ) (revoked_at now : ℕ) (db : engine.Db)
      → let n = normalize_serial serial in
        is_empty n ≡ false
        → (docs.view db).certificate n ≡ none
        → Refuses db not_found
            (revoke_certificate engine (λ _. none) serial reason revoked_at now db)
  unfolding revoke_certificate revoke_selected
  revoke_missing serial reason revoked_at now db e f =
      let n = normalize_serial serial in
      let (tx, begun, same) = docs.begin_live db in
      let absent : (docs.view tx).certificate n ≡ none =
        ap (λ (t : Tables). t.certificate n) same ∙ f in
      rw (e, begun, docs.selects_revoked tx n, absent)
        (record { fails = refl; keeps = docs.rolls_back db tx })

  pub reserve_fresh :
      (serial : Str) (now : ℕ) (db : engine.Db)
      → let n = normalize_serial serial in
        is_empty n ≡ false
        → (docs.view db).serial n ≡ none
        → Commits
            (reserve_serial engine (λ _. none) serial now db)
            (reserved_in (record { serial = n; issued_at = now }) (docs.view db))
  unfolding reserve_serial
  reserve_fresh serial now db e f =
      let n = normalize_serial serial in
      let inserts =
        docs.exec_live db (insert_serial (record { serial = n; issued_at = now })) (rw f refl) in
      rw (e, docs.counts_serials db n, f) (record { returns = inserts.0; leaves = inserts.1 })

  pub reserve_taken :
      (row : SerialRecord) (serial : Str) (now : ℕ) (db : engine.Db)
      → let n = normalize_serial serial in
        is_empty n ≡ false
        → (docs.view db).serial n ≡ some row
        → Refuses db already_exists (reserve_serial engine (λ _. none) serial now db)
  unfolding reserve_serial
  reserve_taken row serial now db e f =
      rw (e, docs.counts_serials db (normalize_serial serial), f)
        (record { fails = refl; keeps = refl })
