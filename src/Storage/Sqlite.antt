-- ===== src/Storage/Sqlite.antt =====
-- pkg/storage/sqlite.go: SQLiteStorage. The database and its driver are the parameter `engine` of
-- Sqlite/Driver. `ctx i` is what the context's Err() gives at the method's i-th call of the driver, and
-- `now` what time.Now() gives. A method returns its result with the database that it leaves.
pub mod Driver
pub mod Tables
pub mod Commits
pub mod Serves
pub mod Implements
pub mod Atomic
pub mod Listing
use go_certa.Prelude.{
  ℕ, ℤ, Str, codes, is_empty, ltb, ◌==◌, if◌then◌else◌, Option, none, some, List, [], ◌∷◌, ◌++◌,
}
use go_certa.Storage.{
  Context, not_found, already_exists, already_revoked, invalid_input, Result, ok, err,
  CertificateRecord, RevocationRecord, normalize_serial,
}
use Driver.{
  CertificateRow, insert_certificate, ensure_serial, insert_serial, mark_revoked, insert_revocation,
  Rows, Engine,
}

-- `if err != nil { return err }`, outside a transaction.
abbrev pub unless_failed {ℓ} :
    {A : Type ℓ} {D : Type 0} → D → Result A → (A → Result (Unit {0}) × D) → Result (Unit {0}) × D
unless_failed db (err e) k = (err e, db)
unless_failed db (ok a) k = k a

-- The same in a transaction: the deferred Rollback runs. Behind Commit it does nothing.
abbrev pub or_rollback {ℓ} :
    (engine : Engine)
    → engine.Db
    → engine.Db
    → {A : Type ℓ} → Result A
    → (A → Result (Unit {0}) × engine.Db)
    → Result (Unit {0}) × engine.Db
or_rollback engine db tx (err e) k = (err e, engine.rollback db tx)
or_rollback engine db tx (ok a) k = k a

abbrev pub certificate_row : CertificateRecord → Str → CertificateRow
certificate_row cert serial = record {
  serial = serial;
  subject = cert.subject;
  issuer = cert.issuer;
  not_before = cert.not_before;
  not_after = cert.not_after;
  raw_der = cert.raw_der;
  pem = cert.pem;
  revoked = if cert.revoked then 1 else 0;
}

abbrev pub certificate_of : CertificateRow → CertificateRecord
certificate_of row = record {
  serial = row.serial;
  subject = row.subject;
  issuer = row.issuer;
  not_before = row.not_before;
  not_after = row.not_after;
  raw_der = row.raw_der;
  pem = row.pem;
  revoked = row.revoked == 1;
}

abbrev pub scanned_certificate : Result (Option CertificateRow) → Result CertificateRecord
scanned_certificate (err e) = err e
scanned_certificate (ok none) = err not_found
scanned_certificate (ok (some row)) = ok (certificate_of row)

abbrev pub scanned_revocation : Result (Option RevocationRecord) → Result RevocationRecord
scanned_revocation (err e) = err e
scanned_revocation (ok none) = err not_found
scanned_revocation (ok (some rev)) = ok rev

-- The loop over rows.Next, with the records so far; then rows.Err().
abbrev pub collect :
    List RevocationRecord
    → List (Result RevocationRecord)
    → Result (Unit {0})
    → Result (List RevocationRecord)
collect records [] (ok u) = ok records
collect records [] (err e) = err e
collect records (err e ∷ rows) ended = err e
collect records (ok rec ∷ rows) ended = collect (records ++ (rec ∷ [])) rows ended

abbrev pub collect_rows : Result Rows → Result (List RevocationRecord)
collect_rows (err e) = err e
collect_rows (ok rows) = collect [] rows.scanned rows.ended

module _ (engine : Engine) where
  abbrev pub init_schema : engine.Db → Result (Unit {0}) × engine.Db
  init_schema db = engine.create_schema db

  schema_ready : Result (Unit {0}) × engine.Db → Result engine.Db
  schema_ready (ok u, db) = ok db
  schema_ready (err e, db) = err e

  initialized : Result engine.Db → Result engine.Db
  unfolding schema_ready
  initialized (err e) = err e
  initialized (ok db) = schema_ready (init_schema db)

  unfoldable pub new_sqlite_storage : Str → Result engine.Db
  unfolding initialized
  new_sqlite_storage db_path = initialized (
      engine.open_db (
        db_path
        ++ codes
            "?_pragma=journal_mode(WAL)&_pragma=busy_timeout(5000)&_pragma=synchronous(NORMAL)"))

  abbrev pub close : engine.Db → Result (Unit {0})
  close db = engine.close db

  unfoldable pub save_certificate :
      (ℕ → Context) → ℕ → Option CertificateRecord → engine.Db → Result (Unit {0}) × engine.Db
  save_certificate ctx now none db = (err invalid_input, db)
  save_certificate ctx now (some cert) db =
      let serial = normalize_serial cert.serial in
      if is_empty serial
      then (err invalid_input, db)
      else unless_failed db (engine.begin (ctx 0) db) (λ tx.
        or_rollback engine db tx (engine.count_certificates (ctx 1) serial tx) (λ exists.
          if ltb 0 exists
          then (err already_exists, engine.rollback db tx)
          else (let inserted =
                engine.exec (ctx 2) (insert_certificate (certificate_row cert serial)) tx in
              or_rollback engine db inserted.1 inserted.0 (λ _.
                let ensured =
                  engine.exec (ctx 3) (ensure_serial (record { serial = serial; issued_at = now }))
                    inserted.1 in
                engine.commit (ctx 4) db ensured.1))))

  unfoldable pub get_certificate : (ℕ → Context) → Str → engine.Db → Result CertificateRecord
  get_certificate ctx serial db =
      let norm_serial = normalize_serial serial in
      if is_empty norm_serial
      then err invalid_input
      else scanned_certificate (engine.select_certificate (ctx 0) norm_serial db)

  -- RevokeCertificate on the flag that it selects.
  unfoldable pub revoke_selected :
      (ℕ → Context) → Str → ℤ → ℕ → Option ℕ → engine.Db → engine.Db → Result (Unit {0}) × engine.Db
  revoke_selected ctx norm_serial reason at none tx db = (err not_found, engine.rollback db tx)
  revoke_selected ctx norm_serial reason at (some revoked_int) tx db =
      if revoked_int == 1
      then (err already_revoked, engine.rollback db tx)
      else (let updated = engine.exec (ctx 2) (mark_revoked norm_serial) tx in
          or_rollback engine db updated.1 updated.0 (λ _.
            let inserted =
              engine.exec (ctx 3)
                (insert_revocation
                  (record { serial = norm_serial; revoked_at = at; reason = reason }))
                updated.1 in
            or_rollback engine db inserted.1 inserted.0 (λ _. engine.commit (ctx 4) db inserted.1)))

  unfoldable pub revoke_certificate :
      (ℕ → Context) → Str → ℤ → ℕ → ℕ → engine.Db → Result (Unit {0}) × engine.Db
  unfolding revoke_selected
  revoke_certificate ctx serial reason revoked_at now db =
      let norm_serial = normalize_serial serial in
      if is_empty norm_serial
      then (err invalid_input, db)
      else (let at = if revoked_at == 0 then now else revoked_at in
          unless_failed db (engine.begin (ctx 0) db) (λ tx.
            or_rollback engine db tx (engine.select_revoked (ctx 1) norm_serial tx)
              (λ selected. revoke_selected ctx norm_serial reason at selected tx db)))

  unfoldable pub get_revocation : (ℕ → Context) → Str → engine.Db → Result RevocationRecord
  get_revocation ctx serial db =
      let norm_serial = normalize_serial serial in
      if is_empty norm_serial
      then err invalid_input
      else scanned_revocation (engine.select_revocation (ctx 0) norm_serial db)

  unfoldable pub list_revoked : (ℕ → Context) → engine.Db → Result (List RevocationRecord)
  list_revoked ctx db = collect_rows (engine.select_revocations (ctx 0) db)

  -- The two statements run outside a transaction.
  unfoldable pub reserve_serial :
      (ℕ → Context) → Str → ℕ → engine.Db → Result (Unit {0}) × engine.Db
  reserve_serial ctx serial now db =
      let norm_serial = normalize_serial serial in
      if is_empty norm_serial
      then (err invalid_input, db)
      else unless_failed db (engine.count_serials (ctx 0) norm_serial db) (λ exists.
        if ltb 0 exists
        then (err already_exists, db)
        else engine.exec (ctx 1) (insert_serial (record { serial = norm_serial; issued_at = now }))
            db)
