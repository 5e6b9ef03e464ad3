-- ===== src/Storage/Sqlite/Atomic.antt =====
-- pkg/storage/sqlite.go: transactions. Here the driver may fail at any statement, also at COMMIT, and
-- the context may end between any two.
use go_certa.Prelude.{
  ℕ, ℤ, Str, is_empty, ltb, ◌==◌, if◌then◌else◌, Option, none, some, ◌≡◌, ◌⊎◌, refl, ap, ◌∙◌,
  Bool-cases, inl, inr,
}
use go_certa.Storage.{
  Context, Error, invalid_input, not_found, already_exists, already_revoked, CertificateRecord,
  Result, ok, err, normalize_serial,
}
use go_certa.Storage.Contract.{Call, saves, revokes, reserves}
use go_certa.Storage.Sqlite.{
  unless_failed, or_rollback, certificate_row, save_certificate, revoke_selected,
  revoke_certificate, reserve_serial,
}
use go_certa.Storage.Sqlite.Driver.{
  Statement, insert_certificate, ensure_serial, insert_serial, mark_revoked, insert_revocation,
  Engine, Tables, put, after,
}
use go_certa.Storage.Sqlite.Tables.{saved, revoked_in, reserved_in}
use go_certa.Storage.Sqlite.Serves.{execute}

-- A driver that may fail at every call: one that fails changes no table, one that does not does what
-- SQL says. Nothing is said of when it fails, nor of what a query returns.
pub record MayFail (engine : Engine) : Type 0 where
  pub view : engine.Db → Tables
  pub begins :
      (ctx : Context) (db : engine.Db)
      → ((tx : engine.Db) × (engine.begin ctx db ≡ ok tx) × (view tx ≡ view db))
        ⊎ ((x : Error) × (engine.begin ctx db ≡ err x))
  pub executes :
      (ctx : Context) (st : Statement) (db : engine.Db)
      → (((engine.exec ctx st db).0 ≡ ok tt)
          × (view (engine.exec ctx st db).1 ≡ after st (view db)))
        ⊎ ((x : Error) × ((engine.exec ctx st db).0 ≡ err x)
            × (view (engine.exec ctx st db).1 ≡ view db))
  pub commits :
      (ctx : Context) (db tx : engine.Db)
      → (((engine.commit ctx db tx).0 ≡ ok tt) × (view (engine.commit ctx db tx).1 ≡ view tx))
        ⊎ ((x : Error) × ((engine.commit ctx db tx).0 ≡ err x)
            × (view (engine.commit ctx db tx).1 ≡ view db))
  pub rolls_back : (db tx : engine.Db) → view (engine.rollback db tx) ≡ view db

-- The tables after a call that succeeds: all that it writes. The row in the table serials may be
-- missing behind a certificate that is saved, since the error of that statement is dropped.
abbrev pub Effect : ℕ → Call → Tables → Tables → Type 0
Effect now (saves none) before t = ⊥
Effect now (saves (some cert)) before t =
    let n = normalize_serial cert.serial in
    let row = certificate_row cert n in
    (t ≡ saved row (record { serial = n; issued_at = now }) before)
    ⊎ (t ≡ record before { certificate = put n row before.certificate })
Effect now (revokes serial reason revoked_at) before t =
    t
    ≡ revoked_in
        (record {
          serial = normalize_serial serial;
          revoked_at = if revoked_at == 0 then now else revoked_at;
          reason = reason;
        })
        before
Effect now (reserves serial) before t =
    t ≡ reserved_in (record { serial = normalize_serial serial; issued_at = now }) before

module _ (engine : Engine) (driver : MayFail engine) where
  -- All of the effect, or an error and nothing.
  abbrev pub AllOrNothing : (Tables → Type 0) → engine.Db → Result (Unit {0}) × engine.Db → Type 0
  AllOrNothing P db r =
      ((r.0 ≡ ok tt) × P (driver.view r.1))
      ⊎ ((x : Error) × (r.0 ≡ err x) × (driver.view r.1 ≡ driver.view db))

  or_rollback-AllOrNothing {ℓ} :
      {A : Type ℓ} (P : Tables → Type 0) (db tx : engine.Db) (r : Result A)
      (k : A → Result (Unit {0}) × engine.Db)
      → ((a : A) → AllOrNothing P db (k a))
      → AllOrNothing P db (or_rollback engine db tx r k)
  or_rollback-AllOrNothing P db tx (ok a) k h = h a
  or_rollback-AllOrNothing P db tx (err x) k h = inr (x, refl, driver.rolls_back db tx)

  unless_failed-AllOrNothing {ℓ} :
      {A : Type ℓ} (P : Tables → Type 0) (db : engine.Db) (r : Result A)
      (k : A → Result (Unit {0}) × engine.Db)
      → ((a : A) → AllOrNothing P db (k a))
      → AllOrNothing P db (unless_failed db r k)
  unless_failed-AllOrNothing P db (ok a) k h = h a
  unless_failed-AllOrNothing P db (err x) k h = inr (x, refl, refl)

  commit-AllOrNothing :
      (P : Tables → Type 0) (ctx : Context) (db tx : engine.Db)
      → P (driver.view tx)
      → AllOrNothing P db (engine.commit ctx db tx)
  commit-AllOrNothing P ctx db tx h = elim (driver.commits ctx db tx) [
    | inl (c, w) ↦ inl (c, rw w h)
    | inr failed ↦ inr failed
  ]

  inserted-AllOrNothing :
      (ctx : ℕ → Context) (now : ℕ) (cert : CertificateRecord) (db tx : engine.Db)
      → driver.view tx ≡ driver.view db
      → let n = normalize_serial cert.serial in
        let inserted = engine.exec (ctx 2) (insert_certificate (certificate_row cert n)) tx in
        AllOrNothing (Effect now (saves (some cert)) (driver.view db)) db (
          or_rollback engine db inserted.1 inserted.0 (λ _.
            engine.commit
              (ctx 4)
              db
              (engine.exec
                (ctx 3)
                (ensure_serial (record { serial = n; issued_at = now }))
                inserted.1).1))
  inserted-AllOrNothing ctx now cert db tx v =
      let n = normalize_serial cert.serial in
      let ins = insert_certificate (certificate_row cert n) in
      let ens = ensure_serial (record { serial = n; issued_at = now }) in
      let inserted = engine.exec (ctx 2) ins tx in
      elim (driver.executes (ctx 2) ins tx) [
        | inr (x, e, _) ↦ rw e (inr (x, refl, driver.rolls_back db inserted.1))
        | inl (e, w) ↦
            let put_row = w ∙ ap (after ins) v in
            rw e (
              commit-AllOrNothing (Effect now (saves (some cert)) (driver.view db)) (ctx 4) db
                (engine.exec (ctx 3) ens inserted.1).1
                (elim (driver.executes (ctx 3) ens inserted.1) [
                  | inl (_, q) ↦ inl (q ∙ ap (after ens) put_row)
                  | inr (_, _, q) ↦ inr (q ∙ put_row)
                ]))
      ]

  save-AllOrNothing :
      (ctx : ℕ → Context) (now : ℕ) (cert : Option CertificateRecord) (db : engine.Db)
      → AllOrNothing
          (Effect now (saves cert) (driver.view db))
          db
          (save_certificate engine ctx now cert db)
  unfolding save_certificate
  save-AllOrNothing ctx now none db = inr (invalid_input, refl, refl)
  save-AllOrNothing ctx now (some cert) db =
      let n = normalize_serial cert.serial in
      elim (Bool-cases (is_empty n)) [
        | inl e ↦ rw e (inr (invalid_input, refl, refl))
        | inr e ↦ elim (driver.begins (ctx 0) db) [
          | inr (x, b) ↦ rw (e, b) (inr (x, refl, refl))
          | inl (tx, b, v) ↦
              rw (e, b)
                (or_rollback-AllOrNothing (Effect now (saves (some cert)) (driver.view db)) db tx
                  (engine.count_certificates (ctx 1) n tx) _
                  (λ exists. elim (Bool-cases (ltb 0 exists)) [
                    | inl f ↦ rw f (inr (already_exists, refl, driver.rolls_back db tx))
                    | inr f ↦ rw f (inserted-AllOrNothing ctx now cert db tx v)
                  ]))
        ]
      ]

  selected-AllOrNothing :
      (ctx : ℕ → Context) (serial : Str) (reason : ℤ) (at now : ℕ) (selected : Option ℕ)
      (tx db : engine.Db)
      → driver.view tx ≡ driver.view db
      → AllOrNothing (Effect now (revokes serial reason at) (driver.view db)) db (
          revoke_selected engine ctx
            (normalize_serial serial)
            reason
            (if at == 0 then now else at)
            selected
            tx
            db)
  unfolding revoke_selected
  selected-AllOrNothing ctx serial reason at now none tx db v =
      inr (not_found, refl, driver.rolls_back db tx)
  selected-AllOrNothing ctx serial reason at now (some flag) tx db v =
      let n = normalize_serial serial in
      let marks = mark_revoked n in
      let adds =
        insert_revocation
          (record { serial = n; revoked_at = if at == 0 then now else at; reason = reason }) in
      let updated = engine.exec (ctx 2) marks tx in
      let inserted = engine.exec (ctx 3) adds updated.1 in
      elim (Bool-cases (flag == 1)) [
        | inl f ↦ rw f (inr (already_revoked, refl, driver.rolls_back db tx))
        | inr f ↦ elim (driver.executes (ctx 2) marks tx) [
          | inr (x, e, _) ↦ rw (f, e) (inr (x, refl, driver.rolls_back db updated.1))
          | inl (e, w) ↦ elim (driver.executes (ctx 3) adds updated.1) [
            | inr (x, g, _) ↦ rw (f, e, g) (inr (x, refl, driver.rolls_back db inserted.1))
            | inl (g, q) ↦
                rw (f, e, g)
                  (commit-AllOrNothing (Effect now (revokes serial reason at) (driver.view db))
                    (ctx 4) db inserted.1 (q ∙ ap (after adds) (w ∙ ap (after marks) v)))
          ]
        ]
      ]

  revoke-AllOrNothing :
      (ctx : ℕ → Context) (serial : Str) (reason : ℤ) (at now : ℕ) (db : engine.Db)
      → AllOrNothing
          (Effect now (revokes serial reason at) (driver.view db))
          db
          (revoke_certificate engine ctx serial reason at now db)
  unfolding revoke_certificate
  revoke-AllOrNothing ctx serial reason at now db =
      let n = normalize_serial serial in
      elim (Bool-cases (is_empty n)) [
        | inl e ↦ rw e (inr (invalid_input, refl, refl))
        | inr e ↦ elim (driver.begins (ctx 0) db) [
          | inr (x, b) ↦ rw (e, b) (inr (x, refl, refl))
          | inl (tx, b, v) ↦
              rw (e, b)
                (or_rollback-AllOrNothing (Effect now (revokes serial reason at) (driver.view db))
                  db tx (engine.select_revoked (ctx 1) n tx) _
                  (λ selected. selected-AllOrNothing ctx serial reason at now selected tx db v))
        ]
      ]

  reserve-AllOrNothing :
      (ctx : ℕ → Context) (serial : Str) (now : ℕ) (db : engine.Db)
      → AllOrNothing
          (Effect now (reserves serial) (driver.view db))
          db
          (reserve_serial engine ctx serial now db)
  unfolding reserve_serial
  reserve-AllOrNothing ctx serial now db =
      let n = normalize_serial serial in
      elim (Bool-cases (is_empty n)) [
        | inl e ↦ rw e (inr (invalid_input, refl, refl))
        | inr e ↦ rw e (
            unless_failed-AllOrNothing (Effect now (reserves serial) (driver.view db)) db
              (engine.count_serials (ctx 0) n db) _
              (λ exists. elim (Bool-cases (ltb 0 exists)) [
                | inl f ↦ rw f (inr (already_exists, refl, refl))
                | inr f ↦ rw f (
                    driver.executes (ctx 1) (insert_serial (record { serial = n; issued_at = now }))
                      db)
              ]))
      ]

  -- A call of SQLiteStorage that writes, wherever the driver fails or the context ends, either
  -- succeeds and leaves all of its effect in the tables, the two writes of a revocation among them,
  -- or returns an error and leaves the tables as they were. A saved certificate may
  -- lack its row in the table serials. A statement, a COMMIT or a BEGIN of the driver
  -- that fails changes no table, one that does not does what SQL says, and Rollback undoes the
  -- transaction.
  pub execute-AllOrNothing :
      (ctx : ℕ → Context) (now : ℕ) (c : Call) (db : engine.Db)
      → AllOrNothing (Effect now c (driver.view db)) db (execute engine ctx now c db)
  unfolding execute
  execute-AllOrNothing ctx now (saves cert) db = save-AllOrNothing ctx now cert db
  execute-AllOrNothing ctx now (revokes serial reason at) db =
      revoke-AllOrNothing ctx serial reason at now db
  execute-AllOrNothing ctx now (reserves serial) db = reserve-AllOrNothing ctx serial now db
