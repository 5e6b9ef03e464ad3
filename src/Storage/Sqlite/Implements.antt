-- ===== src/Storage/Sqlite/Implements.antt =====
-- pkg/storage/sqlite.go: SQLiteStorage beside the laws of the interface Storage, over a driver that
-- does what it documents, for certificates with a DER and a PEM.
use go_certa.Prelude.{
  ℕ, ℤ, Str, is_empty, ◌==◌, if◌then◌else◌, Bool, true, false, Option, none, some, is_some, ◌≡◌,
  refl, ap, sym, ◌∙◌, Bool-cases, Option-cases, inl, inr, str_eq_refl,
}
use go_certa.Storage.{Context, ContextError, context, invalid_input, ok, err, normalize_serial}
use go_certa.Storage.Contract.{Call, saves, revokes, reserves, Shows, call_serial}
use go_certa.Storage.Sqlite.{
  certificate_of, scanned_certificate, save_certificate, get_certificate, revoke_certificate,
  get_revocation, reserve_serial,
}
use go_certa.Storage.Sqlite.Driver.{CertificateRow, Engine, Documented, Tables}
use go_certa.Storage.Sqlite.Tables.{phase, phase_of}
use go_certa.Storage.Sqlite.Commits
use go_certa.Storage.Sqlite.Serves.{execute, IsConsistentDb, IsStorable, db_phase, execute-Serves}

-- A blank serial is refused before the context is looked at.
pub sqlite_invalid :
    (engine : Engine) (ctx : ℕ → Context) (db : engine.Db) (now : ℕ) (c : Call)
    → is_empty (call_serial c) ≡ true
    → execute engine ctx now c db ≡ (err invalid_input, db)
unfolding execute save_certificate revoke_certificate reserve_serial
sqlite_invalid engine ctx db now (saves none) e = refl
sqlite_invalid engine ctx db now (saves (some cert)) e = rw e refl
sqlite_invalid engine ctx db now (revokes serial reason revoked_at) e = rw e refl
sqlite_invalid engine ctx db now (reserves serial) e = rw e refl

shown :
    (found : Option CertificateRow) (taken : Bool)
    → Shows (phase_of found taken) (scanned_certificate (ok found))
unfolding phase_of
shown none true = refl
shown none false = refl
shown (some row) taken = elim (Bool-cases (row.revoked == 1)) [
  | inl e ↦ rw e (record (certificate_of row) { revoked = true }, refl, refl)
  | inr e ↦ rw e (record (certificate_of row) { revoked = false }, refl, refl)
]

module _ (engine : Engine) (docs : Documented engine) where
  pub sqlite_rejects :
      (db : engine.Db) (now : ℕ) (c : Call) (e : ContextError)
      → is_empty (call_serial c) ≡ false
      → execute engine (λ _. some e) now c db ≡ (err (context e), db)
  unfolding execute save_certificate revoke_certificate reserve_serial
  sqlite_rejects db now (saves none) e p = cc
  sqlite_rejects db now (saves (some cert)) e p = rw (p, docs.begin_dead db e) refl
  sqlite_rejects db now (revokes serial reason revoked_at) e p = rw (p, docs.begin_dead db e) refl
  sqlite_rejects db now (reserves serial) e p =
      rw (p, docs.counts_dead db (normalize_serial serial) e) refl

  live_keeps :
      (ctx : Context) (now : ℕ) (c : Call) (db : engine.Db)
      → is_empty (call_serial c) ≡ false
      → IsStorable engine docs c
      → IsConsistentDb engine docs db
      → IsConsistentDb engine docs (execute engine (λ _. ctx) now c db).1
  live_keeps none now c db e full h = (execute-Serves engine docs db now c h e full).consistent
  live_keeps (some x) now c db e full h = rw (sqlite_rejects db now c x e) h

  pub sqlite_keeps :
      (ctx : Context) (now : ℕ) (c : Call) (db : engine.Db)
      → IsStorable engine docs c
      → IsConsistentDb engine docs db
      → IsConsistentDb engine docs (execute engine (λ _. ctx) now c db).1
  sqlite_keeps ctx now c db full h = elim (Bool-cases (is_empty (call_serial c))) [
    | inl e ↦ rw (sqlite_invalid engine (λ _. ctx) db now c e) h
    | inr e ↦ live_keeps ctx now c db e full h
  ]

  pub sqlite-Shows :
      (db : engine.Db) (serial : Str)
      → is_empty (normalize_serial serial) ≡ false
      → Shows
          (db_phase engine docs db (normalize_serial serial))
          (get_certificate engine (λ _. none) serial db)
  unfolding get_certificate phase
  sqlite-Shows db serial e =
      let n = normalize_serial serial in
      rw (e, docs.selects_certificate db n)
        (shown ((docs.view db).certificate n) (is_some ((docs.view db).serial n)))

  pub sqlite_unavailable :
      (db : engine.Db) (serial : Str) (e : ContextError)
      → is_empty (normalize_serial serial) ≡ false
      → get_certificate engine (λ _. some e) serial db ≡ err (context e)
  unfolding get_certificate
  sqlite_unavailable db serial e p = rw (p, docs.selects_dead db (normalize_serial serial) e) refl

  -- The revocation that a successful RevokeCertificate leaves.
  revocation_left :
      (row : CertificateRow) (serial : Str) (reason : ℤ) (revoked_at now : ℕ) (db : engine.Db)
      → let n = normalize_serial serial in
        is_empty n ≡ false
        → (docs.view db).certificate n ≡ some row
        → (row.revoked == 1) ≡ false
        → is_some ((docs.view db).revocation n) ≡ false
        → (docs.view
              (revoke_certificate engine (λ _. none) serial reason revoked_at now db).1).revocation
            n
          ≡ some (record {
            serial = n;
            revoked_at = if revoked_at == 0 then now else revoked_at;
            reason = reason;
          })
  revocation_left row serial reason revoked_at now db e f g h =
      let n = normalize_serial serial in
      ap (λ (t : Tables). t.revocation n)
        (Commits.revoke_fresh engine docs row serial reason revoked_at now db e f g h).leaves
      ∙ rw (str_eq_refl n) refl

  pub sqlite_records :
      (db db' : engine.Db) (now revoked_at : ℕ) (serial : Str) (reason : ℤ)
      → execute engine (λ _. none) now (revokes serial reason revoked_at) db ≡ (ok tt, db')
      → get_revocation engine (λ _. none) serial db'
        ≡ ok (record {
          serial = normalize_serial serial;
          revoked_at = if revoked_at == 0 then now else revoked_at;
          reason = reason;
        })
  unfolding execute get_revocation
  sqlite_records db db' now revoked_at serial reason p =
      let n = normalize_serial serial in
      elim (Bool-cases (is_empty n)) [
        | inl e ↦
            cc (p, sqlite_invalid engine (λ _. none) db now (revokes serial reason revoked_at) e)
        | inr e ↦ elim (Option-cases ((docs.view db).certificate n)) [
          | inl f ↦ cc (
            ap (λ r. r.0) p,
            (Commits.revoke_missing engine docs serial reason revoked_at now db e f).fails,
          )
          | inr (row, f) ↦ elim (Bool-cases (row.revoked == 1)) [
            | inl g ↦ cc (
              ap (λ r. r.0) p,
              (Commits.revoke_marked engine docs row serial reason revoked_at now db e f g).fails,
            )
            | inr g ↦ elim (Bool-cases (is_some ((docs.view db).revocation n))) [
              | inl h ↦ cc (
                ap (λ r. r.0) p,
                (Commits.revoke_recorded engine docs row serial reason revoked_at now db e f g
                    h).fails,
              )
              | inr h ↦
                  rw
                    (
                      e,
                      docs.selects_revocation db' n,
                      ap (λ r. (docs.view r.1).revocation n) (sym p)
                          ∙ revocation_left row serial reason revoked_at now db e f g h,
                    )
                    refl
            ]
          ]
        ]
      ]
