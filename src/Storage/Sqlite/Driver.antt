-- ===== src/Storage/Sqlite/Driver.antt =====
-- database/sql with the SQLite driver, as pkg/storage/sqlite.go uses them: a parameter. A statement
-- names the SQL text that the source runs with its arguments. A transaction works on a database of
-- its own, which replaces the shared one when it commits; a rollback should leave the shared one.
use go_certa.Prelude.{
  ℕ, Str, str_eq, if◌then◌else◌, Bool, true, false, Option, none, some, is_some, not, ◌&&◌,
  is_empty, List, ◌≡◌,
}
use go_certa.Storage.{
  Context, ContextError, context, driver, Result, ok, err, RevocationRecord, SerialRecord,
}

-- A row of the table certificates; `revoked` is an INTEGER. A nil slice, which is a NULL, and an empty
-- one are both an empty text here.
pub record CertificateRow : Type 0 where
  pub serial : Str
  pub subject : Str
  pub issuer : Str
  pub not_before : ℕ
  pub not_after : ℕ
  pub raw_der : Str
  pub pem : Str
  pub revoked : ℕ

pub data Statement : Type 0 where
  insert_certificate : CertificateRow → Statement
  -- INSERT OR IGNORE INTO serials, and INSERT INTO serials.
  ensure_serial insert_serial : SerialRecord → Statement
  mark_revoked : Str → Statement
  insert_revocation : RevocationRecord → Statement

-- What rows.Next steps through: each row as Scan returns it, and rows.Err at the end.
pub record Rows : Type 0 where
  pub scanned : List (Result RevocationRecord)
  pub ended : Result (Unit {0})

pub record Engine : Type 1 where
  pub Db : Type 0
  -- sql.Open by its data source name, the CREATE statements, db.Close.
  pub open_db : Str → Result Db
  pub create_schema : Db → Result (Unit {0}) × Db
  pub close : Db → Result (Unit {0})
  pub begin : Context → Db → Result Db
  pub exec : Context → Statement → Db → Result (Unit {0}) × Db
  -- The shared database, the transaction's.
  pub commit : Context → Db → Db → Result (Unit {0}) × Db
  -- What it leaves of the shared database; its error is dropped.
  pub rollback : Db → Db → Db
  pub count_certificates : Context → Str → Db → Result ℕ
  pub count_serials : Context → Str → Db → Result ℕ
  -- The first row, if there is one: Scan returns sql.ErrNoRows if not.
  pub select_certificate : Context → Str → Db → Result (Option CertificateRow)
  pub select_revoked : Context → Str → Db → Result (Option ℕ)
  pub select_revocation : Context → Str → Db → Result (Option RevocationRecord)
  pub select_revocations : Context → Db → Result Rows

-- The tables by their primary key.
pub record Tables : Type 0 where
  pub certificate : Str → Option CertificateRow
  pub revocation : Str → Option RevocationRecord
  pub serial : Str → Option SerialRecord

abbrev pub put {ℓ} : {V : Type ℓ} → Str → V → (Str → Option V) → Str → Option V
put n v table k = if str_eq n k then some v else table k

abbrev pub marked : Option CertificateRow → Option CertificateRow
marked none = none
marked (some row) = some (record row { revoked = 1 })

-- What SQL says that each statement does to the tables.
abbrev pub after : Statement → Tables → Tables
after (insert_certificate row) t = record t { certificate = put row.serial row t.certificate }
after (ensure_serial row) t = record t {
  serial = λ k. if is_some (t.serial row.serial) then t.serial k else put row.serial row t.serial k;
}
after (insert_serial row) t = record t { serial = put row.serial row t.serial }
after (mark_revoked n) t = record t {
  certificate = λ k. if str_eq n k then marked (t.certificate k) else t.certificate k;
}
after (insert_revocation row) t = record t { revocation = put row.serial row t.revocation }

-- The INSERT would write a primary key twice.
abbrev pub taken : Statement → Tables → Bool
taken (insert_certificate row) t = is_some (t.certificate row.serial)
taken (ensure_serial row) t = false
taken (insert_serial row) t = is_some (t.serial row.serial)
taken (mark_revoked n) t = false
taken (insert_revocation row) t = is_some (t.revocation row.serial)

-- What the columns that are NOT NULL get is certainly no NULL.
abbrev pub filled : Statement → Bool
filled (insert_certificate row) = not (is_empty row.raw_der) && not (is_empty row.pem)
filled st = true

abbrev pub allowed : Statement → Tables → Bool
allowed st t = filled st && not (taken st t)

abbrev pub count_of {ℓ} : {V : Type ℓ} → Option V → ℕ
count_of none = 0
count_of (some v) = 1

abbrev pub revoked_of : Option CertificateRow → Option ℕ
revoked_of none = none
revoked_of (some row) = some row.revoked

-- The documented behaviour: a call with a dead context returns its error; one with a live context
-- does what SQL says on the tables, and fails on a primary key that is taken. Nothing is said of an
-- INSERT of a certificate whose DER or PEM is empty: a nil one violates NOT NULL.
pub record Documented (engine : Engine) : Type 0 where
  pub view : engine.Db → Tables
  pub opens : (dsn : Str) → (db : engine.Db) × (engine.open_db dsn ≡ ok db)
  -- IF NOT EXISTS: the tables keep their rows, and one that is new has none.
  pub creates :
      (db : engine.Db)
      → ((engine.create_schema db).0 ≡ ok tt) × (view (engine.create_schema db).1 ≡ view db)
  pub begin_live :
      (db : engine.Db) → (tx : engine.Db) × (engine.begin none db ≡ ok tx) × (view tx ≡ view db)
  pub begin_dead : (db : engine.Db) (e : ContextError) → engine.begin (some e) db ≡ err (context e)
  pub exec_live :
      (db : engine.Db) (st : Statement)
      → allowed st (view db) ≡ true
      → ((engine.exec none st db).0 ≡ ok tt)
        × (view (engine.exec none st db).1 ≡ after st (view db))
  pub exec_taken :
      (db : engine.Db) (st : Statement)
      → taken st (view db) ≡ true
      → engine.exec none st db ≡ (err driver, db)
  pub commit_live :
      (db tx : engine.Db)
      → ((engine.commit none db tx).0 ≡ ok tt) × (view (engine.commit none db tx).1 ≡ view tx)
  pub rolls_back : (db tx : engine.Db) → view (engine.rollback db tx) ≡ view db
  pub counts_certificates :
      (db : engine.Db) (n : Str)
      → engine.count_certificates none n db ≡ ok (count_of ((view db).certificate n))
  pub counts_serials :
      (db : engine.Db) (n : Str)
      → engine.count_serials none n db ≡ ok (count_of ((view db).serial n))
  pub counts_dead :
      (db : engine.Db) (n : Str) (e : ContextError)
      → engine.count_serials (some e) n db ≡ err (context e)
  pub selects_certificate :
      (db : engine.Db) (n : Str)
      → engine.select_certificate none n db ≡ ok ((view db).certificate n)
  pub selects_dead :
      (db : engine.Db) (n : Str) (e : ContextError)
      → engine.select_certificate (some e) n db ≡ err (context e)
  pub selects_revoked :
      (db : engine.Db) (n : Str)
      → engine.select_revoked none n db ≡ ok (revoked_of ((view db).certificate n))
  pub selects_revocation :
      (db : engine.Db) (n : Str) → engine.select_revocation none n db ≡ ok ((view db).revocation n)
