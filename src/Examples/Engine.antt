-- ===== src/Examples/Engine.antt =====
-- A small database that keeps its tables as association lists, for the examples of
-- pkg/storage/sqlite.go.
use go_certa.Prelude.{
  Str, [], str_eq, str_eq_iff, Dict, lookup, insert, lookup-insert, values, map, if◌then◌else◌,
  true, Option, none, some, is_some, ◌≡◌, refl, arith, Bool-cases, inl, inr,
}
use go_certa.Storage.{Context, context, driver, Result, ok, err, RevocationRecord, SerialRecord}
use go_certa.Storage.Sqlite.Driver.{
  CertificateRow, Statement, insert_certificate, ensure_serial, insert_serial, mark_revoked,
  insert_revocation, Engine, Documented, Tables, put, marked, after, allowed, taken, filled,
  count_of, revoked_of,
}

pub record ListDb : Type 0 where
  pub certificates : Dict CertificateRow
  pub revocations : Dict RevocationRecord
  pub serials : Dict SerialRecord

abbrev pub empty_db : ListDb
empty_db = record { certificates = []; revocations = []; serials = [] }

abbrev pub tables : ListDb → Tables
tables db = record {
  certificate = λ k. lookup k db.certificates;
  revocation = λ k. lookup k db.revocations;
  serial = λ k. lookup k db.serials;
}

marked_rows : Str → Option CertificateRow → Dict CertificateRow → Dict CertificateRow
marked_rows n none rows = rows
marked_rows n (some row) rows = insert n (record row { revoked = 1 }) rows

-- The database after a statement that is allowed.
written : Statement → ListDb → ListDb
unfolding marked_rows
written (insert_certificate row) db = record db {
  certificates = insert row.serial row db.certificates;
}
written (ensure_serial row) db = record db {
  serials =
      if is_some (lookup row.serial db.serials)
      then db.serials
      else insert row.serial row db.serials;
}
written (insert_serial row) db = record db { serials = insert row.serial row db.serials }
written (mark_revoked n) db = record db {
  certificates = marked_rows n (lookup n db.certificates) db.certificates;
}
written (insert_revocation row) db = record db {
  revocations = insert row.serial row db.revocations;
}

lookup-marked_rows :
    (n k : Str) (found : Option CertificateRow) (rows : Dict CertificateRow)
    → lookup n rows ≡ found
    → lookup k (marked_rows n found rows)
      ≡ (if str_eq n k then marked (lookup k rows) else lookup k rows)
unfolding marked_rows
lookup-marked_rows n k none rows e = ground (arith, str_eq_iff n k)
lookup-marked_rows n k (some row) rows e =
    ground (arith, str_eq_iff n k, lookup-insert n k (record row { revoked = 1 }) rows)

kept-ensured :
    (row : SerialRecord) (rows : Dict SerialRecord) (k : Str)
    → lookup k (if is_some (lookup row.serial rows) then rows else insert row.serial row rows) ≡ (
        if is_some (lookup row.serial rows)
        then lookup k rows
        else put row.serial row (λ j. lookup j rows) k)
kept-ensured row rows k = ground (arith, lookup-insert row.serial k row rows)

tables-written : (st : Statement) (db : ListDb) → tables (written st db) ≡ after st (tables db)
unfolding written
tables-written (insert_certificate row) db i = record (tables db) {
  certificate = λ k. lookup-insert row.serial k row db.certificates i;
}
tables-written (ensure_serial row) db i = record (tables db) {
  serial = λ k. kept-ensured row db.serials k i;
}
tables-written (insert_serial row) db i = record (tables db) {
  serial = λ k. lookup-insert row.serial k row db.serials i;
}
tables-written (mark_revoked n) db i = record (tables db) {
  certificate = λ k. lookup-marked_rows n k (lookup n db.certificates) db.certificates refl i;
}
tables-written (insert_revocation row) db i = record (tables db) {
  revocation = λ k. lookup-insert row.serial k row db.revocations i;
}

abbrev under {ℓ} : {A : Type ℓ} → Context → A → Result A
under none a = ok a
under (some e) a = err (context e)

unfoldable pub exec : Context → Statement → ListDb → Result (Unit {0}) × ListDb
unfolding written
exec (some e) st db = (err (context e), db)
exec none st db = if allowed st (tables db) then (ok tt, written st db) else (err driver, db)

unfoldable pub commit : Context → ListDb → ListDb → Result (Unit {0}) × ListDb
commit none db tx = (ok tt, tx)
commit (some e) db tx = (err (context e), db)

abbrev pub list_engine : Engine
list_engine = record {
  Db = ListDb;
  open_db = λ dsn. ok empty_db;
  create_schema = λ db. (ok tt, db);
  close = λ db. ok tt;
  begin = λ ctx db. under ctx db;
  exec = exec;
  commit = commit;
  rollback = λ db tx. db;
  count_certificates = λ ctx n db. under ctx (count_of (lookup n db.certificates));
  count_serials = λ ctx n db. under ctx (count_of (lookup n db.serials));
  select_certificate = λ ctx n db. under ctx (lookup n db.certificates);
  select_revoked = λ ctx n db. under ctx (revoked_of (lookup n db.certificates));
  select_revocation = λ ctx n db. under ctx (lookup n db.revocations);
  select_revocations =
      λ ctx db. under ctx (record { scanned = map ok (values db.revocations); ended = ok tt });
}

pub exec_live :
    (db : ListDb) (st : Statement)
    → allowed st (tables db) ≡ true
    → ((exec none st db).0 ≡ ok tt) × (tables (exec none st db).1 ≡ after st (tables db))
unfolding exec
exec_live db st e = rw e (refl, tables-written st db)

pub exec_taken :
    (db : ListDb) (st : Statement)
    → taken st (tables db) ≡ true
    → exec none st db ≡ (err driver, db)
unfolding exec
exec_taken db st e = elim (Bool-cases (filled st)) [ inl f ↦ rw (f, e) refl | inr f ↦ rw f refl ]

unfoldable pub list_engine-Documented : Documented list_engine
unfolding exec commit
list_engine-Documented = record {
  view = tables;
  opens = λ dsn. (empty_db, refl);
  creates = λ db. (refl, refl);
  begin_live = λ db. (db, refl, refl);
  begin_dead = λ db e. refl;
  exec_live = exec_live;
  exec_taken = exec_taken;
  commit_live = λ db tx. (refl, refl);
  rolls_back = λ db tx. refl;
  counts_certificates = λ db n. refl;
  counts_serials = λ db n. refl;
  counts_dead = λ db n e. refl;
  selects_certificate = λ db n. refl;
  selects_dead = λ db n e. refl;
  selects_revoked = λ db n. refl;
  selects_revocation = λ db n. refl;
}
