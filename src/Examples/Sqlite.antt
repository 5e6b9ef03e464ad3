-- ===== src/Examples/Sqlite.antt =====
-- pkg/storage/sqlite.go on a small database.
use go_certa.Prelude.{
  ◌⊎◌, Bool-cases, if◌then◌else◌, ◌==◌, inl, inr, ℕ, pos, codes, false, lookup, none, some, List,
  [], ◌∷◌, ◌≡◌, refl,
}
use go_certa.Storage.{
  Error, context, driver, err, Context, canceled, CertificateRecord, RevocationRecord, ok,
  normalize_serial,
}
use go_certa.Storage.Contract.{Call, saves, revokes, reserves, call_serial, call_event}
use go_certa.Storage.Contract.History.{run}
use go_certa.Storage.Memory.{new_memory_storage}
use go_certa.Storage.Memory.Implements.{memory_store}
use go_certa.Storage.Sqlite.{list_revoked}
use go_certa.Storage.Sqlite.Driver.{Statement, allowed, after, Rows}
use go_certa.Storage.Sqlite.Tables.{no_rows-IsConsistent}
use go_certa.Storage.Sqlite.Serves.{execute, Serves, IsConsistentDb, execute-Serves}
use go_certa.Storage.Sqlite.Listing.{IsComplete, list_revoked-IsComplete}
use go_certa.Storage.Interchange.{
  answers, sqlite_answers, sqlite_run, SamePhases, memory_sqlite_agree,
}
use go_certa.Storage.Sqlite.Atomic.{MayFail, AllOrNothing, Effect, execute-AllOrNothing}
use go_certa.Examples.Engine.{
  tables, exec, commit, exec_live, ListDb, empty_db, list_engine, list_engine-Documented,
}

abbrev certificate : CertificateRecord
certificate = record {
  serial = codes "0xAB";
  subject = codes "CN=a";
  issuer = codes "CN=ca";
  not_before = 10;
  not_after = 90;
  raw_der = 48 ∷ 3 ∷ [];
  pem = codes "pem";
  revoked = false;
}

empty_db-IsConsistent : IsConsistentDb list_engine list_engine-Documented empty_db
unfolding list_engine-Documented lookup
empty_db-IsConsistent = no_rows-IsConsistent

abbrev calls : List (Context × ℕ × Call)
calls =
    (none, 1, reserves (codes "ab"))
    ∷ (none, 2, saves (some certificate))
    ∷ (some canceled, 3, reserves (codes "cd"))
    ∷ (none, 4, revokes (codes "AB") (pos 1) 0)
    ∷ (none, 5, saves none)
    ∷ []

execute-Serves_example :
    Serves list_engine list_engine-Documented empty_db
      (call_serial (saves (some certificate)))
      (call_event (saves (some certificate)))
      (execute list_engine (λ _. none) 2 (saves (some certificate)) empty_db)
unfolding normalize_serial
execute-Serves_example =
    execute-Serves list_engine list_engine-Documented empty_db 2 (saves (some certificate))
      empty_db-IsConsistent refl (refl, refl)

memory_sqlite_agree_example :
    (answers memory_store new_memory_storage calls ≡ sqlite_answers list_engine empty_db calls)
    × SamePhases memory_store list_engine list_engine-Documented
        (run memory_store new_memory_storage calls)
        (sqlite_run list_engine empty_db calls)
unfolding normalize_serial list_engine-Documented lookup
memory_sqlite_agree_example =
    memory_sqlite_agree list_engine list_engine-Documented empty_db calls refl (
      (inl refl, tt),
      ((inl refl, (refl, refl)), ((inr refl, tt), ((inl refl, tt), ((inl refl, tt), tt)))),
    )

begins :
    (ctx : Context) (db : ListDb)
    → ((tx : ListDb) × (list_engine.begin ctx db ≡ ok tx) × (tables tx ≡ tables db))
      ⊎ ((x : Error) × (list_engine.begin ctx db ≡ err x))
begins none db = inl (db, refl, refl)
begins (some e) db = inr (context e, refl)

executes :
    (ctx : Context) (st : Statement) (db : ListDb)
    → (((exec ctx st db).0 ≡ ok tt) × (tables (exec ctx st db).1 ≡ after st (tables db)))
      ⊎ ((x : Error) × ((exec ctx st db).0 ≡ err x) × (tables (exec ctx st db).1 ≡ tables db))
unfolding exec
executes (some e) st db = inr (context e, refl, refl)
executes none st db = elim (Bool-cases (allowed st (tables db))) [
  | inl e ↦ inl (exec_live db st e)
  | inr e ↦ rw e (inr (driver, refl, refl))
]

commits :
    (ctx : Context) (db tx : ListDb)
    → (((commit ctx db tx).0 ≡ ok tt) × (tables (commit ctx db tx).1 ≡ tables tx))
      ⊎ ((x : Error) × ((commit ctx db tx).0 ≡ err x) × (tables (commit ctx db tx).1 ≡ tables db))
unfolding commit
commits none db tx = inl (refl, refl)
commits (some e) db tx = inr (context e, refl, refl)

abbrev list_engine-MayFail : MayFail list_engine
list_engine-MayFail = record {
  view = tables;
  begins = begins;
  executes = executes;
  commits = commits;
  rolls_back = λ db tx. refl;
}

abbrev saved_db : ListDb
saved_db = (execute list_engine (λ _. none) 2 (saves (some certificate)) empty_db).1

-- The context ends while the revocation is written, after the certificate has been marked.
execute-AllOrNothing_example :
    AllOrNothing list_engine list_engine-MayFail
      (Effect 5 (revokes (codes "ab") (pos 1) 4) (tables saved_db))
      saved_db
      (execute list_engine
        (λ i. if i == 3 then some canceled else none)
        5
        (revokes (codes "ab") (pos 1) 4)
        saved_db)
execute-AllOrNothing_example =
    execute-AllOrNothing list_engine list_engine-MayFail
      (λ i. if i == 3 then some canceled else none) 5 (revokes (codes "ab") (pos 1) 4) saved_db

abbrev revocation : RevocationRecord
revocation = record { serial = codes "ab"; revoked_at = 4; reason = pos 1 }

abbrev revoked_db : ListDb
revoked_db = record { certificates = []; revocations = (codes "ab", revocation) ∷ []; serials = [] }

list_revoked-IsComplete_example :
    (rows : Rows) × (list_engine.select_revocations none revoked_db ≡ ok rows)
    × IsComplete rows (revocation ∷ [])
unfolding list_revoked
list_revoked-IsComplete_example =
    list_revoked-IsComplete list_engine (λ _. none) revoked_db (revocation ∷ []) refl
