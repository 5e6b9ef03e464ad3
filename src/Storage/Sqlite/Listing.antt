-- ===== src/Storage/Sqlite/Listing.antt =====
-- pkg/storage/sqlite.go: ListRevoked and the loop over its rows.
use mathlib.Core.List.{append_assoc, append-nil}
use go_certa.Prelude.{ℕ, List, [], ◌∷◌, ◌++◌, map, ◌≡◌, refl, sym, ap, ◌∙◌}
use go_certa.Storage.{Context, RevocationRecord, Result, ok, err}
use go_certa.Storage.Sqlite.{collect, collect_rows, list_revoked}
use go_certa.Storage.Sqlite.Driver.{Rows, Engine}

-- Every row was scanned, to these records in this order, and the rows ended without an error.
abbrev pub IsComplete : Rows → List RevocationRecord → Type 0
IsComplete rows rs = (rows.scanned ≡ map ok rs) × (rows.ended ≡ ok tt)

collected :
    (before : List RevocationRecord) (rows : List (Result RevocationRecord))
    (ended : Result (Unit {0})) (rs : List RevocationRecord)
    → collect before rows ended ≡ ok rs
    → (rest : List RevocationRecord) × (rs ≡ before ++ rest)
      × (rows ≡ map ok rest)
      × (ended ≡ ok tt)
collected before [] (ok u) rs e = ([], cc (e, append-nil before), refl, refl)
collected before [] (err x) rs e = cc
collected before (err x ∷ rows) ended rs e = cc
collected before (ok rec ∷ rows) ended rs e =
    let (rest, split, scanned, done) = collected (before ++ (rec ∷ [])) rows ended rs e in
    (rec ∷ rest, split ∙ append_assoc before (rec ∷ []) rest, ap (λ r. ok rec ∷ r) scanned, done)

complete :
    (selected : Result Rows) (rs : List RevocationRecord)
    → collect_rows selected ≡ ok rs
    → (rows : Rows) × (selected ≡ ok rows) × IsComplete rows rs
complete (err x) rs e = cc
complete (ok rows) rs e =
    let (rest, same, scanned, done) = collected [] rows.scanned rows.ended rs e in
    (rows, refl, (scanned ∙ ap (map ok) (sym same), done))

-- ListRevoked answers with a list only if it is all of the query's rows: a query that fails, a row that
-- does not scan or rows that end early make it fail.
pub list_revoked-IsComplete :
    (engine : Engine) (ctx : ℕ → Context) (db : engine.Db) (rs : List RevocationRecord)
    → list_revoked engine ctx db ≡ ok rs
    → (rows : Rows) × (engine.select_revocations (ctx 0) db ≡ ok rows) × IsComplete rows rs
unfolding list_revoked
list_revoked-IsComplete engine ctx db rs e = complete (engine.select_revocations (ctx 0) db) rs e
