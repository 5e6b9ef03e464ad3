-- ===== src/Storage/Interchange.antt =====
-- pkg/storage/memory.go and pkg/storage/sqlite.go: the server may run on either.
use go_certa.Prelude.{
  ℕ, Str, is_empty, true, false, none, some, List, [], ◌∷◌, All, ◌≡◌, refl, ap, sym, ◌∙◌, subst,
  ◌⊎◌, Bool-cases, inl, inr,
}
use go_certa.Storage.{Context, Result}
use go_certa.Storage.Contract.{Call, answer, call_serial, call_event, Store}
use go_certa.Storage.Contract.History.{run}
use go_certa.Storage.Memory.{new_memory_storage}
use go_certa.Storage.Memory.Invariant
use go_certa.Storage.Memory.Lifecycle.{phase-new}
use go_certa.Storage.Memory.Implements.{memory_store}
use go_certa.Storage.Sqlite.Driver.{Engine, Documented, Tables}
use go_certa.Storage.Sqlite.Tables.{
  IsConsistent, phase, no_rows, phase-no_rows, no_rows-IsConsistent,
}
use go_certa.Storage.Sqlite.Serves.{execute, IsConsistentDb, IsStorable, db_phase, execute-Serves}
use go_certa.Storage.Sqlite.Implements.{sqlite_invalid, sqlite_rejects, sqlite_keeps}

-- What the calls of a history answer.
unfoldable pub answers :
    (store : Store) → store.State → List (Context × ℕ × Call) → List (Result (Unit {0}))
answers store s [] = []
answers store s ((ctx, now, c) ∷ calls) =
    (store.execute ctx now c s).0 ∷ answers store (store.execute ctx now c s).1 calls

module _ (engine : Engine) where
  unfoldable pub sqlite_answers : engine.Db → List (Context × ℕ × Call) → List (Result (Unit {0}))
  sqlite_answers db [] = []
  sqlite_answers db ((ctx, now, c) ∷ calls) =
      (execute engine (λ _. ctx) now c db).0
      ∷ sqlite_answers (execute engine (λ _. ctx) now c db).1 calls

  unfoldable pub sqlite_run : engine.Db → List (Context × ℕ × Call) → engine.Db
  sqlite_run db [] = db
  sqlite_run db ((ctx, now, c) ∷ calls) = sqlite_run (execute engine (λ _. ctx) now c db).1 calls

module _ (store : Store) (engine : Engine) (docs : Documented engine) where
  -- A call fails for one reason at most, its context is live or its serial is not blank, since which
  -- error it returns otherwise depends on which of the two is looked at first; and a certificate
  -- that it saves has a DER and a PEM.
  abbrev pub IsClear : Context × ℕ × Call → Type 0
  IsClear (ctx, now, c) =
      ((ctx ≡ none) ⊎ (is_empty (call_serial c) ≡ false)) × IsStorable engine docs c

  -- Every serial is in the same phase.
  abbrev pub SamePhases : store.State → engine.Db → Type 0
  SamePhases s db = (k : Str) → store.phase s k ≡ db_phase engine docs db k

  abbrev Agrees : Result (Unit {0}) × store.State → Result (Unit {0}) × engine.Db → Type 0
  Agrees p q = (p.0 ≡ q.0) × SamePhases p.1 q.1

  module _ (s : store.State) (db : engine.Db) (now : ℕ) (c : Call) (same : SamePhases s db) where
    live-Agrees :
        store.Valid s
        → IsConsistentDb engine docs db
        → IsStorable engine docs c
        → is_empty (call_serial c) ≡ false
        → Agrees (store.execute none now c s) (execute engine (λ _. none) now c db)
    live-Agrees v w full e =
        let n = call_serial c in
        let a = store.refines s now c v e in
        let b = (execute-Serves engine docs db now c w e full).steps in
        (
          a.answers ∙ ap (λ p. answer p (call_event c)) (same n) ∙ sym b.answers,
          λ k. rw (a.moves k, b.moves k, same n, same k) refl,
        )

    blank-Agrees :
        is_empty (call_serial c) ≡ true
        → Agrees (store.execute none now c s) (execute engine (λ _. none) now c db)
    blank-Agrees e =
        rw (store.invalid s now c e, sqlite_invalid engine (λ _. none) db now c e) (refl, same)

    call-Agrees :
        (ctx : Context)
        → store.Valid s
        → IsConsistentDb engine docs db
        → IsClear (ctx, now, c)
        → Agrees (store.execute ctx now c s) (execute engine (λ _. ctx) now c db)
    call-Agrees none v w (clear, full) = elim (Bool-cases (is_empty (call_serial c))) [
      | inl e ↦ blank-Agrees e
      | inr e ↦ live-Agrees v w full e
    ]
    call-Agrees (some x) v w (inl e, full) = cc
    call-Agrees (some x) v w (inr e, full) =
        rw (store.rejects s now c x e, sqlite_rejects engine docs db now c x e) (refl, same)

  -- From states that give each serial the same phase.
  histories_agree :
      (s : store.State) (db : engine.Db) (calls : List (Context × ℕ × Call))
      → store.Valid s
      → IsConsistentDb engine docs db
      → SamePhases s db
      → All IsClear calls
      → (answers store s calls ≡ sqlite_answers engine db calls)
        × SamePhases (run store s calls) (sqlite_run engine db calls)
  unfolding answers run sqlite_answers sqlite_run
  histories_agree s db [] v w same clear = (refl, same)
  histories_agree s db ((ctx, now, c) ∷ calls) v w same clear =
      let (replies, phases) = call-Agrees s db now c same ctx v w clear.0 in
      let (later, final) =
        histories_agree (store.execute ctx now c s).1 (execute engine (λ _. ctx) now c db).1 calls
          (store.keeps ctx now c s v) (sqlite_keeps engine docs ctx now c db clear.0.1 w) phases
          clear.1 in
      (rw (replies, later) refl, final)

-- A new storage in memory and one in SQLite with empty tables, over a driver that does what it
-- documents, answer every history of calls alike, if no call has both a dead context and a
-- blank serial and every certificate that is saved has a DER and a PEM that are not empty;
-- afterwards each serial is in the same phase in both.
pub memory_sqlite_agree :
    (engine : Engine) (docs : Documented engine) (db : engine.Db)
    (calls : List (Context × ℕ × Call))
    → docs.view db ≡ no_rows
    → All (IsClear memory_store engine docs) calls
    → (answers memory_store new_memory_storage calls ≡ sqlite_answers engine db calls)
      × SamePhases memory_store engine docs
          (run memory_store new_memory_storage calls)
          (sqlite_run engine db calls)
memory_sqlite_agree engine docs db calls empty =
    histories_agree memory_store engine docs new_memory_storage db calls Invariant.new-IsConsistent
      (subst IsConsistent (sym empty) no_rows-IsConsistent)
      (λ k. phase-new k ∙ sym (ap (λ (t : Tables). phase t k) empty ∙ phase-no_rows k))
