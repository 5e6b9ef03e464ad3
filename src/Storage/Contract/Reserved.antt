-- ===== src/Storage/Contract/Reserved.antt =====
-- pkg/storage/storage.go: reservations, over any implementation of the interface Storage.
use go_certa.Prelude.{
  ℕ, Str, is_empty, ◌≤◌, false, none, List, ◌≡◌, refl, ap, sym, subst, ◌∙◌, str_eq_refl, arith,
  Bool-cases, inl, inr,
}
use go_certa.Storage.{Context, already_exists, Result, ok, err, normalize_serial}
use go_certa.Storage.Contract.{
  Call, reserves, Phase, unused, reserved, issued, revoked, reserve, next, answer, Store,
}
use go_certa.Storage.Contract.History.{rank, run, run-Valid, history-rank-le}

answer_taken : (p : Phase) → 1 ≤ rank p → answer p reserve ≡ err already_exists
answer_taken unused h = absurd (omega arith)
answer_taken reserved h = refl
answer_taken issued h = refl
answer_taken revoked h = refl

rank-reserve : (p : Phase) → 1 ≤ rank (next p reserve)
rank-reserve unused = omega arith
rank-reserve reserved = omega arith
rank-reserve issued = omega arith
rank-reserve revoked = omega arith

module _ (store : Store) where
  -- What a successful reservation says of its serial.
  reserved_serial :
      (s s' : store.State) (serial : Str) (now : ℕ)
      → store.Valid s
      → store.execute none now (reserves serial) s ≡ (ok tt, s')
      → (is_empty (normalize_serial serial) ≡ false)
        × (1 ≤ rank (store.phase s' (normalize_serial serial)))
        × store.Valid s'
  reserved_serial s s' serial now v e =
      let n = normalize_serial serial in
      elim (Bool-cases (is_empty n)) [
        | inl blank ↦ cc (e, store.invalid s now (reserves serial) blank)
        | inr filled ↦
            let steps = store.refines s now (reserves serial) v filled in
            let moved : store.phase s' n ≡ next (store.phase s n) reserve =
              ap (λ (r : Result (Unit {0}) × store.State). store.phase r.1 n) (sym e)
              ∙ steps.moves n
              ∙ rw (str_eq_refl n) refl in
            (
              filled,
              rw moved (rank-reserve (store.phase s n)),
              subst (λ (r : Result (Unit {0}) × store.State). store.Valid r.1) e
                  (store.keeps none now (reserves serial) s v),
            )
      ]

  -- In any storage that keeps the contract, a serial that has been reserved is never reserved again, in
  -- whatever spelling it is asked for and whatever calls come between.
  pub reserve_once :
      (s s' : store.State) (serial other : Str) (now later : ℕ) (calls : List (Context × ℕ × Call))
      → store.Valid s
      → store.execute none now (reserves serial) s ≡ (ok tt, s')
      → normalize_serial other ≡ normalize_serial serial
      → (store.execute none later (reserves other) (run store s' calls)).0 ≡ err already_exists
  reserve_once s s' serial other now later calls v e same =
      let (filled, taken, valid) = reserved_serial s s' serial now v e in
      let kept = history-rank-le store s' calls (normalize_serial serial) valid in
      let steps =
        store.refines (run store s' calls) later (reserves other) (run-Valid store s' calls valid)
          (rw same filled) in
      steps.answers ∙ answer_taken _ (rw same (omega (arith, kept, taken)))
