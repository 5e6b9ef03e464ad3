-- ===== src/Storage/Contract/History.antt =====
-- pkg/storage/storage.go: histories of calls over any implementation of the interface Storage.
use go_certa.Prelude.{
  ℕ, ◌≤◌, Str, str_eq_iff, is_empty, false, none, some, List, [], ◌∷◌, ◌≡◌, refl, subst, arith,
  Bool-cases, inl, inr,
}
use go_certa.Storage.{Context, ok}
use go_certa.Storage.Contract.{
  Call, Phase, unused, reserved, issued, revoked, Event, save, revoke, reserve, next, answer,
  call_serial, call_event, Store,
}

-- How far along its life a serial is.
abbrev pub rank : Phase → ℕ
rank unused = 0
rank reserved = 1
rank issued = 2
rank revoked = 3

pub rank-next-le : (p : Phase) (e : Event) → rank p ≤ rank (next p e)
rank-next-le unused (save r) = ground arith
rank-next-le reserved (save r) = ground arith
rank-next-le unused revoke = omega arith
rank-next-le unused reserve = omega arith
rank-next-le reserved revoke = omega arith
rank-next-le reserved reserve = omega arith
rank-next-le issued (save r) = omega arith
rank-next-le issued revoke = omega arith
rank-next-le issued reserve = omega arith
rank-next-le revoked (save r) = omega arith
rank-next-le revoked revoke = omega arith
rank-next-le revoked reserve = omega arith

pub revoked_last : (p : Phase) → 3 ≤ rank p → p ≡ revoked
revoked_last unused h = absurd (omega arith)
revoked_last reserved h = absurd (omega arith)
revoked_last issued h = absurd (omega arith)
revoked_last revoked h = refl

pub next-revoke : (p : Phase) → answer p revoke ≡ ok tt → next p revoke ≡ revoked
next-revoke unused h = cc
next-revoke reserved h = cc
next-revoke issued h = refl
next-revoke revoked h = cc

module _ (store : Store) where
  unfoldable pub run : store.State → List (Context × ℕ × Call) → store.State
  run s [] = s
  run s ((ctx, now, c) ∷ calls) = run (store.execute ctx now c s).1 calls

  pub run-Valid :
      (s : store.State) (calls : List (Context × ℕ × Call))
      → store.Valid s
      → store.Valid (run s calls)
  unfolding run
  run-Valid s [] v = v
  run-Valid s ((ctx, now, c) ∷ calls) v =
      run-Valid (store.execute ctx now c s).1 calls (store.keeps ctx now c s v)

  live-rank-le :
      (s : store.State) (now : ℕ) (c : Call) (k : Str)
      → store.Valid s
      → is_empty (call_serial c) ≡ false
      → rank (store.phase s k) ≤ rank (store.phase (store.execute none now c s).1 k)
  live-rank-le s now c k v e = rw ((store.refines s now c v e).moves k) (
      ground (
        arith,
        str_eq_iff (call_serial c) k,
        rank-next-le (store.phase s (call_serial c)) (call_event c),
      ))

  execute-rank-le :
      (s : store.State) (ctx : Context) (now : ℕ) (c : Call) (k : Str)
      → store.Valid s
      → rank (store.phase s k) ≤ rank (store.phase (store.execute ctx now c s).1 k)
  execute-rank-le s none now c k v = elim (Bool-cases (is_empty (call_serial c))) [
    | inl e ↦ rw (store.idle s none now c e) (omega arith)
    | inr e ↦ live-rank-le s now c k v e
  ]
  execute-rank-le s (some x) now c k v = elim (Bool-cases (is_empty (call_serial c))) [
    | inl e ↦ rw (store.idle s (some x) now c e) (omega arith)
    | inr e ↦ rw (store.rejects s now c x e) (omega arith)
  ]

  -- No history of calls moves a serial back in its life.
  pub history-rank-le :
      (s : store.State) (calls : List (Context × ℕ × Call)) (k : Str)
      → store.Valid s
      → rank (store.phase s k) ≤ rank (store.phase (run s calls) k)
  unfolding run
  history-rank-le s [] k v = omega arith
  history-rank-le s ((ctx, now, c) ∷ calls) k v = omega (
    arith,
    execute-rank-le s ctx now c k v,
    history-rank-le (store.execute ctx now c s).1 calls k (store.keeps ctx now c s v),
  )

  -- A serial that is revoked stays revoked.
  pub run_revoked :
      (s : store.State) (calls : List (Context × ℕ × Call)) (k : Str)
      → store.Valid s
      → store.phase s k ≡ revoked
      → store.phase (run s calls) k ≡ revoked
  run_revoked s calls k v e =
      revoked_last _
        (subst (λ p. rank p ≤ rank (store.phase (run s calls) k)) e (history-rank-le s calls k v))
