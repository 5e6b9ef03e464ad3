-- ===== src/Storage/Memory/History.antt =====
-- pkg/storage/memory.go: revocations over histories of calls.
use go_certa.Prelude.{
  ℕ, Str, if◌then◌else◌, ◌==◌, lookup, lookup-insert, str_eq_iff, none, some, ◌≡◌, List, [], ◌∷◌,
  arith,
}
use go_certa.Storage.{Context, RevocationRecord, normalize_serial}
use go_certa.Storage.Memory.{
  MemoryStorage, save_certificate, revoke_found, revoke_certificate, reserve_serial,
}
use go_certa.Storage.Contract.{Call, saves, revokes, reserves}
use go_certa.Storage.Memory.Calls.{execute, run}

execute-keeps_revocation :
    (m : MemoryStorage) (ctx : Context) (now : ℕ) (c : Call) (k : Str) (r : RevocationRecord)
    → lookup k m.revocations ≡ some r
    → lookup k (execute ctx now c m).1.revocations ≡ some r
unfolding execute save_certificate revoke_certificate revoke_found reserve_serial
execute-keeps_revocation m (some x) now (saves cert) k r e = e
execute-keeps_revocation m (some x) now (revokes serial reason revoked_at) k r e = e
execute-keeps_revocation m (some x) now (reserves serial) k r e = e
execute-keeps_revocation m none now (saves none) k r e = e
execute-keeps_revocation m none now (saves (some cert)) k r e = ground arith
execute-keeps_revocation m none now (reserves serial) k r e = ground arith
execute-keeps_revocation m none now (revokes serial reason revoked_at) k r e =
    let n = normalize_serial serial in
    let at = if revoked_at == 0 then now else revoked_at in
    ground (
      arith,
      str_eq_iff n k,
      lookup-insert n k (record { serial = n; revoked_at = at; reason = reason }) m.revocations,
    )

-- A revocation, once recorded, keeps its time and its reason, whatever calls follow.
run-keeps_revocation :
    (m : MemoryStorage) (calls : List (Context × ℕ × Call)) (k : Str) (r : RevocationRecord)
    → lookup k m.revocations ≡ some r
    → lookup k (run m calls).revocations ≡ some r
unfolding run
run-keeps_revocation m [] k r e = e
run-keeps_revocation m ((ctx, now, c) ∷ cs) k r e =
    run-keeps_revocation (execute ctx now c m).1 cs k r (execute-keeps_revocation m ctx now c k r e)
