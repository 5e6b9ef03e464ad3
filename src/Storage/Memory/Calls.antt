-- ===== src/Storage/Memory/Calls.antt =====
-- The methods of the interface Storage that write, as calls, and the store after a history of them.
use go_certa.Prelude.{ℕ, List, [], ◌∷◌}
use go_certa.Storage.{Context}
use go_certa.Storage.Contract.{Call, saves, revokes, reserves}
use go_certa.Storage.Memory.{
  MemoryStorage, Action, save_certificate, revoke_certificate, reserve_serial,
}

-- `now` is the clock's reading during the call.
unfoldable pub execute : Context → ℕ → Call → Action (Unit {0})
execute ctx now (saves cert) = save_certificate ctx now cert
execute ctx now (revokes serial reason revoked_at) =
    revoke_certificate ctx serial reason revoked_at now
execute ctx now (reserves serial) = reserve_serial ctx serial now

-- Concurrent callers are served one after the other, in the order in which they get the lock.
unfoldable pub run : MemoryStorage → List (Context × ℕ × Call) → MemoryStorage
run m [] = m
run m ((ctx, now, c) ∷ cs) = run (execute ctx now c m).1 cs
