-- ===== src/Examples/Storage.antt =====
-- pkg/storage on small histories.
use go_certa.Prelude.{
  ℕ, pos, codes, false, lookup, none, some, List, [], ◌∷◌, insert, str_eq, ◌≡◌, refl,
}
use go_certa.Storage.{Context, canceled, already_exists, CertificateRecord, err, normalize_serial}
use go_certa.Storage.Contract.{Call, saves, revokes, reserves, Steps, call_serial, call_event}
use go_certa.Storage.Memory.{MemoryStorage, new_memory_storage, reserve_serial, save_certificate}
use go_certa.Storage.Memory.Calls.{execute, run}
use go_certa.Storage.Memory.Invariant.{IsConsistent, new-IsConsistent, run-IsConsistent}
use go_certa.Storage.Memory.Lifecycle.{phase, execute_refines}
use go_certa.Storage.Contract.History
use go_certa.Storage.Contract.Reserved.{reserve_once}
use go_certa.Storage.Memory.Implements.{memory_store}

abbrev certificate : CertificateRecord
certificate = record {
  serial = codes "0xAB";
  subject = codes "CN=a";
  issuer = codes "CN=ca";
  not_before = 10;
  not_after = 90;
  raw_der = 48 ∷ 3 ∷ [];
  pem = codes "pem";
  revoked = false;
}

abbrev calls : List (Context × ℕ × Call)
calls =
    (none, 1, reserves (codes "ab"))
    ∷ (none, 2, saves (some certificate))
    ∷ (some canceled, 3, reserves (codes "cd"))
    ∷ (none, 4, revokes (codes "AB") (pos 1) 0)
    ∷ []

abbrev saved : MemoryStorage
saved = run new_memory_storage ((none, 2, saves (some certificate)) ∷ [])

abbrev revoking : Call
revoking = revokes (codes " ab ") (pos 4) 7

saved-IsConsistent : IsConsistent saved
saved-IsConsistent = run-IsConsistent new_memory_storage _ new-IsConsistent

execute_refines_example :
    Steps phase saved (call_serial revoking) (call_event revoking) (execute none 5 revoking saved)
unfolding normalize_serial
execute_refines_example = execute_refines saved 5 revoking saved-IsConsistent refl

abbrev reserved : MemoryStorage
reserved = (reserve_serial none (codes "cd") 3 saved).1

reserve_once_example :
    (memory_store.execute none 9
      (reserves (codes " 0XCD"))
      (History.run memory_store reserved calls)).0
    ≡ err already_exists
unfolding run reserve_serial normalize_serial execute lookup save_certificate insert str_eq
reserve_once_example =
    reserve_once memory_store saved reserved (codes "cd") (codes " 0XCD") 3 9 calls
      saved-IsConsistent refl refl
