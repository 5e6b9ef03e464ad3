-- ===== src/Storage/Memory/Implements.antt =====
-- pkg/storage/memory.go: MemoryStorage as an implementation of the interface Storage.
use go_certa.Prelude.{
  ℕ, ℤ, Str, ◌==◌, is_empty, if◌then◌else◌, lookup, lookup-insert_self, true, false, Option, none,
  some, ◌≡◌, refl, ap, arith, Bool-cases, inl, inr,
}
use go_certa.Storage.{Context, ContextError, context, CertificateRecord, ok, err, normalize_serial}
use go_certa.Storage.Memory.{
  MemoryStorage, get_certificate, get_revocation, list_revoked, revoke_found, revoke_certificate,
}
use go_certa.Storage.Contract.{Call, revokes, call_serial, Store}
use go_certa.Storage.Memory.Calls.{execute}
use go_certa.Storage.Memory.Invariant.{IsConsistent, execute-IsConsistent}
use go_certa.Storage.Memory.Lifecycle.{
  phase, execute_refines, execute_rejects, get_certificate-Shows,
}

pub memory_idle :
    (m : MemoryStorage) (ctx : Context) (now : ℕ) (c : Call)
    → is_empty (call_serial c) ≡ true
    → (execute ctx now c m).1 ≡ m
memory_idle m (some e) now c p = ap (λ r. r.1) ((execute_rejects m now c).0 e)
memory_idle m none now c p = ap (λ r. r.1) ((execute_rejects m now c).1 p)

pub memory_unavailable :
    (m : MemoryStorage) (serial : Str) (e : ContextError)
    → (get_certificate (some e) serial m).0 ≡ err (context e)
unfolding get_certificate
memory_unavailable m serial e = refl

found_records :
    (serial : Str) (reason : ℤ) (revoked_at now : ℕ) (found : Option CertificateRecord)
    (m m' : MemoryStorage)
    → is_empty (normalize_serial serial) ≡ false
    → revoke_found (normalize_serial serial) reason revoked_at now found m ≡ (ok tt, m')
    → (get_revocation none serial m').0
      ≡ ok (record {
        serial = normalize_serial serial;
        revoked_at = if revoked_at == 0 then now else revoked_at;
        reason = reason;
      })
unfolding revoke_found get_revocation
found_records serial reason revoked_at now none m m' e h = cc
found_records serial reason revoked_at now (some cert) m m' e h =
    let n = normalize_serial serial in
    ground (
      arith,
      lookup-insert_self n
          (record {
            serial = n;
            revoked_at = if revoked_at == 0 then now else revoked_at;
            reason = reason;
          })
          m.revocations,
    )

pub memory_records :
    (m m' : MemoryStorage) (now revoked_at : ℕ) (serial : Str) (reason : ℤ)
    → execute none now (revokes serial reason revoked_at) m ≡ (ok tt, m')
    → (get_revocation none serial m').0
      ≡ ok (record {
        serial = normalize_serial serial;
        revoked_at = if revoked_at == 0 then now else revoked_at;
        reason = reason;
      })
unfolding execute revoke_certificate
memory_records m m' now revoked_at serial reason h =
    let n = normalize_serial serial in
    elim (Bool-cases (is_empty n)) [
      | inl e ↦ cc (rw e at h)
      | inr e ↦
          found_records serial reason revoked_at now (lookup n m.certificates) m m' e (rw e at h)
    ]

-- MemoryStorage, as an implementation of the interface.
abbrev pub memory_store : Store
memory_store = record {
  State = MemoryStorage;
  Valid = IsConsistent;
  phase = phase;
  execute = execute;
  get_certificate = λ ctx serial m. (get_certificate ctx serial m).0;
  get_revocation = λ ctx serial m. (get_revocation ctx serial m).0;
  list_revoked = λ ctx m. (list_revoked ctx m).0;
  keeps = λ ctx now c m h. execute-IsConsistent ctx now c h;
  refines = execute_refines;
  rejects = λ m now c e p. (execute_rejects m now c).0 e;
  invalid = λ m now c p. (execute_rejects m now c).1 p;
  idle = memory_idle;
  shows = get_certificate-Shows;
  unavailable = λ m serial e p. memory_unavailable m serial e;
  records = memory_records;
}
