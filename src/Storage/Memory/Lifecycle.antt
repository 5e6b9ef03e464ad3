-- ===== src/Storage/Memory/Lifecycle.antt =====
-- pkg/storage/memory.go: MemoryStorage and the contract of Storage/Contract.
use go_certa.Prelude.{
  ℕ, ℤ, Str, is_empty, if◌then◌else◌, lookup, lookup-insert, str_eq_iff, Bool, true, false, Option,
  none, some, is_some, ◌≡◌, refl, arith, Bool-cases, inl, inr,
}
use go_certa.Storage.{
  ContextError, invalid_input, context, CertificateRecord, err, normalize_serial,
}
use go_certa.Storage.Memory.{
  MemoryStorage, new_memory_storage, clone_certificate, found_certificate, save_certificate,
  get_certificate, revoke_found, revoke_certificate, reserve_serial,
}
use go_certa.Storage.Contract.{
  Call, saves, revokes, reserves, Phase, unused, reserved, issued, revoked, save, revoke, reserve,
  Steps, Shows, call_serial, call_event,
}
use go_certa.Storage.Memory.Calls.{execute}
use go_certa.Storage.Memory.Invariant.{IsConsistent, IsConsistentAt}

phase_of : Option CertificateRecord → Bool → Phase
phase_of none taken = if taken then reserved else unused
phase_of (some c) taken = if c.revoked then revoked else issued

pub phase : MemoryStorage → Str → Phase
unfolding phase_of
phase m k = phase_of (lookup k m.certificates) (is_some (lookup k m.serials))

-- A new store has used no serial.
pub phase-new : (k : Str) → phase new_memory_storage k ≡ unused
unfolding phase phase_of lookup
phase-new k = refl

module _ (m : MemoryStorage) where
  save-Steps :
      (now : ℕ) (cert : CertificateRecord)
      → let n = normalize_serial cert.serial in
        is_empty n ≡ false
        → Steps phase m n (save cert.revoked) (save_certificate none now (some cert) m)
  unfolding save_certificate phase
  save-Steps now cert e =
      let n = normalize_serial cert.serial in
      record {
        answers = ground arith;
        moves = λ k. ground (
          arith,
          lookup-insert n k (record cert { serial = n }) m.certificates,
          lookup-insert n k (record { serial = n; issued_at = now }) m.serials,
          str_eq_iff n k,
        );
      }

  reserve-Steps :
      (serial : Str) (now : ℕ)
      → let n = normalize_serial serial in
        is_empty n ≡ false → Steps phase m n reserve (reserve_serial none serial now m)
  unfolding reserve_serial phase
  reserve-Steps serial now e =
      let n = normalize_serial serial in
      record {
        answers = ground arith;
        moves = λ k. ground (
          arith,
          lookup-insert n k (record { serial = n; issued_at = now }) m.serials,
          str_eq_iff n k,
        );
      }

  revoke_found-Steps :
      (n : Str) (reason : ℤ) (revoked_at now : ℕ) (found : Option CertificateRecord)
      → IsConsistentAt m n
      → lookup n m.certificates ≡ found
      → Steps phase m n revoke (revoke_found n reason revoked_at now found m)
  unfolding revoke_found phase
  revoke_found-Steps n reason revoked_at now none h e = record {
    answers = ground arith;
    moves = λ k. ground (arith, str_eq_iff n k);
  }
  revoke_found-Steps n reason revoked_at now (some cert) h e = record {
    answers = ground (arith, h.marked);
    moves = λ k. ground (
      arith,
      h.marked,
      lookup-insert n k (record cert { revoked = true }) m.certificates,
      str_eq_iff n k,
    );
  }

  revoke-Steps :
      (serial : Str) (reason : ℤ) (revoked_at now : ℕ)
      → let n = normalize_serial serial in
        IsConsistentAt m n
        → is_empty n ≡ false
        → Steps phase m n revoke (revoke_certificate none serial reason revoked_at now m)
  unfolding revoke_certificate
  revoke-Steps serial reason revoked_at now h e =
      let n = normalize_serial serial in
      rw e (
        unfold revoke_found in
        revoke_found-Steps n reason revoked_at now (lookup n m.certificates) h refl)

-- On a consistent store every call with a live context and a serial that is not blank takes one
-- step of the machine: the answer is the one that the serial's phase determines, the serial moves
-- to the next phase, and every other serial keeps its phase.
pub execute_refines :
    (m : MemoryStorage) (now : ℕ) (c : Call)
    → IsConsistent m
    → is_empty (call_serial c) ≡ false
    → Steps phase m (call_serial c) (call_event c) (execute none now c m)
unfolding execute
execute_refines m now (saves none) h e = cc
execute_refines m now (saves (some cert)) h e = save-Steps m now cert e
execute_refines m now (revokes serial reason revoked_at) h e =
    revoke-Steps m serial reason revoked_at now (h.at (normalize_serial serial)) e
execute_refines m now (reserves serial) h e = reserve-Steps m serial now e

-- A call with a dead context returns its error, and one with a blank serial or no certificate
-- is invalid; neither changes the store.
pub execute_rejects :
    (m : MemoryStorage) (now : ℕ) (c : Call)
    → ((e : ContextError) → execute (some e) now c m ≡ (err (context e), m))
      × (is_empty (call_serial c) ≡ true → execute none now c m ≡ (err invalid_input, m))
unfolding execute save_certificate revoke_certificate reserve_serial
execute_rejects m now (saves none) = (λ e. refl, λ p. refl)
execute_rejects m now (saves (some cert)) = (λ e. refl, λ p. rw p)
execute_rejects m now (revokes serial reason revoked_at) = (λ e. refl, λ p. rw p)
execute_rejects m now (reserves serial) = (λ e. refl, λ p. rw p)

shown :
    (n : Str) (found : Option CertificateRecord) (taken : Bool)
    → Shows (phase_of found taken) (found_certificate n found)
unfolding phase_of clone_certificate
shown n none true = refl
shown n none false = refl
shown n (some c) taken = elim (Bool-cases c.revoked) [
  | inl e ↦ rw e (record c { serial = n; revoked = true }, refl, refl)
  | inr e ↦ rw e (record c { serial = n; revoked = false }, refl, refl)
]

-- GetCertificate tells the phase of a serial that is not blank: no certificate is found while it is
-- unused or reserved, and the certificate that is found afterwards is marked revoked exactly if the
-- serial is.
pub get_certificate-Shows :
    (m : MemoryStorage) (serial : Str)
    → is_empty (normalize_serial serial) ≡ false
    → Shows (phase m (normalize_serial serial)) (get_certificate none serial m).0
unfolding get_certificate phase
get_certificate-Shows m serial e = rw e (
    shown (normalize_serial serial) (lookup (normalize_serial serial) m.certificates)
      (is_some (lookup (normalize_serial serial) m.serials)))
