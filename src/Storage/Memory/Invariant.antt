-- ===== src/Storage/Memory/Invariant.antt =====
-- pkg/storage/memory.go: how the three maps of a MemoryStorage belong together.
use go_certa.Prelude.{
  ℕ, ℤ, Str, is_empty, if◌then◌else◌, ◌==◌, lookup, lookup-insert, str_eq_iff, Bool, true, false,
  Option, none, some, is_some, ◌≡◌, refl, List, [], ◌∷◌, arith, Bool-cases, inl, inr,
}
use go_certa.Storage.{Context, CertificateRecord, RevocationRecord, normalize_serial}
use go_certa.Storage.Memory.{
  MemoryStorage, new_memory_storage, save_certificate, revoke_found, revoke_certificate,
  reserve_serial,
}
use go_certa.Storage.Contract.{Call, saves, revokes, reserves}
use go_certa.Storage.Memory.Calls.{execute, run}

abbrev pub is_revoked : Option CertificateRecord → Bool
is_revoked none = false
is_revoked (some c) = c.revoked

pub record IsConsistentAt (m : MemoryStorage) (k : Str) : Type 0 where
  pub keyed : (c : CertificateRecord) → lookup k m.certificates ≡ some c → c.serial ≡ k
  pub named : (r : RevocationRecord) → lookup k m.revocations ≡ some r → r.serial ≡ k
  pub taken : is_some (lookup k m.certificates) ≡ true → is_some (lookup k m.serials) ≡ true
  pub marked : is_some (lookup k m.revocations) ≡ true → is_revoked (lookup k m.certificates) ≡ true

pub record IsConsistent (m : MemoryStorage) : Type 0 where
  pub at : (k : Str) → IsConsistentAt m k

pub new-IsConsistent : IsConsistent new_memory_storage
unfolding lookup
new-IsConsistent = record {
  at = λ k. record {
    keyed = λ c e. ground arith;
    named = λ r e. ground arith;
    taken = λ e. ground arith;
    marked = λ e. ground arith;
  };
}

module _ {m : MemoryStorage} {k : Str} (h : IsConsistentAt m k) where
  save-IsConsistentAt :
      (now : ℕ) (cert : CertificateRecord)
      → IsConsistentAt (save_certificate none now (some cert) m).1 k
  unfolding save_certificate
  save-IsConsistentAt now cert =
      let n = normalize_serial cert.serial in
      let certs = lookup-insert n k (record cert { serial = n }) m.certificates in
      let serials = lookup-insert n k (record { serial = n; issued_at = now }) m.serials in
      let same = str_eq_iff n k in
      record {
        keyed = λ c e. ground (arith, certs, same, h.keyed c);
        named = λ r e. ground (arith, h.named r);
        taken = λ e. ground (arith, certs, serials, same);
        marked = λ e. ground (arith, certs, same, h.marked);
      }

  revoke_found-IsConsistentAt :
      (n : Str) (reason : ℤ) (revoked_at now : ℕ) (found : Option CertificateRecord)
      → lookup n m.certificates ≡ found
      → IsConsistentAt (revoke_found n reason revoked_at now found m).1 k
  unfolding revoke_found
  revoke_found-IsConsistentAt n reason revoked_at now none e = h
  revoke_found-IsConsistentAt n reason revoked_at now (some cert) e =
      let certs = lookup-insert n k (record cert { revoked = true }) m.certificates in
      let at = if revoked_at == 0 then now else revoked_at in
      let revs =
        lookup-insert n k (record { serial = n; revoked_at = at; reason = reason }) m.revocations in
      let same = str_eq_iff n k in
      record {
        keyed = λ c p. ground (arith, certs, same, h.keyed c, h.keyed cert);
        named = λ r p. ground (arith, revs, same, h.named r);
        taken = λ p. ground (arith, certs, same, h.taken);
        marked = λ p. ground (arith, certs, revs, same, h.marked);
      }

  revoke-IsConsistentAt :
      (serial : Str) (reason : ℤ) (revoked_at now : ℕ)
      → IsConsistentAt (revoke_certificate none serial reason revoked_at now m).1 k
  unfolding revoke_certificate
  revoke-IsConsistentAt serial reason revoked_at now =
      let n = normalize_serial serial in
      elim (Bool-cases (is_empty n)) [
        | inl e ↦ rw e h
        | inr e ↦ rw e (
            unfold revoke_found in
            revoke_found-IsConsistentAt n reason revoked_at now (lookup n m.certificates) refl)
      ]

  reserve-IsConsistentAt :
      (serial : Str) (now : ℕ) → IsConsistentAt (reserve_serial none serial now m).1 k
  unfolding reserve_serial
  reserve-IsConsistentAt serial now =
      let n = normalize_serial serial in
      let serials = lookup-insert n k (record { serial = n; issued_at = now }) m.serials in
      let same = str_eq_iff n k in
      record {
        keyed = λ c e. ground (arith, h.keyed c);
        named = λ r e. ground (arith, h.named r);
        taken = λ e. ground (arith, serials, same);
        marked = λ e. ground (arith, h.marked);
      }

reserve-IsConsistent :
    (serial : Str) (now : ℕ) {m : MemoryStorage}
    → IsConsistent m
    → IsConsistent (reserve_serial none serial now m).1
reserve-IsConsistent serial now h = record { at = λ k. reserve-IsConsistentAt (h.at k) serial now }

pub execute-IsConsistent :
    (ctx : Context) (now : ℕ) (c : Call) {m : MemoryStorage}
    → IsConsistent m
    → IsConsistent (execute ctx now c m).1
unfolding execute save_certificate revoke_certificate reserve_serial
execute-IsConsistent (some e) now (saves cert) h = h
execute-IsConsistent (some e) now (revokes serial reason revoked_at) h = h
execute-IsConsistent (some e) now (reserves serial) h = h
execute-IsConsistent none now (saves none) h = h
execute-IsConsistent none now (saves (some cert)) h = record {
  at = λ k. save-IsConsistentAt (h.at k) now cert;
}
execute-IsConsistent none now (revokes serial reason revoked_at) h = record {
  at = λ k. revoke-IsConsistentAt (h.at k) serial reason revoked_at now;
}
execute-IsConsistent none now (reserves serial) h = reserve-IsConsistent serial now h

-- The store is consistent after any history of calls on a consistent one, whatever the contexts,
-- clock readings and arguments, and whether the calls succeed or fail.
pub run-IsConsistent :
    (m : MemoryStorage) (calls : List (Context × ℕ × Call))
    → IsConsistent m
    → IsConsistent (run m calls)
unfolding run
run-IsConsistent m [] h = h
run-IsConsistent m ((ctx, now, c) ∷ cs) h =
    run-IsConsistent (execute ctx now c m).1 cs (execute-IsConsistent ctx now c h)
