-- ===== src/Storage/Memory.antt =====
-- pkg/storage/memory.go: MemoryStorage. A method takes the store and returns its result with the
-- store that it leaves; it holds the lock throughout, so calls do not overlap. `now` is what
-- time.Now() gives. Records are values here, which is what the source's clones are for.
pub mod Calls
pub mod Invariant
pub mod Lifecycle
pub mod Implements
pub mod History
pub mod Listing
use go_certa.Prelude.{
  ℕ, ℤ, Str, str_lt, Dict, lookup, insert, values, Bool, true, Option, none, some, is_some, List,
  [], ◌∷◌, is_empty, ltb, ◌==◌, if◌then◌else◌,
}
use go_certa.Storage.{
  Context, not_found, already_exists, already_revoked, invalid_input, context, Result, ok, err,
  CertificateRecord, RevocationRecord, SerialRecord, normalize_serial,
}

pub record MemoryStorage : Type 0 where
  pub certificates : Dict CertificateRecord
  pub revocations : Dict RevocationRecord
  pub serials : Dict SerialRecord

abbrev pub new_memory_storage : MemoryStorage
new_memory_storage = record { certificates = []; revocations = []; serials = [] }

-- An action of the store.
abbrev pub Action : Type 0 → Type 0
Action A = MemoryStorage → Result A × MemoryStorage

unfoldable pub clone_certificate : CertificateRecord → Str → CertificateRecord
clone_certificate src norm_serial = record src { serial = norm_serial }

unfoldable pub save_certificate : Context → ℕ → Option CertificateRecord → Action (Unit {0})
unfolding clone_certificate
save_certificate (some e) now cert m = (err (context e), m)
save_certificate none now none m = (err invalid_input, m)
save_certificate none now (some cert) m =
    let norm_serial = normalize_serial cert.serial in
    if is_empty norm_serial
    then (err invalid_input, m)
    else if is_some (lookup norm_serial m.certificates)
    then (err already_exists, m)
    else (
      ok tt,
      record m {
        serials =
            if is_some (lookup norm_serial m.serials)
            then m.serials
            else insert norm_serial (record { serial = norm_serial; issued_at = now }) m.serials;
        certificates = insert norm_serial (clone_certificate cert norm_serial) m.certificates;
      },
    )

abbrev found_certificate : Str → Option CertificateRecord → Result CertificateRecord
found_certificate norm_serial none = err not_found
found_certificate norm_serial (some cert) = ok (clone_certificate cert norm_serial)

unfoldable pub get_certificate : Context → Str → Action CertificateRecord
unfolding clone_certificate
get_certificate (some e) serial m = (err (context e), m)
get_certificate none serial m =
    let norm_serial = normalize_serial serial in
    if is_empty norm_serial
    then (err invalid_input, m)
    else (found_certificate norm_serial (lookup norm_serial m.certificates), m)

-- RevokeCertificate after the lock is taken, on the certificate that it finds.
revoke_found : Str → ℤ → ℕ → ℕ → Option CertificateRecord → Action (Unit {0})
revoke_found norm_serial reason revoked_at now none m = (err not_found, m)
revoke_found norm_serial reason revoked_at now (some cert) m =
    if cert.revoked
    then (err already_revoked, m)
    else if is_some (lookup norm_serial m.revocations)
    then (err already_revoked, m)
    else (let at = if revoked_at == 0 then now else revoked_at in
        (
          ok tt,
          record m {
            certificates = insert norm_serial (record cert { revoked = true }) m.certificates;
            revocations =
                insert norm_serial
                  (record { serial = norm_serial; revoked_at = at; reason = reason }) m.revocations;
          },
        ))

unfoldable pub revoke_certificate : Context → Str → ℤ → ℕ → ℕ → Action (Unit {0})
unfolding revoke_found
revoke_certificate (some e) serial reason revoked_at now m = (err (context e), m)
revoke_certificate none serial reason revoked_at now m =
    let norm_serial = normalize_serial serial in
    if is_empty norm_serial
    then (err invalid_input, m)
    else revoke_found norm_serial reason revoked_at now (lookup norm_serial m.certificates) m

abbrev found_revocation : Option RevocationRecord → Result RevocationRecord
found_revocation none = err not_found
found_revocation (some rev) = ok rev

unfoldable pub get_revocation : Context → Str → Action RevocationRecord
get_revocation (some e) serial m = (err (context e), m)
get_revocation none serial m =
    let norm_serial = normalize_serial serial in
    if is_empty norm_serial
    then (err invalid_input, m)
    else (found_revocation (lookup norm_serial m.revocations), m)

-- The order that ListRevoked sorts by: by time, and by serial at one time.
unfoldable pub revoked_before : RevocationRecord → RevocationRecord → Bool
unfolding str_lt
revoked_before a b =
    if a.revoked_at == b.revoked_at then str_lt a.serial b.serial else ltb a.revoked_at b.revoked_at

-- sort.Slice: the order above decides between any two revocations with different serials, so
-- the sorted slice does not depend on the algorithm.
insert_sorted : RevocationRecord → List RevocationRecord → List RevocationRecord
insert_sorted r [] = r ∷ []
insert_sorted r (x ∷ xs) = if revoked_before x r then x ∷ insert_sorted r xs else r ∷ x ∷ xs

sort_revoked : List RevocationRecord → List RevocationRecord
sort_revoked [] = []
sort_revoked (r ∷ rs) = insert_sorted r (sort_revoked rs)

unfoldable pub list_revoked : Context → Action (List RevocationRecord)
unfolding insert_sorted sort_revoked revoked_before
list_revoked (some e) m = (err (context e), m)
list_revoked none m = (ok (sort_revoked (values m.revocations)), m)

unfoldable pub reserve_serial : Context → Str → ℕ → Action (Unit {0})
reserve_serial (some e) serial now m = (err (context e), m)
reserve_serial none serial now m =
    let norm_serial = normalize_serial serial in
    if is_empty norm_serial
    then (err invalid_input, m)
    else if is_some (lookup norm_serial m.serials)
    then (err already_exists, m)
    else if is_some (lookup norm_serial m.certificates)
    then (err already_exists, m)
    else (
      ok tt,
      record m {
        serials = insert norm_serial (record { serial = norm_serial; issued_at = now }) m.serials;
      },
    )
