-- ===== src/Storage/Sqlite/Tables.antt =====
-- pkg/storage/sqlite.go: the tables that the methods leave, and the phase that they give each serial.
use go_certa.Prelude.{
  Str, str_eq, str_eq_iff, ◌==◌, if◌then◌else◌, Bool, true, false, Option, none, some, is_some, ◌≡◌,
  refl, arith,
}
use go_certa.Storage.{RevocationRecord, SerialRecord}
use go_certa.Storage.Contract.{
  Phase, unused, reserved, issued, revoked, save, revoke, reserve, next,
}
use go_certa.Storage.Sqlite.Driver.{
  CertificateRow, insert_certificate, ensure_serial, insert_serial, mark_revoked, insert_revocation,
  Tables, after,
}

abbrev pub marked_revoked : Option CertificateRow → Bool
marked_revoked none = false
marked_revoked (some row) = row.revoked == 1

unfoldable pub phase_of : Option CertificateRow → Bool → Phase
phase_of none taken = if taken then reserved else unused
phase_of (some row) taken = if row.revoked == 1 then revoked else issued

unfoldable pub phase : Tables → Str → Phase
unfolding phase_of
phase t k = phase_of (t.certificate k) (is_some (t.serial k))

-- What holds at each serial: a certificate's serial is taken, and only a certificate that is
-- marked revoked has a revocation on record.
pub record Fits (t : Tables) (k : Str) : Type 0 where
  pub taken : is_some (t.certificate k) ≡ true → is_some (t.serial k) ≡ true
  pub unrecorded : marked_revoked (t.certificate k) ≡ false → is_some (t.revocation k) ≡ false

abbrev pub IsConsistent : Tables → Type 0
IsConsistent t = (k : Str) → Fits t k

abbrev pub no_rows : Tables
no_rows = record { certificate = λ k. none; revocation = λ k. none; serial = λ k. none }

pub phase-no_rows : (k : Str) → phase no_rows k ≡ unused
unfolding phase phase_of
phase-no_rows k = refl

pub no_rows-IsConsistent : IsConsistent no_rows
no_rows-IsConsistent k = record { taken = λ e. cc; unrecorded = λ e. refl }

-- The tables after SaveCertificate, RevokeCertificate and ReserveSerial commit.
abbrev pub saved : CertificateRow → SerialRecord → Tables → Tables
saved row ser t = after (ensure_serial ser) (after (insert_certificate row) t)

abbrev pub revoked_in : RevocationRecord → Tables → Tables
revoked_in rev t = after (insert_revocation rev) (after (mark_revoked rev.serial) t)

abbrev pub reserved_in : SerialRecord → Tables → Tables
reserved_in ser t = after (insert_serial ser) t

module _ (t : Tables) where
  pub saved-phase :
      (row : CertificateRow) (ser : SerialRecord) (k : Str)
      → ser.serial ≡ row.serial
      → t.certificate row.serial ≡ none
      → phase (saved row ser t) k ≡ (
          if str_eq row.serial k
          then next (phase t row.serial) (save (row.revoked == 1))
          else phase t k)
  unfolding phase phase_of
  saved-phase row ser k p e = ground (arith, str_eq_iff row.serial k, str_eq_iff ser.serial k)

  pub saved-IsConsistent :
      (row : CertificateRow) (ser : SerialRecord)
      → ser.serial ≡ row.serial
      → t.certificate row.serial ≡ none
      → IsConsistent t
      → IsConsistent (saved row ser t)
  saved-IsConsistent row ser p e h k = record {
    taken = ground (arith, str_eq_iff row.serial k, str_eq_iff ser.serial k, (h k).taken);
    unrecorded = ground (arith, str_eq_iff row.serial k, (h k).unrecorded);
  }

  pub revoked_in-phase :
      (rev : RevocationRecord) (row : CertificateRow) (k : Str)
      → t.certificate rev.serial ≡ some row
      → row.revoked == 1 ≡ false
      → phase (revoked_in rev t) k
        ≡ (if str_eq rev.serial k then next (phase t rev.serial) revoke else phase t k)
  unfolding phase phase_of
  revoked_in-phase rev row k e f = ground (arith, str_eq_iff rev.serial k)

  pub revoked_in-IsConsistent :
      (rev : RevocationRecord) (row : CertificateRow)
      → t.certificate rev.serial ≡ some row
      → IsConsistent t
      → IsConsistent (revoked_in rev t)
  revoked_in-IsConsistent rev row e h k = record {
    taken = ground (arith, str_eq_iff rev.serial k, (h k).taken);
    unrecorded = ground (arith, str_eq_iff rev.serial k, (h k).unrecorded);
  }

  pub reserved_in-phase :
      (ser : SerialRecord) (k : Str)
      → IsConsistent t
      → t.serial ser.serial ≡ none
      → phase (reserved_in ser t) k
        ≡ (if str_eq ser.serial k then next (phase t ser.serial) reserve else phase t k)
  unfolding phase phase_of
  reserved_in-phase ser k h e = ground (arith, str_eq_iff ser.serial k, (h ser.serial).taken)

  pub reserved_in-IsConsistent :
      (ser : SerialRecord) → IsConsistent t → IsConsistent (reserved_in ser t)
  reserved_in-IsConsistent ser h k = record {
    taken = ground (arith, str_eq_iff ser.serial k, (h k).taken);
    unrecorded = ground (arith, str_eq_iff ser.serial k, (h k).unrecorded);
  }
