-- ===== src/Ca/KeyStore/Interrupted.antt =====
-- pkg/ca/key_store.go: a generation that fails between its writes.
use mathlib.Core.Option
use go_certa.Prelude.{
  ℤ, Str, codes, str_eq, contains_byte, has_prefix, Bool, true, false, not, some, ◌≡◌, refl, sym,
  ap, ◌∙◌, if◌then◌else◌,
}
use go_certa.Ca.Hierarchy.{
  KeyLibrary, Result, ok, err, writing_root_key, writing_root_cert, writing_intermediate_key,
  writing_intermediate_cert,
}
use go_certa.Ca.Hierarchy.Ceremony.{CaMaterials}
use go_certa.Ca.KeyStore.{
  Files, default_ca_hierarchy_files, certificate_block, owner_writes, all_read,
  read_pem_certificate, read_pem_private_key, write_pem_private_key, write_pem_certificate,
  load_authority, persist, with_signer,
}
use go_certa.Ca.KeyStore.Restart.{certificate_read}
use go_certa.Ca.KeyStore.Documented.{Decodes, Keeps}
use go_certa.Ca.KeyStore.Reload.{Holds-loads}

-- The writes when the third is the first to fail.
third_failed :
    {D : Type 0} (b1 b2 b3 b4 : Bool) (d1 d2 d3 d4 d : D)
    → ◌≡◌ {A = Result (Unit {0}) × D}
        (if not b1
          then (err writing_root_key, d1)
          else if not b2
          then (err writing_root_cert, d2)
          else if not b3
          then (err writing_intermediate_key, d3)
          else if not b4
          then (err writing_intermediate_cert, d4)
          else (ok tt, d4))
        (err writing_intermediate_key, d)
    → (b2 ≡ true) × (d3 ≡ d)
third_failed false b2 b3 b4 d1 d2 d3 d4 d e = cc
third_failed true false b3 b4 d1 d2 d3 d4 d e = cc
third_failed true true false b4 d1 d2 d3 d4 d e = (refl, cc)
third_failed true true true false d1 d2 d3 d4 d e = cc
third_failed true true true true d1 d2 d3 d4 d e = cc

module _ (lib : KeyLibrary) (files : Files) (decodes : Decodes lib) (keeps : Keeps files) where
  certificate_same :
      (path : Str) (d d' : files.Disk)
      → files.read_file path d ≡ files.read_file path d'
      → read_pem_certificate lib files path d ≡ read_pem_certificate lib files path d'
  unfolding read_pem_certificate
  certificate_same path d d' e =
      ap (λ r. Option.bind r (λ text. certificate_block lib files (lib.decode_pem text))) e

  -- If a generation on a disk with the intermediate's files of an earlier hierarchy fails because the key of the
  -- new intermediate cannot be written, and leaves that file readable as it was, then the next
  -- load succeeds with the new root over the earlier intermediate and its key.
  interrupted_mixes :
      (dir : Str) (made : CaMaterials lib.Key lib.Certificate) (d0 d : files.Disk) (latency : ℤ)
      (old_der : Str) (old : lib.Certificate) (old_key : lib.Key)
      → let paths = default_ca_hierarchy_files lib files dir in
        read_pem_certificate lib files paths.intermediate_cert_path d0 ≡ some old_der
        → lib.parse_certificate old_der ≡ some old
        → lib.parse_certificate made.root_der ≡ some made.root_cert
        → persist lib files paths made d0 ≡ (err writing_intermediate_key, d)
        → read_pem_private_key lib files paths.intermediate_key_path d ≡ some old_key
        → load_authority lib files paths latency d
          ≡ ok (with_signer lib files made.root_cert old old_key latency)
  unfolding persist str_eq contains_byte has_prefix
  interrupted_mixes dir made d0 d latency old_der old old_key reads parses root e key =
      let paths = default_ca_hierarchy_files lib files dir in
      let int_path = paths.intermediate_cert_path in
      let root_path = paths.root_cert_path in
      let key_path = paths.intermediate_key_path in
      let w1 = write_pem_private_key lib files paths.root_key_path made.root_key d0 in
      let w2 = write_pem_certificate lib files root_path made.root_der w1.1 in
      let w3 = write_pem_private_key lib files key_path made.intermediate_key w2.1 in
      let w4 = write_pem_certificate lib files int_path made.intermediate_der w3.1 in
      let (b2, same) = third_failed w1.0 w2.0 w3.0 w4.0 w1.1 w2.1 w3.1 w4.1 d e in
      let root_reads =
        keeps.others key_path root_path _ owner_writes w2.1
          (keeps.joins dir (codes "intermediate.key") (codes "root.crt") refl refl refl refl)
        ∙ keeps.writes root_path _ all_read w1.1 b2 in
      let int_reads =
        keeps.others key_path int_path _ owner_writes w2.1 (
          keeps.joins dir (codes "intermediate.key") (codes "intermediate.crt") refl refl refl refl)
        ∙ keeps.others root_path int_path _ all_read w1.1
            (keeps.joins dir (codes "root.crt") (codes "intermediate.crt") refl refl refl refl)
        ∙ keeps.others paths.root_key_path int_path _ owner_writes d0
            (keeps.joins dir (codes "root.key") (codes "intermediate.crt") refl refl refl refl) in
      Holds-loads lib files paths latency d made.root_cert old old_key (record {
        root_der = made.root_der;
        int_der = old_der;
        reads_root =
            certificate_read lib files decodes keeps root_path made.root_der d
              (ap (files.read_file root_path) (sym same) ∙ root_reads);
        reads_int =
            certificate_same int_path d d0 (ap (files.read_file int_path) (sym same) ∙ int_reads)
            ∙ reads;
        parses_root = root;
        parses_int = parses;
        reads_key = key;
      })
