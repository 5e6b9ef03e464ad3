-- ===== src/Ca/KeyStore.antt =====
-- pkg/ca/key_store.go: the files of the authority. The file system is the parameter `files`; a write
-- returns whether it succeeded, with the disk that it leaves.
pub mod Documented
pub mod Reload
pub mod Restart
pub mod Interrupted
use go_certa.Prelude.{ℕ, ℤ, Str, codes, str_eq, Bool, not, ◌&&◌, Option, none, some, if◌then◌else◌}
use mathlib.Core.Option
use go_certa.Ca.Policy.{new_default_policy_engine}
use go_certa.Ca.Hierarchy.{
  KeyLibrary, Result, ok, err, ◌>>=◌, or_fail, Hierarchy, creating_directory, reading_root_cert,
  parsing_root_cert, reading_intermediate_cert, parsing_intermediate_cert, reading_intermediate_key,
  writing_root_key, writing_root_cert, writing_intermediate_key, writing_intermediate_cert,
}
use go_certa.Ca.Hierarchy.Ceremony.{CaMaterials, generate}
use go_certa.Signer.MockHsm.{HsmSigner, new_hsm_signer}

-- The packages os and filepath, as far as the code calls them.
pub record Files : Type 1 where
  pub Disk : Type 0
  pub join : Str → Str → Str
  -- A path, its mode.
  pub mkdir_all : Str → ℕ → Disk → Bool × Disk
  -- os.Stat returns no error.
  pub stat : Str → Disk → Bool
  pub read_file : Str → Disk → Option Str
  pub write_file : Str → Str → ℕ → Disk → Bool × Disk

pub record CaHierarchyFiles : Type 0 where
  pub root_key_path : Str
  pub root_cert_path : Str
  pub intermediate_key_path : Str
  pub intermediate_cert_path : Str

-- 0700, 0600 and 0644.
abbrev pub owner_only : ℕ
owner_only = 448

abbrev pub owner_writes : ℕ
owner_writes = 384

abbrev pub all_read : ℕ
all_read = 420

module _ (lib : KeyLibrary) (files : Files) where
  abbrev pub default_ca_hierarchy_files : Str → CaHierarchyFiles
  default_ca_hierarchy_files dir = record {
    root_key_path = files.join dir (codes "root.key");
    root_cert_path = files.join dir (codes "root.crt");
    intermediate_key_path = files.join dir (codes "intermediate.key");
    intermediate_cert_path = files.join dir (codes "intermediate.crt");
  }

  abbrev pub files_exist : CaHierarchyFiles → files.Disk → Bool
  files_exist paths disk =
      files.stat paths.root_cert_path disk
      && files.stat paths.intermediate_cert_path disk
      && files.stat paths.intermediate_key_path disk

  abbrev pub certificate_block : Option (Str × Str) → Option Str
  certificate_block none = none
  certificate_block (some (kind, bytes)) =
      if str_eq kind (codes "CERTIFICATE") then some bytes else none

  unfoldable pub read_pem_certificate : Str → files.Disk → Option Str
  read_pem_certificate path disk =
      Option.bind (files.read_file path disk) (λ text. certificate_block (lib.decode_pem text))

  abbrev pub only_rsa : Option (Option lib.Key) → Option lib.Key
  only_rsa none = none
  only_rsa (some key) = key

  abbrev pub key_block : Option (Str × Str) → Option lib.Key
  key_block none = none
  key_block (some (kind, bytes)) =
      if str_eq kind (codes "RSA PRIVATE KEY")
      then lib.parse_pkcs1 bytes
      else only_rsa (lib.parse_pkcs8 bytes)

  unfoldable pub read_pem_private_key : Str → files.Disk → Option lib.Key
  read_pem_private_key path disk =
      Option.bind (files.read_file path disk) (λ text. key_block (lib.decode_pem text))

  abbrev pub write_pem_private_key : Str → lib.Key → files.Disk → Bool × files.Disk
  write_pem_private_key path key =
      files.write_file path (lib.encode_pem (codes "RSA PRIVATE KEY") (lib.marshal_pkcs1 key))
        owner_writes

  abbrev pub write_pem_certificate : Str → Str → files.Disk → Bool × files.Disk
  write_pem_certificate path cert_der =
      files.write_file path (lib.encode_pem (codes "CERTIFICATE") cert_der) all_read

  -- What LoadOrInitializeAuthority returns. Its second result, the signer, is the authority's own.
  abbrev pub Loaded : Type 0
  Loaded = Hierarchy lib.Certificate (HsmSigner lib.Key)

  abbrev pub with_signer : lib.Certificate → lib.Certificate → lib.Key → ℤ → Loaded
  with_signer root intermediate key latency = record {
    root_cert = root;
    intermediate_cert = some intermediate;
    signer = new_hsm_signer (some key) latency;
    policy = new_default_policy_engine;
  }

  unfoldable pub load_authority : CaHierarchyFiles → ℤ → files.Disk → Result Loaded
  load_authority paths signer_latency disk = do
    root_der ← or_fail (read_pem_certificate paths.root_cert_path disk) reading_root_cert
    root_cert ← or_fail (lib.parse_certificate root_der) parsing_root_cert
    int_der ←
        or_fail (read_pem_certificate paths.intermediate_cert_path disk) reading_intermediate_cert
    int_cert ← or_fail (lib.parse_certificate int_der) parsing_intermediate_cert
    int_key ←
        or_fail (read_pem_private_key paths.intermediate_key_path disk) reading_intermediate_key
    ok (with_signer root_cert int_cert int_key signer_latency)

  -- The four writes, each after the one before succeeded.
  unfoldable pub persist :
      CaHierarchyFiles
      → CaMaterials lib.Key lib.Certificate
      → files.Disk
      → Result (Unit {0}) × files.Disk
  persist paths made d0 =
      let (root_key_written, d1) = write_pem_private_key paths.root_key_path made.root_key d0 in
      let (root_cert_written, d2) = write_pem_certificate paths.root_cert_path made.root_der d1 in
      let (int_key_written, d3) =
        write_pem_private_key paths.intermediate_key_path made.intermediate_key d2 in
      let (int_cert_written, d4) =
        write_pem_certificate paths.intermediate_cert_path made.intermediate_der d3 in
      if not root_key_written
      then (err writing_root_key, d1)
      else if not root_cert_written
      then (err writing_root_cert, d2)
      else if not int_key_written
      then (err writing_intermediate_key, d3)
      else if not int_cert_written
      then (err writing_intermediate_cert, d4)
      else (ok tt, d4)

  abbrev pub persisted :
      CaHierarchyFiles
      → ℤ
      → Result (CaMaterials lib.Key lib.Certificate)
      → files.Disk
      → Result Loaded × files.Disk
  persisted paths latency (err e) disk = (err e, disk)
  persisted paths latency (ok made) disk =
      let (written, after) = persist paths made disk in
      (
        written >>= λ _.
            ok (with_signer made.root_cert made.intermediate_cert made.intermediate_key latency),
        after,
      )

  unfoldable pub generate_and_persist_authority :
      ℤ
      → Option lib.Key
      → Option lib.Key
      → CaHierarchyFiles
      → ℤ
      → files.Disk
      → Result Loaded × files.Disk
  generate_and_persist_authority now root_drawn intermediate_drawn paths signer_latency disk =
      persisted paths signer_latency (generate lib now root_drawn intermediate_drawn) disk

  unfoldable pub load_or_initialize_authority :
      ℤ → Option lib.Key → Option lib.Key → Str → ℤ → files.Disk → Result Loaded × files.Disk
  unfolding load_authority generate_and_persist_authority
  load_or_initialize_authority now root_drawn intermediate_drawn data_dir signer_latency disk =
      let ca_dir = files.join data_dir (codes "ca") in
      let (made, ready) = files.mkdir_all ca_dir owner_only disk in
      let paths = default_ca_hierarchy_files ca_dir in
      if not made
      then (err creating_directory, ready)
      else if files_exist paths ready
      then (load_authority paths signer_latency ready, ready)
      else generate_and_persist_authority now root_drawn intermediate_drawn paths signer_latency
          ready
