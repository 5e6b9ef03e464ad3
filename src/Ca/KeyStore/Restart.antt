-- ===== src/Ca/KeyStore/Restart.antt =====
-- pkg/ca/key_store.go: the authority over restarts of the server.
use mathlib.Core.Option
use go_certa.Prelude.{
  ℤ, Str, codes, str_eq, str_eq_refl, contains_byte, has_prefix, Bool, true, false, not, Option,
  some, ◌≡◌, refl, sym, ap, subst, ◌∙◌, if◌then◌else◌, Bool-cases, inl, inr,
}
use go_certa.Ca.Hierarchy.{
  KeyLibrary, ok_injective, Result, ok, err, ◌>>=◌, writing_root_key, writing_root_cert,
  writing_intermediate_key, writing_intermediate_cert,
}
use go_certa.Ca.Hierarchy.Ceremony.{CaMaterials, generate}
use go_certa.Ca.KeyStore.{
  Files, CaHierarchyFiles, owner_only, owner_writes, all_read, default_ca_hierarchy_files,
  files_exist, read_pem_certificate, read_pem_private_key, write_pem_private_key,
  write_pem_certificate, Loaded, with_signer, load_authority, persist, persisted,
  generate_and_persist_authority, load_or_initialize_authority,
}
use go_certa.Ca.KeyStore.Documented.{Decodes, Keeps}
use go_certa.Ca.Hierarchy.Parsed.{generate_parses}
use go_certa.Ca.KeyStore.Reload.{Holds, loads-Holds, reload}

-- The four writes when they all succeed.
all_written :
    {D : Type 0} (b1 b2 b3 b4 : Bool) (d1 d2 d3 d4 d : D)
    → ◌≡◌ {A = Result (Unit {0}) × D}
        (if not b1
          then (err writing_root_key, d1)
          else if not b2
          then (err writing_root_cert, d2)
          else if not b3
          then (err writing_intermediate_key, d3)
          else if not b4
          then (err writing_intermediate_cert, d4)
          else (ok tt, d4))
        (ok tt, d)
    → (b1 ≡ true) × (b2 ≡ true) × (b3 ≡ true) × (b4 ≡ true) × (d4 ≡ d)
all_written false b2 b3 b4 d1 d2 d3 d4 d e = cc
all_written true false b3 b4 d1 d2 d3 d4 d e = cc
all_written true true false b4 d1 d2 d3 d4 d e = cc
all_written true true true false d1 d2 d3 d4 d e = cc
all_written true true true true d1 d2 d3 d4 d e = (refl, refl, refl, refl, cc)

module _ (lib : KeyLibrary) (files : Files) (decodes : Decodes lib) (keeps : Keeps files) where
  -- The files that are read are three files.
  record Separate (paths : CaHierarchyFiles) : Type 0 where
    pub key_root : str_eq paths.intermediate_key_path paths.root_cert_path ≡ false
    pub cert_root : str_eq paths.intermediate_cert_path paths.root_cert_path ≡ false
    pub cert_key : str_eq paths.intermediate_cert_path paths.intermediate_key_path ≡ false

  default-Separate : (dir : Str) → Separate (default_ca_hierarchy_files lib files dir)
  unfolding str_eq contains_byte has_prefix
  default-Separate dir = record {
    key_root = keeps.joins dir (codes "intermediate.key") (codes "root.crt") refl refl refl refl;
    cert_root = keeps.joins dir (codes "intermediate.crt") (codes "root.crt") refl refl refl refl;
    cert_key =
        keeps.joins dir (codes "intermediate.crt") (codes "intermediate.key") refl refl refl refl;
  }

  pub certificate_read :
      (path der : Str) (disk : files.Disk)
      → files.read_file path disk ≡ some (lib.encode_pem (codes "CERTIFICATE") der)
      → read_pem_certificate lib files path disk ≡ some der
  unfolding read_pem_certificate Option.bind
  certificate_read path der disk e =
      rw (e, decodes.pem_certificate der, str_eq_refl (codes "CERTIFICATE")) refl

  key_read :
      (path : Str) (key : lib.Key) (disk : files.Disk)
      → files.read_file path disk
        ≡ some (lib.encode_pem (codes "RSA PRIVATE KEY") (lib.marshal_pkcs1 key))
      → read_pem_private_key lib files path disk ≡ some key
  unfolding read_pem_private_key Option.bind
  key_read path key disk e =
      rw
        (
          e,
          decodes.pem_key (lib.marshal_pkcs1 key),
          str_eq_refl (codes "RSA PRIVATE KEY"),
          decodes.pkcs1 key,
        )
        refl

  -- The hierarchy that was written is on disk.
  persist-Holds :
      (paths : CaHierarchyFiles) (made : CaMaterials lib.Key lib.Certificate) (d0 d : files.Disk)
      → Separate paths
      → persist lib files paths made d0 ≡ (ok tt, d)
      → lib.parse_certificate made.root_der ≡ some made.root_cert
      → lib.parse_certificate made.intermediate_der ≡ some made.intermediate_cert
      → Holds lib files paths d made.root_cert made.intermediate_cert made.intermediate_key
  unfolding persist
  persist-Holds paths made d0 d apart e root int =
      let w1 = write_pem_private_key lib files paths.root_key_path made.root_key d0 in
      let w2 = write_pem_certificate lib files paths.root_cert_path made.root_der w1.1 in
      let w3 =
        write_pem_private_key lib files paths.intermediate_key_path made.intermediate_key w2.1 in
      let w4 =
        write_pem_certificate lib files paths.intermediate_cert_path made.intermediate_der w3.1 in
      let (b1, b2, b3, b4, same) = all_written w1.0 w2.0 w3.0 w4.0 w1.1 w2.1 w3.1 w4.1 d e in
      subst
        (λ disk.
          Holds lib files paths disk made.root_cert made.intermediate_cert made.intermediate_key)
        same
        (record {
          root_der = made.root_der;
          int_der = made.intermediate_der;
          reads_root = certificate_read paths.root_cert_path made.root_der w4.1 (
              keeps.others paths.intermediate_cert_path paths.root_cert_path _ all_read w3.1
                apart.cert_root
              ∙ keeps.others paths.intermediate_key_path paths.root_cert_path _ owner_writes w2.1
                  apart.key_root
              ∙ keeps.writes paths.root_cert_path _ all_read w1.1 b2);
          reads_int =
              certificate_read paths.intermediate_cert_path made.intermediate_der w4.1
                (keeps.writes paths.intermediate_cert_path _ all_read w3.1 b4);
          parses_root = root;
          parses_int = int;
          reads_key = key_read paths.intermediate_key_path made.intermediate_key w4.1 (
              keeps.others paths.intermediate_cert_path paths.intermediate_key_path _ all_read w3.1
                apart.cert_key
              ∙ keeps.writes paths.intermediate_key_path _ owner_writes w2.1 b3);
        })

  abbrev pub OnDisk : CaHierarchyFiles → files.Disk → Loaded lib files → ℤ → Type 0
  OnDisk paths d h latency =
      (root : lib.Certificate) × (int : lib.Certificate) × (key : lib.Key) × (h
        ≡ with_signer lib files root int key latency)
      × Holds lib files paths d root int key

  written-OnDisk :
      (paths : CaHierarchyFiles) (latency : ℤ) (made : CaMaterials lib.Key lib.Certificate)
      (d0 d : files.Disk) (h : Loaded lib files) (written : Result (Unit {0}) × files.Disk)
      → Separate paths
      → (lib.parse_certificate made.root_der ≡ some made.root_cert)
        × (lib.parse_certificate made.intermediate_der ≡ some made.intermediate_cert)
      → persist lib files paths made d0 ≡ written
      → ◌≡◌ {A = Result (Loaded lib files) × files.Disk}
          (
            written.0 >>= λ _. ok (
                with_signer lib files made.root_cert made.intermediate_cert made.intermediate_key
                  latency),
            written.1,
          )
          (ok h, d)
      → OnDisk paths d h latency
  written-OnDisk paths latency made d0 d h (err x, d1) apart parses p e = cc
  written-OnDisk paths latency made d0 d h (ok u, d1) apart parses p e =
      let same : d1 ≡ d = ap (λ (r : Result (Loaded lib files) × files.Disk). r.1) e in
      (
        made.root_cert,
        made.intermediate_cert,
        made.intermediate_key,
        sym (ok_injective (ap (λ (r : Result (Loaded lib files) × files.Disk). r.0) e)),
        persist-Holds paths made d0 d apart (p ∙ rw same refl) parses.0 parses.1,
      )

  generated-OnDisk :
      (now : ℤ) (root_drawn int_drawn : Option lib.Key) (paths : CaHierarchyFiles) (latency : ℤ)
      (d0 d : files.Disk) (h : Loaded lib files)
      (made : Result (CaMaterials lib.Key lib.Certificate))
      → Separate paths
      → generate lib now root_drawn int_drawn ≡ made
      → persisted lib files paths latency made d0 ≡ (ok h, d)
      → OnDisk paths d h latency
  generated-OnDisk now root_drawn int_drawn paths latency d0 d h (err x) apart p e = cc
  generated-OnDisk now root_drawn int_drawn paths latency d0 d h (ok made) apart p e =
      written-OnDisk paths latency made d0 d h (persist lib files paths made d0) apart
        (generate_parses lib now root_drawn int_drawn made p) refl e

  -- Whatever LoadOrInitializeAuthority returned, loaded or new, is on the disk that it leaves.
  pub returned-OnDisk :
      (now : ℤ) (root_drawn int_drawn : Option lib.Key) (dir : Str) (latency : ℤ)
      (d0 d : files.Disk) (h : Loaded lib files)
      → load_or_initialize_authority lib files now root_drawn int_drawn dir latency d0 ≡ (ok h, d)
      → OnDisk (default_ca_hierarchy_files lib files (files.join dir (codes "ca"))) d h latency
  unfolding load_or_initialize_authority generate_and_persist_authority
  returned-OnDisk now root_drawn int_drawn dir latency d0 d h e =
      let ca_dir = files.join dir (codes "ca") in
      let paths = default_ca_hierarchy_files lib files ca_dir in
      let made = files.mkdir_all ca_dir owner_only d0 in
      elim (Bool-cases made.0) [
        | inr f ↦ cc (rw f at e)
        | inl f ↦ elim (Bool-cases (files_exist lib files paths made.1)) [
          | inl g ↦
              let loaded : ◌≡◌ {A = Result (Loaded lib files) × files.Disk}
                  (load_authority lib files paths latency made.1, made.1) (ok h, d) =
                unfold load_authority in rw (f, g) at e in
              let (root, int, key, same, held) =
                loads-Holds lib files paths latency made.1 h
                  (ap (λ (r : Result (Loaded lib files) × files.Disk). r.0) loaded) in
              (
                root,
                int,
                key,
                same,
                subst (λ disk. Holds lib files paths disk root int key)
                    (ap (λ (r : Result (Loaded lib files) × files.Disk). r.1) loaded) held,
              )
          | inr g ↦
              generated-OnDisk now root_drawn int_drawn paths latency made.1 d h
                (generate lib now root_drawn int_drawn) (default-Separate ca_dir) refl
                (rw (f, g) at e)
        ]
      ]

  -- The server has the same authority after a restart: if LoadOrInitializeAuthority returns an authority,
  -- loaded or newly generated, it returns the same one when it is called again on the disk that
  -- it left, whatever keys are drawn then, provided the directory can be made again. The
  -- libraries do what they document.
  restart_is_same :
      (now later : ℤ) (root_drawn int_drawn root_redrawn int_redrawn : Option lib.Key) (dir : Str)
      (latency : ℤ) (d0 d : files.Disk) (h : Loaded lib files)
      → load_or_initialize_authority lib files now root_drawn int_drawn dir latency d0 ≡ (ok h, d)
      → (files.mkdir_all (files.join dir (codes "ca")) owner_only d).0 ≡ true
      → (load_or_initialize_authority lib files later root_redrawn int_redrawn dir latency d).0
        ≡ ok h
  restart_is_same now later root_drawn int_drawn root_redrawn int_redrawn dir latency d0 d h e
        made =
      let (root, int, key, same, held) =
        returned-OnDisk now root_drawn int_drawn dir latency d0 d h e in
      reload lib files keeps later root_redrawn int_redrawn dir latency d root int key made held
      ∙ ap ok (sym same)
