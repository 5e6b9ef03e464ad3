-- ===== src/Ca/KeyStore/Reload.antt =====
-- pkg/ca/key_store.go: what is written is read again.
use mathlib.Core.Option
use go_certa.Prelude.{
  ℤ, Str, codes, true, Option, some, ◌≡◌, refl, sym, ap, ◌∙◌, ◌↔◌, Option-cases, inl, inr,
}
use go_certa.Ca.Hierarchy.{KeyLibrary, ok, or_fail, bind_ok, or_fail_ok}
use go_certa.Ca.KeyStore.Documented.{Keeps}
use go_certa.Ca.KeyStore.{
  Files, CaHierarchyFiles, owner_only, default_ca_hierarchy_files, files_exist,
  read_pem_certificate, read_pem_private_key, Loaded, with_signer, load_authority,
  load_or_initialize_authority,
}

module _ (lib : KeyLibrary) (files : Files) where
  -- The three files decode to these parts.
  pub record Holds (paths : CaHierarchyFiles) (disk : files.Disk) (root int : lib.Certificate)
      (key : lib.Key) : Type 0 where
    pub root_der : Str
    pub int_der : Str
    pub reads_root : read_pem_certificate lib files paths.root_cert_path disk ≡ some root_der
    pub reads_int : read_pem_certificate lib files paths.intermediate_cert_path disk ≡ some int_der
    pub parses_root : lib.parse_certificate root_der ≡ some root
    pub parses_int : lib.parse_certificate int_der ≡ some int
    pub reads_key : read_pem_private_key lib files paths.intermediate_key_path disk ≡ some key

  pub Holds-loads :
      (paths : CaHierarchyFiles) (latency : ℤ) (disk : files.Disk) (root int : lib.Certificate)
      (key : lib.Key)
      → Holds paths disk root int key
      → load_authority lib files paths latency disk
        ≡ ok (with_signer lib files root int key latency)
  unfolding load_authority
  Holds-loads paths latency disk root int key h =
      rw (h.reads_root, h.parses_root, h.reads_int, h.parses_int, h.reads_key) refl

  pub loads-Holds :
      (paths : CaHierarchyFiles) (latency : ℤ) (disk : files.Disk) (h : Loaded lib files)
      → load_authority lib files paths latency disk ≡ ok h
      → (root : lib.Certificate) × (int : lib.Certificate) × (key : lib.Key) × (h
          ≡ with_signer lib files root int key latency)
        × Holds paths disk root int key
  unfolding load_authority
  loads-Holds paths latency disk h e =
      let (root_der, p0, e0) =
        bind_ok (or_fail (read_pem_certificate lib files paths.root_cert_path disk) _) _ e in
      let (root, p1, e1) = bind_ok (or_fail (lib.parse_certificate root_der) _) _ e0 in
      let (int_der, p2, e2) =
        bind_ok (or_fail (read_pem_certificate lib files paths.intermediate_cert_path disk) _) _
          e1 in
      let (int, p3, e3) = bind_ok (or_fail (lib.parse_certificate int_der) _) _ e2 in
      let (key, p4, e4) =
        bind_ok (or_fail (read_pem_private_key lib files paths.intermediate_key_path disk) _) _
          e3 in
      (
        root,
        int,
        key,
        cc e4,
        record {
          root_der = root_der;
          int_der = int_der;
          reads_root = or_fail_ok _ _ p0;
          parses_root = or_fail_ok _ _ p1;
          reads_int = or_fail_ok _ _ p2;
          parses_int = or_fail_ok _ _ p3;
          reads_key = or_fail_ok _ _ p4;
        },
      )

  read_some :
      {A : Type 0} (path : Str) (disk : files.Disk) (decode : Str → Option A) (a : A)
      → Option.bind (files.read_file path disk) decode ≡ some a
      → (content : Str) × (files.read_file path disk ≡ some content)
  unfolding Option.bind
  read_some path disk decode a e = elim (Option-cases (files.read_file path disk)) [
    | inl f ↦ cc (rw f at e)
    | inr (content, f) ↦ (content, f)
  ]

  kept_read :
      {A : Type 0} (path : Str) (d d' : files.Disk) (decode : Str → Option A) (a : A)
      → ((content : Str)
          → files.read_file path d ≡ some content
          → files.read_file path d' ≡ some content)
      → Option.bind (files.read_file path d) decode ≡ some a
      → Option.bind (files.read_file path d') decode ≡ some a
  kept_read path d d' decode a keeps e =
      let (content, f) = read_some path d decode a e in
      ap (λ r. Option.bind r decode) (keeps content f ∙ sym f) ∙ e

  -- What is on disk stays there, if the files that are there keep their contents.
  pub Holds-kept :
      (paths : CaHierarchyFiles) (d d' : files.Disk) (root int : lib.Certificate) (key : lib.Key)
      → ((path content : Str)
          → files.read_file path d ≡ some content
          → files.read_file path d' ≡ some content)
      → Holds paths d root int key
      → Holds paths d' root int key
  unfolding read_pem_certificate read_pem_private_key
  Holds-kept paths d d' root int key kept h = record {
    root_der = h.root_der;
    int_der = h.int_der;
    reads_root =
        kept_read paths.root_cert_path d d' _ h.root_der (kept paths.root_cert_path) h.reads_root;
    reads_int =
        kept_read paths.intermediate_cert_path d d' _ h.int_der (kept paths.intermediate_cert_path)
          h.reads_int;
    parses_root = h.parses_root;
    parses_int = h.parses_int;
    reads_key =
        kept_read paths.intermediate_key_path d d' _ key (kept paths.intermediate_key_path)
          h.reads_key;
  }

  module _ (keeps : Keeps files) where
    stat_read :
        {A : Type 0} (path : Str) (disk : files.Disk) (decode : Str → Option A) (a : A)
        → Option.bind (files.read_file path disk) decode ≡ some a
        → files.stat path disk ≡ true
    stat_read path disk decode a e =
        let (content, f) = read_some path disk decode a e in keeps.stats path content disk f

    Holds-exist :
        (paths : CaHierarchyFiles) (disk : files.Disk) (root int : lib.Certificate) (key : lib.Key)
        → Holds paths disk root int key
        → files_exist lib files paths disk ≡ true
    unfolding read_pem_certificate read_pem_private_key
    Holds-exist paths disk root int key h =
        rw
          (
            stat_read paths.root_cert_path disk _ h.root_der h.reads_root,
            stat_read paths.intermediate_cert_path disk _ h.int_der h.reads_int,
            stat_read paths.intermediate_key_path disk _ key h.reads_key,
          )
          refl

    -- Making a directory leaves the files as they are.
    pub Holds-made :
        (paths : CaHierarchyFiles) (dir : Str) (disk : files.Disk) (root int : lib.Certificate)
        (key : lib.Key)
        → Holds paths disk root int key
        → Holds paths (files.mkdir_all dir owner_only disk).1 root int key
    Holds-made paths dir disk root int key h =
        Holds-kept paths disk (files.mkdir_all dir owner_only disk).1 root int key
          (λ path content e. keeps.makes dir path owner_only disk ∙ e) h

    -- A hierarchy that is on disk is loaded.
    pub reload :
        (now : ℤ) (root_drawn int_drawn : Option lib.Key) (dir : Str) (latency : ℤ)
        (disk : files.Disk) (root int : lib.Certificate) (key : lib.Key)
        → let ca_dir = files.join dir (codes "ca") in
          (files.mkdir_all ca_dir owner_only disk).0 ≡ true
          → Holds (default_ca_hierarchy_files lib files ca_dir) disk root int key
          → (load_or_initialize_authority lib files now root_drawn int_drawn dir latency disk).0
            ≡ ok (with_signer lib files root int key latency)
    unfolding load_or_initialize_authority
    reload now root_drawn int_drawn dir latency disk root int key made h =
        let ca_dir = files.join dir (codes "ca") in
        let paths = default_ca_hierarchy_files lib files ca_dir in
        let ready = (files.mkdir_all ca_dir owner_only disk).1 in
        let held = Holds-made paths ca_dir disk root int key h in
        unfold load_authority in
        rw (made, Holds-exist paths ready root int key held)
          (Holds-loads paths latency ready root int key held)

  -- loadAuthority returns an authority exactly when the root's and the intermediate's files hold
  -- certificates that parse and the key's file an RSA key; it is made of these three. Nothing is
  -- compared: neither the key with the intermediate nor the intermediate with the root.
  load_authority_exact :
      (paths : CaHierarchyFiles) (latency : ℤ) (disk : files.Disk) (h : Loaded lib files)
      → (load_authority lib files paths latency disk ≡ ok h) ↔ (
          (root : lib.Certificate) × (int : lib.Certificate) × (key : lib.Key) × (h
            ≡ with_signer lib files root int key latency)
          × Holds paths disk root int key)
  load_authority_exact paths latency disk h = (
    loads-Holds paths latency disk h,
    λ (root, int, key, same, held).
        Holds-loads paths latency disk root int key held ∙ ap ok (sym same),
  )
