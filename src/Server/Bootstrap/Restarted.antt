-- ===== src/Server/Bootstrap/Restarted.antt =====
-- cmd/certa-server/app.go: a restart of the server on the same data directory.
use go_certa.Prelude.{
  ℕ, pos, Str, codes, str_eq, Bool, true, not, ◌&&◌, some, ◌≡◌, refl, sym, ap, subst, ◌∙◌, is_empty,
  Bool-cases, inl, inr,
}
use go_certa.Ca.Hierarchy
use go_certa.Ca.KeyStore.{
  CaHierarchyFiles, owner_only, owner_writes, default_ca_hierarchy_files, with_signer,
  load_or_initialize_authority,
}
use go_certa.Ca.KeyStore.Documented.{Decodes, Keeps}
use go_certa.Ca.KeyStore.Reload.{Holds, Holds-kept, Holds-made, reload}
use go_certa.Ca.KeyStore.Restart.{OnDisk, returned-OnDisk}
use go_certa.Server.{AppConfig, completed}
use go_certa.Server.Bootstrap.{
  Platform, Draws, latency, Disk, ServerAuthority, Backend, ServerApp, Started, ready,
  ready_injective, adjusted, wired, persistent_parts, opened_database, persistent_app,
  new_server_app, sqlite,
}
use go_certa.Storage
use go_certa.Storage.Sqlite.{new_sqlite_storage}

module _ (platform : Platform) (decodes : Decodes platform.keys) (keeps : Keeps platform.files)
    (append_keeps : (path other content : Str) (mode : ℕ) (disk : platform.files.Disk)
      → platform.files.read_file other disk ≡ some content
      → platform.files.read_file other (platform.open_append path mode disk).1 ≡ some content) where
  abbrev CaDir : Str → Str
  CaDir data_dir = platform.files.join data_dir (codes "ca")

  abbrev CaPaths : Str → CaHierarchyFiles
  CaPaths data_dir = default_ca_hierarchy_files platform.keys platform.files (CaDir data_dir)

  abbrev Made :
      platform.keys.Certificate
      → platform.keys.Certificate
      → platform.keys.Key
      → ServerAuthority platform
  Made root int key = with_signer platform.keys platform.files root int key latency

  -- The application runs on the hierarchy that is on the disk.
  abbrev RunsOn : AppConfig → ServerApp platform → Disk platform → Type 0
  RunsOn cfg app d =
      (root : platform.keys.Certificate) × (int : platform.keys.Certificate)
      × (key : platform.keys.Key) × (app.authority ≡ adjusted platform cfg (Made root int key))
      × Holds platform.keys platform.files (CaPaths cfg.data_dir) d root int key

  wired_authority :
      (cfg : AppConfig) (draws : Draws platform.keys.Key) (storage : Backend platform)
      (closer : Bool) (root int : platform.keys.Certificate) (key : platform.keys.Key)
      → (app : ServerApp platform) × (wired platform cfg draws storage closer (Made root int key)
          ≡ ready app)
        × (app.authority ≡ adjusted platform cfg (Made root int key))
  unfolding wired
  wired_authority cfg draws storage closer root int key = (_, refl, refl)

  first_parts :
      (cfg : AppConfig) (draws : Draws platform.keys.Key) (storage : Backend platform)
      (loaded : Hierarchy.Result (ServerAuthority platform)) (disk d : Disk platform)
      (app : ServerApp platform)
      → ((h : ServerAuthority platform)
          → loaded ≡ Hierarchy.ok h
          → OnDisk platform.keys platform.files decodes keeps (CaPaths cfg.data_dir) disk h latency)
      → persistent_parts platform cfg draws storage (loaded, disk) ≡ (ready app, d)
      → RunsOn cfg app d
  unfolding persistent_parts
  first_parts cfg draws storage (Hierarchy.err x) disk d app on e = cc
  first_parts cfg draws storage (Hierarchy.ok h) disk d app on e =
      let (root, int, key, same, held) = on h refl in
      let opened =
        platform.open_append (platform.files.join cfg.data_dir (codes "audit.log")) owner_writes
          disk in
      let (app', wires, runs) = wired_authority cfg draws storage opened.0 root int key in
      let starts : wired platform cfg draws storage opened.0 h ≡ ready app =
        ap (λ (r : Started (ServerApp platform) × Disk platform). r.0) e in
      let same_app =
        ready_injective
          (sym wires ∙ ap (wired platform cfg draws storage opened.0) (sym same) ∙ starts) in
      (
        root,
        int,
        key,
        ap (λ (a : ServerApp platform). a.authority) (sym same_app) ∙ runs,
        subst
            (λ disk'. Holds platform.keys platform.files (CaPaths cfg.data_dir) disk' root int key)
            (ap (λ (r : Started (ServerApp platform) × Disk platform). r.1) e)
            (Holds-kept platform.keys platform.files (CaPaths cfg.data_dir) disk opened.1 root int
              key (λ path content f. append_keeps _ path content owner_writes disk f) held),
      )

  first_opened :
      (cfg : AppConfig) (draws : Draws platform.keys.Key)
      (opened : Storage.Result platform.engine.Db) (disk d : Disk platform)
      (app : ServerApp platform)
      → opened_database platform cfg draws opened disk ≡ (ready app, d)
      → RunsOn cfg app d
  unfolding opened_database
  first_opened cfg draws (Storage.err x) disk d app e = cc
  first_opened cfg draws (Storage.ok db) disk d app e =
      let r =
        load_or_initialize_authority platform.keys platform.files (pos draws.now) draws.root_key
          draws.intermediate_key cfg.data_dir latency disk in
      unfold persistent_parts in
      first_parts cfg draws (sqlite db) r.0 r.1 d app
        (λ h f.
          returned-OnDisk platform.keys platform.files decodes keeps (pos draws.now) draws.root_key
            draws.intermediate_key cfg.data_dir latency disk r.1 h (ap (λ x. (x, r.1)) f))
        e

  first_run :
      (cfg : AppConfig) (draws : Draws platform.keys.Key) (disk d : Disk platform)
      (app : ServerApp platform)
      → persistent_app platform cfg draws disk ≡ (ready app, d)
      → RunsOn cfg app d
  unfolding persistent_app
  first_run cfg draws disk d app e =
      let made = platform.files.mkdir_all cfg.data_dir owner_only disk in
      elim (Bool-cases made.0) [
        | inr f ↦ cc (rw f at e)
        | inl f ↦
            unfold opened_database in
            first_opened cfg draws
              (new_sqlite_storage platform.engine
                (platform.files.join cfg.data_dir (codes "certa.db")))
              made.1 d app (rw f at e)
      ]

  later_parts :
      (cfg : AppConfig) (draws : Draws platform.keys.Key) (storage : Backend platform)
      (loaded : Hierarchy.Result (ServerAuthority platform) × Disk platform)
      (root int : platform.keys.Certificate) (key : platform.keys.Key)
      → loaded.0 ≡ Hierarchy.ok (Made root int key)
      → (app : ServerApp platform) × ((persistent_parts platform cfg draws storage loaded).0
          ≡ ready app)
        × (app.authority ≡ adjusted platform cfg (Made root int key))
  unfolding persistent_parts
  later_parts cfg draws storage (Hierarchy.err x, disk) root int key e = cc
  later_parts cfg draws storage (Hierarchy.ok h, disk) root int key e =
      let opened =
        platform.open_append (platform.files.join cfg.data_dir (codes "audit.log")) owner_writes
          disk in
      let (app, wires, runs) = wired_authority cfg draws storage opened.0 root int key in
      (app, ap (wired platform cfg draws storage opened.0) (Hierarchy.ok_injective e) ∙ wires, runs)

  -- The server can make its directories on this disk, and open its database.
  pub record CanStart (cfg : AppConfig) (d : Disk platform) : Type 0 where
    pub db : platform.engine.Db
    pub makes_data_dir : (platform.files.mkdir_all cfg.data_dir owner_only d).0 ≡ true
    pub makes_ca_dir :
        (platform.files.mkdir_all
          (CaDir cfg.data_dir)
          owner_only
          (platform.files.mkdir_all cfg.data_dir owner_only d).1).0
        ≡ true
    pub opens :
        new_sqlite_storage platform.engine (platform.files.join cfg.data_dir (codes "certa.db"))
        ≡ Storage.ok db

  later_run :
      (cfg : AppConfig) (draws : Draws platform.keys.Key) (d : Disk platform)
      (root int : platform.keys.Certificate) (key : platform.keys.Key)
      → CanStart cfg d
      → Holds platform.keys platform.files (CaPaths cfg.data_dir) d root int key
      → (app : ServerApp platform) × ((persistent_app platform cfg draws d).0 ≡ ready app)
        × (app.authority ≡ adjusted platform cfg (Made root int key))
  unfolding persistent_app opened_database
  later_run cfg draws d root int key can held =
      let made = (platform.files.mkdir_all cfg.data_dir owner_only d).1 in
      rw (can.makes_data_dir, can.opens)
        (unfold persistent_parts in
          later_parts cfg draws (sqlite can.db) _ root int key (
            reload platform.keys platform.files keeps (pos draws.now) draws.root_key
              draws.intermediate_key cfg.data_dir latency made root int key can.makes_ca_dir
              (Holds-made platform.keys platform.files keeps (CaPaths cfg.data_dir) cfg.data_dir d
                root int key held)))

  -- A server that is started again on its data directory has the authority that it had: the same
  -- root, intermediate, key and policy, whatever keys are drawn and whatever the clock shows. It has a
  -- data directory, could start before, and can make its directories and open its database again.
  pub restart_keeps_authority :
      (cfg : AppConfig) (draws redraws : Draws platform.keys.Key) (disk d : Disk platform)
      (app : ServerApp platform)
      → (not (is_empty cfg.data_dir) && not (str_eq cfg.data_dir (codes ":memory:"))) ≡ true
      → new_server_app platform cfg draws disk ≡ (ready app, d)
      → CanStart (completed cfg) d
      → (again : ServerApp platform) × ((new_server_app platform cfg redraws d).0 ≡ ready again)
        × (again.authority ≡ app.authority)
  unfolding new_server_app completed
  restart_keeps_authority cfg draws redraws disk d app persistent e can =
      let (root, int, key, same, held) =
        first_run (completed cfg) draws disk d app (unfold persistent_app in rw persistent at e) in
      let (again, starts, runs) = later_run (completed cfg) redraws d root int key can held in
      (again, unfold persistent_app in rw persistent starts, runs ∙ sym same)
