-- ===== src/Server/Bootstrap/Permitted.antt =====
-- cmd/certa-server: the policy that a started server issues under.
use go_certa.Prelude.{
  ℤ, pos, Str, codes, str_eq, Bool, false, not, ◌&&◌, ◌||◌, Option, some, ◌≡◌, refl, sym, ap, ◌∙◌,
  is_empty, Bool-cases, Option-cases, inl, inr,
}
use go_certa.Ca.Hierarchy
use go_certa.Ca.Hierarchy.{bind_ok, or_fail, ◌>>=◌, root_template, intermediate_template, Hierarchy}
use go_certa.Ca.Hierarchy.Ceremony.{CaMaterials, generate}
use go_certa.Ca.Hierarchy.Parsed.{new_authority-policy}
use go_certa.Ca.Policy.{PolicyEngine, new_default_policy_engine}
use go_certa.Ca.KeyStore.{
  CaHierarchyFiles, with_signer, owner_only, default_ca_hierarchy_files, files_exist,
  load_authority, persist, persisted, generate_and_persist_authority, load_or_initialize_authority,
}
use go_certa.Ca.KeyStore.Reload.{loads-Holds}
use go_certa.Server.{AppConfig, completed}
use go_certa.Server.Bootstrap.{
  Platform, Draws, latency, Disk, ServerAuthority, Backend, ServerApp, ready, ready_injective,
  adjusted, wired, persistent_parts, opened_database, persistent_app, ephemeral_authority,
  ephemeral_app, new_server_app, sqlite, in_memory,
}
use go_certa.Signer.MockHsm.{new_hsm_signer}
use go_certa.Storage
use go_certa.Storage.Memory.{new_memory_storage}
use go_certa.Storage.Sqlite.{new_sqlite_storage}

module _ (platform : Platform) where
  abbrev IsDefault : ServerAuthority platform → Type 0
  IsDefault h = h.policy ≡ new_default_policy_engine

  written-IsDefault :
      (root int : platform.keys.Certificate) (h : ServerAuthority platform)
      (key : platform.keys.Key) (lat : ℤ) (written : Hierarchy.Result (Unit {0}))
      → (written >>= λ _. Hierarchy.ok (with_signer platform.keys platform.files root int key lat))
        ≡ Hierarchy.ok h
      → IsDefault h
  written-IsDefault root int h key lat (Hierarchy.err x) e = cc
  written-IsDefault root int h key lat (Hierarchy.ok u) e =
      ap (λ (a : ServerAuthority platform). a.policy) (sym (Hierarchy.ok_injective e))

  persisted-IsDefault :
      (paths : CaHierarchyFiles) (lat : ℤ)
      (made : Hierarchy.Result (CaMaterials platform.keys.Key platform.keys.Certificate))
      (disk : Disk platform) (h : ServerAuthority platform)
      → (persisted platform.keys platform.files paths lat made disk).0 ≡ Hierarchy.ok h
      → IsDefault h
  persisted-IsDefault paths lat (Hierarchy.err x) disk h e = cc
  persisted-IsDefault paths lat (Hierarchy.ok made) disk h e =
      written-IsDefault made.root_cert made.intermediate_cert h made.intermediate_key lat
        (persist platform.keys platform.files paths made disk).0 e

  loaded-IsDefault :
      (paths : CaHierarchyFiles) (lat : ℤ) (disk : Disk platform) (h : ServerAuthority platform)
      → load_authority platform.keys platform.files paths lat disk ≡ Hierarchy.ok h
      → IsDefault h
  loaded-IsDefault paths lat disk h e =
      let (root, int, key, same, held) =
        loads-Holds platform.keys platform.files paths lat disk h e in
      ap (λ (a : ServerAuthority platform). a.policy) same

  initialized-IsDefault :
      (now : ℤ) (root_drawn int_drawn : Option platform.keys.Key) (dir : Str) (lat : ℤ)
      (disk : Disk platform) (h : ServerAuthority platform)
      → (load_or_initialize_authority platform.keys platform.files now root_drawn int_drawn dir lat
          disk).0
        ≡ Hierarchy.ok h
      → IsDefault h
  unfolding load_or_initialize_authority generate_and_persist_authority
  initialized-IsDefault now root_drawn int_drawn dir lat disk h e =
      let ca_dir = platform.files.join dir (codes "ca") in
      let paths = default_ca_hierarchy_files platform.keys platform.files ca_dir in
      let made = platform.files.mkdir_all ca_dir owner_only disk in
      elim (Bool-cases made.0) [
        | inr f ↦ cc (rw f at e)
        | inl f ↦ elim (Bool-cases (files_exist platform.keys platform.files paths made.1)) [
          | inl g ↦ loaded-IsDefault paths lat made.1 h (unfold load_authority in rw (f, g) at e)
          | inr g ↦
              persisted-IsDefault paths lat (generate platform.keys now root_drawn int_drawn) made.1
                h (rw (f, g) at e)
        ]
      ]

  -- The policy that the configuration asks for.
  abbrev pub permitted : AppConfig → PolicyEngine
  permitted cfg = record new_default_policy_engine {
    allow_internal_domains = cfg.allow_internal_domains || cfg.skip_challenge_validation;
  }

  adjusted-permitted :
      (cfg : AppConfig) (h : ServerAuthority platform)
      → IsDefault h
      → (adjusted platform cfg h).policy ≡ permitted cfg
  unfolding adjusted new_default_policy_engine
  adjusted-permitted cfg h e =
      elim (Bool-cases (cfg.allow_internal_domains || cfg.skip_challenge_validation)) [
        | inl f ↦ rw (f, e) refl
        | inr f ↦ rw (f, e) refl
      ]

  wired-permitted :
      (cfg : AppConfig) (draws : Draws platform.keys.Key) (storage : Backend platform)
      (closer : Bool) (h : ServerAuthority platform) (app : ServerApp platform)
      → IsDefault h
      → wired platform cfg draws storage closer h ≡ ready app
      → app.authority.policy ≡ permitted cfg
  unfolding wired
  wired-permitted cfg draws storage closer h app d e = elim (Option-cases h.intermediate_cert) [
    | inl f ↦ cc (rw f at e)
    | inr (int, f) ↦
        let made : _ ≡ ready app = rw f at e in
        ap (λ (a : ServerApp platform). a.authority.policy) (sym (ready_injective made))
        ∙ adjusted-permitted cfg (record h { intermediate_cert = some int }) d
  ]

  parts-permitted :
      (cfg : AppConfig) (draws : Draws platform.keys.Key) (storage : Backend platform)
      (loaded : Hierarchy.Result (ServerAuthority platform) × Disk platform)
      (app : ServerApp platform)
      → ((h : ServerAuthority platform) → loaded.0 ≡ Hierarchy.ok h → IsDefault h)
      → (persistent_parts platform cfg draws storage loaded).0 ≡ ready app
      → app.authority.policy ≡ permitted cfg
  unfolding persistent_parts
  parts-permitted cfg draws storage (Hierarchy.err x, disk) app d e = cc
  parts-permitted cfg draws storage (Hierarchy.ok h, disk) app d e =
      wired-permitted cfg draws storage _ h app (d h refl) e

  opened-permitted :
      (cfg : AppConfig) (draws : Draws platform.keys.Key)
      (opened : Storage.Result platform.engine.Db) (disk : Disk platform) (app : ServerApp platform)
      → (opened_database platform cfg draws opened disk).0 ≡ ready app
      → app.authority.policy ≡ permitted cfg
  unfolding opened_database
  opened-permitted cfg draws (Storage.err x) disk app e = cc
  opened-permitted cfg draws (Storage.ok db) disk app e =
      unfold persistent_parts in
      parts-permitted cfg draws (sqlite db) _ app
        (initialized-IsDefault (pos draws.now) draws.root_key draws.intermediate_key cfg.data_dir
          latency disk)
        e

  persistent-permitted :
      (cfg : AppConfig) (draws : Draws platform.keys.Key) (disk : Disk platform)
      (app : ServerApp platform)
      → (persistent_app platform cfg draws disk).0 ≡ ready app
      → app.authority.policy ≡ permitted cfg
  unfolding persistent_app
  persistent-permitted cfg draws disk app e =
      let made = platform.files.mkdir_all cfg.data_dir owner_only disk in
      elim (Bool-cases made.0) [
        | inr f ↦ cc (rw f at e)
        | inl f ↦
            unfold opened_database in
            opened-permitted cfg draws
              (new_sqlite_storage platform.engine
                (platform.files.join cfg.data_dir (codes "certa.db")))
              made.1 app (rw f at e)
      ]

  made-permitted :
      (cfg : AppConfig) (draws : Draws platform.keys.Key)
      (made : Hierarchy.Result (ServerAuthority platform)) (app : ServerApp platform)
      → ((h : ServerAuthority platform) → made ≡ Hierarchy.ok h → IsDefault h)
      → ephemeral_authority platform cfg draws made ≡ ready app
      → app.authority.policy ≡ permitted cfg
  unfolding ephemeral_authority
  made-permitted cfg draws (Hierarchy.err x) app d e = cc
  made-permitted cfg draws (Hierarchy.ok h) app d e =
      wired-permitted cfg draws (in_memory new_memory_storage) false h app (d h refl) e

  ephemeral-permitted :
      (cfg : AppConfig) (draws : Draws platform.keys.Key) (app : ServerApp platform)
      → ephemeral_app platform cfg draws ≡ ready app
      → app.authority.policy ≡ permitted cfg
  unfolding ephemeral_app
  ephemeral-permitted cfg draws app e = elim (Option-cases draws.intermediate_key) [
    | inl f ↦ cc (rw f at e)
    | inr (key, f) ↦
        unfold ephemeral_authority in
        made-permitted cfg draws _ app
          (λ h g.
            new_authority-policy platform.keys (pos draws.now) draws.root_key
              (platform.keys.public_key key) (new_hsm_signer (some key) latency) h g)
          (rw f at e)
  ]

  -- A server that starts, with or without a data directory, with a new or a loaded authority, issues
  -- under the default policy, except that it allows internal names exactly if its configuration says
  -- so or says that challenges are not validated.
  pub started_policy :
      (cfg : AppConfig) (draws : Draws platform.keys.Key) (disk : Disk platform)
      (app : ServerApp platform)
      → (new_server_app platform cfg draws disk).0 ≡ ready app
      → app.authority.policy ≡ record new_default_policy_engine {
        allow_internal_domains = cfg.allow_internal_domains || cfg.skip_challenge_validation;
      }
  unfolding new_server_app completed
  started_policy cfg draws disk app e =
      elim (Bool-cases
        (not (is_empty cfg.data_dir) && not (str_eq cfg.data_dir (codes ":memory:")))) [
          | inl f ↦
              unfold persistent_app in
              persistent-permitted (completed cfg) draws disk app (rw f at e)
          | inr f ↦
              unfold ephemeral_app in ephemeral-permitted (completed cfg) draws app (rw f at e)
        ]
