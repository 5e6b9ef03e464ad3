-- ===== src/Server/Bootstrap.antt =====
-- cmd/certa-server/app.go: NewServerApp. The parts that it only wires together, and whose constructors do
-- not fail here, are left to their own modules: the worker pool, the OCSP responder, the ACME server
-- and the EST handler. What it takes from the libraries is the record Platform.
pub mod Restarted
pub mod Permitted
use go_certa.Prelude.{
  ℕ, ◌*◌, ◌^◌, ℤ, pos, Str, codes, str_eq, Bool, true, false, not, ◌&&◌, ◌||◌, Option, none, some,
  [], ◌∷◌, ◌≡◌, is_empty, if◌then◌else◌,
}
use go_certa.Audit
use go_certa.Audit.{ChainAuditLogger, new_chain_audit_logger, log_event}
use go_certa.Ca.Hierarchy
use go_certa.Ca.Hierarchy.{KeyLibrary, HierarchyError, Hierarchy, panics}
use go_certa.Ca.Hierarchy.Ceremony.{new_authority}
use go_certa.Ca.KeyStore.{Files, owner_only, owner_writes, load_or_initialize_authority}
use go_certa.Crl
use go_certa.Crl.{new_crl_generator, new_crl_service}
use go_certa.Server.{AppConfig, completed}
use go_certa.Signer.MockHsm.{HsmSigner, new_hsm_signer}
use go_certa.Storage
use go_certa.Storage.{Error}
use go_certa.Storage.Memory.{MemoryStorage, new_memory_storage}
use go_certa.Storage.Sqlite.{new_sqlite_storage}
use go_certa.Storage.Sqlite.Driver.{Engine}

pub record Platform : Type 1 where
  pub keys : KeyLibrary
  pub files : Files
  pub engine : Engine
  pub hashes : Audit.Primitives
  -- os.OpenFile for appending: whether it succeeded.
  pub open_append : Str → ℕ → files.Disk → Bool × files.Disk
  pub common_name : keys.Certificate → Str

-- The keys that are drawn in this run, the clock and the random bytes of the first event.
pub record Draws (Key : Type 0) : Type 0 where
  pub root_key : Option Key
  pub intermediate_key : Option Key
  pub now : ℕ
  pub event_id : Option Str

pub data StartFailure : Type 0 where
  creating_data_dir creating_intermediate_key : StartFailure
  opening_storage : Error → StartFailure
  loading_authority : HierarchyError → StartFailure

pub data Started (A : Type 0) : Type 0 where
  ready : A → Started A
  refused : StartFailure → Started A

pub ready_injective : {A : Type 0} {a b : A} → ready a ≡ ready b → a ≡ b
ready_injective e = cc e

abbrev pub latency : ℤ
latency = pos (15 * 10 ^ 6)

module _ (platform : Platform) where
  abbrev pub Disk : Type 0
  Disk = platform.files.Disk

  -- The authority; in the memory-only mode too its signer is the HSM.
  abbrev pub ServerAuthority : Type 0
  ServerAuthority = Hierarchy platform.keys.Certificate (HsmSigner platform.keys.Key)

  pub data Backend : Type 0 where
    in_memory : MemoryStorage → Backend
    sqlite : platform.engine.Db → Backend

  pub record ServerApp : Type 0 where
    pub config : AppConfig
    pub storage : Backend
    pub authority : ServerAuthority
    pub audit : ChainAuditLogger
    pub crl_service : Crl.Service
    -- Whether the audit log goes to a file as well.
    pub audit_closer : Bool

  -- Internal names are allowed where the configuration says so, or where challenges are not validated.
  unfoldable pub adjusted : AppConfig → ServerAuthority → ServerAuthority
  adjusted cfg authority =
      if cfg.allow_internal_domains || cfg.skip_challenge_validation
      then record authority { policy = record authority.policy { allow_internal_domains = true } }
      else authority

  first_entry : Draws platform.keys.Key → platform.keys.Certificate → ServerAuthority → Audit.Entry
  first_entry draws intermediate authority = record {
    random = draws.event_id;
    now = draws.now;
    action = codes "KEY_ACCESS";
    actor = codes "system";
    resource = platform.common_name intermediate;
    status = codes "SUCCESS";
    metadata =
        (codes "root_subject", platform.common_name authority.root_cert)
        ∷ (codes "algorithm", codes "RSA-2048")
        ∷ [];
  }

  -- The rest, on the storage and the authority; a nil intermediate certificate panics.
  unfoldable pub wired :
      AppConfig → Draws platform.keys.Key → Backend → Bool → ServerAuthority → Started ServerApp
  unfolding adjusted first_entry
  wired cfg draws storage audit_closer authority = elim authority.intermediate_cert [
    | none ↦ refused (loading_authority panics)
    | some intermediate ↦ ready (record {
      config = cfg;
      storage = storage;
      authority = adjusted cfg authority;
      audit =
          (log_event platform.hashes (first_entry draws intermediate authority)
            (new_chain_audit_logger true)).1;
      crl_service = new_crl_service (new_crl_generator cfg.crl_validity) cfg.crl_interval;
      audit_closer = audit_closer;
    })
  ]

  -- The storage is open; then the authority and the audit file.
  unfoldable pub persistent_parts :
      AppConfig
      → Draws platform.keys.Key
      → Backend
      → Hierarchy.Result ServerAuthority × Disk
      → Started ServerApp × Disk
  unfolding wired
  persistent_parts cfg draws storage (Hierarchy.err e, disk) = (refused (loading_authority e), disk)
  persistent_parts cfg draws storage (Hierarchy.ok authority, disk) =
      let (opened, after) =
        platform.open_append (platform.files.join cfg.data_dir (codes "audit.log")) owner_writes
          disk in
      (wired cfg draws storage opened authority, after)

  unfoldable pub opened_database :
      AppConfig
      → Draws platform.keys.Key
      → Storage.Result platform.engine.Db
      → Disk
      → Started ServerApp × Disk
  unfolding persistent_parts
  opened_database cfg draws (Storage.err e) disk = (refused (opening_storage e), disk)
  opened_database cfg draws (Storage.ok db) disk = persistent_parts cfg draws (sqlite db) (
      load_or_initialize_authority platform.keys platform.files (pos draws.now) draws.root_key
        draws.intermediate_key cfg.data_dir latency disk)

  unfoldable pub persistent_app :
      AppConfig → Draws platform.keys.Key → Disk → Started ServerApp × Disk
  unfolding opened_database
  persistent_app cfg draws disk =
      let (made, ready_disk) = platform.files.mkdir_all cfg.data_dir owner_only disk in
      if not made
      then (refused creating_data_dir, ready_disk)
      else opened_database cfg draws
          (new_sqlite_storage platform.engine (platform.files.join cfg.data_dir (codes "certa.db")))
          ready_disk

  unfoldable pub ephemeral_authority :
      AppConfig → Draws platform.keys.Key → Hierarchy.Result ServerAuthority → Started ServerApp
  unfolding wired
  ephemeral_authority cfg draws (Hierarchy.err e) = refused (loading_authority e)
  ephemeral_authority cfg draws (Hierarchy.ok authority) =
      wired cfg draws (in_memory new_memory_storage) false authority

  unfoldable pub ephemeral_app : AppConfig → Draws platform.keys.Key → Started ServerApp
  unfolding ephemeral_authority
  ephemeral_app cfg draws = elim draws.intermediate_key [
    | none ↦ refused creating_intermediate_key
    | some key ↦ ephemeral_authority cfg draws (
        new_authority platform.keys (pos draws.now) draws.root_key (platform.keys.public_key key)
          (new_hsm_signer (some key) latency))
  ]

  unfoldable pub new_server_app :
      AppConfig → Draws platform.keys.Key → Disk → Started ServerApp × Disk
  unfolding persistent_app ephemeral_app
  new_server_app given draws disk =
      let cfg = completed given in
      if not (is_empty cfg.data_dir) && not (str_eq cfg.data_dir (codes ":memory:"))
      then persistent_app cfg draws disk
      else (ephemeral_app cfg draws, disk)
