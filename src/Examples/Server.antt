-- ===== src/Examples/Server.antt =====
-- cmd/certa-server on a small platform.
use go_certa.Prelude.{
  Str, codes, str_eq, lookup, true, false, ◌||◌, ◌++◌, Option, none, some, List, [], ◌∷◌, All, ◌≡◌,
  refl, ap, if◌then◌else◌,
}
use go_certa.Audit
use go_certa.Audit.{log_event, new_chain_audit_logger}
use go_certa.Crl.{new_crl_generator, new_crl_service}
use go_certa.Ca.Policy.{new_default_policy_engine}
use go_certa.Ca.Authority.{compute_subject_key_id}
use go_certa.Ca.Hierarchy.Ceremony.{generate}
use go_certa.Ca.KeyStore.{load_or_initialize_authority, persist}
use go_certa.Storage.Sqlite.{new_sqlite_storage}
use go_certa.Server.{AppConfig, main_config, completed}
use go_certa.Server.Routes.{Mux, Endpoint, routes, matches, Documented, ocsp_get_unrouted}
use go_certa.Server.Bootstrap.{
  Platform, Draws, ServerApp, ready, Disk, latency, sqlite, new_server_app,
}
use go_certa.Server.Bootstrap.Restarted.{CanStart, restart_keeps_authority}
use go_certa.Server.Bootstrap.Permitted.{started_policy}
use go_certa.Examples.Disk.{toy_keys, toy_files, toy_keys-Decodes, toy_files-Keeps}
use go_certa.Examples.Engine.{list_engine, empty_db}

abbrev platform : Platform
platform = record {
  keys = toy_keys;
  files = toy_files;
  engine = list_engine;
  hashes = record { digest = λ s. s; format_time = λ t. t ∷ [] };
  open_append = λ path mode disk. (true, disk);
  common_name = λ cert. cert;
}

-- The environment skips validation.
abbrev cfg : AppConfig
cfg =
    main_config
      (λ name. if str_eq name (codes "CERTA_SKIP_CHALLENGE_VALIDATION") then codes "true" else [])
      []

abbrev draws : Draws toy_keys.Key
draws = record { root_key = some 7; intermediate_key = some 9; now = 5; event_id = some (1 ∷ []) }

abbrev entry : Audit.Entry
entry = record {
  random = some (1 ∷ []);
  now = 5;
  action = codes "KEY_ACCESS";
  actor = codes "system";
  resource = 7 ∷ codes "Go-Certa Issuing Intermediate CA 1";
  status = codes "SUCCESS";
  metadata =
      (codes "root_subject", 7 ∷ codes "Go-Certa Root CA G1")
      ∷ (codes "algorithm", codes "RSA-2048")
      ∷ [];
}

-- What the first start makes.
abbrev app : ServerApp platform
app = record {
  config = completed cfg;
  storage = sqlite empty_db;
  authority = record {
    root_cert = 7 ∷ codes "Go-Certa Root CA G1";
    intermediate_cert = some (7 ∷ codes "Go-Certa Issuing Intermediate CA 1");
    signer = record { key = some 9; latency = latency };
    policy = record new_default_policy_engine { allow_internal_domains = true };
  };
  audit = (log_event platform.hashes entry (new_chain_audit_logger true)).1;
  crl_service =
      new_crl_service (new_crl_generator (completed cfg).crl_validity) (completed cfg).crl_interval;
  audit_closer = true;
}

abbrev disk : Disk platform
disk = (new_server_app platform cfg draws []).1

app_started : new_server_app platform cfg draws [] ≡ (ready app, disk)
unfolding new_server_app completed main_config str_eq new_sqlite_storage
    load_or_initialize_authority lookup generate compute_subject_key_id persist
app_started = refl

can_start :
    CanStart platform toy_keys-Decodes toy_files-Keeps
      (λ path other content mode d e. e)
      (completed cfg)
      disk
unfolding new_sqlite_storage
can_start = record { db = empty_db; makes_data_dir = refl; makes_ca_dir = refl; opens = refl }

-- The second start would draw other keys.
abbrev redraws : Draws toy_keys.Key
redraws = record { root_key = some 70; intermediate_key = none; now = 6; event_id = none }

restart_keeps_authority_example :
    (again : ServerApp platform) × ((new_server_app platform cfg redraws disk).0 ≡ ready again)
    × (again.authority ≡ app.authority)
unfolding main_config str_eq
restart_keeps_authority_example =
    restart_keeps_authority platform toy_keys-Decodes toy_files-Keeps
      (λ path other content mode d e. e) cfg draws redraws [] disk app refl app_started can_start

started_policy_example : app.authority.policy ≡ record new_default_policy_engine {
  allow_internal_domains = cfg.allow_internal_domains || cfg.skip_challenge_validation;
}
started_policy_example = started_policy platform cfg draws [] app (ap (λ r. r.0) app_started)

first_match : List (Str × Endpoint) → Str → Option Endpoint
first_match [] path = none
first_match ((pattern, e) ∷ rs) path =
    let rest = first_match rs path in if matches path pattern then some e else rest

unmatched :
    (rs : List (Str × Endpoint)) (path : Str)
    → All (λ r. matches path r.0 ≡ false) rs
    → first_match rs path ≡ none
unfolding first_match
unmatched [] path h = refl
unmatched ((pattern, e) ∷ rs) path h = rw h.0 (unmatched rs path h.1)

matched :
    (before after : List (Str × Endpoint)) (pattern path : Str) (e : Endpoint)
    → matches path pattern ≡ true
    → All (λ r. matches path r.0 ≡ false) (before ++ after)
    → first_match (before ++ ((pattern, e) ∷ after)) path ≡ some e
unfolding first_match
matched [] after pattern path e p h = rw p refl
matched ((other, x) ∷ before) after pattern path e p h =
    rw h.0 (matched before after pattern path e p h.1)

abbrev mux : Mux
mux = record { handler = first_match }

mux-Documented : Documented mux
mux-Documented = record { unmatched = unmatched; matched = matched }

ocsp_get_unrouted_example : mux.handler (routes true) (codes "/ocsp/" ++ codes "MEMwQTA") ≡ none
ocsp_get_unrouted_example = ocsp_get_unrouted mux mux-Documented true (codes "MEMwQTA")
