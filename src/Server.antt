-- ===== src/Server.antt =====
-- cmd/certa-server: the configuration that main reads, and the defaults that NewServerApp fills in.
-- The rest is in the child modules.
pub mod Routes
pub mod Downloads
pub mod Bootstrap
pub mod Lifecycle
pub mod Docs
use go_certa.Prelude.{
  ◌*◌, ℤ, pos, is_pos, Str, codes, str_eq, trim_suffix, Bool, true, ◌||◌, List, is_empty, any,
  if◌then◌else◌,
}
use go_certa.Ca.Types.{hour}

-- The audit writer is left out: NewServerApp always ends up with one.
pub record AppConfig : Type 0 where
  pub listen_addr : Str
  pub base_url : Str
  pub data_dir : Str
  pub skip_challenge_validation : Bool
  pub allow_internal_domains : Bool
  pub enable_swagger : Bool
  pub crl_interval : ℤ
  pub crl_validity : ℤ

-- `if s == "" { s = given }`
abbrev pub default_to : Str → Str → Str
default_to s given = if is_empty s then given else s

-- The configuration that main builds from the environment and the arguments after the program's name.
unfoldable pub main_config : (Str → Str) → List Str → AppConfig
main_config getenv args = record {
  listen_addr = default_to (getenv (codes "CERTA_LISTEN_ADDR")) (codes ":8080");
  base_url = default_to (getenv (codes "CERTA_BASE_URL")) (codes "http://localhost:8080");
  data_dir = default_to (getenv (codes "CERTA_DATA_DIR")) (codes "./data");
  skip_challenge_validation =
      str_eq (getenv (codes "CERTA_SKIP_CHALLENGE_VALIDATION")) (codes "true")
      || any (λ arg. str_eq arg (codes "--skip-challenge-validation")) args;
  allow_internal_domains =
      str_eq (getenv (codes "CERTA_ALLOW_INTERNAL_DOMAINS")) (codes "true")
      || any (λ arg. str_eq arg (codes "--allow-internal-domains")) args;
  enable_swagger =
      str_eq (getenv (codes "CERTA_ENABLE_SWAGGER")) (codes "true")
      || str_eq (getenv (codes "CERTA_DEBUG")) (codes "true")
      || any (λ arg. str_eq arg (codes "--swagger") || str_eq arg (codes "--debug")) args;
  crl_interval = pos (1 * hour);
  crl_validity = pos (24 * hour);
}

-- The defaults, and the base URL without a slash at its end.
unfoldable pub completed : AppConfig → AppConfig
completed cfg = record cfg {
  listen_addr = default_to cfg.listen_addr (codes ":8080");
  base_url = trim_suffix (default_to cfg.base_url (codes "http://localhost:8080")) (codes "/");
  crl_interval = if is_pos cfg.crl_interval then cfg.crl_interval else pos (1 * hour);
  crl_validity = if is_pos cfg.crl_validity then cfg.crl_validity else pos (24 * hour);
}
