-- ===== src/Config/Sources.antt =====
-- src/config.rs, src/config/nc.rs: the command line, the environment and the file.
pub mod Precedence
use notify_push.Common.{
  ℕ, List, [], ◌∷◌, Option, none, some, Bool, true, false, if◌then◌else◌, Result, ok, err, ◌>>=◌,
  map_err, ok_or, or, is_empty, usize_mod, ◌-◌, ◌==◌,
}
use notify_push.Common.Text.{Str, codes, str_eq}
use notify_push.Common.Decimal.{from_str}
use notify_push.Error.{ConfigError}
use notify_push.Config.{
  Outside, Opt, Config, PartialConfig, FileConfig, TlsConfig, try_from, u16_max,
}

-- `Option::map`, then `transpose`.
abbrev pub transpose_map {ℓ} : {A B E : Type ℓ} → (A → Result B E) → Option A → Result (Option B) E
transpose_map f none = ok none
transpose_map f (some a) = do b ← f a; ok (some b)

abbrev pub into_list {ℓ} : {A : Type ℓ} → Option A → List A
into_list none = []
into_list (some a) = a ∷ []

-- `Option::map`.
abbrev pub map_option {ℓ} : {A B : Type ℓ} → (A → B) → Option A → Option B
map_option f none = none
map_option f (some a) = some (f a)

unfoldable pub both : Option Str → Option Str → Option TlsConfig
both (some cert) (some key) = some (record { key = key; cert = cert })
both _ _ = none

module _ {X : Type 0} (out : Outside X) where
  unfoldable pub parse_var :
      {T : Type 0} → (Str → Result T X) → Str → Result (Option T) (ConfigError X)
  parse_var from_str name = map_err (ConfigError.env name) (transpose_map from_str (out.var name))

  -- `FromStr` of an integer type and of a path.
  unfoldable pub read_number : ℕ → Str → Result ℕ X
  read_number most s = ok_or (from_str most s) (out.number_error s)

  unfoldable pub read_path : Str → Result Str X
  read_path s = ok s

  unfoldable pub from_env : Result (PartialConfig out) (ConfigError X)
  unfolding parse_var read_number read_path both
  from_env = do
    database ← parse_var out.read_database (codes "DATABASE_URL")
    redis ← parse_var out.read_connection (codes "REDIS_URL")
    port ← parse_var (read_number u16_max) (codes "PORT")
    metrics_port ← parse_var (read_number u16_max) (codes "METRICS_PORT")
    metrics_socket ← parse_var read_path (codes "METRICS_SOCKET_PATH")
    bind ← parse_var out.read_ip (codes "BIND")
    tls_cert ← parse_var read_path (codes "TLS_CERT")
    tls_key ← parse_var read_path (codes "TLS_KEY")
    max_debounce_time ← parse_var (read_number (usize_mod - 1)) (codes "MAX_DEBOUNCE_TIME")
    max_connection_time ← parse_var (read_number (usize_mod - 1)) (codes "MAX_CONNECTION_TIME")
    ok (record {
      database = database;
      database_prefix = out.var (codes "DATABASE_PREFIX");
      redis = into_list redis;
      nextcloud_url = out.var (codes "NEXTCLOUD_URL");
      port = port;
      metrics_port = metrics_port;
      metrics_socket = metrics_socket;
      log_level = out.var (codes "LOG");
      bind = bind;
      socket = out.var (codes "SOCKET_PATH");
      socket_permissions = out.var (codes "SOCKET_PERMISSIONS");
      allow_self_signed =
          map_option (λ val. val == codes "true") (out.var (codes "ALLOW_SELF_SIGNED"));
      no_ansi = map_option (λ val. val == codes "true") (out.var (codes "NO_ANSI"));
      tls = both tls_cert tls_key;
      max_debounce_time = max_debounce_time;
      max_connection_time = max_connection_time;
    })

  unfoldable pub default : PartialConfig out
  default = record {
    database = none;
    database_prefix = none;
    redis = [];
    nextcloud_url = none;
    port = none;
    metrics_port = none;
    metrics_socket = none;
    log_level = none;
    bind = none;
    socket = none;
    socket_permissions = none;
    allow_self_signed = none;
    no_ansi = none;
    tls = none;
    max_debounce_time = none;
    max_connection_time = none;
  }

  -- `parse` is the parser of the crate, or the one that reads the other files of the folder too.
  unfoldable pub parse_config_file :
      (Bool → Str → Result (FileConfig out.Connection) X)
      → Str
      → Bool
      → Result (PartialConfig out) (ConfigError X)
  unfolding default
  parse_config_file parse path glob = do
    config ← map_err ConfigError.parse (parse glob path)
    database ← map_err ConfigError.invalid_database (out.read_database config.database_url)
    ok (record default {
      database = some database;
      database_prefix = some config.database_prefix;
      nextcloud_url = some config.nextcloud_url;
      redis = config.redis;
    })

  abbrev flag : Bool → Option Bool
  flag b = if b then some true else none

  unfoldable pub partial_from_opt : Opt out → PartialConfig out
  unfolding both
  partial_from_opt opt = record {
    database = opt.database_url;
    database_prefix = opt.database_prefix;
    redis = opt.redis_url;
    nextcloud_url = opt.nextcloud_url;
    port = opt.port;
    metrics_port = opt.metrics_port;
    metrics_socket = opt.metrics_socket_path;
    log_level = opt.log_level;
    bind = opt.bind;
    socket = opt.socket_path;
    socket_permissions = opt.socket_permissions;
    allow_self_signed = flag opt.allow_self_signed;
    no_ansi = flag opt.no_ansi;
    tls = both opt.tls_cert opt.tls_key;
    max_debounce_time = opt.max_debounce_time;
    max_connection_time = opt.max_connection_time;
  }

  unfoldable pub merge : PartialConfig out → PartialConfig out → PartialConfig out
  merge c fallback = record {
    database = or c.database fallback.database;
    database_prefix = or c.database_prefix fallback.database_prefix;
    redis = if is_empty c.redis then fallback.redis else c.redis;
    nextcloud_url = or c.nextcloud_url fallback.nextcloud_url;
    port = or c.port fallback.port;
    metrics_port = or c.metrics_port fallback.metrics_port;
    metrics_socket = or c.metrics_socket fallback.metrics_socket;
    log_level = or c.log_level fallback.log_level;
    bind = or c.bind fallback.bind;
    socket = or c.socket fallback.socket;
    socket_permissions = or c.socket_permissions fallback.socket_permissions;
    allow_self_signed = or c.allow_self_signed fallback.allow_self_signed;
    no_ansi = or c.no_ansi fallback.no_ansi;
    tls = or c.tls fallback.tls;
    max_debounce_time = or c.max_debounce_time fallback.max_debounce_time;
    max_connection_time = or c.max_connection_time fallback.max_connection_time;
  }

  unfoldable pub from_file :
      (Bool → Str → Result (FileConfig out.Connection) X)
      → Opt out
      → Result (PartialConfig out) (ConfigError X)
  unfolding default parse_config_file
  from_file parse opt = elim opt.config_file [
    | none ↦ ok default
    | some path ↦ parse_config_file parse path opt.glob_config
  ]

  unfoldable pub from_opt :
      (Bool → Str → Result (FileConfig out.Connection) X)
      → Opt out
      → Result (Config out) (ConfigError X)
  unfolding from_file from_env merge partial_from_opt
  from_opt parse opt = do
    from_config ← from_file parse opt
    env ← from_env
    try_from out (merge (merge (partial_from_opt opt) env) from_config)
