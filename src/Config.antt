-- ===== src/Config.antt =====
-- src/config.rs, src/config/nc.rs: where the options come from, and the configuration that they
-- make. Paths are texts.
pub mod Sources
pub mod Permissions
use notify_push.Common.{
  ℕ, List, [], ◌∷◌, ◌++◌, Option, none, some, Bool, true, false, not, ◌&&◌, nat_eq, ◌==◌,
  if◌then◌else◌, Result, ok, err, ◌>>=◌, map_err, ok_or, ok_value, or, unwrap_or, is_empty, length,
  usize_mod, ◌-◌, map,
}
use notify_push.Common.Text.{Str, codes, str_eq, starts_with, ends_with}
use notify_push.Common.Decimal.{to_string, from_str, from_str_radix}
use notify_push.Error.{ConfigError}

abbrev pub u16_max : ℕ
u16_max = 65535

abbrev pub u32_max : ℕ
u32_max = 4294967295

-- What other crates read: connection options, addresses, the file; and the process environment.
-- `var` is `std::env::var(name).ok()`. An address of a file's configuration is its database url.
pub record Outside (X : Type 0) : Type 1 where
  pub Database : Type 0
  pub Connection : Type 0
  pub Ip : Type 0
  pub read_database : Str → Result Database X
  pub read_connection : Str → Result Connection X
  pub read_ip : Str → Result Ip X
  pub unspecified : Ip
  pub number_error : Str → X
  pub var : Str → Option Str

pub record TlsConfig : Type 0 where
  pub key : Str
  pub cert : Str

-- `nextcloud_config_parser::Config`.
pub record FileConfig (Connection : Type 0) : Type 0 where
  pub database_url : Str
  pub database_prefix : Str
  pub nextcloud_url : Str
  pub redis : List Connection

-- `push`, of a slash that is missing.
unfoldable pub with_slash : Str → Str
with_slash url = if not (ends_with url b'/') then url ++ codes "/" else url

module _ {X : Type 0} (out : Outside X) where
  pub record Opt : Type 0 where
    pub database_url : Option out.Database
    pub redis_url : List out.Connection
    pub database_prefix : Option Str
    pub nextcloud_url : Option Str
    pub port : Option ℕ
    pub metrics_port : Option ℕ
    pub bind : Option out.Ip
    pub socket_path : Option Str
    pub socket_permissions : Option Str
    pub metrics_socket_path : Option Str
    pub allow_self_signed : Bool
    pub config_file : Option Str
    pub version : Bool
    pub log_level : Option Str
    pub dump_config : Bool
    pub no_ansi : Bool
    pub glob_config : Bool
    pub tls_cert : Option Str
    pub tls_key : Option Str
    pub max_debounce_time : Option ℕ
    pub max_connection_time : Option ℕ

  pub data Bind : Type 0 where
    tcp : out.Ip → ℕ → Bind
    unix : Str → ℕ → Bind

  pub record Config : Type 0 where
    pub database : out.Database
    pub database_prefix : Str
    pub redis : List out.Connection
    pub nextcloud_url : Str
    pub metrics_bind : Option Bind
    pub log_level : Str
    pub bind : Bind
    pub allow_self_signed : Bool
    pub no_ansi : Bool
    pub tls : Option TlsConfig
    pub max_debounce_time : ℕ
    pub max_connection_time : ℕ

  pub record PartialConfig : Type 0 where
    pub database : Option out.Database
    pub database_prefix : Option Str
    pub redis : List out.Connection
    pub nextcloud_url : Option Str
    pub port : Option ℕ
    pub metrics_port : Option ℕ
    pub metrics_socket : Option Str
    pub log_level : Option Str
    pub bind : Option out.Ip
    pub socket : Option Str
    pub socket_permissions : Option Str
    pub allow_self_signed : Option Bool
    pub no_ansi : Option Bool
    pub tls : Option TlsConfig
    pub max_debounce_time : Option ℕ
    pub max_connection_time : Option ℕ

  -- `Display` and `Debug`, over the printing of a socket address and the `Debug` of a text.
  unfoldable pub display : (out.Ip → ℕ → Str) → Bind → Str
  display show_addr (tcp addr port) = show_addr addr port
  display show_addr (unix path permissions) = path

  unfoldable pub debug : (out.Ip → ℕ → Str) → (Str → Str) → Bind → Str
  debug show_addr quote (tcp addr port) = codes "Tcp(" ++ show_addr addr port ++ codes ")"
  debug show_addr quote (unix path permissions) =
      codes "Unix("
      ++ quote path
      ++ codes ", "
      ++ quote (codes "0" ++ to_string permissions)
      ++ codes ")"

  -- The closure on the permissions. `len` counts bytes.
  unfoldable pub read_permissions : Str → Result ℕ (ConfigError X)
  read_permissions perm =
      if not (length perm == 4) && not (starts_with perm (codes "0"))
      then err (ConfigError.bad_permissions perm none)
      else map_err (λ e. ConfigError.bad_permissions perm (some e))
          (ok_or (from_str_radix 8 u32_max perm) (out.number_error perm))

  unfoldable pub permissions_of : Option Str → Result ℕ (ConfigError X)
  permissions_of none = ok 438
  permissions_of (some perm) = read_permissions perm

  unfoldable pub bind_of : Option Str → ℕ → Option out.Ip → Option ℕ → Bind
  bind_of (some socket) socket_permissions bind port = unix socket socket_permissions
  bind_of none socket_permissions bind port =
      tcp (unwrap_or bind out.unspecified) (unwrap_or port 7867)

  unfoldable pub metrics_bind_of : Option Str → ℕ → Option out.Ip → Option ℕ → Option Bind
  metrics_bind_of (some socket) socket_permissions bind port = some (unix socket socket_permissions)
  metrics_bind_of none socket_permissions bind (some port) =
      some (tcp (unwrap_or bind out.unspecified) port)
  metrics_bind_of none socket_permissions bind none = none

  unfoldable pub try_from : PartialConfig → Result Config (ConfigError X)
  unfolding permissions_of bind_of metrics_bind_of with_slash
  try_from config = do
    socket_permissions ← permissions_of config.socket_permissions
    nextcloud_url ← ok_or config.nextcloud_url ConfigError.no_nextcloud
    database ← ok_or config.database ConfigError.no_database
    ok (record {
      database = database;
      database_prefix = unwrap_or config.database_prefix (codes "oc_");
      redis = config.redis;
      nextcloud_url = with_slash nextcloud_url;
      metrics_bind =
          metrics_bind_of config.metrics_socket socket_permissions config.bind config.metrics_port;
      log_level = unwrap_or config.log_level (codes "warn");
      bind = bind_of config.socket socket_permissions config.bind config.port;
      allow_self_signed = unwrap_or config.allow_self_signed false;
      no_ansi = unwrap_or config.no_ansi false;
      tls = config.tls;
      max_debounce_time = unwrap_or config.max_debounce_time 15;
      max_connection_time = unwrap_or config.max_connection_time 0;
    })
