-- ===== src/Examples/Options.antt =====
-- src/config.rs, src/event.rs, src/storage_mapping.rs, src/redis.rs: concrete inputs, and instances.
use notify_push.Common.{
  ℕ, ◌≡◌, refl, [], ◌∷◌, none, some, false, ok, err, ok_or, nat_eq, arith, contains,
}
use notify_push.Common.Text.{Str, codes, str_eq}
use notify_push.Common.Decimal.{to_string, from_str, from_str_radix, octal}
use notify_push.Config.{Outside, Config, PartialConfig, try_from, read_permissions, u32_max}
use notify_push.Config.Permissions.{read_permissions-octal}
use notify_push.Config
use notify_push.Event.{Msg, Decoder, channels}
use notify_push.Event
use notify_push.Event.Channels.{Answers, try_from-Answers}

abbrev pub outside : Outside Str
outside = record {
  Database = Str;
  Connection = Str;
  Ip = Str;
  read_database = λ s. ok s;
  read_connection = λ s. ok s;
  read_ip = λ s. ok s;
  unspecified = codes "0.0.0.0";
  number_error = λ s. s;
  var = λ s. none;
}

abbrev given : PartialConfig outside
given = record {
  database = some (codes "sqlite::memory:");
  database_prefix = none;
  redis = codes "redis://cache" ∷ [];
  nextcloud_url = some (codes "http://cloud");
  port = none;
  metrics_port = some 9000;
  metrics_socket = none;
  log_level = none;
  bind = none;
  socket = some (codes "/run/push.sock");
  socket_permissions = some (codes "0600");
  allow_self_signed = none;
  no_ansi = none;
  tls = none;
  max_debounce_time = none;
  max_connection_time = none;
}

abbrev other : PartialConfig outside
other = record given { port = some 7000; nextcloud_url = none; redis = [] }

abbrev pub taken : Config outside
taken = record {
  database = codes "sqlite::memory:";
  database_prefix = codes "oc_";
  redis = codes "redis://cache" ∷ [];
  nextcloud_url = codes "http://cloud/";
  metrics_bind = some (Config.Bind.tcp (codes "0.0.0.0") 9000);
  log_level = codes "warn";
  bind = Config.Bind.unix (codes "/run/push.sock") 384;
  allow_self_signed = false;
  no_ansi = false;
  tls = none;
  max_debounce_time = 15;
  max_connection_time = 0;
}

try_from-given : try_from outside given ≡ ok taken
unfolding try_from read_permissions from_str_radix
try_from-given = refl

read_permissions-octal_example : read_permissions outside (octal 416) ≡ ok 416
read_permissions-octal_example = read_permissions-octal outside 416 (omega arith)

-- Every payload but that of a test cookie is refused.
abbrev pub decoder : Decoder ℕ Str
decoder = record {
  storage_update = λ p. err [];
  group_update = λ p. err [];
  share_create = λ p. err [];
  test_cookie = λ p. ok_or (from_str u32_max p) p;
  activity = λ p. err [];
  notification = λ p. err [];
  pre_auth = λ p. err [];
  custom = λ p. err [];
  config = λ p. err [];
  query = λ p. err [];
  signal = λ p. err [];
}

abbrev cookie_msg : Msg
cookie_msg = record { channel_name = codes "notify_test_cookie"; payload = codes "12" }

try_from-Answers_example :
    Answers {V = ℕ} {X = Str} cookie_msg.channel_name
      (contains channels cookie_msg.channel_name)
      (Event.try_from decoder cookie_msg)
try_from-Answers_example = try_from-Answers decoder cookie_msg

-- The octal 0600 is printed as the decimal 384.
debug-taken :
    Config.debug outside (λ addr port. addr) (λ s. s) taken.bind
    ≡ codes "Unix(/run/push.sock, 0384)"
unfolding Config.debug to_string
debug-taken = refl
