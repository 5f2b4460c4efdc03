-- ===== src/Examples/CommandLine.antt =====
-- src/config.rs: a command line without an environment and a file.
use notify_push.Common.{◌≡◌, ◌⊎◌, refl, [], ◌∷◌, none, some, Bool, true, false, Result, ok, err}
use notify_push.Common.Text.{Str, codes}
use notify_push.Config.{Config, Opt, PartialConfig, FileConfig, try_from}
use notify_push.Config
use notify_push.Config.Sources.{from_opt, from_file, from_env, partial_from_opt}
use notify_push.Config.Sources.Precedence.{Chosen, first_given, from_opt-Chosen}
use notify_push.Examples.Options.{outside, taken}

abbrev options : Opt outside
options = record {
  database_url = some (codes "sqlite::memory:");
  redis_url = codes "redis://cache" ∷ [];
  database_prefix = none;
  nextcloud_url = some (codes "http://cloud");
  port = none;
  metrics_port = some 9000;
  bind = none;
  socket_path = none;
  socket_permissions = none;
  metrics_socket_path = none;
  allow_self_signed = true;
  config_file = none;
  version = false;
  log_level = none;
  dump_config = false;
  no_ansi = false;
  glob_config = false;
  tls_cert = none;
  tls_key = none;
  max_debounce_time = some 30;
  max_connection_time = none;
}

abbrev no_file : Bool → Str → Result (FileConfig Str) Str
no_file glob path = err path

abbrev made : Config outside
made = record taken {
  bind = Config.Bind.tcp (codes "0.0.0.0") 7867;
  allow_self_signed = true;
  max_debounce_time = 30;
}

from_opt-made : from_opt outside no_file options ≡ ok made
unfolding from_opt try_from
from_opt-made = refl

from_opt-Chosen_example :
    (file env : PartialConfig outside) × (from_file outside no_file options ≡ ok file)
    × (from_env outside ≡ ok env)
    × Chosen outside (partial_from_opt outside options ∷ env ∷ file ∷ []) made
    × ((options.tls_cert ≡ none) ⊎ (options.tls_key ≡ none)
        → made.tls ≡ first_given (env.tls ∷ file.tls ∷ []))
from_opt-Chosen_example = from_opt-Chosen outside no_file options made from_opt-made
