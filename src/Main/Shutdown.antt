-- ===== src/Main/Shutdown.antt =====
-- src/main.rs: what holds when the process ends.
use notify_push.Common.{ℕ, ◌≡◌, List, [], ◌∷◌, ◌++◌, Option, none, some, Result, ok, nat_eq}
use notify_push.Common.Text.{Str, str_eq}
use notify_push.User.{user_eq}
use notify_push.Config.{Outside, TlsConfig, Bind, unix, Config}
use notify_push.Error.{Error}
use notify_push.Storage.{Clock}
use notify_push.App.{App, Crates}
use notify_push.App.Start.{Process, Settings, self_test}
use notify_push.App.Start
use notify_push.App.Serve.{FileSystem, Served, serve_at, end_of}
use notify_push.Main.{
  Report, serve_cancel, metrics_cancel, listen_cancel, Calls, Task, serves, serves_metrics, listens,
  Running, and_then, settings,
}

module _ {V X : Type 0} (cr : Crates V X) (out : Outside X) (files : FileSystem X)
    (options : out.Database → cr.Options) (info : out.Connection → cr.redis.ConnectionInfo) where
  abbrev State : Type 0
  State = Running cr out files options info

  -- A chain that comes out well has a first part that does.
  record Goes {A B : Type 0} (m : Result A (Report X) × State)
      (f : A → State → Result B (Report X) × State) (b : B) : Type 0 where
    value : A
    first : m.0 ≡ ok value
    rest : (f value m.1).0 ≡ ok b
    same : and_then cr out files options info m f ≡ f value m.1

  -- The metrics are served, if an address is given for them.
  abbrev pub MetricsServed : Option (Bind out) → Option TlsConfig → files.Files → Type 0
  MetricsServed none tls fs = Unit {0}
  MetricsServed (some bind) tls fs =
      (served : Served out files) × ((serve_at out files bind tls fs).0 ≡ ok served)

  -- The task for the metrics: the server of their address, and none if there is no address.
  abbrev pub MetricsTask :
      Option (Bind out)
      → Option TlsConfig
      → files.Files
      → List (Task cr out files options info)
      → Type 0
  MetricsTask none tls fs tasks = tasks ≡ []
  MetricsTask (some bind) tls fs tasks =
      (served : Served out files) × ((serve_at out files bind tls fs).0 ≡ ok served)
      × (tasks ≡ serves_metrics served ∷ [])

  -- The files when both servers listen.
  abbrev pub metrics_files : Option (Bind out) → Option TlsConfig → files.Files → files.Files
  metrics_files none tls fs = fs
  metrics_files (some bind) tls fs = (serve_at out files bind tls fs).1

  abbrev pub listening_files : Config out → files.Files → files.Files
  listening_files config fs =
      metrics_files config.metrics_bind config.tls (serve_at out files config.bind config.tls fs).1

  abbrev pub Notified : Option (Result (Unit {0}) X) → Type 0
  Notified none = Unit {0}
  Notified (some result) = result ≡ ok tt

  -- How a run that comes out well leaves the process.
  pub record Done (config : Config out) (log_handle : cr.Logger) (process : Process cr)
      (clock : Clock) (calls : Calls X) (r r' : State) : Type 0 where
    pub app : App cr
    pub made : Start.new cr (settings cr out files options info config) log_handle process ≡ ok app
    pub server : Served out files
    pub serving : (serve_at out files config.bind config.tls r.fs).0 ≡ ok server
    pub metrics : List (Task cr out files options info)
    pub metered :
        MetricsTask config.metrics_bind config.tls
          (serve_at out files config.bind config.tls r.fs).1
          metrics
    pub spawned :
        r'.spawned
        ≡ r.spawned ++ serves server ∷ (metrics ++ listens (self_test cr clock app).1 ∷ [])
    pub told : r'.cancelled ≡ r.cancelled ++ serve_cancel ∷ metrics_cancel ∷ listen_cancel ∷ []
    pub notified : Notified calls.systemd
    pub terminated : calls.terminate ≡ ok tt
    pub interrupted : calls.interrupt ≡ ok tt
    pub joined : calls.joined ≡ ok tt
    pub left : r'.fs ≡ end_of out files server (listening_files config r.fs)
    pub no_socket :
        (path : Str) (permissions : ℕ)
        → config.bind ≡ unix path permissions
        → (files.remove_file path (listening_files config r.fs)).0 ≡ ok tt
        → files.mode path r'.fs ≡ none

  -- The state after the signal and the end of the server.
  abbrev stopped : Served out files → State → State
  stopped server r = record r {
    fs = end_of out files server r.fs;
    cancelled = r.cancelled ++ serve_cancel ∷ metrics_cancel ∷ listen_cancel ∷ [];
  }
