-- ===== src/Main.antt =====
-- src/main.rs: the start and the end of the process.
pub mod Shutdown
pub mod Startup
use notify_push.Common.{
  ℕ, List, [], ◌∷◌, ◌++◌, Option, none, some, Bool, true, false, Result, ok, err, map_err, map,
  nat_eq, if◌then◌else◌,
}
use notify_push.Common.Text.{Str, str_eq}
use notify_push.User.{user_eq}
use notify_push.Config.{Outside, TlsConfig, Bind, Config, Opt, FileConfig}
use notify_push.Config.Sources.{from_opt}
use notify_push.Error.{Error, ConfigError, SocketError}
use notify_push.Storage.{Clock}
use notify_push.App.{App, Crates}
use notify_push.App.Start.{Process, Settings, self_test}
use notify_push.App.Start
use notify_push.App.Serve.{FileSystem, Served, serve_at, end_of}

-- What `miette` reports: an error of the library, of the log level, of the logger, or of the task that
-- serves.
pub data Report (X : Type 0) : Type 0 where
  failed : Error X → Report X
  bad_config : ConfigError X → Report X
  no_logger : X → Report X
  server_error : X → Report X

-- The channels on which `run` sends to its tasks.
pub data Cancel : Type 0 where
  serve_cancel metrics_cancel listen_cancel : Cancel

-- What the calls of other crates give: whether `DEBOUNCE_DISABLE` is set, the call of systemd if it is
-- built in, the two signal hooks, and the end of the task that serves.
pub record Calls (X : Type 0) : Type 0 where
  pub debounce_disable : Bool
  pub systemd : Option (Result (Unit {0}) X)
  pub terminate : Result (Unit {0}) X
  pub interrupt : Result (Unit {0}) X
  pub joined : Result (Unit {0}) X

module _ {V X : Type 0} (cr : Crates V X) (out : Outside X) (files : FileSystem X)
    (options : out.Database → cr.Options) (info : out.Connection → cr.redis.ConnectionInfo) where
  pub data Task : Type 0 where
    serves : Served out files → Task
    serves_metrics : Served out files → Task
    listens : App cr → Task

  pub record Running : Type 0 where
    pub fs : files.Files
    pub debounce_enable : Bool
    pub spawned : List Task
    pub cancelled : List Cancel

  -- Code that can fail, over the state of the process.
  abbrev pub Run : Type 0 → Type 0
  Run A = Running → Result A (Report X) × Running

  pub and_then :
      {A B : Type 0} → Result A (Report X) × Running → (A → Run B) → Result B (Report X) × Running
  and_then (ok a, r) f = f a r
  and_then (err e, r) f = (err e, r)

  infixl 5 ◌>>=◌ ◌>>◌
  abbrev pub ◌>>=◌ : {A B : Type 0} → Run A → (A → Run B) → Run B
  m >>= f = λ r. and_then (m r) f

  abbrev pub ◌>>◌ : {B : Type 0} → Run (Unit {0}) → Run B → Run B
  m >> k = m >>= λ _. k

  abbrev pub lift : {A E : Type 0} → (E → Report X) → Result A E → Run A
  lift report result r = (map_err report result, r)

  unfoldable pub spawn : Task → Run (Unit {0})
  spawn task r = (ok tt, record r { spawned = r.spawned ++ task ∷ [] })

  unfoldable pub cancel : Cancel → Run (Unit {0})
  cancel c r = (ok tt, record r { cancelled = r.cancelled ++ c ∷ [] })

  unfoldable pub set_debounce : Bool → Run (Unit {0})
  set_debounce disable r =
      (ok tt, record r { debounce_enable = if disable then false else r.debounce_enable })

  unfoldable pub listen_at : Bind out → Option TlsConfig → Run (Served out files)
  listen_at bind tls r =
      let (served, fs) = serve_at out files bind tls r.fs in
      (map_err (λ e. failed (Error.socket e)) served, record r { fs = fs })

  -- `if let Some(metrics_bind)`.
  unfoldable pub serve_metrics : Option (Bind out) → Option TlsConfig → Run (Unit {0})
  unfolding listen_at spawn
  serve_metrics none tls = λ r. (ok tt, r)
  serve_metrics (some bind) tls = do served ← listen_at bind tls; spawn (serves_metrics served)

  unfoldable pub notify : Option (Result (Unit {0}) X) → Run (Unit {0})
  notify none = λ r. (ok tt, r)
  notify (some result) = lift (λ e. failed (Error.system_d e)) result

  -- `server.await`: a task that ends without a panic has done what follows its server.
  unfoldable pub await_server : Served out files → Result (Unit {0}) X → Run (Unit {0})
  await_server served (ok _) r = (ok tt, record r { fs = end_of out files served r.fs })
  await_server served (err e) r = (err (server_error e), r)

  -- From the signal hooks on, with the signal that comes in between.
  unfoldable pub shut_down : Served out files → Calls X → Run (Unit {0})
  unfolding cancel await_server
  shut_down server calls = do
    lift (λ e. failed (Error.signal_hook e)) calls.terminate
    lift (λ e. failed (Error.signal_hook e)) calls.interrupt
    cancel serve_cancel
    cancel metrics_cancel
    cancel listen_cancel
    await_server server calls.joined

  unfoldable pub settings : Config out → Settings cr
  settings config = record {
    database = options config.database;
    database_prefix = config.database_prefix;
    redis = map info config.redis;
    nextcloud_url = config.nextcloud_url;
    allow_self_signed = config.allow_self_signed;
  }

  unfoldable pub run : Config out → cr.Logger → Process cr → Clock → Calls X → Run (Unit {0})
  unfolding set_debounce listen_at spawn serve_metrics notify shut_down
  run config log_handle process clock calls = do
    set_debounce calls.debounce_disable
    app ← lift failed (Start.new cr (settings config) log_handle process)
    server ← listen_at config.bind config.tls
    spawn (serves server)
    serve_metrics config.metrics_bind config.tls
    notify calls.systemd
    spawn (listens (self_test cr clock app).1)
    shut_down server calls

  -- How the process ends.
  pub data Exit : Type 0 where
    printed_version : Exit
    dumped : Config out → Exit
    ended : Result (Unit {0}) (Report X) → Exit

  unfoldable pub main :
      (Bool → Str → Result (FileConfig out.Connection) X)
      → (Str → Bool → Result (Result cr.Logger X) X)
      → Opt out
      → Process cr
      → Clock
      → Calls X
      → Running
      → Exit × Running
  unfolding run
  main parse logger opt process clock calls r =
      if opt.version then (printed_version, r) else elim (from_opt out parse opt) [
        | err e ↦ (ended (err (failed (Error.config e))), r)
        | ok config ↦
            if opt.dump_config
            then (dumped config, r)
            else elim (logger config.log_level config.no_ansi) [
              | err e ↦ (ended (err (bad_config (ConfigError.log_level e))), r)
              | ok (err e) ↦ (ended (err (no_logger e)), r)
              | ok (ok log_handle) ↦
                  let (result, r) = run config log_handle process clock calls r in (ended result, r)
            ]
      ]
