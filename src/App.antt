-- ===== src/App.antt =====
-- src/lib.rs: the state of the server, what it does on an event, and its self-test.
pub mod Routes
pub mod Login
pub mod Start
pub mod Events
pub mod Listen
pub mod Session
pub mod Serve
pub mod Reach
use notify_push.Common.{
  ℕ, nat_eq, List, [], ◌∷◌, Option, none, some, Bool, true, false, if◌then◌else◌, Result, ok, err,
  ◌>>=◌, map_err, ◌==◌,
}
use notify_push.Common.Text.{Str, codes, str_eq}
use notify_push.User.{UserId, user_eq}
use notify_push.Message.{PushMessage, UpdatedFiles, updated_file}
use notify_push.Metrics.{Metrics, SerializeMetrics, serialize_metrics}
use notify_push.Error.{Error, NextCloudError, SelfTestError, DatabaseError}
use notify_push.Dash.{DashMap}
use notify_push.Broadcast.{Broadcast}
use notify_push.Nc.{Web, Client, request_app_version}
use notify_push.Redis.{RedisCrate, Redis, RedisConnection}
use notify_push.Storage.{CachedAccess, Database, Clock, StorageMapping, get_users_for_storage_path}
use notify_push.Event.{Event}
use notify_push.Event
use notify_push.Redis
use notify_push.Nc
use notify_push.Storage
use notify_push.Connection.Active.{Hub, send_to_user}
use notify_push.Connection.Auth.{Tokens}

-- What other crates give, the logger and the text of the metrics among them.
pub record Crates (V X : Type 0) : Type 1 where
  pub Options : Type 0
  pub Pool : Type 0
  pub bc : Broadcast (PushMessage V)
  pub users : DashMap UserId bc.Sender
  pub resets : Broadcast (Unit {0})
  pub sql : Database Options Pool X
  pub cache : DashMap ℕ CachedAccess
  pub tokens : Tokens
  pub web : Web X
  pub redis : RedisCrate X
  pub Logger : Type 0
  pub parse_and_push_temp_spec : Str → Logger → Result Logger X
  pub pop_temp_spec : Logger → Logger
  pub metrics_to_string : SerializeMetrics → Str

module _ {V X : Type 0} (cr : Crates V X) where
  -- `hub` is `connections` with the channels and the static `METRICS`; `reset_world` are the
  -- channels of resets, and `server` is what redis holds.
  pub record App : Type 0 where
    pub hub : Hub cr.bc cr.users
    pub nc_client : Client cr.web
    pub storage_mapping : StorageMapping cr.sql cr.cache
    pub pre_auth : cr.tokens.Map
    pub test_cookie : ℕ
    pub redis : Redis cr.redis
    pub log_handle : cr.Logger
    pub reset_tx : cr.resets.Sender
    pub reset_rx : cr.resets.Receiver
    pub reset_world : cr.resets.World
    pub server : cr.redis.Server

  -- The storage mapping counts its queries in `METRICS`.
  unfoldable pub look_up : Clock → ℕ → Str → App → Result (List UserId) (DatabaseError X) × App
  look_up clock storage path app =
      let metered : StorageMapping cr.sql cr.cache = record app.storage_mapping {
        metrics = app.hub.metrics;
      } in
      let (users, mapping) =
        get_users_for_storage_path cr.sql cr.cache clock storage path metered in
      (
        users,
        record app {
          storage_mapping = mapping;
          hub = record app.hub { metrics = mapping.metrics };
        },
      )

  pub send_to_users : List UserId → PushMessage V → Hub cr.bc cr.users → Hub cr.bc cr.users
  send_to_users [] msg hub = hub
  send_to_users (user ∷ users) msg hub =
      send_to_users users msg (send_to_user cr.bc cr.users user msg hub)

  unfoldable pub notify : UserId → PushMessage V → App → App
  notify user msg app = record app { hub = send_to_user cr.bc cr.users user msg app.hub }

  -- The loop over the users of a storage update.
  pub notify_found : PushMessage V → Result (List UserId) (DatabaseError X) × App → App
  unfolding send_to_users
  notify_found msg (ok users, app) = record app { hub = send_to_users users msg app.hub }
  notify_found msg (err e, app) = app

  pub push_spec : Result cr.Logger X → App → App
  push_spec (ok log_handle) app = record app { log_handle = log_handle }
  push_spec (err e) app = app

  pub set_metrics : Result (RedisConnection cr.redis) X → App → App
  set_metrics (ok redis) app = record app {
    server =
        (Redis.set cr.redis redis (codes "notify_push_metrics")
          (cr.metrics_to_string (serialize_metrics app.hub.metrics)) app.server).1;
  }
  set_metrics (err e) app = app

  unfoldable pub handle_event : ℕ → Clock → Event V → App → App
  unfolding notify look_up notify_found push_spec set_metrics
  handle_event now clock (Event.storage_update e) app =
      notify_found (PushMessage.file (updated_file e.file_id)) (look_up clock e.storage e.path app)
  handle_event now clock (Event.group_update e) app =
      notify e.user (PushMessage.file UpdatedFiles.unknown) app
  handle_event now clock (Event.share_create e) app =
      notify e.user (PushMessage.file UpdatedFiles.unknown) app
  handle_event now clock (Event.test_cookie cookie) app = record app { test_cookie = cookie }
  handle_event now clock (Event.activity e) app = notify e.user PushMessage.activity app
  handle_event now clock (Event.notification e) app = notify e.user PushMessage.notification app
  handle_event now clock (Event.pre_auth e) app = record app {
    pre_auth = cr.tokens.insert e.token (now, e.user) app.pre_auth;
  }
  handle_event now clock (Event.custom e) app =
      notify e.user (PushMessage.custom e.message e.body) app
  handle_event now clock (Event.config (Event.Config.log_spec spec)) app =
      push_spec (cr.parse_and_push_temp_spec spec app.log_handle) app
  handle_event now clock (Event.config Event.Config.log_restore) app = record app {
    log_handle = cr.pop_temp_spec app.log_handle;
  }
  handle_event now clock (Event.query Event.Query.metrics) app =
      set_metrics (Redis.connect cr.redis app.redis) app
  handle_event now clock (Event.signal Event.Signal.reset) app = record app {
    reset_world = cr.resets.send app.reset_tx tt app.reset_world;
  }

  -- `App::reset_rx`.
  unfoldable pub subscribe_reset : App → cr.resets.Receiver × App
  subscribe_reset app =
      let (rx, world) = cr.resets.subscribe app.reset_tx app.reset_world in
      (rx, record app { reset_world = world })
