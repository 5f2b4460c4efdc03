-- ===== src/App/Start.antt =====
-- src/lib.rs: how the server's state is made, and the self-test.
use notify_push.Common.{List, [], Bool, Result, ok, err, ◌>>=◌, map_err, nat_eq}
use notify_push.Common.Text.{Str, codes}
use notify_push.User.{user_eq}
use notify_push.Metrics.{Metrics}
use notify_push.Error.{Error, SelfTestError}
use notify_push.Nc.{Client, request_app_version}
use notify_push.Redis.{RedisConnection}
use notify_push.Storage.{Clock, StorageMapping}
use notify_push.Redis
use notify_push.Nc
use notify_push.Storage
use notify_push.App.{App, Crates, look_up}

module _ {V X : Type 0} (cr : Crates V X) where
  -- What a process has before the server is made.
  pub record Process : Type 0 where
    pub world : cr.bc.World
    pub metrics : Metrics
    pub reset_world : cr.resets.World
    pub server : cr.redis.Server

  -- The fields of the configuration that are used.
  pub record Settings : Type 0 where
    pub database : cr.Options
    pub database_prefix : Str
    pub redis : List cr.redis.ConnectionInfo
    pub nextcloud_url : Str
    pub allow_self_signed : Bool

  -- What the two constructors share, from the storage mapping on.
  unfoldable pub assemble :
      Client cr.web
      → StorageMapping cr.sql cr.cache
      → Settings
      → cr.Logger
      → Process
      → Result (App cr) (Error X)
  assemble nc_client storage_mapping config log_handle process = do
    redis ← map_err Error.config (Redis.new cr.redis config.redis)
    let (reset_tx, reset_rx, reset_world) = cr.resets.channel 1 process.reset_world in
        ok (record {
          hub = record {
            connections = cr.users.empty;
            world = process.world;
            metrics = process.metrics;
          };
          nc_client = nc_client;
          storage_mapping = storage_mapping;
          pre_auth = cr.tokens.empty;
          test_cookie = 0;
          redis = redis;
          log_handle = log_handle;
          reset_tx = reset_tx;
          reset_rx = reset_rx;
          reset_world = reset_world;
          server = process.server;
        })

  unfoldable pub new : Settings → cr.Logger → Process → Result (App cr) (Error X)
  unfolding assemble
  new config log_handle process = do
    nc_client ←
        map_err Error.next_cloud (Nc.new cr.web config.nextcloud_url config.allow_self_signed)
    storage_mapping ←
        map_err Error.database
          (Storage.connect cr.sql cr.cache config.database config.database_prefix process.metrics)
    assemble nc_client storage_mapping config log_handle process

  unfoldable pub with_connection :
      cr.Pool → Settings → cr.Logger → Bool → Process → Result (App cr) (Error X)
  unfolding assemble
  with_connection connection config log_handle allow_self_signed process = do
    nc_client ← map_err Error.next_cloud (Nc.new cr.web config.nextcloud_url allow_self_signed)
    assemble nc_client
        (Storage.from_connection cr.sql cr.cache connection config.database_prefix process.metrics)
        config log_handle process

  -- After the request for the version: the answer is compared with the version of the server, which
  -- at most logs a warning.
  pub check_version :
      RedisConnection cr.redis
      → Result (Unit {0}) (SelfTestError X)
      → App cr
      → Result (Unit {0}) (SelfTestError X) × App cr
  check_version redis (err e) app = (err e, app)
  check_version redis (ok _) app = (
    ok tt,
    record app {
      server = (Redis.get cr.redis redis (codes "notify_push_app_version") app.server).1;
    },
  )

  pub forget_version :
      RedisConnection cr.redis
      → Result (Unit {0}) X × cr.redis.Server
      → App cr
      → Result (Unit {0}) (SelfTestError X) × App cr
  unfolding check_version
  forget_version redis (err e, server) app =
      (err (SelfTestError.redis e), record app { server = server })
  forget_version redis (ok _, server) app =
      check_version redis
        (map_err SelfTestError.nextcloud_communication (request_app_version cr.web app.nc_client))
        (record app { server = server })

  pub test_redis :
      Result (RedisConnection cr.redis) X → App cr → Result (Unit {0}) (SelfTestError X) × App cr
  unfolding forget_version
  test_redis (err e) app = (err (SelfTestError.redis e), app)
  test_redis (ok redis) app =
      forget_version redis (Redis.del cr.redis redis (codes "notify_push_app_version") app.server)
        app

  unfoldable pub self_test : Clock → App cr → Result (Unit {0}) (SelfTestError X) × App cr
  unfolding test_redis
  self_test clock app =
      let (users, app) = look_up cr clock 1 [] app in
      elim users [
        | err e ↦ (err (SelfTestError.database e), app)
        | ok _ ↦ test_redis (Redis.connect cr.redis app.redis) app
      ]
