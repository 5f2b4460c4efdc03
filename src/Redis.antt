-- ===== src/Redis.antt =====
-- src/redis.rs: connections to redis, to one server or to a cluster. The `redis` crate is an
-- interface; `Server` is what the servers hold.
use notify_push.Common.{List, [], ◌∷◌, Option, none, some, Result, ok, err, ◌>>=◌, ◌≡◌, ◌≢◌, arith}
use notify_push.Common.Text.{Str}
use notify_push.Error.{ConfigError}

pub record RedisCrate (X : Type 0) : Type 1 where
  pub ConnectionInfo : Type 0
  pub PubSub : Type 0
  pub Multiplexed : Type 0
  pub Cluster : Type 0
  pub Server : Type 0
  pub get_async_pubsub : ConnectionInfo → Result PubSub X
  pub get_multiplexed : ConnectionInfo → Result Multiplexed X
  pub get_cluster : List ConnectionInfo → Result Cluster X
  pub single_del : Multiplexed → Str → Server → Result (Unit {0}) X × Server
  pub cluster_del : Cluster → Str → Server → Result (Unit {0}) X × Server
  pub single_get : Multiplexed → Str → Server → Result Str X × Server
  pub cluster_get : Cluster → Str → Server → Result Str X × Server
  pub single_set : Multiplexed → Str → Str → Server → Result (Unit {0}) X × Server
  pub cluster_set : Cluster → Str → Str → Server → Result (Unit {0}) X × Server
  pub subscribe : Str → PubSub → Result PubSub X

module _ {X : Type 0} (crate : RedisCrate X) where
  pub record Redis : Type 0 where
    pub config : List crate.ConnectionInfo

  pub data RedisConnection : Type 0 where
    single : crate.Multiplexed → RedisConnection
    cluster : crate.Cluster → RedisConnection

  unfoldable pub new : List crate.ConnectionInfo → Result Redis (ConfigError X)
  new [] = err ConfigError.no_redis
  new (info ∷ rest) = ok (record { config = info ∷ rest })

  -- `first().unwrap()` panics on an empty configuration: `none`.
  pub pubsub_of : List crate.ConnectionInfo → Option (Result crate.PubSub X)
  pubsub_of [] = none
  pubsub_of (info ∷ rest) = some (crate.get_async_pubsub info)

  unfoldable pub pubsub : Redis → Option (Result crate.PubSub X)
  unfolding pubsub_of
  pubsub redis = pubsub_of redis.config

  pub connect_to : List crate.ConnectionInfo → Result RedisConnection X
  connect_to (info ∷ []) = do client ← crate.get_multiplexed info; ok (single client)
  connect_to config = do client ← crate.get_cluster config; ok (cluster client)

  unfoldable pub connect : Redis → Result RedisConnection X
  unfolding connect_to
  connect redis = connect_to redis.config

  unfoldable pub del : RedisConnection → Str → crate.Server → Result (Unit {0}) X × crate.Server
  del (single client) key server = crate.single_del client key server
  del (cluster client) key server = crate.cluster_del client key server

  unfoldable pub get : RedisConnection → Str → crate.Server → Result Str X × crate.Server
  get (single client) key server = crate.single_get client key server
  get (cluster client) key server = crate.cluster_get client key server

  unfoldable pub set :
      RedisConnection → Str → Str → crate.Server → Result (Unit {0}) X × crate.Server
  set (single client) key value server = crate.single_set client key value server
  set (cluster client) key value server = crate.cluster_set client key value server

  -- A client that was made opens its pub-sub connection without a panic, to its first server.
  pub new-pubsub :
      (config : List crate.ConnectionInfo) (redis : Redis)
      → new config ≡ ok redis
      → pubsub redis ≢ none
  unfolding new pubsub pubsub_of
  new-pubsub [] redis e h = absurd (cc)
  new-pubsub (info ∷ rest) redis e h =
      let same : redis.config ≡ info ∷ rest = ground arith in absurd (cc (rw same at h))
