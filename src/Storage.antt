-- ===== src/Storage.antt =====
-- src/storage_mapping.rs: who has access to a storage, as the database says, kept for a while.
pub mod Staleness
pub mod Tasks
use notify_push.Common.{
  ℕ, ◌+◌, List, [], ◌∷◌, ◌++◌, Option, none, some, Bool, true, false, if◌then◌else◌, ltb, Result,
  ok, err, ◌>>=◌, map_err, nat_eq, from_millis,
}
use notify_push.Common.Text.{Str, codes, starts_with}
use notify_push.Common.Decimal.{to_string}
use notify_push.User.{UserId}
use notify_push.Metrics.{Metrics, add_mapping_query}
use notify_push.Error.{DatabaseError}
use notify_push.Dash.{DashMap}

pub record UserStorageAccess : Type 0 where
  pub user : UserId
  pub root : Str

pub record CachedAccess : Type 0 where
  pub access : List UserStorageAccess
  pub valid_till : ℕ

-- `range` is what `gen_range` draws, in milliseconds: 4 minutes or more and less than 5.
unfoldable pub new : List UserStorageAccess → ℕ → ℕ → CachedAccess
new access now range = record { access = access; valid_till = now + from_millis range }

unfoldable pub is_valid : CachedAccess → ℕ → Bool
is_valid cached now = ltb now cached.valid_till

-- The text of the query.
unfoldable pub query : Str → ℕ → Str
query prefix storage =
    codes "SELECT user_id, path FROM "
    ++ prefix
    ++ codes "mounts INNER JOIN "
    ++ prefix
    ++ codes "filecache ON root_id = fileid WHERE storage_id = "
    ++ to_string storage

-- The closure of `filter_map`.
pub users_for_path : Str → List UserStorageAccess → List UserId
users_for_path path [] = []
users_for_path path (access ∷ rest) =
    if starts_with path access.root
    then access.user ∷ users_for_path path rest
    else users_for_path path rest

-- `connect` and `fetch_all` are the calls of `sqlx`; the answer of a query depends on the time.
pub record Database (Options Pool X : Type 0) : Type 0 where
  pub connect : Options → Result Pool X
  pub fetch_all : Pool → Str → ℕ → Result (List UserStorageAccess) X

-- When a request looks at the clock, asks the database and fills the cache, and what it draws.
pub record Clock : Type 0 where
  pub looked : ℕ
  pub asked : ℕ
  pub filled : ℕ
  pub range : ℕ

module _ {Options Pool X : Type 0} (sql : Database Options Pool X)
    (dm : DashMap ℕ CachedAccess) where
  -- `metrics` is the static `METRICS`.
  pub record StorageMapping : Type 0 where
    pub cache : dm.Map
    pub connection : Pool
    pub prefix : Str
    pub metrics : Metrics

  unfoldable pub from_connection : Pool → Str → Metrics → StorageMapping
  from_connection connection prefix metrics = record {
    cache = dm.empty;
    connection = connection;
    prefix = prefix;
    metrics = metrics;
  }

  unfoldable pub connect : Options → Str → Metrics → Result StorageMapping (DatabaseError X)
  connect options prefix metrics = do
    connection ← map_err DatabaseError.connect (sql.connect options)
    ok (from_connection connection prefix metrics)

  -- The answer of the database, and the count of queries.
  pub loaded :
      Result (List UserStorageAccess) X
      → StorageMapping
      → Result (List UserStorageAccess) (DatabaseError X) × StorageMapping
  loaded (ok users) s = (ok users, record s { metrics = add_mapping_query s.metrics })
  loaded (err e) s = (err (DatabaseError.query e), s)

  unfoldable pub load_storage_mapping :
      ℕ → ℕ → StorageMapping → Result (List UserStorageAccess) (DatabaseError X) × StorageMapping
  unfolding loaded
  load_storage_mapping asked storage s =
      loaded (sql.fetch_all s.connection (query s.prefix storage) asked) s

  -- What is loaded is put in; the entry that is got then is the one that was put in.
  pub fill :
      Clock
      → ℕ
      → Result (List UserStorageAccess) (DatabaseError X) × StorageMapping
      → Result CachedAccess (DatabaseError X) × StorageMapping
  unfolding new
  fill clock storage (err e, s) = (err e, s)
  fill clock storage (ok users, s) =
      let cached = new users clock.filled clock.range in
      (ok cached, record s { cache = dm.insert storage cached s.cache })

  -- `filter` on the entry.
  pub valid_entry : ℕ → Option CachedAccess → Option CachedAccess
  unfolding is_valid
  valid_entry now none = none
  valid_entry now (some cached) = if is_valid cached now then some cached else none

  -- The two branches, after the look-up.
  pub or_load :
      Clock
      → ℕ
      → StorageMapping
      → Option CachedAccess
      → Result CachedAccess (DatabaseError X) × StorageMapping
  unfolding load_storage_mapping fill
  or_load clock storage s (some cached) = (ok cached, s)
  or_load clock storage s none = fill clock storage (load_storage_mapping clock.asked storage s)

  unfoldable pub get_storage_mapping :
      Clock → ℕ → StorageMapping → Result CachedAccess (DatabaseError X) × StorageMapping
  unfolding or_load valid_entry
  get_storage_mapping clock storage s =
      or_load clock storage s (valid_entry clock.looked (dm.get storage s.cache))

  unfoldable pub get_users_for_storage_path :
      Clock → ℕ → Str → StorageMapping → Result (List UserId) (DatabaseError X) × StorageMapping
  unfolding get_storage_mapping users_for_path
  get_users_for_storage_path clock storage path s =
      let (cached, s) = get_storage_mapping clock storage s in
      (cached >>= λ cached. ok (users_for_path path cached.access), s)
