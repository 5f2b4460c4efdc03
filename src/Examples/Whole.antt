-- ===== src/Examples/Whole.antt =====
-- src/lib.rs, src/storage_mapping.rs: a whole server on small stand-ins, and instances.
use notify_push.Common.{
  ℕ, ◌≡◌, ◌≢◌, ◌⊎◌, refl, List, [], ◌∷◌, none, some, ok, err, nat_eq, arith, from_secs,
}
use notify_push.Common.Text.{Str, codes, str_eq}
use notify_push.User.{UserId, user_eq}
use notify_push.Message.{PushMessage, file, known, updated_file}
use notify_push.Dash.{DashMap, function_map}
use notify_push.Broadcast.{counting}
use notify_push.Redis.{RedisCrate}
use notify_push.Storage.{
  UserStorageAccess, CachedAccess, Database, from_connection, users_for_path,
  get_users_for_storage_path,
}
use notify_push.Storage.Staleness.{Request, IsTimely, IsRecent, IsFetched, get_users-IsRecent}
use notify_push.Metrics as Counters
use notify_push.Event.{Event}
use notify_push.Connection.Auth.{authenticate}
use notify_push.App.{App, Crates, look_up, handle_event}
use notify_push.App.Reach.{Owns, told, handle_event-sent}
use notify_push.App.Login.{handle_event-authenticate}
use notify_push.Examples.Servers.{network, nextcloud, user_of, tokens, alice}

abbrev pub servers : RedisCrate Str
servers = record {
  ConnectionInfo = Str;
  PubSub = Str;
  Multiplexed = Str;
  Cluster = List Str;
  Server = List (Str × Str);
  get_async_pubsub = λ info. ok info;
  get_multiplexed = λ info. ok info;
  get_cluster = λ infos. ok infos;
  single_del = λ c key s. (ok tt, s);
  cluster_del = λ c key s. (ok tt, s);
  single_get = λ c key s. (err key, s);
  cluster_get = λ c key s. (err key, s);
  single_set = λ c key value s. (ok tt, (key, value) ∷ s);
  cluster_set = λ c key value s. (ok tt, (key, value) ∷ s);
  subscribe = λ channel p. ok p;
}

-- Storage 7 is read by a user until the time 400 s, and by nobody later.
abbrev pub accesses : Database Str Str Str
accesses = record {
  connect = λ o. ok o;
  fetch_all = λ pool text asked. elim (Prim.Native.Nat.compare asked (from_secs 400)) [
    | Prim.Native.Nat.Ordering.lt ↦ ok (record { user = alice; root = codes "files/" } ∷ [])
    | _ ↦ ok []
  ];
}

abbrev pub cache : DashMap ℕ CachedAccess
cache = function_map ℕ CachedAccess

abbrev pub request_at : ℕ → Request
request_at n = record {
  clock = record {
    looked = from_secs n;
    asked = from_secs n;
    filled = from_secs n;
    range = 250000;
  };
  storage = 7;
  path = codes "files/a.txt";
}

request_at-IsTimely : (n : ℕ) → IsTimely (request_at n).clock
request_at-IsTimely n = record {
  asked_later = omega arith;
  filled_later = omega arith;
  range_above = omega arith;
  range_below = omega arith;
}

-- The answer at 450 s is the one that was loaded at 350 s.
get_users-IsRecent_example :
    (access : List UserStorageAccess) × (IsRecent accesses cache
        (from_connection accesses cache [] [] Counters.new)
        (request_at 350 ∷ [])
        []
        []
        7
        (from_secs 450)
        access
      ⊎ IsFetched accesses cache [] [] (request_at 450) access)
    × ((alice ∷ []) ≡ users_for_path (codes "files/a.txt") access)
unfolding get_users_for_storage_path from_connection
get_users-IsRecent_example =
    get_users-IsRecent accesses cache [] [] Counters.new (request_at 350 ∷ []) (request_at 450)
      (alice ∷ []) (request_at-IsTimely 350, tt) refl

abbrev pub crates : Crates ℕ Str
crates = record {
  Options = Str;
  Pool = Str;
  bc = counting (PushMessage ℕ);
  users = function_map UserId ℕ;
  resets = counting (Unit {0});
  sql = accesses;
  cache = cache;
  tokens = tokens;
  web = network;
  redis = servers;
  Logger = List Str;
  parse_and_push_temp_spec = λ spec log. ok (spec ∷ log);
  pop_temp_spec = λ log. log;
  metrics_to_string = λ m. [];
}

abbrev pub app : App crates
app = record {
  hub = record {
    connections = λ user. some user.hash;
    world = record { count = 20; subscribed = λ j. 1; log = [] };
    metrics = Counters.new;
  };
  nc_client = nextcloud;
  storage_mapping = record {
    cache = λ k. none;
    connection = [];
    prefix = [];
    metrics = Counters.new;
  };
  pre_auth = λ k. none;
  test_cookie = 0;
  redis = record { config = codes "redis://a" ∷ [] };
  log_handle = [];
  reset_tx = 0;
  reset_rx = 0;
  reset_world = record { count = 1; subscribed = λ j. 1; log = [] };
  server = [];
}

pub alice-Owns : Owns crates app.hub alice 17
alice-Owns = record { listed = refl; alone = λ other ty e same. ground arith }

handle_event-sent_example :
    crates.bc.sent 17
      (handle_event crates
        (from_secs 350)
        (request_at 350).clock
        (Event.storage_update (record { storage = 7; path = codes "files/a.txt"; file_id = 5 }))
        app).hub.world
    ≡ told crates
        (request_at 350).clock
        (Event.storage_update (record { storage = 7; path = codes "files/a.txt"; file_id = 5 }))
        app
        alice
handle_event-sent_example =
    handle_event-sent crates (from_secs 350) (request_at 350).clock
      (Event.storage_update (record { storage = 7; path = codes "files/a.txt"; file_id = 5 })) app
      alice 17 alice-Owns

-- What alice is told: the file, once.
told-alice :
    told crates
      (request_at 350).clock
      (Event.storage_update (record { storage = 7; path = codes "files/a.txt"; file_id = 5 }))
      app
      alice
    ≡ file (known (5 ∷ [])) ∷ []
unfolding look_up get_users_for_storage_path updated_file
told-alice = refl

handle_event-authenticate_example :
    let announce = Event.pre_auth (record { user = alice; token = codes "tok" }) in
    let after = handle_event crates (from_secs 200) (request_at 200).clock announce app in
    let (result, left) =
      authenticate network tokens user_of nextcloud
        (from_secs 210)
        []
        []
        (codes "tok")
        after.pre_auth in
    (result ≡ ok alice)
    × ((made : ℕ) (user : UserId) → tokens.get (codes "tok") left ≢ some (made, user))
unfolding handle_event
handle_event-authenticate_example =
    handle_event-authenticate crates (from_secs 200) (from_secs 210) (request_at 200).clock alice []
      (codes "tok") [] user_of app (omega arith) (omega arith)
