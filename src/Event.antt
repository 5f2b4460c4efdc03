-- ===== src/Event.antt =====
-- src/event.rs: the events that come from redis.
pub mod Channels
use notify_push.Common.{
  ℕ, List, [], ◌∷◌, ◌++◌, Bool, nat_eq, ◌==◌, if◌then◌else◌, Result, ok, err, ◌>>=◌, map_err,
}
use notify_push.Common.Text.{Str, codes, str_eq}
use notify_push.Common.Decimal.{to_string}
use notify_push.User.{UserId}
use notify_push.Metrics.{Metrics, add_event}

pub record StorageUpdate : Type 0 where
  pub storage : ℕ
  pub path : Str
  pub file_id : ℕ

pub record GroupUpdate : Type 0 where
  pub user : UserId
  pub group : Str

pub record ShareCreate : Type 0 where
  pub user : UserId

pub record Activity : Type 0 where
  pub user : UserId

pub record Notification : Type 0 where
  pub user : UserId

pub record PreAuth : Type 0 where
  pub user : UserId
  pub token : Str

pub data Config : Type 0 where
  log_spec : Str → Config
  log_restore : Config

pub data Query : Type 0 where
  metrics : Query

pub record Custom (V : Type 0) : Type 0 where
  pub user : UserId
  pub message : Str
  pub body : V

pub data Signal : Type 0 where
  reset : Signal

pub data Event (V : Type 0) : Type 0 where
  storage_update : StorageUpdate → Event V
  group_update : GroupUpdate → Event V
  share_create : ShareCreate → Event V
  test_cookie : ℕ → Event V
  activity : Activity → Event V
  notification : Notification → Event V
  pre_auth : PreAuth → Event V
  custom : Custom V → Event V
  config : Config → Event V
  query : Query → Event V
  signal : Signal → Event V

pub data MessageDecodeError (X : Type 0) : Type 0 where
  unsupported_event_type : MessageDecodeError X
  json : X → MessageDecodeError X

-- A message of redis.
pub record Msg : Type 0 where
  pub channel_name : Str
  pub payload : List ℕ

-- `serde_json::from_slice` at the types of the payloads, which derive `Deserialize`.
pub record Decoder (V X : Type 0) : Type 0 where
  pub storage_update : List ℕ → Result StorageUpdate X
  pub group_update : List ℕ → Result GroupUpdate X
  pub share_create : List ℕ → Result ShareCreate X
  pub test_cookie : List ℕ → Result ℕ X
  pub activity : List ℕ → Result Activity X
  pub notification : List ℕ → Result Notification X
  pub pre_auth : List ℕ → Result PreAuth X
  pub custom : List ℕ → Result (Custom V) X
  pub config : List ℕ → Result Config X
  pub query : List ℕ → Result Query X
  pub signal : List ℕ → Result Signal X

module _ {V X : Type 0} where
  -- `Ok(event(payload?))`.
  abbrev pub decoded :
      {A : Type 0} → (A → Event V) → Result A X → Result (Event V) (MessageDecodeError X)
  decoded event (ok payload) = ok (event payload)
  decoded event (err e) = err (MessageDecodeError.json e)

  unfoldable pub try_from : Decoder V X → Msg → Result (Event V) (MessageDecodeError X)
  try_from from_slice msg =
      let channel = msg.channel_name in
      let payload = msg.payload in
      if codes "notify_storage_update" == channel
      then decoded Event.storage_update (from_slice.storage_update payload)
      else if codes "notify_group_membership_update" == channel
      then decoded Event.group_update (from_slice.group_update payload)
      else if codes "notify_user_share_created" == channel
      then decoded Event.share_create (from_slice.share_create payload)
      else if codes "notify_test_cookie" == channel
      then decoded Event.test_cookie (from_slice.test_cookie payload)
      else if codes "notify_activity" == channel
      then decoded Event.activity (from_slice.activity payload)
      else if codes "notify_notification" == channel
      then decoded Event.notification (from_slice.notification payload)
      else if codes "notify_pre_auth" == channel
      then decoded Event.pre_auth (from_slice.pre_auth payload)
      else if codes "notify_custom" == channel
      then decoded Event.custom (from_slice.custom payload)
      else if codes "notify_config" == channel
      then decoded Event.config (from_slice.config payload)
      else if codes "notify_query" == channel
      then decoded Event.query (from_slice.query payload)
      else if codes "notify_signal" == channel
      then decoded Event.signal (from_slice.signal payload)
      else err MessageDecodeError.unsupported_event_type

  -- The closure on the stream that `subscribe` returns.
  unfoldable pub on_event :
      Decoder V X → Msg → Metrics → Result (Event V) (MessageDecodeError X) × Metrics
  on_event from_slice msg counts = (try_from from_slice msg, add_event counts)

abbrev pub channels : List Str
channels =
    codes "notify_storage_update"
    ∷ codes "notify_group_membership_update"
    ∷ codes "notify_user_share_created"
    ∷ codes "notify_test_cookie"
    ∷ codes "notify_activity"
    ∷ codes "notify_notification"
    ∷ codes "notify_pre_auth"
    ∷ codes "notify_custom"
    ∷ codes "notify_config"
    ∷ codes "notify_query"
    ∷ codes "notify_signal"
    ∷ []

-- `subscribe`, to a list of channels; `call` is the call of the pub-sub connection.
pub subscribe_each : {P E : Type 0} → (Str → P → Result P E) → List Str → P → Result P E
subscribe_each call [] pubsub = ok pubsub
subscribe_each call (channel ∷ rest) pubsub = do
  pubsub ← call channel pubsub
  subscribe_each call rest pubsub

unfoldable pub subscribe : {P E : Type 0} → (Str → P → Result P E) → Result P E → Result P E
unfolding subscribe_each
subscribe call pubsub = do pubsub ← pubsub; subscribe_each call channels pubsub

-- `Display`. `show_user` is that of user ids.
query_display : Query → Str
query_display Query.metrics = codes "Metrics"

signal_display : Signal → Str
signal_display Signal.reset = codes "Reset"

unfoldable pub display : {V : Type 0} → (UserId → Str) → Event V → Str
unfolding query_display signal_display
display show_user (Event.storage_update e) =
    codes "storage update notification for storage "
    ++ to_string e.storage
    ++ codes " and path "
    ++ e.path
display show_user (Event.group_update e) =
    codes "group update notification for user " ++ show_user e.user
display show_user (Event.share_create e) =
    codes "share create notification for user " ++ show_user e.user
display show_user (Event.test_cookie cookie) = codes "test cookie " ++ to_string cookie
display show_user (Event.activity e) = codes "activity notification for user " ++ show_user e.user
display show_user (Event.notification e) =
    codes "notification notification for user " ++ show_user e.user
display show_user (Event.pre_auth e) = codes "pre_auth user " ++ show_user e.user
display show_user (Event.custom e) =
    codes "custom notification " ++ e.message ++ codes " for user " ++ show_user e.user
display show_user (Event.config e) = codes "config update"
display show_user (Event.query q) = query_display q ++ codes " query"
display show_user (Event.signal s) = signal_display s ++ codes " signal"
