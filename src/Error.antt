-- ===== src/Error.antt =====
-- src/error.rs: the errors, and their messages. `X` stands for the errors of other crates, whose
-- messages are a parameter.
use notify_push.Common.{ℕ, ◌++◌, Option}
use notify_push.Common.Text.{Str, codes}

module _ (X : Type 0) where
  pub data NextCloudError : Type 0 where
    request : X → NextCloudError
    nextcloud_url : X → NextCloudError
    nextcloud_connect : X → NextCloudError
    client : ℕ → NextCloudError
    server : ℕ → NextCloudError
    other : ℕ → NextCloudError
    not_a_trusted_domain : Str → NextCloudError
    malformed_cookie_response : X → NextCloudError
    malformed_remote : X → NextCloudError

  pub data DatabaseError : Type 0 where
    connect : X → DatabaseError
    query : X → DatabaseError

  pub data SelfTestError : Type 0 where
    database : DatabaseError → SelfTestError
    redis : X → SelfTestError
    nextcloud_communication : NextCloudError → SelfTestError

  pub data SocketError : Type 0 where
    bind : X → Str → SocketError
    socket_permissions : X → SocketError

  pub data ConfigError : Type 0 where
    no_redis no_nextcloud no_database : ConfigError
    parse : X → ConfigError
    env : Str → X → ConfigError
    bad_permissions : Str → Option X → ConfigError
    log_level : X → ConfigError
    invalid_database : X → ConfigError

  pub data WebSocketError : Type 0 where
    disconnected : WebSocketError
    error : X → WebSocketError

  pub data AuthenticationError : Type 0 where
    socket : WebSocketError → AuthenticationError
    invalid_message : AuthenticationError
    nextcloud : NextCloudError → AuthenticationError
    invalid : AuthenticationError
    limit_exceeded : AuthenticationError

  pub data Error : Type 0 where
    database : DatabaseError → Error
    redis : X → Error
    config : ConfigError → Error
    self_test : SelfTestError → Error
    signal_hook : X → Error
    socket : SocketError → Error
    authentication : AuthenticationError → Error
    next_cloud : NextCloudError → Error
    system_d : X → Error

-- The messages, by `Display`. `status` is the `Display` of a status code.
module _ {X : Type 0} (status : ℕ → Str) (external : X → Str) where
  unfoldable pub nextcloud_message : NextCloudError X → Str
  nextcloud_message (NextCloudError.request e) = external e
  nextcloud_message (NextCloudError.nextcloud_url e) = codes "Invalid nextcloud url: " ++ external e
  nextcloud_message (NextCloudError.nextcloud_connect e) =
      codes "Error while connecting to nextcloud: " ++ external e
  nextcloud_message (NextCloudError.client code) = codes "Client error: " ++ status code
  nextcloud_message (NextCloudError.server code) = codes "Server error: " ++ status code
  nextcloud_message (NextCloudError.other code) = codes "Unexpected status code: " ++ status code
  nextcloud_message (NextCloudError.not_a_trusted_domain host) =
      host ++ codes " is not configured as a trusted domain for the nextcloud server"
  nextcloud_message (NextCloudError.malformed_cookie_response e) =
      codes "Invalid response when getting test cookie: " ++ external e
  nextcloud_message (NextCloudError.malformed_remote e) =
      codes "Invalid response when testing if the push server is a trusted proxy: " ++ external e

  unfoldable pub database_message : DatabaseError X → Str
  database_message (DatabaseError.connect e) = codes "Failed to connect to database: " ++ external e
  database_message (DatabaseError.query e) = codes "Failed to query database: " ++ external e

  unfoldable pub self_test_message : SelfTestError X → Str
  self_test_message (SelfTestError.database e) =
      codes "Failed to test database access: " ++ database_message e
  self_test_message (SelfTestError.redis e) = codes "Failed to test redis access: " ++ external e
  self_test_message (SelfTestError.nextcloud_communication e) =
      codes "Error while communicating with nextcloud instance: " ++ nextcloud_message e

  unfoldable pub socket_message : SocketError X → Str
  socket_message (SocketError.bind e path) =
      codes "Failed to bind to socket at " ++ path ++ codes ": " ++ external e
  socket_message (SocketError.socket_permissions e) =
      codes "Failed to set socket permissions: " ++ external e

  unfoldable pub config_message : ConfigError X → Str
  config_message ConfigError.no_redis = codes "No redis server is configured"
  config_message ConfigError.no_nextcloud = codes "No nextcloud server is configured"
  config_message ConfigError.no_database = codes "No database server is configured"
  config_message (ConfigError.parse e) = codes "Error while parsing nextcloud config.php"
  config_message (ConfigError.env name e) =
      codes "Invalid " ++ name ++ codes " environment variable"
  config_message (ConfigError.bad_permissions given e) =
      codes "socket permissions should be provided in the octal form `0xxx`, got " ++ given
  config_message (ConfigError.log_level e) = codes "Failed to parse log level: " ++ external e
  config_message (ConfigError.invalid_database e) =
      codes "Failed to parse database configuration: " ++ external e

  unfoldable pub websocket_message : WebSocketError X → Str
  websocket_message WebSocketError.disconnected = codes "Client disconnected unexpectedly"
  websocket_message (WebSocketError.error e) = external e

  unfoldable pub authentication_message : AuthenticationError X → Str
  authentication_message (AuthenticationError.socket e) = websocket_message e
  authentication_message AuthenticationError.invalid_message =
      codes "Invalid authentication message"
  authentication_message (AuthenticationError.nextcloud e) =
      codes "Error while sending authentication request to nextcloud: " ++ nextcloud_message e
  authentication_message AuthenticationError.invalid = codes "Invalid credentials"
  authentication_message AuthenticationError.limit_exceeded =
      codes "Connection limit exceeded for user"

  unfoldable pub message : Error X → Str
  message (Error.database e) = database_message e
  message (Error.redis e) = external e
  message (Error.config e) = config_message e
  message (Error.self_test e) = codes "Error while running self test: " ++ self_test_message e
  message (Error.signal_hook e) = codes "Failed to set signal hook: " ++ external e
  message (Error.socket e) = codes "Failed to listen to socket: " ++ socket_message e
  message (Error.authentication e) =
      codes "Error while handling authentication: " ++ authentication_message e
  message (Error.next_cloud e) =
      codes "Error while communicating with Nextcloud: " ++ nextcloud_message e
  message (Error.system_d e) = codes "Failed to notify SystemD: " ++ external e
