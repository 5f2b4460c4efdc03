-- ===== src/Lib.antt =====
-- The push server of the Nextcloud notify_push app: what it keeps, and what its parts do.
--
-- The server listens to redis for events, finds the users that an event concerns, and tells their
-- open websocket connections to refresh. The model follows the Rust sources:
--
-- Common: shared helpers (tests, lists, results, text as bytes, decimal numbers).
-- Ws: the websocket messages of `warp`, as the code builds and tells them apart, and the
--   interface to `serde_json` values.
-- Dash, Broadcast: the concurrent maps of `dashmap` and the channels of `tokio`, as interfaces
--   with the laws that the code relies on; each comes with an implementation for the examples.
-- Message (src/message.rs): updated files, push messages, the debouncing send queue. Its children
--   Files, Queue, History (Delivery, Spacing) hold the proofs.
-- Metrics (src/metrics.rs): the counters, which wrap at 2 ^ 64, and the metrics page.
-- Error (src/error.rs): the error enums and their messages, over the errors of other crates.
-- User (src/user.rs): user ids as hashes, and the names that the log shows. The hash function,
--   with the state that the process draws once, is a parameter.
-- PassthruHasher (src/passthru_hasher.rs): the hasher of maps whose keys are user ids.
-- Connection.Active (src/connection.rs, `ActiveConnections`): add, send_to_user, remove.
-- Connection.System (src/connection.rs, `handle_user_socket`): all connections at once, as a
--   sequence of events: a connection joins, is removed, and drops its receiver.
-- Connection.Socket (src/connection.rs, `handle_user_socket`): the loops `transmit` and `receive`
--   of one connection, one event at a time, with the frames that go to the client. Its children are
--   Keepalive and Gone (pings), Frames (what is sent) and Debounce.
-- Connection.Auth (src/connection.rs, `socket_auth`): the two messages that a client starts with,
--   and the tokens of `App::pre_auth`.
--   Auth.Race: logins that run at the same time, whose atomic steps interleave in any order.
-- Connection.Handshake (src/connection.rs, `handle_user_socket`): what the client is told of its
--   authentication, up to the registered connection.
-- Connection.Life (src/connection.rs): `handle_user_socket` as a whole, over the parts above.
-- Nc (src/nc.rs): the requests to the Nextcloud server, over an interface to HTTP and urls.
-- Config (src/config.rs, src/config/nc.rs): the options from the command line, the environment
--   (Config.Sources) and the file, their merging, and the configuration that comes of them.
-- Event (src/event.rs): the events of redis, and how a message becomes one.
-- Storage (src/storage_mapping.rs): who has access to a storage, cached for less than 5 minutes.
--   Storage.Tasks: look-ups that run at the same time, whose atomic steps interleave.
-- Redis (src/redis.rs): connections to one server or a cluster.
-- App (src/lib.rs): the server's state, `handle_event`; App.Start: `new`, `with_connection` and
--   `self_test`; App.Listen: the loop of `listen`, whose tasks take their steps in any order,
--   and the rounds of `listen_loop`, with the ledger of what users are to be told (App.Listen.Ledger);
--   App.Serve: `serve_at`, where the server listens;
--   App.Routes: the routes of `serve` and what they answer; App.Session: from the messages of
--   redis to the texts that one client is sent, the parts put together.
-- Main (src/main.rs): `main` and `run`, the start and the end of the process.
-- TestClient (test_client/src/main.rs): how the test client reads the messages of the server;
--   TestClient.Login: how it finds the server and what it sends.
-- Examples: tests, those of src/message.rs among them, and instances of the theorems.
--
-- Times and durations are numbers of nanoseconds since a moment at least 120 s before the process
-- starts, so the subtractions in `SendQueueItem::default` and before the send loop do not stop at
-- 0; `duration_since`, which saturates, is subtraction on the numbers. A word has 64 bits.
-- The loops of the source wait for events, so the model takes the list of events as an argument,
-- and needs no fuel.
--
-- A task of the server takes its steps in any order with those of the others: what is atomic is one
-- call on a shared map, one look at the clock, or one answer of the database: so in Connection.Auth.Race
-- and in Storage.Tasks. The others are coarser. In App.Listen a look-up of the users of a storage is
-- one step, and so is the handling of any other event; in Connection.System a connection is counted
-- and registered in one step, and removed and counted out in one.
--
-- Not modelled: log lines, the tokio runtime, TCP and TLS below their addresses, the derived parsing of
-- the command line, and the PHP app.
mod Common
pub mod Ws
pub mod Metrics
pub mod Error
pub mod Dash
pub mod PassthruHasher
pub mod Main
pub mod Broadcast
pub mod User
pub mod Nc
pub mod Config
pub mod Event
pub mod Storage
pub mod Redis
pub mod App
pub mod TestClient
pub mod Connection
mod Examples
pub mod Message
