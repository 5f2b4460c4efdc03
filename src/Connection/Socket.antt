-- ===== src/Connection/Socket.antt =====
-- src/connection.rs: the two loops of `handle_user_socket`, `transmit` and `receive`, which share
-- the cell `expect_pong` and the option `listen_file_id`. The events of both come one at a time.
pub mod Bytes
pub mod Keepalive
pub mod Gone
pub mod Frames
pub mod Debounce
use notify_push.Common.{
  ℕ, zero, suc, ◌+◌, ◌-◌, ◌/◌, ◌%◌, List, [], ◌∷◌, ◌++◌, Option, none, some, Bool, true, false, not,
  ◌&&◌, nat_eq, ◌==◌, if◌then◌else◌, ltb, from_secs, usize_mod,
}
use notify_push.Common.Text.{Str, codes, str_eq}
use notify_push.Ws.{WsMessage, text, ping, pong, Json}
use notify_push.Message.{PushMessage, SendQueue, push, drain, into_message}
use notify_push.Message as Queue

abbrev pub ping_interval : ℕ
ping_interval = from_secs 30

pub record ConnectionOptions : Type 0 where
  pub listen_file_id : Bool
  pub max_debounce_time : ℕ
  pub max_connection_time : ℕ

unfoldable pub new : ℕ → ℕ → ConnectionOptions
new max_debounce_time max_connection_time = record {
  listen_file_id = false;
  max_debounce_time = max_debounce_time;
  max_connection_time = from_secs max_connection_time;
}

-- `to_le_bytes`, of as many bytes.
pub le_bytes : ℕ → ℕ → List ℕ
le_bytes zero n = []
le_bytes (suc k) n = n % 256 ∷ le_bytes k (n / 256)

unfoldable pub to_le_bytes : ℕ → List ℕ
unfolding le_bytes
to_le_bytes n = le_bytes 8 n

-- Why a loop ended.
pub data End : Type 0 where
  time_exceeded no_pong reset_request wrong_pong socket_error client_closed : End

-- What is done to the sending half, and to the metrics, in order.
pub data Action : Type 0 where
  send : WsMessage → Action
  feed : WsMessage → Action
  flush : Action
  close : Action
  add_message : Action

-- What the loops wait for: a message or nothing for 500 ms (with the number of connections and the
-- random number of that moment), messages that were missed, a reset; and what the client sent.
pub data Event (V : Type 0) : Type 0 where
  message : PushMessage V → Event V
  elapsed : ℕ → ℕ → Event V
  lagged : Event V
  reset : Event V
  client : WsMessage → Event V
  client_error : Event V
  client_end : Event V

-- The variables of the loops. `ended` is set by `break`.
pub record Loop (V : Type 0) : Type 0 where
  pub send_queue : SendQueue V
  pub last_send : ℕ
  pub expect_pong : ℕ
  pub listen_file_id : Bool
  pub ended : Option End

unfoldable pub start : {V : Type 0} → ConnectionOptions → ℕ → Loop V
start opts connection_start_time = record {
  send_queue = Queue.default connection_start_time;
  last_send = connection_start_time - ping_interval;
  expect_pong = 0;
  listen_file_id = opts.listen_file_id;
  ended = none;
}

module _ {V : Type 0} (json : Json V) (debounce_enable : Bool) (opts : ConnectionOptions)
    (connection_start_time : ℕ) where
  -- `Ok(Ok(msg))`.
  unfoldable pub on_message : PushMessage V → ℕ → Loop V → Loop V × List Action
  on_message msg now l =
      let (send_queue, out) = push debounce_enable l.send_queue msg now in
      elim out [
        | none ↦ (record l { send_queue = send_queue }, [])
        | some m ↦ (
          record l { send_queue = send_queue; last_send = now },
          add_message ∷ send (into_message json l.listen_file_id m) ∷ [],
        )
      ]

  feed_all : Bool → List (PushMessage V) → List Action
  feed_all listen_file_id [] = []
  feed_all listen_file_id (m ∷ ms) =
      add_message ∷ feed (into_message json listen_file_id m) ∷ feed_all listen_file_id ms

  -- The ping, after the drained messages were fed.
  unfoldable pub on_quiet : ℕ → ℕ → Loop V → List Action → Loop V × List Action
  on_quiet ping_value now l fed =
      if ltb ping_interval (now - l.last_send)
      then (if ltb 0 l.expect_pong
          then (record l { expect_pong = ping_value; ended = some no_pong }, fed)
          else (
            record l { expect_pong = ping_value; last_send = now },
            fed ++ feed (ping (to_le_bytes ping_value)) ∷ flush ∷ [],
          ))
      else (l, fed ++ flush ∷ [])

  abbrev last_fed : List (PushMessage V) → ℕ → ℕ → ℕ
  last_fed [] now last_send = last_send
  last_fed (m ∷ ms) now last_send = now

  -- `Err(_timout)`.
  unfoldable pub on_elapsed : ℕ → ℕ → ℕ → Loop V → Loop V × List Action
  unfolding feed_all on_quiet
  on_elapsed active_connection_count ping_value now l =
      if not (opts.max_connection_time == 0)
        && ltb opts.max_connection_time (now - connection_start_time)
      then (record l { ended = some time_exceeded }, close ∷ [])
      else (let (send_queue, ms) =
            drain l.send_queue now ((active_connection_count + 50000) % usize_mod)
              opts.max_debounce_time in
          on_quiet ping_value now
            (record l { send_queue = send_queue; last_send = last_fed ms now l.last_send })
            (feed_all l.listen_file_id ms))

  -- The body of `receive`.
  unfoldable pub on_client : WsMessage → Loop V → Loop V
  on_client (pong payload) l =
      if payload == to_le_bytes l.expect_pong
      then record l { expect_pong = 0 }
      else record l { expect_pong = 0; ended = some wrong_pong }
  on_client (text content) l =
      if content == codes "listen notify_file_id" then record l { listen_file_id = true } else l
  on_client _ l = l

  -- One event of a connection that is open.
  on_event : Event V → ℕ → Loop V → Loop V × List Action
  unfolding on_message on_elapsed on_client
  on_event (message msg) now l = on_message msg now l
  on_event (elapsed active_connection_count ping_value) now l =
      on_elapsed active_connection_count ping_value now l
  on_event lagged now l = (l, [])
  on_event reset now l = (record l { ended = some reset_request }, close ∷ [])
  on_event (client msg) now l = (on_client msg l, [])
  on_event client_error now l = (record l { ended = some socket_error }, [])
  on_event client_end now l = (record l { ended = some client_closed }, [])

  -- `select`: when one loop has ended, the other is not run again.
  unfoldable pub step : Event V → ℕ → Loop V → Loop V × List Action
  unfolding on_event
  step e now l = elim l.ended [ some _ ↦ (l, []) | none ↦ on_event e now l ]

  unfoldable pub run : List (ℕ × Event V) → Loop V → Loop V × List Action
  run [] l = (l, [])
  run ((now, e) ∷ es) l =
      let (l', done) = step e now l in let (l'', rest) = run es l' in (l'', done ++ rest)
