-- ===== src/Connection/Life.antt =====
-- src/connection.rs: `handle_user_socket` as a whole, from the authentication to the end of the loops.
pub mod Whole
use notify_push.Common.{ℕ, List, [], ◌∷◌, Option, none, some, Bool, Result, ok, err}
use notify_push.Common.Text.{Str}
use notify_push.Ws.{WsMessage, Json}
use notify_push.User.{UserId, user_eq}
use notify_push.Message.{PushMessage}
use notify_push.Metrics.{remove_connection}
use notify_push.Error.{AuthenticationError}
use notify_push.Dash.{DashMap}
use notify_push.Broadcast.{Broadcast}
use notify_push.Connection.Active.{Hub, remove}
use notify_push.Connection.Handshake.{Attempt, finished, timed_out, handshake}
use notify_push.Connection.Socket.{Event, Action, ConnectionOptions, start, run}

module _ {V X : Type 0} (status : ℕ → Str) (external : X → Str) (bc : Broadcast (PushMessage V))
    (dm : DashMap UserId bc.Sender) (json : Json V) (debounce_enable : Bool) where
  -- After the loops; the receiver is dropped when the function returns.
  unfoldable pub close : UserId → bc.Receiver → Hub bc dm → Hub bc dm
  close user_id rx hub =
      let hub : Hub bc dm =
        remove bc dm user_id (record hub { metrics = remove_connection hub.metrics }) in
      record hub { world = bc.drop rx hub.world }

  -- The connection that goes on, if there is one. `others` is what other tasks do to the connections
  -- while its loops run.
  unfoldable pub converse :
      ConnectionOptions
      → ℕ
      → List (ℕ × Event V)
      → (Hub bc dm → Hub bc dm)
      → UserId
      → List WsMessage × Option bc.Receiver × Hub bc dm
      → List WsMessage × List Action × Hub bc dm
  unfolding close
  converse opts opened es others user_id (sent, none, hub) = (sent, [], hub)
  converse opts opened es others user_id (sent, some rx, hub) = (
    sent,
    (run json debounce_enable opts opened es (start opts opened)).1,
    close user_id rx (others hub),
  )

  -- What is sent before the loops, what the loops do, and the connections afterwards.
  unfoldable pub handle_user_socket :
      ConnectionOptions
      → Attempt X
      → ℕ
      → List (ℕ × Event V)
      → (Hub bc dm → Hub bc dm)
      → Hub bc dm
      → List WsMessage × List Action × Hub bc dm
  unfolding converse
  handle_user_socket opts (finished (ok user_id)) opened es others hub =
      converse opts opened es others user_id
        (handshake status external bc dm (finished (ok user_id)) hub)
  handle_user_socket opts (finished (err e)) opened es others hub =
      let (sent, _, hub) = handshake status external bc dm (finished (err e)) hub in (sent, [], hub)
  handle_user_socket opts timed_out opened es others hub =
      let (sent, _, hub) = handshake status external bc dm timed_out hub in (sent, [], hub)
