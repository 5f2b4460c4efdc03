-- ===== src/Connection/Handshake.antt =====
-- src/connection.rs: the start of `handle_user_socket`, up to the registered connection.
use notify_push.Common.{List, [], ◌∷◌, ◌++◌, Option, none, some, Result, ok, err, ℕ}
use notify_push.Common.Text.{Str, codes}
use notify_push.Ws.{WsMessage, text}
use notify_push.User.{UserId, user_eq}
use notify_push.Message.{PushMessage}
use notify_push.Metrics.{add_connection}
use notify_push.Error.{Error, AuthenticationError, authentication_message, message}
use notify_push.Dash.{DashMap}
use notify_push.Broadcast.{Broadcast}
use notify_push.Connection.Active.{Hub, add}

-- How the authentication went; it may take 15 seconds.
pub data Attempt (X : Type 0) : Type 0 where
  finished : Result UserId (AuthenticationError X) → Attempt X
  timed_out : Attempt X

-- `status` and `external` are the `Display` of status codes and of the errors of other crates.
module _ {V X : Type 0} (status : ℕ → Str) (external : X → Str) (bc : Broadcast (PushMessage V))
    (dm : DashMap UserId bc.Sender) where
  -- After `add`.
  unfoldable pub register :
      Result bc.Receiver (Error X) × Hub bc dm → List WsMessage × Option bc.Receiver × Hub bc dm
  register (ok rx, hub) = ([], some rx, record hub { metrics = add_connection hub.metrics })
  register (err e, hub) = (text (message status external e) ∷ [], none, hub)

  -- What the client is sent, and the receiver of a connection that goes on.
  unfoldable pub handshake : Attempt X → Hub bc dm → List WsMessage × Option bc.Receiver × Hub bc dm
  unfolding register
  handshake (finished (ok user_id)) hub =
      let (sent, rx, hub) = register (add bc dm user_id hub) in
      (text (codes "authenticated") ∷ sent, rx, hub)
  handshake (finished (err e)) hub =
      (text (codes "err: " ++ authentication_message status external e) ∷ [], none, hub)
  handshake timed_out hub = (text (codes "Authentication timeout") ∷ [], none, hub)
