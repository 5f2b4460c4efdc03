-- ===== src/Connection/Auth.antt =====
-- src/connection.rs: `socket_auth`, with the tokens of `App::pre_auth`.
pub mod Tokens
pub mod Race
use notify_push.Common.{
  ℕ, ◌+◌, ◌-◌, List, [], ◌∷◌, Option, none, some, Bool, true, false, if◌then◌else◌, ltb, Result, ok,
  err, ◌>>=◌, map_err, ok_or, is_empty, from_secs,
}
use notify_push.Common.Text.{Str, str_eq}
use notify_push.Ws.{WsMessage, text}
use notify_push.User.{UserId}
use notify_push.Error.{AuthenticationError, WebSocketError}
use notify_push.Dash.{DashMap}
use notify_push.Nc.{Web, Client, verify_credentials}

-- What `rx.next()` gives: the end of the stream, or a message, or an error.
abbrev pub Next : Type 0 → Type 0
Next X = Option (Result WsMessage X)

-- `Message::to_str`: only a text message is one.
abbrev pub to_str : WsMessage → Option Str
to_str (text s) = some s
to_str _ = none

module _ {X : Type 0} where
  unfoldable pub read_socket_auth_message : Next X → Result WsMessage (WebSocketError X)
  read_socket_auth_message (some (ok msg)) = ok msg
  read_socket_auth_message (some (err e)) = err (WebSocketError.error e)
  read_socket_auth_message none = err WebSocketError.disconnected

  -- A message of the client, as text.
  unfoldable pub read_text : Next X → Result Str (AuthenticationError X)
  unfolding read_socket_auth_message
  read_text next = do
    msg ← map_err AuthenticationError.socket (read_socket_auth_message next)
    ok_or (to_str msg) AuthenticationError.invalid_message

-- The test of the pass over the tokens.
abbrev pub later : ℕ → Str → ℕ × UserId → Bool
later cutoff _ (time, _) = ltb cutoff time

-- The values of `pre_auth`.
abbrev pub Tokens : Type 1
Tokens = DashMap Str (ℕ × UserId)

module _ {X : Type 0} (web : Web X) (dm : Tokens) (user_of : Str → UserId)
    (client : Client web) where
  -- The `if let` on the token that is found.
  unfoldable pub admit :
      List web.Ip → Str → Str → Option (ℕ × UserId) → Result UserId (AuthenticationError X)
  admit forwarded_for username password (some (_, user)) = ok user
  admit forwarded_for username password none =
      if is_empty username
      then err AuthenticationError.invalid
      else verify_credentials web user_of client username password forwarded_for

  -- From the two messages on.
  unfoldable pub authenticate :
      ℕ → List web.Ip → Str → Str → dm.Map → Result UserId (AuthenticationError X) × dm.Map
  authenticate now forwarded_for username password pre_auth =
      let kept = dm.retain (later (now - from_secs 15)) pre_auth in
      (admit forwarded_for username password (dm.get password kept), dm.remove password kept)

  -- The two reads are given by what they find.
  unfoldable pub socket_auth :
      ℕ → List web.Ip → Next X → Next X → dm.Map → Result UserId (AuthenticationError X) × dm.Map
  unfolding authenticate
  socket_auth now forwarded_for username_msg password_msg pre_auth = elim (read_text username_msg) [
    | err e ↦ (err e, pre_auth)
    | ok username ↦ elim (read_text password_msg) [
      | err e ↦ (err e, pre_auth)
      | ok password ↦ authenticate now forwarded_for username password pre_auth
    ]
  ]
