-- ===== src/TestClient/Login.antt =====
-- test_client/src/main.rs: the arguments, the request for the endpoint, and what the client sends.
use notify_push.Common.{
  ℕ, List, [], ◌∷◌, ◌++◌, Option, none, some, Bool, true, if◌then◌else◌, Result, ok, err, ◌>>=◌,
  map_err, ok_or, ◌≡◌, refl,
}
use notify_push.Common.Text.{Str, codes, str_eq, starts_with}
use notify_push.Ws.{WsMessage, text, Json}
use notify_push.User.{UserId}
use notify_push.Nc.{Web, Client}
use notify_push.Connection.Auth.{
  Tokens, socket_auth, authenticate, read_text, read_socket_auth_message,
}
use notify_push.Connection.Socket.{Loop, ConnectionOptions, on_client}
use notify_push.TestClient.{Received, read_all}

-- What the crates `ureq`, `base64`, `serde_json`, `url` and `tungstenite` give.
pub record Crates (X : Type 0) : Type 1 where
  pub Value : Type 0
  pub Object : Type 0
  pub Url : Type 0
  pub Socket : Type 0
  pub get : Str → List (Str × Str) → Result Str X
  pub base64 : Str → Str
  pub from_str : Str → Result Value X
  pub index : Value → Str → Value
  pub as_object : Value → Option Object
  pub member : Object → Str → Option Value
  pub as_str : Value → Option Str
  pub display : Value → Str
  pub parse_url : Str → Result Url X
  pub connect : Url → Result Socket X
  pub send : Socket → WsMessage → Result (Unit {0}) X

-- A report: an error of a crate, with a context or without, or a text.
pub data Report (X : Type 0) : Type 0 where
  external : X → Report X
  context : Str → X → Report X
  msg : Str → Report X

module _ {X : Type 0} (crates : Crates X) where
  -- The `if let` on `notify_push`, and the branches after it.
  unfoldable pub websocket_of : Option crates.Value → Option crates.Value → Result Str (Report X)
  websocket_of (some notify_push) files_sharing =
      ok_or
        (crates.as_str
          (crates.index (crates.index notify_push (codes "endpoints")) (codes "websocket")))
        (msg (codes "invalid notify_push capabilities"))
  websocket_of none none = err (
      msg (
        codes
          "capabilities response doesn't contain expect items, credentials are probably invalid"))
  websocket_of none (some _) =
      err (msg (codes "notify_push app doesn't seem to be enabled or setup"))

  unfoldable pub endpoint_of : crates.Value → Result Str (Report X)
  unfolding websocket_of
  endpoint_of json =
      elim (crates.as_object (
        crates.index (crates.index (crates.index json (codes "ocs")) (codes "data"))
          (codes "capabilities"))) [
            | some capabilities ↦
                websocket_of (crates.member capabilities (codes "notify_push"))
                  (crates.member capabilities (codes "files_sharing"))
            | none ↦ err (msg (codes "invalid capabilities response: " ++ crates.display json))
          ]

  unfoldable pub get_endpoint : Str → Str → Str → Result Str (Report X)
  unfolding endpoint_of
  get_endpoint nc_url user password = do
    raw ← map_err external (
        crates.get (nc_url ++ codes "/ocs/v2.php/cloud/capabilities") (
          (codes "Authorization", codes "Basic " ++ crates.base64 (user ++ codes ":" ++ password))
          ∷ (codes "Accept", codes "application/json")
          ∷ (codes "OCS-APIREQUEST", codes "true")
          ∷ []))
    json ←
        map_err (context (codes "Failed to decode json capabilities response: " ++ raw))
          (crates.from_str raw)
    endpoint_of json

  -- The messages that the client sends, with the context that an error of each gets.
  unfoldable pub login : Str → Str → List (Str × WsMessage)
  login username password =
      (codes "Failed to send username", text username)
      ∷ (codes "Failed to send password", text password)
      ∷ (codes "Failed to send username", text (codes "listen notify_file_id"))
      ∷ []

  unfoldable pub send_all : crates.Socket → List (Str × WsMessage) → Result (Unit {0}) (Report X)
  send_all socket [] = ok tt
  send_all socket ((why, m) ∷ rest) = do
    _ ← map_err (context why) (crates.send socket m)
    send_all socket rest

  -- From the address on. `messages` is what the server then sends.
  unfoldable pub talk : Str → Str → Str → List WsMessage → Result (List Received) (Report X)
  unfolding login send_all read_all
  talk ws_url username password messages = do
    url ← map_err (context (codes "Invalid websocket url")) (crates.parse_url ws_url)
    socket ← map_err (context (codes "Can't connect to server")) (crates.connect url)
    _ ← send_all socket (login username password)
    ok (read_all messages)

  -- The arguments are those after the program's name; `none` is the usage message.
  unfoldable pub main : List Str → List WsMessage → Option (Result (List Received) (Report X))
  unfolding get_endpoint talk
  main (nc_url ∷ username ∷ password ∷ _) messages = some (do
    ws_url ←
        if starts_with nc_url (codes "ws") then ok nc_url else get_endpoint nc_url username password
    talk ws_url username password messages)
  main _ messages = none

  -- The server takes the first two messages of the client as the name and the password, and the third
  -- turns the ids of files on.
  pub login-socket_auth :
      {V Y : Type 0} (web : Web Y) (dm : Tokens) (user_of : Str → UserId) (client : Client web)
      (now : ℕ) (ips : List web.Ip) (username password : Str) (pre_auth : dm.Map) (json : Json V)
      (debounce_enable : Bool) (opts : ConnectionOptions) (opened : ℕ) (l : Loop V)
      → (name_msg password_msg listen_msg : Str × WsMessage) × (login username password
          ≡ name_msg ∷ password_msg ∷ listen_msg ∷ [])
        × (socket_auth web dm user_of client now ips
              (some (ok name_msg.1))
              (some (ok password_msg.1))
              pre_auth
            ≡ authenticate web dm user_of client now ips username password pre_auth)
        × (on_client json debounce_enable opts opened listen_msg.1 l
            ≡ record l { listen_file_id = true })
  unfolding login socket_auth read_text read_socket_auth_message on_client
  login-socket_auth web dm user_of client now ips username password pre_auth json debounce_enable
        opts opened l =
      (
        (_, text username),
        (_, text password),
        (_, text (codes "listen notify_file_id")),
        refl,
        refl,
        refl,
      )
