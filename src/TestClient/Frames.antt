-- ===== src/TestClient/Frames.antt =====
-- test_client/src/main.rs, src/message.rs, src/connection.rs: the server's messages, as read by the
-- test client.
use notify_push.Common.{
  ℕ, ◌≡◌, refl, List, [], ◌∷◌, ◌++◌, Option, none, some, Bool, true, false, ok, err, arith, ap, sym,
  ◌∙◌, map,
}
use notify_push.Common.Text.{Str, codes}
use notify_push.Ws.{WsMessage, Json}
use notify_push.User.{UserId, user_eq}
use notify_push.Message.{PushMessage, UpdatedFiles, file, known, unknown, into_message}
use notify_push.Message
use notify_push.Error.{Error, AuthenticationError, authentication_message, message}
use notify_push.Dash.{DashMap}
use notify_push.Broadcast.{Broadcast}
use notify_push.Connection.Active.{Hub, add}
use notify_push.Connection.Handshake.{finished, timed_out, handshake}
use notify_push.TestClient.{
  Received, error, file_update, activity, notification, authenticated, other, classify, until_error,
  read_all,
}

abbrev pub also : Option Received → Option (List Received) → Option (List Received)
also none rest = none
also (some r) none = none
also (some r) (some rs) = some (r ∷ rs)

also-some :
    (first : Option Received) (rest : Option (List Received)) (rs : List Received)
    → also first rest ≡ some rs
    → (r : Received) × (more : List Received) × (first ≡ some r)
      × (rest ≡ some more)
      × (r ∷ more ≡ rs)
also-some none rest rs e = absurd (cc)
also-some (some r) none rs e = absurd (cc)
also-some (some r) (some more) rs e = (r, more, refl, refl, ground arith)

module _ {V : Type 0} (json : Json V) where
  -- What a push should be read as, if it is not a custom one. A client gets the ids if it asked for
  -- them and they are known.
  abbrev pub expected : Bool → PushMessage V → Option Received
  expected true (file (known ids)) =
      some (file_update (codes "notify_file_id " ++ json.ids_to_string ids))
  expected _ (file _) = some (file_update (codes "notify_file"))
  expected _ Message.PushMessage.activity = some activity
  expected _ Message.PushMessage.notification = some notification
  expected _ (Message.PushMessage.custom ty body) = none

  read_expected :
      (listen_file_id : Bool) (m : PushMessage V) (messages : List WsMessage) (r : Received)
      → some r ≡ expected listen_file_id m
      → read_all (into_message json listen_file_id m ∷ messages) ≡ r ∷ read_all messages
  unfolding read_all into_message classify until_error
  read_expected true (file (known ids)) messages r e = cc
  read_expected true (file unknown) messages r e = cc
  read_expected false (file ids) messages r e = cc
  read_expected listen_file_id Message.PushMessage.activity messages r e = cc
  read_expected listen_file_id Message.PushMessage.notification messages r e = cc
  read_expected listen_file_id (Message.PushMessage.custom ty body) messages r e = absurd (cc)

  -- What each push should be read as, if none is a custom one.
  abbrev pub all_expected : Bool → List (PushMessage V) → Option (List Received)
  all_expected listen_file_id [] = some []
  all_expected listen_file_id (m ∷ ms) =
      also (expected listen_file_id m) (all_expected listen_file_id ms)

  -- The client tells updates of files, activities and notifications by their texts, in order, with
  -- the ids of the files if it asked for them and they are known.
  pub read_all-into_message :
      (listen_file_id : Bool) (ms : List (PushMessage V)) (rs : List Received)
      → all_expected listen_file_id ms ≡ some rs
      → read_all (map (into_message json listen_file_id) ms) ≡ rs
  unfolding read_all
  read_all-into_message listen_file_id [] rs e = ground arith
  read_all-into_message listen_file_id (m ∷ ms) rs e =
      let (r, rest, f, g, same) =
        also-some (expected listen_file_id m) (all_expected listen_file_id ms) rs e in
      read_expected listen_file_id m _ r (sym f)
      ∙ ap (λ l. r ∷ l) (read_all-into_message listen_file_id ms rest g)
      ∙ same

module _ {V X : Type 0} (status : ℕ → Str) (external : X → Str) (bc : Broadcast (PushMessage V))
    (dm : DashMap UserId bc.Sender) where
  -- What the client reads of the start of a connection: that it is authenticated, and nothing more if
  -- there is room for the connection; that it is authenticated and then a text that it does not
  -- know, if there is no room; an error, if the authentication fails; and a text that it does not
  -- know, if the authentication takes too long.
  pub read_all-handshake :
      (hub : Hub bc dm)
      → ((user : UserId) (rx : bc.Receiver)
          → (add bc dm {X = X} user hub).0 ≡ ok rx
          → read_all (handshake status external bc dm (finished (ok user)) hub).0
            ≡ authenticated ∷ [])
        × ((user : UserId)
            → (add bc dm {X = X} user hub).0
              ≡ err (Error.authentication AuthenticationError.limit_exceeded)
            → read_all (handshake status external bc dm (finished (ok user)) hub).0
              ≡ authenticated
                ∷ other (
                    codes "Error while handling authentication: Connection limit exceeded for user")
                ∷ [])
        × ((e : AuthenticationError X)
            → read_all (handshake status external bc dm (finished (err e)) hub).0
              ≡ error (authentication_message status external e) ∷ [])
        × (read_all (handshake status external bc dm timed_out hub).0
            ≡ other (codes "Authentication timeout") ∷ [])
  unfolding read_all handshake classify until_error message authentication_message
  read_all-handshake hub =
      ((λ user rx e. rw (handshake, e) refl), (λ user e. rw (handshake, e) refl), (λ e. refl), refl)
