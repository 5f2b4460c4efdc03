-- ===== src/Examples/Client.antt =====
-- test_client/src/main.rs: instances.
use notify_push.Common.{ℕ, ◌≡◌, refl, [], ◌∷◌, map, true, ok, err}
use notify_push.Common.Text.{Str, codes}
use notify_push.Common.Decimal.{to_string}
use notify_push.Ws.{Json}
use notify_push.User.{UserId, user_eq}
use notify_push.Message.{PushMessage, file, known, into_message}
use notify_push.Message
use notify_push.Error.{Error, AuthenticationError, authentication_message}
use notify_push.Connection.Active.{add}
use notify_push.Connection.Handshake.{finished, timed_out, handshake}
use notify_push.TestClient.{error, file_update, activity, authenticated, other, read_all}
use notify_push.TestClient.Frames.{read_all-into_message, read_all-handshake}
use notify_push.Examples.Whole.{crates, app}

abbrev bodies : Json ℕ
bodies = record { is_null = λ v. true; display = to_string; ids_to_string = λ ids. codes "[5]" }

read_all-into_message_example :
    read_all
      (map (into_message bodies true) (file (known (5 ∷ [])) ∷ Message.PushMessage.activity ∷ []))
    ≡ file_update (codes "notify_file_id [5]") ∷ activity ∷ []
read_all-into_message_example =
    read_all-into_message bodies true (file (known (5 ∷ [])) ∷ Message.PushMessage.activity ∷ [])
      (file_update (codes "notify_file_id [5]") ∷ activity ∷ []) refl

read_all-handshake_example :
    ((user : UserId) (rx : ℕ)
      → (add crates.bc crates.users {X = Str} user app.hub).0 ≡ ok rx
      → read_all
          (handshake to_string (λ s. s) crates.bc crates.users (finished (ok user)) app.hub).0
        ≡ authenticated ∷ [])
    × ((user : UserId)
        → (add crates.bc crates.users {X = Str} user app.hub).0
          ≡ err (Error.authentication AuthenticationError.limit_exceeded)
        → read_all
            (handshake to_string (λ s. s) crates.bc crates.users (finished (ok user)) app.hub).0
          ≡ authenticated
            ∷ other
                (codes "Error while handling authentication: Connection limit exceeded for user")
            ∷ [])
    × ((e : AuthenticationError Str)
        → read_all
            (handshake to_string (λ s. s) crates.bc crates.users (finished (err e)) app.hub).0
          ≡ error (authentication_message to_string (λ s. s) e) ∷ [])
    × (read_all (handshake to_string (λ s. s) crates.bc crates.users timed_out app.hub).0
        ≡ other (codes "Authentication timeout") ∷ [])
read_all-handshake_example = read_all-handshake to_string (λ s. s) crates.bc crates.users app.hub
