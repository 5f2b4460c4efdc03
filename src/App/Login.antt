-- ===== src/App/Login.antt =====
-- src/lib.rs, src/connection.rs: a token is announced by an event and lets its user in.
use notify_push.Common.{ℕ, ◌+◌, ◌<◌, ◌≤◌, ◌≡◌, ◌≢◌, refl, some, ok, List, nat_eq, from_secs, arith}
use notify_push.Common.Text.{Str, str_eq, str_beq_self}
use notify_push.User.{UserId}
use notify_push.Storage.{Clock}
use notify_push.Event.{Event}
use notify_push.Connection.Auth.{authenticate}
use notify_push.Connection.Auth.Tokens.{authenticate_fresh, authenticate-tokens}
use notify_push.App.{App, Crates, handle_event}

module _ {V X : Type 0} (cr : Crates V X) where
  announced :
      (now : ℕ) (clock : Clock) (user : UserId) (token : Str) (app : App cr)
      → cr.tokens.get token
          (handle_event cr now clock
            (Event.pre_auth (record { user = user; token = token }))
            app).pre_auth
        ≡ some (now, user)
  unfolding handle_event
  announced now clock user token app = rw (cr.tokens.get-insert, str_beq_self token) refl

  -- A token that an event announced lets its user in with any name, if the connection comes less than
  -- 15 seconds after the event, at a time not before 15 seconds, and only once: afterwards the
  -- token is gone.
  pub handle_event-authenticate :
      (made now : ℕ) (clock : Clock) (user : UserId) (username token : Str) (ips : List cr.web.Ip)
      (user_of : Str → UserId) (app : App cr)
      → from_secs 15 ≤ now
      → now < made + from_secs 15
      → let announce = Event.pre_auth (record { user = user; token = token }) in
        let after = handle_event cr made clock announce app in
        let (result, left) =
          authenticate cr.web cr.tokens user_of after.nc_client now ips username token
            after.pre_auth in
        (result ≡ ok user)
        × ((made : ℕ) (other : UserId) → cr.tokens.get token left ≢ some (made, other))
  handle_event-authenticate made now clock user username token ips user_of app start h = (
    authenticate_fresh cr.web cr.tokens user_of _ now ips username token _ user
        (made, announced made clock user token app, omega arith),
    λ at other e.
        let kept =
          authenticate-tokens cr.web cr.tokens user_of _ now ips username token token _ at other in
        (kept.0 e).0 refl,
  )
