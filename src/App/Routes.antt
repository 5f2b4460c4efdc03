-- ===== src/App/Routes.antt =====
-- src/lib.rs: what `serve` answers on each route.
use notify_push.Common.{
  ℕ, ◌≡◌, refl, List, [], ◌∷◌, ◌++◌, Option, none, some, Bool, ◌&&◌, if◌then◌else◌, Result, ok, err,
  or, length, nat_eq, ◌==◌,
}
use notify_push.Common.Text.{Str, codes, str_eq}
use notify_push.Common.Decimal.{to_string, from_str}
use notify_push.User.{UserId, user_eq}
use notify_push.Error.{NextCloudError, DatabaseError, nextcloud_message}
use notify_push.Nc.{u32_max, get_test_cookie, test_set_remote}
use notify_push.Redis.{RedisConnection}
use notify_push.Redis
use notify_push.Storage.{Clock}
use notify_push.App.{App, Crates, look_up}

module _ {V X : Type 0} (cr : Crates V X) where
  pub data Route : Type 0 where
    socket cookie_test reverse_cookie_test version : Route
    mapping_test : ℕ → Route
    remote_test : cr.web.Ip → Route

  -- The filters, each with its path. `post` is whether the method is POST, `upgrade` whether the
  -- request asks for a websocket.
  abbrev pub when : {A : Type 0} → Bool → A → Option A
  when b a = if b then some a else none

  abbrev then_mapping : Option ℕ → Option Route
  then_mapping none = none
  then_mapping (some storage_id) = some (mapping_test storage_id)

  abbrev then_remote : Result cr.web.Ip X → Option Route
  then_remote (ok remote) = some (remote_test remote)
  then_remote (err e) = none

  pub two_parts : Bool → Str → Str → Option Route
  two_parts post first second =
      or (when (first == codes "test" && second == codes "cookie") cookie_test) (
        or (when (first == codes "test" && second == codes "reverse_cookie") reverse_cookie_test)
          (when (first == codes "test" && second == codes "version" && post) version))

  pub three_parts : Str → Str → Str → Option Route
  three_parts first second param =
      if first == codes "test"
      then or (if second == codes "mapping" then then_mapping (from_str u32_max param) else none)
          (if second == codes "remote" then then_remote (cr.web.read_ip param) else none)
      else none

  unfoldable pub direct_route : Bool → Bool → List Str → Option Route
  unfolding two_parts three_parts
  direct_route post upgrade (first ∷ []) = when (first == codes "ws" && upgrade) socket
  direct_route post upgrade (first ∷ second ∷ []) = two_parts post first second
  direct_route post upgrade (first ∷ second ∷ param ∷ []) = three_parts first second param
  direct_route post upgrade _ = none

  -- The routes, and the routes below `push`.
  pub below_push : Bool → Bool → List Str → Option Route
  below_push post upgrade [] = none
  below_push post upgrade (first ∷ path) =
      if first == codes "push" then direct_route post upgrade path else none

  unfoldable pub route : Bool → Bool → List Str → Option Route
  unfolding below_push
  route post upgrade path = or (direct_route post upgrade path) (below_push post upgrade path)

  -- The addresses that a websocket connection starts with.
  unfoldable pub socket_addresses : Option cr.web.Ip → List cr.web.Ip → List cr.web.Ip
  socket_addresses (some remote) forwarded_for = forwarded_for ++ remote ∷ []
  socket_addresses none forwarded_for = forwarded_for

  unfoldable pub answer_cookie : App cr → Str
  answer_cookie app = to_string app.test_cookie

  -- `status` and `external` are the `Display` of status codes and of the errors of other crates.
  abbrev printed :
      {A : Type 0} → (ℕ → Str) → (X → Str) → (A → Str) → Result A (NextCloudError X) → Str
  printed status external show (ok a) = show a
  printed status external show (err e) = nextcloud_message status external e

  unfoldable pub answer_reverse_cookie : (ℕ → Str) → (X → Str) → App cr → Str
  answer_reverse_cookie status external app =
      printed status external to_string (get_test_cookie cr.web app.nc_client)

  pub count_users : Result (List UserId) (DatabaseError X) → ℕ
  count_users (ok users) = length users
  count_users (err e) = 0

  unfoldable pub answer_mapping : Clock → ℕ → App cr → Str × App cr
  unfolding count_users
  answer_mapping clock storage_id app =
      let (users, app) = look_up cr clock storage_id [] app in (to_string (count_users users), app)

  unfoldable pub answer_remote : (ℕ → Str) → (X → Str) → cr.web.Ip → App cr → Str
  answer_remote status external remote app =
      printed status external cr.web.show_ip (test_set_remote cr.web app.nc_client remote)

  pub set_version : Str → Result (RedisConnection cr.redis) X → App cr → Str × App cr
  set_version number (ok client) app = (
    codes "set",
    record app {
      server = (Redis.set cr.redis client (codes "notify_push_version") number app.server).1;
    },
  )
  set_version number (err e) app = (codes "error", app)

  -- `number` is the version that the server was built as.
  unfoldable pub answer_version : Str → App cr → Str × App cr
  unfolding set_version
  answer_version number app = set_version number (Redis.connect cr.redis app.redis) app

  route_direct :
      (post upgrade : Bool) (path : List Str) (r : Route)
      → direct_route post upgrade path ≡ some r
      → route post upgrade path ≡ some r
  unfolding route
  route_direct post upgrade path r e = rw (route, e) refl

  -- Nothing but the filter for it answers a path that starts with `push`.
  push_only :
      (post upgrade : Bool) (path : List Str)
      → direct_route post upgrade (codes "push" ∷ path) ≡ none
  unfolding direct_route two_parts three_parts
  push_only post upgrade [] = refl
  push_only post upgrade (a ∷ []) = refl
  push_only post upgrade (a ∷ b ∷ []) = refl
  push_only post upgrade (a ∷ b ∷ c ∷ path) = refl

  -- Each path that a route answers is answered by that route below `push` too, and below `push`
  -- nothing else is answered.
  pub route-push :
      (post upgrade : Bool) (path : List Str)
      → (route post upgrade (codes "push" ∷ path) ≡ direct_route post upgrade path)
        × ((r : Route) → direct_route post upgrade path ≡ some r → route post upgrade path ≡ some r)
  unfolding below_push route direct_route
  route-push post upgrade path = (rw (route, push_only) refl, route_direct post upgrade path)
