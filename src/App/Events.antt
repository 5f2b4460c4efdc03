-- ===== src/App/Events.antt =====
-- src/lib.rs: what an event leaves as it is.
use notify_push.Common.{
  ℕ, ◌≡◌, refl, ◌∙◌, List, [], ◌∷◌, Option-cases, Result, ok, err, nat_eq, inl, inr,
}
use notify_push.Common.Text.{Str}
use notify_push.User.{UserId, user_eq}
use notify_push.Message.{PushMessage}
use notify_push.Error.{DatabaseError}
use notify_push.Storage.{Clock}
use notify_push.Event.{Event}
use notify_push.Event
use notify_push.Redis
use notify_push.Redis.{RedisConnection}
use notify_push.Connection.Active.{Hub, send_to_user}
use notify_push.App.{
  App, Crates, look_up, send_to_users, notify, notify_found, push_spec, set_metrics, handle_event,
}

module _ {V X : Type 0} (cr : Crates V X) where
  -- The connections and the channels with their receivers are the same.
  pub record SameConnections (a b : Hub cr.bc cr.users) : Type 0 where
    pub connections_same : a.connections ≡ b.connections
    pub made_same : cr.bc.made a.world ≡ cr.bc.made b.world
    pub receivers_same : (j : ℕ) → cr.bc.receivers j a.world ≡ cr.bc.receivers j b.world

  same_self : (a : Hub cr.bc cr.users) → SameConnections a a
  same_self a = record { connections_same = refl; made_same = refl; receivers_same = λ j. refl }

  same_trans :
      (a b c : Hub cr.bc cr.users) → SameConnections a b → SameConnections b c → SameConnections a c
  same_trans a b c p q = record {
    connections_same = p.connections_same ∙ q.connections_same;
    made_same = p.made_same ∙ q.made_same;
    receivers_same = λ j. p.receivers_same j ∙ q.receivers_same j;
  }

  send-same :
      (user : UserId) (msg : PushMessage V) (hub : Hub cr.bc cr.users)
      → SameConnections (send_to_user cr.bc cr.users user msg hub) hub
  unfolding send_to_user
  send-same user msg hub = elim (Option-cases (cr.users.get user hub.connections)) [
    | inl e ↦ rw (send_to_user, e) (same_self hub)
    | inr (tx, e) ↦
        rw (send_to_user, e)
          (record {
            connections_same = refl;
            made_same = cr.bc.send_made tx msg hub.world;
            receivers_same = λ j. cr.bc.send_receivers tx msg j hub.world;
          })
  ]

  send_all-same :
      (users : List UserId) (msg : PushMessage V) (hub : Hub cr.bc cr.users)
      → SameConnections (send_to_users cr users msg hub) hub
  unfolding send_to_users
  send_all-same [] msg hub = same_self hub
  send_all-same (user ∷ users) msg hub =
      same_trans _ _ _ (send_all-same users msg (send_to_user cr.bc cr.users user msg hub))
        (send-same user msg hub)

  pub found-same :
      (msg : PushMessage V) (found : Result (List UserId) (DatabaseError X)) (app : App cr)
      → SameConnections (notify_found cr msg (found, app)).hub app.hub
  unfolding notify_found
  found-same msg (ok users) app = send_all-same users msg app.hub
  found-same msg (err e) app = same_self app.hub

  looked_same :
      (msg : PushMessage V) (clock : Clock) (storage : ℕ) (path : Str) (app : App cr)
      → SameConnections (notify_found cr msg (look_up cr clock storage path app)).hub app.hub
  unfolding look_up
  looked_same msg clock storage path app =
      let (found, after) = look_up cr clock storage path app in
      same_trans _ after.hub app.hub (found-same msg found after)
        (record { connections_same = refl; made_same = refl; receivers_same = λ j. refl })

  spec-same :
      (pushed : Result cr.Logger X) (app : App cr)
      → SameConnections (push_spec cr pushed app).hub app.hub
  unfolding push_spec
  spec-same (ok log_handle) app = same_self app.hub
  spec-same (err e) app = same_self app.hub

  metrics-same :
      (redis : Result (RedisConnection cr.redis) X) (app : App cr)
      → SameConnections (set_metrics cr redis app).hub app.hub
  unfolding set_metrics
  metrics-same (ok redis) app = same_self app.hub
  metrics-same (err e) app = same_self app.hub

  -- No event changes who is connected: the map of the connections, the channels that were made and
  -- the receivers of each channel are the same after it.
  pub handle_event-SameConnections :
      (now : ℕ) (clock : Clock) (event : Event V) (app : App cr)
      → SameConnections (handle_event cr now clock event app).hub app.hub
  unfolding handle_event notify
  handle_event-SameConnections now clock (Event.storage_update e) app =
      looked_same _ clock e.storage e.path app
  handle_event-SameConnections now clock (Event.group_update e) app = send-same e.user _ app.hub
  handle_event-SameConnections now clock (Event.share_create e) app = send-same e.user _ app.hub
  handle_event-SameConnections now clock (Event.test_cookie cookie) app = same_self app.hub
  handle_event-SameConnections now clock (Event.activity e) app = send-same e.user _ app.hub
  handle_event-SameConnections now clock (Event.notification e) app = send-same e.user _ app.hub
  handle_event-SameConnections now clock (Event.pre_auth e) app = same_self app.hub
  handle_event-SameConnections now clock (Event.custom e) app = send-same e.user _ app.hub
  handle_event-SameConnections now clock (Event.config (Event.Config.log_spec spec)) app =
      spec-same (cr.parse_and_push_temp_spec spec app.log_handle) app
  handle_event-SameConnections now clock (Event.config Event.Config.log_restore) app =
      same_self app.hub
  handle_event-SameConnections now clock (Event.query Event.Query.metrics) app =
      metrics-same (Redis.connect cr.redis app.redis) app
  handle_event-SameConnections now clock (Event.signal Event.Signal.reset) app = same_self app.hub
