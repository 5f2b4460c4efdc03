-- ===== src/Connection/Active.antt =====
-- src/connection.rs: `ActiveConnections`, the channel of each user with an open connection.
use notify_push.Common.{ℕ, none, some, if◌then◌else◌, ltb, nat_eq, ◌==◌, Result, ok, err}
use notify_push.User.{UserId, user_eq}
use notify_push.Message.{PushMessage}
use notify_push.Metrics.{Metrics, add_user, remove_user}
use notify_push.Error.{Error, AuthenticationError}
use notify_push.Dash.{DashMap}
use notify_push.Broadcast.{Broadcast}

abbrev pub user_connection_limit : ℕ
user_connection_limit = 64

module _ {V : Type 0} (bc : Broadcast (PushMessage V)) (dm : DashMap UserId bc.Sender) where
  -- The map of `ActiveConnections`, the channels of the process and the static `METRICS`.
  pub record Hub : Type 0 where
    pub connections : dm.Map
    pub world : bc.World
    pub metrics : Metrics

  unfoldable pub add : {X : Type 0} → UserId → Hub → Result bc.Receiver (Error X) × Hub
  add {X} user hub = elim (dm.get user hub.connections) [
    | some sender ↦
        if ltb user_connection_limit (bc.receiver_count sender hub.world)
        then (err (Error.authentication AuthenticationError.limit_exceeded), hub)
        else let (rx, world) = bc.subscribe sender hub.world in
          (ok rx, record hub { world = world })
    | none ↦
        let (tx, rx, world) = bc.channel 4 hub.world in
        (
          ok rx,
          record {
            connections = dm.insert user tx hub.connections;
            world = world;
            metrics = add_user hub.metrics;
          },
        )
  ]

  unfoldable pub send_to_user : UserId → PushMessage V → Hub → Hub
  send_to_user user msg hub = elim (dm.get user hub.connections) [
    | some tx ↦ record hub { world = bc.send tx msg hub.world }
    | none ↦ hub
  ]

  unfoldable pub remove : UserId → Hub → Hub
  remove user hub = elim (dm.get user hub.connections) [
    | some e ↦
        if bc.receiver_count e hub.world == 1
        then record hub {
          connections = dm.remove user hub.connections;
          metrics = remove_user hub.metrics;
        }
        else hub
    | none ↦ hub
  ]
