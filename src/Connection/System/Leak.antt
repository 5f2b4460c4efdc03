-- ===== src/Connection/System/Leak.antt =====
-- src/connection.rs: two connections of one user that close at the same time.
use notify_push.Common.{
  ◌≡◌, refl, ap, ◌∙◌, List, [], ◌∷◌, ◌++◌, some, true, false, arith, nat_eq, ok,
}
use notify_push.User.{UserId, user_eq, user_beq_iff}
use notify_push.Message.{PushMessage}
use notify_push.Metrics.{
  remove_connection, add_connection, add_user, remove_user, fetch_sub, fetch_add,
}
use notify_push.Metrics as Counters
use notify_push.Dash.{DashMap}
use notify_push.Broadcast.{Broadcast}
use notify_push.Connection.Active.{Hub, add, remove}
use notify_push.Connection.System.{
  Task, System, Event, joins, leaves, drops, join, leave, drop, step, run, start, select,
}
use notify_push.Connection.System.Invariant.{entry}
use notify_push.Connection.System.Invariant.Join.{add_vacant, add_occupied}

module _ {V : Type 0} (bc : Broadcast (PushMessage V)) (dm : DashMap UserId bc.Sender) where
  abbrev pub close_both : UserId → List (Event bc dm)
  close_both user = joins user ∷ joins user ∷ leaves 0 ∷ leaves 1 ∷ drops 0 ∷ drops 0 ∷ []

  remove_shared :
      (user : UserId) (hub : Hub bc dm) {s : bc.Sender}
      → dm.get user hub.connections ≡ some s
      → bc.receivers (bc.channel_of s) hub.world ≡ 2
      → remove bc dm user hub ≡ hub
  unfolding remove
  remove_shared user hub {s} e two =
      rw (e, remove) (ground (arith, bc.receiver_count_lem s hub.world))

  abbrev running : UserId → bc.Receiver → Task bc dm
  running user rx = record { user = user; receiver = rx; leaving = false }

  abbrev closing : UserId → bc.Receiver → Task bc dm
  closing user rx = record { user = user; receiver = rx; leaving = true }

  -- A connection of a shared channel closes: the map stays as it is.
  leave_shared :
      (user : UserId) (rx : bc.Receiver) (before after : List (Task bc dm)) (sys : System bc dm)
      {s : bc.Sender}
      → dm.get user sys.hub.connections ≡ some s
      → bc.receivers (bc.channel_of s) sys.hub.world ≡ 2
      → leave bc dm before (running user rx) after sys ≡ record {
        hub = record sys.hub { metrics = remove_connection sys.hub.metrics };
        tasks = before ++ closing user rx ∷ after;
      }
  unfolding leave
  leave_shared user rx before after sys e two =
      rw (remove_shared user (record sys.hub { metrics = remove_connection sys.hub.metrics }) e two)

  abbrev pair_close : List (Event bc dm)
  pair_close = leaves 0 ∷ leaves 1 ∷ drops 0 ∷ drops 0 ∷ []

  run-pair_close :
      (user : UserId) (a b : bc.Receiver) (hub : Hub bc dm) {s : bc.Sender}
      → dm.get user hub.connections ≡ some s
      → bc.receivers (bc.channel_of s) hub.world ≡ 2
      → run bc dm (record { hub = hub; tasks = running user a ∷ running user b ∷ [] }) pair_close
        ≡ record {
          hub = record {
            connections = hub.connections;
            world = bc.drop b (bc.drop a hub.world);
            metrics = remove_connection (remove_connection hub.metrics);
          };
          tasks = [];
        }
  unfolding run step select drop
  run-pair_close user a b hub e two =
      let first : System bc dm = record {
        hub = hub;
        tasks = running user a ∷ running user b ∷ [];
      } in
      let second : System bc dm = record {
        hub = record hub { metrics = remove_connection hub.metrics };
        tasks = closing user a ∷ running user b ∷ [];
      } in
      ap (λ sys. run bc dm sys (leaves 1 ∷ drops 0 ∷ drops 0 ∷ []))
        (leave_shared user a [] (running user b ∷ []) first e two)
      ∙ ap (λ sys. run bc dm sys (drops 0 ∷ drops 0 ∷ []))
          (leave_shared user b (closing user a ∷ []) [] second e two)

  join_ok :
      (user : UserId) (sys : System bc dm) {rx : bc.Receiver} {hub : Hub bc dm}
      → add bc dm {X = Unit {0}} user sys.hub ≡ (ok rx, hub)
      → (join bc dm {X = Unit {0}} user sys).1 ≡ record {
        hub = record hub { metrics = add_connection hub.metrics };
        tasks = running user rx ∷ sys.tasks;
      }
  unfolding join
  join_ok user sys e = rw (e, join, e)

  module _ (world : bc.World) (user : UserId) where
    open bc.channel 4 world use {0 as tx, 1 as rx, 2 as joined}

    -- The server with one connection of the user, and with two.
    one : System bc dm
    one = record {
      hub = record {
        connections = dm.insert user tx dm.empty;
        world = joined;
        metrics = add_connection (add_user Counters.new);
      };
      tasks = running user rx ∷ [];
    }

    two : System bc dm
    unfolding one
    two = record {
      hub = record {
        connections = dm.insert user tx dm.empty;
        world = (bc.subscribe tx joined).1;
        metrics = add_connection (add_connection (add_user Counters.new));
      };
      tasks = running user (bc.subscribe tx joined).0 ∷ running user rx ∷ [];
    }

    found : dm.get user (dm.insert user tx dm.empty) ≡ some tx
    found = ground (arith, dm.get-insert user user tx dm.empty, (user_beq_iff user user).1 refl)

    step-one : step bc dm (start bc dm world) (joins user) ≡ one
    unfolding step start one
    step-one =
        join_ok user (start bc dm world)
          (add_vacant bc dm user (start bc dm world).hub (dm.get-empty user))

    step-two : step bc dm one (joins user) ≡ two
    unfolding step one two
    step-two = join_ok user one (
        add_occupied bc dm user one.hub found (
          ground (
            arith,
            bc.receiver_count_lem tx joined,
            bc.channel_sender 4 world,
            bc.channel_receivers 4 (bc.made world) world,
          )))

    two_receivers : bc.receivers (bc.channel_of tx) two.hub.world ≡ 2
    unfolding two
    two_receivers = ground (
      arith,
      bc.subscribe_receivers tx (bc.channel_of tx) joined,
      bc.channel_sender 4 world,
      bc.channel_receivers 4 (bc.made world) world,
    )

    -- Both connections are removed from the map before either receiver is dropped: the server is
    -- left with no task, an entry for the user, and a count of one active user.
    pub run-close_both :
        let sys = run bc dm (start bc dm world) (close_both user) in
        (sys.tasks ≡ [])
        × (entry bc dm user sys.hub.connections ≡ some (bc.made world))
        × (sys.hub.metrics.active_user_count ≡ 1)
        × (sys.hub.metrics.active_connection_count ≡ 0)
    unfolding run two remove_connection add_connection add_user Counters.new
    run-close_both =
        rw (step-one, step-two, run-pair_close user _ _ two.hub found two_receivers)
          (refl, ground (arith, found, bc.channel_sender 4 world), refl, refl)
