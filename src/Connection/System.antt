-- ===== src/Connection/System.antt =====
-- src/connection.rs: all connections of the server at once, one event at a time. A connection's
-- task is the part of `handle_user_socket` from `add` to its end.
pub mod Tasks
pub mod Invariant
pub mod Limit
pub mod Leak
pub mod Gauge
use notify_push.Common.{
  ℕ, zero, suc, ◌+◌, ◌-◌, List, [], ◌∷◌, ◌++◌, Option, none, some, Bool, true, false, if◌then◌else◌,
  Result, ok, err,
}
use notify_push.User.{UserId, user_eq}
use notify_push.Message.{PushMessage}
use notify_push.Metrics.{Metrics, add_connection, remove_connection}
use notify_push.Metrics as Counters
use notify_push.Error.{Error}
use notify_push.Dash.{DashMap}
use notify_push.Broadcast.{Broadcast}
use notify_push.Connection.Active.{Hub, add, send_to_user, remove}

-- The entry at a place, with what stands before and behind it.
unfoldable pub select {ℓ} : {A : Type ℓ} → ℕ → List A → Option (List A × A × List A)
select n [] = none
select zero (x ∷ xs) = some ([], x, xs)
select (suc n) (x ∷ xs) = elim (select n xs) [
  | none ↦ none
  | some (before, y, after) ↦ some (x ∷ before, y, after)
]

module _ {V : Type 0} (bc : Broadcast (PushMessage V)) (dm : DashMap UserId bc.Sender) where
  -- `leaving`: the connection is closed and removed, and its receiver not yet dropped.
  pub record Task : Type 0 where
    pub user : UserId
    pub receiver : bc.Receiver
    pub leaving : Bool

  pub record System : Type 0 where
    pub hub : Hub bc dm
    pub tasks : List Task

  pub data Event : Type 0 where
    joins : UserId → Event
    leaves : ℕ → Event
    drops : ℕ → Event
    sends : UserId → PushMessage V → Event

  -- After the socket has authenticated as the user.
  unfoldable pub join : {X : Type 0} → UserId → System → Result bc.Receiver (Error X) × System
  join user sys =
      let (result, hub) = add bc dm user sys.hub in
      elim result [
        | ok rx ↦ (
          ok rx,
          record {
            hub = record hub { metrics = add_connection hub.metrics };
            tasks = record { user = user; receiver = rx; leaving = false } ∷ sys.tasks;
          },
        )
        | err e ↦ (err e, record sys { hub = hub })
      ]

  -- The loops have ended: the connection is counted out, and removed.
  unfoldable pub leave : List Task → Task → List Task → System → System
  leave before task after sys =
      if task.leaving
      then sys
      else let hub = sys.hub in
        record {
          hub = remove bc dm task.user (record hub { metrics = remove_connection hub.metrics });
          tasks = before ++ record task { leaving = true } ∷ after;
        }

  -- The function returns, which drops the receiver.
  unfoldable pub drop : List Task → Task → List Task → System → System
  drop before task after sys =
      if task.leaving
      then record {
        hub = record sys.hub { world = bc.drop task.receiver sys.hub.world };
        tasks = before ++ after;
      }
      else sys

  unfoldable pub step : System → Event → System
  unfolding join leave drop
  step sys (joins user) = (join {X = Unit {0}} user sys).1
  step sys (leaves n) = elim (select n sys.tasks) [
    | none ↦ sys
    | some (before, task, after) ↦ leave before task after sys
  ]
  step sys (drops n) = elim (select n sys.tasks) [
    | none ↦ sys
    | some (before, task, after) ↦ drop before task after sys
  ]
  step sys (sends user msg) = record sys { hub = send_to_user bc dm user msg sys.hub }

  unfoldable pub run : System → List Event → System
  run sys [] = sys
  run sys (e ∷ es) = run (step sys e) es

  -- The server as it starts, with the channels of the rest of the process.
  unfoldable pub start : bc.World → System
  start world = record {
    hub = record { connections = dm.empty; world = world; metrics = Counters.new };
    tasks = [];
  }
