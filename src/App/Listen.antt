-- ===== src/App/Listen.antt =====
-- src/lib.rs: `listen`, the loop over the messages of redis. Each event gets a task of its own, and
-- the steps of the tasks come in any order. A storage update takes two, the look-up of its users and
-- the sending; any other event takes one.
pub mod Telling
pub mod Ledger
pub mod Reconnect
use notify_push.Common.{ℕ, List, [], ◌∷◌, ◌++◌, Option, none, some, Result, ok, err, nat_eq}
use notify_push.Common.Text.{Str}
use notify_push.Error.{Error, DatabaseError}
use notify_push.User.{UserId, user_eq}
use notify_push.Storage.{Clock}
use notify_push.Event.{Event, Msg, Decoder, MessageDecodeError, on_event}
use notify_push.Event
use notify_push.Redis
use notify_push.Metrics.{Metrics}
use notify_push.Connection.Active.{Hub}
use notify_push.Connection.System.{select}
use notify_push.App.{App, Crates, handle_event, look_up, notify_found}
use notify_push.Message.{PushMessage, updated_file}

module _ {V X : Type 0} (cr : Crates V X) where
  -- Where the task of an event stands: before its first step, or, for a storage update, after its
  -- users have been looked up.
  pub data Pending : Type 0 where
    fresh : Event V → Pending
    looked_up : PushMessage V → Result (List UserId) (DatabaseError X) → Pending

  -- `spawned` are the tasks that have not ended.
  pub record Listening : Type 0 where
    pub app : App cr
    pub spawned : List Pending

  -- A message comes, or the task at a place takes its next step.
  pub data Step : Type 0 where
    arrives : Msg → Step
    handles : ℕ → ℕ → Clock → Step

  pub count_event : Metrics → App cr → App cr
  count_event metrics app = record app { hub = record app.hub { metrics = metrics } }

  -- The `match` in the loop.
  pub spawn_event : Result (Event V) (MessageDecodeError X) → Listening → Listening
  spawn_event (ok event) l = record l { spawned = l.spawned ++ fresh event ∷ [] }
  spawn_event (err e) l = l

  -- The step of a task, and what is left of it.
  unfoldable pub run_pending : ℕ → Clock → Pending → App cr → List Pending × App cr
  run_pending now clock (fresh (Event.storage_update e)) app =
      let (users, app) = look_up cr clock e.storage e.path app in
      (looked_up (PushMessage.file (updated_file e.file_id)) users ∷ [], app)
  run_pending now clock (fresh event) app = ([], handle_event cr now clock event app)
  run_pending now clock (looked_up msg users) app = ([], notify_found cr msg (users, app))

  pub run_task : ℕ → Clock → Option (List Pending × Pending × List Pending) → Listening → Listening
  unfolding run_pending
  run_task now clock none l = l
  run_task now clock (some (before, task, after)) l =
      let (rest, app) = run_pending now clock task l.app in
      record { app = app; spawned = before ++ (rest ++ after) }

  unfoldable pub step : Decoder V X → Step → Listening → Listening
  unfolding count_event spawn_event run_task
  step from_slice (arrives msg) l =
      let (event, metrics) = on_event from_slice msg l.app.hub.metrics in
      spawn_event event (record l { app = count_event metrics l.app })
  step from_slice (handles n now clock) l = run_task now clock (select n l.spawned) l

  unfoldable pub run : Decoder V X → List Step → Listening → Listening
  run from_slice [] l = l
  run from_slice (s ∷ steps) l = run from_slice steps (step from_slice s l)

  -- A round of the outer loop: what the connection and the calls to subscribe give in it, what then
  -- comes until the stream ends, and the tasks that run until the next round.
  pub record Round : Type 0 where
    pub pubsub : Result cr.redis.PubSub X
    pub call : Str → cr.redis.PubSub → Result cr.redis.PubSub X
    pub steps : List Step
    pub meanwhile : List (ℕ × ℕ × Clock)

  unfoldable pub listen : Decoder V X → Round → Listening → Result (Unit {0}) X × Listening
  listen from_slice round l = elim (Event.subscribe round.call round.pubsub) [
    | err e ↦ (err e, l)
    | ok _ ↦ (ok tt, run from_slice round.steps l)
  ]

  -- The tasks that run while the loop waits.
  pub run_tasks : List (ℕ × ℕ × Clock) → Listening → Listening
  run_tasks [] l = l
  run_tasks ((n, now, clock) ∷ rest) l = run_tasks rest (run_task now clock (select n l.spawned) l)

  -- The rounds until the cancellation. An error is only logged.
  unfoldable pub listen_loop : Decoder V X → List Round → Listening → Listening
  unfolding listen run_tasks
  listen_loop from_slice [] l = l
  listen_loop from_slice (round ∷ rounds) l =
      listen_loop from_slice rounds (run_tasks round.meanwhile (listen from_slice round l).1)
