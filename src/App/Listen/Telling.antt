-- ===== src/App/Listen/Telling.antt =====
-- src/lib.rs: what a user is told while the server listens.
use notify_push.Common.{
  ℕ, ◌≡◌, refl, sym, ◌∙◌, ap, List, [], ◌∷◌, ◌++◌, append_assoc, append-nil, Option, none, some,
  Result, ok, err, nat_eq,
}
use notify_push.User.{UserId, user_eq}
use notify_push.Message.{PushMessage}
use notify_push.Storage.{Clock}
use notify_push.Event.{Event, Decoder, MessageDecodeError, on_event}
use notify_push.Metrics.{Metrics}
use notify_push.Connection.Active.{Hub}
use notify_push.Connection.System.{select}
use notify_push.App.{App, Crates, look_up}
use notify_push.App.Events.{handle_event-SameConnections, found-same}
use notify_push.App.Reach.{Owns, told, copies, found, found-sent, handle_event-sent}
use notify_push.App.Listen.{
  Pending, fresh, looked_up, run_pending, Listening, Step, arrives, handles, count_event,
  spawn_event, run_task, step, run,
}

module _ {V X : Type 0} (cr : Crates V X) where
  -- What the step of a task of the server tells the user.
  abbrev pub told_pending : Clock → Pending cr → App cr → UserId → List (PushMessage V)
  told_pending clock (fresh (Event.storage_update e)) app user = []
  told_pending clock (fresh event) app user = told cr clock event app user
  told_pending clock (looked_up msg users) app user = copies cr (found cr users) user msg

  abbrev pub told_task :
      Clock
      → Option (List (Pending cr) × Pending cr × List (Pending cr))
      → App cr
      → UserId
      → List (PushMessage V)
  told_task clock none app user = []
  told_task clock (some (_, task, _)) app user = told_pending clock task app user

  abbrev pub told_step : Step cr → Listening cr → UserId → List (PushMessage V)
  told_step (arrives msg) l user = []
  told_step (handles n now clock) l user = told_task clock (select n l.spawned) l.app user

  abbrev pub told_run : Decoder V X → List (Step cr) → Listening cr → UserId → List (PushMessage V)
  told_run from_slice [] l user = []
  told_run from_slice (s ∷ steps) l user =
      told_step s l user ++ told_run from_slice steps (step cr from_slice s l) user

  same-Owns :
      (a b : Hub cr.bc cr.users) (user : UserId) (tx : cr.bc.Sender)
      → a.connections ≡ b.connections
      → Owns cr b user tx
      → Owns cr a user tx
  same-Owns a b user tx e owns = record {
    listed = ap (cr.users.get user) e ∙ owns.listed;
    alone = λ other ty f. owns.alone other ty (ap (cr.users.get other) (sym e) ∙ f);
  }

  -- What one step does for the user.
  record Tells (l after : Listening cr) (user : UserId) (tx : cr.bc.Sender)
      (ms : List (PushMessage V)) : Type 0 where
    still : Owns cr after.app.hub user tx
    sends :
        cr.bc.sent (cr.bc.channel_of tx) after.app.hub.world
        ≡ cr.bc.sent (cr.bc.channel_of tx) l.app.hub.world ++ ms

  spawn-Tells :
      (event : Result (Event V) (MessageDecodeError X)) (metrics : Metrics) (l : Listening cr)
      (user : UserId) (tx : cr.bc.Sender)
      → Owns cr l.app.hub user tx
      → Tells l (spawn_event cr event (record l { app = count_event cr metrics l.app })) user tx []
  unfolding spawn_event count_event
  spawn-Tells (ok event) metrics l user tx owns = record {
    still = record { listed = owns.listed; alone = owns.alone };
    sends = sym (append-nil _);
  }
  spawn-Tells (err e) metrics l user tx owns = record {
    still = record { listed = owns.listed; alone = owns.alone };
    sends = sym (append-nil _);
  }

  -- One step of a task leaves who is connected, and tells what it is about.
  pending-sent :
      (now : ℕ) (clock : Clock) (task : Pending cr) (app : App cr) (user : UserId)
      (tx : cr.bc.Sender)
      → Owns cr app.hub user tx
      → let after = (run_pending cr now clock task app).1 in
        (after.hub.connections ≡ app.hub.connections)
        × (cr.bc.sent (cr.bc.channel_of tx) after.hub.world
            ≡ cr.bc.sent (cr.bc.channel_of tx) app.hub.world ++ told_pending clock task app user)
  unfolding run_pending
  pending-sent now clock (fresh (Event.storage_update e)) app user tx owns =
      unfold look_up in (refl, sym (append-nil _))
  pending-sent now clock (looked_up msg users) app user tx owns =
      ((found-same cr msg users app).connections_same, found-sent cr msg users app user tx owns)
  pending-sent now clock (fresh event) app user tx owns = (
    (handle_event-SameConnections cr now clock event app).connections_same,
    handle_event-sent cr now clock event app user tx owns,
  )

  task-Tells :
      (now : ℕ) (clock : Clock) (task : Option (List (Pending cr) × Pending cr × List (Pending cr)))
      (l : Listening cr) (user : UserId) (tx : cr.bc.Sender)
      → Owns cr l.app.hub user tx
      → Tells l (run_task cr now clock task l) user tx (told_task clock task l.app user)
  unfolding run_task
  task-Tells now clock none l user tx owns = record { still = owns; sends = sym (append-nil _) }
  task-Tells now clock (some (before, task, after)) l user tx owns =
      let (same, sends) = pending-sent now clock task l.app user tx owns in
      record { still = same-Owns _ l.app.hub user tx same owns; sends = sends }

  step-Tells :
      (from_slice : Decoder V X) (s : Step cr) (l : Listening cr) (user : UserId)
      (tx : cr.bc.Sender)
      → Owns cr l.app.hub user tx
      → Tells l (step cr from_slice s l) user tx (told_step s l user)
  unfolding step
  step-Tells from_slice (arrives msg) l user tx owns =
      let (event, metrics) = on_event from_slice msg l.app.hub.metrics in
      spawn-Tells event metrics l user tx owns
  step-Tells from_slice (handles n now clock) l user tx owns =
      task-Tells now clock (select n l.spawned) l user tx owns

  -- A user who has a channel that no other user has is told on it what the steps of the tasks tell this
  -- user, in their order.
  pub run-sent :
      (from_slice : Decoder V X) (steps : List (Step cr)) (l : Listening cr) (user : UserId)
      (tx : cr.bc.Sender)
      → Owns cr l.app.hub user tx
      → cr.bc.sent (cr.bc.channel_of tx) (run cr from_slice steps l).app.hub.world
        ≡ cr.bc.sent (cr.bc.channel_of tx) l.app.hub.world ++ told_run from_slice steps l user
  unfolding run
  run-sent from_slice [] l user tx owns = sym (append-nil _)
  run-sent from_slice (s ∷ steps) l user tx owns =
      let tells = step-Tells from_slice s l user tx owns in
      run-sent from_slice steps (step cr from_slice s l) user tx tells.still
      ∙ ap (λ ms. ms ++ told_run from_slice steps (step cr from_slice s l) user) tells.sends
      ∙ append_assoc (cr.bc.sent (cr.bc.channel_of tx) l.app.hub.world) (told_step s l user)
          (told_run from_slice steps (step cr from_slice s l) user)
