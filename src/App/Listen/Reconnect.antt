-- ===== src/App/Listen/Reconnect.antt =====
-- src/lib.rs: `listen_loop`, which subscribes anew when redis was lost.
use notify_push.Common.{
  ℕ, ◌≡◌, refl, sym, ap, ◌∙◌, List, [], ◌∷◌, ◌++◌, Result, ok, err, nat_eq, Result-cases, inl, inr,
}
use notify_push.User.{UserId, user_eq}
use notify_push.Storage.{Clock}
use notify_push.Event.{Decoder}
use notify_push.Event
use notify_push.App.{Crates}
use notify_push.App.Reach.{Owns}
use notify_push.App.Listen.{
  Listening, Step, handles, step, run, Round, listen, run_tasks, listen_loop,
}
use notify_push.App.Listen.Telling.{run-sent}
use notify_push.App.Listen.Ledger.{told_all, told_from-told_run}

module _ {V X : Type 0} (cr : Crates V X) where
  -- The steps of a round, if its subscription came about.
  abbrev pub heard : Result cr.redis.PubSub X → List (Step cr) → List (Step cr)
  heard (ok _) steps = steps
  heard (err e) steps = []

  abbrev pub tasks : List (ℕ × ℕ × Clock) → List (Step cr)
  tasks [] = []
  tasks ((n, now, clock) ∷ rest) = handles n now clock ∷ tasks rest

  -- All steps of the rounds, in order.
  abbrev pub all_steps : List (Round cr) → List (Step cr)
  all_steps [] = []
  all_steps (round ∷ rounds) =
      heard (Event.subscribe round.call round.pubsub) round.steps
      ++ (tasks round.meanwhile ++ all_steps rounds)

  run-append :
      (from_slice : Decoder V X) (xs ys : List (Step cr)) (l : Listening cr)
      → run cr from_slice (xs ++ ys) l ≡ run cr from_slice ys (run cr from_slice xs l)
  unfolding run
  run-append from_slice [] ys l = refl
  run-append from_slice (x ∷ xs) ys l = run-append from_slice xs ys (step cr from_slice x l)

  listen-heard :
      (from_slice : Decoder V X) (round : Round cr) (l : Listening cr)
      → (listen cr from_slice round l).1
        ≡ run cr from_slice (heard (Event.subscribe round.call round.pubsub) round.steps) l
  unfolding listen run
  listen-heard from_slice round l = elim (Result-cases (Event.subscribe round.call round.pubsub)) [
    | inl (p, e) ↦ rw (e, listen) refl
    | inr (x, e) ↦ rw (e, listen) refl
  ]

  run_tasks-run :
      (from_slice : Decoder V X) (rest : List (ℕ × ℕ × Clock)) (l : Listening cr)
      → run_tasks cr rest l ≡ run cr from_slice (tasks rest) l
  unfolding run_tasks run step
  run_tasks-run from_slice [] l = refl
  run_tasks-run from_slice ((n, now, clock) ∷ rest) l =
      run_tasks-run from_slice rest (step cr from_slice (handles n now clock) l)

  pub listen_loop-run :
      (from_slice : Decoder V X) (rounds : List (Round cr)) (l : Listening cr)
      → listen_loop cr from_slice rounds l ≡ run cr from_slice (all_steps rounds) l
  unfolding listen_loop run
  listen_loop-run from_slice [] l = refl
  listen_loop-run from_slice (round ∷ rounds) l =
      let xs = heard (Event.subscribe round.call round.pubsub) round.steps in
      let ys = tasks round.meanwhile in
      let l₁ = run cr from_slice xs l in
      listen_loop-run from_slice rounds _
      ∙ ap (run cr from_slice (all_steps rounds)) (
          run_tasks-run from_slice round.meanwhile _
          ∙ ap (run cr from_slice ys) (listen-heard from_slice round l))
      ∙ sym (run-append from_slice ys (all_steps rounds) l₁)
      ∙ sym (run-append from_slice xs (ys ++ all_steps rounds) l)

  -- Whatever messages come and in whatever order their tasks are run, from a server without tasks: a
  -- user who has a channel that no other user has is told on it what `told_all` says.
  pub run-told_all :
      (from_slice : Decoder V X) (steps : List (Step cr)) (l : Listening cr) (user : UserId)
      (tx : cr.bc.Sender)
      → Owns cr l.app.hub user tx
      → l.spawned ≡ []
      → cr.bc.sent (cr.bc.channel_of tx) (run cr from_slice steps l).app.hub.world
        ≡ cr.bc.sent (cr.bc.channel_of tx) l.app.hub.world ++ told_all cr from_slice steps l user
  run-told_all from_slice steps l user tx owns none_left =
      run-sent cr from_slice steps l user tx owns
      ∙ ap (λ ms. cr.bc.sent (cr.bc.channel_of tx) l.app.hub.world ++ ms)
          (told_from-told_run cr from_slice steps [] l user none_left)

  -- From a server without tasks, however often redis is lost and found again, whatever comes and in
  -- whatever order the tasks run, those that run while there is no subscription among them: a user who
  -- has a channel that no other user has is told on it exactly this, in the order of the steps: for
  -- each storage update that came and could be read, its file, at the second step about it, once for
  -- each time that the user is among those that `look_up` gave at the first step; for any other such
  -- event, at its only step, what `told` says of it. A round whose subscription fails brings no
  -- events and loses none.
  pub listen_loop-sent :
      (from_slice : Decoder V X) (rounds : List (Round cr)) (l : Listening cr) (user : UserId)
      (tx : cr.bc.Sender)
      → Owns cr l.app.hub user tx
      → l.spawned ≡ []
      → cr.bc.sent (cr.bc.channel_of tx) (listen_loop cr from_slice rounds l).app.hub.world
        ≡ cr.bc.sent (cr.bc.channel_of tx) l.app.hub.world
          ++ told_all cr from_slice (all_steps rounds) l user
  listen_loop-sent from_slice rounds l user tx owns none_left =
      ap (λ (r : Listening cr). cr.bc.sent (cr.bc.channel_of tx) r.app.hub.world)
        (listen_loop-run from_slice rounds l)
      ∙ run-told_all from_slice (all_steps rounds) l user tx owns none_left
