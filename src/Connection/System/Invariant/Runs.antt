-- ===== src/Connection/System/Invariant/Runs.antt =====
-- src/connection.rs: all events keep the invariant.
use notify_push.Common.{
  ℕ, ◌≡◌, sym, ◌∙◌, List, [], ◌∷◌, Option-cases, inl, inr, All, arith, nat_eq, subst,
}
use notify_push.User.{UserId, user_eq}
use notify_push.Message.{PushMessage}
use notify_push.Dash.{DashMap}
use notify_push.Broadcast.{Broadcast}
use notify_push.Connection.Active.{send_to_user}
use notify_push.Connection.System.{
  System, Event, joins, leaves, drops, sends, step, run, start, select,
}
use notify_push.Connection.System.Tasks.{select-eq}
use notify_push.Connection.System.Invariant.{Held, Inv}
use notify_push.Connection.System.Invariant.Join.{join-Inv}
use notify_push.Connection.System.Invariant.Leave.{leave-Inv, drop-Inv}

module _ {V : Type 0} (bc : Broadcast (PushMessage V)) (dm : DashMap UserId bc.Sender) where
  sends-Inv :
      (own : ℕ → UserId) (sys : System bc dm) (user : UserId) (msg : PushMessage V)
      → (Inv bc dm) own sys
      → (Inv bc dm) own (record sys { hub = send_to_user bc dm user msg sys.hub })
  unfolding send_to_user
  sends-Inv own sys user msg v = elim (Option-cases (dm.get user sys.hub.connections)) [
    | inl e ↦ rw (e, send_to_user) v
    | inr (s, e) ↦
        let w = sys.hub.world in
        rw (e, send_to_user)
          (record {
            counted = λ j. bc.send_receivers s msg j w ∙ v.counted j;
            entries = λ u j f. rw (bc.send_made s msg w) (v.entries u j f);
            held =
                subst (λ n. All ((Held bc dm) own n sys.hub.connections) sys.tasks)
                  (sym (bc.send_made s msg w)) v.held;
          })
  ]

  -- Every event keeps the invariant, for some assignment of users to channels.
  pub step-Inv :
      (own : ℕ → UserId) (sys : System bc dm) (e : Event bc dm)
      → (Inv bc dm) own sys
      → (own' : ℕ → UserId) × (Inv bc dm) own' (step bc dm sys e)
  unfolding step
  step-Inv own sys (joins user) v = (join-Inv bc dm) Unit own sys user v
  step-Inv own sys (leaves n) v = elim (Option-cases (select n sys.tasks)) [
    | inl f ↦ (own, rw (f, step) v)
    | inr ((before, t, after), f) ↦
        (own, rw (f, step) ((leave-Inv bc dm) own sys before after t v (select-eq n sys.tasks f)))
  ]
  step-Inv own sys (drops n) v = elim (Option-cases (select n sys.tasks)) [
    | inl f ↦ (own, rw (f, step) v)
    | inr ((before, t, after), f) ↦
        (own, rw (f, step) ((drop-Inv bc dm) own sys before after t v (select-eq n sys.tasks f)))
  ]
  step-Inv own sys (sends user msg) v = (own, sends-Inv own sys user msg v)

  pub run-Inv :
      (own : ℕ → UserId) (sys : System bc dm) (es : List (Event bc dm))
      → (Inv bc dm) own sys
      → (own' : ℕ → UserId) × (Inv bc dm) own' (run bc dm sys es)
  unfolding run
  run-Inv own sys [] v = (own, v)
  run-Inv own sys (e ∷ es) v =
      let (own', v') = step-Inv own sys e v in run-Inv own' (step bc dm sys e) es v'

  pub start-Inv :
      (world : bc.World) (own : ℕ → UserId)
      → ((j : ℕ) → bc.receivers j world ≡ 0)
      → (Inv bc dm) own (start bc dm world)
  unfolding start
  start-Inv world own fresh = record {
    counted = fresh;
    entries = λ u j f. ground (arith, dm.get-empty u);
    held = tt;
  }
