-- ===== src/Connection/System/Gauge.antt =====
-- src/connection.rs, src/metrics.rs: the gauge of open connections.
use notify_push.Common.{
  ℕ, suc, ◌+◌, ◌-◌, ◌%◌, ◌≡◌, refl, sym, ap, ◌∙◌, List, [], ◌∷◌, ◌++◌, true, false, arith, nat_eq,
  inl, inr, Option-cases, Bool-cases, Result-cases, if◌then◌else◌, usize_mod, ltb, ◌==◌,
}
use notify_push.User.{UserId, user_eq}
use notify_push.Message.{PushMessage}
use notify_push.Dash.{DashMap}
use notify_push.Broadcast.{Broadcast}
use notify_push.Metrics.{
  Metrics, add_connection, remove_connection, fetch_add, fetch_sub, add_user, remove_user,
}
use notify_push.Metrics as Counters
use notify_push.Connection.Active.{Hub, user_connection_limit, add, remove, send_to_user}
use notify_push.Connection.System.{
  Task, System, Event, joins, leaves, drops, sends, join, leave, drop, step, run, start, select,
}
use notify_push.Connection.System.Tasks.{select-eq}

module _ {V : Type 0} (bc : Broadcast (PushMessage V)) (dm : DashMap UserId bc.Sender) where
  -- How many connections are not closing.
  abbrev pub running : List (Task bc dm) → ℕ
  running [] = 0
  running (t ∷ ts) = let rest = running ts in if t.leaving then rest else suc rest

  running-append : (xs ys : List (Task bc dm)) → running (xs ++ ys) ≡ running xs + running ys
  running-append [] ys = omega arith
  running-append (x ∷ xs) ys = ground (arith, running-append xs ys)

  abbrev gauge : Hub bc dm → ℕ
  gauge hub = hub.metrics.active_connection_count

  abbrev Shown : System bc dm → Type 0
  Shown sys = gauge sys.hub ≡ running sys.tasks % usize_mod

  add-gauge :
      (X : Type 0) (user : UserId) (hub : Hub bc dm)
      → gauge (add bc dm {X = X} user hub).1 ≡ gauge hub
  unfolding add
  add-gauge X user hub = elim (Option-cases (dm.get user hub.connections)) [
    | inl e ↦ rw (e, add) (unfold add_user in refl)
    | inr (s, e) ↦ elim (Bool-cases (ltb user_connection_limit (bc.receiver_count s hub.world))) [
      | inl full ↦ rw (e, full, add) refl
      | inr room ↦ rw (e, room, add) refl
    ]
  ]

  remove-gauge : (user : UserId) (hub : Hub bc dm) → gauge (remove bc dm user hub) ≡ gauge hub
  unfolding remove
  remove-gauge user hub = elim (Option-cases (dm.get user hub.connections)) [
    | inl e ↦ rw (e, remove) refl
    | inr (s, e) ↦ elim (Bool-cases (bc.receiver_count s hub.world == 1)) [
      | inl one ↦ rw (e, one, remove) (unfold remove_user in refl)
      | inr more ↦ rw (e, more, remove) refl
    ]
  ]

  send-gauge :
      (user : UserId) (msg : PushMessage V) (hub : Hub bc dm)
      → gauge (send_to_user bc dm user msg hub) ≡ gauge hub
  unfolding send_to_user
  send-gauge user msg hub = elim (Option-cases (dm.get user hub.connections)) [
    | inl e ↦ rw (e, send_to_user) refl
    | inr (s, e) ↦ rw (e, send_to_user) refl
  ]

  one_up : (g n : ℕ) → g ≡ n % usize_mod → (g + 1) % usize_mod ≡ suc n % usize_mod
  one_up g n h = omega arith

  one_down : (g n : ℕ) → g ≡ suc n % usize_mod → (g + usize_mod - 1) % usize_mod ≡ n % usize_mod
  one_down g n h = omega arith

  -- The task at a place, when it is closing and when it is not.
  running-closing :
      (before : List (Task bc dm)) (t : Task bc dm) (after : List (Task bc dm))
      → t.leaving ≡ true
      → running (before ++ t ∷ after) ≡ running (before ++ after)
  running-closing before t after e =
      ground (arith, running-append before (t ∷ after), running-append before after)

  running-going :
      (before : List (Task bc dm)) (t : Task bc dm) (after : List (Task bc dm))
      → t.leaving ≡ false
      → running (before ++ t ∷ after) ≡ suc (running (before ++ after))
  running-going before t after e =
      ground (arith, running-append before (t ∷ after), running-append before after)

  join-Shown :
      (user : UserId) (sys : System bc dm)
      → Shown sys
      → Shown (join bc dm {X = Unit {0}} user sys).1
  unfolding join
  join-Shown user sys h = elim (Result-cases (add bc dm {X = Unit {0}} user sys.hub).0) [
    | inl (rx, e) ↦
        rw (e, join)
          (unfold add_connection in
            one_up _ (running sys.tasks) (add-gauge (Unit {0}) user sys.hub ∙ h))
    | inr (x, e) ↦ rw (e, join) (add-gauge (Unit {0}) user sys.hub ∙ h)
  ]

  leave-Shown :
      (before : List (Task bc dm)) (t : Task bc dm) (after : List (Task bc dm)) (sys : System bc dm)
      → sys.tasks ≡ before ++ t ∷ after
      → Shown sys
      → Shown (leave bc dm before t after sys)
  unfolding leave remove_connection
  leave-Shown before t after sys e h = elim (Bool-cases t.leaving) [
    | inl closing ↦ rw (closing, leave) h
    | inr going ↦
        rw (going, leave)
          (remove-gauge t.user (record sys.hub { metrics = remove_connection sys.hub.metrics })
            ∙ one_down (gauge sys.hub) (running (before ++ after))
                (h ∙ ap (λ n. n % usize_mod) (ap running e ∙ running-going before t after going))
            ∙ ap (λ n. n % usize_mod)
                (sym (running-closing before (record t { leaving = true }) after refl)))
  ]

  drop-Shown :
      (before : List (Task bc dm)) (t : Task bc dm) (after : List (Task bc dm)) (sys : System bc dm)
      → sys.tasks ≡ before ++ t ∷ after
      → Shown sys
      → Shown (drop bc dm before t after sys)
  unfolding drop
  drop-Shown before t after sys e h = elim (Bool-cases t.leaving) [
    | inl closing ↦
        rw (closing, drop)
          (h ∙ ap (λ n. n % usize_mod) (ap running e ∙ running-closing before t after closing))
    | inr going ↦ rw (going, drop) h
  ]

  step-Shown : (e : Event bc dm) (sys : System bc dm) → Shown sys → Shown (step bc dm sys e)
  unfolding step
  step-Shown (joins user) sys h = join-Shown user sys h
  step-Shown (leaves n) sys h = elim (Option-cases (select n sys.tasks)) [
    | inl e ↦ rw (e, step) h
    | inr ((before, t, after), e) ↦
        rw (e, step) (leave-Shown before t after sys (select-eq n sys.tasks e) h)
  ]
  step-Shown (drops n) sys h = elim (Option-cases (select n sys.tasks)) [
    | inl e ↦ rw (e, step) h
    | inr ((before, t, after), e) ↦
        rw (e, step) (drop-Shown before t after sys (select-eq n sys.tasks e) h)
  ]
  step-Shown (sends user msg) sys h = send-gauge user msg sys.hub ∙ h

  run-Shown : (es : List (Event bc dm)) (sys : System bc dm) → Shown sys → Shown (run bc dm sys es)
  unfolding run
  run-Shown [] sys h = h
  run-Shown (e ∷ es) sys h = run-Shown es (step bc dm sys e) (step-Shown e sys h)

  -- After any events from the start, the gauge of active connections is the number of connections that
  -- are not closing, as a 64-bit number.
  pub run-running :
      (world : bc.World) (es : List (Event bc dm))
      → let sys = run bc dm (start bc dm world) es in
        sys.hub.metrics.active_connection_count ≡ running sys.tasks % usize_mod
  unfolding start
  run-running world es = run-Shown es (start bc dm world) (unfold Counters.new in omega arith)
