-- ===== src/Connection/System/Limit.antt =====
-- src/connection.rs: how many connections a user can have, and who is told what.
use Prim.Native.Nat.{min}
use notify_push.Common.{
  ℕ, zero, suc, ◌+◌, ◌≤◌, ◌≡◌, refl, sym, ◌∙◌, List, [], ◌∷◌, none, some, Option-cases, inl, inr,
  false, if◌then◌else◌, All, arith, nat_eq, nat_beq_iff, Bool-cases, ltb, length,
}
use notify_push.User.{UserId, user_eq, user_beq_iff}
use notify_push.Message.{PushMessage}
use notify_push.Metrics.{remove_connection}
use notify_push.Dash.{DashMap}
use notify_push.Broadcast.{Broadcast}
use notify_push.Connection.Active.{Hub, send_to_user, remove, user_connection_limit}
use notify_push.Connection.System.{
  Task, System, Event, joins, leaves, drops, sends, join, leave, drop, step, run, start, select,
}
use notify_push.Connection.System.Tasks.{count, All-map}
use notify_push.Connection.System.Invariant.{entry, source}
use notify_push.Connection.System.Invariant.Join.{add_vacant, add_occupied, add_full}
use notify_push.Connection.System.Invariant.Runs.{run-Inv, start-Inv}

module _ {V : Type 0} (bc : Broadcast (PushMessage V)) (dm : DashMap UserId bc.Sender) where
  -- At any time, from a server that starts with channels that have no receivers: the channel that
  -- the map has for the user of a connection that is not yet closing is the one on which it
  -- receives, and the map has that channel for no other user.
  pub run-reaches :
      (world : bc.World) (es : List (Event bc dm))
      → ((j : ℕ) → bc.receivers j world ≡ 0)
      → let sys = run bc dm (start bc dm world) es in
        All
          (λ t.
            (t.leaving ≡ false → entry bc dm t.user sys.hub.connections ≡ some (source bc dm t))
            × ((u : UserId)
                → entry bc dm u sys.hub.connections ≡ some (source bc dm t)
                → u ≡ t.user))
          sys.tasks
  run-reaches world es fresh =
      let (own, v) =
        run-Inv bc dm (λ _. record { hash = 0 }) (start bc dm world) es
          (start-Inv bc dm world _ fresh) in
      All-map _ v.held λ t h. (h.reached, λ u e. sym (v.entries u _ e).1 ∙ h.owned)

  abbrev Bounded : System bc dm → Type 0
  Bounded sys = (j : ℕ) → bc.receivers j sys.hub.world ≤ suc user_connection_limit

  join-Bounded :
      (X : Type 0) (sys : System bc dm) (user : UserId)
      → Bounded sys
      → Bounded (join bc dm {X = X} user sys).1
  unfolding join
  join-Bounded X sys user b = elim (Option-cases (dm.get user sys.hub.connections)) [
    | inl e ↦
        rw (add_vacant bc dm {X = X} user sys.hub e, join, add_vacant bc dm {X = X} user sys.hub e)
          (λ j. ground (arith, b j, bc.channel_receivers 4 j sys.hub.world))
    | inr (s, e) ↦
        elim (Bool-cases (ltb user_connection_limit (bc.receiver_count s sys.hub.world))) [
          | inl full ↦
              rw
                (
                  add_full bc dm {X = X} user sys.hub e full,
                  join,
                  add_full bc dm {X = X} user sys.hub e full,
                )
                b
          | inr room ↦
              rw
                (
                  add_occupied bc dm {X = X} user sys.hub e room,
                  join,
                  add_occupied bc dm {X = X} user sys.hub e room,
                )
                (λ j. ground (
                  arith,
                  b j,
                  bc.subscribe_receivers s j sys.hub.world,
                  bc.receiver_count_lem s sys.hub.world,
                  nat_beq_iff (bc.channel_of s) j,
                ))
        ]
  ]

  remove-world : (user : UserId) (hub : Hub bc dm) → (remove bc dm user hub).world ≡ hub.world
  unfolding remove
  remove-world user hub = ground arith

  leave-Bounded :
      (before : List (Task bc dm)) (t : Task bc dm) (after : List (Task bc dm)) (sys : System bc dm)
      → Bounded sys
      → Bounded (leave bc dm before t after sys)
  unfolding leave
  leave-Bounded before t after sys b = λ j. ground (
    arith,
    b j,
    remove-world t.user (record sys.hub { metrics = remove_connection sys.hub.metrics }),
  )

  drop-Bounded :
      (before : List (Task bc dm)) (t : Task bc dm) (after : List (Task bc dm)) (sys : System bc dm)
      → Bounded sys
      → Bounded (drop bc dm before t after sys)
  unfolding drop
  drop-Bounded before t after sys b =
      λ j. ground (arith, b j, bc.drop_receivers t.receiver j sys.hub.world)

  step-Bounded : (sys : System bc dm) (e : Event bc dm) → Bounded sys → Bounded (step bc dm sys e)
  unfolding step send_to_user
  step-Bounded sys (joins user) b = join-Bounded Unit sys user b
  step-Bounded sys (leaves n) b = elim (Option-cases (select n sys.tasks)) [
    | inl f ↦ rw (f, step) b
    | inr ((before, t, after), f) ↦ rw (f, step) (leave-Bounded before t after sys b)
  ]
  step-Bounded sys (drops n) b = elim (Option-cases (select n sys.tasks)) [
    | inl f ↦ rw (f, step) b
    | inr ((before, t, after), f) ↦ rw (f, step) (drop-Bounded before t after sys b)
  ]
  step-Bounded sys (sends user msg) b = elim (Option-cases (dm.get user sys.hub.connections)) [
    | inl f ↦ rw (f, step, send_to_user) b
    | inr (s, f) ↦
        rw (f, step, send_to_user) (λ j. rw (bc.send_receivers s msg j sys.hub.world) (b j))
  ]

  run-Bounded :
      (sys : System bc dm) (es : List (Event bc dm)) → Bounded sys → Bounded (run bc dm sys es)
  unfolding run
  run-Bounded sys [] b = b
  run-Bounded sys (e ∷ es) b = run-Bounded (step bc dm sys e) es (step-Bounded sys e b)

  -- The tasks of a channel are never more than one above the limit.
  pub run-limit :
      (world : bc.World) (es : List (Event bc dm)) (j : ℕ)
      → ((k : ℕ) → bc.receivers k world ≡ 0)
      → count (source bc dm) j (run bc dm (start bc dm world) es).tasks ≤ suc user_connection_limit
  unfolding start
  run-limit world es j fresh =
      let (own, v) =
        run-Inv bc dm (λ _. record { hash = 0 }) (start bc dm world) es
          (start-Inv bc dm world _ fresh) in
      omega (arith, v.counted j, run-Bounded (start bc dm world) es (λ k. omega (arith, fresh k)) j)

  abbrev pub repeat_join : ℕ → UserId → List (Event bc dm)
  repeat_join zero user = []
  repeat_join (suc n) user = joins user ∷ repeat_join n user

  -- A user's only channel has the given number of receivers, and so many tasks run.
  abbrev Joined : UserId → ℕ → System bc dm → Type 0
  Joined user n sys =
      (s : bc.Sender) × (dm.get user sys.hub.connections ≡ some s)
      × (bc.receivers (bc.channel_of s) sys.hub.world ≡ n)
      × (length sys.tasks ≡ n)

  join_again :
      (X : Type 0) (user : UserId) (n : ℕ) (sys : System bc dm)
      → Joined user n sys
      → Joined user
          (if ltb user_connection_limit n then n else suc n)
          (join bc dm {X = X} user sys).1
  unfolding join
  join_again X user n sys (s, e, r, l) =
      elim (Bool-cases (ltb user_connection_limit (bc.receiver_count s sys.hub.world))) [
        | inl full ↦
            rw
              (
                add_full bc dm {X = X} user sys.hub e full,
                join,
                add_full bc dm {X = X} user sys.hub e full,
              )
              (
                s,
                e,
                ground (arith, bc.receiver_count_lem s sys.hub.world),
                ground (arith, bc.receiver_count_lem s sys.hub.world),
              )
        | inr room ↦
            rw
              (
                add_occupied bc dm {X = X} user sys.hub e room,
                join,
                add_occupied bc dm {X = X} user sys.hub e room,
              )
              (
                s,
                e,
                ground (
                  arith,
                  bc.receiver_count_lem s sys.hub.world,
                  bc.subscribe_receivers s (bc.channel_of s) sys.hub.world,
                ),
                ground (arith, bc.receiver_count_lem s sys.hub.world),
              )
      ]

  join_first :
      (X : Type 0) (user : UserId) (sys : System bc dm)
      → dm.get user sys.hub.connections ≡ none
      → sys.tasks ≡ []
      → Joined user 1 (join bc dm {X = X} user sys).1
  unfolding join
  join_first X user sys e t =
      rw (add_vacant bc dm {X = X} user sys.hub e, join, add_vacant bc dm {X = X} user sys.hub e)
        (
          (bc.channel 4 sys.hub.world).0,
          ground (
            arith,
            dm.get-insert user user (bc.channel 4 sys.hub.world).0 sys.hub.connections,
            (user_beq_iff user user).1 refl,
          ),
          ground (
            arith,
            bc.channel_sender 4 sys.hub.world,
            bc.channel_receivers 4 (bc.made sys.hub.world) sys.hub.world,
          ),
          ground arith,
        )

  repeat_join-length :
      (user : UserId) (k n : ℕ) (sys : System bc dm)
      → Joined user n sys
      → n ≤ suc user_connection_limit
      → length (run bc dm sys (repeat_join k user)).tasks ≡ min (k + n) (suc user_connection_limit)
  unfolding run step
  repeat_join-length user zero n sys h b = omega (arith, h.3)
  repeat_join-length user (suc k) n sys h b =
      let rest =
        repeat_join-length user k (if ltb user_connection_limit n then n else suc n)
          (join bc dm {X = Unit {0}} user sys).1 (join_again Unit user n sys h) (ground arith) in
      ground (arith, rest)

  -- A user who opens connections on a server without any gets them up to one above the limit, and
  -- is refused the further ones.
  pub run-repeat_join :
      (world : bc.World) (user : UserId) (n : ℕ)
      → length (run bc dm (start bc dm world) (repeat_join n user)).tasks
        ≡ min n (suc user_connection_limit)
  unfolding run start step
  run-repeat_join world user zero = refl
  run-repeat_join world user (suc n) =
      repeat_join-length user n 1 _
        (join_first Unit user (start bc dm world) (dm.get-empty user) refl) (omega arith)
      ∙ omega arith
