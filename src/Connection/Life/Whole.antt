-- ===== src/Connection/Life/Whole.antt =====
-- src/connection.rs: a connection that comes and goes leaves nothing behind.
use notify_push.Common.{
  ℕ, ◌<◌, ◌≡◌, refl, sym, ap, subst, ◌∙◌, List, [], ◌∷◌, none, some, Bool, ok, arith, nat_eq,
  nat_beq_self, ◌==◌, if◌then◌else◌, usize_mod, Bool-cases, inl, inr,
}
use notify_push.Common.Text.{Str, codes}
use notify_push.Ws.{text, Json}
use notify_push.User.{UserId, user_eq, user_beq_self, user_beq_sound}
use notify_push.Message.{PushMessage}
use notify_push.Metrics.{
  add_connection, remove_connection, add_user, remove_user, fetch_add, fetch_sub,
}
use notify_push.Dash.{DashMap}
use notify_push.Broadcast.{Broadcast}
use notify_push.Connection.Active.{Hub, remove}
use notify_push.Connection.System.Invariant.Join.{add_vacant}
use notify_push.Connection.Handshake.{finished, handshake, register}
use notify_push.Connection.Socket.{Event, ConnectionOptions, start, run}
use notify_push.Connection.Life.{close, converse, handle_user_socket}

module _ {V X : Type 0} (status : ℕ → Str) (external : X → Str) (bc : Broadcast (PushMessage V))
    (dm : DashMap UserId bc.Sender) (json : Json V) (debounce_enable : Bool) where
  -- What others do at most: they send, and count.
  pub record Keeps (before after : Hub bc dm) : Type 0 where
    pub connections_same : after.connections ≡ before.connections
    pub receivers_same : (j : ℕ) → bc.receivers j after.world ≡ bc.receivers j before.world
    pub gauge_same : after.metrics.active_connection_count ≡ before.metrics.active_connection_count

  -- How the connections stand afterwards, compared to before.
  pub record Restored (before after : Hub bc dm) : Type 0 where
    pub entries : (u : UserId) → dm.get u after.connections ≡ dm.get u before.connections
    pub receivers :
        (j : ℕ)
        → bc.receivers j after.world
          ≡ (if bc.made before.world == j then 0 else bc.receivers j before.world)
    pub gauge : after.metrics.active_connection_count ≡ before.metrics.active_connection_count

  remove_last :
      (user : UserId) (hub : Hub bc dm) {s : bc.Sender}
      → dm.get user hub.connections ≡ some s
      → bc.receivers (bc.channel_of s) hub.world ≡ 1
      → remove bc dm user hub ≡ record hub {
        connections = dm.remove user hub.connections;
        metrics = remove_user hub.metrics;
      }
  unfolding remove
  remove_last user hub {s} e one =
      rw (e, remove) (ground (arith, bc.receiver_count_lem s hub.world))

  without :
      (user u : UserId) (s : bc.Sender) (connections : dm.Map)
      → dm.get user connections ≡ none
      → dm.get u (dm.remove user (dm.insert user s connections)) ≡ dm.get u connections
  without user u s connections e = elim (Bool-cases (user == u)) [
    | inl same ↦
        rw (dm.get-remove, same) (sym e ∙ ap (λ k. dm.get k connections) (user_beq_sound same))
    | inr apart ↦ rw (dm.get-remove, apart) (rw (dm.get-insert, apart) refl)
  ]

  -- The first connection of a user, after `add`.
  abbrev pub first : UserId → Hub bc dm → Hub bc dm
  first user hub =
      let (tx, rx, world) = bc.channel 4 hub.world in
      record {
        connections = dm.insert user tx hub.connections;
        world = world;
        metrics = add_connection (add_user hub.metrics);
      }

  module _ (user : UserId) (hub later : Hub bc dm) (k : Keeps (first user hub) later) where
    abbrev tx : bc.Sender
    tx = (bc.channel 4 hub.world).0

    abbrev rx : bc.Receiver
    rx = (bc.channel 4 hub.world).1

    still_listed : dm.get user later.connections ≡ some tx
    still_listed = ap (dm.get user) k.connections_same ∙ rw (dm.get-insert, user_beq_self user) refl

    still_one : bc.receivers (bc.channel_of tx) later.world ≡ 1
    still_one =
        k.receivers_same (bc.channel_of tx)
        ∙ rw (bc.channel_receivers, bc.channel_sender, nat_beq_self (bc.made hub.world)) refl

    dropped :
        (j : ℕ)
        → bc.receivers j (bc.drop rx later.world)
          ≡ (if bc.made hub.world == j then 0 else bc.receivers j hub.world)
    dropped j = elim (Bool-cases (bc.made hub.world == j)) [
      | inl same ↦
          rw
            (
              bc.drop_receivers,
              bc.channel_source,
              same,
              k.receivers_same j,
              bc.channel_receivers,
              same,
            )
            refl
      | inr apart ↦
          rw
            (
              bc.drop_receivers,
              bc.channel_source,
              apart,
              k.receivers_same j,
              bc.channel_receivers,
              apart,
            )
            refl
    ]

    counted_out :
        hub.metrics.active_connection_count < usize_mod
        → (remove_user (remove_connection later.metrics)).active_connection_count
          ≡ hub.metrics.active_connection_count
    unfolding remove_user remove_connection add_connection add_user fetch_sub fetch_add
    counted_out small = omega (arith, k.gauge_same)

    close-Restored :
        dm.get user hub.connections ≡ none
        → hub.metrics.active_connection_count < usize_mod
        → Restored hub (close status external bc dm json debounce_enable user rx later)
    unfolding close
    close-Restored e small =
        let counted : Hub bc dm = record later { metrics = remove_connection later.metrics } in
        subst (λ (h : Hub bc dm). Restored hub (record h { world = bc.drop rx h.world }))
          (sym (remove_last user counted still_listed still_one))
          (record {
            entries = λ u.
                ap (λ c. dm.get u (dm.remove user c)) k.connections_same
                ∙ without user u tx hub.connections e;
            receivers = dropped;
            gauge = counted_out small;
          })

  -- A user without a connection authenticates and gets one. Let other tasks send and count while it
  -- lasts, and no more. Then the client is told that it is authenticated, its loops run, and afterwards
  -- each user has the channel that it had before, this one none; the new channel has no receivers and
  -- the others have theirs; and the gauge of connections stands where it stood.
  pub handle_user_socket-Restored :
      (opts : ConnectionOptions) (user : UserId) (opened : ℕ) (es : List (ℕ × Event V))
      (others : Hub bc dm → Hub bc dm) (hub : Hub bc dm)
      → dm.get user hub.connections ≡ none
      → hub.metrics.active_connection_count < usize_mod
      → Keeps (first user hub) (others (first user hub))
      → let (sent, done, after) =
          handle_user_socket status external bc dm json debounce_enable opts
            (finished (ok user))
            opened
            es
            others
            hub in
        (sent ≡ text (codes "authenticated") ∷ [])
        × (done ≡ (run json debounce_enable opts opened es (start opts opened)).1)
        × Restored hub after
  unfolding handle_user_socket converse handshake register
  handle_user_socket-Restored opts user opened es others hub e small k =
      let same = add_vacant bc dm {X = X} user hub e in
      rw same (refl, refl, close-Restored user hub (others (first user hub)) k e small)
