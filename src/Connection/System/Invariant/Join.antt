-- ===== src/Connection/System/Invariant/Join.antt =====
-- src/connection.rs: a connection that joins keeps the invariant.
use notify_push.Common.{
  ℕ, suc, ◌≡◌, refl, sym, List, [], ◌∷◌, none, some, Option-cases, inl, inr, true, false,
  if◌then◌else◌, All, arith, nat_eq, nat_beq, nat_beq_iff, Bool-cases, ok, err, ltb, subst,
}
use notify_push.User.{UserId, user_eq, user_beq_iff}
use notify_push.Message.{PushMessage}
use notify_push.Metrics.{Metrics, add_user}
use notify_push.Error.{Error, AuthenticationError}
use notify_push.Dash.{DashMap}
use notify_push.Broadcast.{Broadcast}
use notify_push.Connection.Active.{Hub, add, user_connection_limit}
use notify_push.Connection.System.{Task, System, join}
use notify_push.Connection.System.Tasks.{count, All-map}
use notify_push.Connection.System.Invariant.{source, Held, Inv}

user_beq_refl : (u : UserId) → nat_beq u.hash u.hash ≡ true
user_beq_refl u = (user_beq_iff u u).1 refl

module _ {V : Type 0} (bc : Broadcast (PushMessage V)) (dm : DashMap UserId bc.Sender) where
  -- A further connection of a user with a channel.
  subscribe-Inv :
      (own : ℕ → UserId) (sys : System bc dm) (user : UserId) (s : bc.Sender) (m : Metrics)
      → (Inv bc dm) own sys
      → dm.get user sys.hub.connections ≡ some s
      → (Inv bc dm) own (record {
        hub = record {
          connections = sys.hub.connections;
          world = (bc.subscribe s sys.hub.world).1;
          metrics = m;
        };
        tasks =
            record { user = user; receiver = (bc.subscribe s sys.hub.world).0; leaving = false }
            ∷ sys.tasks;
      })
  subscribe-Inv own sys user s m v e =
      let w = sys.hub.world in
      let here = v.entries user (bc.channel_of s) (rw e) in
      record {
        counted =
            λ j. ground (arith, v.counted j, bc.subscribe_receivers s j w, bc.subscribe_source s w);
        entries = λ u j f. rw (bc.subscribe_made s w) (v.entries u j f);
        held = (
          record {
            known = rw (bc.subscribe_made s w, bc.subscribe_source s w) here.0;
            owned = rw (bc.subscribe_source s w) here.1;
            reached = λ _. rw (e, bc.subscribe_source s w);
          },
          subst (λ n. All ((Held bc dm) own n sys.hub.connections) sys.tasks)
              (sym (bc.subscribe_made s w)) v.held,
        );
      }

  abbrev own_new : (ℕ → UserId) → ℕ → UserId → ℕ → UserId
  own_new own n user j = if nat_beq n j then user else own j

  Held-insert :
      (own : ℕ → UserId) (n : ℕ) (connections : dm.Map) (user : UserId) (s : bc.Sender)
      → dm.get user connections ≡ none
      → (t : Task bc dm) → (Held bc dm) own n connections t
      → (Held bc dm) (own_new own n user) (suc n) (dm.insert user s connections) t
  Held-insert own n connections user s e t h = record {
    known = omega (arith, h.known);
    owned = ground (arith, h.known, h.owned);
    reached = λ running. ground (
      arith,
      dm.get-insert user t.user s connections,
      user_beq_iff user t.user,
      h.reached running,
    );
  }

  count_new :
      (own : ℕ → UserId) (n : ℕ) (connections : dm.Map) (ts : List (Task bc dm))
      → All ((Held bc dm) own n connections) ts
      → count (source bc dm) n ts ≡ 0
  count_new own n connections [] h = refl
  count_new own n connections (t ∷ ts) h =
      ground (arith, count_new own n connections ts h.1, h.0.known)

  -- The first connection of a user.
  channel-Inv :
      (own : ℕ → UserId) (sys : System bc dm) (user : UserId) (m : Metrics)
      → (Inv bc dm) own sys
      → dm.get user sys.hub.connections ≡ none
      → let (tx, rx, world) = bc.channel 4 sys.hub.world in
        (Inv bc dm) (own_new own (bc.made sys.hub.world) user) (record {
          hub = record {
            connections = dm.insert user tx sys.hub.connections;
            world = world;
            metrics = m;
          };
          tasks = record { user = user; receiver = rx; leaving = false } ∷ sys.tasks;
        })
  channel-Inv own sys user m v e =
      let w = sys.hub.world in
      let tx = (bc.channel 4 w).0 in
      let conns = sys.hub.connections in
      record {
        counted = λ j. ground (
          arith,
          v.counted j,
          bc.channel_receivers 4 j w,
          bc.channel_source 4 w,
          count_new own (bc.made w) conns sys.tasks v.held,
          nat_beq_iff (bc.made w) j,
        );
        entries = λ u j f. rw (bc.channel_made 4 w) (
            ground (
              arith,
              dm.get-insert user u tx conns,
              user_beq_iff user u,
              v.entries u j,
              bc.channel_sender 4 w,
            ));
        held = (
          record {
            known = omega (arith, bc.channel_made 4 w, bc.channel_source 4 w);
            owned = ground (arith, bc.channel_source 4 w);
            reached = λ _. ground (
              arith,
              dm.get-insert user user tx conns,
              user_beq_refl user,
              bc.channel_source 4 w,
              bc.channel_sender 4 w,
            );
          },
          subst
              (λ n.
                All ((Held bc dm) (own_new own (bc.made w) user) n (dm.insert user tx conns))
                  sys.tasks)
              (sym (bc.channel_made 4 w))
              (All-map sys.tasks v.held (Held-insert own (bc.made w) conns user tx e)),
        );
      }

  module _ {X : Type 0} (user : UserId) (hub : Hub bc dm) where
    pub add_vacant :
        dm.get user hub.connections ≡ none
        → let (tx, rx, world) = bc.channel 4 hub.world in
          add bc dm {X = X} user hub ≡ (
            ok rx,
            record {
              connections = dm.insert user tx hub.connections;
              world = world;
              metrics = add_user hub.metrics;
            },
          )
    unfolding add
    add_vacant e = rw (e, add)

    pub add_occupied :
        {s : bc.Sender}
        → dm.get user hub.connections ≡ some s
        → ltb user_connection_limit (bc.receiver_count s hub.world) ≡ false
        → add bc dm {X = X} user hub
          ≡ (ok (bc.subscribe s hub.world).0, record hub { world = (bc.subscribe s hub.world).1 })
    unfolding add
    add_occupied e room = rw (e, add, room)

    pub add_full :
        {s : bc.Sender}
        → dm.get user hub.connections ≡ some s
        → ltb user_connection_limit (bc.receiver_count s hub.world) ≡ true
        → add bc dm {X = X} user hub
          ≡ (err (Error.authentication AuthenticationError.limit_exceeded), hub)
    unfolding add
    add_full e full = rw (e, add, full)

  pub join-Inv :
      (X : Type 0) (own : ℕ → UserId) (sys : System bc dm) (user : UserId)
      → (Inv bc dm) own sys
      → (own' : ℕ → UserId) × (Inv bc dm) own' (join bc dm {X = X} user sys).1
  unfolding join
  join-Inv X own sys user v = elim (Option-cases (dm.get user sys.hub.connections)) [
    | inl e ↦ (
      own_new own (bc.made sys.hub.world) user,
      rw (add_vacant {X = X} user sys.hub e, join, add_vacant {X = X} user sys.hub e)
          (channel-Inv own sys user _ v e),
    )
    | inr (s, e) ↦ (
      own,
      elim (Bool-cases (ltb user_connection_limit (bc.receiver_count s sys.hub.world))) [
        | inl full ↦
            rw (add_full {X = X} user sys.hub e full, join, add_full {X = X} user sys.hub e full) v
        | inr room ↦
            rw
              (
                add_occupied {X = X} user sys.hub e room,
                join,
                add_occupied {X = X} user sys.hub e room,
              )
              (subscribe-Inv own sys user s _ v e)
      ],
    )
  ]
