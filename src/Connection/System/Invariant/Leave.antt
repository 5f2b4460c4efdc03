-- ===== src/Connection/System/Invariant/Leave.antt =====
-- src/connection.rs: a connection that leaves, and a receiver that is dropped, keep the invariant.
use notify_push.Common.{
  ℕ, ◌≡◌, refl, sym, ap, ◌∙◌, List, ◌∷◌, ◌++◌, some, Option-cases, inl, inr, true, All, All-append,
  arith, nat_eq, nat_beq, nat_beq_iff, Bool-cases, ◌≢◌, subst,
}
use notify_push.User.{UserId, user_eq, user_beq_iff}
use notify_push.Message.{PushMessage}
use notify_push.Metrics.{Metrics}
use notify_push.Dash.{DashMap}
use notify_push.Broadcast.{Broadcast}
use notify_push.Connection.Active.{remove}
use notify_push.Connection.System.{Task, System, leave, drop}
use notify_push.Connection.System.Tasks.{
  count, count-append, All-map_absent, All-before, All-behind,
}
use notify_push.Connection.System.Invariant.{entry, source, Held, Inv}

module _ {V : Type 0} (bc : Broadcast (PushMessage V)) (dm : DashMap UserId bc.Sender) where
  -- Only the last receiver of a channel takes it out of the map, so the others keep theirs.
  Held-remove :
      (own : ℕ → UserId) (made : ℕ) (connections : dm.Map) (t : Task bc dm)
      → (entry bc dm) t.user connections ≡ some ((source bc dm) t)
      → (x : Task bc dm) → (source bc dm) x ≢ (source bc dm) t
      → (Held bc dm) own made connections x
      → (Held bc dm) own made (dm.remove t.user connections) x
  Held-remove own made connections t e x ne h = record {
    known = h.known;
    owned = h.owned;
    reached = λ running. ground (
      arith,
      dm.get-remove t.user x.user connections,
      user_beq_iff t.user x.user,
      h.reached running,
    );
  }

  -- The counts of the other tasks, where a channel has one receiver.
  alone :
      (j : ℕ) (before after : List (Task bc dm)) (t : Task bc dm)
      → (source bc dm) t ≡ j
      → count (source bc dm) j (before ++ t ∷ after) ≡ 1
      → (count (source bc dm) j before ≡ 0) × (count (source bc dm) j after ≡ 0)
  alone j before after t e c =
      ground
        (arith, count-append (source bc dm) j before (t ∷ after), nat_beq_iff ((source bc dm) t) j)

  Held-leaving :
      (own : ℕ → UserId) (made : ℕ) (connections connections' : dm.Map) (t : Task bc dm)
      → (Held bc dm) own made connections t
      → (Held bc dm) own made connections' (record t { leaving = true })
  Held-leaving own made connections connections' t h = record {
    known = h.known;
    owned = h.owned;
    reached = λ e. cc;
  }

  module _ (own : ℕ → UserId) (sys : System bc dm) (before after : List (Task bc dm))
      (t : Task bc dm) (v : (Inv bc dm) own sys) (split : sys.tasks ≡ before ++ t ∷ after) where
    Held-split :
        All ((Held bc dm) own (bc.made sys.hub.world) sys.hub.connections) (before ++ t ∷ after)
    Held-split =
        subst (All ((Held bc dm) own (bc.made sys.hub.world) sys.hub.connections)) split v.held

    Held-before : All ((Held bc dm) own (bc.made sys.hub.world) sys.hub.connections) before
    Held-before = All-before _ before (t ∷ after) Held-split

    Held-here : (Held bc dm) own (bc.made sys.hub.world) sys.hub.connections t
    Held-here =
        (All-behind ((Held bc dm) own (bc.made sys.hub.world) sys.hub.connections) before
          (t ∷ after) Held-split).0

    Held-after : All ((Held bc dm) own (bc.made sys.hub.world) sys.hub.connections) after
    Held-after =
        (All-behind ((Held bc dm) own (bc.made sys.hub.world) sys.hub.connections) before
          (t ∷ after) Held-split).1

    counted_leaving :
        (j : ℕ)
        → bc.receivers j sys.hub.world
          ≡ count (source bc dm) j (before ++ record t { leaving = true } ∷ after)
    counted_leaving j = ground (
      arith,
      v.counted j,
      ap (count (source bc dm) j) split,
      count-append (source bc dm) j before (t ∷ after),
      count-append (source bc dm) j before (record t { leaving = true } ∷ after),
    )

    -- The entry stays.
    stay-Inv :
        (m : Metrics)
        → (Inv bc dm) own (record {
          hub = record sys.hub { metrics = m };
          tasks = before ++ record t { leaving = true } ∷ after;
        })
    stay-Inv m = record {
      counted = counted_leaving;
      entries = v.entries;
      held = All-append _ before _ Held-before (Held-leaving own _ _ _ t Held-here, Held-after);
    }

    -- The entry goes with the last receiver.
    remove-Inv :
        (m : Metrics)
        → (entry bc dm) t.user sys.hub.connections ≡ some ((source bc dm) t)
        → bc.receivers ((source bc dm) t) sys.hub.world ≡ 1
        → (Inv bc dm) own (record {
          hub = record sys.hub { connections = dm.remove t.user sys.hub.connections; metrics = m };
          tasks = before ++ record t { leaving = true } ∷ after;
        })
    remove-Inv m e one =
        let conns = sys.hub.connections in
        let others = alone ((source bc dm) t) before after t refl (
          sym (ap (count (source bc dm) ((source bc dm) t)) split)
          ∙ sym (v.counted ((source bc dm) t))
          ∙ one) in
        let kept = Held-remove own (bc.made sys.hub.world) conns t e in
        record {
          counted = counted_leaving;
          entries = λ u j f. v.entries u j (ground (arith, dm.get-remove t.user u conns));
          held =
              All-append _ before _
                (All-map_absent (source bc dm) ((source bc dm) t) before others.0 Held-before kept)
                (
                  Held-leaving own _ _ _ t Held-here,
                  All-map_absent (source bc dm) ((source bc dm) t) after others.1 Held-after kept,
                );
        }

    pub leave-Inv : (Inv bc dm) own (leave bc dm before t after sys)
    unfolding leave remove
    leave-Inv = elim (Bool-cases t.leaving) [
      | inl gone ↦ rw (gone, leave) v
      | inr running ↦ elim (Option-cases (dm.get t.user sys.hub.connections)) [
        | inl e ↦ absurd (ground (arith, Held-here.reached running))
        | inr (s, e) ↦
            let at : bc.channel_of s ≡ (source bc dm) t =
              ground (arith, Held-here.reached running) in
            elim (Bool-cases (nat_beq (bc.receiver_count s sys.hub.world) 1)) [
              | inl one ↦
                  rw (running, leave, e, remove, one)
                    (remove-Inv _ (Held-here.reached running)
                      (ground (arith, bc.receiver_count_lem s sys.hub.world)))
              | inr more ↦ rw (running, leave, e, remove, more) (stay-Inv _)
            ]
      ]
    ]

    pub drop-Inv : (Inv bc dm) own (drop bc dm before t after sys)
    unfolding drop
    drop-Inv = elim (Bool-cases t.leaving) [
      | inr running ↦ rw (running, drop) v
      | inl gone ↦
          rw (gone, drop)
            (record {
              counted = λ j. ground (
                arith,
                v.counted j,
                ap (count (source bc dm) j) split,
                count-append (source bc dm) j before (t ∷ after),
                count-append (source bc dm) j before after,
                bc.drop_receivers t.receiver j sys.hub.world,
              );
              entries = λ u j f. rw (bc.drop_made t.receiver sys.hub.world) (v.entries u j f);
              held =
                  subst (λ n. All ((Held bc dm) own n sys.hub.connections) (before ++ after))
                    (sym (bc.drop_made t.receiver sys.hub.world))
                    (All-append _ before after Held-before Held-after);
            })
    ]
