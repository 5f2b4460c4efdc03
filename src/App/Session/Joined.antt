-- ===== src/App/Session/Joined.antt =====
-- src/lib.rs, src/connection.rs, src/message.rs together: a connection that has joined the server.
use Prim.Native.Nat.{max}
use notify_push.Common.{
  ℕ, ◌+◌, ◌≤◌, ◌<◌, ◌≡◌, refl, sym, ap, subst, ◌∙◌, List, [], ◌∷◌, ◌++◌, map, Option, none, some,
  true, false, any, from_secs, All, nat_eq, arith,
}
use notify_push.Ws.{Json}
use notify_push.User.{UserId, user_eq}
use notify_push.Message.{PushMessage}
use notify_push.Message.Queue.{Topic, tells}
use notify_push.Message.History.{is_told}
use notify_push.Event.{Decoder}
use notify_push.Connection.Active.{Hub}
use notify_push.Connection.System as System
use notify_push.Connection.System.{Task}
use notify_push.Connection.System.Tasks.{place, place-All}
use notify_push.Connection.System.Invariant.{name, entry, source}
use notify_push.Connection.System.Limit.{run-reaches}
use notify_push.Connection.Socket as Socket
use notify_push.Connection.Socket.{elapsed, ConnectionOptions, start, run}
use notify_push.Connection.Socket.Frames.{texts, frame, IsSettled}
use notify_push.App.{Crates}
use notify_push.App.Reach.{Owns}
use notify_push.App.Listen.{Listening, Round, listen_loop}
use notify_push.App.Listen
use notify_push.App.Listen.Ledger.{told_all}
use notify_push.App.Listen.Reconnect.{all_steps, listen_loop-run}
use notify_push.App.Session.{received, run-texts}

module _ {V X : Type 0} (cr : Crates V X) where
  -- The channel that the map has for a user is owned by the user, if it is the only one who has it.
  entry-Owns :
      (hub : Hub cr.bc cr.users) (user : UserId) (j : ℕ) (found : Option cr.bc.Sender)
      → cr.users.get user hub.connections ≡ found
      → name cr.bc cr.users found ≡ some j
      → ((u : UserId) → entry cr.bc cr.users u hub.connections ≡ some j → u ≡ user)
      → (tx : cr.bc.Sender) × (cr.bc.channel_of tx ≡ j) × Owns cr hub user tx
  entry-Owns hub user j none f e alone = absurd (cc)
  entry-Owns hub user j (some tx) f e alone =
      let same : cr.bc.channel_of tx ≡ j = ground arith in
      (
        tx,
        same,
        record {
          listed = f;
          alone = λ other ty g h. alone other (ap (name cr.bc cr.users) g ∙ ap some (h ∙ same));
        },
      )

  -- A connection that has joined and is not closing owns the channel on which it receives.
  joined-Owns :
      (world : cr.bc.World) (visits : List (System.Event cr.bc cr.users)) (n : ℕ)
      (t : Task cr.bc cr.users)
      → ((j : ℕ) → cr.bc.receivers j world ≡ 0)
      → let sys = System.run cr.bc cr.users (System.start cr.bc cr.users world) visits in
        place n sys.tasks ≡ some t
        → t.leaving ≡ false
        → (tx : cr.bc.Sender) × (cr.bc.channel_of tx ≡ source cr.bc cr.users t)
          × Owns cr sys.hub t.user tx
  joined-Owns world visits n t fresh there stays =
      let sys = System.run cr.bc cr.users (System.start cr.bc cr.users world) visits in
      let (reached, alone) =
        place-All _ n sys.tasks t there (run-reaches cr.bc cr.users world visits fresh) in
      entry-Owns sys.hub t.user (source cr.bc cr.users t) _ refl (reached stays) alone

  module _ (json : Json V) (opts : ConnectionOptions) where
    -- From a server that starts with channels without receivers, let connections join, leave and be
    -- dropped in any order, and let one of them not be closing. Then let the server listen, without
    -- tasks at first, with redis lost and found again and the tasks in any order, and let the
    -- connection take every message that is sent meanwhile on its channel, and still be open after a
    -- timeout that comes later than the configured debounce time, and at least a second, after all of
    -- this. Then the texts that its client was sent, or fed and flushed, are those of pushes that tell
    -- exactly the files, activities and notifications that the events which came give its user: a
    -- storage update its file, at the second step about it, if the user is among those that `look_up`
    -- gave at the first, and any other event what `told` says of it. The client asks for ids of files
    -- in it only if the options say that it did before, and the debouncing is not disabled.
    pub listen_loop-texts :
        (world : cr.bc.World) (visits : List (System.Event cr.bc cr.users)) (n : ℕ)
        (t : Task cr.bc cr.users) (from_slice : Decoder V X) (rounds : List (Round cr))
        (server : Listening cr) (es : List (ℕ × Socket.Event V))
        (opened last count ping_value now : ℕ)
        → ((j : ℕ) → cr.bc.receivers j world ≡ 0)
        → place n (System.run cr.bc cr.users (System.start cr.bc cr.users world) visits).tasks
          ≡ some t
        → t.leaving ≡ false
        → server.app.hub
          ≡ (System.run cr.bc cr.users (System.start cr.bc cr.users world) visits).hub
        → server.spawned ≡ []
        → cr.bc.sent
            (source cr.bc cr.users t)
            (listen_loop cr from_slice rounds server).app.hub.world
          ≡ cr.bc.sent (source cr.bc cr.users t) server.app.hub.world ++ received es
        → IsSettled json opts opened opts.listen_file_id es
        → opened ≤ last
        → All (λ e. e.0 ≤ last) es
        → last + from_secs (max 1 opts.max_debounce_time) < now
        → (run json true opts opened
            (es ++ (now, elapsed count ping_value) ∷ [])
            (start opts opened)).0.ended
          ≡ none
        → (outs : List (ℕ × PushMessage V)) × (texts
              (run json true opts opened
                (es ++ (now, elapsed count ping_value) ∷ [])
                (start opts opened)).1
            ≡ map (frame json opts opened opts.listen_file_id) outs)
          × ((topic : Topic)
              → is_told outs topic
                ≡ any
                    (λ m. tells m topic)
                    (told_all cr from_slice (all_steps cr rounds) server t.user))
    listen_loop-texts world visits n t from_slice rounds server es opened last count ping_value now
          fresh there stays same none_left taken settled since all late going =
        let (tx, channel, owns) = joined-Owns world visits n t fresh there stays in
        run-texts cr json opts from_slice (all_steps cr rounds) server t.user tx es opened last
          count ping_value now (subst (λ hub. Owns cr hub t.user tx) (sym same) owns) none_left
          (subst
            (λ j.
              cr.bc.sent j (Listen.run cr from_slice (all_steps cr rounds) server).app.hub.world
              ≡ cr.bc.sent j server.app.hub.world ++ received es)
            (sym channel)
            (sym (
                ap (λ (r : Listening cr). cr.bc.sent (source cr.bc cr.users t) r.app.hub.world)
                  (listen_loop-run cr from_slice rounds server))
              ∙ taken))
          settled since all late going
