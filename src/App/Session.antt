-- ===== src/App/Session.antt =====
-- src/lib.rs, src/connection.rs, src/message.rs together: from the messages of redis to the texts that
-- one connected client is sent.
pub mod Joined
use Prim.Native.Nat.{max}
use notify_push.Common.{
  ℕ, ◌+◌, ◌≤◌, ◌<◌, ◌%◌, ◌≡◌, refl, sym, ap, ◌∙◌, List, [], ◌∷◌, ◌++◌, map, none, true, Bool, any,
  from_secs, arith, All, usize_mod,
}
use notify_push.Ws.{Json}
use notify_push.User.{UserId}
use notify_push.Message.{PushMessage}
use notify_push.Message
use notify_push.Message.Queue.{Topic, tells}
use notify_push.Message.History.{pushed, drained, play, is_told, is_asked}
use notify_push.Message.History.Delivery.{op_time, play-delivers}
use notify_push.Event.{Decoder}
use notify_push.Connection.Socket.{
  Event, message, elapsed, lagged, reset, client, client_error, client_end, ConnectionOptions,
  start, run,
}
use notify_push.Connection.Socket.Frames.{texts, frame, ops_of, IsSettled, run-play}
use notify_push.App.{Crates}
use notify_push.App.Reach.{Owns}
use notify_push.App.Listen.{Listening, Step}
use notify_push.App.Listen
use notify_push.App.Listen.Ledger.{told_all}
use notify_push.App.Listen.Reconnect.{run-told_all}

cancel_front {ℓ} : {A : Type ℓ} (xs ys zs : List A) → xs ++ ys ≡ xs ++ zs → ys ≡ zs
cancel_front [] ys zs e = e
cancel_front (x ∷ xs) ys zs e = cancel_front xs ys zs (cc)

module _ {V : Type 0} where
  -- The messages that a connection takes from its channel.
  abbrev pub received : List (ℕ × Event V) → List (PushMessage V)
  received [] = []
  received ((now, message msg) ∷ es) = msg ∷ received es
  received ((now, _) ∷ es) = received es

  is_asked-received :
      (es : List (ℕ × Event V)) (topic : Topic)
      → is_asked (ops_of es) topic ≡ any (λ m. tells m topic) (received es)
  is_asked-received [] topic = refl
  is_asked-received ((now, message msg) ∷ es) topic = ground (arith, is_asked-received es topic)
  is_asked-received ((now, elapsed count p) ∷ es) topic = is_asked-received es topic
  is_asked-received ((now, lagged) ∷ es) topic = is_asked-received es topic
  is_asked-received ((now, reset) ∷ es) topic = is_asked-received es topic
  is_asked-received ((now, client msg) ∷ es) topic = is_asked-received es topic
  is_asked-received ((now, client_error) ∷ es) topic = is_asked-received es topic
  is_asked-received ((now, client_end) ∷ es) topic = is_asked-received es topic

  ops_of-append :
      (es : List (ℕ × Event V)) (count p now : ℕ)
      → ops_of (es ++ (now, elapsed count p) ∷ [])
        ≡ ops_of es ++ drained ((count + 50000) % usize_mod) now ∷ []
  ops_of-append [] count p now = refl
  ops_of-append ((t, message msg) ∷ es) count p now =
      ap (◌∷◌ (pushed msg t)) (ops_of-append es count p now)
  ops_of-append ((t, elapsed c q) ∷ es) count p now =
      ap (◌∷◌ (drained ((c + 50000) % usize_mod) t)) (ops_of-append es count p now)
  ops_of-append ((t, lagged) ∷ es) count p now = ops_of-append es count p now
  ops_of-append ((t, reset) ∷ es) count p now = ops_of-append es count p now
  ops_of-append ((t, client msg) ∷ es) count p now = ops_of-append es count p now
  ops_of-append ((t, client_error) ∷ es) count p now = ops_of-append es count p now
  ops_of-append ((t, client_end) ∷ es) count p now = ops_of-append es count p now

  ops_of-All :
      (t : ℕ) (es : List (ℕ × Event V))
      → All (λ e. e.0 ≤ t) es
      → All (λ op. op_time op ≤ t) (ops_of es)
  ops_of-All t [] h = tt
  ops_of-All t ((now, message msg) ∷ es) h = (h.0, ops_of-All t es h.1)
  ops_of-All t ((now, elapsed count p) ∷ es) h = (h.0, ops_of-All t es h.1)
  ops_of-All t ((now, lagged) ∷ es) h = ops_of-All t es h.1
  ops_of-All t ((now, reset) ∷ es) h = ops_of-All t es h.1
  ops_of-All t ((now, client msg) ∷ es) h = ops_of-All t es h.1
  ops_of-All t ((now, client_error) ∷ es) h = ops_of-All t es h.1
  ops_of-All t ((now, client_end) ∷ es) h = ops_of-All t es h.1

  IsSettled-append :
      (json : Json V) (opts : ConnectionOptions) (opened : ℕ) (flag : Bool)
      (es : List (ℕ × Event V)) (count p now : ℕ)
      → IsSettled json opts opened flag es
      → IsSettled json opts opened flag (es ++ (now, elapsed count p) ∷ [])
  IsSettled-append json opts opened flag [] count p now h = ((λ e. absurd (cc)), tt)
  IsSettled-append json opts opened flag (e ∷ es) count p now h =
      (h.0, IsSettled-append json opts opened flag es count p now h.1)

module _ {V X : Type 0} (cr : Crates V X) (json : Json V) (opts : ConnectionOptions) where
  -- Let a connection of a user, whose channel no other user has, take every message that is sent on
  -- the channel while a server that starts without tasks listens, be it in whatever order messages
  -- come and tasks run, and let it still be open after a timeout that comes later than the configured
  -- debounce time, and at least a second, after all of this. Then the texts that the client was sent,
  -- or fed and flushed, are those of pushes that tell exactly the files, activities and notifications
  -- that `told_all` says. The client asks for ids of files in it only if the options say that it did
  -- before.
  pub run-texts :
      (from_slice : Decoder V X) (steps : List (Step cr)) (server : Listening cr) (user : UserId)
      (tx : cr.bc.Sender) (es : List (ℕ × Event V)) (opened t count ping_value now : ℕ)
      → Owns cr server.app.hub user tx
      → server.spawned ≡ []
      → cr.bc.sent (cr.bc.channel_of tx) (Listen.run cr from_slice steps server).app.hub.world
        ≡ cr.bc.sent (cr.bc.channel_of tx) server.app.hub.world ++ received es
      → IsSettled json opts opened opts.listen_file_id es
      → opened ≤ t
      → All (λ e. e.0 ≤ t) es
      → t + from_secs (max 1 opts.max_debounce_time) < now
      → let (after, done) =
          run json true opts opened
            (es ++ (now, elapsed count ping_value) ∷ [])
            (start opts opened) in
        after.ended ≡ none
        → (outs : List (ℕ × PushMessage V)) × (texts done
            ≡ map (frame json opts opened opts.listen_file_id) outs)
          × ((topic : Topic)
              → is_told outs topic
                ≡ any (λ m. tells m topic) (told_all cr from_slice steps server user))
  unfolding start
  run-texts from_slice steps server user tx es opened t count ping_value now owns none_left taken
        settled since all late going =
      let told = told_all cr from_slice steps server user in
      let same : received es ≡ told =
        cancel_front (cr.bc.sent (cr.bc.channel_of tx) server.app.hub.world) (received es) told
          (sym taken ∙ run-told_all cr from_slice steps server user tx owns none_left) in
      let history = ops_of es ++ drained ((count + 50000) % usize_mod) now ∷ [] in
      let outs = (play opts.max_debounce_time (Message.default opened) history).1 in
      (
        outs,
        (run-play json opts opened (es ++ (now, elapsed count ping_value) ∷ []) (start opts opened)
              refl
              (IsSettled-append json opts opened opts.listen_file_id es count ping_value now
                settled)
              going).1
            ∙ ap
                (λ ops.
                  map (frame json opts opened opts.listen_file_id)
                    (play opts.max_debounce_time (Message.default opened) ops).1)
                (ops_of-append es count ping_value now),
        λ topic.
            play-delivers opts.max_debounce_time opened t ((count + 50000) % usize_mod) now
              (ops_of es) topic since (ops_of-All t es all) late
            ∙ is_asked-received es topic
            ∙ ap (any (λ m. tells m topic)) same,
      )
