-- ===== src/App/Reach.antt =====
-- src/lib.rs: whom an event reaches, and with what.
use notify_push.Common.{
  ℕ, ◌≡◌, refl, sym, ◌∙◌, ap, List, [], ◌∷◌, ◌++◌, none, some, Option-cases, Bool, true, false,
  Bool-cases, if◌then◌else◌, Result, ok, err, nat_eq, nat_beq, nat_beq_self, nat_beq_sound, ◌==◌,
  inl, inr, append_laws, append-nil, arith,
}
use notify_push.Common.Text.{Str}
use notify_push.User.{UserId, user_eq, user_beq, user_beq_iff, user_beq_sound}
use notify_push.Message.{PushMessage, UpdatedFiles, updated_file}
use notify_push.Error.{DatabaseError}
use notify_push.Storage.{Clock}
use notify_push.Event.{Event}
use notify_push.Event
use notify_push.Redis
use notify_push.Redis.{RedisConnection}
use notify_push.Connection.Active.{Hub, send_to_user}
use notify_push.App.{
  App, Crates, look_up, send_to_users, notify, notify_found, push_spec, set_metrics, handle_event,
}

put_if :
    {A : Type 0} (b : Bool) (xs : List A) (x : A)
    → (if b then xs ++ x ∷ [] else xs) ≡ xs ++ (if b then x ∷ [] else [])
put_if true xs x = refl
put_if false xs x = simp append_laws

put_more :
    {A : Type 0} (b : Bool) (xs rest : List A) (x : A)
    → (xs ++ (if b then x ∷ [] else [])) ++ rest ≡ xs ++ (if b then x ∷ rest else rest)
put_more true xs rest x = simp append_laws
put_more false xs rest x = simp append_laws

module _ {V X : Type 0} (cr : Crates V X) where
  -- The user has the channel, and no other user has it.
  pub record Owns (hub : Hub cr.bc cr.users) (user : UserId) (tx : cr.bc.Sender) : Type 0 where
    pub listed : cr.users.get user hub.connections ≡ some tx
    pub alone :
        (other : UserId) (ty : cr.bc.Sender)
        → cr.users.get other hub.connections ≡ some ty
        → cr.bc.channel_of ty ≡ cr.bc.channel_of tx
        → other ≡ user

  -- One message for each place where the user stands.
  abbrev pub copies : List UserId → UserId → PushMessage V → List (PushMessage V)
  copies [] user msg = []
  copies (u ∷ users) user msg =
      let rest = copies users user msg in if u == user then msg ∷ rest else rest

  same_user :
      (hub : Hub cr.bc cr.users) (user to : UserId) (tx ty : cr.bc.Sender)
      → Owns hub user tx
      → cr.users.get to hub.connections ≡ some ty
      → nat_beq (cr.bc.channel_of ty) (cr.bc.channel_of tx) ≡ user_beq to user
  same_user hub user to tx ty owns e = elim (Bool-cases (user_beq to user)) [
    | inl same ↦
        let at : to ≡ user = user_beq_sound same in
        let both : some ty ≡ some tx =
          sym e ∙ ap (λ u. cr.users.get u hub.connections) at ∙ owns.listed in
        let one : ty ≡ tx = ground (arith, both) in
        rw one (nat_beq_self (cr.bc.channel_of tx) ∙ sym same)
    | inr apart ↦ elim (Bool-cases (nat_beq (cr.bc.channel_of ty) (cr.bc.channel_of tx))) [
      | inl shared ↦
          absurd (ground (arith, user_beq_iff to user, owns.alone to ty e (nat_beq_sound shared)))
      | inr other ↦ other ∙ sym apart
    ]
  ]

  other_user :
      (hub : Hub cr.bc cr.users) (user to : UserId) (tx : cr.bc.Sender)
      → Owns hub user tx
      → cr.users.get to hub.connections ≡ none
      → user_beq to user ≡ false
  other_user hub user to tx owns e = elim (Bool-cases (user_beq to user)) [
    | inl same ↦
        let both : none ≡ some tx =
          sym e ∙ ap (λ u. cr.users.get u hub.connections) (user_beq_sound same) ∙ owns.listed in
        absurd (cc both)
    | inr apart ↦ apart
  ]

  send-sent :
      (hub : Hub cr.bc cr.users) (user to : UserId) (tx : cr.bc.Sender) (msg : PushMessage V)
      → Owns hub user tx
      → cr.bc.sent (cr.bc.channel_of tx) (send_to_user cr.bc cr.users to msg hub).world
        ≡ cr.bc.sent (cr.bc.channel_of tx) hub.world ++ copies (to ∷ []) user msg
  unfolding send_to_user
  send-sent hub user to tx msg owns = elim (Option-cases (cr.users.get to hub.connections)) [
    | inl e ↦ rw (send_to_user, e, other_user hub user to tx owns e) (simp append_laws)
    | inr (ty, e) ↦
        rw (send_to_user, e, cr.bc.send_sent, same_user hub user to tx ty owns e)
          (put_if (user_beq to user) _ msg)
  ]

  send-Owns :
      (hub : Hub cr.bc cr.users) (user to : UserId) (tx : cr.bc.Sender) (msg : PushMessage V)
      → Owns hub user tx
      → Owns (send_to_user cr.bc cr.users to msg hub) user tx
  unfolding send_to_user
  send-Owns hub user to tx msg owns = elim (Option-cases (cr.users.get to hub.connections)) [
    | inl e ↦ rw (send_to_user, e) (owns)
    | inr (ty, e) ↦ rw (send_to_user, e) (record { listed = owns.listed; alone = owns.alone })
  ]

  send_all-sent :
      (users : List UserId) (hub : Hub cr.bc cr.users) (user : UserId) (tx : cr.bc.Sender)
      (msg : PushMessage V)
      → Owns hub user tx
      → cr.bc.sent (cr.bc.channel_of tx) (send_to_users cr users msg hub).world
        ≡ cr.bc.sent (cr.bc.channel_of tx) hub.world ++ copies users user msg
  unfolding send_to_users
  send_all-sent [] hub user tx msg owns = simp append_laws
  send_all-sent (to ∷ users) hub user tx msg owns =
      let hub' = send_to_user cr.bc cr.users to msg hub in
      send_all-sent users hub' user tx msg (send-Owns hub user to tx msg owns)
      ∙ ap (λ ms. ms ++ copies users user msg) (send-sent hub user to tx msg owns)
      ∙ put_more (user_beq to user) (cr.bc.sent (cr.bc.channel_of tx) hub.world)
          (copies users user msg) msg

  -- The users that a storage update is found to concern.
  abbrev pub found : Result (List UserId) (DatabaseError X) → List UserId
  found (ok users) = users
  found (err e) = []

  -- What an event tells a user.
  abbrev pub told : Clock → Event V → App cr → UserId → List (PushMessage V)
  told clock (Event.storage_update e) app user =
      copies (found (look_up cr clock e.storage e.path app).0) user
        (PushMessage.file (updated_file e.file_id))
  told clock (Event.group_update e) app user =
      copies (e.user ∷ []) user (PushMessage.file UpdatedFiles.unknown)
  told clock (Event.share_create e) app user =
      copies (e.user ∷ []) user (PushMessage.file UpdatedFiles.unknown)
  told clock (Event.activity e) app user = copies (e.user ∷ []) user PushMessage.activity
  told clock (Event.notification e) app user = copies (e.user ∷ []) user PushMessage.notification
  told clock (Event.custom e) app user =
      copies (e.user ∷ []) user (PushMessage.custom e.message e.body)
  told clock _ app user = []

  pub found-sent :
      (msg : PushMessage V) (answer : Result (List UserId) (DatabaseError X)) (app : App cr)
      (user : UserId) (tx : cr.bc.Sender)
      → Owns app.hub user tx
      → cr.bc.sent (cr.bc.channel_of tx) (notify_found cr msg (answer, app)).hub.world
        ≡ cr.bc.sent (cr.bc.channel_of tx) app.hub.world ++ copies (found answer) user msg
  unfolding notify_found
  found-sent msg (ok users) app user tx owns = send_all-sent users app.hub user tx msg owns
  found-sent msg (err e) app user tx owns = sym (append-nil _)

  looked-sent :
      (clock : Clock) (msg : PushMessage V) (storage : ℕ) (path : Str) (app : App cr)
      (user : UserId) (tx : cr.bc.Sender)
      → Owns app.hub user tx
      → cr.bc.sent
          (cr.bc.channel_of tx)
          (notify_found cr msg (look_up cr clock storage path app)).hub.world
        ≡ cr.bc.sent (cr.bc.channel_of tx) app.hub.world
          ++ copies (found (look_up cr clock storage path app).0) user msg
  unfolding look_up
  looked-sent clock msg storage path app user tx owns =
      let (answer, after) = look_up cr clock storage path app in
      found-sent msg answer after user tx (record { listed = owns.listed; alone = owns.alone })

  spec-sent : (pushed : Result cr.Logger X) (app : App cr) → (push_spec cr pushed app).hub ≡ app.hub
  unfolding push_spec
  spec-sent (ok log_handle) app = refl
  spec-sent (err e) app = refl

  metrics-sent :
      (redis : Result (RedisConnection cr.redis) X) (app : App cr)
      → (set_metrics cr redis app).hub ≡ app.hub
  unfolding set_metrics
  metrics-sent (ok redis) app = refl
  metrics-sent (err e) app = refl

  -- A user who has a channel that no other user has is told exactly what an event is about, once the
  -- event is handled, and other events and the events of other users send nothing on that channel.
  pub handle_event-sent :
      (now : ℕ) (clock : Clock) (event : Event V) (app : App cr) (user : UserId) (tx : cr.bc.Sender)
      → Owns app.hub user tx
      → cr.bc.sent (cr.bc.channel_of tx) (handle_event cr now clock event app).hub.world
        ≡ cr.bc.sent (cr.bc.channel_of tx) app.hub.world ++ told clock event app user
  unfolding handle_event notify
  handle_event-sent now clock (Event.storage_update e) app user tx owns =
      looked-sent clock _ e.storage e.path app user tx owns
  handle_event-sent now clock (Event.group_update e) app user tx owns =
      send-sent app.hub user e.user tx _ owns
  handle_event-sent now clock (Event.share_create e) app user tx owns =
      send-sent app.hub user e.user tx _ owns
  handle_event-sent now clock (Event.test_cookie cookie) app user tx owns = sym (append-nil _)
  handle_event-sent now clock (Event.activity e) app user tx owns =
      send-sent app.hub user e.user tx _ owns
  handle_event-sent now clock (Event.notification e) app user tx owns =
      send-sent app.hub user e.user tx _ owns
  handle_event-sent now clock (Event.pre_auth e) app user tx owns = sym (append-nil _)
  handle_event-sent now clock (Event.custom e) app user tx owns =
      send-sent app.hub user e.user tx _ owns
  handle_event-sent now clock (Event.config (Event.Config.log_spec spec)) app user tx owns =
      ap (λ (h : Hub cr.bc cr.users). cr.bc.sent (cr.bc.channel_of tx) h.world)
        (spec-sent (cr.parse_and_push_temp_spec spec app.log_handle) app)
      ∙ sym (append-nil _)
  handle_event-sent now clock (Event.config Event.Config.log_restore) app user tx owns =
      sym (append-nil _)
  handle_event-sent now clock (Event.query Event.Query.metrics) app user tx owns =
      ap (λ (h : Hub cr.bc cr.users). cr.bc.sent (cr.bc.channel_of tx) h.world)
        (metrics-sent (Redis.connect cr.redis app.redis) app)
      ∙ sym (append-nil _)
  handle_event-sent now clock (Event.signal Event.Signal.reset) app user tx owns =
      sym (append-nil _)
