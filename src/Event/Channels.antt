-- ===== src/Event/Channels.antt =====
-- src/event.rs: the channels that are read, and the events that they carry.
use notify_push.Common.{
  ◌≡◌, refl, ◌∙◌, inl, inr, Bool-cases, Bool, true, false, ◌||◌, nat_eq, ◌==◌, if◌then◌else◌,
  Result, ok, err, contains,
}
use notify_push.Common.Text.{Str, codes, str_eq, str_beq_sound}
use notify_push.Event.{Event, Msg, Decoder, MessageDecodeError, decoded, try_from, channels}

-- The channel that carries an event.
abbrev pub channel_of : {V : Type 0} → Event V → Str
channel_of (Event.storage_update e) = codes "notify_storage_update"
channel_of (Event.group_update e) = codes "notify_group_membership_update"
channel_of (Event.share_create e) = codes "notify_user_share_created"
channel_of (Event.test_cookie cookie) = codes "notify_test_cookie"
channel_of (Event.activity e) = codes "notify_activity"
channel_of (Event.notification e) = codes "notify_notification"
channel_of (Event.pre_auth e) = codes "notify_pre_auth"
channel_of (Event.custom e) = codes "notify_custom"
channel_of (Event.config e) = codes "notify_config"
channel_of (Event.query q) = codes "notify_query"
channel_of (Event.signal s) = codes "notify_signal"

module _ {V X : Type 0} where
  -- What a reading of a message from a channel gives: an event of that channel or an error of the
  -- payload if the channel is known, and the error of an unknown channel if it is not.
  pub Answers : Str → Bool → Result (Event V) (MessageDecodeError X) → Type 0
  Answers channel known (ok e) = (known ≡ true) × (channel_of e ≡ channel)
  Answers channel known (err MessageDecodeError.unsupported_event_type) = known ≡ false
  Answers channel known (err (MessageDecodeError.json e)) = known ≡ true

unsupported-Answers :
    (V X : Type 0) (channel : Str)
    → Answers {V = V} {X = X} channel false (err MessageDecodeError.unsupported_event_type)
unfolding Answers
unsupported-Answers V X channel = refl

module _ {V X : Type 0} where
  decoded-Answers :
      {A : Type 0} (event : A → Event V) (payload : Result A X) (name channel : Str)
      → ((a : A) → channel_of (event a) ≡ name)
      → name ≡ channel
      → Answers channel true (decoded event payload)
  unfolding Answers
  decoded-Answers event (ok a) name channel named e = (refl, named a ∙ e)
  decoded-Answers event (err x) name channel named e = refl

  -- One arm of the match.
  arm :
      {A : Type 0} (event : A → Event V) (payload : Result A X) (name channel : Str) (known : Bool)
      (rest : Result (Event V) (MessageDecodeError X))
      → ((a : A) → channel_of (event a) ≡ name)
      → Answers channel known rest
      → Answers channel
          (name == channel || known)
          (if name == channel then decoded event payload else rest)
  arm event payload name channel known rest named others = elim (Bool-cases (name == channel)) [
    | inl e ↦ rw e (decoded-Answers event payload name channel named (str_beq_sound e))
    | inr e ↦ rw e (others)
  ]

  -- A message is read as an event of its channel, or refused for its payload, if its channel is one
  -- that the server subscribes to; any other message is refused as unsupported.
  pub try_from-Answers :
      (from_slice : Decoder V X) (msg : Msg)
      → Answers msg.channel_name (contains channels msg.channel_name) (try_from from_slice msg)
  unfolding try_from
  try_from-Answers from_slice msg =
      (arm Event.storage_update _ _ _ _ _ (λ _. refl)
        (arm Event.group_update _ _ _ _ _ (λ _. refl)
          (arm Event.share_create _ _ _ _ _ (λ _. refl)
            (arm Event.test_cookie _ _ _ _ _ (λ _. refl)
              (arm Event.activity _ _ _ _ _ (λ _. refl)
                (arm Event.notification _ _ _ _ _ (λ _. refl)
                  (arm Event.pre_auth _ _ _ _ _ (λ _. refl)
                    (arm Event.custom _ _ _ _ _ (λ _. refl)
                      (arm Event.config _ _ _ _ _ (λ _. refl)
                        (arm Event.query _ _ _ _ _ (λ _. refl)
                          (arm Event.signal _ _ _ _ _ (λ _. refl)
                            (unsupported-Answers V X _))))))))))))
