-- ===== src/Connection/Socket/Gone.antt =====
-- src/connection.rs, src/message.rs: a client that is gone.
use notify_push.Common.{
  ℕ, ◌+◌, ◌-◌, ◌≤◌, ◌<◌, ◌%◌, ◌≡◌, ◌≢◌, refl, ap, sym, ◌∙◌, subst, List, [], ◌∷◌, ◌++◌, none, some,
  inl, inr, ◌⊎◌, Bool, arith, All, Bool-cases, Option-cases, nat_eq, ◌==◌, usize_mod,
}
use notify_push.Common.Text.{codes, str_eq}
use notify_push.Ws.{text, pong, Json}
use notify_push.Message.{drain, drain_item, default, SendQueue, SendQueueItem}
use notify_push.Connection.Socket.{
  Loop, End, Event, message, elapsed, lagged, reset, client, client_error, client_end,
  ConnectionOptions, step, run, start, on_elapsed, on_client, on_event, on_quiet, feed_all,
  ping_interval,
}

-- Nothing is sent for the user, and the client sends no pong. A ping carries a number other than 0.
abbrev pub IsGone : {V : Type 0} → Event V → Type 0
IsGone (message msg) = ⊥
IsGone (client (pong payload)) = ⊥
IsGone (elapsed count ping_value) = 0 < ping_value
IsGone _ = Unit {0}

module _ {V : Type 0} where
  record IsEmpty (q : SendQueue V) : Type 0 where
    empty_0 : q.item_0.message ≡ none
    empty_1 : q.item_1.message ≡ none
    empty_2 : q.item_2.message ≡ none

  drain_item-none :
      (item : SendQueueItem V) (now count top : ℕ)
      → item.message ≡ none
      → drain_item now count top item ≡ (item, none)
  unfolding drain_item
  drain_item-none item now count top e = ground arith

  drain-IsEmpty :
      (q : SendQueue V) (now count top : ℕ) → IsEmpty q → drain q now count top ≡ (q, [])
  unfolding drain
  drain-IsEmpty q now count top e =
      rw
        (
          drain_item-none q.item_0 now count top e.empty_0,
          drain_item-none q.item_1 now count top e.empty_1,
          drain_item-none q.item_2 now count top e.empty_2,
        )
        refl

module _ {V : Type 0} (json : Json V) (debounce_enable : Bool) (opts : ConnectionOptions)
    (opened : ℕ) where
  abbrev after : Event V → ℕ → Loop V → Loop V
  after e now l = (step json debounce_enable opts opened e now l).0

  -- The connection has ended, or a ping is out, sent by some time, and nothing waits to be sent.
  abbrev Waiting : ℕ → Loop V → Type 0
  Waiting t l = (l.ended ≢ none) ⊎ (IsEmpty l.send_queue × (0 < l.expect_pong) × (l.last_send ≤ t))

  -- A timeout with nothing to send leaves an open connection as it is, or pings, or ends it.
  elapsed-queue :
      (count p now : ℕ) (l : Loop V)
      → l.ended ≡ none
      → IsEmpty l.send_queue
      → (after (elapsed count p) now l).ended ≡ none
      → (after (elapsed count p) now l).send_queue ≡ l.send_queue
  unfolding step on_elapsed on_quiet feed_all
  elapsed-queue count p now l o e =
      let quiet =
        drain-IsEmpty l.send_queue now ((count + 50000) % usize_mod) opts.max_debounce_time e in
      rw (o, step) (ground (arith, quiet))

  elapsed_kept :
      (count p now : ℕ) (l : Loop V)
      → l.ended ≡ none
      → IsEmpty l.send_queue
      → 0 < l.expect_pong
      → (after (elapsed count p) now l).ended ≡ none
      → ((after (elapsed count p) now l).expect_pong ≡ l.expect_pong)
        × ((after (elapsed count p) now l).last_send ≡ l.last_send)
        × (now - l.last_send ≤ ping_interval)
  unfolding step on_elapsed on_quiet feed_all
  elapsed_kept count p now l o e h =
      let quiet =
        drain-IsEmpty l.send_queue now ((count + 50000) % usize_mod) opts.max_debounce_time e in
      rw (o, step) (ground (arith, quiet))

  elapsed_pings :
      (count p now : ℕ) (l : Loop V)
      → l.ended ≡ none
      → IsEmpty l.send_queue
      → ping_interval < now - l.last_send
      → (after (elapsed count p) now l).ended ≡ none
      → ((after (elapsed count p) now l).expect_pong ≡ p)
        × ((after (elapsed count p) now l).last_send ≡ now)
  unfolding step on_elapsed on_quiet feed_all
  elapsed_pings count p now l o e h =
      let quiet =
        drain-IsEmpty l.send_queue now ((count + 50000) % usize_mod) opts.max_debounce_time e in
      rw (o, step) (ground (arith, quiet))

  elapsed-Waiting :
      (count p now t : ℕ) (l : Loop V)
      → l.ended ≡ none
      → IsEmpty l.send_queue
      → 0 < l.expect_pong
      → l.last_send ≤ t
      → Waiting t (after (elapsed count p) now l)
  elapsed-Waiting count p now t l o e h sent =
      elim (Option-cases (after (elapsed count p) now l).ended) [
        | inr (_, gone) ↦ inl (λ still. cc)
        | inl still ↦
            let (ping, last, _) = elapsed_kept count p now l o e h still in
            inr (
              subst IsEmpty (sym (elapsed-queue count p now l o e still)) e,
              omega arith,
              omega arith,
            )
      ]

  -- An event that is neither a message, a timeout nor an answer leaves the variables, or ends.
  other-Waiting :
      (e : Event V) (now t : ℕ) (l : Loop V)
      → IsGone e
      → l.ended ≡ none
      → IsEmpty l.send_queue
      → 0 < l.expect_pong
      → l.last_send ≤ t
      → Waiting t (after e now l)
  unfolding step on_event on_client
  other-Waiting (message msg) now t l g o e h sent = absurd g
  other-Waiting (elapsed count p) now t l g o e h sent = elapsed-Waiting count p now t l o e h sent
  other-Waiting lagged now t l g o e h sent = rw (o, step) (inr (e, h, sent))
  other-Waiting (client (pong payload)) now t l g o e h sent = absurd g
  other-Waiting (client (text content)) now t l g o e h sent =
      elim (Bool-cases (content == codes "listen notify_file_id")) [
        | inl same ↦ rw (o, step, same) (inr (e, h, sent))
        | inr apart ↦ rw (o, step, apart) (inr (e, h, sent))
      ]
  other-Waiting (client _) now t l g o e h sent = rw (o, step) (inr (e, h, sent))
  other-Waiting reset now t l g o e h sent = rw (o, step) (inl (λ still. cc))
  other-Waiting client_error now t l g o e h sent = rw (o, step) (inl (λ still. cc))
  other-Waiting client_end now t l g o e h sent = rw (o, step) (inl (λ still. cc))

  step-Waiting :
      (e : Event V) (now t : ℕ) (l : Loop V) → IsGone e → Waiting t l → Waiting t (after e now l)
  unfolding step
  step-Waiting e now t l g w = elim (Option-cases l.ended) [
    | inr (why, gone) ↦ rw (gone, step) (inl (λ still. cc))
    | inl o ↦ elim w [
      | inl ended ↦ absurd (ended o)
      | inr (q, h, sent) ↦ other-Waiting e now t l g o q h sent
    ]
  ]

  run-Waiting :
      (es : List (ℕ × Event V)) (t : ℕ) (l : Loop V)
      → All (λ e. IsGone e.1) es
      → Waiting t l
      → Waiting t (run json debounce_enable opts opened es l).0
  unfolding run
  run-Waiting [] t l g w = w
  run-Waiting ((now, e) ∷ es) t l g w =
      run-Waiting es t (after e now l) g.1 (step-Waiting e now t l g.0 w)

  run-last :
      (es : List (ℕ × Event V)) (e : Event V) (now : ℕ) (l : Loop V)
      → (run json debounce_enable opts opened (es ++ (now, e) ∷ []) l).0
        ≡ after e now (run json debounce_enable opts opened es l).0
  unfolding run
  run-last [] e now l = refl
  run-last ((t, x) ∷ es) e now l = run-last es e now (after x t l)

  step_ended :
      (e : Event V) (now : ℕ) (l : Loop V) {why : End} → l.ended ≡ some why → after e now l ≡ l
  unfolding step
  step_ended e now l gone = ground arith

  Waiting-ends :
      (count p now t : ℕ) (l : Loop V)
      → Waiting t l
      → t + ping_interval < now
      → (after (elapsed count p) now l).ended ≢ none
  unfolding step
  Waiting-ends count p now t l w late still = elim (Option-cases l.ended) [
    | inr (why, gone) ↦ cc (step_ended (elapsed count p) now l gone)
    | inl o ↦ elim w [
      | inl ended ↦ ended o
      | inr (q, h, sent) ↦ omega (arith, (elapsed_kept count p now l o q h still).2)
    ]
  ]

  start-Waiting :
      (count p now : ℕ)
      → 0 < p
      → ping_interval ≤ opened
      → opened < now
      → Waiting now (after (elapsed count p) now (start opts opened))
  unfolding start default
  start-Waiting count p now h since late =
      let l = start opts opened in
      let q : IsEmpty l.send_queue = record { empty_0 = refl; empty_1 = refl; empty_2 = refl } in
      elim (Option-cases (after (elapsed count p) now l).ended) [
        | inr (_, gone) ↦ inl (λ still. cc)
        | inl still ↦
            let (ping, last) = elapsed_pings count p now l refl q (omega arith) still in
            inr (
              subst IsEmpty (sym (elapsed-queue count p now l refl q still)) q,
              omega arith,
              omega arith,
            )
      ]

  -- A client that is gone is noticed: from a new connection that is opened at least the ping interval
  -- after the first moment, if nothing comes for the user and no pong from the client, the connection
  -- has ended after two timeouts that are more than the ping interval apart, whatever else happens
  -- between them.
  pub run-ends :
      (es : List (ℕ × Event V)) (count p now count' p' now' : ℕ)
      → All (λ e. IsGone e.1) es
      → 0 < p
      → ping_interval ≤ opened
      → opened < now
      → now + ping_interval < now'
      → (run json debounce_enable opts opened
          ((now, elapsed count p) ∷ es ++ (now', elapsed count' p') ∷ [])
          (start opts opened)).0.ended
        ≢ none
  unfolding run
  run-ends es count p now count' p' now' gone h since first late still =
      let l = after (elapsed count p) now (start opts opened) in
      let l' = (run json debounce_enable opts opened es l).0 in
      Waiting-ends count' p' now' now l'
        (run-Waiting es now l gone (start-Waiting count p now h since first)) late
        (ap (λ (x : Loop V). x.ended) (sym (run-last es (elapsed count' p') now' l)) ∙ still)
