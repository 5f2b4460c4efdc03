-- ===== src/Connection/Socket/Keepalive.antt =====
-- src/connection.rs: pings, pongs and the time limit.
use notify_push.Common.{
  ℕ, ◌+◌, ◌-◌, ◌≤◌, ◌<◌, ◌%◌, ◌≡◌, ◌≢◌, refl, ap, List, [], ◌∷◌, none, some, inl, inr, Bool, true,
  false, not, ◌&&◌, ◌↔◌, arith, All, Bool-cases, Option-cases, ltb, nat_eq, ◌==◌, any, usize_mod,
}
use notify_push.Common.Text.{str_eq, str_beq, str_beq_iff}
use notify_push.Ws.{WsMessage, text, pong, Json}
use notify_push.Message.{drain, PushMessage}
use notify_push.Connection.Socket.{
  Loop, Event, message, elapsed, client, End, time_exceeded, ConnectionOptions, step, run,
  on_message, on_elapsed, on_client, on_event, to_le_bytes, ping_interval,
}
use notify_push.Connection.Socket.Bytes.{to_le_bytes-injective}

-- The client sends no pong, and a ping carries a number other than 0.
abbrev pub IsSilent : {V : Type 0} → ℕ → Event V → Type 0
IsSilent now (client (pong payload)) = ⊥
IsSilent now (elapsed count ping_value) = 0 < ping_value
IsSilent now _ = Unit

module _ {V : Type 0} (json : Json V) (debounce_enable : Bool) (opts : ConnectionOptions)
    (start_time : ℕ) where
  on_message-expect_pong :
      (msg : PushMessage V) (now : ℕ) (l : Loop V)
      → (on_message json debounce_enable opts start_time msg now l).0.expect_pong ≡ l.expect_pong
  unfolding on_message
  on_message-expect_pong msg now l = ground arith

  on_elapsed-expect_pong :
      (count ping_value now : ℕ) (l : Loop V)
      → 0 < ping_value
      → 0 < l.expect_pong
      → 0 < (on_elapsed json debounce_enable opts start_time count ping_value now l).0.expect_pong
  unfolding on_elapsed
  on_elapsed-expect_pong count ping_value now l p h = ground arith

  on_client-expect_pong :
      (msg : WsMessage) (now : ℕ) (l : Loop V)
      → IsSilent {V = V} now (client msg)
      → (on_client json debounce_enable opts start_time msg l).expect_pong ≡ l.expect_pong
  unfolding on_client
  on_client-expect_pong (pong payload) now l h = absurd h
  on_client-expect_pong (text content) now l h = ground arith
  on_client-expect_pong _ now l h = refl

  on_event-expect_pong :
      (e : Event V) (now : ℕ) (l : Loop V)
      → IsSilent now e
      → 0 < l.expect_pong
      → 0 < (on_event json debounce_enable opts start_time e now l).0.expect_pong
  unfolding on_event
  on_event-expect_pong (message msg) now l s h = rw (on_message-expect_pong msg now l) h
  on_event-expect_pong (elapsed count p) now l s h = on_elapsed-expect_pong count p now l s h
  on_event-expect_pong (client msg) now l s h = rw (on_client-expect_pong msg now l s) h
  on_event-expect_pong _ now l s h = h

  step-expect_pong :
      (e : Event V) (now : ℕ) (l : Loop V)
      → IsSilent now e
      → 0 < l.expect_pong
      → 0 < (step json debounce_enable opts start_time e now l).0.expect_pong
  unfolding step
  step-expect_pong e now l s h = elim (Option-cases l.ended) [
    | inl o ↦ rw (o, step) (on_event-expect_pong e now l s h)
    | inr (_, o) ↦ rw (o, step) h
  ]

  run-expect_pong :
      (es : List (ℕ × Event V)) (l : Loop V)
      → All (λ e. IsSilent e.0 e.1) es
      → 0 < l.expect_pong
      → 0 < (run json debounce_enable opts start_time es l).0.expect_pong
  unfolding run
  run-expect_pong [] l s h = h
  run-expect_pong ((now, e) ∷ es) l s h =
      run-expect_pong es (step json debounce_enable opts start_time e now l).0 s.1
        (step-expect_pong e now l s.0 h)

  -- While a ping is out, let the client send no pong, whatever else happens. Then the next time
  -- that nothing is to be sent and nothing was sent for longer than the ping interval, the
  -- connection ends, if it has not ended before.
  pub silent-ends :
      (es : List (ℕ × Event V)) (l : Loop V) (count ping_value now : ℕ)
      → All (λ e. IsSilent e.0 e.1) es
      → 0 < l.expect_pong
      → let l' = (run json debounce_enable opts start_time es l).0 in
        (drain l'.send_queue now ((count + 50000) % usize_mod) opts.max_debounce_time).1 ≡ []
        → ping_interval < now - l'.last_send
        → (step json debounce_enable opts start_time (elapsed count ping_value) now l').0.ended
          ≢ none
  unfolding step on_elapsed
  silent-ends es l count ping_value now s h idle late =
      let l' = (run json debounce_enable opts start_time es l).0 in
      elim (Option-cases l'.ended) [
        | inr (_, o) ↦ rw (o, step) (λ e. cc)
        | inl o ↦ rw (o, step) (ground (arith, run-expect_pong es l s h))
      ]

  -- After a timeout that leaves the connection open, the client has been sent something within the
  -- ping interval.
  pub elapsed-last_send :
      (l : Loop V) (count ping_value now : ℕ)
      → l.ended ≡ none
      → let l' = (step json debounce_enable opts start_time (elapsed count ping_value) now l).0 in
        l'.ended ≡ none → now - l'.last_send ≤ ping_interval
  unfolding step on_elapsed
  elapsed-last_send l count ping_value now o = rw (o, step) (ground arith)

  -- The answer to a ping is taken exactly if it carries the number of the ping that is out; then
  -- none is out.
  pub on_client-pong_iff :
      (n : ℕ) (l : Loop V)
      → l.ended ≡ none
      → n < usize_mod
      → l.expect_pong < usize_mod
      → let l' = on_client json debounce_enable opts start_time (pong (to_le_bytes n)) l in
        ((l'.ended ≡ none) ↔ (n ≡ l.expect_pong)) × (l'.expect_pong ≡ 0)
  unfolding on_client
  on_client-pong_iff n l o hn hl =
      elim (Bool-cases (str_beq (to_le_bytes n) (to_le_bytes l.expect_pong))) [
        | inl same ↦ (
          (
            λ _.
                to_le_bytes-injective n l.expect_pong hn hl
                  ((str_beq_iff (to_le_bytes n) (to_le_bytes l.expect_pong)).0 same),
            λ _. ground arith,
          ),
          ground arith,
        )
        | inr other ↦ (
          (
            λ e. ground arith,
            λ e.
                ground (
                  arith,
                  str_beq_iff (to_le_bytes n) (to_le_bytes l.expect_pong),
                  ap to_le_bytes e,
                ),
          ),
          ground arith,
        )
      ]

  -- A timeout that finds the connection older than its limit.
  abbrev pub is_late : ℕ × Event V → Bool
  is_late (now, elapsed count ping_value) =
      not (opts.max_connection_time == 0) && ltb opts.max_connection_time (now - start_time)
  is_late (now, _) = false

  pub run_ended :
      (es : List (ℕ × Event V)) (l : Loop V) {why : End}
      → l.ended ≡ some why
      → (run json debounce_enable opts start_time es l).0.ended ≡ some why
  unfolding run step
  run_ended [] l o = o
  run_ended ((now, e) ∷ es) l o = run_ended es _ (rw (o, step) o)

  step-is_late :
      (now : ℕ) (e : Event V) (l : Loop V)
      → l.ended ≡ none
      → let l' = (step json debounce_enable opts start_time e now l).0 in
        (is_late (now, e) ≡ true) ↔ (l'.ended ≡ some time_exceeded)
  unfolding step on_message on_elapsed on_client
  step-is_late now (message msg) l o = rw (o, step) (ground arith)
  step-is_late now (elapsed count p) l o = rw (o, step) (ground arith)
  step-is_late now (client msg) l o = rw (o, step) (ground arith)
  step-is_late now _ l o = rw (o, step) (ground arith)

  -- On an open connection, let the events run until it ends or they are over. It has ended if one
  -- of them is a timeout that finds the connection older than a limit other than 0; and only then
  -- can it have ended for its time.
  pub run-is_late :
      (es : List (ℕ × Event V)) (l : Loop V)
      → l.ended ≡ none
      → let l' = (run json debounce_enable opts start_time es l).0 in
        (any is_late es ≡ true → l'.ended ≢ none)
        × (l'.ended ≡ some time_exceeded → any is_late es ≡ true)
  unfolding run
  run-is_late [] l o = (λ h. cc, λ h. cc)
  run-is_late ((now, e) ∷ es) l o =
      let l' = (step json debounce_enable opts start_time e now l).0 in
      elim (Option-cases l'.ended) [
        | inl going ↦ ground (arith, step-is_late now e l o, run-is_late es l' going)
        | inr (why, gone) ↦ ground (arith, step-is_late now e l o, run_ended es l' gone)
      ]
