-- ===== src/Connection/Socket/Frames.antt =====
-- src/connection.rs and src/message.rs: what the client is sent.
use mathlib.Core.List.{map-append, append-nil}
use notify_push.Common.{
  ℕ, ◌+◌, ◌-◌, ◌%◌, ◌≡◌, ◌≢◌, refl, sym, ap, subst, ◌∙◌, List, [], ◌∷◌, ◌++◌, map, none, inl, inr,
  Bool, true, false, not, ◌&&◌, arith, All, Bool-cases, Option-cases, ltb, nat_eq, ◌==◌,
  if◌then◌else◌, usize_mod,
}
use notify_push.Common.Text.{codes, str_eq}
use notify_push.Ws.{WsMessage, text, ping, pong, Json}
use notify_push.Message.{push, PushMessage, file, activity, notification, custom, into_message}
use notify_push.Message.History.{Op, pushed, drained, act, play}
use notify_push.Connection.Socket.Keepalive.{run_ended}
use notify_push.Connection.Socket.{
  Loop, Event, message, elapsed, lagged, reset, client, client_error, client_end, ConnectionOptions,
  Action, send, feed, flush, close, add_message, step, run, on_message, on_elapsed, on_client,
  on_quiet, to_le_bytes, feed_all,
}

-- Whether something is done that makes what was fed before go out.
abbrev pub is_flushed : List Action → Bool
is_flushed [] = false
is_flushed (send m ∷ done) = true
is_flushed (flush ∷ done) = true
is_flushed (close ∷ done) = true
is_flushed (_ ∷ done) = is_flushed done

-- The text messages that go to the client, in order: those that are sent, and those that are fed and
-- flushed later.
abbrev pub texts : List Action → List WsMessage
texts [] = []
texts (send (text s) ∷ done) = text s ∷ texts done
texts (feed (text s) ∷ done) =
    let rest = texts done in if is_flushed done then text s ∷ rest else rest
texts (_ ∷ done) = texts done

-- Whether everything that is fed is flushed later.
abbrev is_all_out : List Action → Bool
is_all_out [] = true
is_all_out (feed m ∷ done) = let rest = is_all_out done in if is_flushed done then rest else false
is_all_out (_ ∷ done) = is_all_out done

-- How often the message counter is raised.
abbrev pub counted : List Action → List (Unit {0})
counted [] = []
counted (add_message ∷ done) = tt ∷ counted done
counted (_ ∷ done) = counted done

is_flushed-append : (xs ys : List Action) → is_flushed xs ≡ true → is_flushed (xs ++ ys) ≡ true
is_flushed-append [] ys h = absurd (cc)
is_flushed-append (send m ∷ xs) ys h = refl
is_flushed-append (flush ∷ xs) ys h = refl
is_flushed-append (close ∷ xs) ys h = refl
is_flushed-append (feed m ∷ xs) ys h = is_flushed-append xs ys h
is_flushed-append (add_message ∷ xs) ys h = is_flushed-append xs ys h

fed_out :
    (m : WsMessage) (xs : List Action)
    → is_all_out (feed m ∷ xs) ≡ true
    → (is_flushed xs ≡ true) × (is_all_out xs ≡ true)
fed_out m xs h = ground arith

texts-append :
    (xs ys : List Action) → is_all_out xs ≡ true → texts (xs ++ ys) ≡ texts xs ++ texts ys
texts-append [] ys h = refl
texts-append (send (text s) ∷ xs) ys h = ap (◌∷◌ (text s)) (texts-append xs ys h)
texts-append (feed (text s) ∷ xs) ys h =
    let (flushed, out) = fed_out (text s) xs h in
    rw (is_flushed-append xs ys flushed, flushed) (ap (◌∷◌ (text s)) (texts-append xs ys out))
texts-append (feed m ∷ xs) ys h = texts-append xs ys (fed_out m xs h).1
texts-append (send m ∷ xs) ys h = texts-append xs ys h
texts-append (flush ∷ xs) ys h = texts-append xs ys h
texts-append (close ∷ xs) ys h = texts-append xs ys h
texts-append (add_message ∷ xs) ys h = texts-append xs ys h

module _ {V : Type 0} where
  -- The pushes and drains of the queue that the events make.
  abbrev pub ops_of : List (ℕ × Event V) → List (Op V)
  ops_of [] = []
  ops_of ((now, message msg) ∷ es) = pushed msg now ∷ ops_of es
  ops_of ((now, elapsed count ping_value) ∷ es) =
      drained ((count + 50000) % usize_mod) now ∷ ops_of es
  ops_of ((now, _) ∷ es) = ops_of es

  -- Whether the client asks for the ids of the files.
  abbrev pub is_listen : ℕ × Event V → Bool
  is_listen (now, client (text content)) = content == codes "listen notify_file_id"
  is_listen (now, _) = false

module _ {V : Type 0} (json : Json V) (opts : ConnectionOptions) (start_time : ℕ) where
  -- The frame of a message that the queue gives out.
  abbrev pub frame : Bool → ℕ × PushMessage V → WsMessage
  frame flag (now, m) = into_message json flag m

  texts-into_message :
      (flag : Bool) (m : PushMessage V) (done : List Action)
      → (texts (send (into_message json flag m) ∷ done) ≡ into_message json flag m ∷ texts done)
        × (is_flushed done ≡ true
            → texts (feed (into_message json flag m) ∷ done)
              ≡ into_message json flag m ∷ texts done)
  unfolding into_message
  texts-into_message flag (file f) done = (refl, λ h. rw h refl)
  texts-into_message flag activity done = (refl, λ h. rw h refl)
  texts-into_message flag notification done = (refl, λ h. rw h refl)
  texts-into_message flag (custom ty body) done = (refl, λ h. rw h refl)

  feed_all-is_flushed :
      (flag : Bool) (ms : List (PushMessage V)) (done : List Action)
      → is_flushed done ≡ true
      → is_flushed (feed_all json true opts start_time flag ms ++ done) ≡ true
  unfolding feed_all
  feed_all-is_flushed flag [] done h = h
  feed_all-is_flushed flag (m ∷ ms) done h = feed_all-is_flushed flag ms done h

  feed_all-is_all_out :
      (flag : Bool) (ms : List (PushMessage V)) (done : List Action)
      → is_flushed done ≡ true
      → is_all_out done ≡ true
      → is_all_out (feed_all json true opts start_time flag ms ++ done) ≡ true
  unfolding feed_all
  feed_all-is_all_out flag [] done h out = out
  feed_all-is_all_out flag (m ∷ ms) done h out =
      rw (feed_all-is_flushed flag ms done h) (feed_all-is_all_out flag ms done h out)

  texts-feed_all :
      (flag : Bool) (now : ℕ) (ms : List (PushMessage V)) (done : List Action)
      → is_flushed done ≡ true
      → texts (feed_all json true opts start_time flag ms ++ done)
        ≡ map (frame flag) (map (λ m. (now, m)) ms) ++ texts done
  unfolding feed_all
  texts-feed_all flag now [] done h = refl
  texts-feed_all flag now (m ∷ ms) done h =
      (texts-into_message flag m (feed_all json true opts start_time flag ms ++ done)).1
        (feed_all-is_flushed flag ms done h)
      ∙ ap (◌∷◌ (into_message json flag m)) (texts-feed_all flag now ms done h)

  step-message :
      (msg : PushMessage V) (now top : ℕ) (l : Loop V)
      → l.ended ≡ none
      → let (l', done) = step json true opts start_time (message msg) now l in
        let (q, outs) = act top l.send_queue (pushed msg now) in
        (l'.send_queue ≡ q)
        × (texts done ≡ map (frame l.listen_file_id) outs)
        × (l'.listen_file_id ≡ l.listen_file_id)
        × (is_all_out done ≡ true)
        × (l'.ended ≡ none)
  unfolding step on_message act
  step-message msg now top l o = elim (Option-cases (push true l.send_queue msg now).1) [
    | inl e ↦ rw (o, step, e, on_message) (refl, refl, refl, refl, o)
    | inr (m, e) ↦
        rw (o, step, e, on_message)
          (refl, (texts-into_message l.listen_file_id m []).0, refl, refl, o)
  ]

  on_quiet-texts :
      (ping_value now : ℕ) (l : Loop V) (flag : Bool) (ms : List (PushMessage V))
      → let (l', done) =
          on_quiet json true opts start_time ping_value now l
            (feed_all json true opts start_time flag ms) in
        l'.ended ≡ none
        → (l'.send_queue ≡ l.send_queue)
          × (texts done ≡ map (frame flag) (map (λ m. (now, m)) ms))
          × (l'.listen_file_id ≡ l.listen_file_id)
          × (is_all_out done ≡ true)
  unfolding on_quiet
  on_quiet-texts ping_value now l flag ms = ground (
    arith,
    texts-feed_all flag now ms (flush ∷ []) refl,
    texts-feed_all flag now ms (feed (ping (to_le_bytes ping_value)) ∷ flush ∷ []) refl,
    feed_all-is_all_out flag ms (flush ∷ []) refl refl,
    feed_all-is_all_out flag ms (feed (ping (to_le_bytes ping_value)) ∷ flush ∷ []) refl refl,
    append-nil (map (frame flag) (map (λ m. (now, m)) ms)),
  )

  step-elapsed :
      (count ping_value now : ℕ) (l : Loop V)
      → l.ended ≡ none
      → let (l', done) = step json true opts start_time (elapsed count ping_value) now l in
        let (q, outs) =
          act opts.max_debounce_time l.send_queue (drained ((count + 50000) % usize_mod) now) in
        l'.ended ≡ none
        → (l'.send_queue ≡ q)
          × (texts done ≡ map (frame l.listen_file_id) outs)
          × (l'.listen_file_id ≡ l.listen_file_id)
          × (is_all_out done ≡ true)
  unfolding step act
  step-elapsed count ping_value now l o =
      elim (Bool-cases
        (not (opts.max_connection_time == 0) && ltb opts.max_connection_time (now - start_time))) [
          | inl late ↦ rw (o, step, late, on_elapsed) (λ h. cc)
          | inr early ↦
              rw (o, step, early, on_elapsed) (on_quiet-texts ping_value now _ l.listen_file_id _)
        ]

  step-client :
      (msg : WsMessage) (now : ℕ) (l : Loop V)
      → l.ended ≡ none
      → (is_listen {V = V} (now, client msg) ≡ true → l.listen_file_id ≡ true)
      → let (l', done) = step json true opts start_time (client msg) now l in
        (l'.send_queue ≡ l.send_queue)
        × (texts done ≡ [])
        × (l'.listen_file_id ≡ l.listen_file_id)
        × (is_all_out done ≡ true)
  unfolding step on_client
  step-client (text content) now l o s = rw (o, step) (ground arith)
  step-client (pong payload) now l o s = rw (o, step) (ground arith)
  step-client _ now l o s = rw (o, step) (refl, refl, refl, refl)

  -- What one step adds to the history of the queue, and to what was sent.
  abbrev Adds : List (ℕ × Event V) → Loop V → Loop V × List Action → Type 0
  Adds es l (l', done) =
      let r = play opts.max_debounce_time l.send_queue (ops_of es) in
      (l'.send_queue ≡ r.0) × (texts done ≡ map (frame l.listen_file_id) r.1)

  play_after :
      (op : Op V) (es : List (ℕ × Event V)) (l l' l'' : Loop V) (done rest : List Action)
      → let r = act opts.max_debounce_time l.send_queue op in
        let r' = play opts.max_debounce_time l.send_queue (op ∷ ops_of es) in
        l'.send_queue ≡ r.0
        → texts done ≡ map (frame l.listen_file_id) r.1
        → l'.listen_file_id ≡ l.listen_file_id
        → is_all_out done ≡ true
        → Adds es l' (l'', rest)
        → (l''.send_queue ≡ r'.0) × (texts (done ++ rest) ≡ map (frame l.listen_file_id) r'.1)
  unfolding play
  play_after op es l l' l'' done rest q d f out a =
      let r = act opts.max_debounce_time l.send_queue op in
      let r' = play opts.max_debounce_time r.0 (ops_of es) in
      (cc, cc (texts-append done rest out, map-append (frame l.listen_file_id) r.1 r'.1))

  skip_after :
      (es : List (ℕ × Event V)) (l l' l'' : Loop V) (done rest : List Action)
      → l'.send_queue ≡ l.send_queue
      → texts done ≡ []
      → l'.listen_file_id ≡ l.listen_file_id
      → is_all_out done ≡ true
      → Adds es l' (l'', rest)
      → Adds es l (l'', done ++ rest)
  skip_after es l l' l'' done rest q d f out a = (cc, cc (texts-append done rest out))

  step-lagged :
      (now : ℕ) (l : Loop V)
      → l.ended ≡ none
      → step json true opts start_time lagged now l ≡ (l, [])
  unfolding step
  step-lagged now l o = ground arith

  -- These events end the connection.
  abbrev is_last : Event V → Bool
  is_last reset = true
  is_last client_error = true
  is_last client_end = true
  is_last _ = false

  step-is_last :
      (now : ℕ) (e : Event V) (l : Loop V)
      → is_last e ≡ true
      → (step json true opts start_time e now l).0.ended ≢ none
  unfolding step
  step-is_last now e l h = ground arith

  still_open :
      (es : List (ℕ × Event V)) (l : Loop V)
      → (run json true opts start_time es l).0.ended ≡ none
      → l.ended ≡ none
  still_open es l going = elim (Option-cases l.ended) [
    | inl o ↦ o
    | inr (why, gone) ↦ absurd (cc (run_ended json true opts start_time es l gone))
  ]

  -- The client asks for ids only if it had done so before.
  abbrev pub IsSettled : Bool → List (ℕ × Event V) → Type 0
  IsSettled flag = All (λ e. is_listen e ≡ true → flag ≡ true)

  abbrev rest : List (ℕ × Event V) → Loop V → Loop V × List Action
  rest es l = run json true opts start_time es l

  -- From an open connection, let events leave it open, and let the client ask for ids in them only
  -- if it had done so before. Then the queue has gone through the pushes and drains that the
  -- events stand for, and the client was sent exactly the messages that these gave out, in order,
  -- those that were only fed not counted unless they were flushed later.
  pub run-play :
      (es : List (ℕ × Event V)) (l : Loop V)
      → l.ended ≡ none
      → IsSettled l.listen_file_id es
      → let (l', done) = run json true opts start_time es l in
        l'.ended ≡ none
        → (l'.send_queue ≡ (play opts.max_debounce_time l.send_queue (ops_of es)).0)
          × (texts done
              ≡ map
                  (frame l.listen_file_id)
                  (play opts.max_debounce_time l.send_queue (ops_of es)).1)
  unfolding run
  run-play [] l o s going = unfold play in (refl, refl)
  run-play ((now, message msg) ∷ es) l o s going =
      let (l', done) = step json true opts start_time (message msg) now l in
      let (q, d, f, out, o') = step-message msg now opts.max_debounce_time l o in
      play_after (pushed msg now) es l l' (rest es l').0 done (rest es l').1 q d f out
        (run-play es l' o' (subst (λ b. IsSettled b es) (sym f) s.1) going)
  run-play ((now, elapsed count p) ∷ es) l o s going =
      let (l', done) = step json true opts start_time (elapsed count p) now l in
      let o' = still_open es l' going in
      let (q, d, f, out) = step-elapsed count p now l o o' in
      play_after (drained ((count + 50000) % usize_mod) now) es l l' (rest es l').0 done
        (rest es l').1 q d f out (run-play es l' o' (subst (λ b. IsSettled b es) (sym f) s.1) going)
  run-play ((now, client msg) ∷ es) l o s going =
      let (l', done) = step json true opts start_time (client msg) now l in
      let o' = still_open es l' going in
      let (q, d, f, out) = step-client msg now l o s.0 in
      skip_after es l l' (rest es l').0 done (rest es l').1 q d f out
        (run-play es l' o' (subst (λ b. IsSettled b es) (sym f) s.1) going)
  run-play ((now, lagged) ∷ es) l o s going =
      let same = step-lagged now l o in rw same (run-play es l o s.1 (rw same at going))
  run-play ((now, reset) ∷ es) l o s going =
      absurd (step-is_last now reset l refl (still_open es _ going))
  run-play ((now, client_error) ∷ es) l o s going =
      absurd (step-is_last now client_error l refl (still_open es _ going))
  run-play ((now, client_end) ∷ es) l o s going =
      absurd (step-is_last now client_end l refl (still_open es _ going))
