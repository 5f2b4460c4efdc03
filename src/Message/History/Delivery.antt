-- ===== src/Message/History/Delivery.antt =====
-- src/message.rs: whatever was pushed is sent, once the queue has been left alone for long enough.
use Prim.Native.Nat.{max}
use notify_push.Common.{
  ℕ, ◌+◌, ◌≤◌, ◌<◌, List, [], ◌∷◌, ◌++◌, true, false, ◌≡◌, refl, arith, none, any-append, from_secs,
  inl, inr, All, Option-cases,
}
use notify_push.Message.{
  PushMessage, SendQueueItem, SendQueue, debounce_time, push, drain_item, drain, default,
}
use notify_push.Message.Queue.{Topic, pending, default-IsPlaced}
use notify_push.Message.History.{
  Op, pushed, drained, act, play, is_told, is_asked, op_tells, tells-play,
}

default_empty :
    (V : Type 0) (start : ℕ) (topic : Topic) → pending (default {V = V} start) topic ≡ false
unfolding default
default_empty V start topic = refl

module _ {V : Type 0} where
  abbrev pub op_time : Op V → ℕ
  op_time (pushed m time) = time
  op_time (drained count now) = now

  abbrev ItemBefore : ℕ → SendQueueItem V → Type 0
  ItemBefore t item = (item.received ≤ t) × (item.sent ≤ t)

  -- Nothing has happened after the time.
  pub record IsBefore (t : ℕ) (q : SendQueue V) : Type 0 where
    before_0 : ItemBefore t q.item_0
    before_1 : ItemBefore t q.item_1
    before_2 : ItemBefore t q.item_2

  default-IsBefore : (t now : ℕ) → now ≤ t → IsBefore t (default {V = V} now)
  unfolding default
  default-IsBefore t now h = omega arith

  push-IsBefore :
      (t : ℕ) (q : SendQueue V) (m : PushMessage V) (time : ℕ)
      → time ≤ t
      → IsBefore t q
      → IsBefore t (push true q m time).0
  unfolding push
  push-IsBefore t q m time h b = ground arith

  drain_item-Before :
      (t : ℕ) (item : SendQueueItem V) (now count top : ℕ)
      → now ≤ t
      → ItemBefore t item
      → ItemBefore t (drain_item now count top item).0
  unfolding drain_item
  drain_item-Before t item now count top h b = ground arith

  act-IsBefore :
      (t top : ℕ) (q : SendQueue V) (op : Op V)
      → op_time op ≤ t
      → IsBefore t q
      → IsBefore t (act top q op).0
  unfolding act drain
  act-IsBefore t top q (pushed m time) h b = push-IsBefore t q m time h b
  act-IsBefore t top q (drained count now) h b = record {
    before_0 = drain_item-Before t q.item_0 now count top h b.before_0;
    before_1 = drain_item-Before t q.item_1 now count top h b.before_1;
    before_2 = drain_item-Before t q.item_2 now count top h b.before_2;
  }

  play-IsBefore :
      (t top : ℕ) (q : SendQueue V) (ops : List (Op V))
      → All (λ op. op_time op ≤ t) ops
      → IsBefore t q
      → IsBefore t (play top q ops).0
  unfolding play
  play-IsBefore t top q [] h b = b
  play-IsBefore t top q (op ∷ ops) h b =
      play-IsBefore t top (act top q op).0 ops h.1 (act-IsBefore t top q op h.0 b)

  -- No message of the queue waits for longer than the configured time, or a second.
  debounce_time-le :
      (m : PushMessage V) (count top : ℕ) → debounce_time m count top ≤ from_secs (max 1 top)
  unfolding debounce_time
  debounce_time-le m count top = ground arith

  drain_item_late :
      (t : ℕ) (item : SendQueueItem V) (now count top : ℕ)
      → ItemBefore t item
      → t + from_secs (max 1 top) < now
      → (drain_item now count top item).0.message ≡ none
  unfolding drain_item
  drain_item_late t item now count top b h = elim (Option-cases item.message) [
    | inl e ↦ rw (e, drain_item) e
    | inr (m, e) ↦ rw (e, drain_item) (ground (arith, debounce_time-le m count top))
  ]

  -- A drain that comes late enough leaves nothing.
  drain_late :
      (t : ℕ) (q : SendQueue V) (now count top : ℕ) (topic : Topic)
      → IsBefore t q
      → t + from_secs (max 1 top) < now
      → pending (drain q now count top).0 topic ≡ false
  unfolding drain
  drain_late t q now count top topic b h =
      rw (drain_item_late t q.item_0 now count top b.before_0 h) (
        rw (drain_item_late t q.item_1 now count top b.before_1 h)
          (rw (drain_item_late t q.item_2 now count top b.before_2 h)))

  play-append :
      (top : ℕ) (q : SendQueue V) (ops : List (Op V)) (op : Op V)
      → (play top q (ops ++ op ∷ [])).0 ≡ (act top (play top q ops).0 op).0
  unfolding play
  play-append top q [] op = refl
  play-append top q (o ∷ ops) op = play-append top (act top q o).0 ops op

  play_last :
      (top t : ℕ) (q : SendQueue V) (ops : List (Op V)) (count now : ℕ) (topic : Topic)
      → IsBefore t q
      → All (λ op. op_time op ≤ t) ops
      → t + from_secs (max 1 top) < now
      → pending (play top q (ops ++ drained count now ∷ [])).0 topic ≡ false
  unfolding act
  play_last top t q ops count now topic b all late =
      rw (play-append top q ops (drained count now))
        (drain_late t (play top q ops).0 now count top topic (play-IsBefore t top q ops all b) late)

  -- From a new queue, let every push and drain of a history happen by the time `t`. A drain that
  -- comes later than the configured debounce time, and at least a second, after `t` leaves the
  -- client told of exactly the topics that the pushes tell, whatever happened before.
  pub play-delivers :
      (top start t count now : ℕ) (ops : List (Op V)) (topic : Topic)
      → start ≤ t
      → All (λ op. op_time op ≤ t) ops
      → t + from_secs (max 1 top) < now
      → is_told (play top (default start) (ops ++ drained count now ∷ [])).1 topic
        ≡ is_asked ops topic
  play-delivers top start t count now ops topic h all late = ground (
    arith,
    tells-play top (default start) (ops ++ drained count now ∷ []) topic (default-IsPlaced start),
    play_last top t (default start) ops count now topic (default-IsBefore t start h) all late,
    default_empty V start topic,
    any-append (λ op. op_tells op topic) ops (drained count now ∷ []),
  )
