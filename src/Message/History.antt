-- ===== src/Message/History.antt =====
-- src/message.rs: a queue over any history of pushes and drains, as the send loop of
-- src/connection.rs makes them.
pub mod Delivery
pub mod Spacing
use notify_push.Common.{
  ℕ, ◌+◌, ◌-◌, ◌*◌, ◌≤◌, ◌<◌, List, [], ◌∷◌, ◌++◌, map, Bool, true, false, ◌||◌, ◌≡◌, refl, sym,
  ◌∙◌, arith, Option, none, some, any, any-append, length, from_secs, from_millis, inl, inr, ◌⊎◌,
  All, Option-cases,
}
use notify_push.Message.{
  PushMessage, file, activity, notification, custom, SendQueueItem, SendQueue, Index, first, second,
  third, merge, debounce_time, item_mut, push, drain_item, drain, default, get_item,
}
use notify_push.Message.Queue.{
  Topic, tells, tells_queued, pending, IsPlaced, tells-push, tells-drain, push-IsPlaced,
  drain-IsPlaced,
}

-- A push of a message, or a drain with a number of connections, each at a time.
pub data Op (V : Type 0) : Type 0 where
  pushed : PushMessage V → ℕ → Op V
  drained : ℕ → ℕ → Op V

-- Both parts of a history, each balanced, balance together.
balance : (b c s w p o x : Bool) → s || b ≡ p || o → x || c ≡ s || w → x || (b || c) ≡ p || (o || w)
balance b c s w p o x h k = ground arith

module _ {V : Type 0} where
  abbrev pub at_once : Option (PushMessage V) → ℕ → List (ℕ × PushMessage V)
  at_once none time = []
  at_once (some m) time = (time, m) ∷ []

  -- The queue after one operation, and what it gives out to be sent.
  unfoldable pub act : ℕ → SendQueue V → Op V → SendQueue V × List (ℕ × PushMessage V)
  act top q (pushed m time) = let (q', out) = push true q m time in (q', at_once out time)
  act top q (drained count now) =
      let (q', outs) = drain q now count top in (q', map (λ m. (now, m)) outs)

  unfoldable pub play : ℕ → SendQueue V → List (Op V) → SendQueue V × List (ℕ × PushMessage V)
  play top q [] = (q, [])
  play top q (op ∷ ops) =
      let (q', out) = act top q op in let (q'', outs) = play top q' ops in (q'', out ++ outs)

  abbrev pub is_told : List (ℕ × PushMessage V) → Topic → Bool
  is_told outs t = any (λ o. tells o.1 t) outs

  abbrev pub op_tells : Op V → Topic → Bool
  op_tells (pushed m time) t = tells m t
  op_tells (drained count now) t = false

  abbrev pub is_asked : List (Op V) → Topic → Bool
  is_asked ops t = any (λ op. op_tells op t) ops

  is_told-map :
      (now : ℕ) (ms : List (PushMessage V)) (t : Topic)
      → is_told (map (λ m. (now, m)) ms) t ≡ any (λ m. tells m t) ms
  is_told-map now [] t = refl
  is_told-map now (m ∷ ms) t = ground (arith, is_told-map now ms t)

  is_told-at_once :
      (o : Option (PushMessage V)) (time : ℕ) (t : Topic)
      → is_told (at_once o time) t ≡ tells_queued o t
  is_told-at_once none time t = refl
  is_told-at_once (some m) time t = ground arith

  pub act-IsPlaced :
      (top : ℕ) (q : SendQueue V) (op : Op V) → IsPlaced q → IsPlaced (act top q op).0
  unfolding act
  act-IsPlaced top q (pushed m time) v = push-IsPlaced q m time v
  act-IsPlaced top q (drained count now) v = drain-IsPlaced q now count top v

  pub play-IsPlaced :
      (top : ℕ) (q : SendQueue V) (ops : List (Op V)) → IsPlaced q → IsPlaced (play top q ops).0
  unfolding play
  play-IsPlaced top q [] v = v
  play-IsPlaced top q (op ∷ ops) v =
      play-IsPlaced top (act top q op).0 ops (act-IsPlaced top q op v)

  tells-act :
      (top : ℕ) (q : SendQueue V) (op : Op V) (t : Topic)
      → IsPlaced q
      → pending (act top q op).0 t || is_told (act top q op).1 t ≡ pending q t || op_tells op t
  unfolding act
  tells-act top q (pushed m time) t v =
      rw (is_told-at_once (push true q m time).1 time t) (tells-push q m time t v)
  tells-act top q (drained count now) t v =
      rw (is_told-map now (drain q now count top).1 t)
        (tells-drain q now count top t ∙ ground arith)

  -- After any history, what is still waiting and what was given out tell the same topics as what
  -- was waiting first and what was pushed.
  pub tells-play :
      (top : ℕ) (q : SendQueue V) (ops : List (Op V)) (t : Topic)
      → IsPlaced q
      → pending (play top q ops).0 t || is_told (play top q ops).1 t ≡ pending q t || is_asked ops t
  unfolding play
  tells-play top q [] t v = refl
  tells-play top q (op ∷ ops) t v =
      let r = act top q op in
      rw (any-append (λ (o : ℕ × PushMessage V). tells o.1 t) r.1 (play top r.0 ops).1) (
        balance (is_told r.1 t) (is_told (play top r.0 ops).1 t) (pending r.0 t) (is_asked ops t)
          (pending q t) (op_tells op t) (pending (play top r.0 ops).0 t) (tells-act top q op t v)
          (tells-play top r.0 ops t (act-IsPlaced top q op v)))
