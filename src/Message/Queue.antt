-- ===== src/Message/Queue.antt =====
-- src/message.rs: what one call of `SendQueue::push` or `drain` does to what is waiting.
use notify_push.Common.{
  ℕ, List, Bool, true, false, ◌||◌, ◌≡◌, refl, sym, ◌∙◌, arith, Option, none, some, any,
}
use notify_push.Message.{
  PushMessage, file, activity, notification, custom, SendQueueItem, SendQueue, Index, first, second,
  third, merge, item_mut, merge_queued, emit, push, drain_item, drain, default,
}
use notify_push.Message.Files.{covers, covers-extend}

-- What a client can be told to refresh.
pub data Topic : Type 0 where
  file_id : ℕ → Topic
  activities notifications : Topic

regroup :
    (a b c x y z : Bool) {p q r : Bool}
    → a || x ≡ p
    → b || y ≡ q
    → c || z ≡ r
    → (a || (b || c)) || (x || (y || (z || false))) ≡ p || (q || r)
regroup a b c x y z e f g = ground arith

module _ {V : Type 0} where
  -- Whether a message tells the client to refresh the topic.
  abbrev pub tells : PushMessage V → Topic → Bool
  tells (file f) (file_id id) = covers f id
  tells activity activities = true
  tells notification notifications = true
  tells _ _ = false

  abbrev pub tells_queued : Option (PushMessage V) → Topic → Bool
  tells_queued none t = false
  tells_queued (some m) t = tells m t

  -- Whether some item of the queue waits to tell it.
  abbrev pub pending : SendQueue V → Topic → Bool
  pending q t =
      tells_queued q.item_0.message t
      || (tells_queued q.item_1.message t || tells_queued q.item_2.message t)

  abbrev pub InPlace : Index → Option (PushMessage V) → Type 0
  InPlace i none = Unit
  InPlace i (some m) = item_mut m ≡ some i

  -- Each item holds messages of its own kind.
  pub record IsPlaced (q : SendQueue V) : Type 0 where
    pub place_0 : InPlace first q.item_0.message
    pub place_1 : InPlace second q.item_1.message
    pub place_2 : InPlace third q.item_2.message

  pub default-IsPlaced : (now : ℕ) → IsPlaced (default {V = V} now)
  unfolding default
  default-IsPlaced now = record { place_0 = tt; place_1 = tt; place_2 = tt }

  tells-merge :
      (a b : PushMessage V) (t : Topic)
      → item_mut a ≡ item_mut b
      → tells (merge a b) t ≡ tells a t || tells b t
  unfolding merge item_mut
  tells-merge (file a) (file b) (file_id id) e = covers-extend a b id
  tells-merge a b t e = ground arith

  item_mut-merge : (a b : PushMessage V) → item_mut (merge a b) ≡ item_mut a
  unfolding merge item_mut
  item_mut-merge (file a) (file b) = refl
  item_mut-merge a b = ground arith

  -- The message that an item holds after a push of its kind.
  tells-merge_queued :
      (i : Index) (o : Option (PushMessage V)) (m : PushMessage V) (t : Topic)
      → InPlace i o
      → item_mut m ≡ some i
      → tells (merge_queued o m) t ≡ tells_queued o t || tells m t
  tells-merge_queued i none m t p e = refl
  tells-merge_queued i (some a) m t p e = tells-merge a m t (p ∙ sym e)

  merge_queued-InPlace :
      (i : Index) (o : Option (PushMessage V)) (m : PushMessage V)
      → InPlace i o
      → item_mut m ≡ some i
      → item_mut (merge_queued o m) ≡ some i
  merge_queued-InPlace i none m p e = e
  merge_queued-InPlace i (some a) m p e = item_mut-merge a m ∙ p

  pub push-IsPlaced :
      (q : SendQueue V) (m : PushMessage V) (time : ℕ)
      → IsPlaced q
      → IsPlaced (push true q m time).0
  unfolding push
  push-IsPlaced q (file f) time v = record {
    place_0 = merge_queued-InPlace first q.item_0.message (file f) v.place_0 refl;
    place_1 = v.place_1;
    place_2 = v.place_2;
  }
  push-IsPlaced q activity time v = record {
    place_1 = merge_queued-InPlace second q.item_1.message activity v.place_1 refl;
    place_0 = v.place_0;
    place_2 = v.place_2;
  }
  push-IsPlaced q notification time v = record {
    place_2 = merge_queued-InPlace third q.item_2.message notification v.place_2 refl;
    place_0 = v.place_0;
    place_1 = v.place_1;
  }
  push-IsPlaced q (custom ty body) time v = v

  pub drain_item-InPlace :
      (i : Index) (item : SendQueueItem V) (now count top : ℕ)
      → InPlace i item.message
      → InPlace i (drain_item now count top item).0.message
  unfolding drain_item
  drain_item-InPlace i item now count top p = ground arith

  pub drain-IsPlaced :
      (q : SendQueue V) (now count top : ℕ) → IsPlaced q → IsPlaced (drain q now count top).0
  unfolding drain
  drain-IsPlaced q now count top v = record {
    place_0 = drain_item-InPlace first q.item_0 now count top v.place_0;
    place_1 = drain_item-InPlace second q.item_1 now count top v.place_1;
    place_2 = drain_item-InPlace third q.item_2 now count top v.place_2;
  }

  -- What a push keeps waiting, with what it hands back at once, tells what was waiting and what
  -- the new message tells.
  pub tells-push :
      (q : SendQueue V) (m : PushMessage V) (time : ℕ) (t : Topic)
      → IsPlaced q
      → pending (push true q m time).0 t || tells_queued (push true q m time).1 t
        ≡ pending q t || tells m t
  unfolding push
  tells-push q (file f) time t v =
      ground (arith, tells-merge_queued first q.item_0.message (file f) t v.place_0 refl)
  tells-push q activity time t v =
      ground (arith, tells-merge_queued second q.item_1.message activity t v.place_1 refl)
  tells-push q notification time t v =
      ground (arith, tells-merge_queued third q.item_2.message notification t v.place_2 refl)
  tells-push q (custom ty body) time t v = refl

  tells-drain_item :
      (item : SendQueueItem V) (now count top : ℕ) (t : Topic)
      → tells_queued (drain_item now count top item).0.message t
          || tells_queued (drain_item now count top item).1 t
        ≡ tells_queued item.message t
  unfolding drain_item
  tells-drain_item item now count top t = ground arith

  any-emit :
      (o : Option (PushMessage V)) (ms : List (PushMessage V)) (t : Topic)
      → any (λ m. tells m t) (emit o ms) ≡ tells_queued o t || any (λ m. tells m t) ms
  any-emit none ms t = refl
  any-emit (some m) ms t = refl

  -- What a drain leaves waiting, with what it hands out, tells what was waiting.
  pub tells-drain :
      (q : SendQueue V) (now count top : ℕ) (t : Topic)
      → pending (drain q now count top).0 t || any (λ m. tells m t) (drain q now count top).1
        ≡ pending q t
  unfolding drain
  tells-drain q now count top t =
      let r_0 = drain_item now count top q.item_0 in
      let r_1 = drain_item now count top q.item_1 in
      let r_2 = drain_item now count top q.item_2 in
      rw (any-emit _ _ t, any-emit _ _ t, any-emit _ _ t)
        (regroup (tells_queued r_0.0.message t) (tells_queued r_1.0.message t)
          (tells_queued r_2.0.message t) (tells_queued r_0.1 t) (tells_queued r_1.1 t)
          (tells_queued r_2.1 t) (tells-drain_item q.item_0 now count top t)
          (tells-drain_item q.item_1 now count top t) (tells-drain_item q.item_2 now count top t))
