-- ===== src/Connection/Socket/Debounce.antt =====
-- src/connection.rs and src/message.rs: what the number of connections does to the debounce time.
use notify_push.Common.{ℕ, ◌+◌, ◌≤◌, ◌<◌, ◌%◌, ◌≡◌, Option-cases, inl, inr, Bool, arith, usize_mod}
use notify_push.Ws.{Json}
use notify_push.Message.{drain, drain_item, debounce_time, SendQueue, SendQueueItem, PushMessage}
use notify_push.Connection.Socket.{Loop, ConnectionOptions, on_elapsed}

module _ {V : Type 0} (c d top now : ℕ) (hc : c + 50000 < usize_mod) (hd : d + 50000 < usize_mod)
    (h : top ≤ 5000) where
  same_time :
      (m : PushMessage V)
      → debounce_time m ((c + 50000) % usize_mod) top
        ≡ debounce_time m ((d + 50000) % usize_mod) top
  unfolding debounce_time
  same_time m = ground arith

  same_item :
      (item : SendQueueItem V)
      → drain_item now ((c + 50000) % usize_mod) top item
        ≡ drain_item now ((d + 50000) % usize_mod) top item
  unfolding drain_item
  same_item item = elim (Option-cases item.message) [
    | inl e ↦ rw (e, drain_item)
    | inr (m, e) ↦ rw (e, drain_item, same_time m)
  ]

  same_drain :
      (q : SendQueue V)
      → drain q now ((c + 50000) % usize_mod) top ≡ drain q now ((d + 50000) % usize_mod) top
  unfolding drain
  same_drain q = rw (same_item q.item_0, same_item q.item_1, same_item q.item_2)

-- Up to a configured debounce time of 5000 seconds, a timeout does the same whatever the number of
-- connections is: the 50000 that are added to it put every count beyond the scaled range.
pub on_elapsed_scale :
    {V : Type 0} (json : Json V) (enable : Bool) (opts : ConnectionOptions)
    (start_time c d ping_value now : ℕ) (l : Loop V)
    → opts.max_debounce_time ≤ 5000
    → c + 50000 < usize_mod
    → d + 50000 < usize_mod
    → on_elapsed json enable opts start_time c ping_value now l
      ≡ on_elapsed json enable opts start_time d ping_value now l
unfolding on_elapsed
on_elapsed_scale json enable opts start_time c d ping_value now l h hc hd =
    rw (same_drain c d opts.max_debounce_time now hc hd h l.send_queue)
