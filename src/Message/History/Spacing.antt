-- ===== src/Message/History/Spacing.antt =====
-- src/message.rs: how far apart the messages of one kind are sent.
use Prim.Native.Nat.{min, max}
use mathlib.Core.List.{append-nil}
use notify_push.Common.{
  ℕ, ◌+◌, ◌/◌, ◌≤◌, ◌<◌, List, [], ◌∷◌, ◌++◌, map, Bool, true, false, ◌≡◌, refl, ◌∙◌, arith, Option,
  none, some, from_secs, inl, inr, All, Option-cases, if◌then◌else◌,
}
use notify_push.Message.{
  PushMessage, SendQueueItem, SendQueue, Index, first, second, third, debounce_time, item_mut, push,
  drain_item, drain, get_item, emit,
}
use notify_push.Message.Queue.{InPlace, IsPlaced}
use notify_push.Message.History.{Op, pushed, drained, act, play, act-IsPlaced, at_once}

abbrev index_beq : Index → Index → Bool
index_beq first first = true
index_beq second second = true
index_beq third third = true
index_beq _ _ = false

module _ {V : Type 0} where
  abbrev is_kept_at : Index → PushMessage V → Bool
  is_kept_at i m = elim (item_mut m) [ none ↦ false | some j ↦ index_beq i j ]

  -- When messages of one kind were sent.
  abbrev pub times_of : Index → List (ℕ × PushMessage V) → List ℕ
  times_of i [] = []
  times_of i ((time, m) ∷ outs) = if is_kept_at i m then time ∷ times_of i outs else times_of i outs

  times_of-append :
      (i : Index) (xs ys : List (ℕ × PushMessage V))
      → times_of i (xs ++ ys) ≡ times_of i xs ++ times_of i ys
  times_of-append i [] ys = refl
  times_of-append i ((time, m) ∷ xs) ys = ground (arith, times_of-append i xs ys)

-- Each time is more than the gap after the one before.
abbrev pub IsSpaced : ℕ → ℕ → List ℕ → Type 0
IsSpaced gap last [] = Unit
IsSpaced gap last (time ∷ times) = (last + gap < time) × IsSpaced gap time times

abbrev latest : ℕ → List ℕ → ℕ
latest last [] = last
latest last (time ∷ times) = latest time times

IsSpaced-append :
    (gap last : ℕ) (xs ys : List ℕ)
    → IsSpaced gap last xs
    → IsSpaced gap (latest last xs) ys
    → IsSpaced gap last (xs ++ ys)
IsSpaced-append gap last [] ys hx hy = hy
IsSpaced-append gap last (x ∷ xs) ys hx hy = (hx.0, IsSpaced-append gap x xs ys hx.1 hy)

-- The times follow the last one by more than the gap, and end at the new last one.
abbrev Follows : ℕ → ℕ → List ℕ → ℕ → Type 0
Follows gap last times last' = IsSpaced gap last times × (latest last times ≡ last')

-- The debounce time of the messages of one kind.
abbrev pub wait : Index → ℕ → ℕ → ℕ
wait first count top = from_secs (max 1 (min (count / 10) top))
wait second count top = from_secs (max 1 (min (count / 10) top))
wait third count top = from_secs 1

module _ {V : Type 0} where
  debounce_time-wait :
      (i : Index) (m : PushMessage V) (count top : ℕ)
      → item_mut m ≡ some i
      → debounce_time m count top ≡ wait i count top
  unfolding debounce_time item_mut
  debounce_time-wait i m count top e = ground arith

  abbrev sent_times : ℕ → Option (PushMessage V) → List ℕ
  sent_times now none = []
  sent_times now (some m) = now ∷ []

  drain_item-Follows :
      (i : Index) (gap : ℕ) (item : SendQueueItem V) (now count top : ℕ)
      → InPlace i item.message
      → gap ≤ wait i count top
      → Follows gap item.sent
          (sent_times now (drain_item now count top item).1)
          (drain_item now count top item).0.sent
  unfolding drain_item
  drain_item-Follows i gap item now count top p g = elim (Option-cases item.message) [
    | inl e ↦ rw (e, drain_item) (tt, refl)
    | inr (m, e) ↦
        let e' : item_mut m ≡ some i = rw e at p in
        rw (e, drain_item) (ground (arith, debounce_time-wait i m count top e'))
  ]

  drain_item_out-InPlace :
      (i : Index) (item : SendQueueItem V) (now count top : ℕ)
      → InPlace i item.message
      → InPlace i (drain_item now count top item).1
  unfolding drain_item
  drain_item_out-InPlace i item now count top p = ground arith

  abbrev stamp : ℕ → List (PushMessage V) → List (ℕ × PushMessage V)
  stamp now = map (λ m. (now, m))

  times_of_kept :
      (i : Index) (now : ℕ) (o : Option (PushMessage V)) (ms : List (PushMessage V))
      → InPlace i o
      → times_of i (stamp now (emit o ms)) ≡ sent_times now o ++ times_of i (stamp now ms)
  times_of_kept i now none ms p = refl
  times_of_kept i now (some m) ms p = ground arith

  times_of_other :
      (i j : Index) (now : ℕ) (o : Option (PushMessage V)) (ms : List (PushMessage V))
      → InPlace j o
      → index_beq i j ≡ false
      → times_of i (stamp now (emit o ms)) ≡ times_of i (stamp now ms)
  times_of_other i j now none ms p e = refl
  times_of_other i j now (some m) ms p e = ground arith

  abbrev choose : Index → (x y z : Option (PushMessage V)) → Option (PushMessage V)
  choose first x y z = x
  choose second x y z = y
  choose third x y z = z

  pick :
      (i : Index) (now : ℕ) (x y z : Option (PushMessage V))
      → InPlace first x
      → InPlace second y
      → InPlace third z
      → times_of i (stamp now (emit x (emit y (emit z [])))) ≡ sent_times now (choose i x y z)
  pick first now x y z p q r =
      rw
        (
          times_of_kept first now x _ p,
          times_of_other first second now y _ q refl,
          times_of_other first third now z _ r refl,
        )
        (append-nil (sent_times now x))
  pick second now x y z p q r =
      rw
        (
          times_of_other second first now x _ p refl,
          times_of_kept second now y _ q,
          times_of_other second third now z _ r refl,
        )
        (append-nil (sent_times now y))
  pick third now x y z p q r =
      rw
        (
          times_of_other third first now x _ p refl,
          times_of_other third second now y _ q refl,
          times_of_kept third now z _ r,
        )
        (append-nil (sent_times now z))

  -- Of the three messages that a drain may give out, one is of the kind.
  times_of-drain :
      (i : Index) (q : SendQueue V) (now count top : ℕ)
      → IsPlaced q
      → times_of i (stamp now (drain q now count top).1)
        ≡ sent_times now (drain_item now count top (get_item q i)).1
  unfolding drain
  times_of-drain i q now count top v =
      let o_0 = (drain_item now count top q.item_0).1 in
      let o_1 = (drain_item now count top q.item_1).1 in
      let o_2 = (drain_item now count top q.item_2).1 in
      pick i now o_0 o_1 o_2 (drain_item_out-InPlace first q.item_0 now count top v.place_0)
        (drain_item_out-InPlace second q.item_1 now count top v.place_1)
        (drain_item_out-InPlace third q.item_2 now count top v.place_2)
      ∙ picked i
    where
      picked :
          (j : Index)
          → sent_times now (
              choose j
                (drain_item now count top q.item_0).1
                (drain_item now count top q.item_1).1
                (drain_item now count top q.item_2).1)
            ≡ sent_times now (drain_item now count top (get_item q j)).1
      picked first = refl
      picked second = refl
      picked third = refl

  placed : (i : Index) (q : SendQueue V) → IsPlaced q → InPlace i (get_item q i).message
  placed first q v = v.place_0
  placed second q v = v.place_1
  placed third q v = v.place_2

  -- The drains of a history wait for at least the gap between two messages of the kind.
  abbrev pub Paces : Index → ℕ → ℕ → Op V → Type 0
  Paces i gap top (pushed m time) = Unit
  Paces i gap top (drained count now) = gap ≤ wait i count top

  push-Follows :
      (i : Index) (gap : ℕ) (q : SendQueue V) (m : PushMessage V) (time : ℕ)
      → Follows gap
          (get_item q i).sent
          (times_of i (at_once (push true q m time).1 time))
          (get_item (push true q m time).0 i).sent
  unfolding push
  push-Follows first gap q m time = ground arith
  push-Follows second gap q m time = ground arith
  push-Follows third gap q m time = ground arith

  get_item-drain :
      (i : Index) (q : SendQueue V) (now count top : ℕ)
      → get_item (drain q now count top).0 i ≡ (drain_item now count top (get_item q i)).0
  unfolding drain
  get_item-drain first q now count top = refl
  get_item-drain second q now count top = refl
  get_item-drain third q now count top = refl

  act-Follows :
      (i : Index) (gap top : ℕ) (q : SendQueue V) (op : Op V)
      → IsPlaced q
      → Paces i gap top op
      → Follows gap
          (get_item q i).sent
          (times_of i (act top q op).1)
          (get_item (act top q op).0 i).sent
  unfolding act
  act-Follows i gap top q (pushed m time) v g = push-Follows i gap q m time
  act-Follows i gap top q (drained count now) v g =
      rw (times_of-drain i q now count top v, get_item-drain i q now count top)
        (drain_item-Follows i gap (get_item q i) now count top (placed i q v) g)

  -- In any history, two messages of one kind, and the first of them and what the queue had sent
  -- before, are more than the gap apart, if every drain of it keeps the gap.
  pub play-IsSpaced :
      (i : Index) (gap top : ℕ) (q : SendQueue V) (ops : List (Op V))
      → IsPlaced q
      → All (Paces i gap top) ops
      → IsSpaced gap (get_item q i).sent (times_of i (play top q ops).1)
  unfolding play
  play-IsSpaced i gap top q [] v g = tt
  play-IsSpaced i gap top q (op ∷ ops) v g =
      let r = act top q op in
      let (spaced, ends) = act-Follows i gap top q op v g.0 in
      rw (times_of-append i r.1 (play top r.0 ops).1) (
        IsSpaced-append gap _ (times_of i r.1) _ spaced
          (rw ends (play-IsSpaced i gap top r.0 ops (act-IsPlaced top q op v) g.1)))
