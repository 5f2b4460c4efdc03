-- ===== src/Message.antt =====
-- src/message.rs: the messages that are sent to clients, and the queue that debounces them.
-- Times are numbers of nanoseconds; `-` on ℕ is `Instant::duration_since`, which saturates.
pub mod Files
pub mod Queue
pub mod History
use Prim.Native.Nat.{min, max}
use notify_push.Common.{
  ℕ, ◌+◌, ◌-◌, ◌/◌, List, [], ◌∷◌, ◌++◌, Option, none, some, arith, ◌≡◌, Bool, true, false, not,
  if◌then◌else◌, contains, nat_eq, ltb, from_secs, from_millis,
}
use notify_push.Common.Text.{Str, codes}
use notify_push.Ws.{WsMessage, text, Json}

pub data UpdatedFiles : Type 0 where
  unknown : UpdatedFiles
  known : List ℕ → UpdatedFiles

-- The loop of `extend`: `items` takes the ids of `b` that it does not hold.
pub push_id : List ℕ → ℕ → List ℕ
push_id items id = if contains items id then items else items ++ id ∷ []

pub push_ids : List ℕ → List ℕ → List ℕ
push_ids items [] = items
push_ids items (id ∷ b) = push_ids (push_id items id) b

unfoldable pub extend : UpdatedFiles → UpdatedFiles → UpdatedFiles
unfolding push_ids push_id
extend (known items) (known b) = known (push_ids items b)
extend _ _ = unknown

-- `From<u64>`.
unfoldable pub updated_file : ℕ → UpdatedFiles
updated_file id = known (id ∷ [])

pub data PushMessage (V : Type 0) : Type 0 where
  file : UpdatedFiles → PushMessage V
  activity : PushMessage V
  notification : PushMessage V
  custom : Str → V → PushMessage V

module _ {V : Type 0} where
  unfoldable pub merge : PushMessage V → PushMessage V → PushMessage V
  merge (file a) (file b) = file (extend a b)
  merge m _ = m

  unfoldable pub debounce_time : PushMessage V → ℕ → ℕ → ℕ
  debounce_time m connection_count max_debounce_time =
      let time = max 1 (min (connection_count / 10) max_debounce_time) in
      elim m [
        | file _ ↦ from_secs time
        | activity ↦ from_secs time
        | notification ↦ from_secs 1
        | custom _ _ ↦ from_millis 1
      ]

  -- The `match` on the ids, with its guard.
  file_text : Json V → Bool → UpdatedFiles → Str
  file_text json true (known ids) = codes "notify_file_id " ++ json.ids_to_string ids
  file_text json _ _ = codes "notify_file"

  unfoldable pub into_message : Json V → Bool → PushMessage V → WsMessage
  unfolding file_text
  into_message json listen_file_id (file ids) = text (file_text json listen_file_id ids)
  into_message json listen_file_id activity = text (codes "notify_activity")
  into_message json listen_file_id notification = text (codes "notify_notification")
  into_message json listen_file_id (custom ty body) =
      text (if json.is_null body then ty else ty ++ codes " " ++ json.display body)

pub record SendQueueItem (V : Type 0) : Type 0 where
  pub received : ℕ
  pub sent : ℕ
  pub message : Option (PushMessage V)

pub record SendQueue (V : Type 0) : Type 0 where
  pub item_0 : SendQueueItem V
  pub item_1 : SendQueueItem V
  pub item_2 : SendQueueItem V

-- The places of the array `items`.
pub data Index : Type 0 where
  first second third : Index

module _ {V : Type 0} where
  -- `Default` of an item, at one reading of the clock.
  unfoldable pub default_item : ℕ → SendQueueItem V
  default_item now = record {
    received = now - from_secs 120;
    sent = now - from_secs 120;
    message = none;
  }

  unfoldable pub default : ℕ → SendQueue V
  unfolding default_item
  default now = record {
    item_0 = default_item now;
    item_1 = default_item now;
    item_2 = default_item now;
  }

  unfoldable pub new : ℕ → SendQueue V
  unfolding default
  new now = default now

  abbrev pub get_item : SendQueue V → Index → SendQueueItem V
  get_item q first = q.item_0
  get_item q second = q.item_1
  get_item q third = q.item_2

  abbrev set_item : SendQueue V → Index → SendQueueItem V → SendQueue V
  set_item q first item = record q { item_0 = item }
  set_item q second item = record q { item_1 = item }
  set_item q third item = record q { item_2 = item }

  -- Where the queue keeps a message of this kind.
  unfoldable pub item_mut : PushMessage V → Option Index
  item_mut (file _) = some first
  item_mut activity = some second
  item_mut notification = some third
  item_mut (custom _ _) = none

  abbrev pub merge_queued : Option (PushMessage V) → PushMessage V → PushMessage V
  merge_queued (some queued) m = merge queued m
  merge_queued none m = m

  abbrev store : SendQueueItem V → PushMessage V → ℕ → SendQueueItem V
  store item m time = record item { received = time; message = some (merge_queued item.message m) }

  -- The message comes back if it is to be sent at once. `debounce_enable` is the static
  -- `DEBOUNCE_ENABLE`.
  unfoldable pub push :
      Bool → SendQueue V → PushMessage V → ℕ → SendQueue V × Option (PushMessage V)
  unfolding item_mut
  push debounce_enable q m time = if not debounce_enable then (q, some m) else elim (item_mut m) [
    | none ↦ (q, some m)
    | some i ↦ (set_item q i (store (get_item q i) m time), none)
  ]

  -- The closure of `drain`, on one item.
  unfoldable pub drain_item : ℕ → ℕ → ℕ → SendQueueItem V → SendQueueItem V × Option (PushMessage V)
  drain_item now connection_count max_debounce_time item = elim item.message [
    | none ↦ (item, none)
    | some m ↦
        if ltb (debounce_time m connection_count max_debounce_time) (now - item.sent)
        then (if ltb (from_millis 100) (now - item.received)
            then (record item { sent = now; message = none }, some m)
            else (item, none))
        else (item, none)
  ]

  abbrev emit : Option (PushMessage V) → List (PushMessage V) → List (PushMessage V)
  emit none ms = ms
  emit (some m) ms = m ∷ ms

  unfoldable pub drain : SendQueue V → ℕ → ℕ → ℕ → SendQueue V × List (PushMessage V)
  drain q now connection_count max_debounce_time =
      let (item_0, m_0) = drain_item now connection_count max_debounce_time q.item_0 in
      let (item_1, m_1) = drain_item now connection_count max_debounce_time q.item_1 in
      let (item_2, m_2) = drain_item now connection_count max_debounce_time q.item_2 in
      (
        record { item_0 = item_0; item_1 = item_1; item_2 = item_2 },
        emit m_0 (emit m_1 (emit m_2 [])),
      )
