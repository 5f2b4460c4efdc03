-- ===== src/Broadcast.antt =====
-- The broadcast channels of the `tokio` crate, as an interface. A channel is named by the number of
-- channels that were made before it.
use notify_push.Common.{
  ℕ, suc, ◌-◌, List, [], ◌∷◌, ◌++◌, arith, ◌≡◌, refl, nat_eq, ◌==◌, if◌then◌else◌,
}

pub record Broadcast (A : Type 0) : Type 1 where
  pub World : Type 0
  pub Sender : Type 0
  pub Receiver : Type 0
  -- The channels that were made, and the receivers that a channel has.
  pub made : World → ℕ
  pub receivers : ℕ → World → ℕ
  pub channel_of : Sender → ℕ
  pub source : Receiver → ℕ
  pub channel : ℕ → World → Sender × Receiver × World
  pub subscribe : Sender → World → Receiver × World
  pub send : Sender → A → World → World
  pub drop : Receiver → World → World
  pub receiver_count : Sender → World → ℕ
  pub receiver_count_lem :
      (s : Sender) (w : World) → receiver_count s w ≡ receivers (channel_of s) w
  -- A new channel has a name of its own and one receiver.
  pub channel_sender : (n : ℕ) (w : World) → channel_of (channel n w).0 ≡ made w
  pub channel_source : (n : ℕ) (w : World) → source (channel n w).1 ≡ made w
  pub channel_made : (n : ℕ) (w : World) → made (channel n w).2 ≡ suc (made w)
  pub channel_receivers :
      (n j : ℕ) (w : World)
      → receivers j (channel n w).2 ≡ (if made w == j then 1 else receivers j w)
  pub subscribe_source : (s : Sender) (w : World) → source (subscribe s w).0 ≡ channel_of s
  pub subscribe_made : (s : Sender) (w : World) → made (subscribe s w).1 ≡ made w
  pub subscribe_receivers :
      (s : Sender) (j : ℕ) (w : World)
      → receivers j (subscribe s w).1
        ≡ (if channel_of s == j then suc (receivers j w) else receivers j w)
  pub send_made : (s : Sender) (a : A) (w : World) → made (send s a w) ≡ made w
  -- What was sent on a channel, in order; a send reaches the receivers of its channel alone.
  pub sent : ℕ → World → List A
  pub send_sent :
      (s : Sender) (a : A) (j : ℕ) (w : World)
      → sent j (send s a w) ≡ (if channel_of s == j then sent j w ++ a ∷ [] else sent j w)
  pub send_receivers :
      (s : Sender) (a : A) (j : ℕ) (w : World) → receivers j (send s a w) ≡ receivers j w
  pub drop_made : (r : Receiver) (w : World) → made (drop r w) ≡ made w
  pub drop_receivers :
      (r : Receiver) (j : ℕ) (w : World)
      → receivers j (drop r w) ≡ (if source r == j then receivers j w - 1 else receivers j w)

-- Channels that only count their receivers and log what is sent.
pub record Channels (A : Type 0) : Type 0 where
  pub count : ℕ
  pub subscribed : ℕ → ℕ
  pub log : List (ℕ × A)

-- The part of a log that is about one channel.
abbrev pub logged : {A : Type 0} → ℕ → List (ℕ × A) → List A
logged j [] = []
logged j ((s, a) ∷ log) = let rest = logged j log in if s == j then a ∷ rest else rest

pub logged-append :
    {A : Type 0} (j s : ℕ) (a : A) (log : List (ℕ × A))
    → logged j (log ++ (s, a) ∷ []) ≡ (if s == j then logged j log ++ a ∷ [] else logged j log)
logged-append j s a [] = refl
logged-append j s a ((r, b) ∷ log) = ground (arith, logged-append j s a log)

abbrev pub counting : (A : Type 0) → Broadcast A
counting A = record {
  World = Channels A;
  Sender = ℕ;
  Receiver = ℕ;
  made = λ w. w.count;
  receivers = λ j w. w.subscribed j;
  channel_of = λ s. s;
  source = λ r. r;
  channel = λ n w. (
    w.count,
    w.count,
    record w { count = suc w.count; subscribed = λ j. if w.count == j then 1 else w.subscribed j },
  );
  subscribe = λ s w.
      (s, record w { subscribed = λ j. if s == j then suc (w.subscribed j) else w.subscribed j });
  send = λ s a w. record w { log = w.log ++ (s, a) ∷ [] };
  drop =
      λ r w. record w { subscribed = λ j. if r == j then w.subscribed j - 1 else w.subscribed j };
  receiver_count = λ s w. w.subscribed s;
  receiver_count_lem = λ s w. refl;
  channel_sender = λ n w. refl;
  channel_source = λ n w. refl;
  channel_made = λ n w. refl;
  channel_receivers = λ n j w. refl;
  subscribe_source = λ s w. refl;
  subscribe_made = λ s w. refl;
  subscribe_receivers = λ s j w. refl;
  send_made = λ s a w. refl;
  sent = λ j w. logged j w.log;
  send_sent = λ s a j w. logged-append j s a w.log;
  send_receivers = λ s a j w. refl;
  drop_made = λ r w. refl;
  drop_receivers = λ r j w. refl;
}
