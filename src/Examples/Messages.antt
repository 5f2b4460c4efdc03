-- ===== src/Examples/Messages.antt =====
-- src/message.rs, src/metrics.rs and src/user.rs: the source's own tests, and instances.
use notify_push.Common.{
  ℕ, ◌+◌, ◌≡◌, refl, List, [], ◌∷◌, ◌++◌, true, arith, ◌||◌, from_secs, from_millis, nat_eq,
  if◌then◌else◌,
}
use notify_push.Common.Text.{Str, codes, str_beq, str_beq_iff}
use notify_push.Dash.{DashMap, function_map}
use notify_push.Message.{
  unknown, known, extend, file, activity, push, drain, drain_item, new, default, item_mut, merge,
  debounce_time, first,
}
use notify_push.Message.Files.{covers-extend, covers}
use notify_push.Message.Queue.{file_id, pending, default-IsPlaced}
use notify_push.Message.History.{Op, pushed, drained, act, play, is_told, is_asked, tells-play}
use notify_push.Message.History.Delivery.{play-delivers}
use notify_push.Message.History.Spacing.{play-IsSpaced, times_of, IsSpaced}
use notify_push.Metrics as Counters
use notify_push.Metrics.Balance.{
  apply_all, apply_all-new, adds_connection, removes_connection, adds_message,
}
use notify_push.User as User
use notify_push.User.Names.{display-new, new_all, empty-IsHashed}

-- A time after the start, in nanoseconds.
abbrev base : ℕ
base = from_secs 1000

abbrev at : ℕ → ℕ
at ms = base + from_millis ms

-- `test_send_queue_100`: the pushes, and each drain with what it gives out.
abbrev hundred : List (Op ℕ)
hundred =
    pushed activity base
    ∷ pushed (file (known (1 ∷ []))) base
    ∷ pushed (file (known (2 ∷ []))) (at 10)
    ∷ drained 100 (at 20)
    ∷ drained 100 (at 200)
    ∷ pushed (file (known (3 ∷ []))) (at 5000)
    ∷ pushed (file (known (4 ∷ []))) (at 6000)
    ∷ drained 100 (at 10000)
    ∷ drained 100 (at 70000)
    ∷ drained 100 (at 300000)
    ∷ []

test_send_queue_100 :
    (play 15 (new base) hundred).1
    ≡ (at 200, file (known (1 ∷ 2 ∷ [])))
      ∷ (at 200, activity)
      ∷ (at 70000, file (known (3 ∷ 4 ∷ [])))
      ∷ []
unfolding play new push drain drain_item merge extend debounce_time item_mut act
test_send_queue_100 = refl

-- `test_send_queue_1`, with its drain that comes before the pushes it follows.
abbrev one : List (Op ℕ)
one =
    pushed activity base
    ∷ pushed (file (known (1 ∷ []))) base
    ∷ pushed (file (known (2 ∷ []))) (at 10)
    ∷ drained 1 (at 20)
    ∷ drained 1 (at 200)
    ∷ pushed (file (known (3 ∷ []))) (at 1200)
    ∷ pushed (file (known (4 ∷ []))) (at 1300)
    ∷ drained 1 (at 1000)
    ∷ drained 1 (at 3000)
    ∷ drained 1 (at 5000)
    ∷ []

test_send_queue_1 :
    (play 15 (new base) one).1
    ≡ (at 200, file (known (1 ∷ 2 ∷ [])))
      ∷ (at 200, activity)
      ∷ (at 3000, file (known (3 ∷ 4 ∷ [])))
      ∷ []
unfolding play new push drain drain_item merge extend debounce_time item_mut act
test_send_queue_1 = refl

covers-extend_example : covers (extend (known (1 ∷ [])) (known (2 ∷ []))) 2 ≡ true
covers-extend_example = covers-extend (known (1 ∷ [])) (known (2 ∷ [])) 2

tells-play_example :
    pending (play 15 (default {V = ℕ} base) hundred).0 (file_id 3)
      || is_told (play 15 (default base) hundred).1 (file_id 3)
    ≡ pending (default {V = ℕ} base) (file_id 3) || is_asked hundred (file_id 3)
tells-play_example = tells-play 15 (default base) hundred (file_id 3) (default-IsPlaced base)

abbrev burst : List (Op ℕ)
burst = pushed (file (known (1 ∷ []))) base ∷ pushed (file unknown) (at 10) ∷ []

play-delivers_example :
    is_told (play 15 (default base) (burst ++ drained 50000 (at 15011) ∷ [])).1 (file_id 7)
    ≡ is_asked burst (file_id 7)
play-delivers_example =
    play-delivers 15 base (at 10) 50000 (at 15011) burst (file_id 7) (omega arith) (omega arith)
      (omega arith)

play-IsSpaced_example :
    IsSpaced
      (from_secs 10)
      (default {V = ℕ} base).item_0.sent
      (times_of first (play 15 (default base) hundred).1)
play-IsSpaced_example =
    play-IsSpaced first (from_secs 10) 15 (default base) hundred (default-IsPlaced base)
      (omega arith)

apply_all-new_example :
    (apply_all Counters.new
      (adds_connection ∷ adds_message ∷ removes_connection ∷ [])).active_connection_count
    ≡ 0
apply_all-new_example =
    (apply_all-new (adds_connection ∷ adds_message ∷ removes_connection ∷ []) (omega arith)
      (omega arith) (omega arith) (omega arith)).0

-- A hash that tells one name from the others.
abbrev is_alice : Str → ℕ
is_alice s = if str_beq s (codes "alice") then 1 else 0

is_alice_unique : (other : Str) → is_alice other ≡ is_alice (codes "alice") → other ≡ codes "alice"
is_alice_unique other e = ground (arith, str_beq_iff other (codes "alice"))

abbrev names : DashMap ℕ Str
names = function_map ℕ Str

display-new_example :
    User.display names true (User.new is_alice names true (codes "alice") names.empty).0 (
      new_all is_alice names true
        (codes "bob" ∷ [])
        (User.new is_alice names true (codes "alice") names.empty).1)
    ≡ codes "alice"
display-new_example =
    display-new is_alice names (codes "alice") names.empty (codes "bob" ∷ [])
      (empty-IsHashed is_alice names) is_alice_unique
