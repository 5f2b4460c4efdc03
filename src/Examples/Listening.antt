-- ===== src/Examples/Listening.antt =====
-- src/lib.rs: a run of the listening server.
use notify_push.Common.{
  arith, any, map, true, false, ℕ, ◌≡◌, refl, List, [], ◌∷◌, ok, err, from_secs,
}
use notify_push.Common.Text.{Str, codes}
use notify_push.Event
use notify_push.Event.{Decoder, on_event, try_from}
use notify_push.App.Listen.{Listening, Step, arrives, handles, step, run}
use notify_push.Connection.System.{select}
use notify_push.App.Listen.{Round, fresh, run_pending, listen, listen_loop}
use notify_push.App.Listen.Reconnect.{all_steps, listen_loop-sent}
use notify_push.App.Listen.Ledger.{told_all, told_from, came}
use notify_push.Event.{subscribe}
use notify_push.Message.{PushMessage}
use notify_push.Message
use notify_push.Message.Queue.{Topic, tells}
use notify_push.Message.History.{is_told}
use notify_push.Ws.{Json}
use notify_push.Connection.Socket as Socket
use notify_push.Connection.Socket.{ConnectionOptions, elapsed, message, start}
use notify_push.Connection.Socket.Frames.{texts, frame}
use notify_push.Storage.{get_users_for_storage_path}
use notify_push.App.{handle_event}
use notify_push.Connection.Active.{send_to_user, add}
use notify_push.App.Session.Joined.{listen_loop-texts}
use notify_push.Connection.System as System
use notify_push.Examples.Servers.{alice}
use notify_push.Examples.Whole.{crates, app, alice-Owns, request_at}
use notify_push.Examples.Options.{decoder}

-- Every activity is one of alice.
abbrev of_alice : Decoder ℕ Str
of_alice = record decoder { activity = λ p. ok (record { user = alice }) }

abbrev steps : List (Step crates)
steps =
    arrives (record { channel_name = codes "notify_activity"; payload = [] })
    ∷ arrives (record { channel_name = codes "else"; payload = [] })
    ∷ handles 0 (from_secs 300) (request_at 300).clock
    ∷ []

abbrev idle : Listening crates
idle = record { app = app; spawned = [] }

-- Redis is not there at first; then it is, and is lost before the task has run.
abbrev rounds : List (Round crates)
rounds =
    record { pubsub = err (codes "refused"); call = λ c p. ok p; steps = steps; meanwhile = [] }
    ∷ record {
      pubsub = ok [];
      call = λ c p. ok p;
      steps = arrives (record { channel_name = codes "notify_activity"; payload = [] }) ∷ [];
      meanwhile = (0, from_secs 300, (request_at 300).clock) ∷ [];
    }
    ∷ []

-- Every storage update is one of a file that alice can read at first.
abbrev of_file : Decoder ℕ Str
of_file = record of_alice {
  storage_update = λ p. ok (record { storage = 7; path = codes "files/a.txt"; file_id = 5 });
}

-- A storage update and an activity come; the users of the first are found, the second is handled, and
-- then the first.
abbrev both_rounds : List (Round crates)
both_rounds =
    record {
      pubsub = ok [];
      call = λ c p. ok p;
      steps =
          arrives (record { channel_name = codes "notify_storage_update"; payload = [] })
          ∷ arrives (record { channel_name = codes "notify_activity"; payload = [] })
          ∷ handles 0 (from_secs 300) (request_at 300).clock
          ∷ [];
      meanwhile =
          (1, from_secs 300, (request_at 300).clock)
          ∷ (0, from_secs 500, (request_at 500).clock)
          ∷ [];
    }
    ∷ []

listen_loop-sent_example :
    crates.bc.sent 17 (listen_loop crates of_file both_rounds idle).app.hub.world
    ≡ told_all crates of_file (all_steps crates both_rounds) idle alice
listen_loop-sent_example = listen_loop-sent crates of_file both_rounds idle alice 17 alice-Owns refl

told_all-both :
    told_all crates of_file (all_steps crates both_rounds) idle alice
    ≡ Message.PushMessage.activity ∷ Message.PushMessage.file (Message.known (5 ∷ [])) ∷ []
unfolding select step run_pending handle_event send_to_user get_users_for_storage_path
    Message.updated_file on_event try_from subscribe
told_all-both = refl

all_steps-rounds :
    all_steps crates rounds
    ≡ arrives (record { channel_name = codes "notify_activity"; payload = [] })
      ∷ handles 0 (from_secs 300) (request_at 300).clock
      ∷ []
unfolding subscribe
all_steps-rounds = refl

told_all-alice : told_all crates of_alice steps idle alice ≡ Message.PushMessage.activity ∷ []
unfolding select step on_event try_from
told_all-alice = refl

abbrev json : Json ℕ
json = record { is_null = λ v. false; display = λ v. v ∷ []; ids_to_string = λ ids. ids }

abbrev opts : ConnectionOptions
opts = record {
  listen_file_id = false;
  max_debounce_time = 15;
  max_connection_time = from_secs 3600;
}

-- Alice connects at 300 s, is told at 301 s, and has a timeout at 320 s.
abbrev taken : List (ℕ × Socket.Event ℕ)
taken = (from_secs 301, message Message.PushMessage.activity) ∷ []

-- Alice and another user join a server on which nobody was.
abbrev visits : List (System.Event crates.bc crates.users)
visits = System.joins (record { hash = 4 }) ∷ System.joins alice ∷ []

abbrev quiet : crates.bc.World
quiet = record { count = 3; subscribed = λ j. 0; log = [] }

abbrev joined : Listening crates
joined = record {
  app = record app {
    hub =
        (System.run crates.bc crates.users (System.start crates.bc crates.users quiet) visits).hub;
  };
  spawned = [];
}

listen_loop-texts_example :
    (outs : List (ℕ × PushMessage ℕ)) × (texts
        (Socket.run json true opts
          (from_secs 300)
          ((from_secs 301, message Message.PushMessage.activity)
            ∷ (from_secs 320, elapsed 3 5)
            ∷ [])
          (start opts (from_secs 300))).1
      ≡ map (frame json opts (from_secs 300) false) outs)
    × ((topic : Topic)
        → is_told outs topic
          ≡ any
              (λ m. tells m topic)
              (told_all crates of_alice (all_steps crates rounds) joined alice))
unfolding start Socket.run Socket.step run step select on_event try_from handle_event send_to_user
    Message.push Message.drain Message.drain_item Message.default Message.debounce_time System.run
    System.start System.step System.join add listen_loop listen subscribe
listen_loop-texts_example =
    listen_loop-texts crates json opts quiet visits 0
      (record { user = alice; receiver = 4; leaving = false }) of_alice rounds joined taken
      (from_secs 300) (from_secs 301) 3 5 (from_secs 320) (λ j. refl) refl refl refl refl refl
      ((λ e. absurd (cc)), tt) (omega arith) (omega arith, tt) (omega arith) refl

-- A storage update waits for the database while an activity of alice is handled.
abbrev waiting : Listening crates
waiting = record {
  app = app;
  spawned =
      fresh (Event.storage_update (record { storage = 7; path = codes "files/a.txt"; file_id = 5 }))
      ∷ fresh (Event.activity (record { user = alice }))
      ∷ [];
}

told_from-waiting :
    told_from crates of_alice
      (handles 0 0 (request_at 300).clock
        ∷ handles 1 0 (request_at 300).clock
        ∷ handles 0 0 (request_at 300).clock
        ∷ [])
      (came (Event.storage_update (record { storage = 7; path = codes "files/a.txt"; file_id = 5 }))
        ∷ came (Event.activity (record { user = alice }))
        ∷ [])
      waiting
      alice
    ≡ Message.PushMessage.activity ∷ Message.PushMessage.file (Message.known (5 ∷ [])) ∷ []
unfolding select step run_pending handle_event send_to_user get_users_for_storage_path
    Message.updated_file
told_from-waiting = refl
