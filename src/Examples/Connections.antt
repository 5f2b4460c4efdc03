-- ===== src/Examples/Connections.antt =====
-- src/connection.rs: runs of connections, and instances.
use notify_push.Common.{
  ok, ℕ, ◌++◌, ◌%◌, usize_mod, ◌≤◌, ◌≡◌, ◌≢◌, ◌↔◌, refl, List, [], ◌∷◌, map, none, some, true,
  false, arith, from_secs, nat_eq, length, All,
}
use notify_push.Common.Text.{codes}
use notify_push.Ws.{text, pong, Json}
use notify_push.User.{UserId, user_eq}
use notify_push.Dash.{DashMap, function_map}
use notify_push.Broadcast.{Broadcast, Channels, counting}
use notify_push.Message.{PushMessage, file, known, activity, drain, default}
use notify_push.Message as Queue
use notify_push.Connection.System.{Event, joins, leaves, run, start}
use notify_push.Connection.System.Tasks.{count}
use notify_push.Connection.System.Invariant.{source, entry}
use notify_push.Connection.System.Limit.{run-reaches, run-limit, run-repeat_join, repeat_join}
use notify_push.Connection.System.{step, join, leave, select}
use notify_push.Connection.Active.{Hub, add, remove}
use notify_push.Connection.Handshake.{finished}
use notify_push.Connection.Life.{handle_user_socket}
use notify_push.Connection.Life.Whole.{Restored, handle_user_socket-Restored}
use notify_push.Metrics as Counters
use notify_push.Connection.System.Gauge.{running, run-running}
use notify_push.Connection.Socket.Gone.{run-ends}
use notify_push.Connection.System.Leak.{run-close_both, close_both}
use notify_push.Connection.Socket as Socket
use notify_push.Connection.Socket.{
  Loop, ConnectionOptions, elapsed, message, client, to_le_bytes, no_pong,
}
use notify_push.Connection.Socket.Keepalive.{on_client-pong_iff, run-is_late}
use notify_push.Connection.Socket.Frames.{run-play, texts, frame, ops_of}
use notify_push.Connection.Socket.Debounce.{on_elapsed_scale}
use notify_push.Message.History.{play}

abbrev channels : Broadcast (PushMessage ℕ)
channels = counting (PushMessage ℕ)

abbrev users : DashMap UserId ℕ
users = function_map UserId ℕ

abbrev quiet : Channels (PushMessage ℕ)
quiet = record { count = 3; subscribed = λ j. 0; log = [] }

abbrev alice : UserId
alice = record { hash = 17 }

abbrev bob : UserId
bob = record { hash = 4 }

abbrev visits : List (Event channels users)
visits = joins alice ∷ joins bob ∷ joins alice ∷ leaves 0 ∷ []

run-reaches_example :
    All
      (λ t.
        (t.leaving ≡ false
          → entry channels users t.user
              (run channels users (start channels users quiet) visits).hub.connections
            ≡ some (source channels users t))
        × ((u : UserId)
            → entry channels users u
                (run channels users (start channels users quiet) visits).hub.connections
              ≡ some (source channels users t)
            → u ≡ t.user))
      (run channels users (start channels users quiet) visits).tasks
run-reaches_example = run-reaches channels users quiet visits (λ j. refl)

run-limit_example :
    count (source channels users) 3 (run channels users (start channels users quiet) visits).tasks
    ≤ 65
run-limit_example = run-limit channels users quiet visits 3 (λ k. refl)

run-repeat_join_example :
    length
      (run channels users (start channels users quiet) (repeat_join channels users 70 alice)).tasks
    ≡ 65
run-repeat_join_example = run-repeat_join channels users quiet alice 70

run-close_both_example :
    entry channels users alice
      (run channels users
        (start channels users quiet)
        (close_both channels users alice)).hub.connections
    ≡ some 3
run-close_both_example = (run-close_both channels users quiet alice).1

abbrev json : Json ℕ
json = record { is_null = λ v. false; display = λ v. v ∷ []; ids_to_string = λ ids. ids }

abbrev opts : ConnectionOptions
opts = record {
  listen_file_id = false;
  max_debounce_time = 15;
  max_connection_time = from_secs 3600;
}

abbrev pinged : Loop ℕ
pinged = record {
  send_queue = default (from_secs 200);
  last_send = from_secs 300;
  expect_pong = 77;
  listen_file_id = false;
  ended = none;
}

on_client-pong_iff_example :
    ((Socket.on_client json true opts (from_secs 200) (pong (to_le_bytes 78)) pinged).ended ≡ none)
    ↔ (◌≡◌ {A = ℕ} 78 77)
on_client-pong_iff_example =
    (on_client-pong_iff json true opts (from_secs 200) 78 pinged refl (omega arith) (omega arith)).0

abbrev late : List (ℕ × Socket.Event ℕ)
late = (from_secs 4000, elapsed 3 5) ∷ []

run-is_late_example : (Socket.run json true opts (from_secs 200) late pinged).0.ended ≢ none
run-is_late_example = (run-is_late json true opts (from_secs 200) late pinged refl).0 refl

abbrev updates : List (ℕ × Socket.Event ℕ)
updates =
    (from_secs 301, message (file (known (5 ∷ []))))
    ∷ (from_secs 302, client (text (codes "hi")))
    ∷ (from_secs 320, elapsed 3 5)
    ∷ []

run-play_example :
    texts (Socket.run json true opts (from_secs 200) updates pinged).1
    ≡ map
        (frame json opts (from_secs 200) false)
        (play 15 (default (from_secs 200)) (ops_of updates)).1
unfolding Socket.run Socket.step Socket.on_client Socket.on_message Socket.on_elapsed drain
    Queue.drain_item Queue.push Queue.merge Queue.debounce_time Queue.item_mut default
run-play_example =
    (run-play json opts (from_secs 200) updates pinged refl (λ h. cc, (λ h. cc, (λ h. cc, tt)))
      refl).1

on_elapsed_scale_example :
    Socket.on_elapsed json true opts (from_secs 200) 2 5 (from_secs 331) pinged
    ≡ Socket.on_elapsed json true opts (from_secs 200) 90000 5 (from_secs 331) pinged
on_elapsed_scale_example =
    on_elapsed_scale json true opts (from_secs 200) 2 90000 5 (from_secs 331) pinged (omega arith)
      (omega arith) (omega arith)

-- A client that is connected at 200 s and then only asks for the ids of files.
run-ends_example :
    (Socket.run json true opts
      (from_secs 200)
      ((from_secs 201, elapsed 3 5)
          ∷ ((from_secs 202, client (text (codes "listen notify_file_id"))) ∷ [])
        ++ (from_secs 232, elapsed 3 9) ∷ [])
      (Socket.start opts (from_secs 200))).0.ended
    ≢ none
run-ends_example =
    run-ends json true opts (from_secs 200)
      ((from_secs 202, client (text (codes "listen notify_file_id"))) ∷ []) 3 5 (from_secs 201) 3 9
      (from_secs 232) (tt, tt) (omega arith) (omega arith) (omega arith) (omega arith)

run-running_example :
    (run channels users (start channels users quiet) visits).hub.metrics.active_connection_count
    ≡ running channels users (run channels users (start channels users quiet) visits).tasks
      % usize_mod
run-running_example = run-running channels users quiet visits

-- Three have come, and one is closing.
running-visits :
    running channels users (run channels users (start channels users quiet) visits).tasks ≡ 2
unfolding run step join leave start select add remove
running-visits = refl

abbrev empty : Hub channels users
empty = record { connections = users.empty; world = quiet; metrics = Counters.new }

-- While alice is connected she is told once.
abbrev others : Hub channels users → Hub channels users
others hub = record hub { world = channels.send 3 activity hub.world }

handle_user_socket-Restored_example :
    let (sent, done, after) =
      handle_user_socket {X = ℕ}
        (λ n. [])
        (λ x. [])
        channels
        users
        json
        true
        opts
        (finished (ok alice))
        (from_secs 200)
        ((from_secs 201, message activity) ∷ [])
        others
        empty in
    (sent ≡ text (codes "authenticated") ∷ [])
    × (done
        ≡ (Socket.run json true opts
            (from_secs 200)
            ((from_secs 201, message activity) ∷ [])
            (Socket.start opts (from_secs 200))).1)
    × Restored (λ n. []) (λ (x : ℕ). []) channels users json true empty after
unfolding Counters.new
handle_user_socket-Restored_example =
    handle_user_socket-Restored (λ n. []) (λ (x : ℕ). []) channels users json true opts alice
      (from_secs 200) ((from_secs 201, message activity) ∷ []) others empty refl (omega arith)
      (record { connections_same = refl; receivers_same = λ j. refl; gauge_same = refl })
