-- ===== src/Metrics.antt =====
-- src/metrics.rs: the counters. An `AtomicUsize` wraps around in `fetch_add` and `fetch_sub`.
pub mod Balance
use notify_push.Common.{ℕ, ◌+◌, ◌-◌, ◌%◌, List, ◌++◌, usize_mod}
use notify_push.Common.Text.{Str, codes}
use notify_push.Common.Decimal.{to_string}

pub record Metrics : Type 0 where
  pub active_connection_count : ℕ
  pub active_user_count : ℕ
  pub total_connection_count : ℕ
  pub mapping_query_count : ℕ
  pub events_received : ℕ
  pub messages_sent : ℕ

unfoldable pub fetch_add : ℕ → ℕ → ℕ
fetch_add a n = (a + n) % usize_mod

unfoldable pub fetch_sub : ℕ → ℕ → ℕ
fetch_sub a n = (a + usize_mod - n) % usize_mod

unfoldable pub new : Metrics
new = record {
  active_connection_count = 0;
  active_user_count = 0;
  total_connection_count = 0;
  mapping_query_count = 0;
  events_received = 0;
  messages_sent = 0;
}

unfoldable pub add_connection : Metrics → Metrics
unfolding fetch_add
add_connection m = record m {
  total_connection_count = fetch_add m.total_connection_count 1;
  active_connection_count = fetch_add m.active_connection_count 1;
}

unfoldable pub remove_connection : Metrics → Metrics
unfolding fetch_sub
remove_connection m = record m { active_connection_count = fetch_sub m.active_connection_count 1 }

unfoldable pub add_user : Metrics → Metrics
unfolding fetch_add
add_user m = record m { active_user_count = fetch_add m.active_user_count 1 }

unfoldable pub remove_user : Metrics → Metrics
unfolding fetch_sub
remove_user m = record m { active_user_count = fetch_sub m.active_user_count 1 }

unfoldable pub add_mapping_query : Metrics → Metrics
unfolding fetch_add
add_mapping_query m = record m { mapping_query_count = fetch_add m.mapping_query_count 1 }

unfoldable pub add_event : Metrics → Metrics
unfolding fetch_add
add_event m = record m { events_received = fetch_add m.events_received 1 }

unfoldable pub add_message : Metrics → Metrics
unfolding fetch_add
add_message m = record m { messages_sent = fetch_add m.messages_sent 1 }

-- The record that is serialized for the `notify_push_metrics` key.
pub record SerializeMetrics : Type 0 where
  pub active_connection_count : ℕ
  pub active_user_count : ℕ
  pub total_connection_count : ℕ
  pub mapping_query_count : ℕ
  pub events_received : ℕ
  pub messages_sent : ℕ

unfoldable pub serialize_metrics : Metrics → SerializeMetrics
serialize_metrics metrics = record {
  active_connection_count = metrics.active_connection_count;
  active_user_count = metrics.active_user_count;
  total_connection_count = metrics.total_connection_count;
  mapping_query_count = metrics.mapping_query_count;
  events_received = metrics.events_received;
  messages_sent = metrics.messages_sent;
}

-- `writeln!` of a name and a number.
line : Str → ℕ → Str
line name n = name ++ to_string n ++ codes "\n"

-- The body of the `metrics` page.
unfoldable pub metrics_page : Metrics → Str
unfolding line
metrics_page metrics =
    line (codes "active_connection_count ") metrics.active_connection_count
    ++ line (codes "active_user_count ") metrics.active_user_count
    ++ line (codes "total_connection_count ") metrics.total_connection_count
    ++ line (codes "mapping_query_count ") metrics.mapping_query_count
    ++ line (codes "event_count_total ") metrics.events_received
    ++ line (codes "message_count_total ") metrics.messages_sent
