-- ===== src/Metrics/Balance.antt =====
-- src/metrics.rs: the counters over any interleaving of the calls.
use notify_push.Common.{ℕ, ◌+◌, ◌-◌, ◌%◌, ◌≤◌, ◌<◌, ◌≡◌, refl, List, [], ◌∷◌, arith, usize_mod}
use notify_push.Metrics.{
  Metrics, new, add_connection, remove_connection, add_user, remove_user, add_mapping_query,
  add_event, add_message,
}

-- The calls that change the counters.
pub data Call : Type 0 where
  adds_connection removes_connection adds_user removes_user : Call
  adds_mapping_query adds_event adds_message : Call

apply : Metrics → Call → Metrics
apply m adds_connection = add_connection m
apply m removes_connection = remove_connection m
apply m adds_user = add_user m
apply m removes_user = remove_user m
apply m adds_mapping_query = add_mapping_query m
apply m adds_event = add_event m
apply m adds_message = add_message m

pub apply_all : Metrics → List Call → Metrics
apply_all m [] = m
apply_all m (c ∷ cs) = apply_all (apply m c) cs

-- How often a kind of call occurs, by its indicator.
abbrev pub tally : (Call → ℕ) → List Call → ℕ
tally f [] = 0
tally f (c ∷ cs) = f c + tally f cs

abbrev pub is_add : Call → ℕ
is_add adds_connection = 1
is_add _ = 0

abbrev pub is_remove : Call → ℕ
is_remove removes_connection = 1
is_remove _ = 0

abbrev pub is_add_user : Call → ℕ
is_add_user adds_user = 1
is_add_user _ = 0

abbrev pub is_remove_user : Call → ℕ
is_remove_user removes_user = 1
is_remove_user _ = 0

abbrev pub is_message : Call → ℕ
is_message adds_message = 1
is_message _ = 0

-- How the counters stand after `adds`, `removes`, `users`, `leavers` and `sent` calls.
record Counts (m : Metrics) (adds removes users leavers sent : ℕ) : Type 0 where
  active : (m.active_connection_count + removes) % usize_mod ≡ adds % usize_mod
  small : m.active_connection_count < usize_mod
  total : m.total_connection_count ≡ adds % usize_mod
  user : (m.active_user_count + leavers) % usize_mod ≡ users % usize_mod
  user_small : m.active_user_count < usize_mod
  message : m.messages_sent ≡ sent % usize_mod

apply-Counts :
    (m : Metrics) (c : Call) (adds removes users leavers sent : ℕ)
    → Counts m adds removes users leavers sent
    → Counts
        (apply m c)
        (is_add c + adds)
        (is_remove c + removes)
        (is_add_user c + users)
        (is_remove_user c + leavers)
        (is_message c + sent)
unfolding apply add_connection remove_connection add_user remove_user add_mapping_query add_event
    add_message
apply-Counts m c adds removes users leavers sent h = ground arith

apply_all-Counts :
    (m : Metrics) (cs : List Call) (adds removes users leavers sent : ℕ)
    → Counts m adds removes users leavers sent
    → Counts
        (apply_all m cs)
        (tally is_add cs + adds)
        (tally is_remove cs + removes)
        (tally is_add_user cs + users)
        (tally is_remove_user cs + leavers)
        (tally is_message cs + sent)
unfolding apply_all
apply_all-Counts m [] adds removes users leavers sent h = omega arith
apply_all-Counts m (c ∷ cs) adds removes users leavers sent h =
    let r =
      apply_all-Counts (apply m c) cs _ _ _ _ _
        (apply-Counts m c adds removes users leavers sent h) in
    record {
      active = omega (arith, r.active);
      small = r.small;
      total = omega (arith, r.total);
      user = omega (arith, r.user);
      user_small = r.user_small;
      message = omega (arith, r.message);
    }

-- From the start, whatever the order in which the threads' calls take effect, and also where a
-- counter passes below 0 on the way: the gauges are the differences of the calls that raise and
-- lower them, and the totals are the numbers of calls, modulo the word size.
pub apply_all-new :
    (cs : List Call)
    → tally is_remove cs ≤ tally is_add cs
    → tally is_add cs - tally is_remove cs < usize_mod
    → tally is_remove_user cs ≤ tally is_add_user cs
    → tally is_add_user cs - tally is_remove_user cs < usize_mod
    → let m = apply_all new cs in
      (m.active_connection_count ≡ tally is_add cs - tally is_remove cs)
      × (m.active_user_count ≡ tally is_add_user cs - tally is_remove_user cs)
      × (m.total_connection_count ≡ tally is_add cs % usize_mod)
      × (m.messages_sent ≡ tally is_message cs % usize_mod)
unfolding new
apply_all-new cs h k u v =
    let zeros : Counts new 0 0 0 0 0 = record {
      active = refl;
      small = omega arith;
      total = refl;
      user = refl;
      user_small = omega arith;
      message = refl;
    } in
    let r = apply_all-Counts new cs 0 0 0 0 0 zeros in
    (
      omega (arith, r.active, r.small),
      omega (arith, r.user, r.user_small),
      omega (arith, r.total),
      omega (arith, r.message),
    )
