-- ===== src/Examples/Races.antt =====
-- src/connection.rs, src/storage_mapping.rs: runs of tasks at the same time, and instances.
use notify_push.Common.{
  ℕ, ◌≤◌, ◌<◌, leb, ltb, ◌&&◌, true, ◌≡◌, refl, List, [], ◌∷◌, ◌++◌, map, nat_eq, arith, from_secs,
  All,
}
use notify_push.Common.Text.{codes, str_eq}
use notify_push.Metrics as Counters
use notify_push.Storage.Tasks as Lookups
use notify_push.Storage.Tasks.{Lookup, asked}
use notify_push.Storage.Tasks.Kept.{InRange}
use notify_push.Storage.Tasks.Answers.{IsAnswered, run-IsAnswered}
use notify_push.Storage.Tasks.Ends.{Ended, run-answered}
use notify_push.Connection.Auth.Race.{
  Step, passes, announces, inserts, insert_at, connects, goes_on, run, start, let_in, asks_server,
  step, advance, advance_at, admitted,
}
use notify_push.Connection.Auth.Race.Once.{won, run-once}
use notify_push.Examples.Servers.{tokens, alice}
use notify_push.Examples.Whole.{accesses, cache}

-- Two logins with the same token, whose steps alternate.
abbrev rivals : List (Step tokens)
rivals =
    announces (codes "tok") alice
    ∷ inserts 0
    ∷ connects (codes "tok")
    ∷ connects (codes "tok")
    ∷ passes (from_secs 3)
    ∷ goes_on 0
    ∷ goes_on 1
    ∷ goes_on 0
    ∷ goes_on 1
    ∷ goes_on 1
    ∷ goes_on 0
    ∷ []

-- The second comes first.
run-rivals :
    map (λ l. l.at) (run tokens rivals (start tokens (from_secs 200))).logins
    ≡ asks_server ∷ let_in (from_secs 203) (from_secs 200) alice ∷ []
unfolding run step advance_at advance admitted start insert_at
run-rivals = refl

run-once_example :
    won tokens (codes "tok") alice (run tokens rivals (start tokens (from_secs 200))).logins ≤ 1
run-once_example = run-once tokens (codes "tok") alice rivals (from_secs 200)

-- Two look-ups of a storage that the cache does not have.
abbrev asked_twice : List (Lookups.Step accesses cache)
asked_twice = Lookups.requests 7 ∷ Lookups.requests 7 ∷ Lookups.goes_on 1 240000 ∷ []

abbrev both_go : List (Lookups.Step accesses cache)
both_go =
    Lookups.goes_on 0 240000
    ∷ Lookups.goes_on 1 240000
    ∷ Lookups.goes_on 0 240000
    ∷ Lookups.passes (from_secs 120)
    ∷ Lookups.goes_on 0 250000
    ∷ Lookups.goes_on 1 260000
    ∷ Lookups.goes_on 0 240000
    ∷ Lookups.goes_on 1 240000
    ∷ Lookups.goes_on 0 240000
    ∷ []

in_range :
    (range : ℕ) → leb 240000 range && ltb range 300000 ≡ true → (240000 ≤ range) × (range < 300000)
in_range range h = ground arith

draws_InRange : All (InRange accesses cache [] []) (asked_twice ++ both_go)
draws_InRange = (
  tt,
  (
    tt,
    (
      in_range 240000 refl,
      (
        in_range 240000 refl,
        (
          in_range 240000 refl,
          (
            in_range 240000 refl,
            (
              tt,
              (
                in_range 250000 refl,
                (
                  in_range 260000 refl,
                  (in_range 240000 refl, (in_range 240000 refl, (in_range 240000 refl, tt))),
                ),
              ),
            ),
          ),
        ),
      ),
    ),
  ),
)

abbrev both_gone : Lookups.Race accesses cache
both_gone =
    Lookups.run accesses cache (asked_twice ++ both_go)
      (Lookups.start accesses cache (from_secs 300) [] [] Counters.new)

run-IsAnswered_example : All (IsAnswered accesses cache [] [] both_gone.clock) both_gone.lookups
run-IsAnswered_example =
    run-IsAnswered accesses cache [] [] (asked_twice ++ both_go) (from_secs 300) Counters.new
      draws_InRange

run-answered_example : Ended accesses cache [] [] 0 7 both_gone
unfolding Lookups.run Lookups.step Lookups.advance_at Lookups.start
run-answered_example =
    run-answered accesses cache asked_twice both_go (from_secs 300) 0 [] [] Counters.new
      (record { storage = 7; at = asked }) draws_InRange refl (omega arith)
