-- ===== src/Storage/Tasks/Answers.antt =====
-- src/storage_mapping.rs: what look-ups are answered with, however they are interleaved.
use notify_push.Common.{
  ℕ, zero, suc, ◌*◌, ◌≤◌, ◌<◌, ◌≡◌, ◌≢◌, refl, subst, List, [], ◌∷◌, Option, some, Result, ok, err,
  nat_eq, nat_beq_self, arith, All, inl, inr,
}
use notify_push.Common.Text.{Str}
use notify_push.Metrics.{Metrics}
use notify_push.Dash.{DashMap}
use notify_push.Connection.System.Tasks.{All-map, All-append}
use notify_push.Storage.{
  UserStorageAccess, CachedAccess, Database, StorageMapping, from_connection, query, is_valid,
  valid_entry, loaded, load_storage_mapping,
}
use notify_push.Error.{DatabaseError}
use notify_push.Storage.Staleness.{valid_entry-some}
use notify_push.Storage.Tasks.{
  At, asked, hit, loads, fills, inserts, gets, answered, panicked, Lookup, found, fetched,
  unwrapped, advance, advance_at, Race, Step, passes, requests, goes_on, step, run, start,
}
use notify_push.Storage.Tasks.Kept.{
  InRange, MadeBy, Refused, GoodMapping, GoodAt, GoodAt-later, MadeBy-later, Grows, same-Grows,
  GoodAt-grow, new-MadeBy, insert-Grows, insert-GoodMapping,
}

module _ {Options Pool X : Type 0} (sql : Database Options Pool X) (dm : DashMap ℕ CachedAccess)
    (pool : Pool) (prefix : Str) where
  found-GoodAt :
      (clock storage : ℕ) (s : StorageMapping sql dm) (entry : Option CachedAccess)
      → ((cached : CachedAccess)
          → entry ≡ some cached
          → MadeBy sql dm pool prefix clock storage cached)
      → GoodAt sql dm pool prefix clock s storage
          (found sql dm clock (valid_entry sql dm clock entry))
  unfolding found is_valid
  found-GoodAt clock storage s entry h = elim (valid_entry-some sql dm clock entry) [
    | inl e ↦ rw e tt
    | inr (cached, e, there, valid) ↦ rw e (h cached there, ground arith)
  ]

  fetched-GoodAt :
      (clock storage looked : ℕ) (s : StorageMapping sql dm)
      (answer : Result (List UserStorageAccess) X)
      → sql.fetch_all pool (query prefix storage) clock ≡ answer
      → GoodMapping sql dm pool prefix clock s
      → let (users, s') = loaded sql dm answer s in
        GoodMapping sql dm pool prefix clock s'
        × Grows sql dm pool prefix s s'
        × GoodAt sql dm pool prefix clock s' storage (fetched sql dm looked users)
  unfolding loaded fetched
  fetched-GoodAt clock storage looked s (ok users) e good = (
    record { same_pool = good.same_pool; same_prefix = good.same_prefix; put = good.put },
    same-Grows sql dm pool prefix s _ refl,
    (clock, omega arith, e),
  )
  fetched-GoodAt clock storage looked s (err x) e good =
      (good, same-Grows sql dm pool prefix s s refl, (x, refl, (clock, omega arith, e)))

  unwrapped-GoodAt :
      (clock storage looked : ℕ) (s : StorageMapping sql dm) (entry : CachedAccess)
      → dm.get storage s.cache ≡ some entry
      → GoodMapping sql dm pool prefix clock s
      → GoodAt sql dm pool prefix clock s storage (unwrapped sql dm looked (dm.get storage s.cache))
  unfolding unwrapped
  unwrapped-GoodAt clock storage looked s entry there good = rw there (good.put storage entry there)

  advance-GoodAt :
      (range clock storage : ℕ) (at : At X) (s : StorageMapping sql dm)
      → (4 * 60 * 1000 ≤ range) × (range < 5 * 60 * 1000)
      → GoodMapping sql dm pool prefix clock s
      → GoodAt sql dm pool prefix clock s storage at
      → let (at', s') = advance sql dm range clock storage at s in
        GoodMapping sql dm pool prefix clock s'
        × Grows sql dm pool prefix s s'
        × GoodAt sql dm pool prefix clock s' storage at'
  unfolding advance
  advance-GoodAt range clock storage asked s short good g = (
    good,
    same-Grows sql dm pool prefix s s refl,
    found-GoodAt clock storage s (dm.get storage s.cache) (good.put storage),
  )
  advance-GoodAt range clock storage (hit looked cached) s short good g =
      (good, same-Grows sql dm pool prefix s s refl, g)
  advance-GoodAt range clock storage (loads looked) s short good g =
      unfold load_storage_mapping in
      fetched-GoodAt clock storage looked s
        (sql.fetch_all s.connection (query s.prefix storage) clock)
        (rw (good.same_pool, good.same_prefix) refl) good
  advance-GoodAt range clock storage (fills looked users) s short good g = (
    good,
    same-Grows sql dm pool prefix s s refl,
    new-MadeBy sql dm pool prefix clock storage range users short.0 short.1 g,
  )
  advance-GoodAt range clock storage (inserts looked cached) s short good g = (
    insert-GoodMapping sql dm pool prefix clock storage cached s g good,
    insert-Grows sql dm pool prefix storage cached s,
    (cached, rw (dm.get-insert, nat_beq_self storage) refl),
  )
  advance-GoodAt range clock storage (gets looked) s short good (entry, there) = (
    good,
    same-Grows sql dm pool prefix s s refl,
    unwrapped-GoodAt clock storage looked s entry there good,
  )
  advance-GoodAt range clock storage (answered looked (ok cached)) s short good g =
      (good, same-Grows sql dm pool prefix s s refl, g)
  advance-GoodAt range clock storage (answered looked (err e)) s short good g =
      (good, same-Grows sql dm pool prefix s s refl, g)
  advance-GoodAt range clock storage panicked s short good g =
      (good, same-Grows sql dm pool prefix s s refl, g)

  abbrev Good : ℕ → StorageMapping sql dm → List (Lookup X) → Type 0
  Good clock s = All (λ l. GoodAt sql dm pool prefix clock s l.storage l.at)

  advance_at-GoodAt :
      (n range clock : ℕ) (ls : List (Lookup X)) (s : StorageMapping sql dm)
      → (4 * 60 * 1000 ≤ range) × (range < 5 * 60 * 1000)
      → GoodMapping sql dm pool prefix clock s
      → Good clock s ls
      → let (ls', s') = advance_at sql dm n range clock ls s in
        GoodMapping sql dm pool prefix clock s' × Grows sql dm pool prefix s s' × Good clock s' ls'
  unfolding advance_at
  advance_at-GoodAt n range clock [] s short good gs =
      (good, same-Grows sql dm pool prefix s s refl, tt)
  advance_at-GoodAt zero range clock (l ∷ ls) s short good (g, gs) =
      let (good', grows, g') = advance-GoodAt range clock l.storage l.at s short good g in
      (
        good',
        grows,
        (g', All-map ls gs (λ l. GoodAt-grow sql dm pool prefix clock s _ l.storage l.at grows)),
      )
  advance_at-GoodAt (suc n) range clock (l ∷ ls) s short good (g, gs) =
      let (good', grows, gs') = advance_at-GoodAt n range clock ls s short good gs in
      (good', grows, (GoodAt-grow sql dm pool prefix clock s _ l.storage l.at grows g, gs'))

  record GoodRace (r : Race sql dm) : Type 0 where
    mapping_good : GoodMapping sql dm pool prefix r.clock r.mapping
    lookups_good : Good r.clock r.mapping r.lookups

  step-GoodRace :
      (st : Step sql dm) (r : Race sql dm)
      → InRange sql dm pool prefix st
      → GoodRace r
      → GoodRace (step sql dm st r)
  unfolding step
  step-GoodRace (passes time) r _ g = record {
    mapping_good = record {
      same_pool = g.mapping_good.same_pool;
      same_prefix = g.mapping_good.same_prefix;
      put = λ k entry e.
          MadeBy-later sql dm pool prefix r.clock time k entry (g.mapping_good.put k entry e);
    };
    lookups_good =
        All-map r.lookups g.lookups_good
          (λ l. GoodAt-later sql dm pool prefix r.clock time r.mapping l.storage l.at);
  }
  step-GoodRace (requests storage) r _ g = record {
    mapping_good = g.mapping_good;
    lookups_good = All-append _ r.lookups _ g.lookups_good tt;
  }
  step-GoodRace (goes_on n range) r short g =
      let (good, grows, gs) =
        advance_at-GoodAt n range r.clock r.lookups r.mapping short g.mapping_good g.lookups_good in
      record { mapping_good = good; lookups_good = gs }

  run-GoodRace :
      (steps : List (Step sql dm)) (r : Race sql dm)
      → All (InRange sql dm pool prefix) steps
      → GoodRace r
      → GoodRace (run sql dm steps r)
  unfolding run
  run-GoodRace [] r short g = g
  run-GoodRace (st ∷ steps) r short g =
      run-GoodRace steps (step sql dm st r) short.1 (step-GoodRace st r short.0 g)

  start-GoodRace :
      (clock : ℕ) (metrics : Metrics) → GoodRace (start sql dm clock pool prefix metrics)
  unfolding start from_connection
  start-GoodRace clock metrics = record {
    mapping_good = record {
      same_pool = refl;
      same_prefix = refl;
      put = λ k entry e. absurd (ground (arith, dm.get-empty k));
    };
    lookups_good = tt;
  }

  -- What is true of a look-up at a time. It has not panicked. An entry that it found valid had been
  -- made by the time at which it looked, was valid still, and had been made less than 5 minutes
  -- before; an entry that it got after a query was made by now; each is made of rows that the
  -- database gave for the storage. An error is one that the database gave for the storage.
  pub record IsAnswered (clock : ℕ) (l : Lookup X) : Type 0 where
    pub no_panic : l.at ≢ panicked
    pub found_valid :
        (looked : ℕ) (cached : CachedAccess)
        → l.at ≡ hit looked cached
        → MadeBy sql dm pool prefix looked l.storage cached × (looked < cached.valid_till)
    pub given :
        (looked : ℕ) (cached : CachedAccess)
        → l.at ≡ answered looked (ok cached)
        → MadeBy sql dm pool prefix clock l.storage cached
    pub refused :
        (looked : ℕ) (e : DatabaseError X)
        → l.at ≡ answered looked (err e)
        → Refused sql dm pool prefix clock l.storage e

  GoodAt-IsAnswered :
      (clock : ℕ) (s : StorageMapping sql dm) (l : Lookup X)
      → GoodAt sql dm pool prefix clock s l.storage l.at
      → IsAnswered clock l
  GoodAt-IsAnswered clock s l g =
      let moved : (at : At X) → l.at ≡ at → GoodAt sql dm pool prefix clock s l.storage at =
        λ at e. subst (GoodAt sql dm pool prefix clock s l.storage) e g in
      record {
        no_panic = λ e. absurd (cc (moved panicked e));
        found_valid = λ looked cached e. moved (hit looked cached) e;
        given = λ looked cached e. moved (answered looked (ok cached)) e;
        refused = λ looked error e. moved (answered looked (err error)) e;
      }

  -- However look-ups and the time interleave from the start, if the draws are from 4 minutes to below
  -- 5: no look-up panics in its `unwrap`. One that returns what it found in the cache has an
  -- entry that was made, less than 5 minutes before it looked, of rows that the database had given
  -- for the storage. One that returns what it got after a query has an entry that was made by
  -- now of such rows. One that returns an error has one that the database gave for the storage.
  pub run-IsAnswered :
      (steps : List (Step sql dm)) (clock : ℕ) (metrics : Metrics)
      → All (InRange sql dm pool prefix) steps
      → let r = run sql dm steps (start sql dm clock pool prefix metrics) in
        All (IsAnswered r.clock) r.lookups
  run-IsAnswered steps clock metrics short =
      let r = run sql dm steps (start sql dm clock pool prefix metrics) in
      All-map r.lookups
        (run-GoodRace steps (start sql dm clock pool prefix metrics) short
          (start-GoodRace clock metrics)).lookups_good
        (λ l g. GoodAt-IsAnswered r.clock r.mapping l g)
