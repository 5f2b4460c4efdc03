-- ===== src/Storage/Tasks.antt =====
-- src/storage_mapping.rs: `get_storage_mapping` of several tasks at the same time. What is atomic is a
-- call on the cache, the first with the test of the entry under its lock, a look at the clock, and the
-- answer of the database.
pub mod Kept
pub mod Answers
pub mod Ends
use notify_push.Common.{
  ℕ, zero, suc, ◌+◌, List, [], ◌∷◌, ◌++◌, Option, none, some, Result, ok, err, nat_eq,
}
use notify_push.Common.Text.{Str}
use notify_push.Error.{DatabaseError}
use notify_push.Metrics.{Metrics}
use notify_push.Dash.{DashMap}
use notify_push.Storage.{
  UserStorageAccess, CachedAccess, Database, StorageMapping, from_connection, new, valid_entry,
  load_storage_mapping,
}

-- Where a look-up stands, with the time at which it looked at the cache: before that, after its return
-- with the entry that was found then, waiting for the database, with the rows, with the entry that
-- is made of them, after its insertion, and after its return. `panicked` is an `unwrap` of nothing.
pub data At (X : Type 0) : Type 0 where
  asked : At X
  hit : (looked : ℕ) → CachedAccess → At X
  loads : (looked : ℕ) → At X
  fills : (looked : ℕ) → List UserStorageAccess → At X
  inserts : (looked : ℕ) → CachedAccess → At X
  gets : (looked : ℕ) → At X
  answered : (looked : ℕ) → Result CachedAccess (DatabaseError X) → At X
  panicked : At X

pub record Lookup (X : Type 0) : Type 0 where
  pub storage : ℕ
  pub at : At X

module _ {Options Pool X : Type 0} (sql : Database Options Pool X)
    (dm : DashMap ℕ CachedAccess) where
  -- The `if let` on the entry.
  unfoldable pub found : ℕ → Option CachedAccess → At X
  found now (some cached) = hit now cached
  found now none = loads now

  -- The `?` on the rows.
  unfoldable pub fetched : ℕ → Result (List UserStorageAccess) (DatabaseError X) → At X
  fetched looked (ok users) = fills looked users
  fetched looked (err e) = answered looked (err e)

  -- The `unwrap`.
  unfoldable pub unwrapped : ℕ → Option CachedAccess → At X
  unwrapped looked (some cached) = answered looked (ok cached)
  unwrapped looked none = panicked

  -- The next atomic step of a look-up, at a time; `range` is what it draws.
  unfoldable pub advance : ℕ → ℕ → ℕ → At X → StorageMapping sql dm → At X × StorageMapping sql dm
  unfolding found fetched unwrapped
  advance range clock storage asked s =
      (found clock (valid_entry sql dm clock (dm.get storage s.cache)), s)
  advance range clock storage (hit looked cached) s = (hit looked cached, s)
  advance range clock storage (loads looked) s =
      let (users, s) = load_storage_mapping sql dm clock storage s in (fetched looked users, s)
  advance range clock storage (fills looked users) s = (inserts looked (new users clock range), s)
  advance range clock storage (inserts looked cached) s =
      (gets looked, record s { cache = dm.insert storage cached s.cache })
  advance range clock storage (gets looked) s = (unwrapped looked (dm.get storage s.cache), s)
  advance range clock storage (answered looked result) s = (answered looked result, s)
  advance range clock storage panicked s = (panicked, s)

  -- The look-up at a place takes its next step.
  unfoldable pub advance_at :
      ℕ → ℕ → ℕ → List (Lookup X) → StorageMapping sql dm → List (Lookup X) × StorageMapping sql dm
  advance_at n range clock [] s = ([], s)
  advance_at zero range clock (l ∷ ls) s =
      let (at, s') = advance range clock l.storage l.at s in (record l { at = at } ∷ ls, s')
  advance_at (suc n) range clock (l ∷ ls) s =
      let (ls', s') = advance_at n range clock ls s in (l ∷ ls', s')

  pub record Race : Type 0 where
    pub clock : ℕ
    pub mapping : StorageMapping sql dm
    pub lookups : List (Lookup X)

  -- Time passes, a look-up of a storage is asked for, or the look-up at a place takes its next step,
  -- with what it draws.
  pub data Step : Type 0 where
    passes : ℕ → Step
    requests : ℕ → Step
    goes_on : (n range : ℕ) → Step

  unfoldable pub step : Step → Race → Race
  step (passes time) r = record r { clock = r.clock + time }
  step (requests storage) r = record r {
    lookups = r.lookups ++ record { storage = storage; at = asked } ∷ [];
  }
  step (goes_on n range) r =
      let (lookups, mapping) = advance_at n range r.clock r.lookups r.mapping in
      record r { lookups = lookups; mapping = mapping }

  unfoldable pub run : List Step → Race → Race
  run [] r = r
  run (s ∷ steps) r = run steps (step s r)

  unfoldable pub start : ℕ → Pool → Str → Metrics → Race
  start clock pool prefix metrics = record {
    clock = clock;
    mapping = from_connection sql dm pool prefix metrics;
    lookups = [];
  }
