-- ===== src/Storage/Tasks/Kept.antt =====
-- src/storage_mapping.rs: what holds of the cache and of each look-up at every moment.
use notify_push.Common.{
  ℕ, ◌+◌, ◌*◌, ◌≤◌, ◌<◌, ◌≡◌, refl, ap, subst, ◌∙◌, List, some, true, false, Result, ok, err,
  nat_eq, nat_beq_sound, ◌==◌, from_secs, arith, Bool-cases, inl, inr,
}
use notify_push.Common.Text.{Str}
use notify_push.Dash.{DashMap}
use notify_push.Error.{DatabaseError}
use notify_push.Storage.{UserStorageAccess, CachedAccess, Database, StorageMapping, query, new}
use notify_push.Storage.Tasks.{
  At, asked, hit, loads, fills, inserts, gets, answered, panicked, Step, goes_on,
}

module _ {Options Pool X : Type 0} (sql : Database Options Pool X) (dm : DashMap ℕ CachedAccess)
    (pool : Pool) (prefix : Str) where
  -- The draw is from 4 minutes to below 5.
  abbrev pub InRange : Step sql dm → Type 0
  InRange (goes_on n range) = (4 * 60 * 1000 ≤ range) × (range < 5 * 60 * 1000)
  InRange _ = Unit {0}

  -- The database gave the answer for the storage at some time until now.
  abbrev pub Gave : ℕ → ℕ → Result (List UserStorageAccess) X → Type 0
  Gave clock storage answer =
      (at : ℕ) × (at ≤ clock) × (sql.fetch_all pool (query prefix storage) at ≡ answer)

  -- An entry was made at some time until now, of rows that the database had given for the storage, and
  -- is valid for at least 4 minutes from then and for less than 5.
  pub record MadeBy (clock storage : ℕ) (entry : CachedAccess) : Type 0 where
    pub made : ℕ
    pub not_after : made ≤ clock
    pub given : Gave made storage (ok entry.access)
    pub not_short : made + from_secs 240 ≤ entry.valid_till
    pub not_long : entry.valid_till < made + from_secs 300

  pub record GoodMapping (clock : ℕ) (s : StorageMapping sql dm) : Type 0 where
    pub same_pool : s.connection ≡ pool
    pub same_prefix : s.prefix ≡ prefix
    pub put : (k : ℕ) (entry : CachedAccess) → dm.get k s.cache ≡ some entry → MadeBy clock k entry

  -- The database refused the query at some time until now.
  abbrev pub Refused : ℕ → ℕ → DatabaseError X → Type 0
  Refused clock storage e = (x : X) × (e ≡ DatabaseError.query x) × Gave clock storage (err x)

  abbrev pub GoodAt : ℕ → StorageMapping sql dm → ℕ → At X → Type 0
  GoodAt clock s storage asked = Unit {0}
  GoodAt clock s storage (hit looked cached) =
      MadeBy looked storage cached × (looked < cached.valid_till)
  GoodAt clock s storage (loads looked) = Unit {0}
  GoodAt clock s storage (fills looked users) = Gave clock storage (ok users)
  GoodAt clock s storage (inserts looked cached) = MadeBy clock storage cached
  GoodAt clock s storage (gets looked) =
      (entry : CachedAccess) × (dm.get storage s.cache ≡ some entry)
  GoodAt clock s storage (answered looked (ok cached)) = MadeBy clock storage cached
  GoodAt clock s storage (answered looked (err e)) = Refused clock storage e
  GoodAt clock s storage panicked = true ≡ false

  some_injective : (a b : CachedAccess) → some a ≡ some b → a ≡ b
  some_injective a b e = ground arith

  pub MadeBy-later :
      (clock time storage : ℕ) (entry : CachedAccess)
      → MadeBy clock storage entry
      → MadeBy (clock + time) storage entry
  MadeBy-later clock time storage entry p = record {
    made = p.made;
    not_after = omega (arith, p.not_after);
    given = p.given;
    not_short = p.not_short;
    not_long = p.not_long;
  }

  pub GoodAt-later :
      (clock time : ℕ) (s : StorageMapping sql dm) (storage : ℕ) (at : At X)
      → GoodAt clock s storage at
      → GoodAt (clock + time) s storage at
  GoodAt-later clock time s storage asked g = tt
  GoodAt-later clock time s storage (hit looked cached) g = g
  GoodAt-later clock time s storage (loads looked) g = tt
  GoodAt-later clock time s storage (fills looked users) (at, early, e) = (at, omega arith, e)
  GoodAt-later clock time s storage (inserts looked cached) g =
      MadeBy-later clock time storage cached g
  GoodAt-later clock time s storage (gets looked) g = g
  GoodAt-later clock time s storage (answered looked (ok cached)) g =
      MadeBy-later clock time storage cached g
  GoodAt-later clock time s storage (answered looked (err e)) (x, same, (at, early, refused)) =
      (x, same, (at, omega arith, refused))
  GoodAt-later clock time s storage panicked g = g

  -- No step of another look-up takes an entry away.
  pub record Grows (s s' : StorageMapping sql dm) : Type 0 where
    pub keeps :
        (k : ℕ) (entry : CachedAccess)
        → dm.get k s.cache ≡ some entry
        → (new_entry : CachedAccess) × (dm.get k s'.cache ≡ some new_entry)

  pub same-Grows : (s s' : StorageMapping sql dm) → s'.cache ≡ s.cache → Grows s s'
  same-Grows s s' e = record { keeps = λ k entry f. (entry, ap (dm.get k) e ∙ f) }

  pub GoodAt-grow :
      (clock : ℕ) (s s' : StorageMapping sql dm) (storage : ℕ) (at : At X)
      → Grows s s'
      → GoodAt clock s storage at
      → GoodAt clock s' storage at
  GoodAt-grow clock s s' storage asked h g = tt
  GoodAt-grow clock s s' storage (hit looked cached) h g = g
  GoodAt-grow clock s s' storage (loads looked) h g = tt
  GoodAt-grow clock s s' storage (fills looked users) h g = g
  GoodAt-grow clock s s' storage (inserts looked cached) h g = g
  GoodAt-grow clock s s' storage (gets looked) h (entry, there) = h.keeps storage entry there
  GoodAt-grow clock s s' storage (answered looked (ok cached)) h g = g
  GoodAt-grow clock s s' storage (answered looked (err e)) h g = g
  GoodAt-grow clock s s' storage panicked h g = g

  -- The entry that a look-up makes.
  pub new-MadeBy :
      (clock storage range : ℕ) (users : List UserStorageAccess)
      → 4 * 60 * 1000 ≤ range
      → range < 5 * 60 * 1000
      → Gave clock storage (ok users)
      → MadeBy clock storage (new users clock range)
  unfolding new
  new-MadeBy clock storage range users long short given = record {
    made = clock;
    not_after = omega arith;
    given = given;
    not_short = omega arith;
    not_long = omega arith;
  }

  pub insert-Grows :
      (storage : ℕ) (cached : CachedAccess) (s : StorageMapping sql dm)
      → Grows s (record s { cache = dm.insert storage cached s.cache })
  insert-Grows storage cached s = record {
    keeps = λ k entry there. elim (Bool-cases (storage == k)) [
      | inl same ↦ (cached, rw (dm.get-insert, same) refl)
      | inr apart ↦ (entry, rw (dm.get-insert, apart) there)
    ];
  }

  pub insert-GoodMapping :
      (clock storage : ℕ) (cached : CachedAccess) (s : StorageMapping sql dm)
      → MadeBy clock storage cached
      → GoodMapping clock s
      → GoodMapping clock (record s { cache = dm.insert storage cached s.cache })
  insert-GoodMapping clock storage cached s fresh good = record {
    same_pool = good.same_pool;
    same_prefix = good.same_prefix;
    put = λ k entry e. elim (Bool-cases (storage == k)) [
      | inl same ↦
          subst (λ j. MadeBy clock j entry) (nat_beq_sound same)
            (subst (MadeBy clock storage)
              (some_injective cached entry (rw (dm.get-insert, same) at e)) fresh)
      | inr apart ↦ good.put k entry (rw (dm.get-insert, apart) at e)
    ];
  }
