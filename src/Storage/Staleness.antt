-- ===== src/Storage/Staleness.antt =====
-- src/storage_mapping.rs: how old an answer can be.
use notify_push.Common.{
  ℕ, ◌+◌, ◌*◌, ◌≤◌, ◌<◌, ◌≡◌, refl, sym, ap, ◌∙◌, List, [], ◌∷◌, ◌++◌, append_assoc, Option, none,
  some, true, Result, ok, err, ◌>>=◌, nat_eq, from_secs, arith, All, subst, Bool-cases, ◌==◌,
  nat_beq_sound, ◌⊎◌, inl, inr,
}
use notify_push.Common.Text.{Str}
use notify_push.User.{UserId}
use notify_push.Metrics.{Metrics}
use notify_push.Error.{DatabaseError}
use notify_push.Dash.{DashMap}
use notify_push.Storage.{
  UserStorageAccess, CachedAccess, Database, Clock, StorageMapping, from_connection, query,
  users_for_path, new, is_valid, valid_entry, loaded, fill, or_load, load_storage_mapping,
  get_storage_mapping, get_users_for_storage_path,
}

-- The clock does not go backwards, and the draw is in its range.
pub record IsTimely (clock : Clock) : Type 0 where
  pub asked_later : clock.looked ≤ clock.asked
  pub filled_later : clock.asked ≤ clock.filled
  pub range_above : 4 * 60 * 1000 ≤ clock.range
  pub range_below : clock.range < 5 * 60 * 1000

pub record Request : Type 0 where
  pub clock : Clock
  pub storage : ℕ
  pub path : Str

module _ {Options Pool X : Type 0} (sql : Database Options Pool X)
    (dm : DashMap ℕ CachedAccess) where
  -- The requests, one after the other.
  abbrev pub serve_all : List Request → StorageMapping sql dm → StorageMapping sql dm
  serve_all [] s = s
  serve_all (r ∷ rest) s =
      serve_all rest (get_users_for_storage_path sql dm r.clock r.storage r.path s).1

  -- The request was made, and there was no valid entry for its storage when it looked.
  abbrev pub HasLoaded : StorageMapping sql dm → List Request → Request → Type 0
  HasLoaded first made q =
      (earlier later : List Request) × (made ≡ earlier ++ q ∷ later)
      × (valid_entry sql dm q.clock.looked (dm.get q.storage (serve_all earlier first).cache)
          ≡ none)

  serve_all-append :
      (xs : List Request) (r : Request) (s : StorageMapping sql dm)
      → serve_all (xs ++ r ∷ []) s
        ≡ (get_users_for_storage_path sql dm r.clock r.storage r.path (serve_all xs s)).1
  serve_all-append [] r s = refl
  serve_all-append (x ∷ xs) r s =
      serve_all-append xs r (get_users_for_storage_path sql dm x.clock x.storage x.path s).1

  -- The database answered so to one of the requests, for the storage, which found no valid entry and
  -- put the answer in the cache less than five minutes before.
  abbrev pub IsRecent :
      StorageMapping sql dm → List Request → Pool → Str → ℕ → ℕ → List UserStorageAccess → Type 0
  IsRecent first made pool prefix storage now access =
      (q : Request) × HasLoaded first made q
      × (q.storage ≡ storage)
      × (sql.fetch_all pool (query prefix storage) q.clock.asked ≡ ok access)
      × (now < q.clock.filled + from_secs 300)

  -- The database answers so to the request itself.
  abbrev pub IsFetched : Pool → Str → Request → List UserStorageAccess → Type 0
  IsFetched pool prefix r access =
      sql.fetch_all pool (query prefix r.storage) r.clock.asked ≡ ok access

  -- An entry, whenever it is still valid, is recent.
  IsSound : StorageMapping sql dm → List Request → Pool → Str → ℕ → CachedAccess → Type 0
  IsSound first made pool prefix storage entry =
      (now : ℕ)
      → is_valid entry now ≡ true
      → IsRecent first made pool prefix storage now entry.access

  record IsGood (first : StorageMapping sql dm) (made : List Request) (pool : Pool) (prefix : Str)
      (s : StorageMapping sql dm) : Type 0 where
    same_pool : s.connection ≡ pool
    same_prefix : s.prefix ≡ prefix
    sound :
        (storage : ℕ) (entry : CachedAccess)
        → dm.get storage s.cache ≡ some entry
        → IsSound first made pool prefix storage entry

  new-IsSound :
      (first : StorageMapping sql dm) (made : List Request) (pool : Pool) (prefix : Str)
      (r : Request) (access : List UserStorageAccess)
      → IsTimely r.clock
      → HasLoaded first made r
      → IsFetched pool prefix r access
      → IsSound first made pool prefix r.storage (new access r.clock.filled r.clock.range)
  unfolding IsSound new is_valid
  new-IsSound first made pool prefix r access timely among e now valid =
      (r, among, refl, e, ground arith)

  -- An entry of the cache after an insertion is the new one or was there.
  put-IsSound :
      (first : StorageMapping sql dm) (made : List Request) (pool : Pool) (prefix : Str)
      (s : StorageMapping sql dm) (storage : ℕ) (entry : CachedAccess)
      → IsGood first made pool prefix s
      → IsSound first made pool prefix storage entry
      → (other : ℕ) (found : CachedAccess)
      → dm.get other (dm.insert storage entry s.cache) ≡ some found
      → IsSound first made pool prefix other found
  put-IsSound first made pool prefix s storage entry good h other found e =
      let new_found : storage == other ≡ true
          → some entry ≡ some found
          → IsSound first made pool prefix other found =
        λ same e.
          subst (λ k. IsSound first made pool prefix k found) (nat_beq_sound same)
            (subst (IsSound first made pool prefix storage) (ground arith) h) in
      elim (Bool-cases (storage == other)) [
        | inl same ↦ new_found same (rw (dm.get-insert, same) at e)
        | inr apart ↦ good.sound other found (rw (dm.get-insert, apart) at e)
      ]

  insert-IsGood :
      (first : StorageMapping sql dm) (made : List Request) (pool : Pool) (prefix : Str)
      (s : StorageMapping sql dm) (storage : ℕ) (entry : CachedAccess) (m : Metrics)
      → IsGood first made pool prefix s
      → IsSound first made pool prefix storage entry
      → IsGood first made pool prefix
          (record s { cache = dm.insert storage entry s.cache; metrics = m })
  insert-IsGood first made pool prefix s storage entry m good h = record {
    same_pool = good.same_pool;
    same_prefix = good.same_prefix;
    sound = put-IsSound first made pool prefix s storage entry good h;
  }

  -- What a request that is not served from the cache leads to.
  loaded-IsGood :
      (first : StorageMapping sql dm) (made : List Request) (pool : Pool) (prefix : Str)
      (s : StorageMapping sql dm) (r : Request) (answer : Result (List UserStorageAccess) X)
      → IsTimely r.clock
      → HasLoaded first made r
      → IsGood first made pool prefix s
      → sql.fetch_all pool (query prefix r.storage) r.clock.asked ≡ answer
      → IsGood first made pool prefix (fill sql dm r.clock r.storage (loaded sql dm answer s)).1
  unfolding fill loaded
  loaded-IsGood first made pool prefix s r (ok access) timely among good e =
      insert-IsGood first made pool prefix s r.storage _ _ good
        (new-IsSound first made pool prefix r access timely among e)
  loaded-IsGood first made pool prefix s r (err x) timely among good e = good

  loaded-IsFetched :
      (pool : Pool) (prefix : Str) (s : StorageMapping sql dm) (r : Request)
      (answer : Result (List UserStorageAccess) X) (entry : CachedAccess)
      → sql.fetch_all pool (query prefix r.storage) r.clock.asked ≡ answer
      → (fill sql dm r.clock r.storage (loaded sql dm answer s)).0 ≡ ok entry
      → IsFetched pool prefix r entry.access
  unfolding fill loaded new
  loaded-IsFetched pool prefix s r (ok access) entry e same = e ∙ ap ok (ground arith)
  loaded-IsFetched pool prefix s r (err x) entry e same = absurd (cc)

  pub valid_entry-some :
      (now : ℕ) (found : Option CachedAccess)
      → (valid_entry sql dm now found ≡ none)
        ⊎ ((entry : CachedAccess) × (valid_entry sql dm now found ≡ some entry)
            × (found ≡ some entry)
            × (is_valid entry now ≡ true))
  unfolding valid_entry is_valid
  valid_entry-some now none = inl refl
  valid_entry-some now (some entry) = elim (Bool-cases (is_valid entry now)) [
    | inl e ↦ inr (entry, rw e refl, refl, e)
    | inr e ↦ inl (rw e refl)
  ]

  ok_same :
      (a b : CachedAccess) → ◌≡◌ {A = Result CachedAccess (DatabaseError X)} (ok a) (ok b) → a ≡ b
  ok_same a b e = ground arith

  get_users-IsGood :
      (first : StorageMapping sql dm) (made : List Request) (pool : Pool) (prefix : Str)
      (s : StorageMapping sql dm) (r : Request)
      → IsTimely r.clock
      → (done rest : List Request) → made ≡ done ++ r ∷ rest
      → s ≡ serve_all done first
      → IsGood first made pool prefix s
      → IsGood first made pool prefix
          (get_users_for_storage_path sql dm r.clock r.storage r.path s).1
  unfolding get_users_for_storage_path get_storage_mapping load_storage_mapping or_load
  get_users-IsGood first made pool prefix s r timely done rest split reached good =
      elim (valid_entry-some r.clock.looked (dm.get r.storage s.cache)) [
        | inl e ↦
            rw (get_storage_mapping, e)
              (loaded-IsGood first made pool prefix s r
                (sql.fetch_all s.connection (query s.prefix r.storage) r.clock.asked) timely
                (done, rest, split, rw reached at e) good
                (rw (good.same_pool, good.same_prefix) refl))
        | inr (entry, e, found, valid) ↦ rw (get_storage_mapping, e) good
      ]

  get_storage_mapping-ok :
      (first : StorageMapping sql dm) (made : List Request) (pool : Pool) (prefix : Str)
      (s : StorageMapping sql dm) (r : Request) (got : CachedAccess)
      → IsGood first made pool prefix s
      → (get_storage_mapping sql dm r.clock r.storage s).0 ≡ ok got
      → IsRecent first made pool prefix r.storage r.clock.looked got.access
        ⊎ IsFetched pool prefix r got.access
  unfolding get_storage_mapping load_storage_mapping or_load IsSound
  get_storage_mapping-ok first made pool prefix s r got good same =
      elim (valid_entry-some r.clock.looked (dm.get r.storage s.cache)) [
        | inl e ↦ inr (
            loaded-IsFetched pool prefix s r
              (sql.fetch_all s.connection (query s.prefix r.storage) r.clock.asked) got
              (rw (good.same_pool, good.same_prefix) refl) (rw (get_storage_mapping, e) at same))
        | inr (entry, e, found, valid) ↦ inl (
            subst
              (λ (x : CachedAccess).
                IsRecent first made pool prefix r.storage r.clock.looked x.access)
              (ok_same entry got (rw (get_storage_mapping, e) at same))
              (good.sound r.storage entry found r.clock.looked valid))
      ]

  serve_all-IsGood :
      (first : StorageMapping sql dm) (made : List Request) (pool : Pool) (prefix : Str)
      (done rest : List Request) (s : StorageMapping sql dm)
      → made ≡ done ++ rest
      → s ≡ serve_all done first
      → All (λ r. IsTimely r.clock) rest
      → IsGood first made pool prefix s
      → IsGood first made pool prefix (serve_all rest s)
  serve_all-IsGood first made pool prefix done [] s e reached _ good = good
  serve_all-IsGood first made pool prefix done (r ∷ rest) s e reached (timely, later) good =
      serve_all-IsGood first made pool prefix (done ++ r ∷ []) rest _
        (e ∙ sym (append_assoc done (r ∷ []) rest))
        (ap (λ k. (get_users_for_storage_path sql dm r.clock r.storage r.path k).1) reached
          ∙ sym (serve_all-append done r first))
        later (get_users-IsGood first made pool prefix s r timely done rest e reached good)

  from_connection-IsGood :
      (first : StorageMapping sql dm) (made : List Request) (pool : Pool) (prefix : Str)
      (m : Metrics)
      → IsGood first made pool prefix (from_connection sql dm pool prefix m)
  unfolding from_connection
  from_connection-IsGood first made pool prefix m = record {
    same_pool = refl;
    same_prefix = refl;
    sound = λ storage entry e. absurd (ground (arith, dm.get-empty storage));
  }

  chosen :
      (path : Str) (cached : Result CachedAccess (DatabaseError X)) (users : List UserId)
      → (cached >>= λ c. ok (users_for_path path c.access)) ≡ ok users
      → (entry : CachedAccess) × (cached ≡ ok entry) × (users ≡ users_for_path path entry.access)
  chosen path (ok entry) users e = (entry, refl, ground arith)
  chosen path (err x) users e = absurd (cc)

  -- After any requests, the users that a request is answered with are those that the database named
  -- for the storage and the path: in its answer to the request itself, or in that to one of the
  -- requests before, for the same storage, which had found no valid entry and put the answer in the
  -- cache less than five minutes before this request looked, if the clock does not go backwards within a request and the draws are from
  -- four minutes to below five.
  pub get_users-IsRecent :
      (pool : Pool) (prefix : Str) (m : Metrics) (before : List Request) (r : Request)
      (users : List UserId)
      → All (λ q. IsTimely q.clock) before
      → (get_users_for_storage_path sql dm r.clock r.storage r.path
          (serve_all before (from_connection sql dm pool prefix m))).0
        ≡ ok users
      → (access : List UserStorageAccess) × (IsRecent
            (from_connection sql dm pool prefix m)
            before
            pool
            prefix
            r.storage
            r.clock.looked
            access
          ⊎ IsFetched pool prefix r access)
        × (users ≡ users_for_path r.path access)
  unfolding get_users_for_storage_path
  get_users-IsRecent pool prefix m before r users past e =
      let first = from_connection sql dm pool prefix m in
      let s = serve_all before first in
      let good =
        serve_all-IsGood first before pool prefix [] before _ refl refl past
          (from_connection-IsGood first before pool prefix m) in
      let (entry, cached, same) =
        chosen r.path (get_storage_mapping sql dm r.clock r.storage s).0 users e in
      (entry.access, get_storage_mapping-ok first before pool prefix s r entry good cached, same)
