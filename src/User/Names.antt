-- ===== src/User/Names.antt =====
-- src/user.rs: which names the log shows.
use notify_push.Common.{
  ℕ, List, [], ◌∷◌, some, Bool, true, false, ◌≡◌, nat_eq, nat_beq, nat_beq_iff, ◌==◌, if◌then◌else◌,
  arith, Bool-cases, Option-cases, unwrap_or, inl, inr,
}
use notify_push.Common.Text.{Str}
use notify_push.Dash.{DashMap}
use notify_push.User.{new, display}

module _ (hash_of : Str → ℕ) (dm : DashMap ℕ Str) where
  -- The first name of a hash is the one that is kept.
  get-new :
      (user_id : Str) (names : dm.Map) (j : ℕ)
      → dm.get j (new hash_of dm true user_id names).1 ≡ (
          if hash_of user_id == j
          then some (unwrap_or (dm.get j names) user_id)
          else dm.get j names)
  unfolding new
  get-new user_id names j = elim (Bool-cases (nat_beq (hash_of user_id) j)) [
    | inl same ↦
        rw (← (nat_beq_iff (hash_of user_id) j).0 same)
          (ground (arith, dm.get-insert (hash_of user_id) (hash_of user_id) user_id names))
    | inr other ↦ ground (arith, dm.get-insert (hash_of user_id) j user_id names)
  ]

  -- Every name is kept under its own hash.
  abbrev pub IsHashed : dm.Map → Type 0
  IsHashed names = (j : ℕ) (name : Str) → dm.get j names ≡ some name → hash_of name ≡ j

  pub empty-IsHashed : IsHashed dm.empty
  empty-IsHashed j name e = ground (arith, dm.get-empty j)

  pub new-IsHashed :
      (info : Bool) (user_id : Str) (names : dm.Map)
      → IsHashed names
      → IsHashed (new hash_of dm info user_id names).1
  unfolding new
  new-IsHashed false user_id names h = h
  new-IsHashed true user_id names h =
      λ j name e. ground (arith, get-new user_id names j, h j name, nat_beq_iff (hash_of user_id) j)

  pub new_all : Bool → List Str → dm.Map → dm.Map
  new_all info [] names = names
  new_all info (u ∷ us) names = new_all info us (new hash_of dm info u names).1

  new_all-IsHashed :
      (info : Bool) (us : List Str) (names : dm.Map)
      → IsHashed names
      → IsHashed (new_all info us names)
  unfolding new_all
  new_all-IsHashed info [] names h = h
  new_all-IsHashed info (u ∷ us) names h =
      new_all-IsHashed info us (new hash_of dm info u names).1 (new-IsHashed info u names h)

  -- A name that is kept stays.
  get-new_all :
      (info : Bool) (us : List Str) (names : dm.Map) (j : ℕ) (name : Str)
      → dm.get j names ≡ some name
      → dm.get j (new_all info us names) ≡ some name
  unfolding new_all new
  get-new_all info [] names j name e = e
  get-new_all false (u ∷ us) names j name e = get-new_all false us names j name e
  get-new_all true (u ∷ us) names j name e =
      get-new_all true us (new hash_of dm true u names).1 j name (ground (arith, get-new u names j))

  -- At log level `Info`, from a table of names kept under their hashes: an id that is made of a
  -- name whose hash no other name shares is shown by that name, whatever ids are made after it.
  pub display-new :
      (user_id : Str) (names : dm.Map) (later : List Str)
      → IsHashed names
      → ((other : Str) → hash_of other ≡ hash_of user_id → other ≡ user_id)
      → let (user, names') = new hash_of dm true user_id names in
        display dm true user (new_all true later names') ≡ user_id
  unfolding display new
  display-new user_id names later h unique =
      elim (Option-cases (dm.get (hash_of user_id) (new hash_of dm true user_id names).1)) [
        | inl e ↦ ground (
          arith,
          get-new user_id names (hash_of user_id),
          nat_beq_iff (hash_of user_id) (hash_of user_id),
        )
        | inr (n, e) ↦
            rw (get-new_all true later _ (hash_of user_id) n e)
              (unique n (new-IsHashed true user_id names h (hash_of user_id) n e))
      ]
