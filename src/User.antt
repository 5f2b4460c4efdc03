-- ===== src/User.antt =====
-- src/user.rs: user ids are hashes. `hash_of` is the process's `ahash` state with its `finish`.
use notify_push.Common.{
  ℕ, ◌+◌, ◌-◌, List, [], ◌∷◌, ◌++◌, Option, none, some, Bool, true, false, ◌≡◌, refl, ap, ◌↔◌, Eq,
  nat_eq, nat_beq, nat_beq_iff, ◌==◌, if◌then◌else◌, arith, Result, ok, err,
}
use notify_push.Common.Text.{Str, codes}
use notify_push.Common.Decimal.{to_string}
use notify_push.Dash.{DashMap}
pub mod Names

pub record UserId : Type 0 where
  pub hash : ℕ

pub user_beq_iff : (a b : UserId) → (nat_beq a.hash b.hash ≡ true) ↔ (a ≡ b)
user_beq_iff a b = ground (arith, nat_beq_iff a.hash b.hash)

abbrev pub user_beq : UserId → UserId → Bool
user_beq a b = nat_beq a.hash b.hash

pub user_beq_sound : {a b : UserId} → user_beq a b ≡ true → a ≡ b
user_beq_sound {a} {b} = (user_beq_iff a b).0

pub user_beq_self : (a : UserId) → user_beq a a ≡ true
user_beq_self a = (user_beq_iff a a).1 refl

-- The derived `PartialEq`.
instance abbrev pub user_eq : Eq UserId
user_eq = record { equal = user_beq; equal_sound = user_beq_sound; equal_self = user_beq_self }

-- `names` is the static `USER_NAMES`; `info` is whether the log level is `Info` or more.
module _ (hash_of : Str → ℕ) (dm : DashMap ℕ Str) where
  remember : ℕ → Str → dm.Map → dm.Map
  remember hash user_id names = elim (dm.get hash names) [
    | none ↦ dm.insert hash user_id names
    | some _ ↦ names
  ]

  unfoldable pub new : Bool → Str → dm.Map → UserId × dm.Map
  unfolding remember
  new info user_id names =
      let hash = hash_of user_id in
      (record { hash = hash }, if info then remember hash user_id names else names)

  -- `From<String>` and `From<&str>`.
  unfoldable pub from : Bool → Str → dm.Map → UserId × dm.Map
  unfolding new
  from info id names = new info id names

  -- `visit_str`, after `deserialize_str` has given a string.
  unfoldable pub deserialize :
      {E : Type 0} → Bool → Result Str E → dm.Map → Result UserId E × dm.Map
  unfolding from
  deserialize info (ok v) names = let (user, names) = from info v names in (ok user, names)
  deserialize info (err e) names = (err e, names)

  -- The decoding of a column, after that of its text.
  unfoldable pub decode : {E : Type 0} → Bool → Result Str E → dm.Map → Result UserId E × dm.Map
  unfolding new
  decode info (ok v) names = let (user, names) = new info v names in (ok user, names)
  decode info (err e) names = (err e, names)

-- `Display` and `Debug`.
module _ (dm : DashMap ℕ Str) where
  unfoldable pub display : Bool → UserId → dm.Map → Str
  display info user names =
      if info
      then elim (dm.get user.hash names) [
        | some user_name ↦ user_name
        | none ↦ codes "unknown user"
      ]
      else codes "unknown user (Set log level to INFO or higher)"

  unfoldable pub debug : Bool → UserId → dm.Map → Str
  debug info user names =
      if info
      then elim (dm.get user.hash names) [
        | some user_name ↦ user_name ++ codes "(#" ++ to_string user.hash ++ codes ")"
        | none ↦ codes "user #" ++ to_string user.hash
      ]
      else codes "user #" ++ to_string user.hash ++ codes " (Set log level to INFO or higher)"
