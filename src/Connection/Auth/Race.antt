-- ===== src/Connection/Auth/Race.antt =====
-- src/connection.rs, with the pre-auth events of src/lib.rs: logins that run at the same time. What
-- is atomic is a look at the clock and each call on the map of the tokens.
pub mod Once
use notify_push.Common.{ℕ, zero, suc, ◌+◌, ◌-◌, List, [], ◌∷◌, ◌++◌, Option, none, some, from_secs}
use notify_push.Common.Text.{Str, str_eq}
use notify_push.User.{UserId}
use notify_push.Connection.Auth.{Tokens, later}

-- Where a login stands in `socket_auth`, with the variables that are live there: after the two
-- messages, after the look at the clock, after the pass over the tokens, and after the token was
-- asked for, which lets it in or leaves it to the credentials.
pub data At : Type 0 where
  read : At
  looked : (now : ℕ) → At
  swept : (now : ℕ) → At
  let_in : (now made : ℕ) → UserId → At
  asks_server : At

pub record Login : Type 0 where
  pub password : Str
  pub at : At

-- An announcement that has looked at the clock and is about to insert its token.
pub record Announcement : Type 0 where
  pub token : Str
  pub user : UserId
  pub time : ℕ

module _ (dm : Tokens) where
  -- The `if let`.
  unfoldable pub admitted : ℕ → Option (ℕ × UserId) → At
  admitted now (some (made, user)) = let_in now made user
  admitted now none = asks_server

  -- The next atomic step of a login, at a time.
  unfoldable pub advance : ℕ → Login → dm.Map → Login × dm.Map
  unfolding admitted
  advance clock l pre_auth = elim l.at [
    | read ↦ (record l { at = looked clock }, pre_auth)
    | looked now ↦ (record l { at = swept now }, dm.retain (later (now - from_secs 15)) pre_auth)
    | swept now ↦
        (record l { at = admitted now (dm.get l.password pre_auth) }, dm.remove l.password pre_auth)
    | let_in now made user ↦ (l, pre_auth)
    | asks_server ↦ (l, pre_auth)
  ]

  -- The login at a place takes its next step.
  unfoldable pub advance_at : ℕ → ℕ → List Login → dm.Map → List Login × dm.Map
  advance_at n clock [] pre_auth = ([], pre_auth)
  advance_at zero clock (l ∷ ls) pre_auth =
      let (l', pre_auth') = advance clock l pre_auth in (l' ∷ ls, pre_auth')
  advance_at (suc n) clock (l ∷ ls) pre_auth =
      let (ls', pre_auth') = advance_at n clock ls pre_auth in (l ∷ ls', pre_auth')

  -- The announcement at a place inserts its token.
  unfoldable pub insert_at : ℕ → List Announcement → dm.Map → List Announcement × dm.Map
  insert_at n [] pre_auth = ([], pre_auth)
  insert_at zero (a ∷ others) pre_auth = (others, dm.insert a.token (a.time, a.user) pre_auth)
  insert_at (suc n) (a ∷ others) pre_auth =
      let (others', pre_auth') = insert_at n others pre_auth in (a ∷ others', pre_auth')

  pub record Race : Type 0 where
    pub clock : ℕ
    pub announcing : List Announcement
    pub pre_auth : dm.Map
    pub logins : List Login

  -- Time passes, an event that announces a token looks at the clock, the announcement at a place
  -- inserts its token, a client has sent its two messages, or the login at a place takes its next
  -- step.
  pub data Step : Type 0 where
    passes : ℕ → Step
    announces : Str → UserId → Step
    inserts : ℕ → Step
    connects : Str → Step
    goes_on : ℕ → Step

  unfoldable pub step : Step → Race → Race
  step (passes time) r = record r { clock = r.clock + time }
  step (announces token user) r = record r {
    announcing = r.announcing ++ record { token = token; user = user; time = r.clock } ∷ [];
  }
  step (inserts n) r =
      let (announcing, pre_auth) = insert_at n r.announcing r.pre_auth in
      record r { announcing = announcing; pre_auth = pre_auth }
  step (connects password) r = record r {
    logins = r.logins ++ record { password = password; at = read } ∷ [];
  }
  step (goes_on n) r =
      let (logins, pre_auth) = advance_at n r.clock r.logins r.pre_auth in
      record r { logins = logins; pre_auth = pre_auth }

  unfoldable pub run : List Step → Race → Race
  run [] r = r
  run (s ∷ steps) r = run steps (step s r)

  unfoldable pub start : ℕ → Race
  start clock = record { clock = clock; announcing = []; pre_auth = dm.empty; logins = [] }
