-- ===== src/Connection/Auth/Race/Once.antt =====
-- src/connection.rs: a token lets one connection in, however the logins are interleaved.
use notify_push.Common.{
  ℕ, zero, suc, ◌+◌, ◌-◌, ◌≤◌, ◌≡◌, ap, List, [], ◌∷◌, ◌++◌, Option, none, some, Bool, true, false,
  ◌&&◌, from_secs, ◌==◌, arith, if◌then◌else◌,
}
use notify_push.Common.Text.{Str, str_eq, str_beq_iff}
use notify_push.User.{UserId, user_eq}
use notify_push.Dash.{keep_if}
use notify_push.Connection.Auth.{Tokens, later}
use notify_push.Connection.Auth.Race.{
  At, read, looked, swept, let_in, asks_server, Login, admitted, advance, advance_at, Announcement,
  insert_at, Race, Step, passes, announces, inserts, connects, goes_on, step, run, start,
}

module _ (dm : Tokens) (token : Str) (user : UserId) where
  -- Whether the token let the login in as the user.
  abbrev is_won_at : Str → At → Bool
  is_won_at password (let_in now made u) = (password == token) && (u == user)
  is_won_at password _ = false

  -- How many logins the token let in as the user.
  abbrev pub won : List Login → ℕ
  won [] = 0
  won (l ∷ ls) = let rest = won ls in if is_won_at l.password l.at then suc rest else rest

  -- How often it was announced for the user.
  abbrev pub announced : List (Step dm) → ℕ
  announced [] = 0
  announced (announces k u ∷ steps) =
      let rest = announced steps in if (k == token) && (u == user) then suc rest else rest
  announced (_ ∷ steps) = announced steps

  -- How many announcements of it for the user have not inserted it yet.
  abbrev under_way : List Announcement → ℕ
  under_way [] = 0
  under_way (a ∷ others) =
      let rest = under_way others in
      if (a.token == token) && (a.user == user) then suc rest else rest

  under_way-append :
      (xs ys : List Announcement) → under_way (xs ++ ys) ≡ under_way xs + under_way ys
  under_way-append [] ys = omega arith
  under_way-append (x ∷ xs) ys = ground (arith, under_way-append xs ys)

  -- Whether the token is there, for the user.
  abbrev held : Option (ℕ × UserId) → ℕ
  held none = 0
  held (some (made, u)) = if u == user then 1 else 0

  abbrev left : dm.Map → ℕ
  left pre_auth = held (dm.get token pre_auth)

  held-keep_if :
      (p : Str → ℕ × UserId → Bool) (found : Option (ℕ × UserId))
      → held (keep_if p token found) ≤ held found
  held-keep_if p none = omega arith
  held-keep_if p (some (made, u)) = ground arith

  won-append : (xs ys : List Login) → won (xs ++ ys) ≡ won xs + won ys
  won-append [] ys = omega arith
  won-append (x ∷ xs) ys = ground (arith, won-append xs ys)

  abbrev one : Str → At → ℕ
  one password at = if is_won_at password at then 1 else 0

  admitted_once :
      (now : ℕ) (password : Str) (here there : Option (ℕ × UserId))
      → ((password == token) ≡ true → here ≡ there)
      → one password (admitted dm now here) + held (if password == token then none else there)
        ≤ held there
  unfolding admitted
  admitted_once now password none there h = ground arith
  admitted_once now password (some (made, u)) there h = ground arith

  advance-won :
      (clock : ℕ) (password : Str) (at : At) (m : dm.Map)
      → let (l', m') = advance dm clock (record { password = password; at = at }) m in
        one l'.password l'.at + left m' ≤ one password at + left m
  unfolding advance
  advance-won clock p read m = omega arith
  advance-won clock p (looked now) m =
      rw dm.get-retain (omega (arith, held-keep_if (later (now - from_secs 15)) (dm.get token m)))
  advance-won clock p (swept now) m = rw dm.get-remove (
      omega (
        arith,
        admitted_once now p (dm.get p m) (dm.get token m)
            (λ e. ap (λ k. dm.get k m) ((str_beq_iff p token).0 e)),
      ))
  advance-won clock p (let_in now made u) m = omega arith
  advance-won clock p asks_server m = omega arith

  advance_at-won :
      (n clock : ℕ) (ls : List Login) (m : dm.Map)
      → let (ls', m') = advance_at dm n clock ls m in won ls' + left m' ≤ won ls + left m
  unfolding advance_at
  advance_at-won n clock [] m = omega arith
  advance_at-won zero clock (l ∷ ls) m = ground (arith, advance-won clock l.password l.at m)
  advance_at-won (suc n) clock (l ∷ ls) m = ground (arith, advance_at-won n clock ls m)

  insert_left :
      (k : Str) (u : UserId) (clock : ℕ) (m : dm.Map)
      → left (dm.insert k (clock, u) m) ≤ left m + (if (k == token) && (u == user) then 1 else 0)
  insert_left k u clock m = rw dm.get-insert (ground arith)

  insert_at-left :
      (n : ℕ) (others : List Announcement) (m : dm.Map)
      → let (others', m') = insert_at dm n others m in
        under_way others' + left m' ≤ under_way others + left m
  unfolding insert_at
  insert_at-left n [] m = omega arith
  insert_at-left zero (a ∷ others) m = ground (arith, insert_left a.token a.user a.time m)
  insert_at-left (suc n) (a ∷ others) m = ground (arith, insert_at-left n others m)

  run-won :
      (steps : List (Step dm)) (r : Race dm)
      → let r' = run dm steps r in
        won r'.logins + left r'.pre_auth + under_way r'.announcing
        ≤ won r.logins + left r.pre_auth + under_way r.announcing + announced steps
  unfolding run step
  run-won [] r = omega arith
  run-won (passes time ∷ steps) r = run-won steps (step dm (passes time) r)
  run-won (announces k u ∷ steps) r = ground (
    arith,
    run-won steps (step dm (announces k u) r),
    under_way-append r.announcing (record { token = k; user = u; time = r.clock } ∷ []),
  )
  run-won (inserts n ∷ steps) r =
      omega (arith, run-won steps (step dm (inserts n) r), insert_at-left n r.announcing r.pre_auth)
  run-won (connects password ∷ steps) r = ground (
    arith,
    run-won steps (step dm (connects password) r),
    won-append r.logins (record { password = password; at = read } ∷ []),
  )
  run-won (goes_on n ∷ steps) r =
      omega
        (arith, run-won steps (step dm (goes_on n) r), advance_at-won n r.clock r.logins r.pre_auth)

  -- However announcements, logins and the time interleave from the start: a token lets at most as many
  -- logins in as a user as there were announcements of it for the user.
  pub run-once :
      (steps : List (Step dm)) (clock : ℕ)
      → won (run dm steps (start dm clock)).logins ≤ announced steps
  unfolding start
  run-once steps clock = ground (arith, run-won steps (start dm clock), dm.get-empty token)
