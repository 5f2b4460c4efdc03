-- ===== src/Connection/Auth/Tokens.antt =====
-- src/connection.rs: who is let in, and what becomes of the tokens.
use notify_push.Common.{
  ℕ, ◌-◌, ◌<◌, ◌≡◌, ◌≢◌, ◌↔◌, sym, ◌∙◌, ap, ◌⊎◌, inl, inr, List, [], ◌∷◌, Option, none, some,
  if◌then◌else◌, ok, from_secs, arith,
}
use notify_push.Common.Text.{Str, str_eq, str_beq, str_beq_iff}
use notify_push.User.{UserId}
use notify_push.Dash.{keep_if}
use notify_push.Nc.{Web, Client, verify_credentials}
use notify_push.Connection.Auth.{Tokens, later, admit, authenticate}

module _ {X : Type 0} (web : Web X) (dm : Tokens) (user_of : Str → UserId)
    (client : Client web) where
  -- The token is there, and younger than 15 seconds.
  abbrev pub IsFresh : ℕ → Str → UserId → dm.Map → Type 0
  IsFresh now password user pre_auth =
      (made : ℕ) × (dm.get password pre_auth ≡ some (made, user)) × (now - from_secs 15 < made)

  -- The token that the pass over the map leaves lets in.
  authenticate-keep_if :
      (now : ℕ) (ips : List web.Ip) (username password : Str) (pre_auth : dm.Map)
      → (authenticate web dm user_of client now ips username password pre_auth).0
        ≡ admit web dm user_of client ips username password
            (keep_if (later (now - from_secs 15)) password (dm.get password pre_auth))
  unfolding authenticate
  authenticate-keep_if now ips username password pre_auth =
      ap (admit web dm user_of client ips username password) (dm.get-retain _ password pre_auth)

  keep_fresh :
      (now made : ℕ) (password : Str) (other : UserId)
      → (keep_if (later now) password (some (made, other)) ≡ none)
        ⊎ ((keep_if (later now) password (some (made, other)) ≡ some (made, other)) × (now < made))
  keep_fresh now made password other = ground arith

  admit-none :
      (ips : List web.Ip) (username password : Str) (user : UserId)
      → admit web dm user_of client ips username password none ≡ ok user
      → (username ≢ []) × (verify_credentials web user_of client username password ips ≡ ok user)
  unfolding admit
  admit-none ips [] password user e = absurd (cc)
  admit-none ips (c ∷ s) password user e = ((λ h. cc), e)

  admit-some :
      (ips : List web.Ip) (username password : Str) (made : ℕ) (other user : UserId)
      → admit web dm user_of client ips username password (some (made, other)) ≡ ok user
      → ◌≡◌ {A = Option (ℕ × UserId)} (some (made, other)) (some (made, user))
  unfolding admit
  admit-some ips username password made other user e = ap (λ u. some (made, u)) (ground arith)

  admit-keep_if :
      (now : ℕ) (ips : List web.Ip) (username password : Str) (found : Option (ℕ × UserId))
      (user : UserId)
      → admit web dm user_of client ips username password (keep_if (later now) password found)
        ≡ ok user
      → ((made : ℕ) × (found ≡ some (made, user)) × (now < made))
        ⊎ ((username ≢ [])
            × (verify_credentials web user_of client username password ips ≡ ok user))
  admit-keep_if now ips username password none user e =
      inr (admit-none ips username password user e)
  admit-keep_if now ips username password (some (made, other)) user e =
      elim (keep_fresh now made password other) [
        | inl k ↦ inr (
            admit-none ips username password user
              (ap (admit web dm user_of client ips username password) (sym k) ∙ e))
        | inr (k, h) ↦ inl (
          made,
          (admit-some ips username password made other user
              (ap (admit web dm user_of client ips username password) (sym k) ∙ e)),
          h,
        )
      ]

  -- A fresh token lets its user in, whatever the name is.
  pub authenticate_fresh :
      (now : ℕ) (ips : List web.Ip) (username password : Str) (pre_auth : dm.Map) (user : UserId)
      → IsFresh now password user pre_auth
      → (authenticate web dm user_of client now ips username password pre_auth).0 ≡ ok user
  unfolding admit
  authenticate_fresh now ips username password pre_auth user (made, e, h) =
      rw (authenticate-keep_if, e) (ground arith)

  -- Who is let in: the user of a token younger than 15 seconds, or the user that the server
  -- knows the credentials of, with a name that is not empty.
  pub authenticate-ok :
      (now : ℕ) (ips : List web.Ip) (username password : Str) (pre_auth : dm.Map) (user : UserId)
      → (authenticate web dm user_of client now ips username password pre_auth).0 ≡ ok user
      → IsFresh now password user pre_auth
        ⊎ ((username ≢ [])
            × (verify_credentials web user_of client username password ips ≡ ok user))
  authenticate-ok now ips username password pre_auth user h =
      admit-keep_if (now - from_secs 15) ips username password (dm.get password pre_auth) user
        (sym (authenticate-keep_if now ips username password pre_auth) ∙ h)

  left_tokens :
      (now : ℕ) (password key : Str) (found : Option (ℕ × UserId)) (made : ℕ) (user : UserId)
      → ((if str_beq password key then none else keep_if (later now) key found) ≡ some (made, user))
        ↔ ((key ≢ password) × ((found ≡ some (made, user)) × (now < made)))
  left_tokens now password key none made user = ground (arith, str_beq_iff password key)
  left_tokens now password key (some (at, other)) made user =
      ground (arith, str_beq_iff password key)

  -- A token stays if its key is not the password and it is younger than 15 seconds; no other is left,
  -- so that none is used twice.
  pub authenticate-tokens :
      (now : ℕ) (ips : List web.Ip) (username password key : Str) (pre_auth : dm.Map) (made : ℕ)
      (user : UserId)
      → (dm.get key (authenticate web dm user_of client now ips username password pre_auth).1
          ≡ some (made, user))
        ↔ ((key ≢ password)
            × ((dm.get key pre_auth ≡ some (made, user)) × (now - from_secs 15 < made)))
  unfolding authenticate
  authenticate-tokens now ips username password key pre_auth made user =
      let left = left_tokens (now - from_secs 15) password key (dm.get key pre_auth) made user in
      rw (dm.get-remove, dm.get-retain) left
