-- ===== src/Examples/Servers.antt =====
-- src/nc.rs, src/connection.rs, src/lib.rs: a Nextcloud server that knows one password, and
-- instances.
use notify_push.Common.{
  ℕ, ◌≤◌, ◌≡◌, ◌≢◌, ◌↔◌, ◌⊎◌, refl, ◌<◌, ◌-◌, [], ◌∷◌, ◌++◌, Option, none, some, false,
  if◌then◌else◌, Result, ok, err, ok_or, nat_eq, ◌==◌, arith, from_secs,
}
use notify_push.Common.Text.{Str, codes, str_eq}
use notify_push.Common.Decimal.{to_string, to_string-filled, from_str}
use notify_push.User.{UserId, user_eq}
use notify_push.Dash.{function_map}
use notify_push.Error.{AuthenticationError, NextCloudError}
use notify_push.Nc.{
  Web, Client, Request, Response, verify_credentials, get_test_cookie, plain, u32_max,
}
use notify_push.Nc.Answers.{Answered, verify_credentials_iff, get_test_cookie-to_string}
use notify_push.Connection.Auth.{Tokens, admit, authenticate}
use notify_push.Connection.Auth.Tokens.{IsFresh, authenticate-ok, authenticate-tokens}

-- Errors are texts, and an address is printed as a number.
abbrev pub answer : Request Str → Result (Response Str) Str
answer r = elim r.basic_auth [
  | none ↦ ok (record { status = 200; text = ok (to_string 42) })
  | some (name, password) ↦
      ok (record { status = if password == codes "secret" then 200 else 401; text = ok name })
]

abbrev pub network : Web Str
network = record {
  Url = Str;
  Ip = ℕ;
  parse_url = λ s. ok s;
  join = λ base path. ok (base ++ path);
  host_str = λ url. none;
  build = λ b. ok tt;
  send = λ b r. answer r;
  show_ip = to_string;
  read_ip = λ s. ok_or (from_str u32_max s) s;
  number_error = λ s. s;
}

abbrev pub nextcloud : Client network
nextcloud = record { allow_self_signed = false; base_url = codes "http://cloud/" }

-- A user by the length of the name.
abbrev pub user_of : Str → UserId
user_of [] = record { hash = 0 }
user_of (c ∷ s) = record { hash = c }

abbrev ann_login : Result UserId (AuthenticationError Str)
ann_login = verify_credentials network user_of nextcloud (codes "ann") (codes "secret") []

abbrev AnnAnswered : ℕ → Result Str Str → Type 0
AnnAnswered = Answered network nextcloud (codes "ann") (codes "secret") []

verify_credentials_iff_example :
    ((user : UserId)
      → (ann_login ≡ ok user) ↔ ((name : Str) × AnnAnswered 200 (ok name) × (user_of name ≡ user)))
    × ((ann_login ≡ err AuthenticationError.invalid)
        ↔ ((text : Result Str Str) × AnnAnswered 401 text))
    × ((status : ℕ) (text : Result Str Str)
        → AnnAnswered status text
        → (500 ≤ status
            → status < 600
            → ann_login ≡ err (AuthenticationError.nextcloud (NextCloudError.server status)))
          × (400 ≤ status
              → status < 500
              → status ≢ 401
              → ann_login ≡ err (AuthenticationError.nextcloud (NextCloudError.client status))))
verify_credentials_iff_example =
    verify_credentials_iff network user_of nextcloud (codes "ann") (codes "secret") []
      to_string-filled

get_test_cookie-to_string_example : get_test_cookie network nextcloud ≡ ok 42
unfolding plain
get_test_cookie-to_string_example =
    get_test_cookie-to_string network nextcloud
      (codes "http://cloud/index.php/apps/notify_push/test/cookie") 200 42 refl refl refl
      (omega arith)

abbrev pub tokens : Tokens
tokens = function_map Str (ℕ × UserId)

abbrev pub alice : UserId
alice = record { hash = 17 }

-- One token, made 20 seconds after the clock's start.
abbrev announced : Str → Option (ℕ × UserId)
announced = tokens.insert (codes "tok") (from_secs 20, alice) tokens.empty

-- With the token, 10 seconds later.
authenticate-ok_example :
    IsFresh network tokens user_of nextcloud (from_secs 30) (codes "tok") alice announced
    ⊎ ((codes "ann" ≢ [])
        × (verify_credentials network user_of nextcloud (codes "ann") (codes "tok") [] ≡ ok alice))
unfolding authenticate admit
authenticate-ok_example =
    authenticate-ok network tokens user_of nextcloud (from_secs 30) [] (codes "ann") (codes "tok")
      announced alice refl

-- A token stays when another password is tried.
authenticate-tokens_example :
    (tokens.get
        (codes "tok")
        (authenticate network tokens user_of nextcloud
          (from_secs 30)
          []
          (codes "ann")
          (codes "secret")
          announced).1
      ≡ some (from_secs 20, alice))
    ↔ ((codes "tok" ≢ codes "secret")
        × ((tokens.get (codes "tok") announced ≡ some (from_secs 20, alice))
            × (from_secs 30 - from_secs 15 < from_secs 20)))
authenticate-tokens_example =
    authenticate-tokens network tokens user_of nextcloud (from_secs 30) [] (codes "ann")
      (codes "secret") (codes "tok") announced (from_secs 20) alice
