-- ===== src/Nc/Answers.antt =====
-- src/nc.rs: what the answers of the server lead to.
use notify_push.Common.{
  ℕ, some, ◌≤◌, ◌<◌, ◌≡◌, ◌≢◌, Result-cases, inl, inr, refl, ◌↔◌, ap, List, [], ◌∷◌, ◌++◌, false,
  nat_eq, Result, ok, err, ◌>>=◌, map_err, arith, append_laws, is_empty,
}
use notify_push.Common.Text.{Str, codes}
use notify_push.Common.Decimal.{to_string, from_str-to_string}
use notify_push.User.{UserId}
use notify_push.Error.{NextCloudError, AuthenticationError}
use notify_push.Nc.{
  Web, Client, Response, verify_credentials, auth_request, check_status, get_test_cookie, plain,
  join_ips, u32_max, is_client_error,
}

module _ {X : Type 0} (web : Web X) where
  -- The addresses with a comma and a space between each two.
  abbrev pub separated : List web.Ip → Str
  separated [] = []
  separated (ip ∷ []) = web.show_ip ip
  separated (ip ∷ next ∷ ips) = web.show_ip ip ++ codes ", " ++ separated (next ∷ ips)

  onto : (s t u : Str) → is_empty s ≡ false → is_empty ((s ++ t) ++ u) ≡ false
  onto [] t u h = absurd (cc)
  onto (c ∷ s) t u h = refl

  join_ips_onto :
      (joined : Str) (ip : web.Ip) (ips : List web.Ip)
      → is_empty joined ≡ false
      → join_ips web joined (ip ∷ ips) ≡ joined ++ codes ", " ++ separated (ip ∷ ips)
  unfolding join_ips
  join_ips_onto joined ip [] h = rw (h) simp append_laws
  join_ips_onto joined ip (next ∷ ips) h =
      let more = (joined ++ codes ", ") ++ web.show_ip ip in
      rw (h, join_ips_onto more next ips (onto joined (codes ", ") (web.show_ip ip) h))
        (simp append_laws)

  -- The header names the addresses in order, with a comma and a space between each two, if the first
  -- is not printed as the empty text.
  pub join_ips-separated :
      (ip : web.Ip) (ips : List web.Ip)
      → is_empty (web.show_ip ip) ≡ false
      → join_ips web [] (ip ∷ ips) ≡ separated (ip ∷ ips)
  unfolding join_ips
  join_ips-separated ip [] h = refl
  join_ips-separated ip (next ∷ ips) h = join_ips_onto (web.show_ip ip) next ips h

  -- The addresses are printed as texts that are not empty.
  abbrev pub IsShown : Type 0
  IsShown = (ip : web.Ip) → is_empty (web.show_ip ip) ≡ false

  all_separated : (ips : List web.Ip) → IsShown → join_ips web [] ips ≡ separated ips
  unfolding join_ips
  all_separated [] shown = refl
  all_separated (ip ∷ ips) shown = join_ips-separated ip ips (shown ip)

  -- The server answered so to the request that carries the name, the password and the addresses, in
  -- order, with a comma and a space between each two.
  abbrev pub Answered : Client web → Str → Str → List web.Ip → ℕ → Result Str X → Type 0
  Answered client username password ips status text =
      (url : web.Url) × (web.join client.base_url (codes "index.php/apps/notify_push/uid") ≡ ok url)
      × (web.send client.allow_self_signed (record {
        url = url;
        basic_auth = some (username, password);
        x_forwarded_for = some (separated ips);
      })
          ≡ ok (record { status = status; text = text }))

  lifted_ok :
      {A E F : Type 0} (f : E → F) (result : Result A E) (a : A)
      → map_err f result ≡ ok a
      → result ≡ ok a
  lifted_ok f (ok x) a h = ground arith
  lifted_ok f (err e) a h = absurd (cc)

  answered :
      (client : Client web) (username password : Str) (ips : List web.Ip) (r : Response X)
      → IsShown
      → auth_request web client username password ips ≡ ok r
      → Answered client username password ips r.status r.text
  unfolding auth_request
  answered client username password ips r shown e =
      elim (Result-cases (web.join client.base_url (codes "index.php/apps/notify_push/uid"))) [
        | inl (url, j) ↦ (
          url,
          j,
          lifted_ok NextCloudError.nextcloud_connect _ r
              (rw (auth_request, j, all_separated ips shown) at e),
        )
        | inr (x, j) ↦ absurd (cc (rw (auth_request, j) at e))
      ]

  auth_request-Answered :
      (client : Client web) (username password : Str) (ips : List web.Ip) (status : ℕ)
      (text : Result Str X)
      → IsShown
      → Answered client username password ips status text
      → auth_request web client username password ips ≡ ok (record { status = status; text = text })
  unfolding auth_request
  auth_request-Answered client username password ips status text shown (url, j, s) =
      rw (auth_request, j, all_separated ips shown, s) refl

  accepted :
      (user_of : Str → UserId) (status : ℕ) (text : Result Str X) (user : UserId)
      → check_status web user_of (record { status = status; text = text }) ≡ ok user
      → (status ≡ 200) × ((name : Str) × (text ≡ ok name) × (user_of name ≡ user))
  unfolding check_status
  accepted user_of status (ok name) user e = (ground arith, (name, refl, ground arith))
  accepted user_of status (err x) user e = absurd (ground arith)

  refused :
      (user_of : Str → UserId) (status : ℕ) (text : Result Str X)
      → check_status web user_of (record { status = status; text = text })
        ≡ err AuthenticationError.invalid
      → status ≡ 401
  unfolding check_status
  refused user_of status (ok name) e = ground arith
  refused user_of status (err x) e = ground arith

  -- What `verify_credentials` makes of the answer.
  abbrev checked :
      (Str → UserId)
      → Result (Response X) (NextCloudError X)
      → Result UserId (AuthenticationError X)
  checked user_of answer = map_err AuthenticationError.nextcloud answer >>= check_status web user_of

  checked_ok :
      (user_of : Str → UserId) (answer : Result (Response X) (NextCloudError X)) (user : UserId)
      → checked user_of answer ≡ ok user
      → (name : Str) × (answer ≡ ok (record { status = 200; text = ok name }))
        × (user_of name ≡ user)
  checked_ok user_of (err x) user e = absurd (cc)
  checked_ok user_of (ok r) user e =
      let (status, (name, text, named)) = accepted user_of r.status r.text user e in
      (name, ground arith, named)

  checked_invalid :
      (user_of : Str → UserId) (answer : Result (Response X) (NextCloudError X))
      → checked user_of answer ≡ err AuthenticationError.invalid
      → (text : Result Str X) × (answer ≡ ok (record { status = 401; text = text }))
  checked_invalid user_of (err x) e = absurd (cc)
  checked_invalid user_of (ok r) e = (r.text, ground (arith, refused user_of r.status r.text e))

  -- If addresses are not printed as the empty text: credentials are accepted exactly if the server
  -- answers the request that carries them, and the addresses, with the status 200 and a body that can be read, and the user is the one that the body
  -- names; they are refused as invalid exactly if it answers with the status 401. A status from 500 to
  -- 599 is an error of the server, any other from 400 to 499 one of the client.
  pub verify_credentials_iff :
      (user_of : Str → UserId) (client : Client web) (username password : Str) (ips : List web.Ip)
      → IsShown
      → let result = verify_credentials web user_of client username password ips in
        ((user : UserId)
          → (result ≡ ok user) ↔ (
              (name : Str) × Answered client username password ips 200 (ok name)
              × (user_of name ≡ user)))
        × ((result ≡ err AuthenticationError.invalid)
            ↔ ((text : Result Str X) × Answered client username password ips 401 text))
        × ((status : ℕ) (text : Result Str X)
            → Answered client username password ips status text
            → (500 ≤ status
                → status < 600
                → result ≡ err (AuthenticationError.nextcloud (NextCloudError.server status)))
              × (400 ≤ status
                  → status < 500
                  → status ≢ 401
                  → result ≡ err (AuthenticationError.nextcloud (NextCloudError.client status))))
  unfolding verify_credentials check_status
  verify_credentials_iff user_of client username password ips shown =
      let request = λ (status : ℕ) (text : Result Str X).
        auth_request-Answered client username password ips status text shown in
      (
        λ user. (
          λ e.
              let (name, e', named) =
                checked_ok user_of (auth_request web client username password ips) user e in
              (name, answered client username password ips _ shown e', named),
          λ (name, a, named).
              rw (request 200 (ok name) a, verify_credentials) (unfold check_status in ap ok named),
        ),
        (
          λ e.
              let (text, e') =
                checked_invalid user_of (auth_request web client username password ips) e in
              (text, answered client username password ips _ shown e'),
          λ (text, a). rw (request 401 text a, verify_credentials) (unfold check_status in refl),
        ),
        λ status text a. (
          λ h h'. rw (request status text a, verify_credentials) (ground arith),
          λ h h' apart. rw (request status text a, verify_credentials) (ground arith),
        ),
      )

  -- A cookie below 2 ^ 32 that the server prints comes back as it is, if the answer can be read and
  -- its status is no client error.
  pub get_test_cookie-to_string :
      (client : Client web) (url : web.Url) (status n : ℕ)
      → web.join client.base_url (codes "index.php/apps/notify_push/test/cookie") ≡ ok url
      → web.send client.allow_self_signed (plain web url)
        ≡ ok (record { status = status; text = ok (to_string n) })
      → is_client_error status ≡ false
      → n ≤ u32_max
      → get_test_cookie web client ≡ ok n
  unfolding get_test_cookie
  get_test_cookie-to_string client url status n j s c h =
      rw (get_test_cookie, j, s, c, from_str-to_string u32_max n h)
