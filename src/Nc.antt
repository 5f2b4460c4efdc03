-- ===== src/Nc.antt =====
-- src/nc.rs: the client of the Nextcloud server. The HTTP and URL libraries are an interface; a
-- request is answered by a response with a status and a body, or fails.
pub mod Answers
use notify_push.Common.{
  ℕ, ◌+◌, List, [], ◌∷◌, ◌++◌, Option, none, some, Bool, true, false, ◌&&◌, nat_eq, ◌==◌,
  if◌then◌else◌, leb, ltb, Result, ok, err, ◌>>=◌, map_err, ok_or, unwrap_or, is_empty,
}
use notify_push.Common.Text.{Str, codes, starts_with}
use notify_push.Common.Decimal.{from_str}
use notify_push.User.{UserId}
use notify_push.Error.{NextCloudError, AuthenticationError}

pub record Response (X : Type 0) : Type 0 where
  pub status : ℕ
  pub text : Result Str X

pub record Request (Url : Type 0) : Type 0 where
  pub url : Url
  pub basic_auth : Option (Str × Str)
  pub x_forwarded_for : Option Str

-- `reqwest`, `url`, the printing and reading of addresses, and the error of reading a number.
pub record Web (X : Type 0) : Type 1 where
  pub Url : Type 0
  pub Ip : Type 0
  pub parse_url : Str → Result Url X
  pub join : Url → Str → Result Url X
  pub host_str : Url → Option Str
  pub build : Bool → Result (Unit {0}) X
  pub send : Bool → Request Url → Result (Response X) X
  pub show_ip : Ip → Str
  pub read_ip : Str → Result Ip X
  pub number_error : Str → X

-- `StatusCode::is_client_error` and `is_server_error`.
abbrev pub is_client_error : ℕ → Bool
is_client_error status = leb 400 status && ltb status 500

abbrev pub is_server_error : ℕ → Bool
is_server_error status = leb 500 status && ltb status 600

-- `str::contains`.
abbrev pub contains_text : Str → Str → Bool
contains_text [] p = is_empty p
contains_text (c ∷ s) p = if starts_with (c ∷ s) p then true else contains_text s p

abbrev pub u32_max : ℕ
u32_max = 4294967295

module _ {X : Type 0} (web : Web X) where
  -- `allow_self_signed` is the option that the `http` client was built with.
  pub record Client : Type 0 where
    pub allow_self_signed : Bool
    pub base_url : web.Url

  unfoldable pub new : Str → Bool → Result Client (NextCloudError X)
  new base_url allow_self_signed = do
    url ← map_err NextCloudError.nextcloud_url (web.parse_url base_url)
    _ ← map_err NextCloudError.request (web.build allow_self_signed)
    ok (record { allow_self_signed = allow_self_signed; base_url = url })

  -- The fold that writes the header.
  pub join_ips : Str → List web.Ip → Str
  join_ips joined [] = joined
  join_ips joined (ip ∷ ips) =
      join_ips ((if is_empty joined then joined else joined ++ codes ", ") ++ web.show_ip ip) ips

  unfoldable pub auth_request :
      Client → Str → Str → List web.Ip → Result (Response X) (NextCloudError X)
  unfolding join_ips
  auth_request client username password forwarded_for = do
    url ←
        map_err NextCloudError.nextcloud_url
          (web.join client.base_url (codes "index.php/apps/notify_push/uid"))
    map_err NextCloudError.nextcloud_connect (
        web.send client.allow_self_signed (record {
          url = url;
          basic_auth = some (username, password);
          x_forwarded_for = some (join_ips [] forwarded_for);
        }))

  -- The `match` on the status. `user_of` is `UserId::new`.
  unfoldable pub check_status : (Str → UserId) → Response X → Result UserId (AuthenticationError X)
  check_status user_of response =
      if response.status == 200
      then (do
        text ← map_err (λ _. AuthenticationError.invalid_message) response.text
        ok (user_of text))
      else if response.status == 401
      then err AuthenticationError.invalid
      else if is_server_error response.status
      then err (AuthenticationError.nextcloud (NextCloudError.server response.status))
      else if is_client_error response.status
      then err (AuthenticationError.nextcloud (NextCloudError.client response.status))
      else err (AuthenticationError.nextcloud (NextCloudError.other response.status))

  unfoldable pub verify_credentials :
      (Str → UserId) → Client → Str → Str → List web.Ip → Result UserId (AuthenticationError X)
  verify_credentials user_of client username password forwarded_for = do
    response ←
        map_err AuthenticationError.nextcloud (auth_request client username password forwarded_for)
    check_status user_of response

  -- A request with no header of ours.
  unfoldable pub plain : web.Url → Request web.Url
  plain url = record { url = url; basic_auth = none; x_forwarded_for = none }

  unfoldable pub read_cookie : Client → ℕ → Str → Result ℕ (NextCloudError X)
  read_cookie client status text =
      if is_client_error status
      then (if contains_text text (codes "admin-trusted-domains")
          then err
              (NextCloudError.not_a_trusted_domain (unwrap_or (web.host_str client.base_url) []))
          else err (NextCloudError.client status))
      else map_err NextCloudError.malformed_cookie_response
          (ok_or (from_str u32_max text) (web.number_error text))

  unfoldable pub get_test_cookie : Client → Result ℕ (NextCloudError X)
  unfolding plain read_cookie
  get_test_cookie client = do
    url ←
        map_err NextCloudError.nextcloud_url
          (web.join client.base_url (codes "index.php/apps/notify_push/test/cookie"))
    response ← map_err NextCloudError.request (web.send client.allow_self_signed (plain url))
    text ← map_err NextCloudError.request response.text
    read_cookie client response.status text

  unfoldable pub test_set_remote : Client → web.Ip → Result web.Ip (NextCloudError X)
  test_set_remote client addr = do
    url ←
        map_err NextCloudError.nextcloud_url
          (web.join client.base_url (codes "index.php/apps/notify_push/test/remote"))
    response ← map_err NextCloudError.request (
        web.send client.allow_self_signed
          (record { url = url; basic_auth = none; x_forwarded_for = some (web.show_ip addr) }))
    text ← map_err NextCloudError.request response.text
    map_err NextCloudError.malformed_remote (web.read_ip text)

  unfoldable pub request_app_version : Client → Result (Unit {0}) (NextCloudError X)
  unfolding plain
  request_app_version client = do
    url ←
        map_err NextCloudError.nextcloud_url
          (web.join client.base_url (codes "index.php/apps/notify_push/test/version"))
    _ ← map_err NextCloudError.request (web.send client.allow_self_signed (plain url))
    ok tt
