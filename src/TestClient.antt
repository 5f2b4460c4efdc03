-- ===== src/TestClient.antt =====
-- test_client/src/main.rs: how the test client reads what the server sends.
pub mod Frames
pub mod Login
use notify_push.Common.{
  List, [], ◌∷◌, Option, none, some, Bool, true, false, if◌then◌else◌, nat_eq, nat_beq, ◌==◌,
}
use notify_push.Common.Text.{Str, codes, str_eq, starts_with}
use notify_push.Ws.{WsMessage, text}

-- `str::strip_prefix`.
abbrev pub strip_prefix : Str → Str → Option Str
strip_prefix s [] = some s
strip_prefix [] (p ∷ q) = none
strip_prefix (c ∷ s) (p ∷ q) = if nat_beq c p then strip_prefix s q else none

-- What the client logs.
pub data Received : Type 0 where
  error : Str → Received
  file_update : Str → Received
  activity notification authenticated : Received
  other : Str → Received

-- The chain of tests in the loop, after that for an error.
unfoldable pub classify_text : Option Str → Str → Received
classify_text (some message) s = error message
classify_text none s =
    if starts_with s (codes "notify_file")
    then file_update s
    else if s == codes "notify_activity"
    then activity
    else if s == codes "notify_notification"
    then notification
    else if s == codes "authenticated"
    then authenticated
    else other s

unfoldable pub classify : Str → Received
unfolding classify_text
classify s = classify_text (strip_prefix s (codes "err: ")) s

-- The loop, on the messages that come; an error ends it.
unfoldable pub until_error : Received → List Received → List Received
until_error (error e) rest = error e ∷ []
until_error r rest = r ∷ rest

unfoldable pub read_all : List WsMessage → List Received
unfolding until_error
read_all [] = []
read_all (text content ∷ messages) = until_error (classify content) (read_all messages)
read_all (_ ∷ messages) = read_all messages
