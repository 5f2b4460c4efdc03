-- ===== src/Ws.antt =====
-- The websocket messages of the `warp` crate, as far as src/connection.rs and src/message.rs build
-- them or tell them apart, and the interface to `serde_json`.
use notify_push.Common.{ℕ, List, Bool}
use notify_push.Common.Text.{Str}

-- A message by its kind, with its payload.
pub data WsMessage : Type 0 where
  text : Str → WsMessage
  binary : List ℕ → WsMessage
  ping : List ℕ → WsMessage
  pong : List ℕ → WsMessage
  close : WsMessage

-- What the code uses of a `serde_json::Value`, and the printing of a list of ids.
pub record Json (V : Type 0) : Type 0 where
  pub is_null : V → Bool
  pub display : V → Str
  pub ids_to_string : List ℕ → Str
