-- ===== src/Connection/Socket/Bytes.antt =====
-- src/connection.rs: the payload of a ping names its number.
use native.Mathlib.Nat.{pow-suc}
use notify_push.Common.{
  ℕ, zero, suc, ◌+◌, ◌*◌, ◌/◌, ◌^◌, ◌<◌, ◌≡◌, sym, ap, ◌∙◌, List, [], ◌∷◌, arith, usize_mod,
}
use notify_push.Connection.Socket.{le_bytes, to_le_bytes}

from_le_bytes : List ℕ → ℕ
from_le_bytes [] = 0
from_le_bytes (b ∷ bs) = b + 256 * from_le_bytes bs

from_le_bytes-le_bytes : (k n : ℕ) → n < 256 ^ k → from_le_bytes (le_bytes k n) ≡ n
unfolding from_le_bytes le_bytes
from_le_bytes-le_bytes zero n h = omega arith
from_le_bytes-le_bytes (suc k) n h =
    omega (arith, from_le_bytes-le_bytes k (n / 256) (omega (arith, pow-suc 256 k)))

-- Two words have the same bytes only if they are equal.
pub to_le_bytes-injective :
    (n m : ℕ) → n < usize_mod → m < usize_mod → to_le_bytes n ≡ to_le_bytes m → n ≡ m
unfolding to_le_bytes
to_le_bytes-injective n m hn hm e =
    sym (from_le_bytes-le_bytes 8 n hn) ∙ ap from_le_bytes e ∙ from_le_bytes-le_bytes 8 m hm
