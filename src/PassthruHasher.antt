-- ===== src/PassthruHasher.antt =====
-- src/passthru_hasher.rs: the hasher of maps whose keys are hashes.
use notify_push.Common.{ℕ, List, Option, none, some, ◌≡◌, refl}
use notify_push.User.{UserId}

pub record Passthru : Type 0 where
  pub hash : ℕ

unfoldable pub default : Passthru
default = record { hash = 0 }

unfoldable pub finish : Passthru → ℕ
finish h = h.hash

-- Panics.
unfoldable pub write : List ℕ → Passthru → Option Passthru
write bytes h = none

unfoldable pub write_u64 : ℕ → Passthru → Option Passthru
write_u64 i h = some (record h { hash = i })

-- The derived `Hash` of an id writes its number.
unfoldable pub hash : UserId → Passthru → Option Passthru
unfolding write_u64
hash user h = write_u64 user.hash h

-- An id is hashed to its own number, without a panic, whatever was hashed before.
pub hash-finish :
    (user : UserId) (h : Passthru)
    → (h' : Passthru) × (hash user h ≡ some h') × (finish h' ≡ user.hash)
unfolding hash finish
hash-finish user h = (record { hash = user.hash }, refl, refl)
