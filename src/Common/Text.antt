-- ===== src/Common/Text.antt =====
-- Text as the list of its bytes.
use Prim.Native.Nat.{ℕ}
use Prim.Native.Char.{code}
use Prim.Native.String.{String}
use mathlib.Core.Path.{◌≡◌, refl}
use mathlib.Core.Logic.{◌↔◌}
use mathlib.Core.Bool.{Bool, true, false, ◌&&◌}
use mathlib.Core.List.{List, [], ◌∷◌}
use native.Mathlib.Omega.{arith}
use notify_push.Common.Tests.{Eq, nat_beq, nat_beq_iff}

abbrev pub Str : Type 0
Str = List ℕ

-- A literal; the source's literals are ASCII.
abbrev pub codes : String → Str
codes String.[] = []
codes (String.◌∷◌ c s) = code c ∷ codes s

abbrev pub str_beq : Str → Str → Bool
str_beq [] [] = true
str_beq [] (b ∷ t) = false
str_beq (a ∷ s) [] = false
str_beq (a ∷ s) (b ∷ t) = nat_beq a b && str_beq s t

pub str_beq_iff : (s t : Str) → (str_beq s t ≡ true) ↔ (s ≡ t)
str_beq_iff [] [] = (λ _. refl, λ _. refl)
str_beq_iff [] (b ∷ t) = (λ h. cc, λ h. cc)
str_beq_iff (a ∷ s) [] = (λ h. cc, λ h. cc)
str_beq_iff (a ∷ s) (b ∷ t) = ground (arith, nat_beq_iff a b, str_beq_iff s t)

pub str_beq_sound : {s t : Str} → str_beq s t ≡ true → s ≡ t
str_beq_sound {s} {t} = (str_beq_iff s t).0

pub str_beq_self : (s : Str) → str_beq s s ≡ true
str_beq_self s = (str_beq_iff s s).1 refl

instance abbrev pub str_eq : Eq Str
str_eq = record { equal = str_beq; equal_sound = str_beq_sound; equal_self = str_beq_self }

-- `str::starts_with`.
abbrev pub starts_with : Str → Str → Bool
starts_with s [] = true
starts_with [] (p ∷ q) = false
starts_with (a ∷ s) (p ∷ q) = nat_beq a p && starts_with s q

-- `str::ends_with` of one ASCII character.
abbrev pub ends_with : Str → ℕ → Bool
ends_with [] c = false
ends_with (a ∷ []) c = nat_beq a c
ends_with (a ∷ b ∷ s) c = ends_with (b ∷ s) c
