-- ===== src/Common/Decimal.antt =====
-- Numbers as text: `Display`, `FromStr` and `from_str_radix` of the unsigned integers.
use Prim.Native.Nat.{ℕ, zero, suc, ◌+◌, ◌-◌, ◌*◌, ◌/◌, ◌%◌, ◌<◌, ◌≤◌}
use mathlib.Core.Path.{◌≡◌, refl, ◌∙◌, ap}
use mathlib.Core.Logic.{inl, inr}
use mathlib.Core.Bool.{false, ◌&&◌}
use mathlib.Core.Option.{Option, none, some}
use mathlib.Core.List.{[], ◌∷◌}
use native.Mathlib.Omega.{arith}
use notify_push.Common.Lists.{is_empty}
use notify_push.Common.Tests.{ltb, leb, nat_eq, ◌==◌, if◌then◌else◌, Bool-cases}
use notify_push.Common.Text.{Str}

-- The digits of a number below `10 ^ fuel`, before what follows.
digits_before : ℕ → ℕ → Str → Str
digits_before zero n rest = rest
digits_before (suc fuel) n rest =
    let shorter = digits_before fuel (n / 10) ((b'0' + n % 10) ∷ rest) in
    if ltb n 10 then (b'0' + n) ∷ rest else shorter

-- `to_string` of an integer: a number is below `10 ^ n` for `n` its successor.
unfoldable pub to_string : ℕ → Str
unfolding digits_before
to_string n = digits_before (suc n) n []

-- The digits that follow, in a radix up to 10; `none` at another character or above the maximum.
digits_value : ℕ → ℕ → ℕ → Str → Option ℕ
digits_value radix most value [] = some value
digits_value radix most value (c ∷ s) =
    if leb b'0' c && ltb c (b'0' + radix) && leb (value * radix + (c - b'0')) most
    then digits_value radix most (value * radix + (c - b'0')) s
    else none

-- A leading `+` is passed over, and one digit must be there.
unsigned_value : ℕ → ℕ → Str → Option ℕ
unsigned_value radix most [] = none
unsigned_value radix most (c ∷ s) =
    if c == b'+'
    then (if is_empty s then none else digits_value radix most 0 s)
    else digits_value radix most 0 (c ∷ s)

unfoldable pub from_str_radix : ℕ → ℕ → Str → Option ℕ
unfolding unsigned_value digits_value
from_str_radix radix most s = unsigned_value radix most s

-- `u32::from_str` and `usize::from_str`, by the maximum.
unfoldable pub from_str : ℕ → Str → Option ℕ
unfolding from_str_radix
from_str most s = from_str_radix 10 most s

-- One digit more.
digits_value_step :
    (radix most value d : ℕ) (s : Str)
    → d < radix
    → value * radix + d ≤ most
    → digits_value radix most value ((b'0' + d) ∷ s) ≡ digits_value radix most (value * radix + d) s
unfolding digits_value
digits_value_step radix most value d s h b = ground arith

digits_value-digits_before :
    (most fuel n : ℕ) (rest : Str)
    → n < fuel
    → n ≤ most
    → digits_value 10 most 0 (digits_before fuel n rest) ≡ digits_value 10 most n rest
unfolding digits_value digits_before
digits_value-digits_before most zero n rest h b = absurd (omega arith)
digits_value-digits_before most (suc fuel) n rest h b = elim (Bool-cases (ltb n 10)) [
  | inl small ↦ rw small (ground arith)
  | inr large ↦ rw large (
      digits_value-digits_before most fuel (n / 10) ((b'0' + n % 10) ∷ rest) (ground arith)
        (ground arith)
      ∙ ground arith)
]

digits_before_head :
    (fuel n : ℕ) (rest : Str)
    → n < fuel
    → (c : ℕ) × (s : Str) × (digits_before fuel n rest ≡ c ∷ s) × (b'0' ≤ c)
unfolding digits_before
digits_before_head zero n rest h = absurd (omega arith)
digits_before_head (suc fuel) n rest h = elim (Bool-cases (ltb n 10)) [
  | inl small ↦ rw small (b'0' + n, rest, refl, omega arith)
  | inr large ↦ rw large (digits_before_head fuel (n / 10) ((b'0' + n % 10) ∷ rest) (ground arith))
]

-- A number that is printed is read back, if it is at most the maximum.
pub from_str-to_string : (most n : ℕ) → n ≤ most → from_str most (to_string n) ≡ some n
unfolding from_str to_string
from_str-to_string most n h =
    let (c, s, e, above) = digits_before_head (suc n) n [] (omega arith) in
    let value = digits_value-digits_before most (suc n) n [] (omega arith) h in
    rw (e, from_str) (ground (arith, rw e at value))

pub to_string-filled : (n : ℕ) → is_empty (to_string n) ≡ false
unfolding to_string
to_string-filled n =
    let (c, s, e, above) = digits_before_head (suc n) n [] (omega arith) in rw e refl

-- A number as four octal digits.
abbrev pub octal : ℕ → Str
octal n = (b'0' + n / 512 % 8) ∷ (b'0' + n / 64 % 8) ∷ (b'0' + n / 8 % 8) ∷ (b'0' + n % 8) ∷ []

unsigned_digit :
    (most d : ℕ) (s : Str)
    → d < 8
    → unsigned_value 8 most ((b'0' + d) ∷ s) ≡ digits_value 8 most 0 ((b'0' + d) ∷ s)
unfolding unsigned_value
unsigned_digit most d s h = ground arith

-- Four octal digits are read as their number.
pub from_str_radix-octal :
    (most n : ℕ) → 4096 ≤ most → n < 4096 → from_str_radix 8 most (octal n) ≡ some n
unfolding from_str_radix digits_value
from_str_radix-octal most n b h =
    let d2 : ℕ = n / 64 % 8 in
    let d1 : ℕ = n / 8 % 8 in
    let d0 : ℕ = n % 8 in
    let d3 : ℕ = n / 512 % 8 in
    let first : ℕ = 0 * 8 + d3 in
    let second : ℕ = first * 8 + d2 in
    let third : ℕ = second * 8 + d1 in
    let end : Str = (b'0' + d0) ∷ [] in
    let back : Str = (b'0' + d1) ∷ end in
    let tail : Str = (b'0' + d2) ∷ back in
    unsigned_digit most d3 tail (omega arith)
    ∙ digits_value_step 8 most 0 d3 tail (omega arith) (omega arith)
    ∙ digits_value_step 8 most first d2 back (omega arith) (omega arith)
    ∙ digits_value_step 8 most second d1 end (omega arith) (omega arith)
    ∙ digits_value_step 8 most third d0 [] (omega arith) (omega arith)
    ∙ ap some (omega arith)
