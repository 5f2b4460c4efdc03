-- ===== src/Common/Tests.antt =====
-- Boolean tests on numbers, the conditional, and equality as an interface.
use Prim.Native.Nat.{ℕ, ◌*◌, ◌^◌, compare, Ordering}
use mathlib.Core.Path.{◌≡◌, refl}
use mathlib.Core.Logic.{◌↔◌, ◌⊎◌, inl, inr}
use mathlib.Core.Bool.{Bool, true, false}
use mathlib.Core.Option.{Option, none, some}
use native.Mathlib.Omega.{arith}

abbrev pub ltb : ℕ → ℕ → Bool
ltb a b = elim (compare a b) [ Ordering.lt ↦ true | _ ↦ false ]

abbrev pub leb : ℕ → ℕ → Bool
leb a b = elim (compare a b) [ Ordering.gt ↦ false | _ ↦ true ]

abbrev pub nat_beq : ℕ → ℕ → Bool
nat_beq a b = elim (compare a b) [ Ordering.eq ↦ true | _ ↦ false ]

infix 1 if◌then◌else◌
abbrev pub if◌then◌else◌ {ℓ} : {A : Type ℓ} → Bool → A → A → A
if true then x else y = x
if false then x else y = y

pub nat_beq_iff : (a b : ℕ) → (nat_beq a b ≡ true) ↔ (a ≡ b)
nat_beq_iff a b = ground arith

-- What the code relies on in a type's `PartialEq`: it holds of equal values only, and of each value
-- and itself.
pub record Eq (K : Type 0) : Type 0 where
  pub equal : K → K → Bool
  pub equal_sound : {k j : K} → equal k j ≡ true → k ≡ j
  pub equal_self : (k : K) → equal k k ≡ true

infix 50 ◌==◌
abbrev pub ◌==◌ : {K : Type 0} ⦃keys : Eq K⦄ → K → K → Bool
◌==◌ ⦃keys⦄ k j = keys.equal k j

pub nat_beq_sound : {k j : ℕ} → nat_beq k j ≡ true → k ≡ j
nat_beq_sound {k} {j} = (nat_beq_iff k j).0

pub nat_beq_self : (k : ℕ) → nat_beq k k ≡ true
nat_beq_self k = (nat_beq_iff k k).1 refl

instance abbrev pub nat_eq : Eq ℕ
nat_eq = record { equal = nat_beq; equal_sound = nat_beq_sound; equal_self = nat_beq_self }

pub Bool-cases : (b : Bool) → (b ≡ true) ⊎ (b ≡ false)
Bool-cases true = inl refl
Bool-cases false = inr refl

pub Option-cases {ℓ} : {A : Type ℓ} (o : Option A) → (o ≡ none) ⊎ ((a : A) × (o ≡ some a))
Option-cases none = inl refl
Option-cases (some a) = inr (a, refl)

abbrev pub is_some {ℓ} : {A : Type ℓ} → Option A → Bool
is_some none = false
is_some (some a) = true

-- A `usize` or `u64` has 64 bits.
abbrev pub usize_mod : ℕ
usize_mod = 2 ^ 64

-- Times and durations are numbers of nanoseconds.
abbrev pub from_secs : ℕ → ℕ
from_secs n = n * 1000000000

abbrev pub from_millis : ℕ → ℕ
from_millis n = n * 1000000
