-- ===== src/Connection/System/Tasks.antt =====
-- src/connection.rs: the list of the tasks, counted by the channel of their receivers.
use notify_push.Common.{
  ℕ, zero, suc, ◌+◌, ◌≡◌, List, [], ◌∷◌, ◌++◌, Option, none, some, subst, Option-cases, inl, inr,
  if◌then◌else◌, All, arith, nat_eq, nat_beq, nat_beq_iff, Bool-cases, ◌≢◌,
}
use notify_push.Connection.System.{select}

pub select-eq {ℓ} :
    {A : Type ℓ} (n : ℕ) (xs : List A) {before : List A} {x : A} {after : List A}
    → select n xs ≡ some (before, x, after)
    → xs ≡ before ++ x ∷ after
unfolding select
select-eq n [] e = ground arith
select-eq zero (x ∷ xs) e = ground arith
select-eq (suc n) (x ∷ xs) e = elim (Option-cases (select n xs)) [
  | inl f ↦ ground arith
  | inr ((before, y, after), f) ↦ ground (arith, select-eq n xs f)
]

-- The element at a place.
abbrev pub place {ℓ} : {A : Type ℓ} → ℕ → List A → Option A
place n [] = none
place zero (x ∷ xs) = some x
place (suc n) (x ∷ xs) = place n xs

pub place-All {ℓ κ} :
    {A : Type ℓ} (P : A → Type κ) (n : ℕ) (xs : List A) (x : A)
    → place n xs ≡ some x
    → All P xs
    → P x
place-All P n [] x e h = absurd (cc)
place-All P zero (y ∷ xs) x e h = subst P (ground arith) h.0
place-All P (suc n) (y ∷ xs) x e h = place-All P n xs x e h.1

module _ {ℓ} {A : Type ℓ} where
  -- How many elements have the key.
  abbrev pub count : (A → ℕ) → ℕ → List A → ℕ
  count key j [] = 0
  count key j (x ∷ xs) = let rest = count key j xs in if nat_beq (key x) j then suc rest else rest

  pub count-append :
      (key : A → ℕ) (j : ℕ) (xs ys : List A)
      → count key j (xs ++ ys) ≡ count key j xs + count key j ys
  count-append key j [] ys = omega arith
  count-append key j (x ∷ xs) ys = ground (arith, count-append key j xs ys)

  pub All-map {κ μ} :
      {P : A → Type κ} {Q : A → Type μ} (xs : List A) → All P xs → ((x : A) → P x → Q x) → All Q xs
  All-map [] h f = tt
  All-map (x ∷ xs) h f = (f x h.0, All-map xs h.1 f)

  -- Where no element has the key, a statement need only be kept for the other keys.
  pub All-map_absent {κ μ} :
      {P : A → Type κ} {Q : A → Type μ} (key : A → ℕ) (j : ℕ) (xs : List A)
      → count key j xs ≡ 0
      → All P xs
      → ((x : A) → key x ≢ j → P x → Q x)
      → All Q xs
  All-map_absent key j [] c h f = tt
  All-map_absent key j (x ∷ xs) c h f = elim (Bool-cases (nat_beq (key x) j)) [
    | inl e ↦ absurd (ground arith)
    | inr e ↦ (
      f x (λ k. ground (arith, nat_beq_iff (key x) j)) h.0,
      All-map_absent key j xs (ground arith) h.1 f,
    )
  ]

  pub All-before {κ} : (P : A → Type κ) (xs ys : List A) → All P (xs ++ ys) → All P xs
  All-before P [] ys h = tt
  All-before P (x ∷ xs) ys h = (h.0, All-before P xs ys h.1)

  pub All-behind {κ} : (P : A → Type κ) (xs ys : List A) → All P (xs ++ ys) → All P ys
  All-behind P [] ys h = h
  All-behind P (x ∷ xs) ys h = All-behind P xs ys h.1

  pub All-append {κ} :
      (P : A → Type κ) (xs : List A) (x : A) → All P xs → P x → All P (xs ++ x ∷ [])
  All-append P [] x h p = (p, tt)
  All-append P (y ∷ ys) x h p = (h.0, All-append P ys x h.1 p)
