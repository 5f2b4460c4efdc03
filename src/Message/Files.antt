-- ===== src/Message/Files.antt =====
-- src/message.rs: what a merged set of updated files stands for.
use notify_push.Common.{
  ℕ, List, [], ◌∷◌, ◌++◌, Bool, true, false, ◌||◌, ◌≡◌, refl, ap, sym, ◌∙◌, arith, contains, nat_eq,
  nat_beq, nat_beq_iff, contains-append, IsDistinct, Bool-cases, inl, inr,
}
use notify_push.Message.{UpdatedFiles, unknown, known, push_id, push_ids, extend}

-- The ids that a client has to refresh: all of them, where they are not known.
abbrev pub covers : UpdatedFiles → ℕ → Bool
covers unknown id = true
covers (known ids) id = contains ids id

contains-push_id :
    (items : List ℕ) (x id : ℕ) → contains (push_id items x) id ≡ contains items id || nat_beq x id
unfolding push_id
contains-push_id items x id = elim (Bool-cases (nat_beq x id)) [
  | inl same ↦ rw (← (nat_beq_iff x id).0 same) (ground (arith, contains-append items (x ∷ []) x))
  | inr other ↦ ground (arith, contains-append items (x ∷ []) id)
]

contains-push_ids :
    (items b : List ℕ) (id : ℕ)
    → contains (push_ids items b) id ≡ contains items id || contains b id
unfolding push_ids
contains-push_ids items [] id = ground arith
contains-push_ids items (x ∷ b) id =
    ground (arith, contains-push_ids (push_id items x) b id, contains-push_id items x id)

-- The ids of a merged set are those of either part.
pub covers-extend :
    (a b : UpdatedFiles) (id : ℕ) → covers (extend a b) id ≡ covers a id || covers b id
unfolding extend
covers-extend (known items) (known b) id = contains-push_ids items b id
covers-extend (known items) unknown id = ground arith
covers-extend unknown _ id = refl

-- The queue never names a file twice.
abbrev pub IsDistinctFiles : UpdatedFiles → Type 0
IsDistinctFiles unknown = Unit
IsDistinctFiles (known ids) = IsDistinct ids

IsDistinct-snoc :
    (items : List ℕ) (x : ℕ)
    → contains items x ≡ false
    → IsDistinct items
    → IsDistinct (items ++ x ∷ [])
IsDistinct-snoc [] x h d = (refl, tt)
IsDistinct-snoc (y ∷ items) x h d = (
  ground (arith, contains-append items (x ∷ []) y, nat_beq_iff x y, nat_beq_iff y x),
  IsDistinct-snoc items x (ground arith) d.1,
)

push_ids-IsDistinct : (items b : List ℕ) → IsDistinct items → IsDistinct (push_ids items b)
unfolding push_ids push_id
push_ids-IsDistinct items [] d = d
push_ids-IsDistinct items (x ∷ b) d = elim (Bool-cases (contains items x)) [
  | inl old ↦ rw old (push_ids-IsDistinct items b d)
  | inr fresh ↦ rw fresh (push_ids-IsDistinct (items ++ x ∷ []) b (IsDistinct-snoc items x fresh d))
]

-- Merging keeps the ids of the set distinct, whatever it is merged with.
pub extend-IsDistinct : (a b : UpdatedFiles) → IsDistinctFiles a → IsDistinctFiles (extend a b)
unfolding extend
extend-IsDistinct (known items) (known b) d = push_ids-IsDistinct items b d
extend-IsDistinct (known items) unknown d = tt
extend-IsDistinct unknown _ d = tt

push_ids-append : (items b c : List ℕ) → push_ids items (b ++ c) ≡ push_ids (push_ids items b) c
unfolding push_ids
push_ids-append items [] c = refl
push_ids-append items (x ∷ b) c = push_ids-append (push_id items x) b c

push_ids_assoc :
    (items b c : List ℕ) → push_ids (push_ids items b) c ≡ push_ids items (push_ids b c)
unfolding push_ids push_id
push_ids_assoc items b [] = refl
push_ids_assoc items b (x ∷ c) = elim (Bool-cases (contains b x)) [
  | inl old ↦
      rw old (rw (contains-push_ids items b x, old) (ground (arith, push_ids_assoc items b c)))
  | inr fresh ↦ rw fresh (
      sym (ap (λ l. push_ids l c) (push_ids-append items b (x ∷ [])))
      ∙ push_ids_assoc items (b ++ x ∷ []) c)
]

-- How a run of updates is grouped before it is merged makes no difference.
pub extend_assoc : (a b c : UpdatedFiles) → extend (extend a b) c ≡ extend a (extend b c)
unfolding extend
extend_assoc (known a) (known b) (known c) = ap known (push_ids_assoc a b c)
extend_assoc (known a) (known b) unknown = refl
extend_assoc (known a) unknown _ = refl
extend_assoc unknown _ _ = refl
