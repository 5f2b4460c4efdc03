-- ===== src/Storage/Tasks/Ends.antt =====
-- src/storage_mapping.rs: a look-up that is run often enough returns.
use notify_push.Common.{
  ℕ, zero, suc, ◌+◌, ◌-◌, ◌≤◌, ◌≡◌, ◌≢◌, refl, ◌⊎◌, inl, inr, subst, ◌∙◌, List, [], ◌∷◌, ◌++◌, Bool,
  true, false, some, Result, nat_eq, ◌==◌, arith, All, if◌then◌else◌,
}
use notify_push.Common.Text.{Str}
use notify_push.Metrics.{Metrics}
use notify_push.Error.{DatabaseError}
use notify_push.Dash.{DashMap}
use notify_push.Storage.{CachedAccess, Database, StorageMapping}
use notify_push.Storage.Tasks.{
  At, asked, hit, loads, fills, inserts, gets, answered, panicked, Lookup, found, fetched,
  unwrapped, advance, advance_at, Race, Step, passes, requests, goes_on, step, run, start,
}
use notify_push.Connection.System.Tasks.{place, place-All}
use notify_push.Storage.Tasks.Kept.{InRange}
use notify_push.Storage.Tasks.Answers.{IsAnswered, run-IsAnswered}

place-append {ℓ} :
    {A : Type ℓ} (n : ℕ) (xs ys : List A) (x : A)
    → place n xs ≡ some x
    → place n (xs ++ ys) ≡ some x
place-append n [] ys x e = absurd (cc)
place-append zero (y ∷ xs) ys x e = e
place-append (suc n) (y ∷ xs) ys x e = place-append n xs ys x e

-- How many steps are left at most.
abbrev rank : {X : Type 0} → At X → ℕ
rank asked = 5
rank (hit looked cached) = 0
rank (loads looked) = 4
rank (fills looked users) = 3
rank (inserts looked cached) = 2
rank (gets looked) = 1
rank (answered looked result) = 0
rank panicked = 0

rank_most : {X : Type 0} (at : At X) → rank at ≤ 5
rank_most at = ground arith

module _ {Options Pool X : Type 0} (sql : Database Options Pool X)
    (dm : DashMap ℕ CachedAccess) where
  -- How often the look-up at a place goes on.
  abbrev pub turns : ℕ → List (Step sql dm) → ℕ
  turns n [] = 0
  turns n (goes_on m range ∷ steps) = let rest = turns n steps in if m == n then suc rest else rest
  turns n (_ ∷ steps) = turns n steps

  advance-rank :
      (range clock storage : ℕ) (at : At X) (s : StorageMapping sql dm)
      → rank (advance sql dm range clock storage at s).0 ≤ rank at - 1
  unfolding advance
  advance-rank range clock storage asked s = unfold found in ground arith
  advance-rank range clock storage (loads looked) s = unfold fetched in ground arith
  advance-rank range clock storage (fills looked users) s = omega arith
  advance-rank range clock storage (hit looked cached) s = omega arith
  advance-rank range clock storage (inserts looked cached) s = omega arith
  advance-rank range clock storage (gets looked) s = unfold unwrapped in ground arith
  advance-rank range clock storage (answered looked result) s = omega arith
  advance-rank range clock storage panicked s = omega arith

  -- The look-up at a place, after steps of which some are its own.
  record Goes (n own : ℕ) (l : Lookup X) (ls : List (Lookup X)) : Type 0 where
    after : Lookup X
    at_place : place n ls ≡ some after
    same_storage : after.storage ≡ l.storage
    lower : rank after.at ≤ rank l.at - own

  advance_at-Goes :
      (m n range clock : ℕ) (ls : List (Lookup X)) (s : StorageMapping sql dm) (l : Lookup X)
      → place n ls ≡ some l
      → Goes n (if m == n then 1 else 0) l (advance_at sql dm m range clock ls s).0
  unfolding advance_at
  advance_at-Goes m n range clock [] s l e = absurd (cc)
  advance_at-Goes zero zero range clock (x ∷ ls) s l e =
      subst (λ l. Goes 0 1 l (advance_at sql dm 0 range clock (x ∷ ls) s).0) (ground arith)
        (record {
          after = record x { at = (advance sql dm range clock x.storage x.at s).0 };
          at_place = refl;
          same_storage = refl;
          lower = advance-rank range clock x.storage x.at s;
        })
  advance_at-Goes zero (suc n) range clock (x ∷ ls) s l e = record {
    after = l;
    at_place = e;
    same_storage = refl;
    lower = ground arith;
  }
  advance_at-Goes (suc m) zero range clock (x ∷ ls) s l e = record {
    after = l;
    at_place = e;
    same_storage = refl;
    lower = ground arith;
  }
  advance_at-Goes (suc m) (suc n) range clock (x ∷ ls) s l e =
      let g = advance_at-Goes m n range clock ls s l e in
      record {
        after = g.after;
        at_place = g.at_place;
        same_storage = g.same_storage;
        lower = ground (arith, g.lower);
      }

  then_Goes :
      (n own more : ℕ) (l : Lookup X) (ls ls' : List (Lookup X)) (g : Goes n own l ls)
      → Goes n more g.after ls'
      → Goes n (own + more) l ls'
  then_Goes n own more l ls ls' g h = record {
    after = h.after;
    at_place = h.at_place;
    same_storage = h.same_storage ∙ g.same_storage;
    lower = omega (arith, g.lower, h.lower);
  }

  one_more : (b : Bool) (n : ℕ) → (if b then 1 else 0) + n ≡ (if b then suc n else n)
  one_more true n = omega arith
  one_more false n = omega arith

  run-Goes :
      (steps : List (Step sql dm)) (n : ℕ) (r : Race sql dm) (l : Lookup X)
      → place n r.lookups ≡ some l
      → Goes n (turns n steps) l (run sql dm steps r).lookups
  unfolding run step
  run-Goes [] n r l e = record { after = l; at_place = e; same_storage = refl; lower = omega arith }
  run-Goes (passes time ∷ steps) n r l e = run-Goes steps n (step sql dm (passes time) r) l e
  run-Goes (requests storage ∷ steps) n r l e =
      run-Goes steps n (step sql dm (requests storage) r) l (place-append n r.lookups _ l e)
  run-Goes (goes_on m range ∷ steps) n r l e =
      let first = advance_at-Goes m n range r.clock r.lookups r.mapping l e in
      let r' = step sql dm (goes_on m range) r in
      subst (λ own. Goes n own l (run sql dm steps r').lookups) (one_more (m == n) (turns n steps))
        (then_Goes n (if m == n then 1 else 0) (turns n steps) l r'.lookups
          (run sql dm steps r').lookups first (run-Goes steps n r' first.after first.at_place))

  run-append :
      (before steps : List (Step sql dm)) (r : Race sql dm)
      → run sql dm (before ++ steps) r ≡ run sql dm steps (run sql dm before r)
  unfolding run
  run-append [] steps r = refl
  run-append (s ∷ before) steps r = run-append before steps (step sql dm s r)

  -- A look-up has returned, with what it found in the cache, or with what its query led to.
  abbrev pub Returned : At X → Type 0
  Returned at =
      ((looked : ℕ) × (cached : CachedAccess) × (at ≡ hit looked cached))
      ⊎ ((looked : ℕ) × (result : Result CachedAccess (DatabaseError X)) × (at
            ≡ answered looked result))

  rank-zero : (at : At X) → rank at ≡ 0 → at ≢ panicked → Returned at
  rank-zero (hit looked cached) h p = inl (looked, cached, refl)
  rank-zero (answered looked result) h p = inr (looked, result, refl)
  rank-zero panicked h p = absurd (p refl)
  rank-zero asked h p = absurd (omega arith)
  rank-zero (loads looked) h p = absurd (omega arith)
  rank-zero (fills looked users) h p = absurd (omega arith)
  rank-zero (inserts looked cached) h p = absurd (omega arith)
  rank-zero (gets looked) h p = absurd (omega arith)

  -- The look-up at a place has returned, for its storage, with what `IsAnswered` says of that.
  pub record Ended (pool : Pool) (prefix : Str) (n storage : ℕ) (r : Race sql dm) : Type 0 where
    pub lookup : Lookup X
    pub at_place : place n r.lookups ≡ some lookup
    pub same_storage : lookup.storage ≡ storage
    pub returned : Returned lookup.at
    pub is_answered : IsAnswered sql dm pool prefix r.clock lookup

  -- A look-up that has been asked for and then goes on at least five times has returned, whatever steps
  -- of others come between, if the draws are from 4 minutes to below 5: with an entry that was made,
  -- of rows that the database gave for its storage, less than 5 minutes before it looked; or, after
  -- its query, with one that was made of such rows; or with an error that the database gave.
  pub run-answered :
      (before steps : List (Step sql dm)) (clock n : ℕ) (pool : Pool) (prefix : Str)
      (metrics : Metrics) (l : Lookup X)
      → All (InRange sql dm pool prefix) (before ++ steps)
      → place n (run sql dm before (start sql dm clock pool prefix metrics)).lookups ≡ some l
      → 5 ≤ turns n steps
      → Ended pool prefix n l.storage
          (run sql dm (before ++ steps) (start sql dm clock pool prefix metrics))
  run-answered before steps clock n pool prefix metrics l short e enough =
      let first = start sql dm clock pool prefix metrics in
      let g = run-Goes steps n (run sql dm before first) l e in
      let last = run sql dm (before ++ steps) first in
      let there : place n last.lookups ≡ some g.after = rw run-append g.at_place in
      let good =
        place-All (IsAnswered sql dm pool prefix last.clock) n _ g.after there
          (run-IsAnswered sql dm pool prefix (before ++ steps) clock metrics short) in
      record {
        lookup = g.after;
        at_place = there;
        same_storage = g.same_storage;
        returned = rank-zero g.after.at (omega (arith, g.lower, rank_most l.at)) good.no_panic;
        is_answered = good;
      }
