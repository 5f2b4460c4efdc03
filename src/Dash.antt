-- ===== src/Dash.antt =====
-- The concurrent maps of the `dashmap` crate, as an interface. Each call is atomic: it holds the
-- lock of its key's shard.
use notify_push.Common.{Option, none, some, Bool, ◌≡◌, refl, Eq, ◌==◌, if◌then◌else◌}

-- Keeps a value that passes the test.
abbrev pub keep_if {ℓ κ} : {K : Type ℓ} {V : Type κ} → (K → V → Bool) → K → Option V → Option V
keep_if p k none = none
keep_if p k (some v) = if p k v then some v else none

pub record DashMap (K V : Type 0) ⦃e : Eq K⦄ : Type 1 where
  pub Map : Type 0
  pub empty : Map
  pub get : K → Map → Option V
  pub insert : K → V → Map → Map
  pub remove : K → Map → Map
  pub retain : (K → V → Bool) → Map → Map
  pub get-empty : (k : K) → get k empty ≡ none
  pub get-insert :
      (k j : K) (v : V) (m : Map) → get j (insert k v m) ≡ (if k == j then some v else get j m)
  pub get-remove : (k j : K) (m : Map) → get j (remove k m) ≡ (if k == j then none else get j m)
  pub get-retain : (p : K → V → Bool) (k : K) (m : Map) → get k (retain p m) ≡ keep_if p k (get k m)

-- A map as the function that it looks up.
abbrev pub function_map : (K V : Type 0) ⦃e : Eq K⦄ → DashMap K V
function_map K V = record {
  Map = K → Option V;
  empty = λ k. none;
  get = λ k m. m k;
  insert = λ k v m j. if k == j then some v else m j;
  remove = λ k m j. if k == j then none else m j;
  retain = λ p m k. keep_if p k (m k);
  get-empty = λ k. refl;
  get-insert = λ k j v m. refl;
  get-remove = λ k j m. refl;
  get-retain = λ p k m. refl;
}
