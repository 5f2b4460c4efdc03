-- ===== src/Config/Sources/Precedence.antt =====
-- src/config.rs: which source an option is taken from.
use notify_push.Common.{
  ◌≡◌, ◌⊎◌, inl, inr, Option-cases, refl, sym, ap, ◌∙◌, List, [], ◌∷◌, map, Option, none, some, or,
  unwrap_or, Bool, false, if◌then◌else◌, is_empty, Result, ok, err, ◌>>=◌,
}
use notify_push.Common.Text.{Str, codes}
use notify_push.Config.{Outside, Opt, Config, PartialConfig, FileConfig, permissions_of, try_from}
use notify_push.Config.Permissions.{gathered_url}
use notify_push.Config.Sources.{merge, default, from_opt, from_file, from_env, partial_from_opt}

or_assoc {ℓ} : {A : Type ℓ} (a b c : Option A) → or (or a b) c ≡ or a (or b c)
or_assoc none b c = refl
or_assoc (some a) b c = refl

or-none {ℓ} : {A : Type ℓ} (a : Option A) → or a none ≡ a
or-none none = refl
or-none (some a) = refl

first_assoc {ℓ} :
    {A : Type ℓ} (a b c : List A)
    → (if is_empty (if is_empty a then b else a) then c else (if is_empty a then b else a))
      ≡ (if is_empty a then (if is_empty b then c else b) else a)
first_assoc [] b c = refl
first_assoc (x ∷ a) b c = refl

first-nil {ℓ} : {A : Type ℓ} (a : List A) → (if is_empty a then [] else a) ≡ a
first-nil [] = refl
first-nil (x ∷ a) = refl

module _ {X : Type 0} (out : Outside X) where
  -- Which of three sources an option comes from does not depend on the order in which they are
  -- merged, only on their order of preference; and the empty configuration changes nothing.
  pub merge_assoc :
      (a b c : PartialConfig out)
      → (merge out (merge out a b) c ≡ merge out a (merge out b c))
        × (merge out (default out) a ≡ a)
        × (merge out a (default out) ≡ a)
  unfolding merge default
  merge_assoc a b c = (simp (or_assoc, first_assoc), refl, simp (or-none, first-nil))

-- The first that is given.
abbrev pub first_given {ℓ} : {A : Type ℓ} → List (Option A) → Option A
first_given [] = none
first_given (none ∷ rest) = first_given rest
first_given (some a ∷ rest) = some a

first_given-or {ℓ} : {A : Type ℓ} (a b c : Option A) → or (or a b) c ≡ first_given (a ∷ b ∷ c ∷ [])
first_given-or (some a) b c = refl
first_given-or none (some b) c = refl
first_given-or none none (some c) = refl
first_given-or none none none = refl

-- The first list that is not empty.
abbrev pub first_filled {ℓ} : {A : Type ℓ} → List (List A) → List A
first_filled [] = []
first_filled ([] ∷ rest) = first_filled rest
first_filled ((x ∷ xs) ∷ rest) = x ∷ xs

first_filled-is_empty {ℓ} :
    {A : Type ℓ} (a b c : List A)
    → (let ab = if is_empty a then b else a in if is_empty ab then c else ab)
      ≡ first_filled (a ∷ b ∷ c ∷ [])
first_filled-is_empty (x ∷ a) b c = refl
first_filled-is_empty [] (x ∷ b) c = refl
first_filled-is_empty [] [] (x ∷ c) = refl
first_filled-is_empty [] [] [] = refl

module _ {X : Type 0} (out : Outside X) where
  -- Each option is the first that the sources give, in their order, or its default.
  pub record Chosen (sources : List (PartialConfig out)) (c : Config out) : Type 0 where
    pub database_chosen : some c.database ≡ first_given (map (λ s. s.database) sources)
    pub database_prefix_chosen :
        c.database_prefix
        ≡ unwrap_or (first_given (map (λ s. s.database_prefix) sources)) (codes "oc_")
    pub redis_chosen : c.redis ≡ first_filled (map (λ s. s.redis) sources)
    pub log_level_chosen :
        c.log_level ≡ unwrap_or (first_given (map (λ s. s.log_level) sources)) (codes "warn")
    pub allow_self_signed_chosen :
        c.allow_self_signed ≡ unwrap_or (first_given (map (λ s. s.allow_self_signed) sources)) false
    pub no_ansi_chosen : c.no_ansi ≡ unwrap_or (first_given (map (λ s. s.no_ansi) sources)) false
    pub tls_chosen : c.tls ≡ first_given (map (λ s. s.tls) sources)
    pub max_debounce_time_chosen :
        c.max_debounce_time ≡ unwrap_or (first_given (map (λ s. s.max_debounce_time) sources)) 15
    pub max_connection_time_chosen :
        c.max_connection_time ≡ unwrap_or (first_given (map (λ s. s.max_connection_time) sources)) 0

  merged-Chosen :
      (a b f : PartialConfig out) (c : Config out)
      → try_from out (merge out (merge out a b) f) ≡ ok c
      → Chosen (a ∷ b ∷ f ∷ []) c
  unfolding try_from merge
  merged-Chosen a b f c e =
      let config = merge out (merge out a b) f in
      let (m, u, d, url, mode, base, made) =
        gathered_url out _ (permissions_of out config.socket_permissions) config.nextcloud_url
          config.database c e in
      record {
        database_chosen =
            ap (λ (k : Config out). some k.database) (sym made)
            ∙ sym base
            ∙ first_given-or a.database b.database f.database;
        database_prefix_chosen =
            ap (λ (k : Config out). k.database_prefix) (sym made)
            ∙ ap (λ o. unwrap_or o (codes "oc_"))
                (first_given-or a.database_prefix b.database_prefix f.database_prefix);
        redis_chosen =
            ap (λ (k : Config out). k.redis) (sym made)
            ∙ first_filled-is_empty a.redis b.redis f.redis;
        log_level_chosen =
            ap (λ (k : Config out). k.log_level) (sym made)
            ∙ ap (λ o. unwrap_or o (codes "warn"))
                (first_given-or a.log_level b.log_level f.log_level);
        allow_self_signed_chosen =
            ap (λ (k : Config out). k.allow_self_signed) (sym made)
            ∙ ap (λ o. unwrap_or o false)
                (first_given-or a.allow_self_signed b.allow_self_signed f.allow_self_signed);
        no_ansi_chosen =
            ap (λ (k : Config out). k.no_ansi) (sym made)
            ∙ ap (λ o. unwrap_or o false) (first_given-or a.no_ansi b.no_ansi f.no_ansi);
        tls_chosen = ap (λ (k : Config out). k.tls) (sym made) ∙ first_given-or a.tls b.tls f.tls;
        max_debounce_time_chosen =
            ap (λ (k : Config out). k.max_debounce_time) (sym made)
            ∙ ap (λ o. unwrap_or o 15)
                (first_given-or a.max_debounce_time b.max_debounce_time f.max_debounce_time);
        max_connection_time_chosen =
            ap (λ (k : Config out). k.max_connection_time) (sym made)
            ∙ ap (λ o. unwrap_or o 0)
                (first_given-or a.max_connection_time b.max_connection_time f.max_connection_time);
      }

  alone-tls :
      (opt : Opt out)
      → (opt.tls_cert ≡ none) ⊎ (opt.tls_key ≡ none)
      → (partial_from_opt out opt).tls ≡ none
  unfolding partial_from_opt
  alone-tls opt (inl no_cert) = rw no_cert refl
  alone-tls opt (inr no_key) = elim (Option-cases opt.tls_cert) [
    | inl e ↦ rw e refl
    | inr (cert, e) ↦ rw (e, no_key) refl
  ]

  bound :
      {A B E : Type 0} (r : Result A E) (f : A → Result B E) (b : B)
      → (r >>= f) ≡ ok b
      → (a : A) × (r ≡ ok a) × (f a ≡ ok b)
  bound (ok a) f b e = (a, refl, e)
  bound (err x) f b e = absurd (cc)

  -- When the options are taken, an option on the command line goes before the environment, and that
  -- before the file; what none gives has its default. This holds of each option but the url, the
  -- permissions and the addresses to bind to; the certificate and the key for TLS count as one
  -- option, and one of them given alone on the command line is ignored: both are then those of the
  -- environment, or else of the file.
  pub from_opt-Chosen :
      (parse : Bool → Str → Result (FileConfig out.Connection) X) (opt : Opt out) (c : Config out)
      → from_opt out parse opt ≡ ok c
      → (file env : PartialConfig out) × (from_file out parse opt ≡ ok file)
        × (from_env out ≡ ok env)
        × Chosen (partial_from_opt out opt ∷ env ∷ file ∷ []) c
        × ((opt.tls_cert ≡ none) ⊎ (opt.tls_key ≡ none)
            → c.tls ≡ first_given (env.tls ∷ file.tls ∷ []))
  unfolding from_opt
  from_opt-Chosen parse opt c e =
      let (file, read, rest) = bound (from_file out parse opt) _ c e in
      let (env, found, last) = bound (from_env out) _ c rest in
      let chosen = merged-Chosen (partial_from_opt out opt) env file c last in
      (
        file,
        env,
        read,
        found,
        chosen,
        λ alone.
            chosen.tls_chosen
            ∙ ap (λ tls. first_given (tls ∷ env.tls ∷ file.tls ∷ [])) (alone-tls opt alone),
      )
