-- ===== src/Config/Permissions.antt =====
-- src/config.rs: which permissions and which options are taken.
use notify_push.Common.{
  ℕ, ◌<◌, ◌≡◌, refl, ◌↔◌, inl, inr, [], ◌∷◌, ◌++◌, Option, none, some, true, Result, ok, err, arith,
  nat_eq, is_some, ok_or, if◌then◌else◌, sym, ap, ◌∙◌, ◌>>=◌, Bool-cases,
}
use notify_push.Common.Text.{Str, codes, ends_with}
use notify_push.Common.Decimal.{octal, from_str_radix-octal}
use notify_push.Error.{ConfigError}
use notify_push.Config.{
  Outside, Config, PartialConfig, try_from, read_permissions, permissions_of, u32_max, with_slash,
}

ends_with-append : (s : Str) (c : ℕ) → ends_with (s ++ c ∷ []) c ≡ true
ends_with-append [] c = ground arith
ends_with-append (a ∷ []) c = ground arith
ends_with-append (a ∷ b ∷ s) c = ends_with-append (b ∷ s) c

with_slash-ends_with : (url : Str) → ends_with (with_slash url) b'/' ≡ true
unfolding with_slash
with_slash-ends_with url = elim (Bool-cases (ends_with url b'/')) [
  | inl e ↦ rw (e) e
  | inr e ↦ rw (e) (ends_with-append url b'/')
]

with_slash_if :
    (url : Str) → with_slash url ≡ (if ends_with url b'/' then url else url ++ codes "/")
unfolding with_slash
with_slash_if url = ground arith

module _ {X : Type 0} (out : Outside X) where
  -- Four octal digits are read as their number.
  pub read_permissions-octal : (n : ℕ) → n < 4096 → read_permissions out (octal n) ≡ ok n
  unfolding read_permissions
  read_permissions-octal n h = rw (from_str_radix-octal u32_max n (omega arith) h) refl

  -- The three that must be there, in the order of the code.
  abbrev pub Complete : Result ℕ (ConfigError X) → Option Str → Option out.Database → Type 0
  Complete mode url database =
      ((m : ℕ) × (mode ≡ ok m)) × (is_some url ≡ true) × (is_some database ≡ true)

  gathered :
      (build : ℕ → Str → out.Database → Config out) (mode : Result ℕ (ConfigError X))
      (url : Option Str) (database : Option out.Database)
      → let made = mode >>= λ m. ok_or url ConfigError.no_nextcloud >>= λ u.
          ok_or database ConfigError.no_database >>= λ d. ok (build m u d) in
        ((c : Config out) × (made ≡ ok c)) ↔ Complete mode url database
  gathered build (ok m) (some u) (some d) =
      ((λ _. ((m, refl), refl, refl)), (λ _. (build m u d, refl)))
  gathered build (ok m) (some u) none = (λ (c, h). absurd (cc), λ ((n, a), b, d). absurd (cc))
  gathered build (ok m) none database = (λ (c, h). absurd (cc), λ ((n, a), b, d). absurd (cc))
  gathered build (err e) url database = (λ (c, h). absurd (cc), λ ((n, a), b, d). absurd (cc))

  -- A configuration comes about exactly if the permissions can be read, and a url and a database are
  -- given.
  pub try_from_iff :
      (config : PartialConfig out)
      → ((c : Config out) × (try_from out config ≡ ok c))
        ↔ Complete
            (permissions_of out config.socket_permissions)
            config.nextcloud_url
            config.database
  unfolding try_from
  try_from_iff config =
      gathered _ (permissions_of out config.socket_permissions) config.nextcloud_url config.database

  pub gathered_url :
      (build : ℕ → Str → out.Database → Config out) (mode : Result ℕ (ConfigError X))
      (url : Option Str) (database : Option out.Database) (c : Config out)
      → (mode >>= λ m. ok_or url ConfigError.no_nextcloud >>= λ u.
          ok_or database ConfigError.no_database >>= λ d. ok (build m u d))
        ≡ ok c
      → (m : ℕ) × (u : Str) × (d : out.Database) × (url ≡ some u)
        × (mode ≡ ok m)
        × (database ≡ some d)
        × (build m u d ≡ c)
  gathered_url build (ok m) (some u) (some d) c e = (m, u, d, refl, refl, refl, ground arith)
  gathered_url build (ok m) (some u) none c e = absurd (cc)
  gathered_url build (ok m) none database c e = absurd (cc)
  gathered_url build (err x) url database c e = absurd (cc)

  -- The url of a configuration is the one that was given, with a slash after it if it has none at its
  -- end; it ends with a slash.
  pub try_from-ends_with :
      (config : PartialConfig out) (c : Config out)
      → try_from out config ≡ ok c
      → (u : Str) × (config.nextcloud_url ≡ some u)
        × (c.nextcloud_url ≡ (if ends_with u b'/' then u else u ++ codes "/"))
        × (ends_with c.nextcloud_url b'/' ≡ true)
  unfolding try_from
  try_from-ends_with config c e =
      let (m, u, d, url, mode, base, made) =
        gathered_url _ (permissions_of out config.socket_permissions) config.nextcloud_url
          config.database c e in
      let slash : c.nextcloud_url ≡ with_slash u =
        ap (λ (k : Config out). k.nextcloud_url) (sym made) in
      (u, url, slash ∙ with_slash_if u, rw slash (with_slash-ends_with u))
