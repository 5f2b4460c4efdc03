-- ===== src/App/Serve/Sockets.antt =====
-- src/lib.rs: the socket file of a server, from its start to its end.
use notify_push.Common.{
  ℕ, Option, none, some, Result, ok, err, ◌≡◌, refl, sym, ap, Bool-cases, ◌∙◌, ◌⊎◌, inl, inr, arith,
  Bool, false, if◌then◌else◌, ◌==◌,
}
use notify_push.Common.Text.{Str, str_eq, str_beq_self}
use notify_push.Config.{Outside, TlsConfig, Bind, tcp, unix}
use notify_push.Error.{SocketError}
use notify_push.App.Serve.{FileSystem, Served, over_unix, permitted, bound, serve_at, end_of}

module _ {X : Type 0} (out : Outside X) (files : FileSystem X) where
  -- The path of a unix socket.
  abbrev pub socket_path : Bind out → Option Str
  socket_path (tcp addr port) = none
  socket_path (unix path permissions) = some path

  -- The mode that a file has while the server runs.
  abbrev pub served_mode : Bind out → Str → Option ℕ → Option ℕ
  served_mode (tcp addr port) other found = found
  served_mode (unix path permissions) other found =
      if path == other then some permissions else found

  -- What a removal leaves: nothing at its path if it succeeds, and all as it was if it fails.
  abbrev pub cleared : Result (Unit {0}) X → Bool → Option ℕ → Option ℕ
  cleared (ok _) same found = if same then none else found
  cleared (err e) same found = found

  -- The mode that a file has after the server has ended, on the files at its end.
  abbrev pub left_mode : Bind out → Str → files.Files → Option ℕ
  left_mode (tcp addr port) other later = files.mode other later
  left_mode (unix path permissions) other later =
      cleared (files.remove_file path later).0 (path == other) (files.mode other later)

  cleared_mode :
      (path other : Str) (fs : files.Files) (r : Result (Unit {0}) X)
      → (files.remove_file path fs).0 ≡ r
      → files.mode other (files.remove_file path fs).1
        ≡ cleared r (path == other) (files.mode other fs)
  cleared_mode path other fs (ok tt) e = files.mode-remove_file path other fs e
  cleared_mode path other fs (err x) e =
      ap (files.mode other) (files.remove_file_failed path fs x e)

  pub mode-remove_file :
      (path other : Str) (fs : files.Files)
      → files.mode other (files.remove_file path fs).1
        ≡ cleared (files.remove_file path fs).0 (path == other) (files.mode other fs)
  mode-remove_file path other fs = cleared_mode path other fs _ refl

  apart_mode :
      (r : Result (Unit {0}) X) (same : Bool) (found : Option ℕ)
      → same ≡ false
      → cleared r same found ≡ found
  apart_mode (ok x) same found e = rw e refl
  apart_mode (err x) same found e = refl

  ok_injective :
      (a b : Served out files)
      → ◌≡◌ {A = Result (Served out files) (SocketError X)} (ok a) (ok b)
      → a ≡ b
  ok_injective a b e = ground arith

  permitted-ok :
      (path : Str) (r : Result (Unit {0}) X) (fs : files.Files) (served : Served out files)
      → (permitted out files path (r, fs)).0 ≡ ok served
      → (r ≡ ok tt) × (over_unix path ≡ served) × (fs ≡ (permitted out files path (r, fs)).1)
  unfolding permitted
  permitted-ok path (ok tt) fs served e = (refl, ground arith, refl)
  permitted-ok path (err x) fs served e = absurd (cc)

  bound-ok :
      (path : Str) (permissions : ℕ) (r : Result (Unit {0}) X) (fs : files.Files)
      (served : Served out files)
      → (bound out files path permissions (r, fs)).0 ≡ ok served
      → (r ≡ ok tt)
        × (bound out files path permissions (r, fs)
            ≡ permitted out files path (files.set_permissions path permissions fs))
  unfolding bound
  bound-ok path permissions (ok tt) fs served e = (refl, refl)
  bound-ok path permissions (err x) fs served e = absurd (cc)

  -- Before the permissions are set, no other file than the socket has changed.
  other_mode :
      (path other : Str) (permissions : ℕ) (fs : files.Files)
      → (if path == other
          then some permissions
          else files.mode other (files.bind path (files.remove_file path fs).1).1)
        ≡ (if path == other then some permissions else files.mode other fs)
  other_mode path other permissions fs = elim (Bool-cases (path == other)) [
    | inl same ↦ rw same refl
    | inr apart ↦ rw apart (
        files.mode-bind path other (files.remove_file path fs).1 apart
        ∙ mode-remove_file path other fs
        ∙ apart_mode _ _ _ apart)
  ]

  unix_mode :
      (path other : Str) (permissions : ℕ) (fs : files.Files) (served : Served out files)
      → let r = bound out files path permissions (files.bind path (files.remove_file path fs).1) in
        r.0 ≡ ok served
        → (over_unix path ≡ served)
          × (files.mode other r.1
              ≡ (if path == other then some permissions else files.mode other fs))
  unix_mode path other permissions fs served e =
      let (bind_result, fs₁) = files.bind path (files.remove_file path fs).1 in
      let (_, from_bind) = bound-ok path permissions bind_result fs₁ served e in
      let (mode_result, fs₂) = files.set_permissions path permissions fs₁ in
      let (mode_ok, serves, after) =
        permitted-ok path mode_result fs₂ served (sym (ap (λ r. r.0) from_bind) ∙ e) in
      (
        serves,
        ap (λ r. files.mode other r.1) from_bind
            ∙ ap (files.mode other) (sym after)
            ∙ files.mode-set_permissions path other permissions fs₁ mode_ok
            ∙ other_mode path other permissions fs,
      )

  -- The server of a unix socket removes the file of its path, whatever the files are by then, if that
  -- removal succeeds.
  pub end_of-unix :
      (path : Str) (permissions : ℕ) (tls : Option TlsConfig) (fs later : files.Files)
      (served : Served out files)
      → (serve_at out files (unix path permissions) tls fs).0 ≡ ok served
      → (files.remove_file path later).0 ≡ ok tt
      → files.mode path (end_of out files served later) ≡ none
  unfolding serve_at end_of
  end_of-unix path permissions tls fs later served e removed =
      rw (sym (unix_mode path path permissions fs served e).0)
        (files.mode-remove_file path path later removed ∙ rw (str_beq_self path) refl)

  -- If a server comes about, the file of its unix socket has the configured mode when it starts and no
  -- other file has changed, by a server on tcp none. Whatever the files are when the server ends, the
  -- file of the socket is gone then if it can be removed, and otherwise stays as it is; no other
  -- file changes, by a server on tcp none.
  pub serve_at-end_of :
      (bind : Bind out) (tls : Option TlsConfig) (fs : files.Files) (served : Served out files)
      (other : Str) (later : files.Files)
      → (serve_at out files bind tls fs).0 ≡ ok served
      → let fs' = (serve_at out files bind tls fs).1 in
        (files.mode other fs' ≡ served_mode bind other (files.mode other fs))
        × (files.mode other (end_of out files served later) ≡ left_mode bind other later)
  unfolding serve_at end_of bound permitted
  serve_at-end_of (tcp addr port) (some tls) fs served other later e =
      (refl, rw (sym (ok_injective _ _ e)) refl)
  serve_at-end_of (tcp addr port) none fs served other later e =
      (refl, rw (sym (ok_injective _ _ e)) refl)
  serve_at-end_of (unix path permissions) tls fs served other later e =
      let (serves, mode) = unix_mode path other permissions fs served e in
      (mode, rw (sym serves) (mode-remove_file path other later))

  -- What is left when a server does not come about: it was to be on a unix socket, and either the
  -- bind failed, with the file that was there removed all the same if it could be, or the permissions
  -- could not be set, which leaves the file of the bound socket as the bind made it.
  pub record Failed (bind : Bind out) (fs fs' : files.Files) (e : SocketError X) (path : Str)
      : Type 0 where
    pub permissions : ℕ
    pub on_unix : bind ≡ unix path permissions
    pub because :
        ((x : X) × (e ≡ SocketError.bind x path)
          × ((other : Str)
              → files.mode other fs'
                ≡ cleared (files.remove_file path fs).0 (path == other) (files.mode other fs)))
        ⊎ ((x : X) × (e ≡ SocketError.socket_permissions x)
            × (fs' ≡ (files.bind path (files.remove_file path fs).1).1)
            × ((files.bind path (files.remove_file path fs).1).0 ≡ ok tt))
