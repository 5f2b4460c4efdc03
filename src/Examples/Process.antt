-- ===== src/Examples/Process.antt =====
-- src/main.rs, src/lib.rs: a whole process on a small file system, and instances.
use notify_push.Common.{
  ℕ, ◌≡◌, refl, [], ◌∷◌, inl, inr, Bool-cases, Option, none, some, true, false, Result, ok, err,
  nat_eq, if◌then◌else◌, ◌==◌,
}
use notify_push.Common.Text.{Str, codes, str_eq}
use notify_push.User.{user_eq}
use notify_push.Config.{Bind, tcp, unix, Config}
use notify_push.App.Start.{Process, Settings, self_test}
use notify_push.App.Start
use notify_push.App.Serve.{FileSystem, over_unix, serve_at, end_of, bound, permitted}
use notify_push.App.Serve.Sockets.{serve_at-end_of, served_mode, left_mode}
use notify_push.Nc
use notify_push.Storage
use notify_push.Redis
use notify_push.Main.{Report, Calls, Running, run}
use notify_push.Metrics as Counters
use notify_push.Examples.Options.{outside}
use notify_push.Examples.Whole.{crates, request_at}

abbrev Disk : Type 0
Disk = Str → Option ℕ

-- A removal fails where no file is, and where the file is read-only.
abbrev remove_at : Str → Option ℕ → Disk → Result (Unit {0}) Str × Disk
remove_at path none fs = (err path, fs)
remove_at path (some m) fs =
    if m == 256 then (err path, fs) else (ok tt, λ other. if path == other then none else fs other)

remove_at-ok :
    (path other : Str) (found : Option ℕ) (fs : Disk)
    → (remove_at path found fs).0 ≡ ok tt
    → (remove_at path found fs).1 other ≡ (if path == other then none else fs other)
remove_at-ok path other none fs e = absurd (cc)
remove_at-ok path other (some m) fs e = elim (Bool-cases (m == 256)) [
  | inl kept ↦ absurd (cc (rw kept at e))
  | inr free ↦ rw free refl
]

remove_at-err :
    (path : Str) (found : Option ℕ) (fs : Disk) (e : Str)
    → (remove_at path found fs).0 ≡ err e
    → (remove_at path found fs).1 ≡ fs
remove_at-err path none fs e h = refl
remove_at-err path (some m) fs e h = elim (Bool-cases (m == 256)) [
  | inl kept ↦ rw kept refl
  | inr free ↦ absurd (cc (rw free at h))
]

-- A bind fails where a file is, and without a path.
abbrev bind_at : Str → Option ℕ → Disk → Result (Unit {0}) Str × Disk
bind_at [] found fs = (err [], fs)
bind_at (c ∷ path) (some m) fs = (err (c ∷ path), fs)
bind_at (c ∷ path) none fs = (ok tt, λ other. if (c ∷ path) == other then some 493 else fs other)

bind_at-other :
    (path other : Str) (found : Option ℕ) (fs : Disk)
    → (path == other) ≡ false
    → (bind_at path found fs).1 other ≡ fs other
bind_at-other [] other found fs apart = refl
bind_at-other (c ∷ path) other (some m) fs apart = refl
bind_at-other (c ∷ path) other none fs apart = rw apart refl

bind_at-err :
    (path : Str) (found : Option ℕ) (fs : Disk) (e : Str)
    → (bind_at path found fs).0 ≡ err e
    → (bind_at path found fs).1 ≡ fs
bind_at-err [] found fs e h = refl
bind_at-err (c ∷ path) (some m) fs e h = refl
bind_at-err (c ∷ path) none fs e h = absurd (cc)

no_error : (e : Str) → ◌≡◌ {A = Result (Unit {0}) Str} (ok tt) (err e) → (A : Type 0) → A
no_error e h A = absurd (cc)

abbrev disk : FileSystem Str
disk = record {
  Files = Disk;
  mode = λ path fs. fs path;
  remove_file = λ path fs. remove_at path (fs path) fs;
  bind = λ path fs. bind_at path (fs path) fs;
  set_permissions = λ path m fs. (ok tt, λ other. if path == other then some m else fs other);
  mode-remove_file = λ path other fs e. remove_at-ok path other (fs path) fs e;
  remove_file_failed = λ path fs e h. remove_at-err path (fs path) fs e h;
  mode-bind = λ path other fs apart. bind_at-other path other (fs path) fs apart;
  bind_failed = λ path fs e h. bind_at-err path (fs path) fs e h;
  mode-set_permissions = λ path other m fs e. refl;
  set_permissions_failed = λ path m fs e h. no_error e h _;
}

-- A file of an earlier server is there.
abbrev stale : Disk
stale = λ other. if codes "/run/a" == other then some 493 else none

abbrev bind : Bind outside
bind = unix (codes "/run/a") 384

serve_at-end_of_example :
    (disk.mode (codes "/run/a") (serve_at outside disk bind none stale).1
      ≡ served_mode outside disk bind (codes "/run/a") (some 493))
    × (disk.mode (codes "/run/a") (end_of outside disk (over_unix (codes "/run/a")) stale)
        ≡ left_mode outside disk bind (codes "/run/a") stale)
unfolding serve_at bound permitted
serve_at-end_of_example =
    serve_at-end_of outside disk bind none stale (over_unix (codes "/run/a")) (codes "/run/a") stale
      refl

abbrev config : Config outside
config = record {
  database = codes "sqlite::memory:";
  database_prefix = codes "oc_";
  redis = codes "redis://cache" ∷ [];
  nextcloud_url = codes "http://cloud/";
  metrics_bind = some (tcp (codes "0.0.0.0") 9000);
  log_level = codes "warn";
  bind = bind;
  allow_self_signed = false;
  no_ansi = false;
  tls = none;
  max_debounce_time = 15;
  max_connection_time = 0;
}

abbrev process : Process crates
process = record {
  world = record { count = 20; subscribed = λ j. 1; log = [] };
  metrics = Counters.new;
  reset_world = record { count = 1; subscribed = λ j. 1; log = [] };
  server = [];
}

abbrev calls : Calls Str
calls = record {
  debounce_disable = false;
  systemd = none;
  terminate = ok tt;
  interrupt = ok tt;
  joined = ok tt;
}

abbrev before : Running crates outside disk (λ s. s) (λ s. s)
before = record { fs = stale; debounce_enable = true; spawned = []; cancelled = [] }

abbrev finished : Result (Unit {0}) (Report Str) × Running crates outside disk (λ s. s) (λ s. s)
finished =
    run crates outside disk (λ s. s) (λ s. s) config [] process (request_at 300).clock calls before
