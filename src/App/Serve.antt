-- ===== src/App/Serve.antt =====
-- src/lib.rs, src/metrics.rs: `serve_at`, where a server listens, and what it leaves behind.
pub mod Sockets
use notify_push.Common.{
  ℕ, ◌++◌, List, Option, none, some, Bool, true, false, Result, ok, err, ◌≡◌, ◌>>=◌, if◌then◌else◌,
  ◌==◌,
}
use notify_push.Common.Text.{Str, str_eq}
use notify_push.Config.{Outside, TlsConfig, Bind, tcp, unix}
use notify_push.Error.{Error, SocketError}

-- The calls of `std::fs` and `UnixListener`, on the sockets of the file system with their modes.
pub record FileSystem (X : Type 0) : Type 1 where
  pub Files : Type 0
  pub mode : Str → Files → Option ℕ
  pub remove_file : Str → Files → Result (Unit {0}) X × Files
  pub bind : Str → Files → Result (Unit {0}) X × Files
  pub set_permissions : Str → ℕ → Files → Result (Unit {0}) X × Files
  -- Each call is about the file at its path, and a failure changes nothing.
  pub mode-remove_file :
      (path other : Str) (fs : Files)
      → (remove_file path fs).0 ≡ ok tt
      → mode other (remove_file path fs).1 ≡ (if path == other then none else mode other fs)
  pub remove_file_failed :
      (path : Str) (fs : Files) (e : X)
      → (remove_file path fs).0 ≡ err e
      → (remove_file path fs).1 ≡ fs
  pub mode-bind :
      (path other : Str) (fs : Files)
      → (path == other) ≡ false
      → mode other (bind path fs).1 ≡ mode other fs
  pub bind_failed :
      (path : Str) (fs : Files) (e : X) → (bind path fs).0 ≡ err e → (bind path fs).1 ≡ fs
  pub mode-set_permissions :
      (path other : Str) (m : ℕ) (fs : Files)
      → (set_permissions path m fs).0 ≡ ok tt
      → mode other (set_permissions path m fs).1 ≡ (if path == other then some m else mode other fs)
  pub set_permissions_failed :
      (path : Str) (m : ℕ) (fs : Files) (e : X)
      → (set_permissions path m fs).0 ≡ err e
      → (set_permissions path m fs).1 ≡ fs

module _ {X : Type 0} (out : Outside X) (files : FileSystem X) where
  -- The future that serves: the branches of the `Either`.
  pub data Served : Type 0 where
    over_tls : out.Ip → ℕ → TlsConfig → Served
    over_tcp : out.Ip → ℕ → Served
    over_unix : Str → Served

  -- From the bound listener on. Whether the removals succeed is not looked at.
  unfoldable pub permitted :
      Str → Result (Unit {0}) X × files.Files → Result Served (SocketError X) × files.Files
  permitted path (err e, fs) = (err (SocketError.socket_permissions e), fs)
  permitted path (ok _, fs) = (ok (over_unix path), fs)

  unfoldable pub bound :
      Str → ℕ → Result (Unit {0}) X × files.Files → Result Served (SocketError X) × files.Files
  unfolding permitted
  bound path permissions (err e, fs) = (err (SocketError.bind e path), fs)
  bound path permissions (ok _, fs) = permitted path (files.set_permissions path permissions fs)

  unfoldable pub serve_at :
      Bind out → Option TlsConfig → files.Files → Result Served (SocketError X) × files.Files
  unfolding bound
  serve_at (tcp addr port) (some tls) fs = (ok (over_tls addr port tls), fs)
  serve_at (tcp addr port) none fs = (ok (over_tcp addr port), fs)
  serve_at (unix socket_path permissions) tls fs =
      bound socket_path permissions (files.bind socket_path (files.remove_file socket_path fs).1)

  -- What is done when the server has ended.
  unfoldable pub end_of : Served → files.Files → files.Files
  end_of (over_tls addr port tls) fs = fs
  end_of (over_tcp addr port) fs = fs
  end_of (over_unix path) fs = (files.remove_file path fs).1
