-- ===== src/Main/Startup.antt =====
-- src/main.rs: when the process starts and ends well.
use notify_push.Common.{nat_eq}
use notify_push.Common.Text.{str_eq}
use notify_push.User.{user_eq}
use notify_push.Config.{Outside, Config}
use notify_push.Error.{Error}
use notify_push.App.{App, Crates}
use notify_push.App.Start.{self_test}
use notify_push.App.Start
use notify_push.App.Serve.{FileSystem}
use notify_push.Main.{Running}

module _ {V X : Type 0} (cr : Crates V X) (out : Outside X) (files : FileSystem X)
    (options : out.Database → cr.Options) (info : out.Connection → cr.redis.ConnectionInfo) where
  abbrev State : Type 0
  State = Running cr out files options info
