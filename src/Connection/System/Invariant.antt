-- ===== src/Connection/System/Invariant.antt =====
-- src/connection.rs: the channels of the users with open connections, over any events.
pub mod Join
pub mod Leave
pub mod Runs
use notify_push.Common.{
  ℕ, suc, ◌<◌, ◌≡◌, refl, sym, ap, ◌∙◌, List, [], ◌∷◌, ◌++◌, Option, none, some, Option-cases, inl,
  inr, true, false, if◌then◌else◌, All, All-append, arith, nat_eq, nat_beq, nat_beq_iff, Bool-cases,
  ◌≢◌, ok, err, ltb, subst,
}
use notify_push.User.{UserId, user_eq, user_beq_iff}
use notify_push.Message.{PushMessage}
use notify_push.Metrics.{Metrics, add_user}
use notify_push.Error.{Error, AuthenticationError}
use notify_push.Dash.{DashMap}
use notify_push.Broadcast.{Broadcast}
use notify_push.Connection.Active.{Hub, add, send_to_user, remove, user_connection_limit}
use notify_push.Connection.System.{
  Task, System, Event, joins, leaves, drops, sends, join, leave, drop, step, run, start, select,
}
use notify_push.Connection.System.Tasks.{
  select-eq, count, count-append, All-map, All-map_absent, All-before, All-behind,
}

module _ {V : Type 0} (bc : Broadcast (PushMessage V)) (dm : DashMap UserId bc.Sender) where
  abbrev pub name : Option bc.Sender → Option ℕ
  name none = none
  name (some s) = some (bc.channel_of s)

  -- The channel that the map has for a user.
  abbrev pub entry : UserId → dm.Map → Option ℕ
  entry user connections = name (dm.get user connections)

  abbrev pub source : Task bc dm → ℕ
  source t = bc.source t.receiver

  -- A task holds a receiver of its own user's channel, and while it runs, that is the channel
  -- which the map has for the user.
  pub record Held (own : ℕ → UserId) (made : ℕ) (connections : dm.Map) (t : Task bc dm)
      : Type 0 where
    pub known : source t < made
    pub owned : own (source t) ≡ t.user
    pub reached : t.leaving ≡ false → entry t.user connections ≡ some (source t)

  -- `own` names the user that each channel was made for.
  pub record Inv (own : ℕ → UserId) (sys : System bc dm) : Type 0 where
    pub counted : (j : ℕ) → bc.receivers j sys.hub.world ≡ count source j sys.tasks
    pub entries :
        (u : UserId) (j : ℕ)
        → entry u sys.hub.connections ≡ some j
        → (j < bc.made sys.hub.world) × (own j ≡ u)
    pub held : All (Held own (bc.made sys.hub.world) sys.hub.connections) sys.tasks
