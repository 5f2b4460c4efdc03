-- ===== src/App/Listen/Ledger.antt =====
-- src/lib.rs: what a user is to be told while the server listens, by a list of the events that came
-- and are not done with, kept beside the server's tasks.
use mathlib.Core.List.{map-append}
use notify_push.Common.{
  ℕ, zero, suc, ◌≡◌, refl, ap, ap₂, ◌∙◌, List, [], ◌∷◌, ◌++◌, map, Option, none, some, Option-cases,
  Result, ok, err, nat_eq, inl, inr,
}
use notify_push.User.{UserId, user_eq}
use notify_push.Error.{DatabaseError}
use notify_push.Message.{PushMessage, updated_file}
use notify_push.Storage.{Clock}
use notify_push.Event.{Event, Decoder, MessageDecodeError, try_from, on_event}
use notify_push.Connection.System.{select}
use notify_push.App.{App, Crates, look_up}
use notify_push.App.Reach.{told, copies, found}
use notify_push.App.Listen.{
  Pending, fresh, looked_up, run_pending, Listening, Step, arrives, handles, count_event,
  spawn_event, run_task, step,
}
use notify_push.App.Listen.Telling.{told_pending, told_task, told_run}

module _ {V X : Type 0} (cr : Crates V X) where
  -- An event that has come, or the id of a file whose users have been asked for, with the answer.
  pub data Entry : Type 0 where
    came : Event V → Entry
    asked_for : ℕ → Result (List UserId) (DatabaseError X) → Entry

  -- A message that can be read adds its event.
  abbrev pub noted : Result (Event V) (MessageDecodeError X) → List Entry → List Entry
  noted (ok event) entries = entries ++ came event ∷ []
  noted (err e) entries = entries

  -- What one step about an entry tells the user. A storage update is first asked for, and its file then
  -- told to the users that were answered; any other event is told at once.
  abbrev pub told_entry : Clock → Entry → App cr → UserId → List (PushMessage V)
  told_entry clock (came (Event.storage_update e)) app user = []
  told_entry clock (came event) app user = told cr clock event app user
  told_entry clock (asked_for file_id users) app user =
      copies cr (found cr users) user (PushMessage.file (updated_file file_id))

  -- What the step leaves of it.
  abbrev pub left_entry : Clock → Entry → App cr → List Entry
  left_entry clock (came (Event.storage_update e)) app =
      asked_for e.file_id (look_up cr clock e.storage e.path app).0 ∷ []
  left_entry clock _ app = []

  abbrev pub Found : Type 0
  Found = Option (List Entry × Entry × List Entry)

  abbrev pub told_found : Clock → Found → App cr → UserId → List (PushMessage V)
  told_found clock none app user = []
  told_found clock (some (_, entry, _)) app user = told_entry clock entry app user

  abbrev pub left_found : Clock → Found → App cr → List Entry → List Entry
  left_found clock none app entries = entries
  left_found clock (some (before, entry, after)) app entries =
      before ++ (left_entry clock entry app ++ after)

  -- The steps, from a list of entries. Of the server only what `look_up` reads is looked at.
  abbrev pub told_from :
      Decoder V X → List (Step cr) → List Entry → Listening cr → UserId → List (PushMessage V)
  told_from from_slice [] entries l user = []
  told_from from_slice (arrives msg ∷ steps) entries l user =
      told_from from_slice steps (noted (try_from from_slice msg) entries)
        (step cr from_slice (arrives msg) l) user
  told_from from_slice (handles n now clock ∷ steps) entries l user =
      told_found clock (select n entries) l.app user
      ++ told_from from_slice steps (left_found clock (select n entries) l.app entries)
          (step cr from_slice (handles n now clock) l) user

  abbrev pub told_all : Decoder V X → List (Step cr) → Listening cr → UserId → List (PushMessage V)
  told_all from_slice steps l user = told_from from_slice steps [] l user

  -- The task of an entry.
  abbrev pending : Entry → Pending cr
  pending (came event) = fresh event
  pending (asked_for file_id users) = looked_up (PushMessage.file (updated_file file_id)) users

  abbrev pending_found : Found → Option (List (Pending cr) × Pending cr × List (Pending cr))
  pending_found none = none
  pending_found (some (before, entry, after)) =
      some (map pending before, pending entry, map pending after)

  select-pending :
      (n : ℕ) (entries : List Entry)
      → select n (map pending entries) ≡ pending_found (select n entries)
  unfolding select
  select-pending n [] = refl
  select-pending zero (x ∷ entries) = refl
  select-pending (suc n) (x ∷ entries) = elim (Option-cases (select n entries)) [
    | inl e ↦ rw (select-pending n entries, e) refl
    | inr ((before, y, after), e) ↦ rw (select-pending n entries, e) refl
  ]

  noted-pending :
      (event : Result (Event V) (MessageDecodeError X)) (entries : List Entry) (l : Listening cr)
      → l.spawned ≡ map pending entries
      → (spawn_event cr event l).spawned ≡ map pending (noted event entries)
  unfolding spawn_event
  noted-pending (ok event) entries l e = rw (e, map-append) refl
  noted-pending (err x) entries l e = e

  pending-told :
      (clock : Clock) (entry : Entry) (app : App cr) (user : UserId)
      → told_pending cr clock (pending entry) app user ≡ told_entry clock entry app user
  pending-told clock (came (Event.storage_update e)) app user = refl
  pending-told clock (came event) app user = refl
  pending-told clock (asked_for file_id users) app user = refl

  pending-left :
      (now : ℕ) (clock : Clock) (entry : Entry) (app : App cr)
      → (run_pending cr now clock (pending entry) app).0 ≡ map pending (left_entry clock entry app)
  unfolding run_pending
  pending-left now clock (came (Event.storage_update e)) app = refl
  pending-left now clock (came event) app = refl
  pending-left now clock (asked_for file_id users) app = refl

  task-pending :
      (now : ℕ) (clock : Clock) (entries : List Entry) (l : Listening cr) (at : Found)
      → l.spawned ≡ map pending entries
      → (run_task cr now clock (pending_found at) l).spawned
        ≡ map pending (left_found clock at l.app entries)
  unfolding run_task
  task-pending now clock entries l none e = e
  task-pending now clock entries l (some (before, entry, after)) e =
      rw (pending-left now clock entry l.app, map-append, map-append) refl

  task-told :
      (clock : Clock) (at : Found) (app : App cr) (user : UserId)
      → told_task cr clock (pending_found at) app user ≡ told_found clock at app user
  task-told clock none app user = refl
  task-told clock (some (before, entry, after)) app user = pending-told clock entry app user

  -- The list names what the tasks of the server tell, as long as it agrees with them.
  pub told_from-told_run :
      (from_slice : Decoder V X) (steps : List (Step cr)) (entries : List Entry) (l : Listening cr)
      (user : UserId)
      → l.spawned ≡ map pending entries
      → told_run cr from_slice steps l user ≡ told_from from_slice steps entries l user
  unfolding step on_event count_event
  told_from-told_run from_slice [] entries l user e = refl
  told_from-told_run from_slice (arrives msg ∷ steps) entries l user e =
      told_from-told_run from_slice steps (noted (try_from from_slice msg) entries)
        (step cr from_slice (arrives msg) l) user
        (noted-pending (try_from from_slice msg) entries (record l { app = _ }) e)
  told_from-told_run from_slice (handles n now clock ∷ steps) entries l user e =
      let at = select n entries in
      let same : select n l.spawned ≡ pending_found at =
        ap (select n) e ∙ select-pending n entries in
      ap₂ (◌++◌)
        (ap (λ tasks. told_task cr clock tasks l.app user) same ∙ task-told clock at l.app user)
        (told_from-told_run from_slice steps (left_found clock at l.app entries)
          (step cr from_slice (handles n now clock) l) user
          (ap (λ tasks. (run_task cr now clock tasks l).spawned) same
            ∙ task-pending now clock entries l at e))
