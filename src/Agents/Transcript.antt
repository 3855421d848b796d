-- ===== src/Agents/Transcript.antt =====
-- What the notifications of the agent make of the session: `#onNotification`, `#applyEvent` and
-- `#flushAgentMessage` of app/sidecar/acp/acp-session.ts over the session store. The handler of a
-- notification is not awaited: it runs at once up to the end of `#applyEvent`, whose changes of the
-- store and of the buffer are synchronous, then it waits in `waiting` and goes on at any later turn.
-- `emitted` logs the calls of each subscriber. What follows `done` runs in one turn; other handlers only
-- call subscribers meanwhile, unless the agent goes on after its `done`.
pub mod Assembly
pub mod Durable
pub mod Reply
pub mod Turns
use capisco.Prelude.{
  ℕ, zero, suc, Bool, true, false, not, Option, none, some, List, [], ◌∷◌, ◌++◌, String, ◌==◌,
  string_eq, if◌then◌else◌, get_or,
}
use Prim.Native.String
use capisco.Prelude.Dict.{Dict, get, set}
use capisco.Prelude.Text.{is_empty}
use capisco.Prelude.Effect.{Run, ok, err, state}
use capisco.Sessions.{
  TranscriptBlock, message, SessionStatus, Telemetry, Store, StoreError, Patch, append, update,
}

pub data SessionEvent : Type 0 where
  token : String → String → SessionEvent
  status : SessionStatus → SessionEvent
  tool permission : String → String → String → SessionEvent
  telemetry : Telemetry → SessionEvent
  done : SessionEvent

pub record AgentNotification : Type 0 where
  pub method : String
  pub event : SessionEvent

pub record Live : Type 0 where
  pub store : Store
  pub token_buf : Dict String String
  pub waiting : List SessionEvent
  pub emitted : List SessionEvent
  pub finished : Bool

abbrev pub session_update : String
session_update = "session/update"

abbrev pub status_patch : SessionStatus → Patch
status_patch x = record { status = some x; telemetry = none; title = none; worktree_path = none }

abbrev pub telemetry_patch : Telemetry → Patch
telemetry_patch x = record { status = none; telemetry = some x; title = none; worktree_path = none }

-- A call of the store, which may throw.
abbrev pub stored : {A : Type 0} → Live → Run Store StoreError A → Run Live StoreError (Unit {0})
stored v (ok _ s) = ok tt (record v { store = s })
stored v (err x s) = err x (record v { store = s })

unfoldable pub buffer_token : String → String → Dict String String → Dict String String
buffer_token id delta m = set id (String.◌++◌ (get_or (get id m) "") delta) m

unfoldable pub apply_event : String → Live → SessionEvent → Run Live StoreError (Unit {0})
apply_event id v (SessionEvent.tool b kind target) =
    stored v (append v.store id (TranscriptBlock.tool b kind target))
apply_event id v (SessionEvent.permission b command label) =
    stored v (append v.store id (TranscriptBlock.permission b command label))
apply_event id v (SessionEvent.status x) = stored v (update v.store id (status_patch x))
apply_event id v (SessionEvent.telemetry x) = stored v (update v.store id (telemetry_patch x))
apply_event id v (SessionEvent.token m delta) =
    ok tt (record v { token_buf = buffer_token m delta v.token_buf })
apply_event id v SessionEvent.done = ok tt v

-- The loop of `#flushAgentMessage`.
unfoldable pub flush_each :
    String → Store → List (String × String) → Run Store StoreError (Unit {0})
flush_each id s [] = ok tt s
flush_each id s ((m, text) ∷ rest) = elim (is_empty text) [
  | true ↦ flush_each id s rest
  | false ↦ elim (append s id (message m text)) [
    | err x s' ↦ err x s'
    | ok _ s' ↦ flush_each id s' rest
  ]
]

unfoldable pub flush_agent_message : String → Live → Run Live StoreError (Unit {0})
flush_agent_message id v = elim (flush_each id v.store v.token_buf) [
  | err x s ↦ err x (record v { store = s })
  | ok _ s ↦ ok tt (record v { store = s; token_buf = [] })
]

abbrev pub is_done : SessionEvent → Bool
is_done SessionEvent.done = true
is_done _ = false

unfoldable pub finish : String → Live → Run Live StoreError (Unit {0})
finish id v = elim (flush_agent_message id v) [
  | err x v' ↦ err x v'
  | ok _ v' ↦ elim (stored v' (update v'.store id (status_patch SessionStatus.done))) [
    | err x u ↦ err x u
    | ok _ u ↦ ok tt (record u { finished = true })
  ]
]

-- Up to the first await that yields.
unfoldable pub begin_notification :
    String → Live → AgentNotification → Run Live StoreError (Unit {0})
begin_notification id v note =
    if not (note.method == session_update) then ok tt v else elim (apply_event id v note.event) [
      | err x v' ↦ err x v'
      | ok _ v' ↦ ok tt (record v' { waiting = v'.waiting ++ note.event ∷ [] })
    ]

-- After `await this.#applyEvent(event)`.
unfoldable pub resume_notification : String → Live → SessionEvent → Run Live StoreError (Unit {0})
resume_notification id v event =
    let u : Live = record v { emitted = v.emitted ++ event ∷ [] } in
    if is_done event then finish id u else ok tt u

-- A notification comes from the transport, or a handler that waits goes on.
pub data Turn : Type 0 where
  arrives : AgentNotification → Turn
  resumes : ℕ → Turn

unfoldable pub take_at : ℕ → List SessionEvent → Option (SessionEvent × List SessionEvent)
take_at i [] = none
take_at zero (x ∷ xs) = some (x, xs)
take_at (suc i) (x ∷ xs) = elim (take_at i xs) [ none ↦ none | some (y, rest) ↦ some (y, x ∷ rest) ]

abbrev pub resume_taken : String → Live → Option (SessionEvent × List SessionEvent) → Live
resume_taken id v none = v
resume_taken id v (some (event, rest)) =
    state (resume_notification id (record v { waiting = rest }) event)

-- A throw ends the handling of its own notification only.
unfoldable pub take_turn : String → Live → Turn → Live
take_turn id v (arrives note) = state (begin_notification id v note)
take_turn id v (resumes i) = resume_taken id v (take_at i v.waiting)

unfoldable pub run_turns : String → Live → List Turn → Live
run_turns id v [] = v
run_turns id v (t ∷ ts) = run_turns id (take_turn id v t) ts
