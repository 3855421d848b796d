-- ===== src/Supervisor.antt =====
-- app/sidecar/supervisor/process-supervisor.ts. A process is an object: the supervisor's table maps an
-- id to the object's number, and the callbacks of an object that was replaced still run. Timers are
-- numbered; `pending` are those that are set and did not fire. `spawned` counts the calls of the
-- backend. The output rings and the callbacks to the consumer are left out.
pub mod Restarts
pub mod Registry
use capisco.Prelude.{
  ℕ, suc, ◌+◌, ◌*◌, ◌^◌, min, Bool, true, false, ◌&&◌, ◌||◌, not, Option, none, some, List, [], ◌∷◌,
  String, Eq, ◌==◌, string_eq, nat_eq, if◌then◌else◌, is_some, leb, length, map,
}
use capisco.Prelude.Dict.{Dict, get, set, delete, contains, remove}
use capisco.Prelude.Effect.{Run, ok, err}

pub data ProcessState : Type 0 where
  starting running restarting exited killed : ProcessState

pub record Backoff : Type 0 where
  pub max_restarts : ℕ
  pub base_delay_ms : ℕ
  pub max_delay_ms : ℕ

pub data RestartPolicy : Type 0 where
  never on_crash : RestartPolicy
  on_crash_with : Backoff → RestartPolicy

pub record SupervisedSpec : Type 0 where
  pub id : String
  pub restart : Option RestartPolicy
  pub idle_timeout_ms : ℕ

abbrev pub default_restart : Backoff
default_restart = record { max_restarts = 5; base_delay_ms = 200; max_delay_ms = 5000 }

-- `never` is `none`.
unfoldable pub normalize_restart : Option RestartPolicy → Option Backoff
normalize_restart none = none
normalize_restart (some never) = none
normalize_restart (some on_crash) = some default_restart
normalize_restart (some (on_crash_with b)) = some b

-- `child` is whether the current backend is alive, once there is one.
pub record Supervised : Type 0 where
  pub id : String
  pub policy : Option Backoff
  pub idle_ms : ℕ
  pub state : ProcessState
  pub child : Option Bool
  pub restarts : ℕ
  pub is_killed : Bool
  pub idle_timer : Bool
  pub restart_timer : Option ℕ
  pub pending : List ℕ
  pub next_timer : ℕ
  pub last_delay : ℕ
  pub spawned : ℕ

-- `#armIdle`
abbrev arm_idle : Supervised → Supervised
arm_idle p = record p { idle_timer = not (leb p.idle_ms 0) }

unfoldable pub start : Supervised → Supervised
start p =
    if p.is_killed
    then p
    else arm_idle (record p { child = some true; state = running; spawned = suc p.spawned })

abbrev fresh : SupervisedSpec → Supervised
fresh spec = record {
  id = spec.id;
  policy = normalize_restart spec.restart;
  idle_ms = spec.idle_timeout_ms;
  state = starting;
  child = none;
  restarts = 0;
  is_killed = false;
  idle_timer = false;
  restart_timer = none;
  pending = [];
  next_timer = 0;
  last_delay = 0;
  spawned = 0;
}

-- The constructor of `Supervised`.
unfoldable pub supervise : SupervisedSpec → Supervised
supervise spec = start (fresh spec)

-- `code !== 0 || signal !== null`
unfoldable pub is_crash : Option ℕ → Option String → Bool
is_crash none signal = true
is_crash (some code) signal = not (code == 0) || is_some signal

unfoldable pub backoff_delay : Backoff → ℕ → ℕ
backoff_delay b restarts = min b.max_delay_ms (b.base_delay_ms * 2 ^ restarts)

-- The timer's handle overwrites the one of an earlier exit, whose timer stays set.
abbrev schedule_restart : Supervised → Backoff → Supervised
schedule_restart p b = record p {
  restarts = suc p.restarts;
  state = restarting;
  restart_timer = some p.next_timer;
  pending = p.next_timer ∷ p.pending;
  next_timer = suc p.next_timer;
  last_delay = backoff_delay b p.restarts;
}

abbrev restart_or_exit : Supervised → Bool → Option Backoff → Supervised × Bool
restart_or_exit p crashed none = (record p { state = exited }, true)
restart_or_exit p crashed (some b) =
    if crashed && not (leb b.max_restarts p.restarts)
    then (schedule_restart p b, false)
    else (record p { state = exited }, true)

-- For the backend's exit and its error. The flag says that `onClosed` is called.
unfoldable pub on_exit : Supervised → Option ℕ → Option String → Supervised × Bool
on_exit p code signal =
    let q = record p { idle_timer = false } in
    if p.is_killed
    then (record q { state = killed }, true)
    else restart_or_exit q (is_crash code signal) p.policy

abbrev clear_restart : Supervised → Option ℕ → Supervised
clear_restart p none = p
clear_restart p (some t) = record p { pending = remove t p.pending; restart_timer = none }

-- A live backend is sent the signal, and exits later.
unfoldable pub kill : Supervised → Supervised × Bool
kill p =
    let q = clear_restart (record p { is_killed = true; idle_timer = false }) p.restart_timer in
    elim p.child [ some true ↦ (q, false) | _ ↦ (record q { state = killed }, true) ]

is_running : ProcessState → Bool
is_running running = true
is_running _ = false

unfoldable pub touch : Supervised → Supervised
unfolding is_running
touch p = if not (leb p.idle_ms 0) && is_running p.state then arm_idle p else p

-- A timer that is set fires: `#restartTimer` is cleared, whichever timer it was.
unfoldable pub fire_restart : Supervised → ℕ → Supervised
fire_restart p t =
    if contains t p.pending
    then start (record p { pending = remove t p.pending; restart_timer = none })
    else p

unfoldable pub fire_idle : Supervised → Supervised × Bool
fire_idle p = if p.idle_timer then kill (record p { idle_timer = false }) else (p, false)

-- What can happen to a process. An error, as of a spawn that fails, leaves `alive` as it was, and so
-- does the exit of a child that another one has replaced.
pub data Event : Type 0 where
  exit exits_earlier : Option ℕ → Option String → Event
  restart_fires : ℕ → Event
  errors idle_fires kill_called activity : Event

unfoldable pub react : Supervised → Event → Supervised × Bool
react p (exit code signal) = on_exit (record p { child = some false }) code signal
react p (exits_earlier code signal) = on_exit p code signal
react p errors = on_exit p none none
react p (restart_fires t) = (fire_restart p t, false)
react p idle_fires = fire_idle p
react p kill_called = kill p
react p activity = (touch p, false)

pub record ProcessSupervisor : Type 0 where
  pub procs : Dict String ℕ
  pub objects : Dict ℕ Supervised
  pub next : ℕ
  pub max : ℕ

pub data SupervisorError : Type 0 where
  at_capacity : String → SupervisorError

-- The object's new state, and `onClosed`.
abbrev settle : ProcessSupervisor → ℕ → String → Supervised × Bool → ProcessSupervisor
settle s n id (p, closed) = record s {
  objects = set n p s.objects;
  procs = if closed then delete id s.procs else s.procs;
}

-- Something happens to the object `n`.
unfoldable pub deliver : ProcessSupervisor → ℕ → Event → ProcessSupervisor
deliver s n e = elim (get n s.objects) [ none ↦ s | some p ↦ settle s n p.id (react p e) ]

unfoldable pub kill_id : ProcessSupervisor → String → ProcessSupervisor
kill_id s id = elim (get id s.procs) [ none ↦ s | some n ↦ deliver s n kill_called ]

abbrev register : ProcessSupervisor → SupervisedSpec → ProcessSupervisor
register s spec = record s {
  objects = set s.next (supervise spec) s.objects;
  procs = set spec.id s.next s.procs;
  next = suc s.next;
}

unfoldable pub enter : ProcessSupervisor → SupervisedSpec → Run ProcessSupervisor SupervisorError ℕ
enter s spec =
    if leb s.max (length s.procs) then err (at_capacity spec.id) s else ok s.next (register s spec)

unfoldable pub spawn : ProcessSupervisor → SupervisedSpec → Run ProcessSupervisor SupervisorError ℕ
spawn s spec = enter (kill_id s spec.id) spec

kill_each : ProcessSupervisor → List ℕ → ProcessSupervisor
kill_each s [] = s
kill_each s (n ∷ ns) = kill_each (deliver s n kill_called) ns

unfoldable pub kill_all : ProcessSupervisor → ProcessSupervisor
unfolding kill_each
kill_all s = kill_each s (map (λ e. e.1) s.procs)
