-- ===== src/Supervisor/Restarts.antt =====
-- Restarts of one process: app/sidecar/supervisor/process-supervisor.ts, `Supervised`.
use capisco.Prelude.{
  ℕ, suc, ◌+◌, ◌≤◌, ◌≡◌, refl, ap, ◌∙◌, ◌⊎◌, Bool, true, false, ◌&&◌, not, Option, none, some, List,
  [], ◌∷◌, String, nat_eq, arith, if◌then◌else◌, leb, length, Bool-cases, inl, inr,
}
use capisco.Prelude.Dict.{contains, remove}
use capisco.Supervisor.{
  errors, Supervised, SupervisedSpec, Backoff, Event, exit, exits_earlier, restart_fires,
  idle_fires, kill_called, activity, start, supervise, on_exit, kill, touch, fire_restart,
  fire_idle, react, arm_idle, is_running, is_crash, restart_or_exit, normalize_restart,
}

abbrev pub budget : Option Backoff → ℕ
budget none = 0
budget (some b) = b.max_restarts

-- The restarts are within the policy's budget, and every call of the backend but the first, and every
-- timer that is set, has its restart.
pub record IsBounded (p : Supervised) : Type 0 where
  pub restarts : p.restarts ≤ budget p.policy
  pub spawns : p.spawned + length p.pending ≤ suc p.restarts

length-remove : (t : ℕ) (ts : List ℕ) → length (remove t ts) ≤ length ts
unfolding remove
length-remove t [] = omega arith
length-remove t (x ∷ xs) = ground (arith, length-remove t xs)

length-remove-contains :
    (t : ℕ) (ts : List ℕ) → contains t ts ≡ true → suc (length (remove t ts)) ≤ length ts
unfolding remove contains
length-remove-contains t [] h = absurd (cc)
length-remove-contains t (x ∷ xs) h =
    ground (arith, length-remove-contains t xs, length-remove t xs)

abbrev Numbers : Option Backoff → ℕ → ℕ → List ℕ → Type 0
Numbers policy restarts spawned pending =
    (restarts ≤ budget policy) × (spawned + length pending ≤ suc restarts)

bounded : (p : Supervised) → Numbers p.policy p.restarts p.spawned p.pending → IsBounded p
bounded p (a, b) = record { restarts = a; spawns = b }

kill-IsBounded : (p : Supervised) → IsBounded p → IsBounded (kill p).0
unfolding kill
kill-IsBounded p h = bounded (kill p).0 (cleared p.child p.restart_timer)
  where
    cleared :
        (c : Option Bool) (t : Option ℕ)
        → let q = (kill (record p { child = c; restart_timer = t })).0 in
          Numbers q.policy q.restarts q.spawned q.pending
    cleared none none = (h.restarts, h.spawns)
    cleared (some true) none = (h.restarts, h.spawns)
    cleared (some false) none = (h.restarts, h.spawns)
    cleared none (some t) = (h.restarts, omega (arith, h.spawns, length-remove t p.pending))
    cleared (some true) (some t) = (h.restarts, omega (arith, h.spawns, length-remove t p.pending))
    cleared (some false) (some t) = (h.restarts, omega (arith, h.spawns, length-remove t p.pending))

restart_or_exit-IsBounded :
    (p : Supervised) (crashed : Bool) (policy : Option Backoff)
    → p.policy ≡ policy
    → IsBounded p
    → IsBounded (restart_or_exit p crashed policy).0
restart_or_exit-IsBounded p crashed none e h = record { restarts = h.restarts; spawns = h.spawns }
restart_or_exit-IsBounded p false (some b) e h = record { restarts = h.restarts; spawns = h.spawns }
restart_or_exit-IsBounded p true (some b) e h = within (Bool-cases (leb b.max_restarts p.restarts))
  where
    within :
        (leb b.max_restarts p.restarts ≡ true) ⊎ (leb b.max_restarts p.restarts ≡ false)
        → IsBounded (restart_or_exit p true (some b)).0
    within (inl l) = rw l (record { restarts = h.restarts; spawns = h.spawns })
    within (inr l) =
        rw l (record { restarts = rw e (ground arith); spawns = omega (arith, h.spawns) })

on_exit-IsBounded :
    (p : Supervised) (code : Option ℕ) (signal : Option String)
    → IsBounded p
    → IsBounded (on_exit p code signal).0
unfolding on_exit
on_exit-IsBounded p code signal h = elim (Bool-cases p.is_killed) [
  | inl k ↦ rw k (record { restarts = h.restarts; spawns = h.spawns })
  | inr k ↦ rw k (
      restart_or_exit-IsBounded (record p { idle_timer = false; is_killed = false })
        (is_crash code signal) p.policy refl (record { restarts = h.restarts; spawns = h.spawns }))
]

fire_restart-IsBounded : (p : Supervised) (t : ℕ) → IsBounded p → IsBounded (fire_restart p t)
unfolding fire_restart start
fire_restart-IsBounded p t h = elim (Bool-cases (contains t p.pending)) [
  | inr c ↦ rw c h
  | inl c ↦ elim (Bool-cases p.is_killed) [
    | inl k ↦
        rw (c, k)
          (record {
            restarts = h.restarts;
            spawns = omega (arith, h.spawns, length-remove t p.pending);
          })
    | inr k ↦
        rw (c, k)
          (record {
            restarts = h.restarts;
            spawns = omega (arith, h.spawns, length-remove-contains t p.pending c);
          })
  ]
]

fire_idle-IsBounded : (p : Supervised) → IsBounded p → IsBounded (fire_idle p).0
unfolding fire_idle
fire_idle-IsBounded p h = elim (Bool-cases p.idle_timer) [
  | inl i ↦ rw i (
      kill-IsBounded (record p { idle_timer = false })
        (record { restarts = h.restarts; spawns = h.spawns }))
  | inr i ↦ rw i (record { restarts = h.restarts; spawns = h.spawns })
]

touch-IsBounded : (p : Supervised) → IsBounded p → IsBounded (touch p)
unfolding touch
touch-IsBounded p h = touched (not (leb p.idle_ms 0) && is_running p.state)
  where
    touched : (b : Bool) → IsBounded (if b then arm_idle p else p)
    touched true = record { restarts = h.restarts; spawns = h.spawns }
    touched false = h

-- Whatever happens to a process, in any order and also twice, its restarts stay within the policy's
-- budget, and the backend is called at most once more than there were restarts.
pub react-IsBounded : (p : Supervised) (e : Event) → IsBounded p → IsBounded (react p e).0
unfolding react
react-IsBounded p (exit code signal) h =
    on_exit-IsBounded (record p { child = some false }) code signal
      (record { restarts = h.restarts; spawns = h.spawns })
react-IsBounded p (exits_earlier code signal) h = on_exit-IsBounded p code signal h
react-IsBounded p errors h = on_exit-IsBounded p none none h
react-IsBounded p (restart_fires t) h = fire_restart-IsBounded p t h
react-IsBounded p idle_fires h = fire_idle-IsBounded p h
react-IsBounded p kill_called h = kill-IsBounded p h
react-IsBounded p activity h = touch-IsBounded p h

abbrev pub Dead : Supervised → ℕ → Type 0
Dead p n = (p.is_killed ≡ true) × (p.spawned ≡ n)

pub kill-Dead : (p : Supervised) → Dead (kill p).0 p.spawned
unfolding kill
kill-Dead p = dead p.child p.restart_timer
  where
    dead :
        (c : Option Bool) (t : Option ℕ)
        → Dead (kill (record p { child = c; restart_timer = t })).0 p.spawned
    dead none none = (refl, refl)
    dead (some true) none = (refl, refl)
    dead (some false) none = (refl, refl)
    dead none (some t) = (refl, refl)
    dead (some true) (some t) = (refl, refl)
    dead (some false) (some t) = (refl, refl)

react-Dead : (p : Supervised) (e : Event) → p.is_killed ≡ true → Dead (react p e).0 p.spawned
unfolding react on_exit fire_restart start fire_idle touch
react-Dead p (exit code signal) h = rw h (refl, refl)
react-Dead p (exits_earlier code signal) h = rw h (refl, refl)
react-Dead p errors h = rw h (refl, refl)
react-Dead p (restart_fires t) h = (ground arith, ground arith)
react-Dead p idle_fires h = idle p.idle_timer
  where
    idle : (i : Bool) → Dead (fire_idle (record p { idle_timer = i })).0 p.spawned
    idle true = kill-Dead (record p { idle_timer = false })
    idle false = (h, refl)
react-Dead p kill_called h = kill-Dead p
react-Dead p activity h = (ground arith, ground arith)

abbrev pub react_all : Supervised → List Event → Supervised
react_all p [] = p
react_all p (e ∷ es) = react_all (react p e).0 es

react_all-Dead :
    (p : Supervised) (es : List Event) → p.is_killed ≡ true → Dead (react_all p es) p.spawned
react_all-Dead p [] h = (h, refl)
react_all-Dead p (e ∷ es) h =
    let (k, n) = react-Dead p e h in
    let (k', n') = react_all-Dead (react p e).0 es k in (k', n' ∙ n)

-- A kill is final: whatever happens to the process afterwards, in any order, with whatever timers
-- were still set, it stays killed and the backend is never called again.
pub kill_final :
    (p : Supervised) (es : List Event)
    → ((react_all (kill p).0 es).is_killed ≡ true) × ((react_all (kill p).0 es).spawned ≡ p.spawned)
kill_final p es =
    let (k, n) = kill-Dead p in let (k', n') = react_all-Dead (kill p).0 es k in (k', n' ∙ n)

kill-policy : (p : Supervised) → (kill p).0.policy ≡ p.policy
unfolding kill
kill-policy p = cleared p.child p.restart_timer
  where
    cleared :
        (c : Option Bool) (t : Option ℕ)
        → (kill (record p { child = c; restart_timer = t })).0.policy ≡ p.policy
    cleared none none = refl
    cleared (some true) none = refl
    cleared (some false) none = refl
    cleared none (some t) = refl
    cleared (some true) (some t) = refl
    cleared (some false) (some t) = refl

on_exit-policy :
    (p : Supervised) (code : Option ℕ) (signal : Option String)
    → (on_exit p code signal).0.policy ≡ p.policy
unfolding on_exit
on_exit-policy p code signal =
    ground (arith, closing p.is_killed (is_crash code signal) p.policy refl)
  where
    closing :
        (k crashed : Bool) (policy : Option Backoff)
        → p.policy ≡ policy
        → (if k
            then p.policy
            else (restart_or_exit (record p { idle_timer = false }) crashed policy).0.policy)
          ≡ p.policy
    closing true crashed policy e = refl
    closing false crashed none e = refl
    closing false false (some b) e = refl
    closing false true (some b) e = ground arith

react-policy : (p : Supervised) (e : Event) → (react p e).0.policy ≡ p.policy
unfolding react fire_restart start fire_idle touch
react-policy p (exit code signal) = on_exit-policy (record p { child = some false }) code signal
react-policy p (exits_earlier code signal) = on_exit-policy p code signal
react-policy p errors = on_exit-policy p none none
react-policy p (restart_fires t) = ground arith
react-policy p idle_fires = idle p.idle_timer
  where
    idle : (i : Bool) → (fire_idle (record p { idle_timer = i })).0.policy ≡ p.policy
    idle true = kill-policy (record p { idle_timer = false })
    idle false = refl
react-policy p kill_called = kill-policy p
react-policy p activity = ground arith

react_all-IsBounded : (p : Supervised) (es : List Event) → IsBounded p → IsBounded (react_all p es)
react_all-IsBounded p [] h = h
react_all-IsBounded p (e ∷ es) h = react_all-IsBounded (react p e).0 es (react-IsBounded p e h)

react_all-policy : (p : Supervised) (es : List Event) → (react_all p es).policy ≡ p.policy
react_all-policy p [] = refl
react_all-policy p (e ∷ es) = react_all-policy (react p e).0 es ∙ react-policy p e

-- The backend of a process is called at most once more than its policy allows restarts (once, where
-- there is no restart policy), whatever exits (also of earlier children), errors, timers, kills and
-- activity follow, in any order and also repeated.
pub supervise-spawned :
    (spec : SupervisedSpec) (es : List Event)
    → (react_all (supervise spec) es).spawned ≤ suc (budget (normalize_restart spec.restart))
unfolding supervise start
supervise-spawned spec es =
    let h =
      react_all-IsBounded (supervise spec) es
        (record { restarts = omega arith; spawns = omega arith }) in
    let e = react_all-policy (supervise spec) es in omega (arith, h.spawns, h.restarts, ap budget e)
