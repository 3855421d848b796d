-- ===== src/Supervisor/Registry.antt =====
-- The table of processes: app/sidecar/supervisor/process-supervisor.ts, `ProcessSupervisor`.
use capisco.Prelude.{
  ℕ, ◌≤◌, ◌<◌, ◌≡◌, ◌≢◌, refl, ap, sym, ◌∙◌, Bool, true, false, Option, none, some, List, [], ◌∷◌,
  String, nat_eq, string_eq, arith, leb, length, Bool-cases, inl, inr, ==_refl, map,
}
use capisco.Prelude.Dict.{
  Dict, get, set, delete, get-set-same, get-set-other, get-delete, length-set, length-delete,
}
use capisco.Prelude.Effect.{state, after_some}
use capisco.Supervisor.{
  Supervised, SupervisedSpec, Event, exit, kill_called, running, ProcessSupervisor, settle, deliver,
  kill_id, kill_all, kill_each, spawn, enter, register, supervise, react, kill, on_exit, start,
}
use capisco.Supervisor.Restarts.{kill-Dead}

-- The table has at most `max` entries.
abbrev pub IsWithin : ProcessSupervisor → Type 0
IsWithin s = length s.procs ≤ s.max

settle-IsWithin :
    (s : ProcessSupervisor) (n : ℕ) (id : String) (p : Supervised) (closed : Bool)
    → IsWithin s
    → IsWithin (settle s n id (p, closed))
settle-IsWithin s n id p true h = omega (arith, h, length-delete id s.procs)
settle-IsWithin s n id p false h = h

deliver-IsWithin :
    (s : ProcessSupervisor) (n : ℕ) (e : Event) → IsWithin s → IsWithin (deliver s n e)
unfolding deliver
deliver-IsWithin s n e h = found (get n s.objects)
  where
    found :
        (o : Option Supervised)
        → IsWithin
            (elim o as (λ o. ProcessSupervisor) [ none ↦ s | some p ↦ settle s n p.id (react p e) ])
    found none = h
    found (some p) = settle-IsWithin s n p.id (react p e).0 (react p e).1 h

kill_id-IsWithin : (s : ProcessSupervisor) (id : String) → IsWithin s → IsWithin (kill_id s id)
unfolding kill_id
kill_id-IsWithin s id h = found (get id s.procs)
  where
    found :
        (o : Option ℕ)
        → IsWithin
            (elim o as (λ o. ProcessSupervisor) [ none ↦ s | some n ↦ deliver s n kill_called ])
    found none = h
    found (some n) = deliver-IsWithin s n kill_called h

kill_each-IsWithin : (s : ProcessSupervisor) (ns : List ℕ) → IsWithin s → IsWithin (kill_each s ns)
unfolding kill_each
kill_each-IsWithin s [] h = h
kill_each-IsWithin s (n ∷ ns) h =
    kill_each-IsWithin (deliver s n kill_called) ns (deliver-IsWithin s n kill_called h)

kill_all-IsWithin : (s : ProcessSupervisor) → IsWithin s → IsWithin (kill_all s)
unfolding kill_all
kill_all-IsWithin s h = kill_each-IsWithin s (map (λ e. e.1) s.procs) h

enter-IsWithin :
    (s : ProcessSupervisor) (spec : SupervisedSpec) → IsWithin s → IsWithin (state (enter s spec))
unfolding enter
enter-IsWithin s spec h = elim (Bool-cases (leb s.max (length s.procs))) [
  | inl l ↦ rw (l, state) h
  | inr l ↦ rw (l, state) (ground (arith, l, length-set spec.id s.next s.procs))
]

spawn-IsWithin :
    (s : ProcessSupervisor) (spec : SupervisedSpec) → IsWithin s → IsWithin (state (spawn s spec))
unfolding spawn
spawn-IsWithin s spec h = enter-IsWithin (kill_id s spec.id) spec (kill_id-IsWithin s spec.id h)

-- An operation on the table, or something that happens to one of its objects.
pub data Operation : Type 0 where
  spawns : SupervisedSpec → Operation
  happens : ℕ → Event → Operation
  kills : String → Operation
  kills_all : Operation

abbrev pub operate : ProcessSupervisor → Operation → ProcessSupervisor
operate s (spawns spec) = state (spawn s spec)
operate s (happens n e) = deliver s n e
operate s (kills id) = kill_id s id
operate s kills_all = kill_all s

-- The table never has more entries than the supervisor's limit: each operation, and each exit, timer
-- or activity of any process, keeps it within the limit.
pub operate-IsWithin : (s : ProcessSupervisor) (x : Operation) → IsWithin s → IsWithin (operate s x)
operate-IsWithin s (spawns spec) h = spawn-IsWithin s spec h
operate-IsWithin s (happens n e) h = deliver-IsWithin s n e h
operate-IsWithin s (kills id) h = kill_id-IsWithin s id h
operate-IsWithin s kills_all h = kill_all-IsWithin s h

deliver-some :
    (s : ProcessSupervisor) (n : ℕ) (e : Event) (p : Supervised)
    → get n s.objects ≡ some p
    → deliver s n e ≡ settle s n p.id (react p e)
unfolding deliver
deliver-some s n e p h = after_some _ _ (get n s.objects) p h

kill-live : (p : Supervised) → p.child ≡ some true → (kill p).1 ≡ false
unfolding kill
kill-live p c = ground (arith, c)

kill-id : (p : Supervised) → (kill p).0.id ≡ p.id
unfolding kill
kill-id p = cleared p.child p.restart_timer
  where
    cleared :
        (c : Option Bool) (t : Option ℕ)
        → (kill (record p { child = c; restart_timer = t })).0.id ≡ p.id
    cleared none none = refl
    cleared (some true) none = refl
    cleared (some false) none = refl
    cleared none (some t) = refl
    cleared (some true) (some t) = refl
    cleared (some false) (some t) = refl

on_exit-killed :
    (p : Supervised) (code : Option ℕ) (signal : Option String)
    → p.is_killed ≡ true
    → (on_exit p code signal).1 ≡ true
unfolding on_exit
on_exit-killed p code signal k = ground (arith, k)

enter-ok :
    (s : ProcessSupervisor) (spec : SupervisedSpec)
    → leb s.max (length s.procs) ≡ false
    → state (enter s spec) ≡ register s spec
unfolding enter
enter-ok s spec l = rw (l, state) refl

supervise-running :
    (spec : SupervisedSpec)
    → ((supervise spec).state ≡ running) × ((supervise spec).child ≡ some true)
unfolding supervise start
supervise-running spec = (refl, refl)

get-delete-same : (k : String) (m : Dict String ℕ) → get k (delete k m) ≡ none
get-delete-same k m = ground (arith, get-delete k k m, ==_refl k)

closed-procs :
    (s : ProcessSupervisor) (n : ℕ) (id : String) (p : Supervised) (closed : Bool)
    → closed ≡ true
    → (settle s n id (p, closed)).procs ≡ delete id s.procs
closed-procs s n id p closed h = rw h refl

abbrev put_object : ProcessSupervisor → ℕ → Supervised → ProcessSupervisor
put_object s n p = record s { objects = set n p s.objects }

-- A spawn under the id of a live process.
spawn-live :
    (s : ProcessSupervisor) (spec : SupervisedSpec) (n : ℕ) (p : Supervised)
    → get spec.id s.procs ≡ some n
    → get n s.objects ≡ some p
    → p.child ≡ some true
    → length s.procs < s.max
    → state (spawn s spec) ≡ register (put_object s n (kill p).0) spec
unfolding spawn kill_id react
spawn-live s spec n p t o c l =
    let q = (kill p).0 in
    let killed_first =
      after_some s (λ m. deliver s m kill_called) (get spec.id s.procs) n t
      ∙ deliver-some s n kill_called p o
      ∙ ap (λ b. settle s n p.id (q, b)) (kill-live p c) in
    ap (λ x. state (enter x spec)) killed_first ∙ enter-ok (put_object s n q) spec (ground arith)

-- Where a spawn replaces the live process that its id stands for, in a table with room and under an
-- object number that is new, the id then stands for the new process; but the exit of the old one,
-- which comes later, takes the id out of the table although the new process runs.
pub replaced_exit :
    (s : ProcessSupervisor) (spec : SupervisedSpec) (n : ℕ) (p : Supervised) (code : Option ℕ)
    (signal : Option String)
    → get spec.id s.procs ≡ some n
    → get n s.objects ≡ some p
    → p.id ≡ spec.id
    → p.child ≡ some true
    → s.next ≢ n
    → length s.procs < s.max
    → let s₁ = state (spawn s spec) in
      let s₂ = deliver s₁ n (exit code signal) in
      (get spec.id s₁.procs ≡ some s.next)
      × (get spec.id s₂.procs ≡ none)
      × ((q : Supervised) × (get s.next s₂.objects ≡ some q)
          × (q.state ≡ running)
          × (q.child ≡ some true))
unfolding react
replaced_exit s spec n p code signal t o i c ne l =
    let q = (kill p).0 in
    let s₁ = register (put_object s n q) spec in
    let dead = record q { child = some false } in
    let x = on_exit dead code signal in
    let e₁ = spawn-live s spec n p t o c l in
    let there =
      get-set-other s.next n (supervise spec) (set n q s.objects) ne ∙ get-set-same n q s.objects in
    let e₂ =
      ap (λ y. deliver y n (exit code signal)) e₁ ∙ deliver-some s₁ n (exit code signal) q there in
    (
      ap (λ y. get spec.id y.procs) e₁ ∙ get-set-same spec.id s.next s.procs,
      ap (λ y. get spec.id y.procs) e₂
          ∙ ap (get spec.id)
              (closed-procs s₁ n q.id x.0 x.1 (on_exit-killed dead code signal (kill-Dead p).0))
          ∙ ap (λ k. get spec.id (delete k s₁.procs)) (kill-id p ∙ i)
          ∙ get-delete-same spec.id s₁.procs,
      (
        supervise spec,
        ap (λ y. get s.next y.objects) e₂
            ∙ get-set-other n s.next x.0 s₁.objects (λ e. ne (sym e))
            ∙ get-set-same s.next (supervise spec) (set n q s.objects),
        (supervise-running spec).0,
        (supervise-running spec).1,
      ),
    )
