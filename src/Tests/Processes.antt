-- ===== src/Tests/Processes.antt =====
-- Witnesses for routing, processes and parked requests.
use capisco.Prelude.{
  ℕ, suc, ◌+◌, ◌≡◌, ◌≢◌, ◌≤◌, refl, true, Option, none, some, List, [], ◌∷◌, String, string_eq,
  nat_eq, arith, ltb, length, leb,
}
use capisco.Prelude.Dict.{get}
use capisco.Prelude.Effect.{state}
use capisco.Broker.Contract.{GrantAxis}
use capisco.Routing.{
  large, SessionOrigin, OriginKind, StepCategory, tier_index, route_origin, is_blocklisted,
}
use capisco.Routing.Live.{LiveRouter, decide, default_tier_map}
use capisco.Routing.Escalation.{QualityVerdict, Outcome, Attempt, run_with_escalation, last_of}
use capisco.Routing.Ceiling.{Chain, run_with_escalation_settles}
use capisco.Supervisor.{
  SupervisedSpec, Event, exit, errors, restart_fires, on_crash, ProcessSupervisor, supervise, start,
  kill, normalize_restart, spawn, deliver, running, Supervised,
}
use capisco.Supervisor.Restarts.{budget, react_all, supervise-spawned, kill_final}
use capisco.Supervisor.Registry.{replaced_exit}
use capisco.Permissions.Subscribers.{unsubscribe_twice}
use capisco.Permissions
use capisco.Permissions.{Registry}
use capisco.Permissions.Settlement
use capisco.Permissions.Settlement.{IsSettled, parks, resolves, operate-IsSettled}
use capisco.Permissions.Authority.{Settles, operate-Settles}
use capisco.Tests.{push, answer}

abbrev origin : OriginKind → Option StepCategory → SessionOrigin
origin kind category = record { kind = kind; step_category = category; subagent_type = none }

abbrev router : LiveRouter
router = record { enabled = true; tier_map = default_tier_map }

todo_small : (decide router (origin OriginKind.todo none)).tier ≢ large
unfolding decide route_origin is_blocklisted
todo_small h = cc h

abbrev run_session : String → String → ℕ → String
run_session model prompt attempt = "run"

-- A gate that fails the first attempt.
abbrev gate : String → String → ℕ → QualityVerdict
gate session model attempt = record { failed = leb attempt 0; diagnostics = [] }

run_with_escalation_settles_example :
    let o₀ = origin OriginKind.todo none in
    (o : Outcome) × (run_with_escalation router "do it" run_session gate o₀ ≡ some o)
    × Chain router "do it" run_session gate (decide router o₀) "do it" 0 o.attempts
    × (length o.attempts + tier_index (decide router o₀).tier ≤ 3)
    × (o.escalated ≡ ltb 1 (length o.attempts))
    × ((a : Attempt) × (rest : List Attempt) × (o.attempts ≡ a ∷ rest)
        × (o.last ≡ last_of router "do it" run_session gate a rest))
run_with_escalation_settles_example =
    run_with_escalation_settles router "do it" run_session gate (origin OriginKind.todo none)

abbrev spec : SupervisedSpec
spec = record { id = "lsp"; restart = some on_crash; idle_timeout_ms = 0 }

abbrev crashes : List Event
crashes = errors ∷ exit (some 1) none ∷ restart_fires 0 ∷ exit none none ∷ exit (some 1) none ∷ []

supervise-spawned_example :
    (react_all (supervise spec) crashes).spawned ≤ suc (budget (normalize_restart spec.restart))
supervise-spawned_example = supervise-spawned spec crashes

kill_final_example :
    ((react_all (kill (supervise spec)).0 crashes).is_killed ≡ true)
    × ((react_all (kill (supervise spec)).0 crashes).spawned ≡ (supervise spec).spawned)
kill_final_example = kill_final (supervise spec) crashes

abbrev supervisor : ProcessSupervisor
supervisor = record {
  procs = ("lsp", 0) ∷ [];
  objects = (0, supervise spec) ∷ [];
  next = 1;
  max = 64;
}

lsp_there : get "lsp" supervisor.procs ≡ some 0
unfolding get
lsp_there = refl

object_there : get 0 supervisor.objects ≡ some (supervise spec)
unfolding get
object_there = refl

lsp_id : (supervise spec).id ≡ "lsp"
unfolding supervise start
lsp_id = refl

lsp_alive : (supervise spec).child ≡ some true
unfolding supervise start
lsp_alive = refl

one_is_new : supervisor.next ≢ 0
one_is_new h = cc h

replaced_exit_example :
    let s₁ = state (spawn supervisor spec) in
    let s₂ = deliver s₁ 0 (exit none (some "SIGTERM")) in
    (get "lsp" s₁.procs ≡ some 1)
    × (get "lsp" s₂.procs ≡ none)
    × ((q : Supervised) × (get 1 s₂.objects ≡ some q) × (q.state ≡ running) × (q.child ≡ some true))
replaced_exit_example =
    replaced_exit supervisor spec 0 (supervise spec) none (some "SIGTERM") lsp_there object_there
      lsp_id lsp_alive one_is_new (omega arith)

abbrev registry : Registry
registry = record {
  pending = [];
  listeners = [];
  sets = [];
  next_set = 0;
  seq = [];
  timeout_ms = 300000;
  timers = [];
  next_timer = 0;
  next_promise = 0;
  settled = [];
  emitted = [];
}

registry-IsSettled : IsSettled registry
registry-IsSettled = record { dict = tt; once = λ n. ground arith }

operate-IsSettled_example : IsSettled (Settlement.operate registry (parks "s" push true))
operate-IsSettled_example = operate-IsSettled registry (parks "s" push true) registry-IsSettled

abbrev parked : Registry
parked = Permissions.park registry "s" push true

operate-Settles_example :
    Settles parked
      (resolves "s" "s:perm-1" (answer GrantAxis.once))
      (Settlement.operate parked (resolves "s" "s:perm-1" (answer GrantAxis.once)))
operate-Settles_example = operate-Settles parked (resolves "s" "s:perm-1" (answer GrantAxis.once))

nobody : get "s" registry.listeners ≡ none
unfolding get
nobody = refl

no_set : (i : ℕ) → get i registry.sets ≡ none
unfolding get
no_set i = refl

unsubscribe_twice_example :
    let (i, a) = Permissions.subscribe registry "s" 1 in
    let (j, b) = Permissions.subscribe (Permissions.unsubscribe a "s" i 1) "s" 2 in
    (Permissions.audience a "s" ≡ 1 ∷ [])
    × (Permissions.audience b "s" ≡ 2 ∷ [])
    × (Permissions.audience (Permissions.unsubscribe b "s" i 1) "s" ≡ [])
unsubscribe_twice_example = unsubscribe_twice registry "s" 1 2 nobody (no_set 0) (no_set 1)
