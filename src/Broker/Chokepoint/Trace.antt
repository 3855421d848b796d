-- ===== src/Broker/Chokepoint/Trace.antt =====
-- Histories of calls of app/sidecar/broker/capability-broker.ts.
use capisco.Prelude.{
  ℕ, suc, ◌≤◌, ◌≡◌, ◌≢◌, refl, inl, inr, true, false, Option, none, some, List, [], ◌∷◌, ◌++◌,
  String, arith, Extends, Option-cases, get_or, string_eq, nat_eq, list_eq, ==_iff, ==_refl, ap,
  sym, ◌∙◌, In,
}
use mathlib.Core.List.{append-nil, append_assoc}
use capisco.Prelude.Dict.{get, contains, get-set, get-delete, contains-add}
use capisco.Prelude.Effect.{ok, err}
use capisco.Prelude.Text.{is_empty}
use capisco.Broker.Contract.{Principal, CapabilityRequest, BrokerOutcome, WriteEscape}
use capisco.Broker.Audit.{AuditLog, AuditEntry, decided}
use capisco.Broker.Chokepoint.{
  Broker, BrokerError, Fingerprint, json_eq, request_fingerprint, is_prod_write, admit, revoke_task,
}
use capisco.Broker.Policy.{Engine}
use capisco.Broker.Contract.{kind_name-injective, principal_name-injective}
use capisco.Broker.Chokepoint.Gate.{Admitted, admit-Admitted}
use capisco.Broker.Chokepoint.Change.{
  Appends, Change, quiet, minted, consumed, revoked, Call, step, run, step-Change,
}
use capisco.Broker.Chokepoint.Invariant.{task_of, IsSound, step-IsSound, get-delete_all}

-- A broker as its constructor makes it.
unfoldable pub init : Engine → List String → Broker
init policy datasources = record {
  policy = policy;
  vault = [];
  audit = record { entries = []; seq = 0 };
  prod_datasources = datasources;
  grants = [];
  grants_by_task = [];
  grant_seq = 0;
  used_escapes = [];
}

pub init-IsSound : (e : Engine) (ds : List String) → IsSound (init e ds)
unfolding init get
init-IsSound e ds = record {
  below = λ id f h. absurd (cc);
  vouched = λ id f h. absurd (cc);
  indexed = λ id f h t. absurd (cc);
  numbered = refl;
}

pub run-IsSound : (b : Broker) (cs : List Call) → IsSound b → IsSound (run b cs)
unfolding run
run-IsSound b [] v = v
run-IsSound b (c ∷ cs) v = run-IsSound (step b c) cs (step-IsSound b c v)

-- The log names the call that the handle was minted for.
pub record Authorized (entries : List AuditEntry) (p : Principal) (r : CapabilityRequest)
    : Type 0 where
  pub entry : AuditEntry
  pub logged : In entry entries
  pub outcome : entry.outcome ≡ decided BrokerOutcome.allow
  pub principal : (entry.principal_id ≡ p.id) × (entry.principal_kind ≡ p.kind)
  pub capability : entry.capability ≡ r.kind
  pub target : entry.target ≡ r.target
  pub untrusted : entry.from_untrusted ≡ r.from_untrusted

fingerprint-injective :
    (p q : Principal) (r s : CapabilityRequest)
    → request_fingerprint p r ≡ request_fingerprint q s
    → (q.id ≡ p.id)
      × (q.kind ≡ p.kind)
      × (s.kind ≡ r.kind)
      × (s.target ≡ r.target)
      × (s.from_untrusted ≡ r.from_untrusted)
unfolding request_fingerprint
fingerprint-injective p q r s h = (
  cc,
  principal_name-injective q.kind p.kind (cc),
  kind_name-injective s.kind r.kind (cc),
  cc,
  cc,
)

-- Nothing executes that was not authorized: in any history of a broker that starts empty, a request
-- whose callback starts has an earlier `allow` entry in the audit log, of the same principal, with the
-- same capability, target and trust.
pub admit-Authorized :
    (e : Engine) (ds : List String) (cs : List Call) (p : Principal) (r : CapabilityRequest)
    (escape : Option WriteEscape) (grant : Option ℕ) (u : Unit {0}) (b' : Broker)
    → admit (run (init e ds) cs) p r escape grant ≡ ok u b'
    → Authorized (run (init e ds) cs).audit.entries p r
admit-Authorized e ds cs p r escape grant u b' h =
    let (id, _, a) = admit-Admitted _ p r escape grant u b' h in
    let v = (run-IsSound (init e ds) cs (init-IsSound e ds)).vouched id _ a.held in
    let (i, k, c, t, f) = fingerprint-injective p v.principal r v.request v.bound in
    record {
      entry = v.entry;
      logged = v.logged;
      outcome = ap (λ x. x.outcome) v.what;
      principal = (ap (λ x. x.principal_id) v.what ∙ i, ap (λ x. x.principal_kind) v.what ∙ k);
      capability = ap (λ x. x.capability) v.what ∙ c;
      target = ap (λ x. x.target) v.what ∙ t;
      untrusted = ap (λ x. x.from_untrusted) v.what ∙ f;
    }

-- The log only grows.
Appends-Extends : (l l' : AuditLog) → Appends l l' → Extends l.entries l'.entries
Appends-Extends l l' (inl e) = ([], rw e (sym (append-nil _)))
Appends-Extends l l' (inr (x, e)) = (_, ap (λ l. l.entries) e)

Change-Extends : (b b' : Broker) → Change b b' → Extends b.audit.entries b'.audit.entries
Change-Extends b b' (quiet a g i s u) = Appends-Extends b.audit b'.audit a
Change-Extends b b' (minted p r reason a g i s u) = (_, ap (λ l. l.entries) a)
Change-Extends b b' (consumed r id a g i s u) = Appends-Extends b.audit b'.audit a
Change-Extends b b' (revoked task ids a q g i s u) = ([], rw a (sym (append-nil _)))

-- The audit log is append-only: whatever calls are made, the entries that were there stay, in place.
pub run-Extends : (b : Broker) (cs : List Call) → Extends b.audit.entries (run b cs).audit.entries
unfolding run
run-Extends b [] = ([], sym (append-nil _))
run-Extends b (c ∷ cs) =
    let (xs, p) = Change-Extends b (step b c) (step-Change b c) in
    let (ys, q) = run-Extends (step b c) cs in
    (xs ++ ys, q ∙ ap (λ l. l ++ ys) p ∙ append_assoc _ xs ys)

-- A handle that was minted and is no longer outstanding.
abbrev Spent : ℕ → Broker → Type 0
Spent id b = (id ≤ b.grant_seq) × (get id b.grants ≡ none)

Change-Spent : (b b' : Broker) (id : ℕ) → Change b b' → Spent id b → Spent id b'
Change-Spent b b' id (quiet a g i s u) h = ground arith
Change-Spent b b' id (minted p r reason a g i s u) h = (
  omega (arith, s),
  ground (
    arith,
    get-set (suc b.grant_seq) id (request_fingerprint p r) b.grants,
    ==_iff (suc b.grant_seq) id,
  ),
)
Change-Spent b b' id (consumed r j a g i s u) h =
    (omega (arith, s), ground (arith, get-delete j id b.grants))
Change-Spent b b' id (revoked task ids a q g i s u) h =
    (omega (arith, s), ground (arith, get-delete_all ids id b.grants))

run-Spent : (b : Broker) (id : ℕ) (cs : List Call) → Spent id b → Spent id (run b cs)
unfolding run
run-Spent b id [] h = h
run-Spent b id (c ∷ cs) h = run-Spent (step b c) id cs (Change-Spent b _ id (step-Change b c) h)

admit_unheld :
    (b : Broker) (p : Principal) (r : CapabilityRequest) (escape : Option WriteEscape) (id : ℕ)
    → get id b.grants ≡ none
    → admit b p r escape (some id) ≡ err BrokerError.not_authorized b
unfolding admit
admit_unheld b p r escape id h = rw h

-- A grant executes once: once a handle has let a callback start, it is refused for ever, whoever
-- presents it, for whatever request, after whatever further calls.
pub admit_once :
    (b : Broker) (p : Principal) (r : CapabilityRequest) (escape : Option WriteEscape) (id : ℕ)
    (u : Unit {0}) (b' : Broker) (cs : List Call) (p' : Principal) (r' : CapabilityRequest)
    (escape' : Option WriteEscape)
    → IsSound b
    → admit b p r escape (some id) ≡ ok u b'
    → admit (run b' cs) p' r' escape' (some id) ≡ err BrokerError.not_authorized (run b' cs)
admit_once b p r escape id u b' cs p' r' escape' v h =
    let (j, e, a) = admit-Admitted b p r escape (some id) u b' h in
    admit_unheld (run b' cs) p' r' escape' id (run-Spent b' id cs (spent j e a)).1
  where
    spent : (j : ℕ) → some id ≡ some j → Admitted b p r escape j b' → Spent id b'
    spent j e a = (
      ground (arith, v.below j _ a.held, a.seq),
      ground (arith, a.spent, get-delete j id b.grants, ==_iff j id),
    )

-- A handle minted before, and for another task than `t` if it is outstanding.
abbrev NotFor : String → ℕ → Broker → Type 0
NotFor t id b = (id ≤ b.grant_seq) × ((f : Fingerprint) → get id b.grants ≡ some f → task_of f ≢ t)

Change-NotFor : (b b' : Broker) (t : String) (id : ℕ) → Change b b' → NotFor t id b → NotFor t id b'
Change-NotFor b b' t id (quiet a g i s u) h = (omega (arith, s), λ f k. h.1 f (rw g at k))
Change-NotFor b b' t id (minted p r reason a g i s u) h = (
  omega (arith, s),
  λ f k. h.1 f (
      ground (
        arith,
        get-set (suc b.grant_seq) id (request_fingerprint p r) b.grants,
        ==_iff (suc b.grant_seq) id,
      )),
)
Change-NotFor b b' t id (consumed r j a g i s u) h =
    (omega (arith, s), λ f k. h.1 f (ground (arith, get-delete j id b.grants)))
Change-NotFor b b' t id (revoked task ids a q g i s u) h =
    (omega (arith, s), λ f k. h.1 f (ground (arith, get-delete_all ids id b.grants)))

run-NotFor :
    (b : Broker) (t : String) (id : ℕ) (cs : List Call) → NotFor t id b → NotFor t id (run b cs)
unfolding run
run-NotFor b t id [] h = h
run-NotFor b t id (c ∷ cs) h =
    run-NotFor (step b c) t id cs (Change-NotFor b _ t id (step-Change b c) h)

revoke_task-NotFor :
    (b : Broker) (t : String) (id : ℕ)
    → is_empty t ≡ false
    → IsSound b
    → id ≤ b.grant_seq
    → NotFor t id (revoke_task b t)
unfolding revoke_task contains
revoke_task-NotFor b t id n v le = elim (Option-cases (get t b.grants_by_task)) [
  | inl e ↦ rw (e, revoke_task) (le, λ f k q. not_indexed f k q e)
  | inr (ids, e) ↦
      rw (e, revoke_task)
        (
          le,
          λ f k q.
              let listed =
                v.indexed id f (ground (arith, get-delete_all ids id b.grants)) (rw q n) in
              ground (arith, get-delete_all ids id b.grants),
        )
]
  where
    not_indexed :
        (f : Fingerprint)
        → get id b.grants ≡ some f
        → task_of f ≡ t
        → get t b.grants_by_task ≡ none
        → ⊥
    not_indexed f k q e = let listed = v.indexed id f k (rw q n) in ground arith

-- Revoking a task closes the window between authorize and execute: a handle minted before the task
-- was revoked is refused for every request of that task, after whatever further calls.
pub revoke_task-admit :
    (b : Broker) (t : String) (id : ℕ) (cs : List Call) (p : Principal) (r : CapabilityRequest)
    (escape : Option WriteEscape) (u : Unit {0}) (b' : Broker)
    → is_empty t ≡ false
    → IsSound b
    → id ≤ b.grant_seq
    → r.task_id ≡ some t
    → admit (run (revoke_task b t) cs) p r escape (some id) ≢ ok u b'
unfolding request_fingerprint
revoke_task-admit b t id cs p r escape u b' n v le k h =
    let (j, e, a) = admit-Admitted _ p r escape (some id) u b' h in
    (run-NotFor (revoke_task b t) t id cs (revoke_task-NotFor b t id n v le)).1
      (request_fingerprint p r) (let same : id ≡ j = ground arith in rw same a.held)
      (ap (λ o. get_or o "") k)

abbrev Used : String → Broker → Type 0
Used w b = contains w b.used_escapes ≡ true

Change-Used : (b b' : Broker) (w : String) → Change b b' → Used w b → Used w b'
Change-Used b b' w (quiet a g i s u) h = rw u h
Change-Used b b' w (minted p r reason a g i s u) h = rw u h
Change-Used b b' w (consumed r j a g i s (inl u)) h = rw u h
Change-Used b b' w (consumed r j a g i s (inr (x, u))) h =
    ground (arith, contains-add x w b.used_escapes)
Change-Used b b' w (revoked task ids a q g i s u) h = rw u h

run-Used : (b : Broker) (w : String) (cs : List Call) → Used w b → Used w (run b cs)
unfolding run
run-Used b w [] h = h
run-Used b w (c ∷ cs) h = run-Used (step b c) w cs (Change-Used b _ w (step-Change b c) h)

-- A write escape is used once: a write to a production datasource whose callback has started uses its
-- escape up, and no later call, after whatever further calls, writes to a production datasource with
-- an escape of the same id.
pub escape_once :
    (b : Broker) (p p' : Principal) (r r' : CapabilityRequest) (w w' : WriteEscape)
    (grant grant' : Option ℕ) (u u' : Unit {0}) (b' c' : Broker) (cs : List Call)
    → admit b p r (some w) grant ≡ ok u b'
    → is_prod_write b r ≡ true
    → is_prod_write (run b' cs) r' ≡ true
    → w'.id ≡ w.id
    → admit (run b' cs) p' r' (some w') grant' ≢ ok u' c'
escape_once b p p' r r' w w' grant grant' u u' b' c' cs h t t' same h' =
    let (_, _, a) = admit-Admitted b p r (some w) grant u b' h in
    let (_, _, a') = admit-Admitted (run b' cs) p' r' (some w') grant' u' c' h' in
    let first = a.prod t in
    let second = a'.prod t' in
    let used = run-Used b' w.id cs (
      ground
        (arith, first.given, first.used, contains-add w.id w.id b.used_escapes, ==_refl w.id)) in
    ground (arith, second.given, second.fresh)
