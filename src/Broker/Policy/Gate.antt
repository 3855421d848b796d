-- ===== src/Broker/Policy/Gate.antt =====
-- When the policy engine of app/sidecar/broker/policy-engine.ts allows a request.
use capisco.Prelude.{
  ℕ, suc, ◌≡◌, ◌≢◌, refl, ◌⊎◌, inl, inr, true, false, Option, none, some, arith, Bool-cases,
  string_eq, list_eq, [], ◌∷◌, ◌↔◌, and-parts, ==_refl,
}
use capisco.Prelude.Dict.{get, set, contains, remove}
use capisco.Broker.Contract.{
  kind_eq, CapabilityKind, CapabilityRequest, CapabilityScope, BrokerOutcome, AllowlistRule,
}
use capisco.Broker.Policy.{
  Scoped, PersistedGrant, denied, session, scoped, Engine, is_egress, find_rule, grant_key,
  consumable_key, scope_matches, is_untrusted_egress, consult, decide_persisted, decide, spend,
}

-- The kinds of requests that act on the machine or on something outside of it.
pub data Acts : CapabilityKind → Type 0 where
  runs_commands : Acts CapabilityKind.shell
  writes_files : Acts CapabilityKind.file_write
  reaches_network : Acts CapabilityKind.network
  writes_databases : Acts CapabilityKind.db_write
  writes_services : Acts CapabilityKind.external_write

Acts-is_egress : (k : CapabilityKind) → Acts k → is_egress k ≡ true
unfolding is_egress
Acts-is_egress _ runs_commands = refl
Acts-is_egress _ writes_files = refl
Acts-is_egress _ reaches_network = refl
Acts-is_egress _ writes_databases = refl
Acts-is_egress _ writes_services = refl

is_egress-Acts : (k : CapabilityKind) → is_egress k ≡ true → Acts k
unfolding is_egress
is_egress-Acts CapabilityKind.shell h = runs_commands
is_egress-Acts CapabilityKind.file_write h = writes_files
is_egress-Acts CapabilityKind.network h = reaches_network
is_egress-Acts CapabilityKind.db_write h = writes_databases
is_egress-Acts CapabilityKind.external_write h = writes_services
is_egress-Acts CapabilityKind.file_read h = absurd (cc h)
is_egress-Acts CapabilityKind.db_read h = absurd (cc h)
is_egress-Acts CapabilityKind.secret_read h = absurd (cc h)
is_egress-Acts CapabilityKind.cross_project_read h = absurd (cc h)

-- The engine leaves the request to the human.
abbrev pub Asks : Engine → CapabilityRequest → Option CapabilityScope → Type 0
Asks e r s =
    ((decide e r s).0.outcome ≡ BrokerOutcome.ask)
    × ((decide e r s).1.grants ≡ e.grants)
    × ((decide e r s).1.consumable ≡ e.consumable)

pub decide_egress :
    (e : Engine) (r : CapabilityRequest) (s : Option CapabilityScope)
    → r.from_untrusted ≡ true
    → is_egress r.kind ≡ true
    → Asks e r s
unfolding decide is_untrusted_egress
decide_egress e r s h k = ground arith

-- An engine in which the human has granted the request for the session.
abbrev granting : Engine → CapabilityRequest → Option CapabilityScope → Engine
granting e r s = record e { grants = (grant_key e r.kind s, session) ∷ []; consumable = [] }

granting_allows :
    (e : Engine) (r : CapabilityRequest) (s : Option CapabilityScope)
    → is_untrusted_egress r ≡ false
    → (decide (granting e r s) r s).0.outcome ≡ BrokerOutcome.allow
unfolding decide get contains grant_key decide_persisted
granting_allows e r s u = rw (u, ==_refl (grant_key e r.kind s)) refl

-- Untrusted egress, and nothing else, is out of the engine's hands: that no engine, whatever its rules,
-- its persisted grants and its single-use grants, decides a request, but each one asks the human and
-- consumes no grant, holds exactly where the request is marked untrusted and runs a command, writes a
-- file, a database or an external service, or reaches the network. The engine `seed` only shows that
-- there are engines.
pub decide_untrusted :
    (seed : Engine) (r : CapabilityRequest) (s : Option CapabilityScope)
    → ((e : Engine) → Asks e r s) ↔ ((r.from_untrusted ≡ true) × Acts r.kind)
unfolding is_untrusted_egress
decide_untrusted seed r s = (
  λ h. elim (Bool-cases (is_untrusted_egress r)) [
    | inr u ↦ absurd (cc (granting_allows seed r s u, (h (granting seed r s)).0))
    | inl u ↦
        let (marked, egress) = and-parts r.from_untrusted (is_egress r.kind) u in
        (marked, is_egress-Acts r.kind egress)
  ],
  λ g e. decide_egress e r s g.0 (Acts-is_egress r.kind g.1),
)

-- A rule that allows a request: the first of its kind whose pattern fits.
pub data Clears (e : Engine) (r : CapabilityRequest) (s : Option CapabilityScope) (e' : Engine)
    : Type 0 where
  by_single_use :
      contains (consumable_key e r s) e.consumable ≡ true
      → e' ≡ record e { consumable = remove (consumable_key e r s) e.consumable }
      → Clears e r s e'
  by_session : get (grant_key e r.kind s) e.grants ≡ some session → e' ≡ e → Clears e r s e'
  by_scoped :
      (g : Scoped)
      → get (grant_key e r.kind s) e.grants ≡ some (scoped g)
      → scope_matches e.host g r ≡ true
      → e' ≡ record e { grants = set (grant_key e r.kind s) (scoped (spend g)) e.grants }
      → Clears e r s e'
  by_rule :
      (rule : AllowlistRule)
      → get (grant_key e r.kind s) e.grants ≢ some denied
      → find_rule e.rules r.kind r.target ≡ some rule
      → rule.verdict ≡ BrokerOutcome.allow
      → e' ≡ e
      → Clears e r s e'

consult_rule :
    (e : Engine) (r : CapabilityRequest) (s : Option CapabilityScope) (o : Option AllowlistRule)
    → find_rule e.rules r.kind r.target ≡ o
    → (consult e r s).0.outcome ≡ BrokerOutcome.allow
    → (rule : AllowlistRule) × (find_rule e.rules r.kind r.target ≡ some rule)
      × (rule.verdict ≡ BrokerOutcome.allow)
      × ((consult e r s).1 ≡ e)
unfolding consult
consult_rule e r s none p h = ground arith
consult_rule e r s (some rule) p h = (rule, p, ground arith, ground arith)

decide_persisted-Clears :
    (e : Engine) (r : CapabilityRequest) (s : Option CapabilityScope) (o : Option PersistedGrant)
    → get (grant_key e r.kind s) e.grants ≡ o
    → (decide_persisted e r s o).0.outcome ≡ BrokerOutcome.allow
    → Clears e r s (decide_persisted e r s o).1
unfolding decide_persisted
decide_persisted-Clears e r s none p h =
    let (rule, f, v, q) = consult_rule e r s _ refl h in by_rule rule (λ d. cc) f v q
decide_persisted-Clears e r s (some denied) p h = cc
decide_persisted-Clears e r s (some session) p h = by_session p refl
decide_persisted-Clears e r s (some (scoped g)) p h = elim (Bool-cases (scope_matches e.host g r)) [
  | inl m ↦ by_scoped g p m (rw m)
  | inr m ↦
      let (rule, f, v, q) = consult_rule e r s _ refl (rw m at h) in
      by_rule rule (λ d. cc) f v (rw m q)
]

-- A request that the engine allows is not untrusted egress, and one thing clears it: a single-use
-- grant for its exact target and command, which is used up; a session grant; a scoped grant that
-- covers it, whose budget goes down by one; or the first rule of the allowlist that fits, which
-- allows it, where no deny is persisted. Nothing else in the engine changes.
pub decide-Clears :
    (e : Engine) (r : CapabilityRequest) (s : Option CapabilityScope)
    → (decide e r s).0.outcome ≡ BrokerOutcome.allow
    → (is_untrusted_egress r ≡ false) × Clears e r s (decide e r s).1
unfolding decide
decide-Clears e r s h = elim (Bool-cases (is_untrusted_egress r)) [
  | inl u ↦ absurd (cc (rw u at h))
  | inr u ↦ elim (Bool-cases (contains (consumable_key e r s) e.consumable)) [
    | inl c ↦ (u, by_single_use c (rw (u, c)))
    | inr c ↦ (u, rw (u, c) (decide_persisted-Clears e r s _ refl (rw (u, c) at h)))
  ]
]

consult_refused :
    (e : Engine) (r : CapabilityRequest) (s : Option CapabilityScope) (o : Option AllowlistRule)
    → find_rule e.rules r.kind r.target ≡ o
    → (consult e r s).0.outcome ≢ BrokerOutcome.allow
    → (n : ℕ) × ((consult e r s).1 ≡ record e { request_seq = n })
unfolding consult
consult_refused e r s none p h = (suc e.request_seq, ground arith)
consult_refused e r s (some rule) p h = by_rule_verdict rule.verdict refl
  where
    by_rule_verdict :
        (v : BrokerOutcome)
        → rule.verdict ≡ v
        → (n : ℕ) × ((consult e r s).1 ≡ record e { request_seq = n })
    by_rule_verdict BrokerOutcome.ask q = (suc e.request_seq, ground arith)
    by_rule_verdict BrokerOutcome.deny q = (e.request_seq, ground arith)
    by_rule_verdict BrokerOutcome.allow q = absurd (h (ground arith))

decide_persisted_refused :
    (e : Engine) (r : CapabilityRequest) (s : Option CapabilityScope) (o : Option PersistedGrant)
    → (decide_persisted e r s o).0.outcome ≢ BrokerOutcome.allow
    → (n : ℕ) × ((decide_persisted e r s o).1 ≡ record e { request_seq = n })
unfolding decide_persisted
decide_persisted_refused e r s none h = consult_refused e r s _ refl h
decide_persisted_refused e r s (some denied) h = (e.request_seq, refl)
decide_persisted_refused e r s (some session) h = absurd (h refl)
decide_persisted_refused e r s (some (scoped g)) h = elim (Bool-cases (scope_matches e.host g r)) [
  | inl m ↦ absurd (h (rw m))
  | inr m ↦ rw m (consult_refused e r s _ refl (rw m at h))
]

-- A request that is not allowed changes nothing but the counter of the requests put to the human.
pub decide_refused :
    (e : Engine) (r : CapabilityRequest) (s : Option CapabilityScope)
    → (decide e r s).0.outcome ≢ BrokerOutcome.allow
    → (n : ℕ) × ((decide e r s).1 ≡ record e { request_seq = n })
unfolding decide
decide_refused e r s h = elim (Bool-cases (is_untrusted_egress r)) [
  | inl u ↦ (suc e.request_seq, rw u)
  | inr u ↦ elim (Bool-cases (contains (consumable_key e r s) e.consumable)) [
    | inl c ↦ absurd (h (rw (u, c)))
    | inr c ↦ rw (u, c) (decide_persisted_refused e r s _ (rw (u, c) at h))
  ]
]

pub allow-cases : (o : BrokerOutcome) → (o ≡ BrokerOutcome.allow) ⊎ (o ≢ BrokerOutcome.allow)
allow-cases BrokerOutcome.allow = inl refl
allow-cases BrokerOutcome.deny = inr (λ h. cc)
allow-cases BrokerOutcome.ask = inr (λ h. cc)
