-- ===== src/Broker/Policy/Budget.antt =====
-- The action budget of a scoped grant, over any sequence of decisions.
use capisco.Prelude.{
  ℕ, suc, ◌+◌, ◌-◌, ◌≤◌, ◌≡◌, ◌≢◌, refl, inl, inr, Option, some, List, [], ◌∷◌, String, arith,
  string_eq, list_eq, ==_refl, All,
}
use capisco.Prelude.Dict.{get, contains, get-set}
use capisco.Broker.Contract.{
  CapabilityKind, kind_eq, kind_beq_iff, CapabilityRequest, CapabilityScope, BrokerOutcome,
  AllowlistRule,
}
use capisco.Broker.Policy.{
  Scoped, scoped, Engine, find_rule, grant_key, scope_matches, decide, spend,
}
use capisco.Broker.Policy.Gate.{
  Clears, by_single_use, by_session, by_scoped, by_rule, decide-Clears, decide_refused, allow-cases,
}

-- No rule allows a file write.
abbrev pub AsksWrites : List AllowlistRule → Type 0
AsksWrites rules =
    All (λ rule. rule.kind ≡ CapabilityKind.file_write → rule.verdict ≢ BrokerOutcome.allow) rules

abbrev pub allowed : BrokerOutcome → ℕ
allowed BrokerOutcome.allow = 1
allowed _ = 0

-- How many of the requests the engine allows, one after the other.
pub count_allowed : Engine → List CapabilityRequest → Option CapabilityScope → ℕ
count_allowed e [] s = 0
count_allowed e (r ∷ rs) s = allowed (decide e r s).0.outcome + count_allowed (decide e r s).1 rs s

pub record Holds (e : Engine) (s : Option CapabilityScope) (n : ℕ) : Type 0 where
  pub asks : AsksWrites e.rules
  pub single : e.consumable ≡ []
  pub grant : Scoped
  pub here : get (grant_key e CapabilityKind.file_write s) e.grants ≡ some (scoped grant)
  pub budget : grant.remaining ≡ n

find_rule-AsksWrites :
    (rules : List AllowlistRule) (k : CapabilityKind) (t : String) (rule : AllowlistRule)
    → AsksWrites rules
    → k ≡ CapabilityKind.file_write
    → find_rule rules k t ≡ some rule
    → rule.verdict ≢ BrokerOutcome.allow
unfolding find_rule
find_rule-AsksWrites [] k t rule a q h = cc
find_rule-AsksWrites (x ∷ rules) k t rule a q h =
    ground (arith, kind_beq_iff x.kind k, find_rule-AsksWrites rules k t rule a.1 q)

allowed_refused : (o : BrokerOutcome) → o ≢ BrokerOutcome.allow → allowed o ≡ 0
allowed_refused BrokerOutcome.allow h = absurd (h refl)
allowed_refused BrokerOutcome.deny h = refl
allowed_refused BrokerOutcome.ask h = refl

Holds-spend :
    {e e' : Engine} (r : CapabilityRequest) (s : Option CapabilityScope) (n : ℕ)
    → r.kind ≡ CapabilityKind.file_write
    → Holds e s n
    → Clears e r s e'
    → (m : ℕ) × (suc m ≡ n) × Holds e' s m
unfolding grant_key scope_matches contains
Holds-spend {e} r s n k h (by_single_use c p) = absurd (ground (arith, h.single))
Holds-spend {e} r s n k h (by_session c p) = absurd (ground (arith, h.here))
Holds-spend {e} r s n k h (by_scoped g c m p) =
    let same : h.grant ≡ g = ground arith in
    (
      g.remaining - 1,
      ground (arith, h.budget),
      rw p (record {
        asks = h.asks;
        single = h.single;
        grant = spend g;
        here = ground (
          arith,
          get-set (grant_key e r.kind s) (grant_key e CapabilityKind.file_write s)
              (scoped (spend g)) e.grants,
          ==_refl (grant_key e r.kind s),
        );
        budget = refl;
      }),
    )
Holds-spend {e} r s n k h (by_rule rule d f v p) =
    absurd (find_rule-AsksWrites e.rules r.kind r.target rule h.asks k f v)

decide-Holds :
    (e : Engine) (r : CapabilityRequest) (s : Option CapabilityScope) (n : ℕ)
    → r.kind ≡ CapabilityKind.file_write
    → Holds e s n
    → (m : ℕ) × (allowed (decide e r s).0.outcome + m ≡ n) × Holds (decide e r s).1 s m
unfolding grant_key
decide-Holds e r s n k h = elim (allow-cases (decide e r s).0.outcome) [
  | inl a ↦
      let (m, p, h') = Holds-spend r s n k h (decide-Clears e r s a).1 in
      (m, rw a (omega arith), h')
  | inr a ↦
      let (i, p) = decide_refused e r s a in
      (
        n,
        rw (allowed_refused _ a) (omega arith),
        rw p (record {
          asks = h.asks;
          single = h.single;
          grant = h.grant;
          here = h.here;
          budget = h.budget;
        }),
      )
]

-- A scoped grant clears at most as many file writes as its budget, whatever sequence of file writes is
-- put to the engine in its scope, where no rule of the allowlist allows a file write and no
-- single-use grant is outstanding.
pub count_allowed-le-budget :
    (e : Engine) (s : Option CapabilityScope) (n : ℕ) (rs : List CapabilityRequest)
    → Holds e s n
    → All (λ r. r.kind ≡ CapabilityKind.file_write) rs
    → count_allowed e rs s ≤ n
unfolding count_allowed
count_allowed-le-budget e s n [] h w = omega arith
count_allowed-le-budget e s n (r ∷ rs) h w =
    let (m, p, h') = decide-Holds e r s n w.0 h in
    omega (arith, count_allowed-le-budget (decide e r s).1 s m rs h' w.1)
