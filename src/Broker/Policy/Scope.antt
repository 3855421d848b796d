-- ===== src/Broker/Policy/Scope.antt =====
-- What a scoped grant covers, as a relation: `scopeMatches` and `isUnderPrefix` of
-- app/sidecar/broker/policy-engine.ts.
use capisco.Prelude.{
  ◌<◌, ◌≡◌, ◌≢◌, refl, ◌↔◌, ◌⊎◌, inl, inr, true, Option, none, some, String, arith, if◌then◌else◌,
  Option-cases, get_or, string_eq, list_eq, ==_iff,
}
use capisco.Prelude.Text.{is_empty, present}
use capisco.Broker.Contract.{CapabilityKind, kind_eq, kind_beq_iff, CapabilityRequest}
use capisco.Broker.Policy.{Host, Scoped, is_under_prefix, scope_matches}
use capisco.Broker.Policy.{norm_path}
use capisco.Prelude.Text.{ends_with}
use Prim.Native.String
use text.Mathlib.TextBridge.{IsPrefix}
use text.Mathlib.TextEquality.{starts_with_iff}

-- The prefix with one separator behind it.
abbrev pub directory : Host → String → String
directory h prefix =
    norm_path h (if ends_with prefix h.sep then prefix else String.◌++◌ prefix h.sep)

-- The target is the prefix, or lies below it at a separator.
abbrev pub IsUnder : Host → String → String → Type 0
IsUnder h target prefix =
    (prefix ≢ "")
    × ((norm_path h target ≡ norm_path h prefix)
        ⊎ IsPrefix (directory h prefix) (norm_path h target))

pub record Covers (h : Host) (g : Scoped) (r : CapabilityRequest) : Type 0 where
  pub kind : r.kind ≡ CapabilityKind.file_write
  pub task : r.task_id ≡ some g.task_id
  pub bound : g.task_id ≢ ""
  pub left : 0 < g.remaining
  pub target : String
  pub canonical : r.canonical_target ≡ some target
  pub named : target ≢ ""
  pub under : IsUnder h target g.path_prefix

is_empty_iff : (s : String) → (is_empty s ≡ true) ↔ (s ≡ "")
is_empty_iff String.[] = (λ h. refl, λ h. refl)
is_empty_iff (String.◌∷◌ c s) = (λ h. cc, λ h. cc)

is_under_prefix_iff : (h : Host) (t p : String) → (is_under_prefix h t p ≡ true) ↔ IsUnder h t p
unfolding is_under_prefix
is_under_prefix_iff h t p = ground (
  arith,
  is_empty_iff p,
  ==_iff (norm_path h t) (norm_path h p),
  starts_with_iff (norm_path h t) (directory h p),
)

present_iff :
    (o : Option String) (t : String)
    → ((present o ≡ true) × (get_or o "" ≡ t)) ↔ ((o ≡ some t) × (t ≢ ""))
present_iff none t = ground arith
present_iff (some s) t = ground (arith, is_empty_iff s)

-- The engine's test of a scoped grant says yes exactly when the grant covers the request: a file
-- write of the very task that the grant was issued to, with budget left, whose canonical target is
-- the granted directory or lies below it at a path separator.
pub scope_matches_iff :
    (h : Host) (g : Scoped) (r : CapabilityRequest) → (scope_matches h g r ≡ true) ↔ Covers h g r
unfolding scope_matches
scope_matches_iff h g r = (
  covered,
  λ c.
      let (task, same) = (present_iff r.task_id g.task_id).1 (c.task, c.bound) in
      let (target, named) = (present_iff r.canonical_target c.target).1 (c.canonical, c.named) in
      ground (
        arith,
        kind_beq_iff r.kind CapabilityKind.file_write,
        ==_iff (get_or r.task_id "") g.task_id,
        (is_under_prefix_iff h c.target g.path_prefix).1 c.under,
      ),
)
  where
    covered : scope_matches h g r ≡ true → Covers h g r
    covered m = elim (Option-cases r.canonical_target) [
      | inl p ↦ absurd (ground arith)
      | inr (t, p) ↦
          let (bound, nonempty) =
            (present_iff r.task_id g.task_id).0
              (ground (arith, ==_iff (get_or r.task_id "") g.task_id)) in
          record {
            kind = ground (arith, kind_beq_iff r.kind CapabilityKind.file_write);
            task = bound;
            bound = nonempty;
            left = ground arith;
            target = t;
            canonical = p;
            named = ((present_iff r.canonical_target t).0 (ground arith)).1;
            under = (is_under_prefix_iff h t g.path_prefix).0 (ground arith);
          }
    ]
