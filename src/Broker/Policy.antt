-- ===== src/Broker/Policy.antt =====
-- app/sidecar/broker/policy-engine.ts. The engine's state is a record. `JSON.stringify` of an array
-- of strings is injective, so a key is the array. `process.platform`, `sep` and the Unicode
-- operations are the engine's `host`.
pub mod Gate
pub mod Scope
pub mod Budget
pub mod Revocation
pub mod Validity
pub mod Issue
pub mod Vetted
use text.Mathlib.Text.{starts_with}
use capisco.Prelude.{
  ℕ, suc, ◌-◌, ◌+◌, ◌≡◌, Bool, true, false, ◌&&◌, ◌||◌, not, Option, none, some, List, [], ◌∷◌,
  String, if◌then◌else◌, leb, get_or, find, Eq, ◌==◌, string_eq, list_eq,
}
use capisco.Prelude.Dict.{Dict, get, set, delete, contains, add, remove}
use capisco.Prelude.Text.{ends_with, drop_last, is_empty, present}
use capisco.Prelude.Effect.{Run, ok, err}
use capisco.Broker.Contract.{
  Principal, CapabilityKind, shell, file_write, network, db_write, external_write, kind_name,
  kind_eq, CapabilityRequest, CapabilityScope, BrokerOutcome, GrantAxis, Number, natural,
  ScopedGrant, PermissionDecision, AllowlistRule, Reason, PermissionRequest, BrokerDecision,
  untrusted_egress, single_use, previously_denied, granted_session, no_matching_grant,
  granted_scoped, allowlist, denylist, allowlist_ask,
}
use Prim.Native.String

pub record Host : Type 0 where
  pub case_insensitive : Bool
  pub nfc : String → String
  pub to_lower : String → String
  pub sep : String

pub record Scoped : Type 0 where
  pub task_id : String
  pub path_prefix : String
  pub remaining : ℕ

pub data PersistedGrant : Type 0 where
  denied session : PersistedGrant
  scoped : Scoped → PersistedGrant

abbrev pub Key : Type 0
Key = List String

-- `request_seq` is the module's counter `requestSeq`.
pub record Engine : Type 0 where
  pub host : Host
  pub rules : List AllowlistRule
  pub project_key : String
  pub grants : Dict Key PersistedGrant
  pub consumable : List Key
  pub request_seq : ℕ

pub data PolicyError : Type 0 where
  scoped_only_file_write scoped_needs_task scoped_needs_prefix scoped_needs_budget : PolicyError

unfoldable pub norm_path : Host → String → String
norm_path h p = if h.case_insensitive then h.to_lower (h.nfc p) else h.nfc p

unfoldable pub is_under_prefix : Host → String → String → Bool
is_under_prefix h target prefix =
    let t = norm_path h target in
    let base = norm_path h prefix in
    let with_sep =
      norm_path h (if ends_with prefix h.sep then prefix else String.◌++◌ prefix h.sep) in
    not (is_empty prefix) && (t == base || starts_with t with_sep)

unfoldable pub is_egress : CapabilityKind → Bool
is_egress shell = true
is_egress file_write = true
is_egress network = true
is_egress db_write = true
is_egress external_write = true
is_egress _ = false

unfoldable pub matches : String → String → Bool
matches pattern target =
    if ends_with pattern "*" then starts_with target (drop_last pattern) else pattern == target

unfoldable pub find_rule : List AllowlistRule → CapabilityKind → String → Option AllowlistRule
find_rule rules kind target = find (λ r. r.kind == kind && matches r.pattern target) rules

abbrev scopes_of : Option CapabilityScope → List CapabilityScope
scopes_of none = []
scopes_of (some s) = if is_empty s then [] else s ∷ []

unfoldable pub build_request : ℕ → CapabilityRequest → Option CapabilityScope → PermissionRequest
build_request id request scope = record {
  id = id;
  command = String.◌++◌ (kind_name request.kind) (String.◌++◌ "(" (String.◌++◌ request.target ")"));
  label = request.target;
  scopes = scopes_of scope;
  credential_ref = request.credential_ref;
  from_untrusted = request.from_untrusted;
}

unfoldable pub grant_key : Engine → CapabilityKind → Option CapabilityScope → Key
grant_key e kind scope = e.project_key ∷ kind_name kind ∷ get_or scope "" ∷ []

unfoldable pub consumable_key : Engine → CapabilityRequest → Option CapabilityScope → Key
consumable_key e request scope =
    e.project_key
    ∷ kind_name request.kind
    ∷ get_or scope ""
    ∷ request.target
    ∷ get_or request.command ""
    ∷ []

unfoldable pub scope_matches : Host → Scoped → CapabilityRequest → Bool
scope_matches h grant request =
    request.kind == CapabilityKind.file_write
    && (present request.task_id
        && (get_or request.task_id "" == grant.task_id
            && (not (leb grant.remaining 0)
                && (present request.canonical_target
                    && is_under_prefix h (get_or request.canonical_target "") grant.path_prefix))))

-- `Boolean(request.fromUntrusted) && EGRESS_KINDS.has(request.kind)`
unfoldable pub is_untrusted_egress : CapabilityRequest → Bool
is_untrusted_egress request = request.from_untrusted && is_egress request.kind

abbrev verdict : BrokerOutcome → Reason → BrokerDecision
verdict outcome reason = record { outcome = outcome; request = none; reason = reason; grant = none }

abbrev ask_human :
    Engine → CapabilityRequest → Option CapabilityScope → Reason → BrokerDecision × Engine
ask_human e request scope reason = (
  record {
    outcome = BrokerOutcome.ask;
    request = some (build_request (suc e.request_seq) request scope);
    reason = reason;
    grant = none;
  },
  record e { request_seq = suc e.request_seq },
)

-- The allowlist, once no grant has decided.
abbrev pub by_verdict :
    Engine
    → CapabilityRequest
    → Option CapabilityScope
    → AllowlistRule
    → BrokerOutcome
    → BrokerDecision × Engine
by_verdict e request scope rule BrokerOutcome.allow =
    (verdict BrokerOutcome.allow (allowlist rule), e)
by_verdict e request scope rule BrokerOutcome.deny = (verdict BrokerOutcome.deny (denylist rule), e)
by_verdict e request scope rule BrokerOutcome.ask = ask_human e request scope (allowlist_ask rule)

unfoldable pub consult :
    Engine → CapabilityRequest → Option CapabilityScope → BrokerDecision × Engine
consult e request scope = elim (find_rule e.rules request.kind request.target) [
  | none ↦ ask_human e request scope no_matching_grant
  | some rule ↦ by_verdict e request scope rule rule.verdict
]

abbrev spend : Scoped → Scoped
spend g = record g { remaining = g.remaining - 1 }

unfoldable pub decide_persisted :
    Engine
    → CapabilityRequest
    → Option CapabilityScope
    → Option PersistedGrant
    → BrokerDecision × Engine
decide_persisted e request scope none = consult e request scope
decide_persisted e request scope (some denied) = (verdict BrokerOutcome.deny previously_denied, e)
decide_persisted e request scope (some session) = (verdict BrokerOutcome.allow granted_session, e)
decide_persisted e request scope (some (scoped g)) =
    if scope_matches e.host g request
    then (
      verdict BrokerOutcome.allow (granted_scoped (g.remaining - 1) g.path_prefix),
      record e { grants = set (grant_key e request.kind scope) (scoped (spend g)) e.grants },
    )
    else consult e request scope

unfoldable pub decide :
    Engine → CapabilityRequest → Option CapabilityScope → BrokerDecision × Engine
decide e request scope =
    let key = consumable_key e request scope in
    if is_untrusted_egress request
    then ask_human e request scope untrusted_egress
    else if contains key e.consumable
    then (verdict BrokerOutcome.allow single_use, record e { consumable = remove key e.consumable })
    else decide_persisted e request scope (get (grant_key e request.kind scope) e.grants)

abbrev persist : Engine → Key → PersistedGrant → Engine
persist e key g = record e { grants = set key g e.grants }

-- `axis === "scoped" ? (decision.scope ?? scope) : scope`
abbrev pub bound_scope : PermissionDecision → Option CapabilityScope → Option CapabilityScope
bound_scope d scope = elim d.axis [
  | GrantAxis.scoped ↦ elim d.scope [ some s ↦ some s | none ↦ scope ]
  | _ ↦ scope
]

-- `Number.isInteger(n) && n > 0`
abbrev positive_integer : Number → Option ℕ
positive_integer (natural n) = if leb n 0 then none else some n
positive_integer Number.other = none

unfoldable pub issue_scoped :
    Engine → CapabilityRequest → Option ScopedGrant → Key → Run Engine PolicyError GrantAxis
issue_scoped e request bounds key =
    if not (request.kind == CapabilityKind.file_write)
    then err scoped_only_file_write e
    else if not (present request.task_id)
    then err scoped_needs_task e
    else elim bounds [
      | none ↦ err scoped_needs_prefix e
      | some sg ↦
          if is_empty sg.path_prefix || not (starts_with sg.path_prefix e.host.sep)
          then err scoped_needs_prefix e
          else elim (positive_integer sg.max_actions) [
            | none ↦ err scoped_needs_budget e
            | some n ↦ ok GrantAxis.scoped (
                persist e key (
                  scoped (record {
                    task_id = get_or request.task_id "";
                    path_prefix = sg.path_prefix;
                    remaining = n;
                  })))
          ]
    ]

-- The human's answer to an `ask` that untrusted egress raised: a deny is kept, all else is single-use.
unfoldable pub resolve_untrusted :
    Engine
    → CapabilityRequest
    → GrantAxis
    → Option CapabilityScope
    → Run Engine PolicyError GrantAxis
resolve_untrusted e request GrantAxis.deny scope =
    ok GrantAxis.deny (persist e (grant_key e request.kind scope) denied)
resolve_untrusted e request _ scope =
    ok GrantAxis.once (record e { consumable = add (consumable_key e request scope) e.consumable })

unfoldable pub resolve_trusted :
    Engine
    → CapabilityRequest
    → PermissionDecision
    → GrantAxis
    → Option CapabilityScope
    → Run Engine PolicyError GrantAxis
unfolding issue_scoped
resolve_trusted e request d GrantAxis.once scope = ok GrantAxis.once e
resolve_trusted e request d GrantAxis.deny scope =
    ok GrantAxis.deny (persist e (grant_key e request.kind scope) denied)
resolve_trusted e request d GrantAxis.session scope =
    ok GrantAxis.session (persist e (grant_key e request.kind scope) session)
resolve_trusted e request d GrantAxis.scoped scope =
    issue_scoped e request d.scoped_grant (grant_key e request.kind scope)

unfoldable pub resolve :
    Engine
    → CapabilityRequest
    → PermissionDecision
    → Option CapabilityScope
    → Run Engine PolicyError GrantAxis
resolve e request d scope =
    if is_untrusted_egress request
    then resolve_untrusted e request d.axis (bound_scope d scope)
    else resolve_trusted e request d d.axis (bound_scope d scope)

unfoldable pub drop_task : String → Dict Key PersistedGrant → Dict Key PersistedGrant
drop_task task [] = []
drop_task task ((k, scoped g) ∷ m) =
    let rest = drop_task task m in if g.task_id == task then rest else (k, scoped g) ∷ rest
drop_task task ((k, g) ∷ m) = (k, g) ∷ drop_task task m

unfoldable pub revoke_task : Engine → String → Engine
revoke_task e task = record e { grants = drop_task task e.grants }
