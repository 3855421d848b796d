-- ===== src/Broker/Policy/Validity.antt =====
-- The invariant of the persisted grants of app/sidecar/broker/policy-engine.ts.
use capisco.Prelude.{
  ◌≡◌, refl, inl, inr, true, false, Option, none, some, [], ◌∷◌, String, arith, Bool-cases, get_or,
  ◌==◌, string_eq, list_eq, ==_iff,
}
use capisco.Prelude.Dict.{Dict, get, set, get-set, IsDict, set-IsDict}
use capisco.Prelude.Effect.{Run, state}
use capisco.Prelude.Text.{is_empty, present}
use text.Mathlib.Text.{starts_with}
use capisco.Broker.Contract.{
  CapabilityKind, kind_eq, CapabilityRequest, CapabilityScope, GrantAxis, PermissionDecision,
  ScopedGrant,
}
use capisco.Broker.Policy.{
  Scoped, PersistedGrant, denied, session, scoped, Key, Engine, PolicyError, grant_key,
  is_untrusted_egress, decide, spend, bound_scope, resolve_untrusted, resolve_trusted, resolve,
  drop_task, revoke_task,
}
use capisco.Broker.Policy.Gate.{
  Clears, by_single_use, by_session, by_scoped, by_rule, decide-Clears, decide_refused, allow-cases,
}
use capisco.Broker.Policy.Issue.{Issues, issue_scoped-Issues}
use capisco.Broker.Policy.Revocation.{kept, get-drop_task}

-- Scoped grants are issued for file writes only, to a named task, under an absolute prefix.
pub record IsIssued (e : Engine) (k : Key) (g : Scoped) : Type 0 where
  pub scope : Option CapabilityScope
  pub write : k ≡ grant_key e CapabilityKind.file_write scope
  pub task : is_empty g.task_id ≡ false
  pub prefix : is_empty g.path_prefix ≡ false
  pub absolute : starts_with g.path_prefix e.host.sep ≡ true

pub record IsValid (e : Engine) : Type 0 where
  pub distinct : IsDict e.grants
  pub issued : (k : Key) (g : Scoped) → get k e.grants ≡ some (scoped g) → IsIssued e k g

frame-IsValid :
    (e e' : Engine)
    → e'.grants ≡ e.grants
    → e'.project_key ≡ e.project_key
    → e'.host ≡ e.host
    → IsValid e
    → IsValid e'
unfolding grant_key
frame-IsValid e e' p q t v = record {
  distinct = rw p v.distinct;
  issued = λ k g h.
      let i = v.issued k g (rw p at h) in
      record {
        scope = i.scope;
        write = ground (arith, i.write);
        task = i.task;
        prefix = i.prefix;
        absolute = rw t i.absolute;
      };
}

set-IsValid :
    (e : Engine) (key : Key) (o : PersistedGrant)
    → ((g : Scoped) → o ≡ scoped g → IsIssued e key g)
    → IsValid e
    → IsValid (record e { grants = set key o e.grants })
unfolding grant_key
set-IsValid e key o issue v = record {
  distinct = set-IsDict key o e.grants v.distinct;
  issued = λ k g h. elim (Bool-cases (key == k)) [
    | inl same ↦
        let i = issue g (ground (arith, get-set key k o e.grants)) in
        record {
          scope = i.scope;
          write = ground (arith, i.write, ==_iff key k);
          task = i.task;
          prefix = i.prefix;
          absolute = i.absolute;
        }
    | inr differ ↦
        let i = v.issued k g (ground (arith, get-set key k o e.grants)) in
        record {
          scope = i.scope;
          write = i.write;
          task = i.task;
          prefix = i.prefix;
          absolute = i.absolute;
        }
  ];
}

decide-IsValid :
    (e : Engine) (r : CapabilityRequest) (s : Option CapabilityScope)
    → IsValid e
    → IsValid (decide e r s).1
decide-IsValid e r s v = elim (allow-cases (decide e r s).0.outcome) [
  | inr a ↦ let (n, p) = decide_refused e r s a in rw p (frame-IsValid e _ refl refl refl v)
  | inl a ↦ cleared (decide-Clears e r s a).1
]
  where
    cleared : {e' : Engine} → Clears e r s e' → IsValid e'
    cleared (by_single_use c p) = rw p (frame-IsValid e _ refl refl refl v)
    cleared (by_session c p) = rw p v
    cleared (by_scoped g c m p) =
        let i = v.issued _ g c in
        rw p (
          set-IsValid e (grant_key e r.kind s) (scoped (spend g))
            (λ g' q. record {
              scope = i.scope;
              write = i.write;
              task = ground (arith, i.task);
              prefix = ground (arith, i.prefix);
              absolute = ground (arith, i.absolute);
            })
            v)
    cleared (by_rule rule d f q p) = rw p v

drop_task-IsDict :
    (task : String) (m : Dict Key PersistedGrant) → IsDict m → IsDict (drop_task task m)
unfolding drop_task
drop_task-IsDict task [] h = tt
drop_task-IsDict task ((k, denied) ∷ m) h =
    (rw (get-drop_task task k m h.1, h.0) refl, drop_task-IsDict task m h.1)
drop_task-IsDict task ((k, session) ∷ m) h =
    (rw (get-drop_task task k m h.1, h.0) refl, drop_task-IsDict task m h.1)
drop_task-IsDict task ((k, scoped g) ∷ m) h =
    let rest = drop_task-IsDict task m h.1 in
    let gone : get k (drop_task task m) ≡ none = rw (get-drop_task task k m h.1, h.0) refl in
    ground arith

kept-scoped :
    (task : String) (o : Option PersistedGrant) (g : Scoped)
    → kept task o ≡ some (scoped g)
    → o ≡ some (scoped g)
kept-scoped task none g h = cc
kept-scoped task (some denied) g h = cc
kept-scoped task (some session) g h = cc
kept-scoped task (some (scoped x)) g h = ground arith

revoke_task-IsValid : (e : Engine) (task : String) → IsValid e → IsValid (revoke_task e task)
unfolding revoke_task grant_key
revoke_task-IsValid e task v = record {
  distinct = drop_task-IsDict task e.grants v.distinct;
  issued = λ k g h.
      let i =
        v.issued k g (kept-scoped task _ g (rw (get-drop_task task k e.grants v.distinct) at h)) in
      record {
        scope = i.scope;
        write = i.write;
        task = i.task;
        prefix = i.prefix;
        absolute = i.absolute;
      };
}

present-get_or : (o : Option String) → present o ≡ true → is_empty (get_or o "") ≡ false
present-get_or none h = cc
present-get_or (some t) h = ground arith

Issues-IsValid :
    (e : Engine) (r : CapabilityRequest) (b : Option ScopedGrant) (s : Option CapabilityScope)
    (x : Run Engine PolicyError GrantAxis)
    → IsValid e
    → Issues e r b (grant_key e r.kind s) x
    → IsValid (state x)
unfolding grant_key
Issues-IsValid e r b s x v (inl (c, p)) = rw p v
Issues-IsValid e r b s x v (inr (sg, n, q, i, p)) = rw p (
    set-IsValid e (grant_key e r.kind s) _
      (λ g h. record {
        scope = s;
        write = ground (arith, i.kind);
        task = ground (arith, present-get_or r.task_id i.task);
        prefix = ground (arith, i.prefix);
        absolute = ground (arith, i.absolute);
      })
      v)

resolve_untrusted-IsValid :
    (e : Engine) (r : CapabilityRequest) (a : GrantAxis) (s : Option CapabilityScope)
    → IsValid e
    → IsValid (state (resolve_untrusted e r a s))
unfolding resolve_untrusted
resolve_untrusted-IsValid e r GrantAxis.deny s v = set-IsValid e _ denied (λ g h. absurd (cc)) v
resolve_untrusted-IsValid e r _ s v = frame-IsValid e _ refl refl refl v

resolve_trusted-IsValid :
    (e : Engine) (r : CapabilityRequest) (d : PermissionDecision) (a : GrantAxis)
    (s : Option CapabilityScope)
    → IsValid e
    → IsValid (state (resolve_trusted e r d a s))
unfolding resolve_trusted
resolve_trusted-IsValid e r d GrantAxis.once s v = v
resolve_trusted-IsValid e r d GrantAxis.deny s v = set-IsValid e _ denied (λ g h. absurd (cc)) v
resolve_trusted-IsValid e r d GrantAxis.session s v = set-IsValid e _ session (λ g h. absurd (cc)) v
resolve_trusted-IsValid e r d GrantAxis.scoped s v =
    Issues-IsValid e r d.scoped_grant s _ v (issue_scoped-Issues e r d.scoped_grant _)

pub resolve-IsValid :
    (e : Engine) (r : CapabilityRequest) (d : PermissionDecision) (s : Option CapabilityScope)
    → IsValid e
    → IsValid (state (resolve e r d s))
unfolding resolve
resolve-IsValid e r d s v = elim (Bool-cases (is_untrusted_egress r)) [
  | inl u ↦ rw u (resolve_untrusted-IsValid e r d.axis (bound_scope d s) v)
  | inr u ↦ rw u (resolve_trusted-IsValid e r d d.axis (bound_scope d s) v)
]

pub data EngineUse : Type 0 where
  decides : CapabilityRequest → Option CapabilityScope → EngineUse
  resolves : CapabilityRequest → PermissionDecision → Option CapabilityScope → EngineUse
  revokes : String → EngineUse

abbrev pub use_engine : Engine → EngineUse → Engine
use_engine e (decides r s) = (decide e r s).1
use_engine e (resolves r d s) = state (resolve e r d s)
use_engine e (revokes task) = revoke_task e task

-- Every decision, every human answer (also one that throws) and every revocation keeps the invariant
-- of the persisted grants: one record for a key, and scoped records only for file writes, each to a
-- named task and under an absolute prefix.
pub use_engine-IsValid : (e : Engine) (x : EngineUse) → IsValid e → IsValid (use_engine e x)
use_engine-IsValid e (decides r s) v = decide-IsValid e r s v
use_engine-IsValid e (resolves r d s) v = resolve-IsValid e r d s v
use_engine-IsValid e (revokes task) v = revoke_task-IsValid e task v
