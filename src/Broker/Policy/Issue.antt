-- ===== src/Broker/Policy/Issue.antt =====
-- What a human answer makes the engine remember.
use capisco.Prelude.{
  ℕ, ◌<◌, ◌≡◌, ◌≢◌, refl, ◌⊎◌, inl, inr, true, false, Option, none, some, arith, ◌||◌, not,
  if◌then◌else◌, Bool-cases, get_or, ◌==◌, string_eq, list_eq, ==_refl,
}
use capisco.Prelude.Dict.{set, contains, add, contains-add, contains-remove}
use capisco.Prelude.Effect.{Run, ok, err, state}
use capisco.Prelude.Text.{is_empty, present}
use text.Mathlib.Text.{starts_with}
use capisco.Broker.Contract.{
  CapabilityKind, kind_eq, kind_beq_iff, CapabilityRequest, CapabilityScope, BrokerOutcome,
  GrantAxis, PermissionDecision, ScopedGrant, Number, natural,
}
use capisco.Broker.Policy.{issue_scoped, positive_integer}
use capisco.Broker.Policy.{
  PersistedGrant, denied, scoped, Key, Engine, PolicyError, grant_key, consumable_key,
  is_untrusted_egress, decide, bound_scope, resolve_untrusted, resolve_trusted, resolve, persist,
}

-- The answer to an `ask` that untrusted egress raised never becomes a standing grant: whichever axis
-- the human picked, the call does not throw, it records `deny` or `once`, a `once` leaves the
-- persisted grants as they were, and a `deny` persists only the deny.
pub resolve_untrusted_lem :
    (e : Engine) (r : CapabilityRequest) (d : PermissionDecision) (s : Option CapabilityScope)
    → is_untrusted_egress r ≡ true
    → ((d.axis ≡ GrantAxis.deny)
        × (resolve e r d s
            ≡ ok GrantAxis.deny
                (record e { grants = set (grant_key e r.kind (bound_scope d s)) denied e.grants })))
      ⊎ ((d.axis ≢ GrantAxis.deny)
          × (resolve e r d s
              ≡ ok GrantAxis.once (record e {
                consumable = add (consumable_key e r (bound_scope d s)) e.consumable;
              })))
unfolding resolve resolve_untrusted
resolve_untrusted_lem e r d s h = ground arith

decide_single_use :
    (e : Engine) (r : CapabilityRequest) (s : Option CapabilityScope)
    → let e' = record e { consumable = add (consumable_key e r s) e.consumable } in
      let vetted = record r { from_untrusted = false } in
      let after = decide e' vetted s in
      (after.0.outcome ≡ BrokerOutcome.allow)
      × (contains (consumable_key after.1 vetted s) after.1.consumable ≡ false)
      × (after.1.grants ≡ e.grants)
unfolding decide is_untrusted_egress consumable_key
decide_single_use e r s =
    let key : Key = consumable_key e r s in
    ground (
      arith,
      ==_refl key,
      contains-add key key e.consumable,
      contains-remove key key (add key e.consumable),
    )

-- A single-use grant clears the human-vetted call once: after a human clears an untrusted request
-- with an axis other than `deny`, the same call without the untrusted mark is allowed, and right
-- after it no single-use grant for it is left.
pub resolve-decide :
    (e : Engine) (r : CapabilityRequest) (d : PermissionDecision) (s : Option CapabilityScope)
    → is_untrusted_egress r ≡ true
    → d.axis ≢ GrantAxis.deny
    → let e' = state (resolve e r d s) in
      let vetted = record r { from_untrusted = false } in
      let after = decide e' vetted (bound_scope d s) in
      (after.0.outcome ≡ BrokerOutcome.allow)
      × (contains (consumable_key after.1 vetted (bound_scope d s)) after.1.consumable ≡ false)
      × (after.1.grants ≡ e.grants)
resolve-decide e r d s h n = elim (resolve_untrusted_lem e r d s h) [
  | inl (p, _) ↦ absurd (n p)
  | inr (_, p) ↦ rw p (decide_single_use e r (bound_scope d s))
]

-- What a human answer must bring for a scoped grant: a file write of a named task, a non-empty
-- absolute prefix, and a budget that is a positive integer.
pub record IsIssuable (e : Engine) (r : CapabilityRequest) (sg : ScopedGrant) (n : ℕ) : Type 0 where
  pub kind : r.kind ≡ CapabilityKind.file_write
  pub task : present r.task_id ≡ true
  pub prefix : is_empty sg.path_prefix ≡ false
  pub absolute : starts_with sg.path_prefix e.host.sep ≡ true
  pub budget : sg.max_actions ≡ natural n
  pub positive : 0 < n

-- The record that a scoped answer persists.
abbrev pub issued : CapabilityRequest → ScopedGrant → ℕ → PersistedGrant
issued r sg n =
    scoped (record { task_id = get_or r.task_id ""; path_prefix = sg.path_prefix; remaining = n })

-- An answer either throws and changes nothing, or persists one record for an issuable grant.
abbrev pub Issues :
    Engine
    → CapabilityRequest
    → Option ScopedGrant
    → Key
    → Run Engine PolicyError GrantAxis
    → Type 0
Issues e r b key x =
    ((c : PolicyError) × (x ≡ err c e))
    ⊎ ((sg : ScopedGrant) × (n : ℕ) × (b ≡ some sg)
        × IsIssuable e r sg n
        × (x ≡ ok GrantAxis.scoped (record e { grants = set key (issued r sg n) e.grants })))

positive_integer-some :
    (x : Number) (n : ℕ) → positive_integer x ≡ some n → (x ≡ natural n) × (0 < n)
positive_integer-some (natural m) n h = ground arith
positive_integer-some Number.other n h = cc

pub issue_scoped-Issues :
    (e : Engine) (r : CapabilityRequest) (b : Option ScopedGrant) (key : Key)
    → Issues e r b key (issue_scoped e r b key)
unfolding issue_scoped
issue_scoped-Issues e r b key = elim (Bool-cases (r.kind == CapabilityKind.file_write)) [
  | inr k ↦ rw k (inl (_, refl))
  | inl k ↦ elim (Bool-cases (present r.task_id)) [
    | inr t ↦ rw (k, t) (inl (_, refl))
    | inl t ↦ rw (k, t) (bounded k t b)
  ]
]
  where
    budgeted :
        (sg : ScopedGrant) (o : Option ℕ)
        → r.kind ≡ CapabilityKind.file_write
        → present r.task_id ≡ true
        → is_empty sg.path_prefix ≡ false
        → starts_with sg.path_prefix e.host.sep ≡ true
        → positive_integer sg.max_actions ≡ o
        → Issues e r (some sg) key (elim o [
          | none ↦ err PolicyError.scoped_needs_budget e
          | some n ↦ ok GrantAxis.scoped (persist e key (issued r sg n))
        ])
    budgeted sg none k t p a q = inl (_, refl)
    budgeted sg (some n) k t p a q =
        let (b, pos) = positive_integer-some sg.max_actions n q in
        inr (
          sg,
          n,
          refl,
          record { kind = k; task = t; prefix = p; absolute = a; budget = b; positive = pos },
          refl,
        )

    bounded :
        (r.kind == CapabilityKind.file_write) ≡ true
        → present r.task_id ≡ true
        → (o : Option ScopedGrant)
        → Issues e r o key (elim o [
          | none ↦ err PolicyError.scoped_needs_prefix e
          | some sg ↦
              if is_empty sg.path_prefix || not (starts_with sg.path_prefix e.host.sep)
              then err PolicyError.scoped_needs_prefix e
              else elim (positive_integer sg.max_actions) [
                | none ↦ err PolicyError.scoped_needs_budget e
                | some n ↦ ok GrantAxis.scoped (persist e key (issued r sg n))
              ]
        ])
    bounded k t none = inl (_, refl)
    bounded k t (some sg) = elim (Bool-cases (is_empty sg.path_prefix)) [
      | inl p ↦ rw p (inl (_, refl))
      | inr p ↦ elim (Bool-cases (starts_with sg.path_prefix e.host.sep)) [
        | inr a ↦ rw (p, a) (inl (_, refl))
        | inl a ↦
            rw (p, a)
              (budgeted sg (positive_integer sg.max_actions)
                ((kind_beq_iff r.kind CapabilityKind.file_write).0 k) t p a refl)
      ]
    ]

-- A scoped answer to a request that is not untrusted egress: it throws and leaves the engine as it
-- was, or it persists, under the key of the request's kind and the bound scope, a grant for a file
-- write of the request's task, with an absolute prefix and a positive budget.
pub resolve-Issues :
    (e : Engine) (r : CapabilityRequest) (d : PermissionDecision) (s : Option CapabilityScope)
    → is_untrusted_egress r ≡ false
    → d.axis ≡ GrantAxis.scoped
    → Issues e r d.scoped_grant (grant_key e r.kind (bound_scope d s)) (resolve e r d s)
unfolding resolve resolve_trusted
resolve-Issues e r d s u a = simp (u, a) (issue_scoped-Issues e r d.scoped_grant _)
