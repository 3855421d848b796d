-- ===== src/Broker/Chokepoint/Gate.antt =====
-- What `execute` of app/sidecar/broker/capability-broker.ts requires before the callback runs.
use capisco.Prelude.{
  ℕ, suc, ◌≡◌, refl, inl, inr, true, false, not, ◌||◌, Option, none, some, [], ◌∷◌, ◌++◌, String,
  arith, Bool-cases, get_or, ◌==◌, string_eq, nat_eq, list_eq, ==_iff, ap,
}
use capisco.Prelude.Dict.{get, delete, contains, add}
use capisco.Prelude.Effect.{Run, ok, err}
use capisco.Prelude.Text.{present}
use capisco.Broker.Contract.{Principal, CapabilityRequest, WriteEscape, Reason}
use capisco.Broker.Audit.{
  AuditLog, AuditEntry, AuditError, Entry, executed, record_entry, record_entry-ok,
}
use capisco.Broker.Chokepoint.{
  Broker, BrokerError, Fingerprint, json_eq, request_fingerprint, entry_of, unindex_grant, consume,
  ride_escape, is_prod_write, guard_prod, record_execution, admit,
}

-- The escape that a production write consumes.
pub record Rides (b : Broker) (r : CapabilityRequest) (escape : Option WriteEscape) (b' : Broker)
    : Type 0 where
  pub ticket : WriteEscape
  pub given : escape ≡ some ticket
  pub datasource : ticket.datasource ≡ r.target
  pub command : r.command ≡ some ticket.command
  pub fresh : contains ticket.id b.used_escapes ≡ false
  pub used : b'.used_escapes ≡ add ticket.id b.used_escapes

-- What holds when the callback of a request starts, in the state `b'` that it starts in.
pub record Admitted (b : Broker) (p : Principal) (r : CapabilityRequest)
    (escape : Option WriteEscape) (id : ℕ) (b' : Broker) : Type 0 where
  pub held : get id b.grants ≡ some (request_fingerprint p r)
  pub spent : b'.grants ≡ delete id b.grants
  pub index : b'.grants_by_task ≡ unindex_grant b.grants_by_task r.task_id id
  pub prod : is_prod_write b r ≡ true → Rides b r escape b'
  pub plain : is_prod_write b r ≡ false → b'.used_escapes ≡ b.used_escapes
  pub entry : AuditEntry
  pub what : entry.entry ≡ entry_of p r executed Reason.authorized_execution
  pub logged : b'.audit.entries ≡ b.audit.entries ++ entry ∷ []
  pub ordinal : (entry.seq ≡ suc b.audit.seq) × (b'.audit.seq ≡ suc b.audit.seq)
  pub seq : b'.grant_seq ≡ b.grant_seq
  pub datasources : b'.prod_datasources ≡ b.prod_datasources
  pub policy : b'.policy ≡ b.policy

present_command :
    (o : Option String) (t : String)
    → (not (present o) || not (t == get_or o "")) ≡ false
    → o ≡ some t
present_command none t h = cc
present_command (some s) t h = ground (arith, ==_iff t s)

ride_escape-Rides :
    (b : Broker) (r : CapabilityRequest) (escape : Option WriteEscape) (u : Unit {0}) (b' : Broker)
    → ride_escape b r escape ≡ ok u b'
    → Rides b r escape b'
unfolding ride_escape
ride_escape-Rides b r none u b' h = cc
ride_escape-Rides b r (some w) u b' h = elim (Bool-cases (w.datasource == r.target)) [
  | inr d ↦ absurd (cc (rw d at h))
  | inl d ↦ elim (Bool-cases (not (present r.command) || not (w.command == get_or r.command ""))) [
    | inl c ↦ absurd (cc (rw (d, c) at h))
    | inr c ↦ elim (Bool-cases (contains w.id b.used_escapes)) [
      | inl f ↦ absurd (cc (rw (d, c, f) at h))
      | inr f ↦ record {
        ticket = w;
        given = refl;
        datasource = (==_iff w.datasource r.target).0 d;
        command = present_command r.command w.command c;
        fresh = f;
        used = ground arith;
      }
    ]
  ]
]

ride_escape_frame :
    (b : Broker) (r : CapabilityRequest) (escape : Option WriteEscape) (u : Unit {0}) (b' : Broker)
    → ride_escape b r escape ≡ ok u b'
    → b' ≡ record b { used_escapes = b'.used_escapes }
unfolding ride_escape
ride_escape_frame b r none u b' h = cc
ride_escape_frame b r (some w) u b' h = ground arith

pub guard_prod_frame :
    (b : Broker) (r : CapabilityRequest) (escape : Option WriteEscape) (u : Unit {0}) (b' : Broker)
    → guard_prod b r escape ≡ ok u b'
    → b' ≡ record b { used_escapes = b'.used_escapes }
unfolding guard_prod
guard_prod_frame b r escape u b' h = elim (Bool-cases (is_prod_write b r)) [
  | inl t ↦ ride_escape_frame b r escape u b' (rw t at h)
  | inr t ↦ ground arith
]

guard_prod-Rides :
    (b : Broker) (r : CapabilityRequest) (escape : Option WriteEscape) (u : Unit {0}) (b' : Broker)
    → guard_prod b r escape ≡ ok u b'
    → (is_prod_write b r ≡ true → Rides b r escape b')
      × (is_prod_write b r ≡ false → b'.used_escapes ≡ b.used_escapes)
unfolding guard_prod
guard_prod-Rides b r escape u b' h =
    (λ t. ride_escape-Rides b r escape u b' (rw t at h), λ t. ground arith)

record_execution_lem :
    (b : Broker) (p : Principal) (r : CapabilityRequest) (u : Unit {0}) (b' : Broker)
    → record_execution b p r ≡ ok u b'
    → (x : AuditEntry) × (x ≡ record {
      seq = suc b.audit.seq;
      entry = entry_of p r executed Reason.authorized_execution;
    })
      × (b' ≡ record b {
        audit = record { entries = b.audit.entries ++ x ∷ []; seq = suc b.audit.seq };
      })
unfolding record_execution
record_execution_lem b p r u b' h = recorded (record_entry b.audit e) refl (h)
  where
    e : Entry
    e = entry_of p r executed Reason.authorized_execution

    recorded :
        (o : Run AuditLog AuditError AuditEntry)
        → record_entry b.audit e ≡ o
        → ◌≡◌ {A = Run Broker BrokerError (Unit {0})}
            (elim o [
              | err x log ↦ err (BrokerError.audit_failed x) b
              | ok _ log ↦ ok tt (record b { audit = log })
            ])
            (ok u b')
        → (x : AuditEntry) × (x ≡ record { seq = suc b.audit.seq; entry = e })
          × (b' ≡ record b {
            audit = record { entries = b.audit.entries ++ x ∷ []; seq = suc b.audit.seq };
          })
    recorded (err x log) q k = cc
    recorded (ok x log) q k = let (p, l) = record_entry-ok b.audit e x log q in (x, p, ground arith)

admitted :
    (b : Broker) (p : Principal) (r : CapabilityRequest) (escape : Option WriteEscape) (id : ℕ)
    (u v : Unit {0}) (c b' : Broker)
    → get id b.grants ≡ some (request_fingerprint p r)
    → guard_prod (consume b r id) r escape ≡ ok v c
    → record_execution c p r ≡ ok u b'
    → Admitted b p r escape id b'
unfolding consume is_prod_write
admitted b p r escape id u v c b' g q k =
    let frame = guard_prod_frame (consume b r id) r escape v c q in
    let (rides, plain) = guard_prod-Rides (consume b r id) r escape v c q in
    let (x, what, log) = record_execution_lem c p r u b' k in
    record {
      held = g;
      spent = ground arith;
      index = ground arith;
      prod = λ t.
          let w = rides t in
          record {
            ticket = w.ticket;
            given = w.given;
            datasource = w.datasource;
            command = w.command;
            fresh = w.fresh;
            used = ground (arith, w.used);
          };
      plain = λ t. ground (arith, plain t);
      entry = x;
      what = ground arith;
      logged = ground arith;
      ordinal = (ground arith, ground arith);
      seq = ground arith;
      datasources = ground arith;
      policy = ground arith;
    }

-- Every request whose callback starts passed the gate: a handle was given that stands, in the state
-- before, for exactly this principal and request; the handle is deleted; a write to a production
-- datasource rode an escape that was made for this datasource and this very command and was never used
-- before, and that is now used; and the audit log has grown by one `executed` entry that names the
-- principal, the capability and the target.
pub admit-Admitted :
    (b : Broker) (p : Principal) (r : CapabilityRequest) (escape : Option WriteEscape)
    (grant : Option ℕ) (u : Unit {0}) (b' : Broker)
    → admit b p r escape grant ≡ ok u b'
    → (id : ℕ) × (grant ≡ some id) × Admitted b p r escape id b'
unfolding admit
admit-Admitted b p r escape none u b' h = cc
admit-Admitted b p r escape (some id) u b' h = (id, refl, held (get id b.grants) refl)
  where
    f : Fingerprint
    f = request_fingerprint p r

    passed :
        (o : Run Broker BrokerError (Unit {0}))
        → get id b.grants ≡ some f
        → guard_prod (consume b r id) r escape ≡ o
        → ◌≡◌ {A = Run Broker BrokerError (Unit {0})}
            (elim o [ err x c ↦ err x c | ok _ c ↦ record_execution c p r ])
            (ok u b')
        → Admitted b p r escape id b'
    passed (err x c) g q k = absurd (cc)
    passed (ok v c) g q k = admitted b p r escape id u v c b' g q k

    held : (o : Option Fingerprint) → get id b.grants ≡ o → Admitted b p r escape id b'
    held none q = absurd (cc (rw (q, admit) at h))
    held (some g) q = elim (Bool-cases (g == f)) [
      | inr t ↦ absurd (cc (rw (q, t) at h))
      | inl t ↦ passed _ (rw q (ap some ((==_iff g f).0 t))) refl (rw (q, t) at h)
    ]
