-- ===== src/Lifecycle/Writeback.antt =====
-- The external write of a ticket's status, in app/sidecar/task-forge/ticket-lifecycle.ts.
use capisco.Prelude.{
  ℕ, some, ◌⊎◌, inl, inr, String, ◌≡◌, ◌≢◌, refl, true, false, Option, none, List, [], ◌∷◌, ◌++◌,
}
use capisco.Prelude.Effect.{Run, ok, err}
use capisco.Broker.Contract.{
  CapabilityRequest, BrokerOutcome, GrantAxis, PermissionDecision, BrokerDecision, Reason,
}
use capisco.Broker.Audit.{AuditEntry, executed}
use capisco.Broker.Chokepoint
use capisco.Broker.Chokepoint.{Broker, BrokerError, entry_of}
use capisco.Broker.Chokepoint.Gate.{admit-Admitted}
use capisco.Sessions.{Store}
use capisco.Lifecycle.{
  automation, TicketStatus, Ticket, StatusWriteOutcome, written, gated, Write, World,
  LifecycleError, broker_failed, human, caught, Options, ticket_id, status_request, with_broker,
  perform, write_as_human, answered, write_status,
}

-- No write was done, and the sessions are as they were.
pub record Untouched (log : List Write) (store : Store) (w' : World) : Type 0 where
  pub performed : w'.performed ≡ log
  pub sessions : w'.store ≡ store

-- performStatusWrite was called once, and the last entry of the audit log says that the human executed
-- it.
pub record Called (request : CapabilityRequest) (write : Write) (log : List Write) (store : Store)
    (w' : World) : Type 0 where
  pub performed : w'.performed ≡ log ++ write ∷ []
  pub sessions : w'.store ≡ store
  pub before : List AuditEntry
  pub entry : AuditEntry
  pub logged : w'.broker.audit.entries ≡ before ++ entry ∷ []
  pub what : entry.entry ≡ entry_of human request executed Reason.authorized_execution

-- What an outcome stands for, where `Cleared` says that the human cleared the write and `throws` is
-- what performStatusWrite throws for it.
abbrev pub Accounted :
    Type 0
    → Option String
    → CapabilityRequest
    → Write
    → List Write
    → Store
    → Run World LifecycleError StatusWriteOutcome
    → Type 0
Accounted Cleared throws request write log store (ok written w') =
    Cleared × (throws ≡ none) × Called request write log store w'
Accounted Cleared throws request write log store (ok gated w') =
    Untouched log store w'
    ⊎ (Cleared × ((x : String) × (throws ≡ some x)) × Called request write log store w')
Accounted Cleared throws request write log store (err x w') = Untouched log store w'

untouched : (w : World) (b : Broker) → Untouched w.performed w.store (with_broker w b)
untouched w b = record { performed = refl; sessions = refl }

abbrev run_of : StatusWriteOutcome × World → Run World LifecycleError StatusWriteOutcome
run_of (outcome, w) = ok outcome w

perform-Accounted :
    (Cleared : Type 0) (o : Options) (w : World) (request : CapabilityRequest) (write : Write)
    (grant : Option ℕ)
    → Cleared
    → Accounted Cleared
        (o.perform_status_write write)
        request
        write
        w.performed
        w.store
        (run_of (perform o w request write grant))
unfolding perform
perform-Accounted Cleared o w request write grant c =
    admitted (Chokepoint.admit w.broker human request none grant) refl
  where
    called :
        (throws : Option String) (b : Broker)
        → Called request write w.performed w.store
            (record w { broker = b; performed = w.performed ++ write ∷ [] })
        → Accounted Cleared throws request write w.performed w.store
            (ok (caught throws) (record w { broker = b; performed = w.performed ++ write ∷ [] }))
    called none b h = (c, refl, h)
    called (some x) b h = inr (c, (x, refl), h)

    admitted :
        (x : Run Broker BrokerError (Unit {0}))
        → Chokepoint.admit w.broker human request none grant ≡ x
        → Accounted Cleared (o.perform_status_write write) request write w.performed w.store (
            run_of (elim x as (λ x. StatusWriteOutcome × World) [
              | err x b ↦ (gated, with_broker w b)
              | ok _ b ↦ (
                caught (o.perform_status_write write),
                record w { broker = b; performed = w.performed ++ write ∷ [] },
              )
            ]))
    admitted (err x b) e = inl (untouched w b)
    admitted (ok u b) e =
        let (id, g, a) = admit-Admitted w.broker human request none grant u b e in
        called (o.perform_status_write write) b (record {
          performed = refl;
          sessions = refl;
          before = w.broker.audit.entries;
          entry = a.entry;
          logged = a.logged;
          what = a.what;
        })

write_as_human-Accounted :
    (Cleared : Type 0) (o : Options) (w : World) (request : CapabilityRequest) (write : Write)
    → Cleared
    → Accounted Cleared
        (o.perform_status_write write)
        request
        write
        w.performed
        w.store
        (write_as_human o w request write)
unfolding write_as_human
write_as_human-Accounted Cleared o w request write c =
    authorized (Chokepoint.authorize w.broker human request none)
  where
    decided :
        (d : BrokerDecision) (b : Broker) (x : BrokerOutcome)
        → Accounted Cleared
            (o.perform_status_write write)
            request
            write
            w.performed
            w.store
            (elim x as (λ x. Run World LifecycleError StatusWriteOutcome) [
              | BrokerOutcome.allow ↦
                  ok
                    (perform o (with_broker w b) request write d.grant).0
                    (perform o (with_broker w b) request write d.grant).1
              | _ ↦ ok gated (with_broker w b)
            ])
    decided d b BrokerOutcome.allow =
        perform-Accounted Cleared o (with_broker w b) request write d.grant c
    decided d b BrokerOutcome.deny = inl (untouched w b)
    decided d b BrokerOutcome.ask = inl (untouched w b)

    authorized :
        (x : Run Broker BrokerError BrokerDecision)
        → Accounted Cleared
            (o.perform_status_write write)
            request
            write
            w.performed
            w.store
            (elim x as (λ x. Run World LifecycleError StatusWriteOutcome) [
              | err x b ↦ err (broker_failed x) (with_broker w b)
              | ok d b ↦ elim d.outcome [
                | BrokerOutcome.allow ↦
                    ok
                      (perform o (with_broker w b) request write d.grant).0
                      (perform o (with_broker w b) request write d.grant).1
                | _ ↦ ok gated (with_broker w b)
              ]
            ])
    authorized (err x b) = untouched w b
    authorized (ok d b) = decided d b d.outcome

-- The broker asked for the write in this run, and the human, asked with the broker as it was by then,
-- did not decline.
abbrev pub IsCleared : Options → World → Option Ticket → TicketStatus → Type 0
IsCleared o w ticket target =
    let request = status_request o ticket target true in
    (d : BrokerDecision) × (b : Broker) × (Chokepoint.authorize w.broker automation request none
      ≡ ok d b)
    × (d.outcome ≡ BrokerOutcome.ask)
    × ((o.resolve b request ticket target).0.axis ≢ GrantAxis.deny)

abbrev the_write : Option Ticket → TicketStatus → Write
the_write ticket target = record { ticket_id = ticket_id ticket; target_status = target }

granted-Accounted :
    (Cleared : Type 0) (o : Options) (w : World) (ticket : Option Ticket) (target : TicketStatus)
    → Cleared
    → (x : Run Broker BrokerError GrantAxis)
    → Accounted Cleared
        (o.perform_status_write (the_write ticket target))
        (status_request o ticket target false)
        (the_write ticket target)
        w.performed
        w.store
        (elim x as (λ x. Run World LifecycleError StatusWriteOutcome) [
          | err x b ↦ err (broker_failed x) (with_broker w b)
          | ok _ b ↦
              write_as_human o
                (with_broker w b)
                (status_request o ticket target false)
                (the_write ticket target)
        ])
granted-Accounted Cleared o w ticket target c (err x b) = untouched w b
granted-Accounted Cleared o w ticket target c (ok a b) =
    write_as_human-Accounted Cleared o (with_broker w b) (status_request o ticket target false)
      (the_write ticket target) c

answered-Accounted :
    (Cleared : Type 0) (o : Options) (w : World) (ticket : Option Ticket) (target : TicketStatus)
    (d : PermissionDecision) (axis : GrantAxis)
    → (axis ≢ GrantAxis.deny → Cleared)
    → Accounted Cleared
        (o.perform_status_write (the_write ticket target))
        (status_request o ticket target false)
        (the_write ticket target)
        w.performed
        w.store
        (answered o w ticket target d axis)
unfolding answered
answered-Accounted Cleared o w ticket target d GrantAxis.deny h =
    declined (Chokepoint.resolve w.broker (status_request o ticket target true) d none)
  where
    declined :
        (x : Run Broker BrokerError GrantAxis)
        → Accounted Cleared
            (o.perform_status_write (the_write ticket target))
            (status_request o ticket target false)
            (the_write ticket target)
            w.performed
            w.store
            (elim x as (λ x. Run World LifecycleError StatusWriteOutcome) [
              | err x b ↦ err (broker_failed x) (with_broker w b)
              | ok _ b ↦ ok gated (with_broker w b)
            ])
    declined (err x b) = untouched w b
    declined (ok a b) = inl (untouched w b)
answered-Accounted Cleared o w ticket target d GrantAxis.once h =
    granted-Accounted Cleared o w ticket target (h (λ e. cc e))
      (Chokepoint.resolve w.broker (status_request o ticket target false) d none)
answered-Accounted Cleared o w ticket target d GrantAxis.session h =
    granted-Accounted Cleared o w ticket target (h (λ e. cc e))
      (Chokepoint.resolve w.broker (status_request o ticket target false) d none)
answered-Accounted Cleared o w ticket target d GrantAxis.scoped h =
    granted-Accounted Cleared o w ticket target (h (λ e. cc e))
      (Chokepoint.resolve w.broker (status_request o ticket target false) d none)

-- Whatever the broker, its state and the human do, a status write is accounted for: the outcome is
-- `written` only where in this run the broker asked for this very write and the human did not decline
-- it; then performStatusWrite was called exactly once, for this ticket and this status, and returned,
-- and the last entry of the audit log says that the human executed it. On `gated` it was not called,
-- or it was called once, after the human had cleared it and the execution was logged, and threw. On
-- every throw it was not called. The sessions stay as they are.
pub write_status-Accounted :
    (o : Options) (w : World) (ticket : Option Ticket) (target : TicketStatus)
    → Accounted
        (IsCleared o w ticket target)
        (o.perform_status_write (record { ticket_id = ticket_id ticket; target_status = target }))
        (status_request o ticket target false)
        (record { ticket_id = ticket_id ticket; target_status = target })
        w.performed
        w.store
        (write_status o w ticket target)
unfolding write_status
write_status-Accounted o w ticket target =
    authorized (Chokepoint.authorize w.broker automation (status_request o ticket target true) none)
      refl
  where
    Goal : Run World LifecycleError StatusWriteOutcome → Type 0
    Goal =
        Accounted (IsCleared o w ticket target) (o.perform_status_write (the_write ticket target))
          (status_request o ticket target false) (the_write ticket target) w.performed w.store

    asking : Broker → Run World LifecycleError StatusWriteOutcome
    asking b =
        let asked = o.resolve b (status_request o ticket target true) ticket target in
        answered o (with_broker w asked.1) ticket target asked.0 asked.0.axis

    decided :
        (d : BrokerDecision) (b : Broker) (x : BrokerOutcome)
        → Chokepoint.authorize w.broker automation (status_request o ticket target true) none
          ≡ ok d b
        → d.outcome ≡ x
        → Goal (elim x as (λ x. Run World LifecycleError StatusWriteOutcome) [
          | BrokerOutcome.ask ↦ asking b
          | _ ↦ ok gated (with_broker w b)
        ])
    decided d b BrokerOutcome.allow e f = inl (untouched w b)
    decided d b BrokerOutcome.deny e f = inl (untouched w b)
    decided d b BrokerOutcome.ask e f =
        let asked = o.resolve b (status_request o ticket target true) ticket target in
        answered-Accounted (IsCleared o w ticket target) o (with_broker w asked.1) ticket target
          asked.0 asked.0.axis (λ ne. (d, b, e, f, ne))

    authorized :
        (x : Run Broker BrokerError BrokerDecision)
        → Chokepoint.authorize w.broker automation (status_request o ticket target true) none ≡ x
        → Goal (elim x as (λ x. Run World LifecycleError StatusWriteOutcome) [
          | err x b ↦ err (broker_failed x) (with_broker w b)
          | ok d b ↦ elim d.outcome as (λ x. Run World LifecycleError StatusWriteOutcome) [
            | BrokerOutcome.ask ↦ asking b
            | _ ↦ ok gated (with_broker w b)
          ]
        ])
    authorized (err x b) e = untouched w b
    authorized (ok d b) e = decided d b d.outcome e refl
