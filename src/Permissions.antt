-- ===== src/Permissions.antt =====
-- app/sidecar/acp/pending-permission-registry.ts. A promise is a number; the calls of its `settle`
-- are logged in `settled`, the calls of listeners in `emitted`. A listener is a number, and so is a set of
-- listeners, since a subscription holds the set object that it joined. `timers` are the timeouts that
-- are set, with the session that each one clears.
pub mod Settlement
pub mod Authority
pub mod Subscribers
use capisco.Prelude.{
  ℕ, suc, ◌+◌, Bool, true, false, ◌||◌, not, Option, none, some, List, [], ◌∷◌, ◌++◌, map, String,
  ◌==◌, string_eq, nat_eq, if◌then◌else◌, get_or, leb,
}
use capisco.Prelude.Dict.{Dict, get, set, delete, add, remove}
use capisco.Prelude.Text.{concat, decimal}
use capisco.Broker.Contract.{CapabilityRequest, GrantAxis, PermissionDecision, kind_name}

pub record PermissionRequest : Type 0 where
  pub id : String
  pub command : String
  pub label : String
  pub scopes : List String
  pub credential_ref : Option String
  pub from_untrusted : Bool

pub record PendingEntry : Type 0 where
  pub request : PermissionRequest
  pub promise : ℕ
  pub timer : Option ℕ

-- What a listener is called with; an event of the session's stream is a number.
pub data Pushed : Type 0 where
  permission : PermissionRequest → Pushed
  relayed : ℕ → Pushed

pub record Registry : Type 0 where
  pub pending : Dict String PendingEntry
  pub listeners : Dict String ℕ
  pub sets : Dict ℕ (List ℕ)
  pub next_set : ℕ
  pub seq : Dict String ℕ
  pub timeout_ms : ℕ
  pub timers : Dict ℕ String
  pub next_timer : ℕ
  pub next_promise : ℕ
  pub settled : List (ℕ × PermissionDecision)
  pub emitted : List (ℕ × Pushed)

unfoldable pub derive_request_id : String → ℕ → String
derive_request_id session_id seq = concat (session_id ∷ ":perm-" ∷ decimal seq ∷ [])

abbrev pub denial : PermissionDecision
denial = record { axis = GrantAxis.deny; scope = none; scoped_grant = none }

abbrev drop_timer : Option ℕ → Dict ℕ String → Dict ℕ String
drop_timer none m = m
drop_timer (some t) m = delete t m

abbrev settle_entry : Registry → String → PermissionDecision → PendingEntry → Registry
settle_entry r session_id decision entry = record r {
  timers = drop_timer entry.timer r.timers;
  pending = delete session_id r.pending;
  settled = r.settled ++ (entry.promise, decision) ∷ [];
}

unfoldable pub clear : Registry → String → PermissionDecision → Registry
clear r session_id decision = elim (get session_id r.pending) [
  | none ↦ r
  | some entry ↦ settle_entry r session_id decision entry
]

-- The listeners of a session.
abbrev pub audience : Registry → String → List ℕ
audience r session_id = elim (get session_id r.listeners) [
  | none ↦ []
  | some i ↦ get_or (get i r.sets) []
]

unfoldable pub emit : Registry → String → Pushed → Registry
emit r session_id event = record r {
  emitted = r.emitted ++ map (λ l. (l, event)) (audience r session_id);
}

unfoldable pub publish : Registry → String → ℕ → Registry
publish r session_id event = emit r session_id (relayed event)

unfoldable pub permission_request : String → ℕ → CapabilityRequest → Bool → PermissionRequest
permission_request session_id seq request from_untrusted = record {
  id = derive_request_id session_id seq;
  command = concat (kind_name request.kind ∷ "(" ∷ request.target ∷ ")" ∷ []);
  label = request.target;
  scopes = "Allow once" ∷ "This session" ∷ "Deny" ∷ [];
  credential_ref = request.credential_ref;
  from_untrusted = from_untrusted || request.from_untrusted;
}

abbrev enqueue : Registry → String → PermissionRequest → Registry
enqueue r session_id request =
    let timed = not (leb r.timeout_ms 0) in
    emit
      (record r {
        timers = if timed then set r.next_timer session_id r.timers else r.timers;
        next_timer = if timed then suc r.next_timer else r.next_timer;
        pending =
            set session_id
              (record {
                request = request;
                promise = r.next_promise;
                timer = if timed then some r.next_timer else none;
              })
              r.pending;
        next_promise = suc r.next_promise;
      })
      session_id (permission request)

abbrev next_seq : Registry → String → ℕ
next_seq r session_id = suc (get_or (get session_id r.seq) 0)

-- The promise of the answer is the registry's next one.
unfoldable pub park : Registry → String → CapabilityRequest → Bool → Registry
park r session_id request from_untrusted =
    let c = clear r session_id denial in
    let n = next_seq c session_id in
    enqueue (record c { seq = set session_id n c.seq }) session_id
      (permission_request session_id n request from_untrusted)

unfoldable pub get_pending_permission : Registry → String → Option PermissionRequest
get_pending_permission r session_id = elim (get session_id r.pending) [
  | none ↦ none
  | some entry ↦ some entry.request
]

unfoldable pub resolve_permission :
    Registry → String → String → PermissionDecision → GrantAxis × Registry
resolve_permission r session_id request_id decision = elim (get session_id r.pending) [
  | none ↦ (GrantAxis.deny, r)
  | some entry ↦
      if not (entry.request.id == request_id)
      then (GrantAxis.deny, r)
      else (decision.axis, clear r session_id decision)
]

-- A timeout that is set fires.
unfoldable pub fire : Registry → ℕ → Registry
fire r t = elim (get t r.timers) [
  | none ↦ r
  | some session_id ↦ clear (record r { timers = delete t r.timers }) session_id denial
]

abbrev push_parked : Registry → ℕ → Option PendingEntry → Registry
push_parked r listener none = r
push_parked r listener (some entry) = record r {
  emitted = r.emitted ++ (listener, permission entry.request) ∷ [];
}

-- The set that a listener of the session joins: a new one, where the session has none.
abbrev set_of : Registry → String → ℕ
set_of r session_id = get_or (get session_id r.listeners) r.next_set

abbrev join : Registry → String → ℕ → Registry
join r session_id listener =
    let i = set_of r session_id in
    record r {
      listeners = elim (get session_id r.listeners) [
        | none ↦ set session_id i r.listeners
        | some j ↦ r.listeners
      ];
      sets = set i (add listener (get_or (get i r.sets) [])) r.sets;
      next_set = elim (get session_id r.listeners) [ none ↦ suc r.next_set | some j ↦ r.next_set ];
    }

-- With the set that the function which ends the subscription holds.
unfoldable pub subscribe : Registry → String → ℕ → ℕ × Registry
subscribe r session_id listener = (
  set_of r session_id,
  push_parked (join r session_id listener) listener (get session_id r.pending),
)

abbrev none_left : List ℕ → Bool
none_left [] = true
none_left (l ∷ ls) = false

-- The function that a subscription returned is called.
unfoldable pub unsubscribe : Registry → String → ℕ → ℕ → Registry
unsubscribe r session_id held listener =
    let left = remove listener (get_or (get held r.sets) []) in
    record r {
      sets = set held left r.sets;
      listeners = if none_left left then delete session_id r.listeners else r.listeners;
    }

clear_each : Registry → List String → Registry
clear_each r [] = r
clear_each r (s ∷ ss) = clear_each (clear r s denial) ss

unfoldable pub deny_all : Registry → Registry
unfolding clear_each
deny_all r = clear_each r (map (λ e. e.0) r.pending)
