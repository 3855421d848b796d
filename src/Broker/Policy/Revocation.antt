-- ===== src/Broker/Policy/Revocation.antt =====
-- Revoking a task: `revokeTask` of app/sidecar/broker/policy-engine.ts.
use capisco.Prelude.{
  ◌≡◌, refl, Option, none, some, [], ◌∷◌, String, arith, if◌then◌else◌, ◌==◌, string_eq, list_eq,
  ==_iff,
}
use capisco.Prelude.Dict.{Dict, get, IsDict}
use capisco.Broker.Contract.{kind_eq}
use capisco.Broker.Policy.{
  PersistedGrant, denied, session, scoped, Key, Engine, drop_task, revoke_task,
}

-- What is left of a persisted grant when a task is revoked.
abbrev pub kept : String → Option PersistedGrant → Option PersistedGrant
kept task (some (scoped g)) = if g.task_id == task then none else some (scoped g)
kept task o = o

pub get-drop_task :
    (task : String) (k : Key) (m : Dict Key PersistedGrant)
    → IsDict m
    → get k (drop_task task m) ≡ kept task (get k m)
unfolding get drop_task
get-drop_task task k [] h = refl
get-drop_task task k ((j, denied) ∷ m) h = ground (arith, get-drop_task task k m h.1)
get-drop_task task k ((j, session) ∷ m) h = ground (arith, get-drop_task task k m h.1)
get-drop_task task k ((j, scoped g) ∷ m) h = ground (arith, ==_iff j k, get-drop_task task k m h.1)

-- Revoking a task removes exactly the scoped grants that were issued to it: every other persisted
-- grant (a deny, a session grant, a scoped grant of another task) is found as before, and the rest of
-- the engine is unchanged.
pub revoke_task_lem :
    (e : Engine) (task : String) (k : Key)
    → IsDict e.grants
    → (get k (revoke_task e task).grants ≡ kept task (get k e.grants))
      × (revoke_task e task ≡ record e { grants = (revoke_task e task).grants })
unfolding revoke_task
revoke_task_lem e task k h = (get-drop_task task k e.grants h, refl)
