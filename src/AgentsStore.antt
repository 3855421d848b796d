-- ===== src/AgentsStore.antt =====
-- app/src/shell/agents/store.ts: what the agents and the chat workspaces remember. A text is the list
-- of its code units. The ids `q1`, `cp1` and `sp1` of queued messages, checkpoints and saved prompts are
-- written as their numbers; the module's counters are fields. What buildHandoffSummary makes of a
-- transcript is an argument.
pub mod Settings
pub mod Queue
pub mod Fifo
pub mod Order
pub mod Tidy
pub mod Ids
use capisco.Prelude.{
  ℕ, zero, suc, ◌+◌, ◌-◌, Bool, true, false, ◌&&◌, ◌||◌, not, Option, none, some, List, [], ◌∷◌,
  ◌++◌, String, if◌then◌else◌, get_or, ltb, leb, length, any, take, drop, ◌==◌, string_eq, nat_eq,
  list_eq,
}
use capisco.Prelude.Dict.{Dict, get, set, delete, contains}
use capisco.Prelude.Text.{concat, decimal, codes, trim, before, is_blank}
use capisco.Sessions.{SessionStatus, Telemetry, zero_telemetry}

abbrev pub Units : Type 0
Units = List ℕ

pub record Session : Type 0 where
  pub id : String
  pub model : Units
  pub status : SessionStatus
  pub title : Units
  pub telemetry : Telemetry

pub data RunState : Type 0 where
  ready loading error : RunState

pub data TerseLevel : Type 0 where
  lite full ultra : TerseLevel

pub data BackendKind : Type 0 where
  api cli : BackendKind

pub record QueuedMessage : Type 0 where
  pub id : ℕ
  pub text : Units

pub record CheckpointEntry : Type 0 where
  pub id : ℕ
  pub label : Units
  pub leaf_id : String
  pub seq : ℕ

pub record SavedPrompt : Type 0 where
  pub id : ℕ
  pub label : Units
  pub body : Units

pub record StoreOpts : Type 0 where
  pub base : List Session
  pub default_model : Units
  pub default_backend : String
  pub new_session_title : Units

pub record AgentsState : Type 0 where
  pub extra : List Session
  pub closed : List String
  pub active_id : String
  pub run_states : Dict String RunState
  pub handoff_seeds : Dict String Units
  pub model : Units
  pub effort : ℕ
  pub budget : ℕ
  pub terse_enabled : Bool
  pub terse_level : TerseLevel
  pub scoped_grants_enabled : Bool
  pub terse_hint_seen : Bool
  pub routing_enabled : Bool
  pub model_overrides : Dict String Units
  pub prompt_logs : Dict String (List Units)
  pub draft_bodies : Dict String Units
  pub message_queues : Dict String (List QueuedMessage)
  pub checkpoints : Dict String (List CheckpointEntry)
  pub saved_prompts : List SavedPrompt
  pub run_completions : Dict String ℕ
  pub backend_kind : BackendKind
  pub settings_open : Bool
  pub selected_backend_id : String
  pub selected_backend_id_by_session : Dict String String
  pub queue_seq : ℕ
  pub checkpoint_seq : ℕ
  pub saved_prompt_seq : ℕ

abbrev pub max_prompt_log_size : ℕ
max_prompt_log_size = 100

abbrev pub max_draft_chars : ℕ
max_draft_chars = 10000

abbrev first_id : List Session → String
first_id [] = ""
first_id (x ∷ xs) = x.id

unfoldable pub create_agents_store : StoreOpts → AgentsState
create_agents_store opts = record {
  extra = [];
  closed = [];
  active_id = first_id opts.base;
  run_states = [];
  handoff_seeds = [];
  model = opts.default_model;
  effort = 3;
  budget = 200000;
  terse_enabled = true;
  terse_level = full;
  scoped_grants_enabled = true;
  terse_hint_seen = false;
  routing_enabled = false;
  model_overrides = [];
  prompt_logs = [];
  draft_bodies = [];
  message_queues = [];
  checkpoints = [];
  saved_prompts = [];
  run_completions = [];
  backend_kind = api;
  settings_open = false;
  selected_backend_id = opts.default_backend;
  selected_backend_id_by_session = [];
  queue_seq = 0;
  checkpoint_seq = 0;
  saved_prompt_seq = 0;
}

-- `` `n${s.extra.length + 1}` ``
unfoldable pub new_id : AgentsState → String
new_id s = concat ("n" ∷ decimal (length s.extra + 1) ∷ [])

abbrev fresh_session : StoreOpts → String → Units → Session
fresh_session opts id model = record {
  id = id;
  model = model;
  status = SessionStatus.idle;
  title = opts.new_session_title;
  telemetry = zero_telemetry;
}

unfoldable pub create_session : StoreOpts → AgentsState → Units → AgentsState
create_session opts s model = record s {
  extra = s.extra ++ fresh_session opts (new_id s) (before 32 model) ∷ [];
  active_id = new_id s;
}

unfoldable pub handoff_to_new_session :
    StoreOpts → AgentsState → Session → Units → String × AgentsState
handoff_to_new_session opts s parent summary = (
  new_id s,
  record s {
    extra = s.extra ++ fresh_session opts (new_id s) parent.model ∷ [];
    active_id = new_id s;
    handoff_seeds = set (new_id s) summary s.handoff_seeds;
  },
)

abbrev pub filter : {A : Type 0} → (A → Bool) → List A → List A
filter p [] = []
filter p (x ∷ xs) = let rest = filter p xs in if p x then x ∷ rest else rest

-- The sessions that a workspace shows.
unfoldable pub open_sessions : StoreOpts → AgentsState → List Session
open_sessions opts s = filter (λ x. not (contains x.id s.closed)) (opts.base ++ s.extra)

abbrev next_active : String → List Session → String
next_active current [] = current
next_active current (x ∷ xs) = x.id

unfoldable pub close_session : StoreOpts → AgentsState → String → AgentsState
close_session opts s id =
    let remaining = filter (λ x. not (x.id == id)) (open_sessions opts s) in
    record s {
      extra = filter (λ x. not (x.id == id)) s.extra;
      closed = if contains id s.closed then s.closed else s.closed ++ id ∷ [];
      active_id = if s.active_id == id then next_active s.active_id remaining else s.active_id;
    }

-- `xs.slice(-n)`
unfoldable pub last : {A : Type 0} → ℕ → List A → List A
last n xs = drop (length xs - n) xs

unfoldable pub append_prompt : AgentsState → String → Units → AgentsState
append_prompt s session text = if is_blank text then s else record s {
  prompt_logs =
      set session (last max_prompt_log_size (get_or (get session s.prompt_logs) [] ++ text ∷ []))
        s.prompt_logs;
}

unfoldable pub save_draft : AgentsState → String → Units → AgentsState
save_draft s session body = record s {
  draft_bodies =
      if not (is_blank (take max_draft_chars body))
      then set session (take max_draft_chars body) s.draft_bodies
      else delete session s.draft_bodies;
}

unfoldable pub clear_draft : AgentsState → String → AgentsState
clear_draft s session = record s { draft_bodies = delete session s.draft_bodies }

unfoldable pub set_run_state : AgentsState → String → RunState → AgentsState
set_run_state s id run = record s { run_states = set id run s.run_states }

unfoldable pub cancel_run : AgentsState → String → AgentsState
cancel_run s id = record s { run_states = set id ready s.run_states }

unfoldable pub complete_run : AgentsState → String → AgentsState
complete_run s id = record s {
  run_states = set id ready s.run_states;
  run_completions = set id (get_or (get id s.run_completions) 0 + 1) s.run_completions;
}

-- `label.trim() || …`
abbrev or_else : Units → Units → Units
or_else [] other = other
or_else (c ∷ cs) other = c ∷ cs

unfoldable pub add_checkpoint : AgentsState → String → Units → String → AgentsState
add_checkpoint s session label leaf =
    let prev = get_or (get session s.checkpoints) [] in
    let entry : CheckpointEntry = record {
      id = suc s.checkpoint_seq;
      label =
          or_else (trim label) (codes (concat ("checkpoint " ∷ decimal (length prev + 1) ∷ [])));
      leaf_id = leaf;
      seq = suc s.checkpoint_seq;
    } in
    record s {
      checkpoints = set session (prev ++ entry ∷ []) s.checkpoints;
      checkpoint_seq = suc s.checkpoint_seq;
    }

unfoldable pub save_prompt : AgentsState → Units → Option Units → AgentsState
save_prompt s body label =
    if is_blank body || any (λ p. p.body == trim body) s.saved_prompts then s else record s {
      saved_prompts =
          s.saved_prompts
          ++ record {
            id = suc s.saved_prompt_seq;
            label = or_else (trim (get_or label [])) (take 60 (before 10 (trim body)));
            body = trim body;
          }
            ∷ [];
      saved_prompt_seq = suc s.saved_prompt_seq;
    }

unfoldable pub delete_saved_prompt : AgentsState → ℕ → AgentsState
delete_saved_prompt s id = record s {
  saved_prompts = filter (λ p. not (p.id == id)) s.saved_prompts;
}
