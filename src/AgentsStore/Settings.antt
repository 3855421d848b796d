-- ===== src/AgentsStore/Settings.antt =====
-- The settings of app/src/shell/agents/store.ts: what each setter changes.
use capisco.Prelude.{ℕ, Bool, true, not, [], ◌∷◌, String, string_eq}
use capisco.Prelude.Dict.{set, delete}
use capisco.AgentsStore.{Units, AgentsState, TerseLevel, BackendKind}

unfoldable set_active : AgentsState → String → AgentsState
set_active s id = record s { active_id = id }

unfoldable set_model : AgentsState → Units → AgentsState
set_model s model = record s { model = model }

unfoldable set_effort : AgentsState → ℕ → AgentsState
set_effort s effort = record s { effort = effort }

unfoldable set_budget : AgentsState → ℕ → AgentsState
set_budget s budget = record s { budget = budget }

unfoldable set_terse_enabled : AgentsState → Bool → AgentsState
set_terse_enabled s on = record s { terse_enabled = on }

unfoldable set_scoped_grants_enabled : AgentsState → Bool → AgentsState
set_scoped_grants_enabled s on = record s { scoped_grants_enabled = on }

unfoldable set_terse_level : AgentsState → TerseLevel → AgentsState
set_terse_level s level = record s { terse_level = level }

unfoldable mark_terse_hint_seen : AgentsState → AgentsState
mark_terse_hint_seen s = record s { terse_hint_seen = true }

unfoldable set_routing_enabled : AgentsState → Bool → AgentsState
set_routing_enabled s on = record s { routing_enabled = on }

unfoldable set_model_override : AgentsState → String → Units → AgentsState
set_model_override s session model = record s {
  model_overrides = elim model [
    | [] ↦ delete session s.model_overrides
    | c ∷ cs ↦ set session (c ∷ cs) s.model_overrides
  ];
}

unfoldable set_backend_kind : AgentsState → BackendKind → AgentsState
set_backend_kind s kind = record s { backend_kind = kind }

unfoldable set_selected_backend : AgentsState → String → AgentsState
set_selected_backend s id = record s { selected_backend_id = id }

unfoldable set_session_backend : AgentsState → String → String → AgentsState
set_session_backend s session id = record s {
  selected_backend_id_by_session = set session id s.selected_backend_id_by_session;
}

unfoldable set_settings_open : AgentsState → Bool → AgentsState
set_settings_open s on = record s { settings_open = on }

unfoldable toggle_settings : AgentsState → AgentsState
toggle_settings s = record s { settings_open = not s.settings_open }
