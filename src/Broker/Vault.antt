-- ===== src/Broker/Vault.antt =====
-- app/sidecar/broker/in-memory-secret-store.ts.
use capisco.Prelude.{Option, none, some, String, if◌then◌else◌, string_eq}
use capisco.Prelude.Dict.{Dict, get, set}
use capisco.Prelude.Text.{is_empty}
use capisco.Prelude.Effect.{Run, ok, err}

-- The reference names with their values.
abbrev pub Vault : Type 0
Vault = Dict String String

pub data VaultError : Type 0 where
  empty_reference unknown_reference : VaultError

unfoldable pub put : Vault → String → String → Run Vault VaultError (Unit {0})
put v ref value = if is_empty ref then err empty_reference v else ok tt (set ref value v)

-- `use(value)` for the callback `use`.
unfoldable pub inject : {R : Type 0} → Vault → String → (String → R) → Option R
inject v ref use_value = elim (get ref v) [ none ↦ none | some value ↦ some (use_value value) ]
