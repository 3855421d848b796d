-- ===== src/Broker/Contract.antt =====
-- The broker's types: app/src/contracts/broker.ts, and of app/src/contracts/agents.ts and
-- tooling.ts what the broker takes. A missing optional flag is `false`.
use capisco.Prelude.{
  ℕ, ◌≡◌, refl, ◌↔◌, ap, Bool, true, false, Option, some, List, String, Eq, ◌==◌, string_eq, ==_iff,
  arith,
}

pub data PrincipalKind : Type 0 where
  human agent : PrincipalKind

pub record Principal : Type 0 where
  pub id : String
  pub kind : PrincipalKind
  pub label : String

pub data CapabilityKind : Type 0 where
  shell file_read file_write network db_read db_write secret_read external_write : CapabilityKind
  cross_project_read : CapabilityKind

-- The strings of the union type.
unfoldable pub kind_name : CapabilityKind → String
kind_name shell = "shell"
kind_name file_read = "file-read"
kind_name file_write = "file-write"
kind_name network = "network"
kind_name db_read = "db-read"
kind_name db_write = "db-write"
kind_name secret_read = "secret-read"
kind_name external_write = "external-write"
kind_name cross_project_read = "cross-project-read"

unfoldable pub principal_name : PrincipalKind → String
principal_name human = "human"
principal_name agent = "agent"

pub record CapabilityRequest : Type 0 where
  pub kind : CapabilityKind
  pub target : String
  pub command : Option String
  pub credential_ref : Option String
  pub from_untrusted : Bool
  pub task_id : Option String
  pub canonical_target : Option String

-- A scope is a name.
abbrev pub CapabilityScope : Type 0
CapabilityScope = String

pub data BrokerOutcome : Type 0 where
  allow deny ask : BrokerOutcome

pub data GrantAxis : Type 0 where
  once session scoped deny : GrantAxis

-- A number of JavaScript: a natural number, or one that is negative, fractional or not finite.
pub data Number : Type 0 where
  natural : ℕ → Number
  other : Number

pub record ScopedGrant : Type 0 where
  pub path_prefix : String
  pub max_actions : Number

pub record PermissionDecision : Type 0 where
  pub axis : GrantAxis
  pub scope : Option CapabilityScope
  pub scoped_grant : Option ScopedGrant

pub record AllowlistRule : Type 0 where
  pub kind : CapabilityKind
  pub pattern : String
  pub verdict : BrokerOutcome

-- The reasons of a decision, by the text that each one prints.
pub data Reason : Type 0 where
  untrusted_egress single_use previously_denied granted_session no_matching_grant : Reason
  granted_scoped : ℕ → String → Reason
  allowlist denylist allowlist_ask : AllowlistRule → Reason
  authorized_execution : Reason
  vault_write : String → Reason

pub record PermissionRequest : Type 0 where
  pub id : ℕ
  pub command : String
  pub label : String
  pub scopes : List CapabilityScope
  pub credential_ref : Option String
  pub from_untrusted : Bool

pub record BrokerDecision : Type 0 where
  pub outcome : BrokerOutcome
  pub request : Option PermissionRequest
  pub reason : Reason
  pub grant : Option ℕ

pub record WriteEscape : Type 0 where
  pub id : String
  pub datasource : String
  pub command : String

kind_of : String → Option CapabilityKind
kind_of s = elim (s == "shell") [
  | true ↦ some shell
  | false ↦ elim (s == "file-read") [
    | true ↦ some file_read
    | false ↦ elim (s == "file-write") [
      | true ↦ some file_write
      | false ↦ elim (s == "network") [
        | true ↦ some network
        | false ↦ elim (s == "db-read") [
          | true ↦ some db_read
          | false ↦ elim (s == "db-write") [
            | true ↦ some db_write
            | false ↦ elim (s == "secret-read") [
              | true ↦ some secret_read
              | false ↦ elim (s == "external-write") [
                | true ↦ some external_write
                | false ↦ some cross_project_read
              ]
            ]
          ]
        ]
      ]
    ]
  ]
]

kind_of-kind_name : (k : CapabilityKind) → kind_of (kind_name k) ≡ some k
unfolding kind_of kind_name
kind_of-kind_name shell = refl
kind_of-kind_name file_read = refl
kind_of-kind_name file_write = refl
kind_of-kind_name network = refl
kind_of-kind_name db_read = refl
kind_of-kind_name db_write = refl
kind_of-kind_name secret_read = refl
kind_of-kind_name external_write = refl
kind_of-kind_name cross_project_read = refl

pub kind_name-injective : (a b : CapabilityKind) → kind_name a ≡ kind_name b → a ≡ b
kind_name-injective a b h = cc (kind_of-kind_name a, kind_of-kind_name b)

pub kind_beq_iff : (a b : CapabilityKind) → ((kind_name a == kind_name b) ≡ true) ↔ (a ≡ b)
kind_beq_iff a b = (
  λ h. kind_name-injective a b ((==_iff (kind_name a) (kind_name b)).0 h),
  λ p. (==_iff (kind_name a) (kind_name b)).1 (ap kind_name p),
)

instance abbrev pub kind_eq : Eq CapabilityKind
kind_eq = record { beq = λ a b. kind_name a == kind_name b; beq_iff = kind_beq_iff }

pub principal_name-injective : (a b : PrincipalKind) → principal_name a ≡ principal_name b → a ≡ b
unfolding principal_name
principal_name-injective human human h = refl
principal_name-injective agent agent h = refl
principal_name-injective human agent h =
    absurd (ground (arith, ==_iff {K = String} "human" "agent"))
principal_name-injective agent human h =
    absurd (ground (arith, ==_iff {K = String} "agent" "human"))
