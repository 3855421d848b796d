-- ===== src/Broker/Audit.antt =====
-- app/sidecar/broker/audit-store.ts, and `isRtkFiltered` of app/src/contracts/rtk.ts.
use capisco.Prelude.{
  arith, ℕ, suc, ◌+◌, ◌≡◌, Bool, false, ◌&&◌, ◌||◌, not, Option, none, some, List, [], ◌∷◌, ◌++◌,
  String, if◌then◌else◌, leb, ltb, ◌==◌, nat_eq, any,
}
use capisco.Prelude.Text.{includes, codes, units, is_empty}
use capisco.Prelude.Effect.{Run, ok, err}
use capisco.Broker.Contract.{PrincipalKind, CapabilityKind, BrokerOutcome, Reason, kind_name}

pub data AuditOutcome : Type 0 where
  decided : BrokerOutcome → AuditOutcome
  executed vault_write_proposed : AuditOutcome

pub record Entry : Type 0 where
  pub principal_id : String
  pub principal_kind : PrincipalKind
  pub capability : CapabilityKind
  pub target : String
  pub credential_ref : Option String
  pub outcome : AuditOutcome
  pub from_untrusted : Bool
  pub reason : Reason

pub record AuditEntry : Type 0 where
  pub seq : ℕ
  pub entry : Entry
  pub open entry use *

-- The observers see an entry after it is appended, and cannot change the log.
pub record AuditLog : Type 0 where
  pub entries : List AuditEntry
  pub seq : ℕ

pub data AuditError : Type 0 where
  secret_value rtk_filtered : AuditError

unfoldable pub is_rtk_filtered : String → Bool
is_rtk_filtered value = includes value "\0RTK_LLM_FACING_ONLY\0"

between : ℕ → ℕ → ℕ → Bool
between lo hi c = leb lo c && leb c hi

abbrev lower : ℕ → ℕ
lower c = if leb b'A' c && leb c b'Z' then c + 32 else c

-- `\w`
is_word : ℕ → Bool
unfolding between
is_word c = between b'a' b'z' (lower c) || (between b'0' b'9' c || c == b'_')

starts_word : List ℕ → Bool
unfolding is_word
starts_word [] = false
starts_word (c ∷ cs) = is_word c

-- A keyword at the front, whatever the case, with a word boundary behind it.
word_at : List ℕ → List ℕ → Bool
unfolding starts_word
word_at [] cs = not (starts_word cs)
word_at (k ∷ ks) [] = false
word_at (k ∷ ks) (c ∷ cs) = lower c == k && word_at ks cs

abbrev keywords : List (List ℕ)
keywords =
    codes "password"
    ∷ codes "passwd"
    ∷ codes "secret"
    ∷ codes "token"
    ∷ codes "apikey"
    ∷ codes "api_key"
    ∷ codes "bearer"
    ∷ []

-- `/\b(password|…)\b/i`, with `inside` for a word character before the position.
has_keyword : Bool → List ℕ → Bool
unfolding word_at is_word
has_keyword inside [] = false
has_keyword inside (c ∷ cs) =
    (not inside && any (λ k. word_at k (c ∷ cs)) keywords) || has_keyword (is_word c) cs

-- `/[^a-z0-9._-]/i`
has_opaque : List ℕ → Bool
unfolding between
has_opaque cs =
    any
      (λ c. not (
        between b'a' b'z' (lower c)
        || (between b'0' b'9' c || (c == b'.' || (c == b'_' || c == b'-')))))
      cs

unfoldable pub looks_like_secret_value : String → Bool
unfolding has_keyword has_opaque
looks_like_secret_value ref =
    let cs = codes ref in
    any (λ c. c == b':' || c == b'=') cs
    || (has_keyword false cs || (ltb 40 (units cs) && has_opaque cs))

abbrev secret_ref : Option String → Bool
secret_ref none = false
secret_ref (some ref) = not (is_empty ref) && looks_like_secret_value ref

abbrev pub rtk_option : Option String → Bool
rtk_option none = false
rtk_option (some s) = is_rtk_filtered s

unfoldable pub record_entry : AuditLog → Entry → Run AuditLog AuditError AuditEntry
record_entry log e =
    if secret_ref e.credential_ref
    then err secret_value log
    else if is_rtk_filtered e.target
        || (is_rtk_filtered (kind_name e.capability) || rtk_option e.credential_ref)
    then err rtk_filtered log
    else let recorded : AuditEntry = record { seq = suc log.seq; entry = e } in
      ok recorded (record { entries = log.entries ++ recorded ∷ []; seq = suc log.seq })

-- A successful append adds one entry at the end, under the next ordinal.
pub record_entry-ok :
    (log : AuditLog) (e : Entry) (x : AuditEntry) (log' : AuditLog)
    → record_entry log e ≡ ok x log'
    → (x ≡ record { seq = suc log.seq; entry = e })
      × (log' ≡ record { entries = log.entries ++ x ∷ []; seq = suc log.seq })
unfolding record_entry
record_entry-ok log e x log' h = ground arith

unfoldable pub list_entries : AuditLog → List AuditEntry
list_entries log = log.entries
