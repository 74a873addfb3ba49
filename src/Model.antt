-- ===== src/Model.antt =====
-- internal/model/model.go. Go's string types are byte sequences, also where they name an enumeration:
-- a `Priority` or a `Status` that no constant names is a value too.
use projet_etude_app_demo.Prelude.{ℕ, ℤ, Bytes, str, str_eq, Bool, ◌||◌, Option}

abbrev pub Time : Type 0
Time = ℤ

abbrev pub Priority : Type 0
Priority = Bytes

abbrev pub priority_low : Priority
priority_low = str "low"

abbrev pub priority_medium : Priority
priority_medium = str "medium"

abbrev pub priority_high : Priority
priority_high = str "high"

-- The `switch` of ValidPriority.
unfoldable pub valid_priority : Bytes → Bool
valid_priority p = str_eq p priority_low || str_eq p priority_medium || str_eq p priority_high

abbrev pub Status : Type 0
Status = Bytes

abbrev pub status_open : Status
status_open = str "open"

abbrev pub status_closed : Status
status_closed = str "closed"

pub record Ticket : Type 0 where
  pub id : ℕ
  pub title : Bytes
  pub description : Bytes
  pub priority : Priority
  pub status : Status
  pub created_at : Time
  pub updated_at : Time

abbrev pub JobKind : Type 0
JobKind = Bytes

abbrev pub job_kind_webhook_notify : JobKind
job_kind_webhook_notify = str "webhook.notify"

abbrev pub AuditResult : Type 0
AuditResult = Bytes

abbrev pub audit_ok : AuditResult
audit_ok = str "ok"

abbrev pub audit_denied : AuditResult
audit_denied = str "denied"

abbrev pub audit_error : AuditResult
audit_error = str "error"

pub record AuditEntry : Type 0 where
  pub id : ℕ
  pub timestamp : Time
  pub user_sub : Bytes
  pub user_email : Bytes
  pub action : Bytes
  pub resource_type : Bytes
  pub resource_id : Bytes
  pub ip : Bytes
  pub user_agent : Bytes
  pub trace_id : Bytes
  pub result : AuditResult

-- What a worker holds of a claimed row. `trace_context` is the JSON text, or none.
pub record Job : Type 0 where
  pub id : ℕ
  pub kind : JobKind
  pub payload : Bytes
  pub attempts : ℕ
  pub max_attempts : ℕ
  pub trace_context : Option Bytes

-- The body of a webhook, before json.Marshal (the map of runWebhook, internal/jobworker/worker.go).
pub record Notice : Type 0 where
  pub text : Bytes
  pub id : ℕ
  pub title : Bytes
  pub priority : Priority
  pub status : Status
