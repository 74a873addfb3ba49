-- ===== src/Store/Db.antt =====
-- The schema of internal/store/store.go (`migrations`): the three tables, the sequences of their
-- BIGSERIAL keys, and their CHECK constraints. A timestamp is a number of microseconds.
use projet_etude_app_demo.Prelude.{
  ℕ, ltb, leb, Bool, ◌&&◌, ◌||◌, Bytes, str_eq, Option, List, [], count_if,
}
use projet_etude_app_demo.Model.{
  Time, Ticket, JobKind, Priority, Status, status_open, status_closed, valid_priority, audit_ok,
  audit_denied, audit_error,
}

-- CHECK (status IN ('pending','running','done','failed'))
pub data JobStatus : Type 0 where
  pending running finished failed : JobStatus

pub record JobRow : Type 0 where
  pub id : ℕ
  pub kind : JobKind
  pub payload : Bytes
  pub status : JobStatus
  pub attempts : ℕ
  pub max_attempts : ℕ
  pub last_error : Option Bytes
  pub run_after : Time
  pub locked_at : Option Time
  pub locked_by : Option Bytes
  pub created_at : Time
  pub updated_at : Time
  pub trace_context : Option Bytes

pub record AuditRow : Type 0 where
  pub id : ℕ
  pub ts : Time
  pub user_sub : Bytes
  pub user_email : Option Bytes
  pub action : Bytes
  pub resource_type : Option Bytes
  pub resource_id : Option Bytes
  pub ip : Option Bytes
  pub user_agent : Option Bytes
  pub trace_id : Option Bytes
  pub result : Bytes

-- A sequence holds the last number that it gave.
pub record Db : Type 0 where
  pub tickets : List Ticket
  pub ticket_seq : ℕ
  pub jobs : List JobRow
  pub job_seq : ℕ
  pub audit_log : List AuditRow
  pub audit_seq : ℕ

abbrev pub empty_db : Db
empty_db = record {
  tickets = [];
  ticket_seq = 0;
  jobs = [];
  job_seq = 0;
  audit_log = [];
  audit_seq = 0;
}

abbrev pub default_max_attempts : ℕ
default_max_attempts = 5

-- A byte of UTF-8 that begins a character.
abbrev pub is_rune_start : ℕ → Bool
is_rune_start b = ltb b 0x80 || leb 0xc0 b

-- length(title), in characters.
abbrev pub char_length : Bytes → ℕ
char_length = count_if is_rune_start

-- CHECK (length(title) > 0 AND length(title) <= 200)
unfoldable pub title_check : Bytes → Bool
title_check title = ltb 0 (char_length title) && leb (char_length title) 200

-- CHECK (priority IN ('low','medium','high'))
unfoldable pub priority_check : Priority → Bool
unfolding valid_priority
priority_check = valid_priority

-- CHECK (status IN ('open','closed'))
unfoldable pub status_check : Status → Bool
status_check s = str_eq s status_open || str_eq s status_closed

-- CHECK (result IN ('ok','denied','error'))
unfoldable pub result_check : Bytes → Bool
result_check r = str_eq r audit_ok || str_eq r audit_denied || str_eq r audit_error

-- What a rolled back transaction leaves: the tables as they were, and the sequences where they are.
unfoldable pub keep_sequences : Db → Db → Db
keep_sequences base now = record base {
  ticket_seq = now.ticket_seq;
  job_seq = now.job_seq;
  audit_seq = now.audit_seq;
}
