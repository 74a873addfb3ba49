-- ===== src/Http/Exchange.antt =====
-- A request being answered: http.ResponseWriter behind the statusRecorder of
-- internal/httpapi/handlers.go, with the world that the handlers act on.
use projet_etude_app_demo.Prelude.{ℕ, ℤ, Bool, Bytes, str, List, [], ◌∷◌, ◌++◌, Option, none, some}
use projet_etude_app_demo.Model.{Ticket, AuditEntry}
use projet_etude_app_demo.Request.{Request}
use projet_etude_app_demo.Metrics.{Effect}
use projet_etude_app_demo.Store.Exec.{World}

-- What is written to a body. The encoders of encoding/json and html/template are not modelled: a
-- chunk holds the value that they are given.
pub data Chunk : Type 0 where
  text : Bytes → Chunk
  json_ticket : Ticket → Chunk
  json_tickets : List Ticket → Chunk
  json_entries : List AuditEntry → Chunk
  row_html : Ticket → Chunk
  index_html : List Ticket → ℕ → Chunk
  redirect_html : Bytes → Chunk

-- The fields of an http.Cookie that the program sets. `max_age` is in seconds; -1 deletes the cookie.
pub record Cookie : Type 0 where
  pub name : Bytes
  pub value : Bytes
  pub path : Bytes
  pub http_only : Bool
  pub secure : Bool
  pub same_site_lax : Bool
  pub max_age : ℤ

-- The headers that the program sets, but Content-Type.
pub data Header : Type 0 where
  set_cookie : Cookie → Header
  location : Bytes → Header

-- What the process holds between requests beside the store: memHold of internal/httpapi/chaos.go, as
-- the sizes of its blocks, and the status with which the process has been told to exit.
pub record Process : Type 0 where
  pub held : List ℕ
  pub exiting : Option ℕ

-- `recorded` is statusRecorder.status; `wire` is the status line that was sent, once it is.
pub record Exchange : Type 0 where
  pub world : World
  pub recorded : ℕ
  pub wire : Option ℕ
  pub headers : List Header
  pub chunks : List Chunk
  pub process : Process

-- A handler returns, or panics with what it had written.
pub data Flow : Type 0 where
  returned panicked : Exchange → Flow

abbrev pub Handler : Type 0
Handler = Request → Exchange → Flow

-- net/http sends the first status only.
abbrev pub sent_first : Option ℕ → ℕ → Option ℕ
sent_first none code = some code
sent_first (some first) code = some first

-- statusRecorder.WriteHeader keeps the last status, and passes every one on.
unfoldable pub write_header : ℕ → Exchange → Exchange
write_header code x = record x { recorded = code; wire = sent_first x.wire code }

-- A Write with no status before it sends 200, which the recorder does not see.
unfoldable pub write : Chunk → Exchange → Exchange
write c x = record x { wire = sent_first x.wire 200; chunks = x.chunks ++ c ∷ [] }

-- http.Error, which ends the text with a newline.
unfoldable pub http_error : Bytes → ℕ → Exchange → Exchange
unfolding write_header write
http_error message code x = write (text (message ++ str "\n")) (write_header code x)

-- writeJSON
unfoldable pub write_json : ℕ → Chunk → Exchange → Exchange
unfolding write_header write
write_json code c x = write c (write_header code x)

-- A header that is set after the status line has no effect.
unfoldable pub add_header : Header → Exchange → Exchange
add_header h x = elim x.wire [ none ↦ record x { headers = x.headers ++ h ∷ [] } | some _ ↦ x ]

-- http.Redirect of a GET request, with StatusFound.
unfoldable pub redirect : Bytes → Exchange → Exchange
unfolding add_header write_header write
redirect url x = write (redirect_html url) (write_header 302 (add_header (location url) x))

abbrev pub with_world : World → Exchange → Exchange
with_world w x = record x { world = w }

abbrev pub with_effect : Effect → World → World
with_effect e w = record w { effects = w.effects ++ e ∷ [] }
