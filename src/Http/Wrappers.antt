-- ===== src/Http/Wrappers.antt =====
-- What NewMux puts round the handlers: RequireRead and RequireMutate of internal/auth/auth.go, and
-- auditing and instrument of internal/httpapi/handlers.go.
use projet_etude_app_demo.Prelude.{
  ℕ, ltb, leb, ◌==◌, ◌&&◌, ◌||◌, Bytes, str, is_empty, [], ◌++◌, Option, none, some, if◌then◌else◌,
  pos,
}
use projet_etude_app_demo.Model.{AuditEntry, AuditResult, audit_ok, audit_denied, audit_error}
use projet_etude_app_demo.Metrics.{Span, record_http_ctx}
use projet_etude_app_demo.Request.{Request}
use projet_etude_app_demo.Auth.{principal_from, read_denial, mutate_denial}
use projet_etude_app_demo.Store.Exec.{Pg}
use projet_etude_app_demo.Store.Audit.{write_audit}
use projet_etude_app_demo.Http.Exchange.{
  Exchange, Flow, returned, panicked, Handler, http_error, with_world,
}
use projet_etude_app_demo.Http.Input.{Platform, client_ip}

abbrev pub denial_text : ℕ → Bytes
denial_text code = if code == 401 then str "unauthorized\n" else str "forbidden\n"

-- The request ends with the denial, or goes on to the handler.
abbrev pub guarded : Option ℕ → Handler → Handler
guarded none h r x = h r x
guarded (some code) h r x = returned (http_error (denial_text code) code x)

unfoldable pub require_read : Handler → Handler
require_read h r x = guarded (read_denial (principal_from r.context)) h r x

unfoldable pub require_mutate : Handler → Handler
require_mutate h r x = guarded (mutate_denial (principal_from r.context)) h r x

-- auditResultFromStatus
unfoldable pub audit_result : ℕ → AuditResult
audit_result code =
    if code == 401 || code == 403
    then audit_denied
    else if leb 200 code && ltb code 400
    then audit_ok
    else audit_error

-- traceIDFromCtx
abbrev pub trace_id : Span → Bytes
trace_id none = []
trace_id (some t) = t

-- The entry that auditing writes. The resource is a ticket if the route has an id.
unfoldable pub audit_entry : Platform → Bytes → Request → ℕ → AuditEntry
unfolding audit_result
audit_entry p action r status =
    let who = principal_from r.context in
    record {
      id = 0;
      timestamp = pos 0;
      user_sub = who.sub;
      user_email = who.email;
      action = action;
      resource_type = if is_empty r.path_id then [] else str "ticket";
      resource_id = r.path_id;
      ip = client_ip p r;
      user_agent = r.header (str "User-Agent");
      trace_id = trace_id r.context.span;
      result = audit_result status;
    }

-- The entry is written after the handler, and an error of the write is only logged. A panic of the
-- handler passes the write by.
unfoldable pub audited : Pg → Platform → Bytes → Request → Flow → Flow
unfolding write_audit
audited pg p action r (panicked x) = panicked x
audited pg p action r (returned x) = returned (
    with_world
      (write_audit pg p.canonical_ip r.context.span (audit_entry p action r x.recorded) x.world).1
      x)

unfoldable pub auditing : Pg → Platform → Bytes → Handler → Handler
unfolding audited
auditing pg p action h r x = audited pg p action r (h r x)

-- The deferred function of instrument: a panic becomes a 500, unless a status was written.
unfoldable pub recovered : Flow → Exchange
unfolding http_error
recovered (returned x) = x
recovered (panicked x) = if x.recorded == 200 then http_error (str "internal error\n") 500 x else x

abbrev pub count_request : Pg → Bytes → Request → Exchange → Exchange
count_request pg path r x =
    with_world
      (record x.world {
        effects = x.world.effects ++ record_http_ctx pg.exemplars r.context.span path x.recorded;
      })
      x

-- instrument: each request has a recorder of its own, which starts at 200.
unfoldable pub instrument : Pg → Bytes → Handler → Request → Exchange → Exchange
unfolding recovered
instrument pg path h r x = count_request pg path r (recovered (h r (record x { recorded = 200 })))
