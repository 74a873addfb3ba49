-- ===== src/Http/AuditTrail.antt =====
-- The audit log of internal/httpapi/handlers.go: what the routes that change the tables leave in it.
use projet_etude_app_demo.Prelude.{
  ℕ, suc, ◌≡◌, ◌≢◌, ◌⊎◌, refl, sym, ap, subst, str_eq, Bool, true, false, Bool-cases, Bytes, str,
  List, [], ◌∷◌, ◌++◌, parse_int, Option-cases, inl, inr,
}
use projet_etude_app_demo.Model.{Time, AuditEntry, status_closed}
use projet_etude_app_demo.Request.{Request, operator, Principal}
use projet_etude_app_demo.Auth.{principal_from, mutate_denial, Idp, Authenticator, middleware}
use projet_etude_app_demo.Http.Routes.{post_tickets, post_close, route_path, route_handler, serve}
use projet_etude_app_demo.Auth.Access.{denials}
use projet_etude_app_demo.Store.Db.{Db, AuditRow, result_check}
use projet_etude_app_demo.Store.Exec.{Pg, World, send, send_at, timed, refused, Reply-cases}
use projet_etude_app_demo.Store.Trace.{Otel}
use projet_etude_app_demo.Store.Audit.{audit_row, insert_audit, write_audit, texts_accepted}
use projet_etude_app_demo.Http.Exchange.{
  Exchange, Flow, returned, Handler, with_world, http_error, write_header, write,
}
use projet_etude_app_demo.Http.Input.{Platform, parse_create}
use projet_etude_app_demo.Http.Wrappers.{
  denial_text, require_mutate, auditing, audited, audit_entry, audit_result, recovered, instrument,
}
use projet_etude_app_demo.Http.Handlers.{
  create_ticket_handler, create_parsed, close_ticket_handler, close_parsed,
}
use projet_etude_app_demo.Http.Answers.{
  HasLog, IsPlain, Tells, audit_result-Tells, create-log, set_status-log, create_parsed-IsPlain,
  close_parsed-IsPlain,
}
use projet_etude_app_demo.Http.Keeps.{create_ticket_handler-Keeps, close_ticket_handler-Keeps}

-- A handler that answers, with a status that is neither 401 nor 403.
record IsPlainFlow (f : Flow) : Type 0 where
  answer : Exchange
  ended : f ≡ returned answer
  plain : IsPlain answer.recorded

-- Why no entry was written, in a request after which so many statements have been sent: the principal
-- may not change anything, the last statement, which is the INSERT of the entry, is not run, or the
-- server does not accept one of the entry's texts.
abbrev pub IsMissed : Pg → Principal → AuditEntry → ℕ → Type 0
IsMissed pg who e calls =
    (who.role ≢ operator)
    ⊎ (((n : ℕ) × (t : Bytes) × (calls ≡ suc n) × (pg.reply n ≡ refused t))
        ⊎ (texts_accepted pg e ≡ false))

-- The row of a request, by its principal, with the status that was answered.
pub record IsRowOf (who : Principal) (operation : Bytes) (code : ℕ) (row : AuditRow) : Type 0 where
  pub user_sub : row.user_sub ≡ who.sub
  pub action : row.action ≡ operation
  pub result : Tells code row.result

-- One row more in the log, or none, for a reason, in a request after which so many statements have
-- been sent.
abbrev pub IsAudited :
    Pg → Platform → Bytes → Request → ℕ → ℕ → List AuditRow → List AuditRow → Type 0
IsAudited pg p operation r code calls before after =
    ((row : AuditRow) × ((after ≡ before ++ row ∷ [])
        × IsRowOf (principal_from r.context) operation code row))
    ⊎ ((after ≡ before)
        × IsMissed pg (principal_from r.context) (audit_entry p operation r code) calls)

plain-result_check :
    (code : ℕ) → Tells code (audit_result code) → result_check (audit_result code) ≡ true
unfolding result_check str_eq
plain-result_check code (inl (_, _, good)) = rw good
plain-result_check code (inr (_, bad)) = rw bad

module _ (pg : Pg) (p : Platform) (operation : Bytes) (r : Request) where
  module _ (code : ℕ) (plain : IsPlain code) where
    abbrev entry : AuditEntry
    entry = audit_entry p operation r code

    row-IsRowOf :
        (id : ℕ) (at : Time)
        → IsRowOf (principal_from r.context) operation code (audit_row p.canonical_ip entry id at)
    unfolding audit_row audit_entry
    row-IsRowOf id at = record {
      user_sub = refl;
      action = refl;
      result = audit_result-Tells code plain;
    }

    entry-result_check : result_check entry.result ≡ true
    unfolding audit_entry
    entry-result_check = plain-result_check code (audit_result-Tells code plain)

    insert_audit-IsAudited :
        (calls : ℕ) (at : Time) (locked : ℕ → Bool) (db : Db)
        → IsAudited pg p operation r code calls db.audit_log
            (insert_audit pg p.canonical_ip entry at locked db).1.audit_log
    unfolding insert_audit
    insert_audit-IsAudited calls at locked db = elim (Bool-cases (texts_accepted pg entry)) [
      | inr bad ↦ inr (rw (bad, insert_audit), inr (inr bad))
      | inl good ↦ inl (
        audit_row p.canonical_ip entry (suc db.audit_seq) at,
        (rw (good, entry-result_check, insert_audit), row-IsRowOf (suc db.audit_seq) at),
      )
    ]

    pub write_audit-IsAudited :
        (w : World)
        → IsAudited pg p operation r code
            (write_audit pg p.canonical_ip r.context.span entry w).1.calls
            w.db.audit_log
            (write_audit pg p.canonical_ip r.context.span entry w).1.db.audit_log
    unfolding write_audit timed send send_at
    write_audit-IsAudited w = elim (Reply-cases (pg.reply w.calls)) [
      | inl (inl e) ↦
          rw (e, write_audit)
            (insert_audit-IsAudited (suc w.calls) (pg.now w.calls) (pg.locked w.calls) w.db)
      | inl (inr (t, e)) ↦
          inr (rw (e, write_audit), inr (inl (w.calls, t, rw (e, write_audit) refl, e)))
      | inr (t, e) ↦
          rw (e, write_audit)
            (insert_audit-IsAudited (suc w.calls) (pg.now w.calls) (pg.locked w.calls) w.db)
    ]

  -- auditing round a handler that answers without touching the log.
  auditing-IsAudited :
      (h : Handler) (x : Exchange) (f : IsPlainFlow (h r x))
      → f.answer.world.db.audit_log ≡ x.world.db.audit_log
      → (y : Exchange) × ((auditing pg p operation h r x ≡ returned y)
          × ((y.recorded ≡ f.answer.recorded)
              × IsAudited pg p operation r f.answer.recorded y.world.calls x.world.db.audit_log
                  y.world.db.audit_log))
  unfolding auditing audited
  auditing-IsAudited h x f same =
      let y =
        with_world
          (write_audit pg p.canonical_ip r.context.span
            (audit_entry p operation r f.answer.recorded) f.answer.world).1
          f.answer in
      (
        y,
        (
          ap (audited pg p operation r) f.ended,
          (
            refl,
            subst
                (λ log.
                  IsAudited pg p operation r f.answer.recorded y.world.calls log
                    y.world.db.audit_log)
                same (write_audit-IsAudited f.answer.recorded f.plain f.answer.world),
          ),
        ),
      )

  require_mutate-IsAudited :
      (h : Handler) (x : Exchange) (f : IsPlainFlow (h r x))
      → f.answer.world.db.audit_log ≡ x.world.db.audit_log
      → (y : Exchange) × ((require_mutate (auditing pg p operation h) r x ≡ returned y)
          × IsAudited pg p operation r y.recorded y.world.calls x.world.db.audit_log
              y.world.db.audit_log)
  unfolding require_mutate http_error write_header write
  require_mutate-IsAudited h x f same =
      elim (Option-cases (mutate_denial (principal_from r.context))) [
        | inr (code, denied) ↦ (
          http_error (denial_text code) code x,
          (
            rw (denied, require_mutate),
            inr (refl, inl (λ e. cc (denied, (denials (principal_from r.context)).1.1 e))),
          ),
        )
        | inl free ↦
            let (y, (ended, (status, audit))) = auditing-IsAudited h x f same in
            (
              y,
              (
                rw (free, require_mutate) ended,
                subst
                    (λ code.
                      IsAudited pg p operation r code y.world.calls x.world.db.audit_log
                        y.world.db.audit_log)
                    (sym status) audit,
              ),
            )
      ]

-- The two routes that change tickets, with the operation that they are audited as.
module _ (pg : Pg) (otel : Otel) (p : Platform) (idp : Idp) (hmac : Bytes → Bytes → Bytes)
    (a : Authenticator) where
  instrument-IsAudited :
      (path operation : Bytes) (h : Handler) (r : Request) (x : Exchange)
      → (y : Exchange) × ((h r (record x { recorded = 200 }) ≡ returned y)
          × IsAudited pg p operation r y.recorded y.world.calls x.world.db.audit_log
              y.world.db.audit_log)
      → IsAudited pg p operation r
          (instrument pg path h r x).recorded
          (instrument pg path h r x).world.calls
          x.world.db.audit_log
          (instrument pg path h r x).world.db.audit_log
  unfolding instrument recovered
  instrument-IsAudited path operation h r x (y, (ended, audit)) = rw (ended, instrument) audit

  -- POST /api/tickets leaves one row more in the audit log, of the principal, as ticket.create,
  -- with ok if the status that is answered is from 200 to 399 and error if it is 400 or more;
  -- there is none only if the principal is no operator, the last statement of the request is not
  -- run, or the server does not accept a text of the entry.
  pub create-IsAudited :
      (r : Request) (x : Exchange)
      → IsAudited pg p
          (str "ticket.create")
          (middleware idp hmac a r)
          (serve pg otel p idp hmac a post_tickets r x).recorded
          (serve pg otel p idp hmac a post_tickets r x).world.calls
          x.world.db.audit_log
          (serve pg otel p idp hmac a post_tickets r x).world.db.audit_log
  unfolding serve route_handler create_ticket_handler
  create-IsAudited r x =
      let start = record x { recorded = 200 } in
      let s = middleware idp hmac a r in
      instrument-IsAudited (route_path post_tickets) (str "ticket.create")
        (require_mutate (auditing pg p (str "ticket.create") (create_ticket_handler pg otel p))) s x
        (require_mutate-IsAudited pg p (str "ticket.create") s (create_ticket_handler pg otel p)
          start
          (record {
            answer = create_parsed pg otel s (parse_create p s) start;
            ended = refl;
            plain = create_parsed-IsPlain pg otel s (parse_create p s) start;
          })
          (create_ticket_handler-Keeps (HasLog x.world.db.audit_log) pg otel p
            (λ span title description priority w h.
              create-log x.world.db.audit_log pg otel span title description priority w h)
            s start refl))

  -- POST /api/tickets/{id}/close leaves one row more in the audit log, of the principal, as
  -- ticket.close, with ok if the status that is answered is from 200 to 399 and error if it is 400
  -- or more; there is none only if the principal is no operator, the last statement of the request
  -- is not run, or the server does not accept a text of the entry.
  pub close-IsAudited :
      (r : Request) (x : Exchange)
      → IsAudited pg p
          (str "ticket.close")
          (middleware idp hmac a r)
          (serve pg otel p idp hmac a post_close r x).recorded
          (serve pg otel p idp hmac a post_close r x).world.calls
          x.world.db.audit_log
          (serve pg otel p idp hmac a post_close r x).world.db.audit_log
  unfolding serve route_handler close_ticket_handler
  close-IsAudited r x =
      let start = record x { recorded = 200 } in
      let s = middleware idp hmac a r in
      instrument-IsAudited (route_path post_close) (str "ticket.close")
        (require_mutate (auditing pg p (str "ticket.close") (close_ticket_handler pg))) s x
        (require_mutate-IsAudited pg p (str "ticket.close") s (close_ticket_handler pg) start
          (record {
            answer = close_parsed pg s (parse_int s.path_id) start;
            ended = refl;
            plain = close_parsed-IsPlain pg s (parse_int s.path_id) start refl;
          })
          (close_ticket_handler-Keeps (HasLog x.world.db.audit_log) pg
            (λ span id w h. set_status-log x.world.db.audit_log pg span id status_closed w h) s
            start refl))
