-- ===== src/Store/Audit.antt =====
-- internal/store/audit.go. net.ParseIP with IP.String is the parameter `canonical_ip`.
pub mod Page
use projet_etude_app_demo.Prelude.{
  ℕ, suc, ◌==◌, ltb, ℤ, pos, negsuc, leb_ℤ, ltb_ℤ, ◌-ℤ◌, Bool, not, ◌&&◌, ◌||◌, Bytes, str, List,
  [], ◌∷◌, ◌++◌, map, select, count_if, take, Option, none, some, if◌then◌else◌,
}
use projet_etude_app_demo.Model.{Time, AuditEntry}
use projet_etude_app_demo.Metrics.{Span}
use projet_etude_app_demo.Store.Db.{AuditRow, result_check}
use projet_etude_app_demo.Store.Exec.{driver, ok, err, Pg, Statement, Exec, send, timed}

unfoldable pub nullable : Bytes → Option Bytes
nullable [] = none
nullable (c ∷ s) = some (c ∷ s)

-- COALESCE(column, '')
abbrev pub coalesce : Option Bytes → Bytes
coalesce none = []
coalesce (some s) = s

-- The `ipText` of WriteAudit: NULL unless the text is an address.
abbrev pub ip_text : (Bytes → Option Bytes) → Bytes → Option Bytes
ip_text canonical_ip [] = none
ip_text canonical_ip (c ∷ s) = canonical_ip (c ∷ s)

unfoldable pub audit_row : (Bytes → Option Bytes) → AuditEntry → ℕ → Time → AuditRow
unfolding nullable
audit_row canonical_ip e id at = record {
  id = id;
  ts = at;
  user_sub = e.user_sub;
  user_email = nullable e.user_email;
  action = e.action;
  resource_type = nullable e.resource_type;
  resource_id = nullable e.resource_id;
  ip = ip_text canonical_ip e.ip;
  user_agent = nullable e.user_agent;
  trace_id = nullable e.trace_id;
  result = e.result;
}

-- The texts of an entry that the server has to accept.
abbrev pub texts_accepted : Pg → AuditEntry → Bool
texts_accepted pg e =
    pg.accepts_text e.user_sub
    && pg.accepts_text e.user_email
    && pg.accepts_text e.action
    && pg.accepts_text e.resource_type
    && pg.accepts_text e.resource_id
    && pg.accepts_text e.user_agent
    && pg.accepts_text e.trace_id
    && pg.accepts_text e.result

unfoldable pub insert_audit : Pg → (Bytes → Option Bytes) → AuditEntry → Statement (Unit {0})
unfolding audit_row result_check
insert_audit pg canonical_ip e at locked db =
    if texts_accepted pg e
    then (if result_check e.result
        then (
          ok tt,
          record db {
            audit_seq = suc db.audit_seq;
            audit_log = db.audit_log ++ audit_row canonical_ip e (suc db.audit_seq) at ∷ [];
          },
        )
        else (err (driver (str "check")), record db { audit_seq = suc db.audit_seq }))
    else (err (driver (str "text")), db)

unfoldable pub write_audit : Pg → (Bytes → Option Bytes) → Span → AuditEntry → Exec (Unit {0})
unfolding timed send insert_audit
write_audit pg canonical_ip span e =
    timed pg span (str "audit_write") (send pg (insert_audit pg canonical_ip e))

-- A limit out of range is replaced by 100.
unfoldable pub clamp_limit : ℤ → ℕ
clamp_limit (negsuc n) = 100
clamp_limit (pos n) = if n == 0 || ltb 500 n then 100 else n

-- ORDER BY ts DESC, rows of equal times newest first.
unfoldable pub insert_row_desc : AuditRow → List AuditRow → List AuditRow
insert_row_desc r [] = r ∷ []
insert_row_desc r (q ∷ qs) = if leb_ℤ q.ts r.ts then r ∷ q ∷ qs else q ∷ insert_row_desc r qs

unfoldable pub order_rows_desc : List AuditRow → List AuditRow → List AuditRow
unfolding insert_row_desc
order_rows_desc sorted [] = sorted
order_rows_desc sorted (r ∷ rs) = order_rows_desc (insert_row_desc r sorted) rs

-- The SELECT list, and the scan into an AuditEntry.
unfoldable pub to_entry : Pg → AuditRow → AuditEntry
to_entry pg r = record {
  id = r.id;
  timestamp = r.ts;
  user_sub = r.user_sub;
  user_email = coalesce r.user_email;
  action = r.action;
  resource_type = coalesce r.resource_type;
  resource_id = coalesce r.resource_id;
  ip = elim r.ip [ none ↦ [] | some a ↦ pg.host a ];
  user_agent = coalesce r.user_agent;
  trace_id = coalesce r.trace_id;
  result = r.result;
}

unfoldable pub select_audit : Pg → ℕ → Statement (List AuditEntry)
unfolding order_rows_desc to_entry
select_audit pg limit at locked db =
    (ok (map (to_entry pg) (take limit (order_rows_desc [] db.audit_log))), db)

unfoldable pub list_audit : Pg → Span → ℤ → Exec (List AuditEntry)
unfolding timed send select_audit clamp_limit
list_audit pg span limit =
    timed pg span (str "audit_list") (send pg (select_audit pg (clamp_limit limit)))

-- ts < now() - $1::interval
abbrev pub is_older : Pg → ℤ → Time → AuditRow → Bool
is_older pg d at r = ltb_ℤ r.ts (at -ℤ pg.interval d)

unfoldable pub delete_audit : Pg → ℤ → Statement ℕ
delete_audit pg d at locked db = (
  ok (count_if (is_older pg d at) db.audit_log),
  record db { audit_log = select (λ r. not (is_older pg d at r)) db.audit_log },
)

unfoldable pub purge_audit_older_than : Pg → Span → ℤ → Exec ℕ
unfolding timed send delete_audit
purge_audit_older_than pg span d = timed pg span (str "audit_purge") (send pg (delete_audit pg d))
