-- ===== src/Store/Exec.antt =====
-- Errors as values, PostgreSQL as the program meets it, and the state that a store method works on.
-- pgx and PostgreSQL are not part of the repository: what becomes of a statement that is sent is
-- the parameter `Pg`; what a statement does to the tables is read off its SQL text.
use projet_etude_app_demo.Prelude.{
  ℕ, suc, ℤ, Bytes, str, Bool, true, false, List, [], ◌∷◌, ◌++◌, Option, ◌≡◌, ◌∙◌, refl, ◌⊎◌, inl,
  inr, arith,
}
use projet_etude_app_demo.Model.{Time, Notice}
use projet_etude_app_demo.Metrics.{Effect, Span, observe_query_ctx}
use projet_etude_app_demo.Store.Db.{Db, keep_sequences}

-- pgx.ErrNoRows, store.ErrNotFound, errors.New, what the driver reports, and fmt.Errorf with %w.
pub data Error : Type 0 where
  no_rows not_found : Error
  message driver : Bytes → Error
  wrapped : Bytes → Error → Error

pub data Result {ℓ} (A : Type ℓ) : Type ℓ where
  ok : A → Result A
  err : Error → Result A

-- errors.Is(err, store.ErrNotFound)
abbrev pub is_not_found : Error → Bool
is_not_found not_found = true
is_not_found (wrapped _ e) = is_not_found e
is_not_found _ = false

-- errors.Is(err, pgx.ErrNoRows)
abbrev pub is_no_rows : Error → Bool
is_no_rows no_rows = true
is_no_rows (wrapped _ e) = is_no_rows e
is_no_rows _ = false

-- err.Error()
abbrev pub error_text : Error → Bytes
error_text no_rows = str "no rows in result set"
error_text not_found = str "not found"
error_text (message t) = t
error_text (driver t) = t
error_text (wrapped prefix e) = prefix ++ error_text e

-- The server ran the statement and its answer came back; the statement was not run; or it was run
-- and the answer was lost.
pub data Reply : Type 0 where
  answered : Reply
  refused lost : Bytes → Reply

-- The n-th statement that the process sends: what becomes of it, the time that `now()` gives, and
-- the rows that other transactions hold locked. Then the server's reading of text, of JSON
-- (`::jsonb`, printed again), of an interval that Go's Duration.String wrote (nanoseconds in,
-- microseconds out), and host(inet).
pub record Pg : Type 0 where
  pub reply : ℕ → Reply
  pub now : ℕ → Time
  pub locked : ℕ → ℕ → Bool
  pub accepts_text : Bytes → Bool
  pub jsonb : Bytes → Option Bytes
  pub interval : ℤ → ℤ
  pub host : Bytes → Bytes
  pub exemplars : Bool

-- `sent` holds the webhook requests that have gone out, with their URLs.
pub record World : Type 0 where
  pub db : Db
  pub sent : List (Bytes × Notice)
  pub calls : ℕ
  pub effects : List Effect

abbrev pub Exec {ℓ} : Type ℓ → Type ℓ
Exec A = World → Result A × World

abbrev pub pure {ℓ} : {A : Type ℓ} → A → Exec A
pure a w = (ok a, w)

abbrev pub raise {ℓ} : {A : Type ℓ} → Error → Exec A
raise e w = (err e, w)

abbrev pub emit : Effect → Exec (Unit {0})
emit e w = (ok tt, record w { effects = w.effects ++ e ∷ [] })

abbrev pub and_then {ℓ κ} :
    {A : Type ℓ} {B : Type κ} → Result A × World → (A → Exec B) → Result B × World
and_then (ok a, w) f = f a w
and_then (err e, w) f = (err e, w)

infixl 5 ◌>>=◌ ◌>>◌
abbrev pub ◌>>=◌ {ℓ κ} : {A : Type ℓ} {B : Type κ} → Exec A → (A → Exec B) → Exec B
◌>>=◌ m f w = and_then (m w) f

abbrev pub ◌>>◌ {ℓ} : {B : Type ℓ} → Exec (Unit {0}) → Exec B → Exec B
m >> k = m >>= λ _. k

-- `errors.Is(err, pgx.ErrNoRows)` becomes ErrNotFound.
abbrev pub rows_or_not_found {ℓ} : {A : Type ℓ} → Result A → Result A
rows_or_not_found (ok a) = ok a
rows_or_not_found (err e) = err (elim (is_no_rows e) [ true ↦ not_found | false ↦ e ])

abbrev pub map_result {ℓ} : {A : Type ℓ} → (Result A → Result A) → Exec A → Exec A
map_result f m w = let (r, w') = m w in (f r, w')

-- What a statement does at a time, with some rows locked by others.
abbrev pub Statement {ℓ} : Type ℓ → Type ℓ
Statement A = Time → (ℕ → Bool) → Db → Result A × Db

abbrev pub settle {ℓ} : {A : Type ℓ} → Reply → Result A × Db → World → Result A × World
settle answered (r, db) w = (r, record w { db = db })
settle (refused e) (r, db) w = (err (driver e), w)
settle (lost e) (r, db) w = (err (driver e), record w { db = db })

-- Pool.QueryRow, Pool.Query or Pool.Exec, or the same of a transaction that began at `at`.
unfoldable pub send_at {ℓ} : {A : Type ℓ} → Pg → Time → Statement A → Exec A
send_at pg at st w =
    settle (pg.reply w.calls) (st at (pg.locked w.calls) w.db) (record w { calls = suc w.calls })

unfoldable pub send {ℓ} : {A : Type ℓ} → Pg → Statement A → Exec A
unfolding send_at
send pg st w = send_at pg (pg.now w.calls) st w

-- BEGIN gives the time that now() has in the whole transaction.
abbrev begin : Statement Time
begin at locked db = (ok at, db)

abbrev commit : Statement (Unit {0})
commit at locked db = (ok tt, db)

abbrev rollback_to : Db → World → World
rollback_to base w = record w { db = keep_sequences base w.db }

-- COMMIT, sent from `w`. One whose answer is lost has committed.
abbrev pub commit_reply {ℓ} : {A : Type ℓ} → Reply → Db → A → World → Result A × World
commit_reply answered base a w = (ok a, w)
commit_reply (refused e) base a w = (err (driver e), rollback_to base w)
commit_reply (lost e) base a w = (err (driver e), w)

-- The end of a transaction: COMMIT after success, the deferred Rollback after any error.
abbrev pub end_of {ℓ} : {A : Type ℓ} → Pg → Db → Result A × World → Result A × World
end_of pg base (err e, w) = (err e, rollback_to base w)
end_of pg base (ok a, w) = commit_reply (pg.reply w.calls) base a (record w { calls = suc w.calls })

unfoldable pub transaction {ℓ} : {A : Type ℓ} → Pg → (Time → Exec A) → Exec A
unfolding send
transaction pg body w = and_then (send pg begin w) (λ at w'. end_of pg w.db (body at w'))

-- `defer s.timed(ctx, op, time.Now())`: the observation is made on every way out.
unfoldable pub timed {ℓ} : {A : Type ℓ} → Pg → Span → Bytes → Exec A → Exec A
unfolding observe_query_ctx
timed pg span op m w =
    let (r, w') = m w in
    (r, record w' { effects = w'.effects ++ observe_query_ctx pg.exemplars span op ∷ [] })

pub Reply-cases :
    (r : Reply) → ((r ≡ answered) ⊎ ((t : Bytes) × (r ≡ refused t))) ⊎ ((t : Bytes) × (r ≡ lost t))
Reply-cases answered = inl (inl refl)
Reply-cases (refused t) = inl (inr (t, refl))
Reply-cases (lost t) = inr (t, refl)

-- What the parts did, where a chain of steps succeeded.
pub and_then-eq-ok {ℓ κ} :
    {A : Type ℓ} {B : Type κ} (x : Result A × World) (f : A → Exec B) (b : B)
    → (and_then x f).0 ≡ ok b
    → (a : A) × (x.0 ≡ ok a) × ((f a x.1).0 ≡ ok b) × (and_then x f ≡ f a x.1)
and_then-eq-ok (ok a, w) f b h = (a, refl, h, refl)
and_then-eq-ok (err e, w) f b h = cc

pub send_at-eq-ok {ℓ} :
    {A : Type ℓ} (pg : Pg) (at : Time) (st : Statement A) (w : World) (a : A)
    → (send_at pg at st w).0 ≡ ok a
    → ((st at (pg.locked w.calls) w.db).0 ≡ ok a)
      × ((send_at pg at st w).1.db ≡ (st at (pg.locked w.calls) w.db).1)
unfolding send_at
send_at-eq-ok pg at st w a h = ground arith

pub err-ne-ok {ℓ} : {A : Type ℓ} {e : Error} {a : A} → ◌≡◌ {A = Result A} (err e) (ok a) → ⊥
err-ne-ok h = cc

-- A statement that is sent is run, or changes nothing.
pub send-db {ℓ} :
    {A : Type ℓ} (pg : Pg) (st : Statement A) (w : World)
    → ((send pg st w).1.db ≡ w.db)
      ⊎ ((send pg st w).1.db ≡ (st (pg.now w.calls) (pg.locked w.calls) w.db).1)
unfolding send
send-db pg st w = elim (Reply-cases (pg.reply w.calls)) [
  | inl (inl e) ↦ inr (rw (e, send_at))
  | inl (inr (t, e)) ↦ inl (rw (e, send_at))
  | inr (t, e) ↦ inr (rw (e, send_at))
]

-- A statement that only reads.
pub send-db_of_read {ℓ} :
    {A : Type ℓ} (pg : Pg) (st : Statement A) (w : World)
    → ((at : Time) (locked : ℕ → Bool) (db : Db) → (st at locked db).1 ≡ db)
    → (send pg st w).1.db ≡ w.db
send-db_of_read pg st w reads = elim (send-db pg st w) [
  | inl same ↦ same
  | inr ran ↦ ran ∙ reads (pg.now w.calls) (pg.locked w.calls) w.db
]

pub send-eq-ok {ℓ} :
    {A : Type ℓ} (pg : Pg) (st : Statement A) (w : World) (a : A)
    → (send pg st w).0 ≡ ok a
    → ((st (pg.now w.calls) (pg.locked w.calls) w.db).0 ≡ ok a)
      × ((send pg st w).1.db ≡ (st (pg.now w.calls) (pg.locked w.calls) w.db).1)
unfolding send
send-eq-ok pg st w a h = send_at-eq-ok pg (pg.now w.calls) st w a h
