-- ===== src/Store/Tickets/Closing.antt =====
-- SetTicketStatus of internal/store/tickets.go: which row it changes.

use projet_etude_app_demo.Prelude.{◌≡◌, true, false, ℤ, is_nat, List, ◌∷◌, ◌++◌, All}
use projet_etude_app_demo.Model.{Time, Ticket, Status}
use projet_etude_app_demo.Store.Db.{Db}
use projet_etude_app_demo.Store.Exec.{Result, ok, err, not_found}
use projet_etude_app_demo.Store.Tickets.{with_status}

-- The row at which the list is changed, and what is before and behind it.
pub record IsChanged (id : ℤ) (status : Status) (at : Time) (before after : List Ticket)
    (t : Ticket) : Type 0 where
  pub old : Ticket
  pub front : List Ticket
  pub back : List Ticket
  pub named : is_nat id old.id ≡ true
  pub passed : All (λ u. is_nat id u.id ≡ false) front
  pub was : before ≡ front ++ old ∷ back
  pub is : after ≡ front ++ t ∷ back
  pub changed : t ≡ with_status status at old

-- What an answer of the statement, or of the method, says of the tables.
abbrev pub IsClosingAnswer : ℤ → Status → Time → Db → Result Ticket → Db → Type 0
IsClosingAnswer id status at before (ok t) after =
    IsChanged id status at before.tickets after.tickets t
    × ((after.jobs ≡ before.jobs) × (after.audit_log ≡ before.audit_log))
IsClosingAnswer id status at before (err not_found) after =
    All (λ u. is_nat id u.id ≡ false) before.tickets × (after ≡ before)
IsClosingAnswer id status at before (err e) after = Unit {0}
