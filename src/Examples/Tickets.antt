-- ===== src/Examples/Tickets.antt =====
-- The theorems on the listing and the closing of tickets, at a table with one ticket.
use projet_etude_app_demo.Prelude.{◌≡◌, refl, pos, str, str_eq, [], ◌∷◌, none}
use projet_etude_app_demo.Model.{Ticket}
use projet_etude_app_demo.Store.Db.{empty_db}
use projet_etude_app_demo.Store.Exec.{World, ok, send, timed}
use projet_etude_app_demo.Store.Tickets.{list_tickets, select_tickets, order_desc, insert_desc}
use projet_etude_app_demo.Store.Tickets.Listing.{IsListing, list_tickets-IsListing}
use projet_etude_app_demo.Examples.{pg, world}

abbrev ticket : Ticket
ticket = record {
  id = 1;
  title = str "disk";
  description = [];
  priority = str "high";
  status = str "open";
  created_at = pos 1;
  updated_at = pos 1;
}

abbrev ticket_world : World
ticket_world = record world { db = record empty_db { tickets = ticket ∷ []; ticket_seq = 1 } }

listed_test : (list_tickets pg none (str "open") ticket_world).0 ≡ ok (ticket ∷ [])
unfolding list_tickets timed send select_tickets order_desc insert_desc str_eq
listed_test = refl

list_tickets-IsListing_example : IsListing (str "open") (ticket ∷ []) (ticket ∷ [])
list_tickets-IsListing_example =
    list_tickets-IsListing pg none (str "open") ticket_world (ticket ∷ []) listed_test
