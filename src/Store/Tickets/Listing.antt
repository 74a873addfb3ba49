-- ===== src/Store/Tickets/Listing.antt =====
-- ListTickets of internal/store/tickets.go: which rows it returns, and in which order.
use projet_etude_app_demo.Prelude.{
  ℕ, ◌+◌, ◌≤◌, ◌≡◌, refl, subst, Bool, Bool-cases, ◌&&◌, ℤ, leb_ℤ, ◌≤ℤ◌, List, [], ◌∷◌, All,
  All-weaken, select, count_if, take, length, length-take-le, inl, inr, arith,
}
use projet_etude_app_demo.Model.{Ticket, Status}
use projet_etude_app_demo.Metrics.{Span}
use projet_etude_app_demo.Store.Db.{Db}
use projet_etude_app_demo.Store.Exec.{Pg, World, Result, ok, err, send-eq-ok, timed}
use projet_etude_app_demo.Store.Tickets.{
  insert_desc, order_desc, has_status, select_tickets, list_tickets,
}

-- The newest ticket comes first.
abbrev pub Descending : List Ticket → Type 0
Descending [] = Unit {0}
Descending (t ∷ ts) = All (λ u. u.created_at ≤ℤ t.created_at) ts × Descending ts

le_trans : (a b c : ℤ) → a ≤ℤ b → b ≤ℤ c → a ≤ℤ c
le_trans a b c p q = omega arith

insert_desc-All :
    (P : Ticket → Type 0) (t : Ticket) (us : List Ticket)
    → P t
    → All P us
    → All P (insert_desc t us)
unfolding insert_desc
insert_desc-All P t [] p h = (p, tt)
insert_desc-All P t (u ∷ us) p (q, h) = elim (Bool-cases (leb_ℤ u.created_at t.created_at)) [
  | inl le ↦ rw le (p, (q, h))
  | inr gt ↦ rw gt (q, insert_desc-All P t us p h)
]

insert_desc-Descending :
    (t : Ticket) (us : List Ticket) → Descending us → Descending (insert_desc t us)
unfolding insert_desc
insert_desc-Descending t [] h = (tt, tt)
insert_desc-Descending t (u ∷ us) (below, h) = elim (Bool-cases (leb_ℤ u.created_at t.created_at)) [
  | inl le ↦ rw le (
    (
      ground arith,
      All-weaken (λ v p. le_trans v.created_at u.created_at t.created_at p (ground arith)) us below,
    ),
    (below, h),
  )
  | inr gt ↦ rw gt (
    insert_desc-All (λ v. v.created_at ≤ℤ u.created_at) t us (ground arith) below,
    insert_desc-Descending t us h,
  )
]

order_desc-Descending :
    (sorted ts : List Ticket) → Descending sorted → Descending (order_desc sorted ts)
unfolding order_desc
order_desc-Descending sorted [] h = h
order_desc-Descending sorted (t ∷ ts) h =
    order_desc-Descending (insert_desc t sorted) ts (insert_desc-Descending t sorted h)

module _ (p : Ticket → Bool) where
  count-insert_desc :
      (t : Ticket) (us : List Ticket) → count_if p (insert_desc t us) ≡ count_if p (t ∷ us)
  unfolding insert_desc
  count-insert_desc t [] = refl
  count-insert_desc t (u ∷ us) = ground (arith, count-insert_desc t us)

  count-order_desc :
      (sorted ts : List Ticket)
      → count_if p (order_desc sorted ts) ≡ count_if p sorted + count_if p ts
  unfolding order_desc
  count-order_desc sorted [] = omega arith
  count-order_desc sorted (t ∷ ts) =
      ground (arith, count-order_desc (insert_desc t sorted) ts, count-insert_desc t sorted)

  count-select :
      (q : Ticket → Bool) (ts : List Ticket)
      → count_if p (select q ts) ≡ count_if (λ t. q t && p t) ts
  count-select q [] = refl
  count-select q (t ∷ ts) = ground (arith, count-select q ts)

-- The first 200 of all rows with the status, newest first; each test holds of as many of `matching` as
-- of the rows of the table with the status.
pub record IsListing (status : Status) (tickets listed : List Ticket) : Type 0 where
  pub matching : List Ticket
  pub rows :
      (p : Ticket → Bool) → count_if p matching ≡ count_if (λ t. has_status status t && p t) tickets
  pub descending : Descending matching
  pub first : listed ≡ take 200 matching
  pub short : length listed ≤ 200

order_desc-IsListing :
    (status : Status) (tickets : List Ticket)
    → IsListing status tickets (take 200 (order_desc [] (select (has_status status) tickets)))
order_desc-IsListing status tickets = record {
  matching = order_desc [] (select (has_status status) tickets);
  rows = λ p. omega (
    arith,
    count-order_desc p [] (select (has_status status) tickets),
    count-select p (has_status status) tickets,
  );
  descending = order_desc-Descending [] (select (has_status status) tickets) tt;
  first = refl;
  short = length-take-le 200 (order_desc [] (select (has_status status) tickets));
}

abbrev IsListingAnswer : Status → List Ticket → Result (List Ticket) → Type 0
IsListingAnswer status tickets (ok ts) = IsListing status tickets ts
IsListingAnswer status tickets (err e) = Unit {0}

select_tickets-IsListingAnswer :
    (pg : Pg) (status : Status) (at : ℤ) (locked : ℕ → Bool) (db : Db)
    → IsListingAnswer status db.tickets (select_tickets pg status at locked db).0
unfolding select_tickets
select_tickets-IsListingAnswer pg status at locked db = elim (Bool-cases (pg.accepts_text status)) [
  | inr bad ↦ rw (bad, select_tickets) tt
  | inl good ↦ rw (good, select_tickets) (order_desc-IsListing status db.tickets)
]

module _ (pg : Pg) (span : Span) (status : Status) (w : World) where
  -- If ListTickets succeeds it returns the first 200 of a list in which created_at never grows,
  -- and which has as many rows that pass a test as the table has rows with the status that pass
  -- it, for every test.
  pub list_tickets-IsListing :
      (ts : List Ticket)
      → (list_tickets pg span status w).0 ≡ ok ts
      → IsListing status w.db.tickets ts
  unfolding list_tickets timed
  list_tickets-IsListing ts h =
      subst (IsListingAnswer status w.db.tickets)
        (send-eq-ok pg (select_tickets pg status) w ts h).0
        (select_tickets-IsListingAnswer pg status (pg.now w.calls) (pg.locked w.calls) w.db)
