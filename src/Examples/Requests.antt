-- ===== src/Examples/Requests.antt =====
-- The theorems on requests, at the creation of a ticket.
use projet_etude_app_demo.Prelude.{cut_prefix, str_eq, ◌≡◌, ◌≢◌, refl, str}
use projet_etude_app_demo.Request.{operator, viewer}
use projet_etude_app_demo.Auth.{
  resolved, middleware, principal_from_request, verify_and_map, principal_of_token, role_of,
  contains,
}
use projet_etude_app_demo.Store.Invariant.{IsValid, empty_db-IsValid}
use projet_etude_app_demo.Http.Exchange.{Exchange}
use projet_etude_app_demo.Http.Routes.{post_tickets, post_close, serve}
use projet_etude_app_demo.Http.Access.{only_operators_write}
use projet_etude_app_demo.Http.AuditTrail.{IsAudited, create-IsAudited, close-IsAudited}
use projet_etude_app_demo.Http.Valid.{serve-IsValid}
use projet_etude_app_demo.Examples.{
  pg, otel, platform, idp, hmac, authenticator, open_authenticator, exchange, request, headers,
}

resolved_viewer : (resolved idp hmac authenticator request).role ≡ viewer
unfolding headers resolved principal_from_request verify_and_map principal_of_token role_of contains
    cut_prefix str_eq
resolved_viewer = refl

resolved_reader : (resolved idp hmac authenticator request).role ≢ operator
resolved_reader e = cc (resolved_viewer, e)

only_operators_write_example :
    (serve pg otel platform idp hmac authenticator post_tickets request exchange).world.db
    ≡ exchange.world.db
only_operators_write_example =
    only_operators_write pg otel platform idp hmac authenticator post_tickets request exchange
      resolved_reader

abbrev created : Exchange
created = serve pg otel platform idp hmac open_authenticator post_tickets request exchange

create-IsAudited_example :
    IsAudited pg platform
      (str "ticket.create")
      (middleware idp hmac open_authenticator request)
      created.recorded
      created.world.calls
      exchange.world.db.audit_log
      created.world.db.audit_log
create-IsAudited_example =
    create-IsAudited pg otel platform idp hmac open_authenticator request exchange

abbrev closed : Exchange
closed = serve pg otel platform idp hmac open_authenticator post_close request created

close-IsAudited_example :
    IsAudited pg platform
      (str "ticket.close")
      (middleware idp hmac open_authenticator request)
      closed.recorded
      closed.world.calls
      created.world.db.audit_log
      closed.world.db.audit_log
close-IsAudited_example =
    close-IsAudited pg otel platform idp hmac open_authenticator request created

serve-IsValid_example : IsValid created.world.db
serve-IsValid_example =
    serve-IsValid pg otel platform idp hmac open_authenticator post_tickets request exchange
      empty_db-IsValid
