-- ===== src/Examples/Starts.antt =====
-- The start of the processes: the pool, the migrations and the API.
use projet_etude_app_demo.Prelude.{
  ◌+◌, leb, ◌==◌, ◌&&◌, ◌≡◌, ◌⊎◌, refl, str, List, [], Bool, true, false, some, none, if◌then◌else◌,
  arith,
}
use projet_etude_app_demo.Store.Exec.{Error, message, Result, ok, err, Pg, answered, refused}
use projet_etude_app_demo.Store.Schema.{Ddl, Catalog, migrations}
use projet_etude_app_demo.Store.Schema.Recovery.{complete, run_all}
use projet_etude_app_demo.Store.Schema.Race.{Interleaving, racing_migrations}
use projet_etude_app_demo.Store.Schema.{trigger_exists}
use projet_etude_app_demo.Boot.Open.{
  Driver, Opened, pool_config, open_pool, KeepsTime, IsPunctual, open_pool-IsPunctual,
}
use projet_etude_app_demo.Boot.Api.{Host, Site, signalled, api_run}
use projet_etude_app_demo.Boot.Api.Releases.{held_after, api_run_outcome}
use projet_etude_app_demo.Examples.{pg, idp, world}

abbrev ping_reply : Bool → Result (Unit {0})
ping_reply true = ok tt
ping_reply false = err (message (str "context deadline exceeded"))

-- PostgreSQL answers from the third ping on.
abbrev driver : Driver
driver = record {
  parse_config = λ dsn. ok tt;
  new_with_config = λ cfg. ok tt;
  ping = λ expiry n at. (ping_reply (leb 2 n && leb at expiry), at);
  wake = λ duration n at. at + duration;
}

driver-KeepsTime : KeepsTime driver
driver-KeepsTime = record {
  pings = λ expiry n at. omega arith;
  sleeps = λ duration n at. omega arith;
  expires = λ expiry n at u e. ground (arith, e);
}

open_pool-IsPunctual_example :
    (r : Opened) × (open_pool driver (str "dsn") ≡ some r) × IsPunctual (pool_config (str "dsn")) r
open_pool-IsPunctual_example = open_pool-IsPunctual driver (str "dsn") driver-KeepsTime

abbrev nothing : Catalog
nothing = record {
  tickets = false;
  tickets_index = false;
  jobs = false;
  jobs_ready_index = false;
  trace_context = false;
  audit_log = false;
  audit_ts_index = false;
  audit_user_index = false;
  notify_jobs = false;
  jobs_notify = false;
}

-- The connection breaks at the third statement.
abbrev broken : Pg
broken = record pg { reply = λ n. if n == 2 then refused (str "gone") else answered }

racing_migrations_example :
    ((zs : List Ddl) × Interleaving migrations migrations zs × (run_all zs nothing ≡ ok complete))
    × ((zs : List Ddl) × Interleaving migrations migrations zs
        × (run_all zs nothing ≡ err trigger_exists))
racing_migrations_example = racing_migrations nothing

abbrev host : Host
host = record {
  sdk = record { getenv = λ name. []; new_resource = λ attrs. ok tt; new_exporter = ok tt };
  driver = driver;
  pg = pg;
  first_call = 0;
  idp = idp;
  ending = signalled;
}

abbrev site : Site
site = record { log = []; catalog = nothing; world = world }

api_run_outcome_example :
    (r : Result (Unit {0})) × (t : Site) × (api_run host none site ≡ some (r, t))
    × (held_after t.log ≡ some [])
    × ((host.ending ≡ signalled) ⊎ ((e : Error) × (r ≡ err e)))
unfolding held_after
api_run_outcome_example = api_run_outcome host none site [] driver-KeepsTime refl
