-- ===== src/Boot/Api/Releases.antt =====
-- What run of cmd/api/main.go has given back when it returns.
use projet_etude_app_demo.Prelude.{
  ◌⊎◌, inl, inr, ◌≡◌, refl, Bool, true, false, Bytes, str, List, [], ◌∷◌, Option, none, some,
  if◌then◌else◌,
}
use projet_etude_app_demo.Metrics.{Span}
use projet_etude_app_demo.Auth.{Config, Authenticator, config_from_env, or_default, new}
use projet_etude_app_demo.Worker.Steps.{Result-cases}
use projet_etude_app_demo.Store.Exec.{Error, Result, ok, err}
use projet_etude_app_demo.Store.Schema.{Catalog, migrate}
use projet_etude_app_demo.Http.Login.{Login, new_login}
use projet_etude_app_demo.Http.Handlers.{refresh_open_gauge}
use projet_etude_app_demo.Boot.Open.{
  Opened, opened, rejected, gave_up, KeepsTime, open_pool-IsPunctual,
}
use projet_etude_app_demo.Boot.Telemetry.{Provider, setup}
use projet_etude_app_demo.Boot.Api.{
  Resource, signals, tracer, pool, Act, acquired, released, listening, shut_down, Site, Ending,
  server_failed, signalled, Host, Run, did, deferring, after_migrate, migrated, connected, traced,
  telemetry_config, prepared, served, logged_in, authenticating, api_body, default_dsn, api_run,
}

unfoldable pub same_resource : Resource → Resource → Bool
same_resource signals signals = true
same_resource tracer tracer = true
same_resource pool pool = true
same_resource _ _ = false

abbrev pub popped : Resource → List Resource → Option (List Resource)
popped r [] = none
popped r (q ∷ qs) = if same_resource r q then some qs else none

abbrev pub acted : Act → Option (List Resource) → Option (List Resource)
acted a none = none
acted (acquired r) (some rs) = some (r ∷ rs)
acted (released r) (some rs) = popped r rs
acted listening (some rs) = some rs
acted shut_down (some rs) = some rs

-- The resources that are held after a log, the latest first; none if one was released out of order.
unfoldable pub held_after : List Act → Option (List Resource)
unfolding same_resource
held_after [] = some []
held_after (a ∷ log) = acted a (held_after log)

-- A run that holds at its end what it held at its start.
abbrev pub IsNeutral : Run → Type 0
IsNeutral body =
    (s : Site) (rs : List Resource)
    → held_after s.log ≡ some rs
    → held_after (body s).1.log ≡ some rs

same_resource_refl : (r : Resource) → same_resource r r ≡ true
unfolding same_resource
same_resource_refl signals = refl
same_resource_refl tracer = refl
same_resource_refl pool = refl

deferring-IsNeutral : (r : Resource) (body : Run) → IsNeutral body → IsNeutral (deferring r body)
unfolding deferring held_after
deferring-IsNeutral r body n s rs h =
    rw (n (did (acquired r) s) (r ∷ rs) (rw h refl), same_resource_refl r, held_after) refl

migrated-IsNeutral : (h : Host) (body : Run) → IsNeutral body → IsNeutral (migrated h body)
unfolding migrated
migrated-IsNeutral h body n s rs k = after (migrate h.pg h.first_call s.catalog)
  where
    after : (x : Result (Unit {0}) × Catalog) → held_after (after_migrate body x s).1.log ≡ some rs
    after (err e, c) = k
    after (ok u, c) = n (record s { catalog = c }) rs k

connected-IsNeutral : (o : Opened) (body : Run) → IsNeutral body → IsNeutral (connected o body)
unfolding connected held_after same_resource
connected-IsNeutral (opened cfg at) body n s rs h = deferring-IsNeutral pool body n s rs h
connected-IsNeutral (rejected e) body n s rs h = h
connected-IsNeutral (gave_up e at) body n s rs h = rw h refl

traced-IsNeutral : (p : Result Provider) (body : Run) → IsNeutral body → IsNeutral (traced p body)
unfolding traced
traced-IsNeutral (err e) body n s rs h = h
traced-IsNeutral (ok p) body n s rs h = deferring-IsNeutral tracer body n s rs h

pub prepared-IsNeutral :
    (name : Bytes) (h : Host) (o : Opened) (body : Run)
    → IsNeutral body
    → IsNeutral (prepared name h o body)
unfolding prepared
prepared-IsNeutral name h o body n =
    deferring-IsNeutral signals
      (traced (setup h.sdk (telemetry_config name)) (connected o (migrated h body)))
      (traced-IsNeutral (setup h.sdk (telemetry_config name)) (connected o (migrated h body))
        (connected-IsNeutral o (migrated h body) (migrated-IsNeutral h body n)))

served-IsNeutral : (e : Ending) → IsNeutral (served e)
unfolding served held_after
served-IsNeutral (server_failed e) s rs h = rw h refl
served-IsNeutral signalled s rs h = rw h refl

authenticating-IsNeutral :
    (h : Host) (cfg : Config) (a : Result Authenticator) → IsNeutral (authenticating h cfg a)
authenticating-IsNeutral h cfg (err e) s rs k = k
authenticating-IsNeutral h cfg (ok a) s rs k = entered (new_login h.idp cfg)
  where
    entered : (l : Result Login) → held_after (logged_in h.ending l s).1.log ≡ some rs
    entered (err e) = k
    entered (ok l) = served-IsNeutral h.ending s rs k

api_body-IsNeutral : (h : Host) (span : Span) → IsNeutral (api_body h span)
unfolding api_body
api_body-IsNeutral h span s rs k =
    let cfg = config_from_env h.sdk.getenv in
    authenticating-IsNeutral h cfg (new h.idp cfg)
      (record s { world = refresh_open_gauge h.pg span s.world }) rs k

-- A run that returns nil only after a signal.
abbrev pub IsSignalled : Ending → Run → Type 0
IsSignalled ending body = (s : Site) → (body s).0 ≡ ok tt → ending ≡ signalled

migrated-IsSignalled :
    (h : Host) (body : Run) → IsSignalled h.ending body → IsSignalled h.ending (migrated h body)
unfolding migrated
migrated-IsSignalled h body n s = after (migrate h.pg h.first_call s.catalog)
  where
    after :
        (x : Result (Unit {0}) × Catalog)
        → (after_migrate body x s).0 ≡ ok tt
        → h.ending ≡ signalled
    after (err e, c) k = cc
    after (ok u, c) k = n (record s { catalog = c }) k

connected-IsSignalled :
    (z : Ending) (o : Opened) (body : Run) → IsSignalled z body → IsSignalled z (connected o body)
unfolding connected deferring
connected-IsSignalled z (opened cfg at) body n s k = n (did (acquired pool) s) k
connected-IsSignalled z (rejected e) body n s k = cc
connected-IsSignalled z (gave_up e at) body n s k = cc

traced-IsSignalled :
    (z : Ending) (p : Result Provider) (body : Run)
    → IsSignalled z body
    → IsSignalled z (traced p body)
unfolding traced deferring
traced-IsSignalled z (err e) body n s k = cc
traced-IsSignalled z (ok p) body n s k = n (did (acquired tracer) s) k

prepared-IsSignalled :
    (name : Bytes) (h : Host) (o : Opened) (body : Run)
    → IsSignalled h.ending body
    → IsSignalled h.ending (prepared name h o body)
unfolding prepared deferring
prepared-IsSignalled name h o body n s k =
    traced-IsSignalled h.ending (setup h.sdk (telemetry_config name))
      (connected o (migrated h body))
      (connected-IsSignalled h.ending o (migrated h body) (migrated-IsSignalled h body n))
      (did (acquired signals) s) k

served-IsSignalled : (z : Ending) → IsSignalled z (served z)
unfolding served
served-IsSignalled (server_failed e) s k = cc
served-IsSignalled signalled s k = refl

authenticating-IsSignalled :
    (h : Host) (cfg : Config) (a : Result Authenticator)
    → IsSignalled h.ending (authenticating h cfg a)
authenticating-IsSignalled h cfg (err e) s k = cc
authenticating-IsSignalled h cfg (ok a) s k = entered (new_login h.idp cfg) k
  where
    entered : (l : Result Login) → (logged_in h.ending l s).0 ≡ ok tt → h.ending ≡ signalled
    entered (err e) k = cc
    entered (ok l) k = served-IsSignalled h.ending s k

api_body-IsSignalled : (h : Host) (span : Span) → IsSignalled h.ending (api_body h span)
unfolding api_body
api_body-IsSignalled h span s k =
    let cfg = config_from_env h.sdk.getenv in
    authenticating-IsSignalled h cfg (new h.idp cfg)
      (record s { world = refresh_open_gauge h.pg span s.world }) k

-- With a driver that keeps time, run of cmd/api returns, whatever its parts answer; it has then
-- released what it acquired, in the reverse order; and it returns an error, or a signal has ended
-- it.
pub api_run_outcome :
    (h : Host) (span : Span) (s : Site) (rs : List Resource)
    → KeepsTime h.driver
    → held_after s.log ≡ some rs
    → (r : Result (Unit {0})) × (t : Site) × (api_run h span s ≡ some (r, t))
      × (held_after t.log ≡ some rs)
      × ((h.ending ≡ signalled) ⊎ ((e : Error) × (r ≡ err e)))
unfolding api_run
api_run_outcome h span s rs time k =
    let name = str "projet-etude-app-demo-api" in
    let (o, ran, _) =
      open_pool-IsPunctual h.driver (or_default (h.sdk.getenv (str "DATABASE_URL")) default_dsn)
        time in
    (
      (prepared name h o (api_body h span) s).0,
      (prepared name h o (api_body h span) s).1,
      rw ran refl,
      prepared-IsNeutral name h o (api_body h span) (api_body-IsNeutral h span) s rs k,
      elim (Result-cases (prepared name h o (api_body h span) s).0) [
        | inr (e, failed) ↦ inr (e, failed)
        | inl (u, ended) ↦
            inl (
              prepared-IsSignalled name h o (api_body h span) (api_body-IsSignalled h span) s ended)
      ],
    )
