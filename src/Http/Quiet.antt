-- ===== src/Http/Quiet.antt =====
-- The handlers of internal/auth/login.go and internal/httpapi/chaos.go, and what they do with the
-- world of the store.
use projet_etude_app_demo.Prelude.{
  ◌≡◌, refl, sym, ◌∙◌, subst, Bool-cases, Bytes, str, Option, none, some, Option-cases, inl, inr,
  arith,
}
use projet_etude_app_demo.Request.{Request}
use projet_etude_app_demo.Auth.{Idp, IdToken}
use projet_etude_app_demo.Store.Db.{Db}
use projet_etude_app_demo.Store.Exec.{Result, ok, err, World}
use projet_etude_app_demo.Http.Exchange.{
  Header, Exchange, Handler, write_header, write, http_error, add_header, redirect,
}
use projet_etude_app_demo.Http.Input.{Platform, Oauth}
use projet_etude_app_demo.Http.Login.{
  Login, start_handler, callback_handler, logout_handler, verified, exchanged, state_matches,
}
use projet_etude_app_demo.Http.Chaos.{
  chaos_guard, chaos_enabled, slow_handler, flaky_handler, panic_handler, crash_handler,
  memleak_handler, memleak_reset_handler, work_handler,
}
use projet_etude_app_demo.Http.Keeps.{end_of_flow, KeepsHandler}

-- A handler that does nothing with the store, whatever it answers.
abbrev pub IsQuiet : Handler → Type 0
IsQuiet h = (r : Request) (x : Exchange) → (end_of_flow (h r x)).world ≡ x.world

pub IsQuiet-Keeps : (P : Db → Type 0) (h : Handler) → IsQuiet h → KeepsHandler P h
IsQuiet-Keeps P h quiet r x p = subst (λ (w : World). P w.db) (sym (quiet r x)) p

add_header-world : (h : Header) (x : Exchange) → (add_header h x).world ≡ x.world
unfolding add_header
add_header-world h x = elim (Option-cases x.wire) [
  | inl fresh ↦ rw (fresh, add_header)
  | inr (code, sent) ↦ rw (sent, add_header)
]

redirect-world : (url : Bytes) (x : Exchange) → (redirect url x).world ≡ x.world
unfolding redirect write write_header
redirect-world url x = add_header-world _ x

pub start_handler-IsQuiet : (l : Login) (oauth : Oauth) → IsQuiet (start_handler l oauth)
unfolding start_handler http_error write write_header
start_handler-IsQuiet l oauth r x = elim (Bool-cases l.cfg.enabled) [
  | inr off ↦ rw (off, start_handler)
  | inl on ↦ rw (on, start_handler) (redirect-world _ _ ∙ add_header-world _ x)
]

verified-world :
    (l : Login) (hmac : Bytes → Bytes → Bytes) (r : Request) (raw : Bytes) (v : Result IdToken)
    (x : Exchange)
    → (verified l hmac r raw v x).world ≡ x.world
unfolding http_error write write_header
verified-world l hmac r raw (err e) x = refl
verified-world l hmac r raw (ok tok) x = redirect-world _ _ ∙ add_header-world _ x

exchanged-world :
    (l : Login) (idp : Idp) (hmac : Bytes → Bytes → Bytes) (r : Request) (t : Result (Option Bytes))
    (x : Exchange)
    → (exchanged l idp hmac r t x).world ≡ x.world
unfolding http_error write write_header
exchanged-world l idp hmac r (err e) x = refl
exchanged-world l idp hmac r (ok none) x = refl
exchanged-world l idp hmac r (ok (some raw)) x = verified-world l hmac r raw (idp.verify raw) x

pub callback_handler-IsQuiet :
    (l : Login) (oauth : Oauth) (idp : Idp) (hmac : Bytes → Bytes → Bytes)
    → IsQuiet (callback_handler l oauth idp hmac)
unfolding callback_handler http_error write write_header
callback_handler-IsQuiet l oauth idp hmac r x = elim (Bool-cases l.cfg.enabled) [
  | inr off ↦ rw (off, callback_handler)
  | inl on ↦ elim (Bool-cases (state_matches r)) [
    | inr bad ↦ rw (on, bad, callback_handler)
    | inl good ↦
        rw (on, good, callback_handler)
          (exchanged-world l idp hmac r (oauth.exchange (r.query (str "code"))) _
            ∙ add_header-world _ x)
  ]
]

pub logout_handler-IsQuiet : IsQuiet logout_handler
unfolding logout_handler
logout_handler-IsQuiet r x = redirect-world _ _ ∙ add_header-world _ x

pub slow_handler-IsQuiet : IsQuiet slow_handler
unfolding slow_handler http_error write write_header
slow_handler-IsQuiet r x = ground arith

pub flaky_handler-IsQuiet : (p : Platform) → IsQuiet (flaky_handler p)
unfolding flaky_handler http_error write write_header
flaky_handler-IsQuiet p r x = ground arith

pub panic_handler-IsQuiet : IsQuiet panic_handler
unfolding panic_handler
panic_handler-IsQuiet r x = refl

pub crash_handler-IsQuiet : IsQuiet crash_handler
unfolding crash_handler write
crash_handler-IsQuiet r x = refl

pub memleak_handler-IsQuiet : IsQuiet memleak_handler
unfolding memleak_handler write
memleak_handler-IsQuiet r x = refl

pub memleak_reset_handler-IsQuiet : IsQuiet memleak_reset_handler
unfolding memleak_reset_handler write
memleak_reset_handler-IsQuiet r x = refl

pub work_handler-IsQuiet : IsQuiet work_handler
unfolding work_handler write
work_handler-IsQuiet r x = refl

pub chaos_guard-IsQuiet : (p : Platform) (h : Handler) → IsQuiet h → IsQuiet (chaos_guard p h)
unfolding chaos_guard http_error write write_header
chaos_guard-IsQuiet p h quiet r x = elim (Bool-cases (chaos_enabled p)) [
  | inl on ↦ rw (on, chaos_guard) (quiet r x)
  | inr off ↦ rw (off, chaos_guard)
]
