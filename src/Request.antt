-- ===== src/Request.antt =====
-- What the program reads of an *http.Request, and the context that it carries. Header.Get, the query
-- and the cookies of net/http give "" (or none) for what is not there. `form` is what ParseForm gives:
-- the text of its error, or the FormValue that it makes.
use projet_etude_app_demo.Prelude.{ℕ, Bytes, str, str_eq, Bool, ◌||◌, ◌⊎◌, Option, some}
use projet_etude_app_demo.Metrics.{Span}

pub data Role : Type 0 where
  anonymous viewer operator : Role

-- Principal of internal/auth/auth.go.
pub record Principal : Type 0 where
  pub sub : Bytes
  pub email : Bytes
  pub role : Role

-- The values that the program keeps in a context.Context.
pub record Context : Type 0 where
  pub principal : Option Principal
  pub span : Span

-- What the surroundings do while a request is handled: the number that rand.Int draws below 2^53, or
-- none if it fails; the bytes that rand.Read fills; whether the client leaves before a delay is over;
-- and how many batches of 10,000 rounds /work does in so many milliseconds.
pub record Chance : Type 0 where
  pub draw : Option ℕ
  pub bytes : ℕ → Bytes
  pub gone : Bool
  pub batches : ℕ → ℕ

pub record Request : Type 0 where
  pub context : Context
  pub header : Bytes → Bytes
  pub cookie : Bytes → Option Bytes
  pub query : Bytes → Bytes
  pub path_id : Bytes
  pub body : Bytes
  pub form : Bytes ⊎ (Bytes → Bytes)
  pub url_scheme : Bytes
  pub remote_addr : Bytes
  pub chance : Chance

-- r.WithContext(WithPrincipal(r.Context(), p))
unfoldable pub with_principal : Principal → Request → Request
with_principal p r = record r { context = record r.context { principal = some p } }

-- r.URL.Scheme == "https" || r.Header.Get("X-Forwarded-Proto") == "https"
abbrev pub is_https : Request → Bool
is_https r =
    str_eq r.url_scheme (str "https") || str_eq (r.header (str "X-Forwarded-Proto")) (str "https")
