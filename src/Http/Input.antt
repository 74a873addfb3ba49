-- ===== src/Http/Input.antt =====
-- What the handlers of internal/httpapi/handlers.go read of a request: parseCreate, wantsHTML and
-- clientIP. encoding/json and net.SplitHostPort are parameters.
use projet_etude_app_demo.Prelude.{
  ℕ, ltb, Bool, true, not, ◌&&◌, Bytes, str, is_empty, has_prefix, contains_str, trim_space,
  split_at_byte, length, Option, none, some, if◌then◌else◌, ◌∷◌, [], ◌⊎◌, inl, inr,
}
use projet_etude_app_demo.Model.{Priority, priority_medium, valid_priority}
use projet_etude_app_demo.Request.{Request}
use projet_etude_app_demo.Store.Exec.{message, Result, ok, err}

-- The struct that parseCreate decodes into.
pub record CreateBody : Type 0 where
  pub title : Bytes
  pub description : Bytes
  pub priority : Bytes

-- oauth2.Config: AuthCodeURL of a state, and the id_token of Exchange's token for a code, or none if
-- the token has none.
pub record Oauth : Type 0 where
  pub auth_code_url : Bytes → Bytes
  pub exchange : Bytes → Result (Option Bytes)

-- A float64: a finite one is its sign, and a multiple of 2^(exponent - 1074).
pub data Float64 : Type 0 where
  nan : Float64
  infinite : (negative : Bool) → Float64
  finite : (negative : Bool) → (mantissa exponent : ℕ) → Float64

-- json.NewDecoder(r.Body).Decode of a CreateBody; the host of net.SplitHostPort; net.ParseIP,
-- printed again; the value of strconv.ParseFloat, its error left aside; and os.Getenv of
-- DEMO_CHAOS_ENABLED.
pub record Platform : Type 0 where
  pub decode_create : Bytes → Result CreateBody
  pub split_host : Bytes → Option Bytes
  pub canonical_ip : Bytes → Option Bytes
  pub oauth : Oauth
  pub parse_float : Bytes → Float64
  pub chaos_env : Bytes

-- A priority that is not given is medium.
abbrev pub given_priority : Bytes → Priority
given_priority [] = priority_medium
given_priority (c ∷ s) = c ∷ s

-- The checks at the end of parseCreate, on a title that is trimmed.
unfoldable pub checked : Bytes → Bytes → Priority → Result (Bytes × Bytes × Priority)
unfolding valid_priority
checked title description priority =
    if is_empty title
    then err (message (str "title required"))
    else if ltb 200 (length title)
    then err (message (str "title too long (max 200)"))
    else if not (valid_priority priority)
    then err (message (str "invalid priority"))
    else ok (title, description, priority)

abbrev pub checked_body : Result CreateBody → Result (Bytes × Bytes × Priority)
checked_body (err e) = err e
checked_body (ok b) = checked (trim_space b.title) b.description (given_priority b.priority)

abbrev pub form_body : Bytes ⊎ (Bytes → Bytes) → Result CreateBody
form_body (inl e) = err (message e)
form_body (inr value) = ok (record {
  title = value (str "title");
  description = value (str "description");
  priority = value (str "priority");
})

abbrev pub is_json : Request → Bool
is_json r = has_prefix (str "application/json") (r.header (str "Content-Type"))

unfoldable pub parse_create : Platform → Request → Result (Bytes × Bytes × Priority)
unfolding checked
parse_create p r =
    if is_json r then checked_body (p.decode_create r.body) else checked_body (form_body r.form)

unfoldable pub wants_html : Request → Bool
wants_html r =
    if not (is_empty (r.header (str "HX-Request")))
    then true
    else contains_str (r.header (str "Accept")) (str "text/html")
      && not (contains_str (r.header (str "Accept")) (str "application/json"))

-- The first address of X-Forwarded-For, or the host of the connection.
unfoldable pub client_ip : Platform → Request → Bytes
client_ip p r =
    let forwarded = r.header (str "X-Forwarded-For") in
    if not (is_empty forwarded)
    then (elim (split_at_byte b',' forwarded) [
      | none ↦ trim_space forwarded
      | some (first, rest) ↦ trim_space first
    ])
    else (elim (p.split_host r.remote_addr) [ none ↦ r.remote_addr | some host ↦ host ])
